-- ===== src/Log/Init.antt =====
-- How src/log.c starts: the environment of the process is read once.
use service_lua.Base.{
  ℕ, ◌+◌, ◌≤◌, ◌<◌, ◌≡◌, refl, Bool, false, ◌&&◌, Option, none, some, List, [], ◌∷◌, ◌++◌,
  if◌then◌else◌, ◌==◌, leb, arith, length, Bool-cases, Option-cases, inl, inr,
}
use service_lua.Log.{
  Logger, codes, log_warn, log_off, log_format_journal, log_line_max, log_parse_level,
  log_parse_format, log_init, emit, log_set_level, log_set_format, parse_from, same_ignoring_case,
  level_names, format_names,
}
use service_lua.Log.Emit.{emit_bound}

-- SERVICE_LOG_LEVEL, SERVICE_LOG_FORMAT, the two numbers that `sscanf` reads from JOURNAL_STREAM, and the
-- device and the inode of stderr by `fstat`; none is a variable that is not set, or a failure.
pub record Environment : Type 0 where
  pub level : Option (List ℕ)
  pub format : Option (List ℕ)
  pub journal_stream : Option (ℕ × ℕ)
  pub stderr : Option (ℕ × ℕ)

unfoldable pub stderr_is_journal : Option (ℕ × ℕ) → Option (ℕ × ℕ) → Bool
stderr_is_journal none stat = false
stderr_is_journal (some (dev, ino)) none = false
stderr_is_journal (some (dev, ino)) (some (st_dev, st_ino)) = (st_dev == dev) && (st_ino == ino)

-- `emit_now` at the level of a warning, without a location
unfoldable pub emit_now : Logger → List ℕ → List ℕ → List ℕ
unfolding emit
emit_now g stamp text = emit (g.format == log_format_journal) (codes "<4>") stamp none text

-- A warning of `log_init` about a name that is set and does not parse
unfoldable pub warning : Option (List ℕ) → Option ℕ → Logger → List ℕ → List ℕ → List (List ℕ)
unfolding emit_now
warning none parsed g stamp text = []
warning (some name) (some n) g stamp text = []
warning (some name) none g stamp text =
    if leb g.level log_warn then emit_now g stamp (text ++ name) ∷ [] else []

-- The whole of `log_init`: the logger, and the lines that it writes. The stamps are the times of the two.
unfoldable pub run_init : Environment → List ℕ → List ℕ → Logger × List (List ℕ)
unfolding stderr_is_journal log_init warning log_parse_level log_parse_format
run_init env stamp stamp' =
    let g = log_init env.level env.format (stderr_is_journal env.journal_stream env.stderr) in
    (
      g,
      warning env.level (log_parse_level env.level) g stamp
            (codes "ignoring invalid SERVICE_LOG_LEVEL: ")
          ++ warning env.format (log_parse_format env.format) g stamp'
              (codes "ignoring invalid SERVICE_LOG_FORMAT: "),
    )

-- `ensure_init`: `pthread_once` runs `log_init` in the first call. The logger is none before it.
unfoldable pub ensure_init : Environment → List ℕ → List ℕ → Option Logger → Logger × List (List ℕ)
unfolding run_init
ensure_init env stamp stamp' none = run_init env stamp stamp'
ensure_init env stamp stamp' (some g) = (g, [])

unfoldable pub log_get_level : Logger → ℕ
log_get_level g = g.level

unfoldable pub log_get_format : Logger → ℕ
log_get_format g = g.format

-- What is known of the lines that are written
abbrev pub AllLines : List (List ℕ) → Type 0
AllLines [] = Unit {0}
AllLines (l ∷ ls) =
    ((line : List ℕ) × (l ≡ line ++ (10 ∷ [])) × (length l ≤ log_line_max)) × AllLines ls

AllLines-append : (xs ys : List (List ℕ)) → AllLines xs → AllLines ys → AllLines (xs ++ ys)
AllLines-append [] ys p q = q
AllLines-append (x ∷ xs) ys p q = (p.0, AllLines-append xs ys p.1 q)

prefix-short : length (codes "<4>") < 4095
prefix-short = omega arith

warning-AllLines :
    (name : Option (List ℕ)) (parsed : Option ℕ) (g : Logger) (stamp text : List ℕ)
    → length stamp < 4095
    → AllLines (warning name parsed g stamp text)
unfolding warning emit_now
warning-AllLines none parsed g stamp text h = tt
warning-AllLines (some name) (some n) g stamp text h = tt
warning-AllLines (some name) none g stamp text h = elim (Bool-cases (leb g.level log_warn)) [
  | inl loud ↦ rw loud (
    emit_bound (g.format == log_format_journal) (codes "<4>") stamp none (text ++ name) prefix-short
        h,
    tt,
  )
  | inr quiet ↦ rw quiet tt
]

-- The settings that the logger has after the first call
abbrev pub InRange : Logger → Type 0
InRange g = (g.level ≤ log_off) × (g.format ≤ log_format_journal)

parse_from-lt :
    (i l : ℕ) (name : List ℕ) (names : List (List ℕ))
    → parse_from i name names ≡ some l
    → l < i + length names
unfolding parse_from
parse_from-lt i l name [] e = cc e
parse_from-lt i l name (n ∷ names) e = elim (Bool-cases (same_ignoring_case name n)) [
  | inl found ↦ ground (arith, found, e)
  | inr other ↦
      let rest : parse_from (i + 1) name names ≡ some l = ground (arith, other, e) in
      omega (arith, parse_from-lt (i + 1) l name names rest)
]

parse_level-le : (name : Option (List ℕ)) (l : ℕ) → log_parse_level name ≡ some l → l ≤ log_off
unfolding log_parse_level
parse_level-le none l e = cc e
parse_level-le (some name) l e = omega (arith, parse_from-lt 0 l name level_names e)

parse_format-le :
    (name : Option (List ℕ)) (l : ℕ) → log_parse_format name ≡ some l → l ≤ log_format_journal
unfolding log_parse_format
parse_format-le none l e = cc e
parse_format-le (some name) l e = omega (arith, parse_from-lt 0 l name format_names e)

log_init-InRange :
    (level format : Option (List ℕ)) (journal : Bool) → InRange (log_init level format journal)
unfolding log_init
log_init-InRange level format journal = (in_level, in_format)
  where
    in_level : (log_init level format journal).level ≤ log_off
    in_level = elim (Option-cases (log_parse_level level)) [
      | inl unset ↦ rw (unset, log_init) (omega arith)
      | inr (l, parsed) ↦ rw (parsed, log_init) (parse_level-le level l parsed)
    ]

    in_format : (log_init level format journal).format ≤ log_format_journal
    in_format = elim (Option-cases (log_parse_format format)) [
      | inl unset ↦ rw (unset, log_init) (ground arith)
      | inr (f, parsed) ↦ rw (parsed, log_init) (parse_format-le format f parsed)
    ]

set-InRange :
    (level format : ℕ) (g : Logger)
    → InRange g
    → InRange (log_set_level level (log_set_format format g))
unfolding log_set_level log_set_format
set-InRange level format g h = ground (arith, h.0, h.1)

-- What a call of `ensure_init` comes to, from a logger that was initialised before or not
pub record Ready (env : Environment) (stamp stamp' : List ℕ) (out : Logger × List (List ℕ))
    : Type 0 where
  pub in_range : InRange out.0
  pub lines : AllLines out.1
  pub again : ensure_init env stamp stamp' (some out.0) ≡ (out.0, [])
  pub sets : (level format : ℕ) → InRange (log_set_level level (log_set_format format out.0))

-- Whatever the environment holds, and whether or not the logger has been initialised before: behind
-- `ensure_init` the level and the format are ones that have a name, and stay so whatever they are set to
-- later; each line that it writes is 4096 bytes at most and ends in a newline; a further call changes nothing
-- and writes nothing.
pub ensure_init-Ready :
    (env : Environment) (stamp stamp' : List ℕ) (once : Option Logger)
    → length stamp < 4095
    → length stamp' < 4095
    → ((g : Logger) → once ≡ some g → InRange g)
    → Ready env stamp stamp' (ensure_init env stamp stamp' once)
unfolding ensure_init run_init
ensure_init-Ready env stamp stamp' none h h' before =
    let g = log_init env.level env.format (stderr_is_journal env.journal_stream env.stderr) in
    let fits =
      log_init-InRange env.level env.format (stderr_is_journal env.journal_stream env.stderr) in
    record {
      in_range = fits;
      lines =
          AllLines-append _ _ (warning-AllLines env.level (log_parse_level env.level) g stamp _ h)
            (warning-AllLines env.format (log_parse_format env.format) g stamp' _ h');
      again = refl;
      sets = λ level format. set-InRange level format g fits;
    }
ensure_init-Ready env stamp stamp' (some g) h h' before = record {
  in_range = before g refl;
  lines = tt;
  again = refl;
  sets = λ level format. set-InRange level format g (before g refl);
}
