-- ===== src/Log.antt =====
-- src/log.c: the level, the format, and one line of text for each record. What `vsnprintf`, `strftime` and
-- `snprintf` print comes in as bytes.
pub mod Emit
pub mod Write
pub mod Journal
pub mod Names
pub mod Init
mod Tests
use Prim.Native.Char.{code}
use Prim.Native.String
use Prim.Native.String.{String}
use service_lua.Base.{
  ℕ, zero, suc, ◌+◌, ◌-◌, ◌%◌, ◌^◌, Bool, true, false, ◌&&◌, ◌||◌, not, Option, none, some, List,
  [], ◌∷◌, ◌++◌, if◌then◌else◌, ◌==◌, ltb, leb, length, take, drop, size_mod,
}

abbrev pub codes : String → List ℕ
codes String.[] = []
codes (String.◌∷◌ c s) = code c ∷ codes s

abbrev pub log_line_max : ℕ
log_line_max = 4096

abbrev pub log_debug : ℕ
log_debug = 0

abbrev pub log_info : ℕ
log_info = 1

abbrev pub log_warn : ℕ
log_warn = 2

abbrev pub log_off : ℕ
log_off = 4

abbrev pub log_format_text : ℕ
log_format_text = 0

abbrev pub log_format_journal : ℕ
log_format_journal = 1

abbrev pub level_names : List (List ℕ)
level_names = codes "debug" ∷ codes "info" ∷ codes "warn" ∷ codes "error" ∷ codes "off" ∷ []

abbrev pub journal_prefixes : List (List ℕ)
journal_prefixes = codes "<7>" ∷ codes "<6>" ∷ codes "<4>" ∷ codes "<3>" ∷ []

abbrev pub format_names : List (List ℕ)
format_names = codes "text" ∷ codes "journal" ∷ []

-- `tolower` of the C locale, on which `strcasecmp` rests
abbrev pub to_lower : ℕ → ℕ
to_lower c = if leb 65 c && leb c 90 then c + 32 else c

-- `strcasecmp(a, b) == 0`
unfoldable pub same_ignoring_case : List ℕ → List ℕ → Bool
same_ignoring_case [] [] = true
same_ignoring_case [] (b ∷ bs) = false
same_ignoring_case (a ∷ as') [] = false
same_ignoring_case (a ∷ as') (b ∷ bs) =
    let rest = same_ignoring_case as' bs in if to_lower a == to_lower b then rest else false

-- The loop of `parse_name` from `i` on; none is -1.
unfoldable pub parse_from : ℕ → List ℕ → List (List ℕ) → Option ℕ
parse_from i name [] = none
parse_from i name (n ∷ names) =
    let rest = parse_from (i + 1) name names in if same_ignoring_case name n then some i else rest

-- none as the name is NULL.
unfoldable pub parse_name : Option (List ℕ) → List (List ℕ) → Option ℕ
unfolding parse_from
parse_name none names = none
parse_name (some name) names = parse_from 0 name names

unfoldable pub log_parse_level : Option (List ℕ) → Option ℕ
unfolding parse_name
log_parse_level name = parse_name name level_names

unfoldable pub log_parse_format : Option (List ℕ) → Option ℕ
unfolding parse_name
log_parse_format name = parse_name name format_names

abbrev pub name_at : List (List ℕ) → ℕ → Option (List ℕ)
name_at [] i = none
name_at (n ∷ names) zero = some n
name_at (n ∷ names) (suc i) = name_at names i

-- `log_level_name` and `log_format_name`, for a level and a format that is not negative
unfoldable pub log_level_name : ℕ → Option (List ℕ)
log_level_name level = if leb level log_off then name_at level_names level else none

unfoldable pub log_format_name : ℕ → Option (List ℕ)
log_format_name format = if leb format log_format_journal then name_at format_names format else none

-- `append`: `buf` holds the `pos` bytes so far. The room is a size_t.
unfoldable pub append : List ℕ → List ℕ → List ℕ
append buf s =
    let room = (size_mod + (log_line_max - 1) - length buf) % size_mod in
    buf ++ (if ltb room (length s) then take room s else s)

-- The end of the line that starts `p`: up to the first newline, that one included, and whether there
-- was one. The rest comes second.
unfoldable pub split_line : List ℕ → List ℕ × List ℕ × Bool
split_line [] = ([], [], false)
split_line (c ∷ cs) =
    let (line, rest, nl) = split_line cs in
    if c == 10 then (c ∷ [], cs, true) else (c ∷ line, rest, nl)

unfoldable pub is_empty : List ℕ → Bool
is_empty [] = true
is_empty (c ∷ cs) = false

-- The loop of `emit`, with what is left of the message: the buffer, and `truncated`. The message is
-- shorter than the fuel.
unfoldable pub emit_lines : ℕ → Bool → List ℕ → List ℕ → List ℕ → List ℕ × Bool
unfolding append split_line is_empty
emit_lines zero journal prefix p buf = (buf, false)
emit_lines (suc f) journal prefix p buf = elim (is_empty p) [
  | true ↦ (buf, false)
  | false ↦
      let (chunk, rest, nl) = split_line p in
      let buf₁ = append buf chunk in
      elim (ltb (length buf₁ - length buf) (length chunk)) [
        | true ↦ (buf₁, true)
        | false ↦ elim (nl && not (is_empty rest) && journal) [
          | false ↦ emit_lines f journal prefix rest buf₁
          | true ↦
              let buf₂ = append buf₁ prefix in
              elim (ltb (length buf₂ - length buf₁) (length prefix)) [
                | true ↦ (buf₂, true)
                | false ↦ emit_lines f journal prefix rest buf₂
              ]
        ]
      ]
]

-- `LOG_TRUNCATED`
abbrev pub log_truncated : List ℕ
log_truncated = codes "..."

-- The mark of a line cut short
unfoldable pub mark_truncated : Bool → List ℕ → List ℕ
unfolding append
mark_truncated false buf = buf
mark_truncated true buf =
    let limit = log_line_max - 1 - length log_truncated in
    append (if ltb limit (length buf) then take limit buf else buf) log_truncated

-- The location "file:line: ", as far as `snprintf` has room for it and its final zero
unfoldable pub add_location : Option (List ℕ) → List ℕ → List ℕ
add_location none buf = buf
add_location (some location) buf =
    let size = log_line_max - 1 - length buf in
    buf ++ (if ltb (length location) size then location else take (size - 1) location)

-- `emit`: the line that it writes. `text` is all that `vsnprintf` would print, `stamp` the time and the
-- label of the text format, `prefix` the priority of the journal's.
unfoldable pub emit : Bool → List ℕ → List ℕ → Option (List ℕ) → List ℕ → List ℕ
unfolding add_location emit_lines mark_truncated
emit journal prefix stamp location text =
    let message = take (log_line_max - 1) text in
    let start = add_location location (if journal then append [] prefix else stamp) in
    let (buf, cut) =
      emit_lines (length message + 1) journal (if journal then prefix else []) message start in
    mark_truncated (leb log_line_max (length text) || cut) buf ++ (10 ∷ [])

-- What `write(2)` answers: it took some bytes, was interrupted, or failed.
pub data WriteResult : Type 0 where
  wrote : ℕ → WriteResult
  interrupted : WriteResult
  failed : WriteResult

-- `write_all`, for the answers of the calls in turn: what has been written, and whether the loop has
-- ended.
unfoldable pub write_all : List WriteResult → List ℕ → List ℕ × Bool
write_all answers [] = ([], true)
write_all [] (c ∷ cs) = ([], false)
write_all (WriteResult.wrote n ∷ answers) (c ∷ cs) =
    let (out, done) = write_all answers (drop n (c ∷ cs)) in (take n (c ∷ cs) ++ out, done)
write_all (WriteResult.interrupted ∷ answers) (c ∷ cs) = write_all answers (c ∷ cs)
write_all (WriteResult.failed ∷ answers) (c ∷ cs) = ([], true)

-- `current_level` and `current_format`
pub record Logger : Type 0 where
  pub level : ℕ
  pub format : ℕ

-- `log_init`, from the two variables of the environment and whether stderr is the journal's stream. The
-- warnings about names that are not known are left out.
unfoldable pub log_init : Option (List ℕ) → Option (List ℕ) → Bool → Logger
unfolding log_parse_level log_parse_format
log_init level_env format_env journal = record {
  level = elim (log_parse_level level_env) [ none ↦ log_info | some l ↦ l ];
  format = elim (log_parse_format format_env) [
    | none ↦ if journal then log_format_journal else log_format_text
    | some f ↦ f
  ];
}

-- Behind `ensure_init`, for a level and a format that are not negative
unfoldable pub log_set_level : ℕ → Logger → Logger
log_set_level level g = if leb level log_off then record g { level = level } else g

unfoldable pub log_set_format : ℕ → Logger → Logger
log_set_format format g = if leb format log_format_journal then record g { format = format } else g

unfoldable pub log_enabled : ℕ → Logger → Bool
log_enabled level g = ltb level log_off && leb g.level level

-- `log_write`: the line handed to `write_all`, if any.
unfoldable pub log_write : ℕ → Logger → List ℕ → Option (List ℕ) → List ℕ → Option (List ℕ)
unfolding log_enabled emit
log_write level g stamp location text =
    if not (log_enabled level g) then none else elim (name_at journal_prefixes level) [
      | none ↦ none
      | some prefix ↦ some (emit (g.format == log_format_journal) prefix stamp location text)
    ]
