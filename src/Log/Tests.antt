-- ===== src/Log/Tests.antt =====
-- A record of the journal's format, which has to be cut.
use service_lua.Log.Init.{
  Environment, Ready, emit_now, ensure_init, ensure_init-Ready, run_init, stderr_is_journal,
  warning,
}
use service_lua.Base.{
  ℕ, ◌⊎◌, false, ◌≤◌, ◌≡◌, refl, true, none, some, List, [], ◌∷◌, ◌++◌, arith, length,
}
use service_lua.Log.{
  codes, emit, log_line_max, log_parse_level, log_parse_format, log_level_name, log_format_name,
  same_ignoring_case, WriteResult, write_all, is_empty, log_init, emit_lines, add_location,
  mark_truncated, append, split_line, parse_from,
}
use service_lua.Log.Names.{log_parse-log_name}
use service_lua.Log.Write.{HasFailed, write_all_lem}
use service_lua.Log.Journal.{continued, located, emit_journal}
use service_lua.Log.Emit.{emit_bound}

two_lines : emit true (codes "<6>") [] none (codes "a\nb") ≡ codes "<6>a\n<6>b\n"
unfolding emit
two_lines = refl

parse_upper : log_parse_level (some (codes "WARN")) ≡ some 2
unfolding log_parse_level same_ignoring_case
parse_upper = refl

emit_bound_example :
    (line : List ℕ) × (emit true (codes "<6>") [] none (codes "a\nb") ≡ line ++ (10 ∷ []))
    × (length (emit true (codes "<6>") [] none (codes "a\nb")) ≤ log_line_max)
emit_bound_example =
    emit_bound true (codes "<6>") [] none (codes "a\nb") (omega arith) (omega arith)

log_parse-log_name_example :
    (log_parse_level (some (codes "Warn")) ≡ some 2)
    × (log_parse_format (some (codes "Journal")) ≡ some 1)
unfolding same_ignoring_case log_level_name log_format_name
log_parse-log_name_example =
    log_parse-log_name 2 1 (codes "warn") (codes "journal") (codes "Warn") (codes "Journal") refl
      refl refl refl

write_all_lem_example :
    let (out, done) =
      write_all
        (WriteResult.wrote 2 ∷ WriteResult.interrupted ∷ WriteResult.wrote 1 ∷ [])
        (codes "abc") in
    (rest : List ℕ) × (codes "abc" ≡ out ++ rest)
    × ((done ≡ false)
        ⊎ ((rest ≡ [])
            ⊎ HasFailed (WriteResult.wrote 2 ∷ WriteResult.interrupted ∷ WriteResult.wrote 1 ∷ [])))
write_all_lem_example =
    write_all_lem (WriteResult.wrote 2 ∷ WriteResult.interrupted ∷ WriteResult.wrote 1 ∷ [])
      (codes "abc")

emit_journal_example :
    emit true (codes "<6>") [] none (codes "a\nb")
    ≡ ((codes "<6>" ++ located none) ++ continued (codes "<6>") (codes "a\nb")) ++ (10 ∷ [])
unfolding continued is_empty
emit_journal_example = emit_journal (codes "<6>") [] none (codes "a\nb") (omega arith)

-- A level that is not known, and the journal behind stderr
abbrev environment : Environment
environment = record {
  level = some (codes "loud");
  format = none;
  journal_stream = some (8, 21);
  stderr = some (8, 21);
}

environment_lem :
    (run_init environment [] []).1
    ≡ (codes "<4>ignoring invalid SERVICE_LOG_LEVEL: loud" ++ (10 ∷ [])) ∷ []
unfolding run_init log_init stderr_is_journal warning emit_now emit emit_lines add_location
    mark_truncated append split_line is_empty log_parse_level log_parse_format parse_from
    same_ignoring_case
environment_lem = refl

ensure_init-Ready_example : Ready environment [] [] (ensure_init environment [] [] none)
ensure_init-Ready_example =
    ensure_init-Ready environment [] [] none (omega arith) (omega arith) (λ g e. cc e)
