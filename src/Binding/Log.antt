-- ===== src/Binding/Log.antt =====
-- Logging from Lua: `_log`, `_log_error`, `_log_enabled` and `_log_config` of src/lservice.c.
pub mod Config
use service_lua.Base.{
  ℕ, zero, suc, ◌+◌, Bool, true, false, ◌||◌, not, Option, none, some, List, [], ◌∷◌, ◌++◌,
  if◌then◌else◌, ltb, leb, ◌==◌, ℤ, pos, negsuc,
}
use service_lua.Log.{
  Logger, log_off, log_parse_level, log_parse_format, log_level_name, log_format_name,
  log_set_level, log_set_format, log_enabled, log_write, codes,
}
use service_lua.Binding.Api.{
  Arg, LuaError, isnoneornil, Return, throws, returns, ◌>>=◌, check_integer, check_string,
  check_light, bad_level, bad_format,
}

-- `check_log_level`, for the argument with a number
unfoldable pub check_log_level : ℕ → Arg → Return ℕ
check_log_level i a = check_string i a >>= λ name. elim (log_parse_level (some name)) [
  | none ↦ throws (bad_level i)
  | some level ↦ if level == log_off then throws (bad_level i) else returns level
]

-- `luaL_optstring` with NULL, and `luaL_optinteger` with 0, whose value is what `snprintf` prints
abbrev pub opt_string : ℕ → Arg → Return (Option (List ℕ))
opt_string i a = if isnoneornil a then returns none else check_string i a >>= λ s. returns (some s)

abbrev pub opt_integer : ℕ → Arg → Return ℤ
opt_integer i a = if isnoneornil a then returns (pos 0) else check_integer i a

-- What a record is written with: the level, the file, the line, the id of the service, none for the
-- host, and the message.
pub record Entry : Type 0 where
  pub level : ℕ
  pub file : Option (List ℕ)
  pub line : ℤ
  pub service : Option ℕ
  pub message : List ℕ

-- `write_log`: the call of `log_write`, if there is one. `id` is that of the service at the address of the
-- first argument.
unfoldable pub write_log : Logger → ℕ → ℕ → Arg → ℕ → Arg → Arg → Arg → Return (Option Entry)
write_log g level id addr i message file line = check_string i message >>= λ text.
    opt_string (i + 1) file >>= λ f. opt_integer (i + 2) line >>= λ l.
    if not (log_enabled level g)
    then returns none
    else if isnoneornil addr
    then returns
        (some (record { level = level; file = f; line = l; service = none; message = text }))
    else check_light 1 addr >>= λ p.
        returns
          (some (record { level = level; file = f; line = l; service = some id; message = text }))

unfoldable pub lservice_log : Logger → ℕ → Arg → Arg → Arg → Arg → Arg → Return (Option Entry)
unfolding check_log_level write_log
lservice_log g id addr level message file line =
    check_log_level 2 level >>= λ l. write_log g l id addr 3 message file line

-- `LOG_ERROR`
abbrev pub log_error_level : ℕ
log_error_level = 3

unfoldable pub lservice_log_error : Logger → ℕ → Arg → Arg → Arg → Arg → Return (Option Entry)
unfolding write_log
lservice_log_error g id addr message file line =
    write_log g log_error_level id addr 2 message file line

unfoldable pub lservice_log_enabled : Logger → Arg → Return Bool
unfolding check_log_level
lservice_log_enabled g level = check_log_level 1 level >>= λ l. returns (log_enabled l g)

-- The checks of `lservice_log_config`: the level and the format, none for -1. What the parser did not find is
-- an error.
abbrev pub known : LuaError → Option ℕ → Return (Option ℕ)
known e none = throws e
known e (some v) = returns (some v)

unfoldable pub config_level : Arg → Return (Option ℕ)
config_level a =
    if isnoneornil a
    then returns none
    else check_string 1 a >>= λ name. known (bad_level 1) (log_parse_level (some name))

unfoldable pub config_format : Arg → Return (Option ℕ)
config_format a =
    if isnoneornil a
    then returns none
    else check_string 2 a >>= λ name. known (bad_format 2) (log_parse_format (some name))

abbrev pub set_level : Option ℕ → Logger → Logger
set_level none g = g
set_level (some l) g = log_set_level l g

abbrev pub set_format : Option ℕ → Logger → Logger
set_format none g = g
set_format (some f) g = log_set_format f g

-- Both checks of `lservice_log_config`
unfoldable pub check_config : Arg → Arg → Return (Option ℕ × Option ℕ)
unfolding config_level config_format
check_config level format = config_level level >>= λ l. config_format format >>= λ f. returns (l, f)

-- The settings applied, and the names of what is in effect then, none for NULL
unfoldable pub apply_config :
    Return (Option ℕ × Option ℕ) → Logger → Return (Option (List ℕ) × Option (List ℕ)) × Logger
apply_config (throws e) g = (throws e, g)
apply_config (returns (l, f)) g =
    let g' = set_format f (set_level l g) in
    (returns (log_level_name g'.level, log_format_name g'.format), g')

unfoldable pub lservice_log_config :
    Logger → Arg → Arg → Return (Option (List ℕ) × Option (List ℕ)) × Logger
unfolding check_config apply_config
lservice_log_config g level format = apply_config (check_config level format) g
