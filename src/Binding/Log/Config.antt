-- ===== src/Binding/Log/Config.antt =====
-- `_log_config` changes both settings, or neither.
use service_lua.Base.{ℕ, ◌≤◌, ◌≡◌, Option, none, some, List}
use service_lua.Log.{Logger, log_parse_level, log_parse_format}
use service_lua.Binding.Api.{Return, returns}

-- A setting that was asked for is in effect, and one that was not is as before.
abbrev pub Applied : Option ℕ → ℕ → ℕ → Type 0
Applied none before after = after ≡ before
Applied (some v) before after = after ≡ v

abbrev pub Within : ℕ → Option ℕ → Type 0
Within n none = Unit
Within n (some v) = v ≤ n

abbrev Checked : Option ℕ × Option ℕ → Type 0
Checked r = Within 4 r.0 × Within 1 r.1

-- Both settings applied, and named in the answer
abbrev pub Configured :
    Option ℕ → Option ℕ → Logger → Return (Option (List ℕ) × Option (List ℕ)) → Logger → Type 0
Configured l f g answer g' =
    Applied l g.level g'.level
    × Applied f g.format g'.format
    × ((n : List ℕ) × (m : List ℕ) × (answer ≡ returns (some n, some m))
        × (log_parse_level (some n) ≡ some g'.level)
        × (log_parse_format (some m) ≡ some g'.format))
