-- ===== src/Seri/Result.antt =====
-- Outcomes of packing and unpacking: an error raised by `luaL_error`, or a failed `assert`.
use service_lua.Base.{ℕ, ℤ}
use service_lua.Seri.Block.{WriteBlock}

-- `seri` names what went wrong; a raise while packing comes with the blocks as they are left.
pub data SeriError : Type 0 where
  not_light : WriteBlock → SeriError  -- Only light C function can be serialized
  unsupported : WriteBlock → SeriError  -- Unsupport type %s to serialize
  assertion : SeriError
  invalid_stream : ℕ → SeriError
  invalid_object : ℤ → SeriError
  invalid_ref : ℕ → ℕ → SeriError
  invalid_boolean : ℕ → SeriError
  invalid_userdata : SeriError
  nan_index : SeriError

-- What a step of the packer or the reader comes to. `outside` is a read of memory outside the buffer, behind
-- which anything may happen; `out_of_fuel` has no counterpart in the program.
pub data Result {ℓ} (Out : Type ℓ) : Type ℓ where
  raised : SeriError → Result Out
  outside : Result Out
  out_of_fuel : Result Out
  ok : Out → Result Out

-- The steps behind a `luaL_error` are not taken.
infixl 5 ◌>>=◌
abbrev pub ◌>>=◌ {ℓ m} : {In : Type ℓ} {Out : Type m} → Result In → (In → Result Out) → Result Out
raised error >>= next = raised error
outside >>= next = outside
out_of_fuel >>= next = out_of_fuel
ok value >>= next = next value
