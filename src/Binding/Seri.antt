-- ===== src/Binding/Seri.antt =====
-- The serializer from Lua: the last functions of src/lua-seri.c. `memory` is what stands at an address, as many
-- bytes as the buffer's header says.
pub mod Journey
mod Tests
use service_lua.Base.{
  ℕ, zero, suc, Bool, true, false, ◌||◌, List, [], ◌∷◌, if◌then◌else◌, ◌==◌, ℤ, pos,
}
use service_lua.Seri.Value.{Value, Heap}
use service_lua.Seri.Result.{Result, raised, outside, out_of_fuel, ok, ◌>>=◌}
use service_lua.Seri.Stream.{Reader}
use service_lua.Seri.Unpack.{seri_unpack}
use service_lua.Seri.Pack.{seri_pack}
use service_lua.Binding.Api.{Arg, isnoneornil, integer_arg, light_arg}

-- `luaseri_pack`, with the address that malloc gives: a light userdata, the size, and the bytes at the address
unfoldable pub luaseri_pack : ℕ → Heap → List Value → ℕ → Result (Arg × Arg × List ℕ)
luaseri_pack f heap args p =
    seri_pack f heap args >>= λ (buffer, sz). ok (light_arg p, integer_arg (pos sz), buffer)

-- The values that a call of `seri_unpack` leaves on the stack
unfoldable pub unpacked : Result (List Value × Reader) → Result (List Value)
unpacked (raised e) = raised e
unpacked outside = outside
unpacked out_of_fuel = out_of_fuel
unpacked (ok (vs, s)) = ok vs

-- `seri_unpack_`. At NULL the read of the header is one of address 0.
unfoldable pub seri_unpack_ : (ℤ → ℕ) → (ℕ → List ℕ) → ℕ → Result (List Value)
unfolding unpacked
seri_unpack_ of_integer memory buffer =
    if buffer == 0 then outside else unpacked (seri_unpack of_integer (memory buffer))

-- `seri_unpackptr`: the values, or the error that it raises again, and what it has freed by then.
unfoldable pub seri_unpackptr : (ℤ → ℕ) → (ℕ → List ℕ) → ℕ → Result (List Value) × List ℕ
unfolding seri_unpack_
seri_unpackptr of_integer memory buffer =
    (seri_unpack_ of_integer memory buffer, if buffer == 0 then [] else buffer ∷ [])

unfoldable pub luaseri_unpack : (ℤ → ℕ) → (ℕ → List ℕ) → Arg → Result (List Value)
unfolding seri_unpack_
luaseri_unpack of_integer memory a =
    if isnoneornil a then ok [] else seri_unpack_ of_integer memory a.userdata

unfoldable pub luaseri_unpack_remove : (ℤ → ℕ) → (ℕ → List ℕ) → Arg → Result (List Value) × List ℕ
unfolding seri_unpackptr
luaseri_unpack_remove of_integer memory a =
    if isnoneornil a || a.userdata == 0
    then (ok [], [])
    else seri_unpackptr of_integer memory a.userdata
