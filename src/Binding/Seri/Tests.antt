-- ===== src/Binding/Seri/Tests.antt =====
-- A string and a boolean, packed and unpacked.
use service_lua.Base.{ℕ, ◌≡◌, refl, true, none, List, [], ◌∷◌, pos, arith, length}
use service_lua.Seri.Bytes.{le_bytes}
use service_lua.Seri.Value.{Value, Heap, nil, boolean, string}
use service_lua.Seri.Result.{ok}
use service_lua.Seri.Encode.{encode}
use service_lua.Seri.RoundTrip.{encode_all}
use service_lua.Service.Drain.Tests.{request}
use service_lua.Binding.Api.{returns, integer_arg, light_arg}
use service_lua.Binding.Message.{compose_payload, results_of}
use service_lua.Binding.Seri.{luaseri_pack, luaseri_unpack, luaseri_unpack_remove}
use service_lua.Binding.Seri.Journey.{store, luaseri_unpack_remove-luaseri_pack}

abbrev no_tables : Heap
no_tables p = record { objlen = 0; rawgeti = λ i. nil; entries = []; pairs = none }

abbrev values : List Value
values = boolean true ∷ string (104 ∷ 105 ∷ []) ∷ []

abbrev nothing : ℕ → List ℕ
nothing p = []

luaseri_unpack_remove-luaseri_pack_example :
    (buffer : List ℕ) × (luaseri_pack 1 no_tables values 9
      ≡ ok (light_arg 9, integer_arg (pos (length buffer)), buffer))
    × (compose_payload (light_arg 9) (integer_arg (pos (length buffer)))
        ≡ returns (9, length buffer))
    × (luaseri_unpack (λ n. 0) (store nothing 9 buffer) (results_of request).msg ≡ ok values)
    × (luaseri_unpack_remove (λ n. 0) (store nothing 9 buffer) (results_of request).msg
        ≡ (ok values, 9 ∷ []))
unfolding encode le_bytes
luaseri_unpack_remove-luaseri_pack_example =
    luaseri_unpack_remove-luaseri_pack (λ n. 0) nothing 9 (omega arith) 0 no_tables values request
      refl (tt, (omega arith, tt)) (unfold encode_all in omega arith)
