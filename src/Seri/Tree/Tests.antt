-- ===== src/Seri/Tree/Tests.antt =====
-- A message with a table in a table.
use service_lua.Base.{
  if◌then◌else◌, ◌==◌, ℕ, ◌^◌, ◌<◌, ◌≡◌, ◌⊎◌, inl, inr, refl, true, none, List, [], ◌∷◌, arith,
  length,
}
use service_lua.Seri.Value.{LuaTable, Heap, Value, nil, boolean, number, string, table}
use service_lua.Seri.Result.{ok}
use service_lua.Seri.Stream.{Reader, index, key, is_nil, is_nan}
use service_lua.Seri.Pack.{seri_pack}
use service_lua.Seri.Unpack.{seri_unpack}
use service_lua.Seri.Encode.{encode, encode_string}
use service_lua.Seri.Tree.{
  Items, leaf, node, no_items, item, no_entries, entry, AreTrees, IsIndex, encode_size,
  encode_items, copy, copy_items,
}
use service_lua.Seri.Tree.RoundTrip.{AllShown, values, copies, seri_unpack-trees}

-- The double 1.0
abbrev one : Value
one = number 0x3ff0000000000000

-- { true, k = {} } at address 7, and {} at 8
abbrev outer : LuaTable
outer = record {
  objlen = 1;
  rawgeti = λ i. boolean true;
  entries = (one, boolean true) ∷ (string (107 ∷ []), table 8) ∷ [];
  pairs = none;
}

abbrev inner : LuaTable
inner = record { objlen = 0; rawgeti = λ i. nil; entries = []; pairs = none }

abbrev nested : Heap
nested a = if a == 7 then outer else inner

abbrev message : Items
message =
    item
      (node 7 (item (leaf (boolean true)) no_items)
        (entry (string (107 ∷ [])) (node 8 no_items no_entries) no_entries))
      (item (leaf (boolean true)) no_items)

abbrev one_bits : ℕ
one_bits = 0x3ff0000000000000

no_index : IsIndex 1 (string (107 ∷ [])) → ⊥
no_index (n, bits, is, d, low, high) = cc is

message-Shown : AllShown nested message
unfolding is_nil is_nan
message-Shown = (
  (
    refl,
    refl,
    omega arith,
    (refl, tt, tt),
    (
      (string (107 ∷ []), table 8) ∷ [],
      inl (
        (1, one_bits, refl, (0, omega arith, refl, refl), omega arith, omega arith),
        (inr ((λ i. no_index i), ([], refl, refl))),
      ),
      ([], refl, omega arith, refl, refl, (refl, refl, omega arith, tt, ([], refl, refl)), refl),
    ),
  ),
  (tt, tt),
)

nowhere : ⊥ ⊎ ⊥ → ⊥
nowhere (inl n) = n
nowhere (inr n) = n

message-AreTrees : AreTrees message
message-AreTrees = (
  (λ a m n. nowhere n),
  (
    λ n. nowhere n,
    λ m. ground (arith, m),
    λ a n m. nowhere n,
    (λ a n m. n, tt, tt),
    (λ a m n. n, (λ n. n, λ n. n, λ a n m. n, tt, tt), tt),
  ),
  (λ a n m. n, tt, tt),
)

message-length : length (encode_items message) < 2 ^ 31
unfolding encode_items encode_size encode encode_string
message-length = omega arith

message_copies : copies 0 message ≡ (
  table 0 ∷ boolean true ∷ [],
  ((index 1, boolean true) ∷ (key (string (107 ∷ [])), table 1) ∷ []) ∷ [] ∷ [],
)
unfolding copy copy_items
message_copies = refl

seri_unpack-trees_example :
    (packed : List ℕ) × (s : Reader) × (seri_pack 5 nested (values message)
      ≡ ok (packed, length packed))
    × (seri_unpack (λ _. 0) packed ≡ ok ((copies 0 message).0, s))
    × (s.tables ≡ (copies 0 message).1)
    × (s.rest ≡ [])
seri_unpack-trees_example =
    seri_unpack-trees (λ _. 0) 5 nested message message-Shown message-AreTrees (omega arith)
      message-length
