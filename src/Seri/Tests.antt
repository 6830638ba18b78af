-- ===== src/Seri/Tests.antt =====
-- Runs of the serializer on small inputs.
use service_lua.Base.{
  refl, if◌then◌else◌, ◌==◌, ℕ, ◌≡◌, true, none, some, List, [], ◌∷◌, ◌++◌, arith, ℤ, negsuc,
  length, ◌⊎◌,
}
use service_lua.Base.Int.{to_word, of_word}
use service_lua.Seri.Bytes.{le_bytes, of_le}
use service_lua.Seri.Block.{
  peek, copy_blocks, next_block, poke, push_rest, seri, wb_address, wb_init, wb_push,
}
use service_lua.Seri.Block.Append.{bytes, IsChain, wb_init-IsChain, wb_push_lem, seri_lem}
use service_lua.Seri.Value.{Value, LuaTable, Heap, nil, boolean, string, table, light_userdata}
use service_lua.Seri.Scalar.{
  fits_int32, is_zero, wb_boolean, wb_integer, wb_integer_int32, wb_nil, wb_string,
}
use service_lua.Seri.Result.{
  SeriError, invalid_stream, Result, raised, outside, ◌>>=◌, invalid_ref, ok,
}
use service_lua.Seri.Pack.{
  finish_pack, in_array, pack_array, pack_from, pack_one, pack_pairs, pack_table, seri_pack,
  skip_array, wb_table, wb_table_array, wb_table_hash, wb_table_metapairs,
}
use service_lua.Seri.Stream.{
  key, Reader, Slot, get_buffer, get_extend_integer, get_integer, get_pointer, get_real, is_nan,
  is_nil, raw_set, rb_read, rball_init, read_word, to_int,
}
use service_lua.Seri.Unpack.{
  enter_table, find_object, push_boolean, push_long_string, push_number, push_userdata, push_value,
  rounds, seri_unpack, table_size, unpack_all, unpack_array, unpack_hash, unpack_one, unpack_ref,
  unpack_table,
}
use service_lua.Seri.Refs.{
  change_mark, find_ancestor, find_reference, lookup_ref, mark_at, mark_table, raw_get,
  ref_ancestor, ref_object, spill,
}
use service_lua.Seri.Encode.{encode, Wrote}
use service_lua.Seri.Decode.{at, unpack_one-encode}
use service_lua.Seri.Total.Ends.{seri_unpack-ends}
use service_lua.Seri.RoundTrip.{AllPlain, encode_all, seri_unpack-seri_pack}
use service_lua.Seri.Integer.{encode_integer, get_extend_integer-wb_integer}

-- No integer is read back from what the packer writes.
abbrev unused : ℤ → ℕ
unused _ = 0

abbrev empty_table : LuaTable
empty_table = record { objlen = 0; rawgeti = λ _. nil; entries = []; pairs = none }

abbrev with_entries : List (Value × Value) → LuaTable
with_entries es = record empty_table { entries = es }

-- t = { next = t }
abbrev self_value : Heap
self_value _ = with_entries ((string (110 ∷ []), table 0) ∷ [])

abbrev plain : List Value
plain = boolean true ∷ string (104 ∷ 105 ∷ []) ∷ nil ∷ light_userdata 4096 ∷ []

plain-AllPlain : AllPlain plain
plain-AllPlain = (tt, (omega arith, (tt, (omega arith, tt))))

plain_message :
    (packed : List ℕ) × (seri_pack 1 self_value plain ≡ ok (packed, length packed))
    × (seri_unpack unused packed ≡ ok (plain, rball_init []))
unfolding encode le_bytes
plain_message =
    seri_unpack-seri_pack unused 0 self_value plain plain-AllPlain
      (unfold encode_all in omega arith)

get_extend_integer-wb_integer_example :
    Wrote wb_init (encode_integer (negsuc 299)) (wb_integer wb_init (negsuc 299))
    × (get_extend_integer (at (rball_init []) (encode_integer (negsuc 299) ++ (7 ∷ [])))
        ≡ ok (negsuc 299, at (rball_init []) (7 ∷ [])))
get_extend_integer-wb_integer_example =
    get_extend_integer-wb_integer wb_init (negsuc 299) (rball_init []) (7 ∷ []) wb_init-IsChain.0
      (omega arith)

wb_push_lem_example :
    IsChain (wb_push wb_init (1 ∷ 2 ∷ []))
    × (bytes (wb_push wb_init (1 ∷ 2 ∷ [])) ≡ bytes wb_init ++ (1 ∷ 2 ∷ []))
wb_push_lem_example = wb_push_lem wb_init (1 ∷ 2 ∷ []) wb_init-IsChain.0

seri_lem_example : seri wb_init ≡ some (le_bytes 4 (length (bytes wb_init)) ++ bytes wb_init)
seri_lem_example = seri_lem wb_init wb_init-IsChain.0

string_reads :
    unpack_one unused 1 (at (rball_init []) (encode (string (104 ∷ [])) ++ (0 ∷ [])))
    ≡ ok (string (104 ∷ []), at (rball_init []) (0 ∷ []))
string_reads = unpack_one-encode unused 0 (rball_init []) (string (104 ∷ [])) (omega arith) (0 ∷ [])

-- Packed, unpacked: the values, and the tables made.
abbrev round_trip : Heap → List Value → Result (List Value × List (List (Slot × Value)))
round_trip heap args = seri_pack 10 heap args >>= λ (buffer, sz).
    seri_unpack unused buffer >>= λ (vs, s). ok (vs, s.tables)

-- t[t] = true
abbrev self_key : Heap
self_key _ = with_entries ((table 0, boolean true) ∷ [])

-- t[{}] = t
abbrev table_key : Heap
table_key a = if a == 0 then with_entries ((table 1, table 0) ∷ []) else empty_table

-- A table in itself comes back, also as a second value; a table as its own key cannot be read, and one
-- beside a table as a key comes back wrong.
self_references :
    (round_trip self_value (table 0 ∷ table 0 ∷ [])
      ≡ ok (table 0 ∷ table 0 ∷ [], ((key (string (110 ∷ [])), table 0) ∷ []) ∷ []))
    × (round_trip self_key (table 0 ∷ []) ≡ raised (invalid_ref 0 0))
    × (round_trip table_key (table 0 ∷ [])
        ≡ ok (table 0 ∷ [], ((key (table 1), table 1) ∷ []) ∷ [] ∷ []))
unfolding change_mark copy_blocks enter_table find_ancestor find_object find_reference finish_pack
    fits_int32 get_buffer get_extend_integer get_integer get_pointer get_real in_array is_nan is_nil
    is_zero le_bytes lookup_ref mark_at mark_table next_block of_le pack_array pack_from pack_one
    pack_pairs pack_table poke push_boolean push_long_string push_number push_rest push_userdata
    push_value raw_get raw_set rb_read read_word ref_ancestor ref_object rounds seri seri_pack
    seri_unpack skip_array spill table_size to_int unpack_all unpack_array unpack_hash unpack_one
    unpack_ref unpack_table wb_address wb_boolean wb_init wb_integer wb_integer_int32 wb_nil wb_push
    wb_string wb_table wb_table_array wb_table_hash wb_table_metapairs to_word of_word peek
self_references = (refl, refl, refl)

-- A table that announces two elements, and none of them
abbrev cut_short : List ℕ
cut_short = 1 ∷ 0 ∷ 0 ∷ 0 ∷ 22 ∷ []

cut_short_raises : seri_unpack unused cut_short ≡ raised (invalid_stream 0)
unfolding seri_unpack of_word of_le
cut_short_raises = refl

seri_unpack-ends_example :
    ((e : SeriError) × (seri_unpack unused cut_short ≡ raised e))
    ⊎ ((seri_unpack unused cut_short ≡ outside)
        ⊎ ((vs : List Value) × (s : Reader) × (seri_unpack unused cut_short ≡ ok (vs, s))
            × (s.rest ≡ [])))
seri_unpack-ends_example = seri_unpack-ends unused cut_short
