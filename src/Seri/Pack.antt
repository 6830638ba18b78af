-- ===== src/Seri/Pack.antt =====
-- The packer of src/lua-seri.c: tables with their references, `pack_one` and `seri_pack`.
use service_lua.Base.{
  ℕ, zero, suc, ◌+◌, ◌-◌, Bool, true, false, Option, none, some, List, [], ◌∷◌, if◌then◌else◌, leb,
  ltb, set, pos,
}
use service_lua.Seri.Block.{WriteBlock, wb_init, wb_free, seri}
use service_lua.Seri.Value.{
  Value, LuaTable, Heap, nil, boolean, number, string, light_userdata, c_function, closure, table,
  other, type_table, type_userdata_pointer, type_userdata_cfunction, extend_number, max_depth,
  whole,
}
use service_lua.Seri.Scalar.{
  push_tag, wb_nil, wb_boolean, wb_integer, wb_real, wb_pointer, wb_string,
}
use service_lua.Seri.Result.{
  Result, ok, raised, out_of_fuel, not_light, unsupported, assertion, ◌>>=◌,
}
use service_lua.Seri.Refs.{Packer, init_packer, mark_table, ref_ancestor, ref_object}

-- The loops over the parts of a table, with `pack` for `pack_one`.
abbrev pub PackOne : Type 0
PackOne = Value → Packer → Result Packer

unfoldable pub pack_array : PackOne → LuaTable → ℕ → ℕ → Packer → Result Packer
pack_array pack t i zero s = ok s
pack_array pack t i (suc n) s = pack (t.rawgeti i) s >>= λ s'. pack_array pack t (i + 1) n s'

-- A key that `wb_table_array` has written with its value.
unfoldable pub in_array : ℕ → Value → Bool
in_array array_size (number bits) = elim (whole bits) [ none ↦ false | some n ↦ leb n array_size ]
in_array array_size _ = false

unfoldable pub pack_pairs : PackOne → List (Value × Value) → Packer → Result Packer
pack_pairs pack [] s = ok (record s { wb = wb_nil s.wb })
pack_pairs pack ((k, v) ∷ rest) s = pack k s >>= λ s₁. pack v s₁ >>= λ s₂. pack_pairs pack rest s₂

unfoldable pub skip_array : ℕ → List (Value × Value) → List (Value × Value)
unfolding in_array
skip_array array_size [] = []
skip_array array_size ((k, v) ∷ rest) =
    if in_array array_size k
    then skip_array array_size rest
    else (k, v) ∷ skip_array array_size rest

unfoldable pub wb_table_array : PackOne → LuaTable → Packer → Result Packer
unfolding pack_array
wb_table_array pack t s =
    let array_size = t.objlen in
    let wb' =
      if leb extend_number array_size
      then wb_integer (push_tag s.wb type_table extend_number) (pos array_size)
      else push_tag s.wb type_table array_size in
    pack_array pack t 1 array_size (record s { wb = wb' })

unfoldable pub wb_table_hash : PackOne → LuaTable → ℕ → Packer → Result Packer
unfolding pack_pairs skip_array
wb_table_hash pack t array_size s = pack_pairs pack (skip_array array_size t.entries) s

unfoldable pub wb_table_metapairs : PackOne → List (Value × Value) → Packer → Result Packer
unfolding pack_pairs
wb_table_metapairs pack yields s =
    pack_pairs pack yields (record s { wb = push_tag s.wb type_table 0 })

unfoldable pub wb_table : PackOne → LuaTable → ℕ → Packer → Result Packer
unfolding mark_table wb_table_array wb_table_hash wb_table_metapairs
wb_table pack t obj s =
    let marked = mark_table s obj in
    elim t.pairs [
      | some yields ↦ wb_table_metapairs pack yields marked
      | none ↦ wb_table_array pack t marked >>= λ s'. wb_table_hash pack t t.objlen s'
    ]

-- The case of `pack_one` for a table
unfoldable pub pack_table : PackOne → Heap → ℕ → Packer → Result Packer
unfolding ref_ancestor ref_object wb_table
pack_table pack heap obj s = elim (ref_ancestor s obj) [
  | some s' ↦ ok s'
  | none ↦ ref_object s obj >>= λ (found, s').
      (let entered : Packer = record s' {
        ancestor = if ltb s'.depth max_depth then set s'.ancestor s'.depth obj else s'.ancestor;
        depth = s'.depth + 1;
      } in
        elim found [
          | true ↦ ok s'
          | false ↦ wb_table pack (heap obj) obj entered >>= λ s''.
              ok (record s'' { depth = s''.depth - 1 })
        ])
]

-- The fuel bounds how deep tables stand in tables.
unfoldable pub pack_one : ℕ → Heap → Value → Packer → Result Packer
unfolding pack_table
pack_one zero heap v s = out_of_fuel
pack_one (suc f) heap nil s = ok (record s { wb = wb_nil s.wb })
pack_one (suc f) heap (number n) s = ok (record s { wb = wb_real s.wb n })
pack_one (suc f) heap (boolean b) s = ok (record s { wb = wb_boolean s.wb b })
pack_one (suc f) heap (string str) s = ok (record s { wb = wb_string s.wb str })
pack_one (suc f) heap (light_userdata p) s =
    ok (record s { wb = wb_pointer s.wb p type_userdata_pointer })
pack_one (suc f) heap (c_function p) s =
    ok (record s { wb = wb_pointer s.wb p type_userdata_cfunction })
pack_one (suc f) heap closure s = raised (not_light s.wb)
pack_one (suc f) heap (table obj) s = pack_table (pack_one f heap) heap obj s
pack_one (suc f) heap other s = raised (unsupported (wb_free s.wb))

unfoldable pub pack_from : ℕ → Heap → List Value → Packer → Result Packer
pack_from f heap [] s = ok s
pack_from f heap (v ∷ vs) s = pack_one f heap v s >>= λ s'. pack_from f heap vs s'

-- The buffer, and its size. The blocks are freed behind it.
unfoldable pub finish_pack : WriteBlock → Result (List ℕ × ℕ)
finish_pack wb = elim (seri wb) [ none ↦ raised assertion | some buffer ↦ ok (buffer, wb.len + 4) ]

unfoldable pub seri_pack : ℕ → Heap → List Value → Result (List ℕ × ℕ)
unfolding pack_from finish_pack
seri_pack f heap args = pack_from f heap args init_packer >>= λ s. finish_pack s.wb

-- `seri_packstring`: a string alone
unfoldable pub seri_packstring : List ℕ → Option (List ℕ)
seri_packstring str = seri (wb_string wb_init str)
