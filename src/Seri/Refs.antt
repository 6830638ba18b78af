-- ===== src/Seri/Refs.antt =====
-- The references of the packer in src/lua-seri.c: which tables have been met, and where their tags are.
use service_lua.Base.{
  ℕ, zero, suc, ◌+◌, ◌/◌, ◌%◌, Bool, true, false, Option, none, some, List, [], ◌∷◌, replicate,
  if◌then◌else◌, ◌==◌, leb, ltb, set, get_or, pos,
}
use service_lua.Seri.Block.{WriteBlock, Address, wb_init, wb_address, poke, peek}
use service_lua.Seri.Value.{
  combine_type, type_table, type_table_mark, type_ref, extend_number, max_depth, max_reference,
}
use service_lua.Seri.Scalar.{push_tag, wb_integer}
use service_lua.Seri.Result.{Result, ok, raised, assertion, ◌>>=◌}

-- `struct reference`: a table, and where its tag is, until it has been marked.
pub record Reference : Type 0 where
  pub object : ℕ
  pub address : Option Address

abbrev pub no_reference : Reference
no_reference = record { object = 0; address = none }

-- `struct write_block` with its `struct stack`. The ancestors are the tables at the stack indices that
-- the code keeps. `ref_ids` and `ref_addresses` are the Lua tables at `ref_index` and `ref_index + 1`:
-- a store puts its entry in front.
pub record Packer : Type 0 where
  pub wb : WriteBlock
  pub depth : ℕ
  pub objectid : ℕ
  pub ancestor : List ℕ
  pub r : List Reference
  pub ref_ids : List (ℕ × ℕ)
  pub ref_addresses : List (ℕ × Option Address)

-- `wb_init`, `init_stack`, and the two empty slots of `pack_from`
abbrev pub init_packer : Packer
init_packer = record {
  wb = wb_init;
  depth = 0;
  objectid = 0;
  ancestor = replicate max_depth 0;
  r = replicate max_reference no_reference;
  ref_ids = [];
  ref_addresses = [];
}

-- A `lua_rawget`: the entry stored last.
unfoldable pub raw_get {ℓ} : {A : Type ℓ} → ℕ → List (ℕ × A) → Option A
raw_get k [] = none
raw_get k ((j, a) ∷ m) = if j == k then some a else raw_get k m

-- The loop of `mark_table` that moves the array of references into the two tables.
unfoldable pub spill : ℕ → List Reference → Packer → Packer
spill i [] s = s
spill i (x ∷ xs) s = spill (i + 1) xs (record s {
  ref_ids = (x.object, i + 1) ∷ s.ref_ids;
  ref_addresses = (i + 1, x.address) ∷ s.ref_addresses;
})

unfoldable pub mark_table : Packer → ℕ → Packer
unfolding spill
mark_table s obj =
    let id = s.objectid in
    let (addr, wb') = wb_address s.wb in
    let s₁ : Packer = record s { wb = wb'; objectid = s.objectid + 1 } in
    let s₂ =
      if id == max_reference
      then spill 0 s.r (record s₁ { ref_ids = []; ref_addresses = [] })
      else s₁ in
    if ltb id max_reference
    then record s₂ { r = set s₂.r id (record { object = obj; address = some addr }) }
    else record s₂ {
      ref_ids = (obj, id + 1) ∷ s₂.ref_ids;
      ref_addresses = (id + 1, some addr) ∷ s₂.ref_addresses;
    }

-- `change_mark` on the tag at an address, with its assertion
unfoldable pub change_mark : WriteBlock → Address → Result WriteBlock
change_mark wb a =
    if peek wb a % 8 == type_table
    then ok (poke wb a (λ tag. combine_type type_table_mark (tag / 8)))
    else raised assertion

unfoldable pub mark_at : Packer → Option Address → Result Packer
unfolding change_mark
mark_at s none = ok s
mark_at s (some a) = change_mark s.wb a >>= λ wb'. ok (record s { wb = wb' })

-- The loop of `lookup_ref` over the array, from `i` on with `n` rounds left
unfoldable pub find_reference : List Reference → ℕ → ℕ → ℕ → Option ℕ
find_reference r obj i zero = none
find_reference r obj i (suc n) =
    if obj == (get_or r i no_reference).object then some i else find_reference r obj (i + 1) n

-- `lookup_ref`; none is 0.
unfoldable pub lookup_ref : Packer → ℕ → Result (Option ℕ × Packer)
unfolding mark_at find_reference raw_get
lookup_ref s obj =
    if leb s.objectid max_reference
    then elim (find_reference s.r obj 0 s.objectid) [
      | none ↦ ok (none, s)
      | some i ↦ mark_at s (get_or s.r i no_reference).address >>= λ s'.
          ok (some (i + 1), record s' { r = set s'.r i (record { object = obj; address = none }) })
    ]
    else elim (raw_get obj s.ref_ids) [
      | none ↦ ok (none, s)
      | some id ↦ elim (raw_get id s.ref_addresses) [
        | some (some a) ↦ mark_at s (some a) >>= λ s'.
            ok (some id, record s' { ref_addresses = (id, none) ∷ s'.ref_addresses })
        | _ ↦ ok (some id, s)
      ]
    ]

-- The loop of `ref_ancestor`, over the ancestors below `n`, the deepest first
unfoldable pub find_ancestor : List ℕ → ℕ → ℕ → Option ℕ
find_ancestor ancestor obj zero = none
find_ancestor ancestor obj (suc i) =
    if get_or ancestor i 0 == obj then some i else find_ancestor ancestor obj i

-- `ref_ancestor` and `ref_object`: none is 0.
unfoldable pub ref_ancestor : Packer → ℕ → Option Packer
unfolding find_ancestor
ref_ancestor s obj =
    if s.depth == 0
    then none
    else if leb max_depth s.depth
    then none
    else elim (find_ancestor s.ancestor obj s.depth) [
      | none ↦ none
      | some i ↦ some (record s { wb = push_tag s.wb type_ref i })
    ]

unfoldable pub ref_object : Packer → ℕ → Result (Bool × Packer)
unfolding lookup_ref
ref_object s obj = lookup_ref s obj >>= λ (found, s'). ok (elim found [
  | none ↦ (false, s')
  | some id ↦ (true, record s' { wb = wb_integer (push_tag s'.wb type_ref extend_number) (pos id) })
])
