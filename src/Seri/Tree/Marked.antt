-- ===== src/Seri/Tree/Marked.antt =====
-- `mark_table` keeps the other tables unmet.
use service_lua.Base.{
  ℕ, zero, suc, ◌+◌, ◌<◌, ◌≡◌, ◌≢◌, refl, ap, sym, ◌∙◌, false, Option, none, List, [], ◌∷◌, ◌==◌,
  ltb, set, get_or, length, arith, Bool-cases, inl, inr, get_or-set_self, get_or-set_ne, length-set,
}
use service_lua.Seri.Tree.Unmet.{IsUnmet, wb-IsUnmet}
use native.Mathlib.Decide.{ℕ_discrete}
use service_lua.Seri.Block.{Address, WriteBlock, wb_address}
use service_lua.Seri.Value.{max_reference}
use service_lua.Seri.Refs.{Reference, Packer, raw_get, spill, mark_table, no_reference}

spill_ids :
    (a i : ℕ) (xs : List Reference) (s : Packer)
    → ((j : ℕ) → j < length xs → (get_or xs j no_reference).object ≢ a)
    → raw_get a s.ref_ids ≡ none
    → raw_get a (spill i xs s).ref_ids ≡ none
unfolding spill raw_get
spill_ids a i [] s h e = e
spill_ids a i (x ∷ xs) s h e =
    spill_ids a (i + 1) xs _ (λ j l. h (suc j) (omega (arith, l)))
      (ground (arith, h zero (omega arith), e))

spill_rest :
    (i : ℕ) (xs : List Reference) (s : Packer)
    → ((spill i xs s).depth ≡ s.depth)
      × ((spill i xs s).ancestor ≡ s.ancestor)
      × ((spill i xs s).r ≡ s.r)
      × ((spill i xs s).objectid ≡ s.objectid)
      × ((spill i xs s).wb ≡ s.wb)
unfolding spill
spill_rest i [] s = (refl, refl, refl, refl, refl)
spill_rest i (x ∷ xs) s = spill_rest (i + 1) xs _

-- A number in the Lua table, behind the first 32
numbered-IsUnmet :
    (t : Packer) (a b k : ℕ) (x : Option Address)
    → b ≢ a
    → length t.r ≡ 32
    → length t.ancestor ≡ 31
    → ((i : ℕ) → i < t.depth → i < 31 → get_or t.ancestor i 0 ≢ a)
    → 32 < t.objectid
    → raw_get a t.ref_ids ≡ none
    → IsUnmet
        (record t { ref_ids = (b, k) ∷ t.ref_ids; ref_addresses = (k, x) ∷ t.ref_addresses })
        a
unfolding raw_get
numbered-IsUnmet t a b k x ne room full unrelated many other = record {
  room = room;
  full = full;
  unrelated = unrelated;
  unnumbered = inr (many, ground (arith, ne, other));
}

-- A number in the array
array-IsUnmet :
    (s : Packer) (a b : ℕ) (x : Option Address)
    → b ≢ a
    → IsUnmet s a
    → s.objectid < 32
    → IsUnmet
        (record s {
          objectid = s.objectid + 1;
          r = set s.r s.objectid (record { object = b; address = x });
        })
        a
array-IsUnmet s a b x ne u few = record {
  room = length-set s.r s.objectid _ ∙ u.room;
  full = u.full;
  unrelated = u.unrelated;
  unnumbered = inl (
    omega arith,
    λ i l. elim (ℕ_discrete i s.objectid) [
      | yes e ↦ λ q. ne (
          sym (
            ap (λ (y : Reference). y.object)
              (get_or-set_self s.r s.objectid _ no_reference (omega (arith, few, u.room))))
          ∙ ap
              (λ j.
                (get_or (set s.r s.objectid (record { object = b; address = x })) j
                  no_reference).object)
              (sym e)
          ∙ q)
      | no other ↦ λ q. elim u.unnumbered [
        | inl (small, old) ↦ old i (omega (arith, l, other)) (
            ap (λ (y : Reference). y.object)
              (sym (get_or-set_ne s.r _ no_reference (λ e. other (sym e))))
            ∙ q)
        | inr (many, old) ↦ absurd (omega (arith, many, few))
      ]
    ],
  );
}

-- The first number in the Lua table, with those of the array
mark_table_last :
    (s : Packer) (a b : ℕ)
    → b ≢ a
    → IsUnmet s a
    → s.objectid ≡ 32
    → (wb : WriteBlock) (k : ℕ) (x : Option Address)
    → (let t =
          spill 0 s.r
            (record s { wb = wb; objectid = s.objectid + 1; ref_ids = []; ref_addresses = [] }) in
        IsUnmet
          (record t { ref_ids = (b, k) ∷ t.ref_ids; ref_addresses = (k, x) ∷ t.ref_addresses })
          a)
mark_table_last s a b ne u last wb k x =
    let e : Packer = record s {
      wb = wb;
      objectid = s.objectid + 1;
      ref_ids = [];
      ref_addresses = [];
    } in
    let (depth, ancestor, r, objectid, _) = spill_rest 0 s.r e in
    numbered-IsUnmet (spill 0 s.r e) a b k x ne (rw r u.room) (rw ancestor u.full)
      (rw (depth, ancestor) u.unrelated) (rw objectid (omega (arith, last)))
      (spill_ids a 0 s.r e
        (elim u.unnumbered [
          | inl (small, old) ↦ λ j l. old j (omega (arith, l, last, u.room))
          | inr (many, _) ↦ absurd (omega (arith, many, last))
        ])
        (unfold raw_get in refl))

-- `mark_table` of the table at `b`
pub mark_table-IsUnmet : (s : Packer) (a b : ℕ) → b ≢ a → IsUnmet s a → IsUnmet (mark_table s b) a
unfolding mark_table
mark_table-IsUnmet s a b ne u = elim (Bool-cases (ltb s.objectid max_reference)) [
  | inl few ↦
      let other : (s.objectid == max_reference) ≡ false = ground (arith, few) in
      rw (few, other)
        (array-IsUnmet (record s { wb = (wb_address s.wb).1 }) a b _ ne
          (wb-IsUnmet s (wb_address s.wb).1 a u) (ground (arith, few)))
  | inr many ↦ elim (Bool-cases (s.objectid == max_reference)) [
    | inl last ↦ rw (many, last) (mark_table_last s a b ne u (ground (arith, last)) _ _ _)
    | inr later ↦
        rw (many, later)
          (numbered-IsUnmet (record s { wb = (wb_address s.wb).1; objectid = s.objectid + 1 }) a b _
            _ ne u.room u.full u.unrelated (ground (arith, many, later))
            (elim u.unnumbered [
              | inl (small, _) ↦ absurd (ground (arith, many, later, small))
              | inr (_, old) ↦ old
            ]))
  ]
]

pub mark_table_rest :
    (s : Packer) (b : ℕ)
    → ((mark_table s b).wb ≡ (wb_address s.wb).1) × ((mark_table s b).depth ≡ s.depth)
unfolding mark_table
mark_table_rest s b =
    let e : Packer = record s {
      wb = (wb_address s.wb).1;
      objectid = s.objectid + 1;
      ref_ids = [];
      ref_addresses = [];
    } in
    let (depth, _, _, _, wb) = spill_rest 0 s.r e in ground (arith, depth, wb)
