-- ===== src/Seri/Tree/Unmet.antt =====
-- The tables that the packer has not met yet: it finds no reference to them.
use service_lua.Base.{
  ℕ, zero, suc, ◌+◌, ◌-◌, ◌≤◌, ◌<◌, ◌≡◌, ◌≢◌, ◌⊎◌, refl, ap, sym, ◌∙◌, true, false, none, List,
  if◌then◌else◌, ◌==◌, leb, ltb, set, get_or, length, arith, Bool-cases, inl, inr, get_or-set_self,
  get_or-set_ne, length-set,
}
use native.Mathlib.Decide.{ℕ_discrete}
use service_lua.Seri.Block.{WriteBlock}
use service_lua.Seri.Value.{max_depth, max_reference}
use service_lua.Seri.Result.{ok}
use service_lua.Seri.Refs.{
  Reference, Packer, raw_get, find_reference, lookup_ref, find_ancestor, ref_ancestor, ref_object,
  no_reference,
}

-- The table at an address is no ancestor, and has no number.
pub record IsUnmet (s : Packer) (a : ℕ) : Type 0 where
  pub room : length s.r ≡ 32
  pub full : length s.ancestor ≡ 31
  pub unrelated : (i : ℕ) → i < s.depth → i < 31 → get_or s.ancestor i 0 ≢ a
  pub unnumbered :
      ((s.objectid ≤ 32) × ((i : ℕ) → i < s.objectid → (get_or s.r i no_reference).object ≢ a))
      ⊎ ((32 < s.objectid) × (raw_get a s.ref_ids ≡ none))

find_ancestor-none :
    (ancestor : List ℕ) (a n : ℕ)
    → ((i : ℕ) → i < n → get_or ancestor i 0 ≢ a)
    → find_ancestor ancestor a n ≡ none
unfolding find_ancestor
find_ancestor-none ancestor a zero h = refl
find_ancestor-none ancestor a (suc n) h =
    let ih = find_ancestor-none ancestor a n (λ i l. h i (omega (arith, l))) in
    ground (arith, ih, h n (omega arith))

find_reference-none :
    (r : List Reference) (a i n : ℕ)
    → ((j : ℕ) → i ≤ j → j < i + n → (get_or r j no_reference).object ≢ a)
    → find_reference r a i n ≡ none
unfolding find_reference
find_reference-none r a i zero h = refl
find_reference-none r a i (suc n) h =
    let ih =
      find_reference-none r a (i + 1) n (λ j l m. h j (omega (arith, l)) (omega (arith, m))) in
    ground (arith, ih, h i (omega arith) (omega arith))

module _ (s : Packer) (a : ℕ) (unmet : IsUnmet s a) where
  pub ref_ancestor-none : ref_ancestor s a ≡ none
  unfolding ref_ancestor
  ref_ancestor-none = elim (Bool-cases (s.depth == 0)) [
    | inl top ↦ rw top
    | inr inside ↦ elim (Bool-cases (leb max_depth s.depth)) [
      | inl deep ↦ rw (inside, deep)
      | inr near ↦ rw (
        inside,
        near,
        find_ancestor-none s.ancestor a s.depth
            (λ i l. unmet.unrelated i l (ground (arith, near, l))),
      )
    ]
  ]

  lookup_ref-none : lookup_ref s a ≡ ok (none, s)
  unfolding lookup_ref
  lookup_ref-none = elim unmet.unnumbered [
    | inl (few, other) ↦
        let few' : leb s.objectid max_reference ≡ true = ground (arith, few) in
        rw (few', find_reference-none s.r a 0 s.objectid (λ j l m. other j (omega (arith, m))))
    | inr (many, other) ↦
        let many' : leb s.objectid max_reference ≡ false = ground (arith, many) in rw (many', other)
  ]

  pub ref_object-none : ref_object s a ≡ ok (false, s)
  unfolding ref_object
  ref_object-none = rw lookup_ref-none

-- What does not touch the references and the ancestors keeps the tables unmet.
pub wb-IsUnmet :
    (s : Packer) (wb : WriteBlock) (a : ℕ) → IsUnmet s a → IsUnmet (record s { wb = wb }) a
wb-IsUnmet s wb a u = record {
  room = u.room;
  full = u.full;
  unrelated = u.unrelated;
  unnumbered = u.unnumbered;
}

-- `pack_one` enters the table at `b`.
abbrev pub entered : Packer → ℕ → Packer
entered s b = record s {
  ancestor = if ltb s.depth max_depth then set s.ancestor s.depth b else s.ancestor;
  depth = s.depth + 1;
}

set-other :
    (xs : List ℕ) (a b d i : ℕ)
    → b ≢ a
    → d < length xs
    → (i ≢ d → get_or xs i 0 ≢ a)
    → get_or (set xs d b) i 0 ≢ a
set-other xs a b d i ne inside old = elim (ℕ_discrete i d) [
  | yes e ↦ λ q.
      ne (sym (get_or-set_self xs d b 0 inside) ∙ ap (λ j. get_or (set xs d b) j 0) (sym e) ∙ q)
  | no other ↦ λ q. old other (sym (get_or-set_ne xs b 0 (λ e. other (sym e))) ∙ q)
]

pub entered-IsUnmet : (s : Packer) (a b : ℕ) → b ≢ a → IsUnmet s a → IsUnmet (entered s b) a
entered-IsUnmet s a b ne u = elim (Bool-cases (ltb s.depth max_depth)) [
  | inl near ↦ record {
    room = u.room;
    full = rw near (length-set s.ancestor s.depth b ∙ u.full);
    unrelated = λ i l m. rw near (
        set-other s.ancestor a b s.depth i ne (ground (arith, near, u.full))
          (λ other. u.unrelated i (omega (arith, l, other)) m));
    unnumbered = u.unnumbered;
  }
  | inr deep ↦ record {
    room = u.room;
    full = rw deep u.full;
    unrelated = λ i l m. rw deep (u.unrelated i (ground (arith, deep, m)) m);
    unnumbered = u.unnumbered;
  }
]

-- and leaves it.
pub left-IsUnmet : (s : Packer) (a : ℕ) → IsUnmet s a → IsUnmet (record s { depth = s.depth - 1 }) a
left-IsUnmet s a u = record {
  room = u.room;
  full = u.full;
  unrelated = λ i l m. u.unrelated i (omega (arith, l)) m;
  unnumbered = u.unnumbered;
}
