-- ===== src/Seri/Tree/Read.antt =====
-- `unpack_one` reads the stream of a tree, and makes its copy.
use service_lua.Base.{
  ℕ, zero, suc, ◌+◌, ◌≤◌, ◌≡◌, refl, ap, sym, ◌∙◌, List, [], ◌∷◌, ◌++◌, leb, length, arith,
  Bool-cases, inl, inr, append_assoc, append-nil, length-append, ℤ,
}
use service_lua.Seri.Value.{Value, Heap, nil, extend_number}
use service_lua.Seri.Result.{ok}
use service_lua.Seri.Stream.{Reader}
use service_lua.Seri.Encode.{IsPlain, encode}
use service_lua.Seri.Decode.{at, unpack_one-encode}
use service_lua.Seri.RoundTrip.{encode-cons}
use service_lua.Seri.Unpack.{unpack_one, unpack_array, unpack_hash}
use service_lua.Seri.Tree.{
  Tree, Items, Entries, leaf, node, no_items, item, no_entries, entry, count, Shows, ShowsItems,
  ShowsEntries, encode_size, encode_tree, encode_items, encode_entries, copy, copy_items,
  copy_entries,
}
use service_lua.Seri.Tree.Unpack.{Table, IsRead, IsFilled, item_step, entry_step}
use service_lua.Seri.Tree.Table.{table_step}

encode_size-positive : (n : ℕ) → 1 ≤ length (encode_size n)
unfolding encode_size
encode_size-positive n = elim (Bool-cases (leb extend_number n)) [
  | inl large ↦ rw large (omega arith)
  | inr small ↦ rw small (omega arith)
]

encode-positive : (v : Value) → IsPlain v → 1 ≤ length (encode v)
encode-positive v p = let (b, bs, e) = encode-cons v p in rw e (omega arith)

pub encode_tree-positive : (heap : Heap) (t : Tree) → Shows heap t → 1 ≤ length (encode_tree t)
unfolding encode_tree
encode_tree-positive heap (leaf v) shown = encode-positive v shown
encode_tree-positive heap (node a xs es) shown = omega (
  arith,
  length-append (encode_size (count xs)) (encode_items xs ++ encode_entries es),
  encode_size-positive (count xs),
)

-- How many tables there are, once a table has a store more and others have been made.
length-stored :
    (pre : List Table) (x y : Table) (post new : List Table) (n : ℕ) (s s' : Reader)
    → n ≡ length s.tables
    → s.tables ≡ pre ++ (x ∷ post)
    → s'.tables ≡ pre ++ (y ∷ (post ++ new))
    → n + length new ≡ length s'.tables
length-stored pre x y post new n s s' e h h' = omega (
  arith,
  e,
  ap length h,
  ap length h',
  length-append pre (x ∷ post),
  length-append pre (y ∷ (post ++ new)),
  length-append post new,
)

-- A nil ends the entries.
end_step :
    (of_integer : ℤ → ℕ) (f g t : ℕ) (s : Reader) (r : List ℕ)
    → unpack_hash (unpack_one of_integer (suc f)) t (suc g) (at s ((0 ∷ []) ++ r)) ≡ ok (at s r)
unfolding unpack_hash encode
end_step of_integer f g t s r = rw (unpack_one-encode of_integer f s nil tt r) refl

module _ (of_integer : ℤ → ℕ) (heap : Heap) where
  mutual
    unfolding encode_tree unpack_one unpack_array unpack_hash copy

    -- The reader makes the copy of a tree, from its stream on the front of any other.
    pub unpack_tree :
        (t : Tree) (f n : ℕ) (s : Reader) (r : List ℕ)
        → Shows heap t
        → n ≡ length s.tables
        → length (encode_tree t) ≤ f
        → IsRead s (copy n t) r (unpack_one of_integer f (at s (encode_tree t ++ r)))
    unpack_tree t zero n s r shown here fuel =
        absurd (omega (arith, encode_tree-positive heap t shown, fuel))
    unpack_tree (leaf v) (suc f) n s r shown here fuel = record {
      after = s;
      done = unpack_one-encode of_integer f s v shown r;
      tables = sym (append-nil s.tables);
    }
    unpack_tree (node a xs es) (suc f) n s r shown here fuel =
        let (_, _, small, items, (others, _, entries)) = shown in
        let m = length s.tables in
        let inner = (copy_items (m + 1) 1 xs).1 in
        let parts = length-append (encode_items xs) (encode_entries es) in
        let whole = length-append (encode_size (count xs)) (encode_items xs ++ encode_entries es) in
        let first = encode_size-positive (count xs) in
        let split : encode_tree (node a xs es) ++ r
            ≡ encode_size (count xs) ++ (encode_items xs ++ (encode_entries es ++ r)) =
          append_assoc (encode_size (count xs)) (encode_items xs ++ encode_entries es) r
          ∙ ap (λ b. encode_size (count xs) ++ b)
              (append_assoc (encode_items xs) (encode_entries es) r) in
        rw (here, split)
          (table_step of_integer f (count xs) s (encode_items xs) (encode_entries es) r
            (copy_items (m + 1) 1 xs) (copy_entries (m + 1 + length inner) es) small
            (λ s' e'.
              unpack_items xs f (m + 1) 1 (heap a).rawgeti s' (encode_entries es ++ r) s.tables []
                [] items (omega (arith, ap length e', length-append s.tables ([] ∷ []))) e'
                (omega (arith, fuel, parts, whole, first)))
            (λ s' g e' enough.
              unpack_entries es f g (m + 1 + length inner) _ s' r s.tables _ inner entries
                (omega (
                  arith,
                  ap length e',
                  length-append s.tables ((copy_items (m + 1) 1 xs).0 ∷ inner),
                ))
                e' (omega (arith, fuel, parts, whole, first)) enough))

    pub unpack_items :
        (xs : Items) (f n i : ℕ) (get : ℕ → Value) (s : Reader) (r : List ℕ) (pre : List Table)
        (x : Table) (post : List Table)
        → ShowsItems heap get i xs
        → n ≡ length s.tables
        → s.tables ≡ pre ++ (x ∷ post)
        → length (encode_items xs) ≤ f
        → IsFilled pre x post (copy_items n i xs) r (
            unpack_array
              (unpack_one of_integer f)
              (length pre)
              i
              (count xs)
              (at s (encode_items xs ++ r)))
    unpack_items no_items f n i get s r pre x post shown here e fuel = record {
      after = s;
      done = refl;
      tables = rw (append-nil x, append-nil post) e;
    }
    unpack_items (item t xs) f n i get s r pre x post shown here e fuel =
        let (_, first, others) = shown in
        let new = (copy n t).1 in
        let parts = length-append (encode_tree t) (encode_items xs) in
        item_step of_integer f pre x post s (encode_tree t) (encode_items xs) r (copy n t)
          (copy_items (n + length new) (i + 1) xs) e i (count xs)
          (unpack_tree t f n s (encode_items xs ++ r) first here (omega (arith, fuel, parts)))
          (λ s' e'.
            unpack_items xs f (n + length new) (i + 1) get s' r pre _ (post ++ new) others
              (length-stored pre x _ post new n s s' here e e') e' (omega (arith, fuel, parts)))

    pub unpack_entries :
        (es : Entries) (f g n : ℕ) (kvs : List (Value × Value)) (s : Reader) (r : List ℕ)
        (pre : List Table) (x : Table) (post : List Table)
        → ShowsEntries heap kvs es
        → n ≡ length s.tables
        → s.tables ≡ pre ++ (x ∷ post)
        → length (encode_entries es) ≤ f
        → length (encode_entries es) ≤ g
        → IsFilled pre x post
            (copy_entries n es)
            r
            (unpack_hash (unpack_one of_integer f) (length pre) g (at s (encode_entries es ++ r)))
    unpack_entries no_entries zero g n kvs s r pre x post shown here e fuel rounds =
        absurd (omega (arith, fuel))
    unpack_entries no_entries (suc f) zero n kvs s r pre x post shown here e fuel rounds =
        absurd (omega (arith, rounds))
    unpack_entries no_entries (suc f) (suc g) n kvs s r pre x post shown here e fuel rounds =
        record {
          after = s;
          done = end_step of_integer f g (length pre) s r;
          tables = rw (append-nil x, append-nil post) e;
        }
    unpack_entries (entry k t es) zero g n kvs s r pre x post shown here e fuel rounds =
        let (rest, _, plain, _, _, _, _) = shown in
        absurd (
          omega (
            arith,
            fuel,
            encode-positive k plain,
            length-append (encode k) (encode_tree t ++ encode_entries es),
          ))
    unpack_entries (entry k t es) (suc f) zero n kvs s r pre x post shown here e fuel rounds =
        let (rest, _, plain, _, _, _, _) = shown in
        absurd (
          omega (
            arith,
            rounds,
            encode-positive k plain,
            length-append (encode k) (encode_tree t ++ encode_entries es),
          ))
    unpack_entries (entry k t es) (suc f) (suc g) n kvs s r pre x post shown here e fuel rounds =
        let (rest, _, plain, full, number, first, others) = shown in
        let new = (copy n t).1 in
        let key_first = encode-positive k plain in
        let whole = length-append (encode k) (encode_tree t ++ encode_entries es) in
        let parts = length-append (encode_tree t) (encode_entries es) in
        entry_step of_integer f pre x post s (encode_tree t) (encode_entries es) r (copy n t)
          (copy_entries (n + length new) es) e k g plain full number
          (λ s' e'.
            unpack_tree t (suc f) n s' (encode_entries es ++ r) first (here ∙ ap length (sym e'))
              (omega (arith, fuel, parts, whole)))
          (λ s' e'.
            unpack_entries es (suc f) g (n + length new) rest s' r pre _ (post ++ new) others
              (length-stored pre x _ post new n s s' here e e') e'
              (omega (arith, fuel, parts, whole)) (omega (arith, rounds, parts, whole, key_first)))
