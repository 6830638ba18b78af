-- ===== src/Seri/Tree/Pack.antt =====
-- `pack_one` writes the stream of a tree.
use service_lua.Base.{
  ℕ, zero, suc, ◌+◌, ◌-◌, ◌≤◌, ◌≡◌, ◌≢◌, ◌⊎◌, refl, ap, sym, subst, ◌∙◌, none, List, [], ◌∷◌, ◌++◌,
  arith, inl, inr, append-nil,
}
use service_lua.Seri.Block.Append.{bytes, IsChain, wb_address_lem}
use service_lua.Seri.Value.{Value, Heap, LuaTable, table}
use service_lua.Seri.Scalar.{wb_nil}
use service_lua.Seri.Result.{Result, ok, ◌>>=◌}
use service_lua.Seri.Refs.{Packer, mark_table}
use service_lua.Seri.Encode.{Wrote}
use service_lua.Seri.Pack.{
  pack_one, pack_array, pack_pairs, pack_table, skip_array, wb_table, wb_table_array, wb_table_hash,
}
use service_lua.Seri.Tree.{
  Tree, Items, Entries, leaf, node, no_items, item, no_entries, entry, value_of, count, size,
  size_items, size_entries, In, InItems, InEntries, IsTree, AreTrees, AreEntries, Apart, Shows,
  ShowsItems, ShowsEntries, encode_size, encode_tree, encode_items, encode_entries,
}
use service_lua.Seri.Tree.Index.{skip_array-Apart}
use service_lua.Seri.Tree.Unmet.{
  IsUnmet, ref_ancestor-none, ref_object-none, wb-IsUnmet, entered, entered-IsUnmet, left-IsUnmet,
}
use service_lua.Seri.Tree.Marked.{mark_table-IsUnmet, mark_table_rest}
use service_lua.Seri.Tree.Packed.{
  IsPacked, write-IsPacked, pack_then, wider, Wrote-trans, plain_step, tag-Wrote, no_size,
  nil-Wrote, tag,
}

module _ (heap : Heap) where
  -- From a marked table on: its tag, its array and its entries
  inner_step :
      (met met' : ℕ → Type 0) (is es : List ℕ) (f : ℕ) (t : LuaTable) (s : Packer)
      → IsChain s.wb
      → ((s' : Packer)
          → IsChain s'.wb
          → ((c : ℕ) → IsUnmet s c → IsUnmet s' c)
          → IsPacked met s' is (pack_array (pack_one f heap) t 1 t.objlen s'))
      → ((s' : Packer)
          → IsChain s'.wb
          → ((c : ℕ) → (met c → ⊥) → IsUnmet s c → IsUnmet s' c)
          → IsPacked met' s' es (pack_pairs (pack_one f heap) (skip_array t.objlen t.entries) s'))
      → IsPacked
          (λ c. met c ⊎ met' c)
          s
          (encode_size t.objlen ++ (is ++ es))
          (wb_table_array (pack_one f heap) t s >>= λ s'.
            wb_table_hash (pack_one f heap) t t.objlen s')
  unfolding wb_table_array wb_table_hash
  inner_step met met' is es f t s c array fields =
      let w = tag-Wrote t.objlen s c in
      let s₁ : Packer = record s { wb = tag t.objlen s } in
      let first = write-IsPacked s (encode_size t.objlen) (tag t.objlen s) w in
      let second = array s₁ w.0 (wb-IsUnmet s (tag t.objlen s)) in
      let third =
        fields second.after second.wrote.0
          (λ a out u. second.keeps a out (wb-IsUnmet s (tag t.objlen s) a u)) in
      wider s _ _ (λ a m. elim m [ inl void ↦ absurd void | inr both ↦ both ])
        (pack_then s
          (λ s'. pack_array (pack_one f heap) t 1 t.objlen s' >>= λ s''.
            pack_pairs (pack_one f heap) (skip_array t.objlen t.entries) s'')
          first
          (pack_then s₁ (pack_pairs (pack_one f heap) (skip_array t.objlen t.entries)) second
            third))

  pack_table-unmet :
      (f a : ℕ) (s : Packer)
      → IsUnmet s a
      → (heap a).pairs ≡ none
      → pack_one (suc f) heap (table a) s ≡ (
          let m = mark_table (entered s a) a in
          (wb_table_array (pack_one f heap) (heap a) m >>= λ s'.
          wb_table_hash (pack_one f heap) (heap a) (heap a).objlen s')
          >>= λ s'. ok (record s' { depth = s'.depth - 1 }))
  unfolding pack_one pack_table wb_table
  pack_table-unmet f a s u pairs =
      rw (pack_table, ref_ancestor-none s a u, ref_object-none s a u, pairs, wb_table) refl

  -- A table that is unmet, given its parts
  table_step :
      (f a : ℕ) (xs : Items) (es : Entries) (s : Packer)
      → IsUnmet s a
      → IsChain s.wb
      → (heap a).pairs ≡ none
      → (heap a).objlen ≡ count xs
      → (let m = mark_table (entered s a) a in
          IsPacked
            (λ c. InItems c xs ⊎ InEntries c es)
            m
            (encode_size (heap a).objlen ++ (encode_items xs ++ encode_entries es))
            (wb_table_array (pack_one f heap) (heap a) m >>= λ s'.
              wb_table_hash (pack_one f heap) (heap a) (heap a).objlen s'))
      → IsPacked
          (λ c. In c (node a xs es))
          s
          (encode_tree (node a xs es))
          (pack_one (suc f) heap (table a) s)
  unfolding encode_tree
  table_step f a xs es s u c pairs len p =
      let (wb, depth) = mark_table_rest (entered s a) a in
      let (chain, same, _, _, _) = wb_address_lem s.wb c in
      let sized : encode_size (heap a).objlen ++ (encode_items xs ++ encode_entries es)
          ≡ encode_tree (node a xs es) =
        ap (λ n. encode_size n ++ (encode_items xs ++ encode_entries es)) len in
      record {
        after = record p.after { depth = p.after.depth - 1 };
        done =
            pack_table-unmet f a s u pairs
            ∙ ap (λ (r : Result Packer). r >>= λ s'. ok (record s' { depth = s'.depth - 1 }))
                p.done;
        wrote =
            subst (λ bs. Wrote s.wb bs p.after.wb) sized
              (Wrote-trans s.wb _ p.after.wb [] _
                (rw wb (chain, same ∙ sym (append-nil (bytes s.wb)))) p.wrote);
        level = omega (arith, p.level, depth);
        keeps = λ d out v.
            let ne : a ≢ d = λ e. out (inl (sym e)) in
            left-IsUnmet p.after d (
              p.keeps d (λ m. out (inr m))
                (mark_table-IsUnmet (entered s a) d a ne (entered-IsUnmet s d a ne v)));
      }

  skipped-Shows :
      (es : Entries) (t : LuaTable) {n : ℕ} (others : List (Value × Value))
      → t.objlen ≡ n
      → Apart n t.entries others
      → ShowsEntries heap others es
      → ShowsEntries heap (skip_array t.objlen t.entries) es
  skipped-Shows es t {n} others len out shown =
      subst (λ kvs. ShowsEntries heap kvs es)
        (sym (ap (λ k. skip_array k t.entries) len ∙ skip_array-Apart n t.entries others out)) shown

  mutual
    unfolding encode_tree pack_array pack_pairs pack_one

    -- The packer writes the stream of a tree that it has met no part of.
    pub pack_tree :
        (t : Tree) (f : ℕ) (s : Packer)
        → Shows heap t
        → IsTree t
        → size t ≤ f
        → IsChain s.wb
        → ((a : ℕ) → In a t → IsUnmet s a)
        → IsPacked (λ a. In a t) s (encode_tree t) (pack_one f heap (value_of t) s)
    pack_tree t zero s shown whole fuel c unmet = absurd (no_size t fuel)
    pack_tree (leaf v) (suc f) s shown whole fuel c unmet = plain_step f heap v s shown c
    pack_tree (node a xs es) (suc f) s shown whole fuel c unmet =
        let (pairs, len, small, items, (others, out, entries)) = shown in
        let fields = skipped-Shows es (heap a) others len out entries in
        let (alone, single, apart, trees, rest) = whole in
        let m = mark_table (entered s a) a in
        let (wb, depth) = mark_table_rest (entered s a) a in
        let other : (b : ℕ) → (a ≢ b) → IsUnmet s b → IsUnmet m b =
          λ b ne u. mark_table-IsUnmet (entered s a) b a ne (entered-IsUnmet s b a ne u) in
        table_step f a xs es s (unmet a (inl refl)) c pairs len (
          (inner_step (λ b. InItems b xs) (λ b. InEntries b es) (encode_items xs)
            (encode_entries es) f (heap a) m (rw wb (wb_address_lem s.wb c).0)
            (λ s' c' keeps. rw len (
              pack_items xs f (heap a) 1 s' items trees (omega (arith, fuel)) c'
                (λ b i. keeps b (other b (λ e. alone (rw (sym e) at i)) (unmet b (inr (inl i)))))))
            (λ s' c' keeps.
              pack_entries es f (skip_array (heap a).objlen (heap a).entries) s' fields rest
                (omega (arith, fuel)) c'
                (λ b i.
                  keeps b (λ j. apart b j i)
                    (other b (λ e. single (rw (sym e) at i)) (unmet b (inr (inr i))))))))

    pub pack_items :
        (xs : Items) (f : ℕ) (t : LuaTable) (i : ℕ) (s : Packer)
        → ShowsItems heap t.rawgeti i xs
        → AreTrees xs
        → size_items xs ≤ f
        → IsChain s.wb
        → ((a : ℕ) → InItems a xs → IsUnmet s a)
        → IsPacked
            (λ a. InItems a xs)
            s
            (encode_items xs)
            (pack_array (pack_one f heap) t i (count xs) s)
    pack_items no_items f t i s shown whole fuel c unmet =
        write-IsPacked s [] s.wb (c, sym (append-nil (bytes s.wb)))
    pack_items (item x xs) f t i s shown whole fuel c unmet =
        let (is_value, first, others) = shown in
        let (apart, tree, trees) = whole in
        let p = pack_tree x f s first tree (omega (arith, fuel)) c (λ a m. unmet a (inl m)) in
        rw is_value (
          pack_then s (λ s'. pack_array (pack_one f heap) t (i + 1) (count xs) s') p
            (pack_items xs f t (i + 1) p.after others trees (omega (arith, fuel)) p.wrote.0
              (λ a m. p.keeps a (λ n. apart a n m) (unmet a (inr m)))))

    pub pack_entries :
        (es : Entries) (f : ℕ) (kvs : List (Value × Value)) (s : Packer)
        → ShowsEntries heap kvs es
        → AreEntries es
        → size_entries es ≤ f
        → IsChain s.wb
        → ((a : ℕ) → InEntries a es → IsUnmet s a)
        → IsPacked (λ a. InEntries a es) s (encode_entries es) (pack_pairs (pack_one f heap) kvs s)
    pack_entries no_entries f kvs s shown whole fuel c unmet =
        rw shown (write-IsPacked s (0 ∷ []) (wb_nil s.wb) (nil-Wrote s.wb c))
    pack_entries (entry k x es) zero kvs s shown whole fuel c unmet = absurd (omega (arith, fuel))
    pack_entries (entry k x es) (suc f) kvs s shown whole fuel c unmet =
        let (rest, same, plain, _, _, first, others) = shown in
        let (apart, tree, trees) = whole in
        let q = plain_step f heap k s plain c in
        let p =
          pack_tree x (suc f) q.after first tree (omega (arith, fuel)) q.wrote.0
            (λ a m. q.keeps a (λ n. n) (unmet a (inl m))) in
        rw same (
          wider s _ _ (λ a m. elim m [ inl void ↦ absurd void | inr both ↦ both ])
            (pack_then s
              (λ s'. pack_one (suc f) heap (value_of x) s' >>= λ s''.
                pack_pairs (pack_one (suc f) heap) rest s'')
              q
              (pack_then q.after (λ s'. pack_pairs (pack_one (suc f) heap) rest s') p
                (pack_entries es (suc f) rest p.after others trees (omega (arith, fuel)) p.wrote.0
                  (λ a m. p.keeps a (λ n. apart a n m) (q.keeps a (λ n. n) (unmet a (inr m))))))))
