-- ===== src/Seri/Tree/RoundTrip.antt =====
-- A message with tables, packed by `seri_pack` and unpacked by `seri_unpack`.
use service_lua.Base.{
  ℕ, zero, suc, ◌+◌, ◌^◌, ◌≤◌, ◌<◌, ◌≡◌, refl, ap, sym, ◌∙◌, List, [], ◌∷◌, ◌++◌, map, length,
  arith, inl, inr, append_assoc, append-nil, length-append, ℤ,
}
use service_lua.Seri.Value.{Value, Heap}
use service_lua.Seri.Block.Append.{bytes, IsChain, wb_init-IsChain}
use service_lua.Seri.Result.{Result, ok}
use service_lua.Seri.Refs.{Packer, init_packer}
use service_lua.Seri.Stream.{Slot, Reader, rball_init}
use service_lua.Seri.Pack.{pack_from, seri_pack}
use service_lua.Seri.Unpack.{unpack_one, unpack_all, seri_unpack}
use service_lua.Seri.Decode.{at}
use service_lua.Seri.RoundTrip.{frame, seri_pack-frame, seri_unpack-frame}
use service_lua.Seri.Tree.{
  Items, no_items, item, value_of, size_items, InItems, AreTrees, Shows, encode_tree, encode_items,
  copy, copy_items,
}
use service_lua.Seri.Tree.Unmet.{IsUnmet}
use service_lua.Seri.Tree.Packed.{IsPacked, pack_then, write-IsPacked}
use service_lua.Seri.Tree.Pack.{pack_tree}
use service_lua.Seri.Tree.Unpack.{Table}
use service_lua.Seri.Tree.Read.{encode_tree-positive, unpack_tree}

-- The values of a message, and that the heap shows their trees
abbrev pub values : Items → List Value
values no_items = []
values (item t xs) = value_of t ∷ values xs

abbrev pub AllShown : Heap → Items → Type 0
AllShown heap no_items = Unit
AllShown heap (item t xs) = Shows heap t × AllShown heap xs

-- The values that the receiver gets
abbrev pub copies : ℕ → Items → List Value × List Table
copies n xs =
    let (stores, made) = copy_items n 1 xs in (map (λ (store : Slot × Value). store.1) stores, made)

init_packer-IsUnmet : (a : ℕ) → IsUnmet init_packer a
init_packer-IsUnmet a = record {
  room = refl;
  full = refl;
  unrelated = λ i l _. absurd (omega (arith, l));
  unnumbered = inl (omega arith, λ i l. absurd (omega (arith, l)));
}

pack_from-trees :
    (f : ℕ) (heap : Heap) (xs : Items) (s : Packer)
    → AllShown heap xs
    → AreTrees xs
    → size_items xs ≤ f
    → IsChain s.wb
    → ((a : ℕ) → InItems a xs → IsUnmet s a)
    → IsPacked (λ a. InItems a xs) s (encode_items xs) (pack_from f heap (values xs) s)
unfolding pack_from encode_items
pack_from-trees f heap no_items s shown whole fuel c unmet =
    write-IsPacked s [] s.wb (c, sym (append-nil (bytes s.wb)))
pack_from-trees f heap (item t xs) s shown whole fuel c unmet =
    let (apart, tree, trees) = whole in
    let p = pack_tree heap t f s shown.0 tree (omega (arith, fuel)) c (λ a m. unmet a (inl m)) in
    pack_then s (λ s'. pack_from f heap (values xs) s') p
      (pack_from-trees f heap xs p.after shown.1 trees (omega (arith, fuel)) p.wrote.0
        (λ a m. p.keeps a (λ n. apart a n m) (unmet a (inr m))))

-- A round of the loop of `seri_unpack`
all_step :
    (of_integer : ℤ → ℕ) (d f : ℕ) (s s₁ s₂ : Reader) (bs cs : List ℕ) (v : Value) (vs : List Value)
    → 1 ≤ length bs
    → unpack_one of_integer d (at s (bs ++ cs)) ≡ ok (v, s₁)
    → unpack_all of_integer d f s₁ ≡ ok (vs, s₂)
    → unpack_all of_integer d (suc f) (at s (bs ++ cs)) ≡ ok (v ∷ vs, s₂)
unfolding unpack_all
all_step of_integer d f s s₁ s₂ [] cs v vs h e e' = absurd (omega (arith, h))
all_step of_integer d f s s₁ s₂ (b ∷ bs) cs v vs h e e' = rw (e, e') refl

-- The loop of `seri_unpack` read a message to its end.
record AllRead (s : Reader) (made : List Value × List Table) (res : Result (List Value × Reader))
    : Type 0 where
  after : Reader
  done : res ≡ ok (made.0, at after [])
  tables : after.tables ≡ s.tables ++ made.1

unpack_all-trees :
    (of_integer : ℤ → ℕ) (heap : Heap) (d f n i : ℕ) (xs : Items) (s : Reader)
    → AllShown heap xs
    → n ≡ length s.tables
    → length (encode_items xs) ≤ d
    → length (encode_items xs) < f
    → AllRead s
        (let (stores, made) = copy_items n i xs in
          (map (λ (store : Slot × Value). store.1) stores, made))
        (unpack_all of_integer d f (at s (encode_items xs)))
unfolding unpack_all encode_items copy_items
unpack_all-trees of_integer heap d zero n i xs s shown here deep fuel = absurd (omega (arith, fuel))
unpack_all-trees of_integer heap d (suc f) n i no_items s shown here deep fuel = record {
  after = s;
  done = refl;
  tables = sym (append-nil s.tables);
}
unpack_all-trees of_integer heap d (suc f) n i (item t xs) s shown here deep fuel =
    let parts = length-append (encode_tree t) (encode_items xs) in
    let first = encode_tree-positive heap t shown.0 in
    let q =
      unpack_tree of_integer heap t d n s (encode_items xs) shown.0 here
        (omega (arith, deep, parts)) in
    let new = (copy n t).1 in
    let others = (copy_items (n + length new) (i + 1) xs).1 in
    let p =
      unpack_all-trees of_integer heap d f (n + length new) (i + 1) xs q.after shown.1
        (omega (arith, here, ap length q.tables, length-append s.tables new))
        (omega (arith, deep, parts)) (omega (arith, fuel, parts, first)) in
    record {
      after = p.after;
      done =
          all_step of_integer d f s _ _ (encode_tree t) (encode_items xs) _ _ first q.done p.done;
      tables = p.tables ∙ ap (λ ts. ts ++ others) q.tables ∙ append_assoc s.tables new others;
    }

-- A message of values without parts, and of tables with their arrays and entries in them, at any depth for
-- which Lua has room on its stack (`luaL_checkstack` is not modelled), where no table stands at two places,
-- none has a `__pairs` metamethod, and keys are without parts: if the stream is shorter than 2 GiB, and the
-- fuel is at least the number of values in the message, keys and tables included, `seri_pack` packs it without
-- an error, into a buffer of the size that it returns. `seri_unpack` of that buffer gives the values in the
-- same order, with a new table for each table, and reads the buffer to its end; the stores into each new table
-- are those of the array, from index 1 on, and then the entries whose keys are no numbers from 1 to the length
-- of the array, in the order of the sender, with the copies of the tables that stand in it.
pub seri_unpack-trees :
    (of_integer : ℤ → ℕ) (f : ℕ) (heap : Heap) (xs : Items)
    → AllShown heap xs
    → AreTrees xs
    → size_items xs ≤ f
    → length (encode_items xs) < 2 ^ 31
    → (packed : List ℕ) × (s : Reader) × (seri_pack f heap (values xs) ≡ ok (packed, length packed))
      × (seri_unpack of_integer packed ≡ ok ((copies 0 xs).0, s))
      × (s.tables ≡ (copies 0 xs).1)
      × (s.rest ≡ [])
seri_unpack-trees of_integer f heap xs shown whole fuel small =
    let bs = encode_items xs in
    let p =
      pack_from-trees f heap xs init_packer shown whole fuel (wb_init-IsChain.0)
        (λ a _. init_packer-IsUnmet a) in
    let q =
      unpack_all-trees of_integer heap (suc (length bs)) (suc (length bs)) 0 1 xs (rball_init bs)
        shown refl (omega arith) (omega arith) in
    (
      frame bs,
      at q.after [],
      seri_pack-frame f heap (values xs) p.after bs p.done p.wrote,
      seri_unpack-frame of_integer bs small ∙ q.done,
      q.tables,
      refl,
    )
