-- ===== src/Seri/Tree/Packed.antt =====
-- What a step of the packer over trees does.
use service_lua.Base.{
  ℕ, suc, ◌+◌, ◌*◌, ◌≤◌, ◌≡◌, ◌⊎◌, refl, ap, ◌∙◌, List, [], ◌∷◌, ◌++◌, if◌then◌else◌, leb, arith,
  Bool-cases, inl, inr, append_assoc, pos,
}
use service_lua.Seri.Block.{WriteBlock}
use service_lua.Seri.Block.Append.{bytes, IsChain}
use service_lua.Seri.Value.{Value, Heap, extend_number, type_table, combine_type}
use service_lua.Seri.Scalar.{push_tag, wb_integer, wb_nil}
use service_lua.Seri.Integer.{encode_integer, wb_integer-Wrote}
use service_lua.Seri.Result.{Result, ok, ◌>>=◌}
use service_lua.Seri.Refs.{Packer}
use service_lua.Seri.Encode.{IsPlain, encode, Wrote, push-Wrote, pack_one-plain}
use service_lua.Seri.Pack.{pack_one}
use service_lua.Seri.Tree.{Tree, leaf, node, size, encode_size}
use service_lua.Seri.Tree.Unmet.{IsUnmet, wb-IsUnmet}

-- A step of the packer from `s` on succeeded: it wrote `bs`, it left every table it entered, and the
-- tables that it did not meet are unmet still.
pub record IsPacked (met : ℕ → Type 0) (s : Packer) (bs : List ℕ) (r : Result Packer) : Type 0 where
  pub after : Packer
  pub done : r ≡ ok after
  pub wrote : Wrote s.wb bs after.wb
  pub level : after.depth ≡ s.depth
  pub keeps : (a : ℕ) → (met a → ⊥) → IsUnmet s a → IsUnmet after a

pub Wrote-trans :
    (wb₀ wb₁ wb₂ : WriteBlock) (bs cs : List ℕ)
    → Wrote wb₀ bs wb₁
    → Wrote wb₁ cs wb₂
    → Wrote wb₀ (bs ++ cs) wb₂
Wrote-trans wb₀ wb₁ wb₂ bs cs v w =
    (w.0, w.1 ∙ ap (λ xs. xs ++ cs) v.1 ∙ append_assoc (bytes wb₀) bs cs)

-- What only writes.
abbrev pub write-IsPacked :
    (s : Packer) (bs : List ℕ) (wb : WriteBlock)
    → Wrote s.wb bs wb
    → IsPacked (λ _. ⊥) s bs (ok (record s { wb = wb }))
write-IsPacked s bs wb w = record {
  after = record s { wb = wb };
  done = refl;
  wrote = w;
  level = refl;
  keeps = λ a _ u. wb-IsUnmet s wb a u;
}

-- One step behind another.
pub pack_then :
    {met met' : ℕ → Type 0} (s : Packer) {bs cs : List ℕ} {r : Result Packer}
    (next : Packer → Result Packer) (p : IsPacked met s bs r)
    → IsPacked met' p.after cs (next p.after)
    → IsPacked (λ a. met a ⊎ met' a) s (bs ++ cs) (r >>= next)
pack_then s {bs} {cs} next p q = record {
  after = q.after;
  done = rw (p.done, q.done);
  wrote = Wrote-trans s.wb p.after.wb q.after.wb bs cs p.wrote q.wrote;
  level = q.level ∙ p.level;
  keeps = λ a out u. q.keeps a (λ m. out (inr m)) (p.keeps a (λ m. out (inl m)) u);
}

-- A step that may have met more.
pub wider :
    {met met' : ℕ → Type 0} (s : Packer) (bs : List ℕ) (r : Result Packer)
    → ((a : ℕ) → met a → met' a)
    → IsPacked met s bs r
    → IsPacked met' s bs r
wider s bs r h p = record {
  after = p.after;
  done = p.done;
  wrote = p.wrote;
  level = p.level;
  keeps = λ a out u. p.keeps a (λ m. out (h a m)) u;
}

pub plain_step :
    (f : ℕ) (heap : Heap) (v : Value) (s : Packer)
    → IsPlain v
    → IsChain s.wb
    → IsPacked (λ _. ⊥) s (encode v) (pack_one (suc f) heap v s)
plain_step f heap v s p c =
    let (wb, packed, w) = pack_one-plain f heap v s p c in
    rw packed (write-IsPacked s (encode v) wb w)

-- The tag and the size of a table
abbrev pub tag : ℕ → Packer → WriteBlock
tag n s =
    if leb extend_number n
    then wb_integer (push_tag s.wb type_table extend_number) (pos n)
    else push_tag s.wb type_table n

pub tag-Wrote : (n : ℕ) (s : Packer) → IsChain s.wb → Wrote s.wb (encode_size n) (tag n s)
unfolding encode_size
tag-Wrote n s c = elim (Bool-cases (leb extend_number n)) [
  | inl large ↦ rw large (
      Wrote-trans s.wb (push_tag s.wb type_table extend_number) _ (253 ∷ [])
        (encode_integer (pos n)) (push-Wrote s.wb (253 ∷ []) c)
        (wb_integer-Wrote _ (pos n) (push-Wrote s.wb (253 ∷ []) c).0))
  | inr small ↦
      let e : combine_type type_table n ≡ 5 + n * 8 = ground (arith, small) in
      rw (small, e) (push-Wrote s.wb ((5 + n * 8) ∷ []) c)
]

pub nil-Wrote : (wb : WriteBlock) → IsChain wb → Wrote wb (0 ∷ []) (wb_nil wb)
unfolding wb_nil
nil-Wrote wb c = push-Wrote wb (0 ∷ []) c

pub no_size : (t : Tree) → size t ≤ 0 → ⊥
no_size (leaf v) h = omega (arith, h)
no_size (node a xs es) h = omega (arith, h)
