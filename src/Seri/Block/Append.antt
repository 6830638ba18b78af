-- ===== src/Seri/Block/Append.antt =====
-- The chain of blocks is one list of bytes: `wb_push` appends to it, and `seri` copies it out.
use service_lua.Base.{
  ℕ, zero, suc, ◌+◌, ◌-◌, ◌≤◌, ◌<◌, ◌≡◌, refl, ap, sym, ◌∙◌, some, List, [], ◌∷◌, ◌++◌, arith,
  length, take, drop, length-append, length-take, length-drop, take-append-drop, take-length,
  append_assoc, append-nil, leb, ◌==◌, leb→le, Bool-cases, inl, inr, if◌then◌else◌,
}
use service_lua.Seri.Bytes.{le_bytes}
use service_lua.Seri.Block.{
  WriteBlock, block_size, wb_init, next_block, push_rest, wb_push, wb_address, copy_blocks, seri,
}

pub joined : List (List ℕ) → List ℕ
joined [] = []
joined (x ∷ xs) = x ++ joined xs

joined-snoc : (xs : List (List ℕ)) (y : List ℕ) → joined (xs ++ (y ∷ [])) ≡ joined xs ++ y
unfolding joined
joined-snoc [] y = append-nil y
joined-snoc (x ∷ xs) y = rw (joined-snoc xs y, append_assoc)

-- What has been written.
pub bytes : WriteBlock → List ℕ
bytes b = joined b.before ++ b.current

abbrev AllFull : List (List ℕ) → Type 0
AllFull [] = Unit {0}
AllFull (x ∷ xs) = (length x ≡ block_size) × AllFull xs

AllFull-snoc :
    (xs : List (List ℕ)) (y : List ℕ)
    → AllFull xs
    → length y ≡ block_size
    → AllFull (xs ++ (y ∷ []))
AllFull-snoc [] y h e = (e, tt)
AllFull-snoc (x ∷ xs) y h e = (h.0, AllFull-snoc xs y h.1 e)

-- Every block but the last is full, and the counters agree with the bytes.
pub record IsChain (b : WriteBlock) : Type 0 where
  pub full_before : AllFull b.before
  pub ptr_at : length b.current ≡ b.ptr
  pub ptr_in : b.ptr ≤ block_size
  pub len_at : b.len ≡ length (bytes b)

pub wb_init-IsChain : IsChain wb_init × (bytes wb_init ≡ [])
unfolding wb_init bytes joined
wb_init-IsChain =
    (record { full_before = tt; ptr_at = refl; ptr_in = omega arith; len_at = refl }, refl)

-- The next block is taken once the last is full.
next_block-IsChain :
    (b : WriteBlock)
    → AllFull b.before
    → length b.current ≡ block_size
    → b.len ≡ length (bytes b)
    → IsChain (next_block b) × (bytes (next_block b) ≡ bytes b)
unfolding next_block
next_block-IsChain b h e l = (
  record {
    full_before = AllFull-snoc b.before b.current h e;
    ptr_at = refl;
    ptr_in = omega arith;
    len_at = l ∙ ap length (sym same);
  },
  same,
)
  where
    same : bytes (next_block b) ≡ bytes b
    same = unfold bytes in (append-nil _ ∙ joined-snoc b.before b.current)

bytes-append : (b : WriteBlock) (s : List ℕ) → joined b.before ++ (b.current ++ s) ≡ bytes b ++ s
unfolding bytes
bytes-append b s = sym (append_assoc (joined b.before) b.current s)

-- A piece that fits the last block.
store :
    (b : WriteBlock) (s : List ℕ)
    → IsChain b
    → b.ptr + length s ≤ block_size
    → let b' : WriteBlock = record b {
      current = b.current ++ s;
      ptr = b.ptr + length s;
      len = b.len + length s;
    } in
      IsChain b' × (bytes b' ≡ bytes b ++ s)
store b s c fits = (
  record {
    full_before = c.full_before;
    ptr_at = omega (arith, length-append b.current s, c.ptr_at);
    ptr_in = fits;
    len_at = omega (arith, ap length same, length-append (bytes b) s, c.len_at);
  },
  same,
)
  where
    b' : WriteBlock
    b' = record b { current = b.current ++ s; ptr = b.ptr + length s; len = b.len + length s }

    same : bytes b' ≡ bytes b ++ s
    same = unfold bytes in bytes-append b s

-- The last block filled up, and the next one taken.
fill :
    (b : WriteBlock) (s : List ℕ)
    → IsChain b
    → b.ptr + length s ≡ block_size
    → let b' = next_block (record b { current = b.current ++ s; len = b.len + length s }) in
      IsChain b' × (bytes b' ≡ bytes b ++ s)
fill b s c filled =
    let (chain, same) =
      next_block-IsChain (record b { current = b.current ++ s; len = b.len + length s })
        c.full_before (omega (arith, length-append b.current s, c.ptr_at))
        (omega (arith, c.len_at, ap length grown, length-append (bytes b) s)) in
    (chain, same ∙ grown)
  where
    grown : bytes (record b { current = b.current ++ s; len = b.len + length s }) ≡ bytes b ++ s
    grown = unfold bytes in bytes-append b s

ptr-next_block : (b : WriteBlock) → (next_block b).ptr ≡ 0
unfolding next_block
ptr-next_block b = refl

push_rest_lem :
    (f : ℕ) (b : WriteBlock) (s : List ℕ)
    → IsChain b
    → b.ptr < block_size
    → length s < f
    → IsChain (push_rest f b s) × (bytes (push_rest f b s) ≡ bytes b ++ s)
unfolding push_rest
push_rest_lem zero b s c room h = absurd (omega arith)
push_rest_lem (suc f) b s c room h = elim (Bool-cases (leb (b.ptr + length s) block_size)) [
  | inl fits ↦ rw fits (store b s c (leb→le _ _ fits))
  | inr over ↦
      let n = block_size - b.ptr in
      let long : block_size < b.ptr + length s = ground arith in
      let cut : length (take n s) ≡ n = omega (arith, length-take n s) in
      let filled = fill b (take n s) c (omega arith) in
      let (chain, same) =
        push_rest_lem f (next_block (record b { current = b.current ++ take n s; len = b.len + n }))
          (drop n s) (rw cut at filled.0) (omega arith) (omega (arith, length-drop n s)) in
      rw over (
        chain,
        same
            ∙ ap (λ xs. xs ++ drop n s) (rw cut at filled.1)
            ∙ append_assoc (bytes b) (take n s) (drop n s)
            ∙ ap (λ xs. bytes b ++ xs) (take-append-drop n s),
      )
]

-- Where `wb_push` and `wb_address` start: a full block is left for a new one.
abbrev pub roomy : WriteBlock → WriteBlock
roomy b = if b.ptr == block_size then next_block b else b

roomy_lem :
    (b : WriteBlock)
    → IsChain b
    → IsChain (roomy b) × (bytes (roomy b) ≡ bytes b) × ((roomy b).ptr < block_size)
roomy_lem b c = elim (Bool-cases (b.ptr == block_size)) [
  | inl last ↦
      let e : b.ptr ≡ block_size = ground arith in
      let (chain, same) = next_block-IsChain b c.full_before (c.ptr_at ∙ e) c.len_at in
      rw last (chain, same, omega (arith, ptr-next_block b))
  | inr room ↦ rw room (c, refl, ground (arith, c.ptr_in))
]

-- In a chain whose blocks but the last are full, `wb_push` appends its bytes, over as many blocks as
-- it takes, and the chain stays so.
pub wb_push_lem :
    (b : WriteBlock) (s : List ℕ)
    → IsChain b
    → IsChain (wb_push b s) × (bytes (wb_push b s) ≡ bytes b ++ s)
unfolding wb_push
wb_push_lem b s c =
    let (chain, same, room) = roomy_lem b c in
    let (chain', grown) = push_rest_lem (length s + 1) (roomy b) s chain room (omega arith) in
    (chain', grown ∙ ap (λ xs. xs ++ s) same)

-- `wb_address` writes nothing, and points at the place of the byte that comes next.
pub wb_address_lem :
    (b : WriteBlock)
    → IsChain b
    → let ((i, o), b') = wb_address b in
      IsChain b'
      × (bytes b' ≡ bytes b)
      × (b'.ptr < block_size)
      × (i ≡ length b'.before)
      × (o ≡ length b'.current)
unfolding wb_address
wb_address_lem b c =
    let (chain, same, room) = roomy_lem b c in (chain, same, room, refl, sym chain.ptr_at)

nil_of_length : (y : List ℕ) → length y ≡ 0 → y ≡ []
nil_of_length [] e = refl
nil_of_length (x ∷ y) e = absurd (omega arith)

copy_blocks_lem :
    (xs : List (List ℕ)) (y : List ℕ)
    → AllFull xs
    → length y ≤ block_size
    → copy_blocks (xs ++ (y ∷ [])) (length (joined xs ++ y)) ≡ some (joined xs ++ y)
unfolding copy_blocks joined
copy_blocks_lem [] y h e = ground (arith, take-length y, append-nil y, nil_of_length y)
copy_blocks_lem (x ∷ xs) y h e =
    let whole : length ((x ++ joined xs) ++ y) ≡ block_size + length (joined xs ++ y) =
      omega
        (arith, h.0, ap length (append_assoc x (joined xs) y), length-append x (joined xs ++ y)) in
    let left : block_size + length (joined xs ++ y) - block_size ≡ length (joined xs ++ y) =
      omega arith in
    rw (whole, left, copy_blocks_lem xs y h.1 e) (ground (arith, append_assoc x (joined xs) y))

-- For a chain whose blocks but the last are full, `seri` returns the length of what was written, as
-- four bytes, and then all that was written: it does not run past the last block.
pub seri_lem :
    (b : WriteBlock) → IsChain b → seri b ≡ some (le_bytes 4 (length (bytes b)) ++ bytes b)
unfolding seri
seri_lem b c =
    let copied : copy_blocks (b.before ++ (b.current ∷ [])) b.len ≡ some (bytes b) =
      ap (copy_blocks (b.before ++ (b.current ∷ []))) c.len_at
      ∙ (unfold bytes in
          copy_blocks_lem b.before b.current c.full_before (omega (arith, c.ptr_at, c.ptr_in))) in
    rw (copied, seri) (ap (λ n. some (le_bytes 4 n ++ bytes b)) c.len_at)
