-- ===== src/Seri/RoundTrip.antt =====
-- A message of plain values, packed by `seri_pack` and unpacked by `seri_unpack`.
use service_lua.Base.{
  ℕ, zero, suc, ◌+◌, ◌*◌, ◌^◌, ◌≤◌, ◌<◌, ◌≡◌, refl, ap, sym, ◌∙◌, true, false, List, [], ◌∷◌, ◌++◌,
  arith, length, take, drop, take-length, append_assoc, append-nil, length-append, ℤ, Bool-cases,
  inl, inr, ltb, lt→ltb,
}
use service_lua.Base.Int.{of_word}
use service_lua.Seri.Bytes.{le_bytes, of_le, of_le-le_bytes, length-le_bytes}
use service_lua.Seri.Block.{WriteBlock}
use service_lua.Seri.Block.Append.{bytes, IsChain, wb_init-IsChain, seri_lem}
use service_lua.Seri.Value.{
  Value, Heap, nil, boolean, number, string, light_userdata, c_function, closure, table, other,
}
use service_lua.Seri.Result.{Result, ok}
use service_lua.Seri.Refs.{Packer, init_packer}
use service_lua.Seri.Pack.{pack_from, finish_pack, seri_pack}
use service_lua.Seri.Stream.{Reader, rball_init}
use service_lua.Seri.Unpack.{rounds, unpack_all, seri_unpack}
use service_lua.Seri.Encode.{IsPlain, encode, encode_string, Wrote, pack_one-plain}
use service_lua.Seri.Decode.{at, unpack_one-encode}

abbrev pub AllPlain : List Value → Type 0
AllPlain [] = Unit {0}
AllPlain (v ∷ vs) = IsPlain v × AllPlain vs

unfoldable pub encode_all : List Value → List ℕ
encode_all [] = []
encode_all (v ∷ vs) = encode v ++ encode_all vs

pack_from-plain :
    (f : ℕ) (heap : Heap) (vs : List Value) (s : Packer)
    → AllPlain vs
    → IsChain s.wb
    → (wb' : WriteBlock) × (pack_from (suc f) heap vs s ≡ ok (record s { wb = wb' }))
      × Wrote s.wb (encode_all vs) wb'
unfolding pack_from encode_all
pack_from-plain f heap [] s p c = (s.wb, refl, (c, sym (append-nil (bytes s.wb))))
pack_from-plain f heap (v ∷ vs) s p c =
    let (wb₁, packed, step) = pack_one-plain f heap v s p.0 c in
    let (wb₂, rest, steps) = pack_from-plain f heap vs (record s { wb = wb₁ }) p.1 step.0 in
    (
      wb₂,
      rw (packed, rest),
      (
        steps.0,
        steps.1
            ∙ ap (λ xs. xs ++ encode_all vs) step.1
            ∙ append_assoc (bytes s.wb) (encode v) (encode_all vs),
      ),
    )

encode_string-cons : (str : List ℕ) → (b : ℕ) × (bs : List ℕ) × (encode_string str ≡ b ∷ bs)
unfolding encode_string
encode_string-cons str = elim (Bool-cases (ltb (length str) 32)) [
  | inl short ↦ (3 + length str * 8, str, rw short)
  | inr long ↦ elim (Bool-cases (ltb (length str) 0x10000)) [
    | inl word ↦ (20, le_bytes 2 (length str) ++ str, rw (long, word))
    | inr dword ↦ (36, le_bytes 4 (length str) ++ str, rw (long, dword))
  ]
]

pub encode-cons : (v : Value) → IsPlain v → (b : ℕ) × (bs : List ℕ) × (encode v ≡ b ∷ bs)
unfolding encode
encode-cons nil p = (_, _, refl)
encode-cons (boolean true) p = (_, _, refl)
encode-cons (boolean false) p = (_, _, refl)
encode-cons (number n) p = (_, _, refl)
encode-cons (string str) p = encode_string-cons str
encode-cons (light_userdata n) p = (_, _, refl)
encode-cons (c_function n) p = (_, _, refl)
encode-cons closure p = absurd p
encode-cons (table t) p = absurd p
encode-cons other p = absurd p

length-encode_all : (vs : List Value) → AllPlain vs → length vs ≤ length (encode_all vs)
unfolding encode_all
length-encode_all [] p = omega arith
length-encode_all (v ∷ vs) p =
    let (b, bs, e) = encode-cons v p.0 in
    rw e (omega (arith, length-append bs (encode_all vs), length-encode_all vs p.1))

unpack_all-encode :
    (of_integer : ℤ → ℕ) (d f : ℕ) (vs : List Value) (s : Reader)
    → AllPlain vs
    → length vs < f
    → unpack_all of_integer (suc d) f (at s (encode_all vs)) ≡ ok (vs, at s [])
unfolding unpack_all encode_all
unpack_all-encode of_integer d zero vs s p h = absurd (omega arith)
unpack_all-encode of_integer d (suc f) [] s p h = refl
unpack_all-encode of_integer d (suc f) (v ∷ vs) s p h =
    let (b, bs, e) = encode-cons v p.0 in
    let first = unpack_one-encode of_integer d s v p.0 (encode_all vs) in
    rw e (rw (rw e at first, unpack_all-encode of_integer d f vs s p.1 (omega arith)))

finish_pack-chain :
    (wb : WriteBlock)
    → IsChain wb
    → finish_pack wb ≡ ok (le_bytes 4 (length (bytes wb)) ++ bytes wb, length (bytes wb) + 4)
unfolding finish_pack
finish_pack-chain wb c =
    rw (seri_lem wb c, finish_pack)
      (ap {B = Result (List ℕ × ℕ)} (λ n. ok (le_bytes 4 (length (bytes wb)) ++ bytes wb, n + 4))
        c.len_at)

-- The buffer around a stream: its length, and the stream.
abbrev pub frame : List ℕ → List ℕ
frame bs = le_bytes 4 (length bs) ++ bs

-- Once the stream has been written, `seri_pack` returns it with its length, and the size of both.
pub seri_pack-frame :
    (f : ℕ) (heap : Heap) (vs : List Value) (s : Packer) (bs : List ℕ)
    → pack_from f heap vs init_packer ≡ ok s
    → Wrote init_packer.wb bs s.wb
    → seri_pack f heap vs ≡ ok (frame bs, length (frame bs))
unfolding seri_pack
seri_pack-frame f heap vs s bs packed step = rw packed (
    finish_pack-chain s.wb step.0
    ∙ ap {B = Result (List ℕ × ℕ)} (λ written. ok (frame written, length written + 4)) written
    ∙ ap {B = Result (List ℕ × ℕ)} (λ n. ok (frame bs, n)) size)
  where
    written : bytes s.wb ≡ bs
    written = step.1 ∙ ap (λ xs. xs ++ bs) (wb_init-IsChain.1)

    size : length bs + 4 ≡ length (frame bs)
    size = let n = length bs in omega (arith, length-append (le_bytes 4 n) bs, length-le_bytes 4 n)

-- The loop of `seri_unpack` has the stream to read, with fuel for each of its bytes.
pub seri_unpack-frame :
    (of_integer : ℤ → ℕ) (bs : List ℕ)
    → length bs < 2 ^ 31
    → seri_unpack of_integer (frame bs)
      ≡ unpack_all of_integer (suc (length bs)) (suc (length bs)) (rball_init bs)
unfolding seri_unpack le_bytes
seri_unpack-frame of_integer bs small =
    let n = length bs in
    let header : of_le (take 4 (frame bs)) ≡ n = of_le-le_bytes 4 n (omega arith) in
    let word : rounds (of_word (2 ^ 32) n) ≡ n =
      (unfold rounds of_word in rw (lt→ltb n (2 ^ 31) (omega arith))) in
    let body : take n (drop 4 (frame bs)) ≡ bs = take-length bs in
    let fuel : n + 1 ≡ suc n = omega arith in
    let whole : ltb (length (frame bs)) (4 + n) ≡ false =
      ground (arith, length-append (le_bytes 4 n) bs, length-le_bytes 4 n) in
    rw (header, word, body, fuel, whole) refl

module _ (of_integer : ℤ → ℕ) (f : ℕ) (heap : Heap) (vs : List Value) where
  -- A message of values without parts, whose stream is shorter than 2 GiB, is packed without an
  -- error, into a buffer of the size that is returned with it; unpacking that buffer gives the same
  -- values in the same order, reads it to its end, and makes no table.
  pub seri_unpack-seri_pack :
      AllPlain vs
      → length (encode_all vs) < 2 ^ 31
      → (packed : List ℕ) × (seri_pack (suc f) heap vs ≡ ok (packed, length packed))
        × (seri_unpack of_integer packed ≡ ok (vs, rball_init []))
  seri_unpack-seri_pack p small =
      let (wb, packed, step) = pack_from-plain f heap vs init_packer p (wb_init-IsChain.0) in
      let n = length (encode_all vs) in
      (
        frame (encode_all vs),
        seri_pack-frame (suc f) heap vs (record init_packer { wb = wb }) (encode_all vs) packed
            step,
        seri_unpack-frame of_integer (encode_all vs) small
            ∙ unpack_all-encode of_integer n (suc n) vs (rball_init []) p
                (omega (arith, length-encode_all vs p)),
      )
