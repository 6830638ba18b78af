-- ===== src/Seri/Integer.antt =====
-- The integers of the stream: sizes of arrays and numbers of tables, by `wb_integer`, and read back by
-- `get_extend_integer`.
use service_lua.Base.{
  ℕ, zero, suc, ◌^◌, ◌≡◌, refl, true, false, List, [], ◌∷◌, ◌++◌, arith, Bool-cases, inl, inr, ltb,
  ltb→lt, lt→ltb, if◌then◌else◌, ℤ, pos, negsuc,
}
use service_lua.Base.Int.{Fits, to_word, of_word-to_word, to_word-lt}
use service_lua.Seri.Bytes.{le_bytes}
use service_lua.Seri.Block.{WriteBlock, wb_push}
use service_lua.Seri.Block.Append.{IsChain}
use service_lua.Seri.Scalar.{is_zero, fits_int32, wb_integer_int32, wb_integer}
use service_lua.Seri.Result.{ok}
use service_lua.Seri.Stream.{Reader, to_int, get_extend_integer}
use service_lua.Seri.Encode.{Wrote, Wrote-push, push-Wrote}
use service_lua.Seri.Decode.{at, read_word-append, read_byte}

unfoldable pub encode_int32 : ℤ → List ℕ
encode_int32 (negsuc n) = 33 ∷ le_bytes 4 (to_word (2 ^ 32) (negsuc n))
encode_int32 (pos n) =
    if ltb n 0x100
    then 9 ∷ le_bytes 1 n
    else if ltb n 0x10000
    then 17 ∷ le_bytes 2 n
    else 33 ∷ le_bytes 4 n

-- The tag and the bytes of an integer.
unfoldable pub encode_integer : ℤ → List ℕ
unfolding encode_int32
encode_integer v =
    if is_zero v
    then 1 ∷ []
    else if fits_int32 v
    then encode_int32 v
    else 49 ∷ le_bytes 8 (to_word (2 ^ 64) v)

tagged :
    (wb : WriteBlock) (t : ℕ) (bs : List ℕ)
    → IsChain wb
    → Wrote wb (t ∷ bs) (wb_push (wb_push wb (t ∷ [])) bs)
tagged wb t bs c = Wrote-push wb _ (t ∷ []) bs (push-Wrote wb (t ∷ []) c)

wb_integer_int32-Wrote :
    (wb : WriteBlock) (v : ℤ) → IsChain wb → Wrote wb (encode_int32 v) (wb_integer_int32 wb v)
unfolding wb_integer_int32 encode_int32
wb_integer_int32-Wrote wb (negsuc n) c = tagged wb 33 _ c
wb_integer_int32-Wrote wb (pos n) c = elim (Bool-cases (ltb n 0x100)) [
  | inl byte ↦ rw byte (tagged wb 9 (le_bytes 1 n) c)
  | inr more ↦ elim (Bool-cases (ltb n 0x10000)) [
    | inl word ↦ rw (more, word) (tagged wb 17 (le_bytes 2 n) c)
    | inr dword ↦ rw (more, dword) (tagged wb 33 (le_bytes 4 n) c)
  ]
]

pub wb_integer-Wrote :
    (wb : WriteBlock) (v : ℤ) → IsChain wb → Wrote wb (encode_integer v) (wb_integer wb v)
unfolding wb_integer encode_integer
wb_integer-Wrote wb v c = elim (Bool-cases (is_zero v)) [
  | inl none ↦ rw none (push-Wrote wb (1 ∷ []) c)
  | inr some ↦ elim (Bool-cases (fits_int32 v)) [
    | inl int ↦ rw (some, int) (wb_integer_int32-Wrote wb v c)
    | inr long ↦ rw (some, long) (tagged wb 49 (le_bytes 8 (to_word (2 ^ 64) v)) c)
  ]
]

suc-ne-zero : (n : ℕ) → is_zero (pos (suc n)) ≡ false
unfolding is_zero
suc-ne-zero n = ground arith

negsuc-ne-zero : (n : ℕ) → is_zero (negsuc n) ≡ false
unfolding is_zero
negsuc-ne-zero n = refl

fits_int32-Fits : (v : ℤ) → Fits (2 ^ 31) v → fits_int32 v ≡ true
unfolding fits_int32
fits_int32-Fits (pos n) h = lt→ltb n (2 ^ 31) h
fits_int32-Fits (negsuc n) h = lt→ltb n (2 ^ 31) h

encode_integer-zero : encode_integer (pos 0) ≡ 1 ∷ []
unfolding encode_integer is_zero
encode_integer-zero = refl

encode_integer-int32 :
    (v : ℤ) → Fits (2 ^ 31) v → is_zero v ≡ false → encode_integer v ≡ encode_int32 v
unfolding encode_integer
encode_integer-int32 v h e = rw (e, fits_int32-Fits v h)

to_int-Fits : (v : ℤ) → Fits (2 ^ 31) v → to_int v ≡ v
unfolding to_int
to_int-Fits v h = of_word-to_word (2 ^ 31) v (omega arith) h

module _ (s : Reader) (r : List ℕ) where
  abbrev ReadsAs : ℤ → List ℕ → Type 0
  ReadsAs v bs = get_extend_integer (at s (bs ++ r)) ≡ ok (v, at s r)

  reads_word : (v : ℤ) → Fits (2 ^ 31) v → ReadsAs v (33 ∷ le_bytes 4 (to_word (2 ^ 32) v))
  unfolding get_extend_integer
  reads_word v h = rw (
    read_byte s 33 (le_bytes 4 (to_word (2 ^ 32) v) ++ r),
    read_word-append s 4 (to_word (2 ^ 32) v) r (to_word-lt (2 ^ 32) v (omega arith)),
    of_word-to_word (2 ^ 31) v (omega arith) h,
    to_int-Fits v h,
  )

  reads_int32 : (v : ℤ) → Fits (2 ^ 31) v → ReadsAs v (encode_int32 v)
  unfolding encode_int32 get_extend_integer
  reads_int32 (negsuc n) h = reads_word (negsuc n) h
  reads_int32 (pos n) h = elim (Bool-cases (ltb n 0x100)) [
    | inl byte ↦ rw (
      byte,
      read_byte s 9 (le_bytes 1 n ++ r),
      read_word-append s 1 n r (ltb→lt n 0x100 byte),
      to_int-Fits (pos n) h,
    )
    | inr more ↦ elim (Bool-cases (ltb n 0x10000)) [
      | inl word ↦ rw (
        more,
        word,
        read_byte s 17 (le_bytes 2 n ++ r),
        read_word-append s 2 n r (ltb→lt n 0x10000 word),
        to_int-Fits (pos n) h,
      )
      | inr dword ↦
          let same : to_word (2 ^ 32) (pos n) ≡ n = unfold to_word in omega arith in
          rw (more, dword) (rw same at (reads_word (pos n) h))
    ]
  ]

  reads_zero : ReadsAs (pos 0) (1 ∷ [])
  unfolding get_extend_integer
  reads_zero = rw (read_byte s 1 r, to_int-Fits (pos 0) (omega arith))

  pub reads_integer : (v : ℤ) → Fits (2 ^ 31) v → ReadsAs v (encode_integer v)
  reads_integer (pos zero) h = rw encode_integer-zero reads_zero
  reads_integer (pos (suc n)) h =
      rw (encode_integer-int32 (pos (suc n)) h (suc-ne-zero n)) (reads_int32 (pos (suc n)) h)
  reads_integer (negsuc n) h =
      rw (encode_integer-int32 (negsuc n) h (negsuc-ne-zero n)) (reads_int32 (negsuc n) h)

-- To a well-formed chain `wb_integer` appends the bytes `encode_integer v` of an int32, and
-- `get_extend_integer` reads the same integer off the front of any stream that starts with them, and
-- leaves the rest.
pub get_extend_integer-wb_integer :
    (wb : WriteBlock) (v : ℤ) (s : Reader) (r : List ℕ)
    → IsChain wb
    → Fits (2 ^ 31) v
    → Wrote wb (encode_integer v) (wb_integer wb v)
      × (get_extend_integer (at s (encode_integer v ++ r)) ≡ ok (v, at s r))
get_extend_integer-wb_integer wb v s r c h = (wb_integer-Wrote wb v c, reads_integer s r v h)
