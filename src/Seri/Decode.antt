-- ===== src/Seri/Decode.antt =====
-- `unpack_one` reads a plain value off the front of a stream.
use service_lua.Base.{
  ℕ, suc, ◌+◌, ◌*◌, ◌/◌, ◌%◌, ◌^◌, ◌<◌, ◌≡◌, refl, sym, true, false, List, [], ◌∷◌, ◌++◌, ltb, leb,
  arith, length, append_assoc, length-append, take-append, drop-append, Bool-cases, inl, inr,
  le→ltb, ltb→lt, ℤ,
}
use service_lua.Seri.Bytes.{le_bytes, of_le, of_le-le_bytes, length-le_bytes}
use service_lua.Seri.Value.{
  Value, nil, boolean, number, string, light_userdata, c_function, closure, table, other,
}
use service_lua.Seri.Result.{ok}
use service_lua.Seri.Stream.{Reader, rb_read, read_word, get_buffer}
use service_lua.Seri.Unpack.{push_value, unpack_one}
use service_lua.Seri.Encode.{IsPlain, encode}

abbrev pub at : Reader → List ℕ → Reader
at s bytes = record s { rest = bytes }

-- Bytes that are there are read.
pub rb_read-append :
    (s : Reader) (xs r : List ℕ) (n : ℕ)
    → n ≡ length xs
    → rb_read n (at s (xs ++ r)) ≡ ok (xs, at s r)
unfolding rb_read
rb_read-append s xs r n e =
    let there : ltb (length (xs ++ r)) (length xs) ≡ false =
      le→ltb _ _ (omega (arith, length-append xs r)) in
    rw (e, there, take-append xs r, drop-append xs r)

pub read_word-append :
    (s : Reader) (n x : ℕ) (r : List ℕ)
    → x < 256 ^ n
    → read_word n (at s (le_bytes n x ++ r)) ≡ ok (x, at s r)
unfolding read_word
read_word-append s n x r h =
    rw (rb_read-append s (le_bytes n x) r n (sym (length-le_bytes n x)), of_le-le_bytes n x h)

pub read_byte : (s : Reader) (b : ℕ) (r : List ℕ) → read_word 1 (at s (b ∷ r)) ≡ ok (b, at s r)
unfolding read_word of_le
read_byte s b r = rw (rb_read-append s (b ∷ []) r 1 refl) (let e : b + 0 ≡ b = omega arith in rw e)

pub get_buffer-append :
    (s : Reader) (xs r : List ℕ)
    → length xs < 2 ^ 31
    → get_buffer (length xs) (at s (xs ++ r)) ≡ ok (xs, at s r)
unfolding get_buffer
get_buffer-append s xs r h =
    let small : leb (2 ^ 31) (length xs) ≡ false = ground arith in
    rw (small, rb_read-append s xs r (length xs) refl)

module _ (of_integer : ℤ → ℕ) (f : ℕ) (s : Reader) where
  abbrev Reads : Value → Type 0
  Reads v = (r : List ℕ) → unpack_one of_integer (suc f) (at s (encode v ++ r)) ≡ ok (v, at s r)

  unpack_one-string : (str : List ℕ) → length str < 2 ^ 31 → Reads (string str)
  unfolding unpack_one encode push_value
  unpack_one-string str h r = elim (Bool-cases (ltb n 32)) [
    | inl short ↦
        let small = ltb→lt n 32 short in
        let type : (3 + n * 8) % 8 ≡ 3 = omega arith in
        let cookie : (3 + n * 8) / 8 ≡ n = omega arith in
        rw (short, read_byte s (3 + n * 8) (str ++ r), type, cookie, get_buffer-append s str r h)
    | inr long ↦ elim (Bool-cases (ltb n 0x10000)) [
      | inl word ↦ rw (
        long,
        word,
        append_assoc (le_bytes 2 n) str r,
        read_byte s 20 (le_bytes 2 n ++ (str ++ r)),
        read_word-append s 2 n (str ++ r) (ltb→lt n 0x10000 word),
        get_buffer-append s str r h,
      )
      | inr dword ↦ rw (
        long,
        dword,
        append_assoc (le_bytes 4 n) str r,
        read_byte s 36 (le_bytes 4 n ++ (str ++ r)),
        read_word-append s 4 n (str ++ r) (omega arith),
        get_buffer-append s str r h,
      )
    ]
  ]
    where
      n : ℕ
      n = length str

  -- The bytes of a value without parts, read off the front of any stream, give that value and leave the
  -- rest of the stream and the reader as they are.
  pub unpack_one-encode : (v : Value) → IsPlain v → Reads v
  unfolding unpack_one encode push_value
  unpack_one-encode nil p r = rw (read_byte s 0 r)
  unpack_one-encode (boolean true) p r = rw (read_byte s 16 r)
  unpack_one-encode (boolean false) p r = rw (read_byte s 8 r)
  unpack_one-encode (number n) p r =
      rw (read_byte s 65 (le_bytes 8 n ++ r), read_word-append s 8 n r p)
  unpack_one-encode (string str) p r = unpack_one-string str p r
  unpack_one-encode (light_userdata n) p r =
      rw (read_byte s 2 (le_bytes 8 n ++ r), read_word-append s 8 n r p)
  unpack_one-encode (c_function n) p r =
      rw (read_byte s 10 (le_bytes 8 n ++ r), read_word-append s 8 n r p)
  unpack_one-encode closure p r = absurd p
  unpack_one-encode (table t) p r = absurd p
  unpack_one-encode other p r = absurd p
