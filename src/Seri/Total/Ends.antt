-- ===== src/Seri/Total/Ends.antt =====
-- The unpacker comes to an end on every buffer: its fuel is enough.
use service_lua.Base.{
  ltb, ◌++◌, ℕ, zero, suc, ◌+◌, ◌-◌, ◌/◌, ◌%◌, ◌^◌, ◌<◌, ◌≡◌, ◌⊎◌, refl, sym, subst, List, [], ◌∷◌,
  arith, length, take, drop, length-take, Bool-cases, inl, inr, ℤ,
}
use service_lua.Base.Int.{of_word}
use service_lua.Seri.Bytes.{of_le}
use service_lua.Seri.Value.{Value, table}
use service_lua.Seri.Result.{Result, ok, raised, outside, SeriError, ◌>>=◌}
use service_lua.Seri.Stream.{Read, Reader, index, key, raw_set, is_nan, is_nil, rball_init}
use service_lua.Seri.Unpack.{
  unpack_array, unpack_hash, enter_table, unpack_table, push_value, unpack_one, unpack_all,
  seri_unpack, rounds,
}
use service_lua.Seri.Total.{
  strays, Below, raises, returns, remaining, after, Below-bind, Below-if, Below-wider,
  read_word-byte, get_buffer-Below, push_boolean-Below, push_number-Below, push_userdata-Below,
  push_long_string-Below, unpack_ref-Below, table_size-Below,
}

-- What `unpack` does on a reader with less than `f` bytes left: it reads a byte at least.
abbrev Reads : ℕ → Read Value → Type 0
Reads f unpack = (s : Reader) → remaining s < f → Below after (remaining s) (unpack s)

module _ (f : ℕ) (unpack : Read Value) (reads : Reads f unpack) where
  unpack_array-Below :
      (t i n : ℕ) (s : Reader)
      → remaining s < f
      → Below remaining (remaining s + 1) (unpack_array unpack t i n s)
  unfolding unpack_array raw_set
  unpack_array-Below t i zero s few = returns s (omega arith)
  unpack_array-Below t i (suc n) s few = Below-bind after remaining _ (reads s few) (λ p h.
      Below-wider remaining
        (unpack_array-Below t (i + 1) n (raw_set t (index i) p.0 p.1) (omega (arith, h, few)))
        (omega (arith, h)))

  unpack_hash-Below :
      (t g : ℕ) (s : Reader)
      → remaining s < f
      → remaining s < g
      → Below remaining (remaining s + 1) (unpack_hash unpack t g s)
  unfolding unpack_hash raw_set
  unpack_hash-Below t zero s few enough = absurd (omega arith)
  unpack_hash-Below t (suc g) s few enough = Below-bind after remaining _ (reads s few) (λ p h.
      elim (Bool-cases (is_nil p.0)) [
        | inl last ↦ rw last (returns p.1 (omega (arith, h)))
        | inr more ↦ rw more (
            Below-bind after remaining _
              (reads (record p.1 { depth = p.1.depth + 1; stack = p.1.stack ++ (p.0 ∷ []) })
                (omega (arith, h, few)))
              (λ q k. elim (Bool-cases (is_nan p.0)) [
                | inl nan ↦ rw nan (raises _)
                | inr fine ↦ rw fine (
                    Below-wider remaining
                      (unpack_hash-Below t g
                        (raw_set t (key p.0) q.0
                          (record q.1 { depth = q.1.depth - 1; stack = p.1.stack }))
                        (omega (arith, h, k, few)) (omega (arith, h, k, enough)))
                      (omega (arith, h, k)))
              ]))
      ])

  unpack_table-Below :
      (cookie type : ℕ) (s : Reader)
      → remaining s < f
      → Below after (remaining s + 1) (unpack_table unpack cookie type s)
  unfolding unpack_table enter_table
  unpack_table-Below cookie type s few =
      Below-bind after after _ (table_size-Below cookie s) (λ p h.
        let (t, s₂) = enter_table type p.1 in
        Below-bind remaining after _
          (unpack_array-Below t 1 (rounds p.0) s₂ (omega (arith, h, few)))
          (λ s₃ k.
            Below-bind remaining after _
              (unpack_hash-Below t (length s₃.rest + 1) (record s₃ { depth = s₃.depth - 1 })
                (omega (arith, h, k, few)) (omega arith))
              (λ s₄ l. returns (table t, record s₄ { stack = s.stack }) (omega (arith, h, k, l)))))

  push_value-Below :
      (of_integer : ℤ → ℕ) (type cookie : ℕ) (s : Reader)
      → remaining s < f
      → Below after (remaining s + 1) (push_value of_integer unpack type cookie s)
  unfolding push_value
  push_value-Below of_integer type cookie s few = Below-if after _ (push_boolean-Below cookie s) (
      Below-if after _ (push_number-Below of_integer cookie s) (
        Below-if after _ (push_userdata-Below cookie s) (
          Below-if after _
            (Below-bind after after _ (get_buffer-Below cookie s) (λ p h. returns _ h))
            (Below-if after _ (push_long_string-Below cookie s) (
              Below-if after _ (unpack_table-Below cookie type s few)
                (Below-if after _ (unpack_ref-Below cookie s) (raises _)))))))

unpack_one-Below : (of_integer : ℤ → ℕ) (f : ℕ) → Reads f (unpack_one of_integer f)
unfolding unpack_one
unpack_one-Below of_integer zero s few = absurd (omega (arith, few))
unpack_one-Below of_integer (suc f) s few = Below-bind after after _ (read_word-byte s) (λ p h.
    Below-wider after
      (push_value-Below f (unpack_one of_integer f) (unpack_one-Below of_integer f) of_integer
        (p.0 % 8) (p.0 / 8) p.1 (omega (arith, h, few)))
      (omega (arith, h)))

-- The end of the stream, or the values behind one more byte
abbrev values_at : (ℤ → ℕ) → ℕ → ℕ → Reader → List ℕ → Result (List Value × Reader)
values_at of_integer d f s bytes = elim bytes [
  | [] ↦ ok ([], s)
  | b ∷ bs ↦ unpack_one of_integer d s >>= λ (v, s').
      unpack_all of_integer d f s' >>= λ (vs, s''). ok (v ∷ vs, s'')
]

List-cases : {A : Type 0} (xs : List A) → (xs ≡ []) ⊎ ((x : A) × (ys : List A) × (xs ≡ x ∷ ys))
List-cases [] = inl refl
List-cases (x ∷ xs) = inr (x, xs, refl)

unpack_all-Below :
    (of_integer : ℤ → ℕ) (d f : ℕ) (s : Reader)
    → remaining s < d
    → remaining s < f
    → Below after 1 (unpack_all of_integer d f s)
unfolding unpack_all
unpack_all-Below of_integer d zero s deep enough = absurd (omega arith)
unpack_all-Below of_integer d (suc f) s deep enough = elim (List-cases s.rest) [
  | inl done ↦
      subst (λ bytes. Below after 1 (values_at of_integer d f s bytes)) (sym done)
        (returns ([], s) (ground (arith, done)))
  | inr (b, bs, more) ↦
      subst (λ bytes. Below after 1 (values_at of_integer d f s bytes)) (sym more)
        (Below-bind after after _ (unpack_one-Below of_integer d s deep) (λ p h.
          Below-bind after after _
            (unpack_all-Below of_integer d f p.1 (omega (arith, h, deep))
              (omega (arith, h, enough)))
            (λ q k. returns _ k)))
]

seri_unpack-Below :
    (of_integer : ℤ → ℕ) (buffer : List ℕ) → Below after 1 (seri_unpack of_integer buffer)
unfolding seri_unpack
seri_unpack-Below of_integer buffer =
    let len = rounds (of_word (2 ^ 32) (of_le (take 4 buffer))) in
    let s = rball_init (take len (drop 4 buffer)) in
    let few : remaining s < len + 1 = omega (arith, length-take len (drop 4 buffer)) in
    Below-if after (ltb (length buffer) (4 + len)) strays
      (unpack_all-Below of_integer (len + 1) (len + 1) s few few)

no_bytes : (s : Reader) → remaining s < 1 → s.rest ≡ []
no_bytes s h = elim (List-cases s.rest) [
  | inl done ↦ done
  | inr (b, bs, more) ↦ ground (arith, more)
]

Below-cases :
    {r : Result (List Value × Reader)}
    → Below after 1 r
    → ((e : SeriError) × (r ≡ raised e))
      ⊎ ((r ≡ outside) ⊎ ((vs : List Value) × (s : Reader) × (r ≡ ok (vs, s)) × (s.rest ≡ [])))
Below-cases (raises e) = inl (e, refl)
Below-cases strays = inr (inl refl)
Below-cases (returns (vs, s) h) = inr (inr (vs, s, refl, no_bytes s h))

-- On every buffer, whatever its bytes, `seri_unpack` comes to an end: it raises an error, it reads memory
-- outside the buffer, or it returns its values and has read the stream to the end. The fuel of its loops, a
-- round for each byte and one more, is enough, and so is that for the depth of nesting.
pub seri_unpack-ends :
    (of_integer : ℤ → ℕ) (buffer : List ℕ)
    → ((e : SeriError) × (seri_unpack of_integer buffer ≡ raised e))
      ⊎ ((seri_unpack of_integer buffer ≡ outside)
          ⊎ ((vs : List Value) × (s : Reader) × (seri_unpack of_integer buffer ≡ ok (vs, s))
              × (s.rest ≡ [])))
seri_unpack-ends of_integer buffer = Below-cases (seri_unpack-Below of_integer buffer)
