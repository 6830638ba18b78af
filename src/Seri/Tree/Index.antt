-- ===== src/Seri/Tree/Index.antt =====
-- The keys that `wb_table_hash` leaves out: the doubles of the indices of the array.
use service_lua.Base.{
  ℕ, zero, suc, ◌+◌, ◌-◌, ◌*◌, ◌/◌, ◌%◌, ◌^◌, ◌≤◌, ◌<◌, ◌≡◌, inl, inr, refl, ap, sym, ◌∙◌, Bool,
  true, false, Option, none, some, List, [], ◌∷◌, ltb, leb, ◌==◌, arith, Bool-cases, Option-cases,
}
use service_lua.Seri.Value.{Value, number, whole}
use service_lua.Seri.Pack.{in_array, skip_array}
use service_lua.Seri.Tree.{DoubleOf, IsIndex, Apart}
use native.Mathlib.Nat.{mod-add-div', mul-mod_left, mul-div_cancel, two-pow-succ}

power-positive : (k : ℕ) → 0 < 2 ^ k
power-positive zero = omega arith
power-positive (suc k) = omega (arith, power-positive k, two-pow-succ k)

double-whole : (n bits : ℕ) → DoubleOf n bits → whole bits ≡ some n
unfolding whole
double-whole n bits (e, small, exponent, significand) =
    let low : ltb (bits / 2 ^ 52) 1023 ≡ false = ground (arith, exponent) in
    let high : ltb 1075 (bits / 2 ^ 52) ≡ false = ground (arith, exponent, small) in
    let shift : 1075 - bits / 2 ^ 52 ≡ 52 - e = omega (arith, exponent, small) in
    let exact : (n * 2 ^ (52 - e) % 2 ^ (52 - e) == 0) ≡ true =
      ap (λ r. r == 0) (mul-mod_left n (2 ^ (52 - e))) in
    rw (low, high, shift, significand, exact, mul-div_cancel n (power-positive (52 - e))) refl

-- What a significand that the shift divides says of the number.
shifted : (x d n : ℕ) → (x % d == 0) ≡ true → x / d ≡ n → x ≡ n * d
shifted x d n exact e =
    let zero_rest : x % d ≡ 0 = ground arith in
    sym (mod-add-div' x d) ∙ rw (zero_rest, e) (omega arith)

pub whole-double : (n bits : ℕ) → whole bits ≡ some n → DoubleOf n bits × (1 ≤ n)
unfolding whole
whole-double n bits e =
    let significand = 2 ^ 52 + bits % 2 ^ 52 in
    elim (Bool-cases (ltb (bits / 2 ^ 52) 1023)) [
      | inl low ↦ absurd (cc (rw low at e))
      | inr low ↦ elim (Bool-cases (ltb 1075 (bits / 2 ^ 52))) [
        | inl high ↦ absurd (cc (rw (low, high) at e))
        | inr high ↦ elim (Bool-cases (significand % 2 ^ (1075 - bits / 2 ^ 52) == 0)) [
          | inr broken ↦ absurd (cc (rw (low, high, broken) at e))
          | inl exact ↦
              let quotient : significand / 2 ^ (1075 - bits / 2 ^ 52) ≡ n =
                some-injective (rw (low, high, exact) at e) in
              let shift : 1075 - bits / 2 ^ 52 ≡ 52 - (bits / 2 ^ 52 - 1023) =
                ground (arith, low, high) in
              let product = shifted significand (2 ^ (1075 - bits / 2 ^ 52)) n exact quotient in
              (
                (
                  bits / 2 ^ 52 - 1023,
                  ground (arith, high),
                  ground (arith, low),
                  product ∙ ap (λ k. n * 2 ^ k) shift,
                ),
                positive n (2 ^ (1075 - bits / 2 ^ 52)) (bits % 2 ^ 52) product,
              )
        ]
      ]
    ]
  where
    some-injective : {x y : ℕ} → ◌≡◌ {A = Option ℕ} (some x) (some y) → x ≡ y
    some-injective h = cc h

    positive : (n d f : ℕ) → 2 ^ 52 + f ≡ n * d → 1 ≤ n
    positive zero d f h = absurd (omega (arith, h))
    positive (suc n) d f h = omega arith

-- The test of `in_array` behind `whole`
abbrev within : ℕ → Option ℕ → Bool
within length none = false
within length (some n) = leb n length

in_array-number : (length bits : ℕ) → in_array length (number bits) ≡ within length (whole bits)
unfolding in_array
in_array-number length bits = elim (Option-cases (whole bits)) [
  | inl e ↦ rw (in_array, e) refl
  | inr (n, e) ↦ rw (in_array, e) refl
]

-- `in_array` is true of exactly the keys of the array.
in_array-IsIndex : (length : ℕ) (k : Value) → in_array length k ≡ true → IsIndex length k
unfolding in_array
in_array-IsIndex length (number bits) e = elim (Option-cases (whole bits)) [
  | inl nothing ↦ absurd (cc (sym (in_array-number length bits ∙ ap (within length) nothing) ∙ e))
  | inr (n, is) ↦
      let (double, low) = whole-double n bits is in
      let high : leb n length ≡ true =
        sym (in_array-number length bits ∙ ap (within length) is) ∙ e in
      (n, bits, refl, double, low, ground (arith, high))
]
in_array-IsIndex length k e = absurd (cc e)

IsIndex-in_array : (length : ℕ) (k : Value) → IsIndex length k → in_array length k ≡ true
unfolding in_array
IsIndex-in_array length k (n, bits, is, double, low, high) =
    let fits : leb n length ≡ true = ground (arith, high) in
    ap (in_array length) is
    ∙ in_array-number length bits
    ∙ ap (within length) (double-whole n bits double)
    ∙ fits

-- `wb_table_hash` takes exactly the entries whose keys are not in the array.
pub skip_array-Apart :
    (length : ℕ) (kvs others : List (Value × Value))
    → Apart length kvs others
    → skip_array length kvs ≡ others
unfolding skip_array
skip_array-Apart length [] others e = sym e
skip_array-Apart length ((k, v) ∷ rest) others (inl (in_it, apart)) =
    rw (IsIndex-in_array length k in_it) (skip_array-Apart length rest others apart)
skip_array-Apart length ((k, v) ∷ rest) others (inr (out, (tail, e, apart))) =
    elim (Bool-cases (in_array length k)) [
      | inl in_it ↦ absurd (out (in_array-IsIndex length k in_it))
      | inr off ↦ rw (off, e) (ap (λ xs. (k, v) ∷ xs) (skip_array-Apart length rest tail apart))
    ]
