-- ===== src/Seri/Bytes.antt =====
-- Numbers as bytes, least significant first, as `memcpy` of a native integer or double lays them out
-- on the little-endian machines that the runtime is built for.
use native.Mathlib.Nat.{pow-suc}
use service_lua.Base.{
  ℕ, zero, suc, ◌+◌, ◌*◌, ◌/◌, ◌%◌, ◌^◌, ◌<◌, ◌≡◌, refl, ap, List, [], ◌∷◌, arith, length,
}

unfoldable pub le_bytes : ℕ → ℕ → List ℕ
le_bytes zero x = []
le_bytes (suc n) x = x % 256 ∷ le_bytes n (x / 256)

unfoldable pub of_le : List ℕ → ℕ
of_le [] = 0
of_le (b ∷ bs) = b + 256 * of_le bs

pub length-le_bytes : (n x : ℕ) → length (le_bytes n x) ≡ n
unfolding le_bytes
length-le_bytes zero x = refl
length-le_bytes (suc n) x = ap suc (length-le_bytes n (x / 256))

-- Reading back a number that fits.
pub of_le-le_bytes : (n x : ℕ) → x < 256 ^ n → of_le (le_bytes n x) ≡ x
unfolding le_bytes of_le
of_le-le_bytes zero x h = omega arith
of_le-le_bytes (suc n) x h =
    let small : x / 256 < 256 ^ n = omega (arith, pow-suc 256 n) in
    rw (of_le-le_bytes n (x / 256) small) (omega arith)
