-- ===== src/Base/Int.antt =====
-- Signed integers over the native numbers, under the library's names, and two's complement.
use Prim.Native.Nat.{ℕ, ◌-◌, ◌*◌, ◌/◌, ◌%◌, ◌<◌}
use mathlib.Core.Path.{◌≡◌}
use native.Mathlib.Nat.{mod-eq_of_lt}
use native.Mathlib.Omega.{arith}
use service_lua.Base.Tests.{if◌then◌else◌, ltb}

-- `negsuc n` is -(n + 1).
pub data ℤ : Type 0 where
  pos : ℕ → ℤ
  negsuc : ℕ → ℤ

-- The bit pattern of an integer in a word of modulus `m`, and the integer of a bit pattern.
unfoldable pub to_word : ℕ → ℤ → ℕ
to_word m (pos n) = n % m
to_word m (negsuc n) = m - 1 - n % m

unfoldable pub of_word : ℕ → ℕ → ℤ
of_word m w = if ltb w (m / 2) then pos w else negsuc (m - 1 - w)

-- The integers that a word of modulus 2 * h holds.
abbrev pub Fits : ℕ → ℤ → Type 0
Fits h (pos n) = n < h
Fits h (negsuc n) = n < h

pub to_word-lt : (m : ℕ) (v : ℤ) → 0 < m → to_word m v < m
unfolding to_word
to_word-lt m (pos n) h = omega arith
to_word-lt m (negsuc n) h = omega arith

pub of_word-to_word : (h : ℕ) (v : ℤ) → 0 < h → Fits h v → of_word (2 * h) (to_word (2 * h) v) ≡ v
unfolding to_word of_word
of_word-to_word h (pos n) p f =
    let e : n % (2 * h) ≡ n = mod-eq_of_lt (omega arith) in rw e (ground arith)
of_word-to_word h (negsuc n) p f =
    let e : n % (2 * h) ≡ n = mod-eq_of_lt (omega arith) in rw e (ground arith)
