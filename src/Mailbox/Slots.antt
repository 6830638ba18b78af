-- ===== src/Mailbox/Slots.antt =====
-- The messages in a circular buffer, oldest first, and what writing, growing and popping do to them.
use native.Mathlib.Nat.{mod-add-mod, mod-eq_of_lt, mod-eq-sub-mod}
use native.Mathlib.Decide.{dec_lt, ℕ_discrete}
use service_lua.Base.{
  ℕ, zero, suc, ◌+◌, ◌-◌, ◌%◌, ◌^◌, ◌≤◌, ◌<◌, ◌≡◌, refl, ap, ap₂, ◌≢◌, List, [], ◌∷◌, ◌++◌, arith,
  length, get_or, set, length-set, get_or-set_self, get_or-set_ne, add_size, ◌∙◌, sym,
}
use service_lua.Message.{Message, zero_message}
use service_lua.Mailbox.{copy_items}

abbrev pub slot : List Message → ℕ → Message
slot items i = get_or items i zero_message

-- The `n` messages from the `i`th behind `head` on, going round at `cap`.
unfoldable pub slots : List Message → ℕ → ℕ → ℕ → ℕ → List Message
slots items cap head i zero = []
slots items cap head i (suc n) = slot items ((head + i) % cap) ∷ slots items cap head (i + 1) n

pub slots-eq-nil : (a : List Message) (c h i n : ℕ) → n ≡ 0 → slots a c h i n ≡ []
unfolding slots
slots-eq-nil a c h i zero e = refl
slots-eq-nil a c h i (suc n) e = absurd (omega arith)

pub length-slots : (items : List Message) (cap head i n : ℕ) → length (slots items cap head i n) ≡ n
unfolding slots
length-slots items cap head i zero = refl
length-slots items cap head i (suc n) = ap suc (length-slots items cap head (i + 1) n)

-- Two windows with the same messages at each place are the same list.
pub slots-ext :
    (a b : List Message) (ca cb ha hb i j n : ℕ)
    → ((k : ℕ) → k < n → slot a ((ha + (i + k)) % ca) ≡ slot b ((hb + (j + k)) % cb))
    → slots a ca ha i n ≡ slots b cb hb j n
unfolding slots
slots-ext a b ca cb ha hb i j zero h = refl
slots-ext a b ca cb ha hb i j (suc n) h =
    ap₂ ◌∷◌ first (slots-ext a b ca cb ha hb (i + 1) (j + 1) n rest)
  where
    first : slot a ((ha + i) % ca) ≡ slot b ((hb + j) % cb)
    first =
        let ei : i + 0 ≡ i = omega arith in
        let ej : j + 0 ≡ j = omega arith in rw (ei, ej) at (h 0 (omega arith))

    rest : (k : ℕ) → k < n → slot a ((ha + (i + 1 + k)) % ca) ≡ slot b ((hb + (j + 1 + k)) % cb)
    rest k lt =
        let ei : i + suc k ≡ i + 1 + k = omega arith in
        let ej : j + suc k ≡ j + 1 + k = omega arith in rw (ei, ej) at (h (suc k) (omega arith))

slots-snoc :
    (a : List Message) (c h i n : ℕ)
    → slots a c h i (suc n) ≡ slots a c h i n ++ (slot a ((h + (i + n)) % c) ∷ [])
unfolding slots
slots-snoc a c h i zero = let e : i + 0 ≡ i = omega arith in rw e
slots-snoc a c h i (suc n) =
    let e : i + suc n ≡ i + 1 + n = omega arith in
    rw e (ap (λ t. slot a ((h + i) % c) ∷ t) (slots-snoc a c h (i + 1) n))

-- Places less than `cap` apart do not meet.
pub mod-ne : {c h i n : ℕ} → h < c → i < n → n < c → (h + i) % c ≢ (h + n) % c
mod-ne {c} {h} {i} {n} hh hi hn e = elim (dec_lt (h + n) c) [
  | yes p ↦ omega (arith, mod-eq_of_lt p, mod-eq_of_lt {n = h + i} {m = c} (omega arith))
  | no p ↦ elim (dec_lt (h + i) c) [
    | yes q ↦ omega (
      arith,
      mod-eq_of_lt q,
      mod-eq-sub-mod {n = h + n} {m = c} (omega arith),
      mod-eq_of_lt {n = h + n - c} {m = c} (omega arith),
    )
    | no q ↦ omega (
      arith,
      mod-eq-sub-mod {n = h + n} {m = c} (omega arith),
      mod-eq_of_lt {n = h + n - c} {m = c} (omega arith),
      mod-eq-sub-mod {n = h + i} {m = c} (omega arith),
      mod-eq_of_lt {n = h + i - c} {m = c} (omega arith),
    )
  ]
]

-- Writing behind the last message appends it.
pub slots-set :
    (a : List Message) (c h n t : ℕ) (m : Message)
    → length a ≡ c
    → h < c
    → n < c
    → t ≡ (h + n) % c
    → slots (set a t m) c h 0 (suc n) ≡ slots a c h 0 n ++ (m ∷ [])
slots-set a c h n t m len hh hn e =
    slots-snoc (set a t m) c h 0 n ∙ ap₂ (λ xs x. xs ++ (x ∷ [])) kept added
  where
    kept : slots (set a t m) c h 0 n ≡ slots a c h 0 n
    kept = slots-ext (set a t m) a c c h h 0 0 n λ k lt.
        get_or-set_ne a m zero_message
          (λ q. mod-ne {c = c} {h = h} {i = 0 + k} {n = n} hh (omega arith) hn (sym q ∙ e))

    added : slot (set a t m) ((h + (0 + n)) % c) ≡ m
    added =
        let z : 0 + n ≡ n = omega arith in
        rw (z, ← e) (get_or-set_self a t m zero_message (omega arith))

-- Popping moves the head on by one.
pub slots-tail :
    (a : List Message) (c h n : ℕ)
    → slots a c h 0 (suc n) ≡ slot a (h % c) ∷ slots a c ((h + 1) % c) 0 n
unfolding slots
slots-tail a c h n = ap₂ ◌∷◌ (let e : h + 0 ≡ h = omega arith in rw e) (
    slots-ext a a c c h ((h + 1) % c) (0 + 1) 0 n λ k lt.
      ap (slot a) (let e : h + (0 + 1 + k) ≡ h + 1 + (0 + k) = omega arith in rw (e, mod-add-mod)))

-- `grow_locked` copies each message to its place in the new buffer.
pub length-copy_items :
    (a : List Message) (c h i n : ℕ) (g : List Message) → length (copy_items a c h i n g) ≡ length g
unfolding copy_items
length-copy_items a c h i zero g = refl
length-copy_items a c h i (suc n) g =
    let x = slot a (add_size h i % c) in
    length-copy_items a c h (i + 1) n (set g i x) ∙ length-set g i x

copy_items-below :
    (a : List Message) (c h i n : ℕ) (g : List Message) (j : ℕ)
    → j < i
    → slot (copy_items a c h i n g) j ≡ slot g j
unfolding copy_items
copy_items-below a c h i zero g j lt = refl
copy_items-below a c h i (suc n) g j lt =
    let x = slot a (add_size h i % c) in
    copy_items-below a c h (i + 1) n (set g i x) j (omega arith)
    ∙ get_or-set_ne g x zero_message (omega arith)

copy_items-at :
    (a : List Message) (c h i n : ℕ) (g : List Message) (j : ℕ)
    → i ≤ j
    → j < i + n
    → i + n ≤ length g
    → slot (copy_items a c h i n g) j ≡ slot a (add_size h j % c)
unfolding copy_items
copy_items-at a c h i zero g j le lt fits = absurd (omega arith)
copy_items-at a c h i (suc n) g j le lt fits = elim (ℕ_discrete i j) [
  | yes e ↦
      let x = slot a (add_size h i % c) in
      rw (← e) (
        copy_items-below a c h (i + 1) n (set g i x) i (omega arith)
        ∙ get_or-set_self g i x zero_message (omega arith))
  | no ne ↦
      let x = slot a (add_size h i % c) in
      copy_items-at a c h (i + 1) n (set g i x) j (omega arith) (omega arith)
        (omega (arith, length-set g i x))
]

-- The grown buffer holds the same messages from index 0 on.
pub slots-copy_items :
    (a : List Message) (c d h n : ℕ) (g : List Message)
    → h < c
    → n ≤ c
    → c ≤ 2 ^ 63
    → length g ≡ d
    → n < d
    → slots (copy_items a c h 0 n g) d 0 0 n ≡ slots a c h 0 n
slots-copy_items a c d h n g hh hn small len lt =
    slots-ext (copy_items a c h 0 n g) a d c 0 h 0 0 n λ k klt.
      let z : 0 + (0 + k) ≡ k = omega arith in
      let e : k % d ≡ k = mod-eq_of_lt (omega arith) in
      let f : h + (0 + k) ≡ add_size h k = omega arith in
      rw (z, e, f) (copy_items-at a c h 0 n g k (omega arith) (omega arith) (omega arith))
