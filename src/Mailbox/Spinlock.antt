-- ===== src/Mailbox/Spinlock.antt =====
-- `spin_lock` and `spin_unlock` of src/mailbox.c, by any number of threads: one atomic operation is one step.
mod Tests
use native.Mathlib.Decide.{ℕ_discrete}
use service_lua.Base.{
  ℕ, ◌≡◌, ◌≢◌, ◌⊎◌, ◌↔◌, refl, sym, ◌∙◌, Bool, true, false, if◌then◌else◌, ◌==◌, ==_iff, arith,
  Bool-cases, inl, inr,
}

-- A thread is at the exchange of `spin_lock`, in the loop that waits for the lock to look free, between
-- `spin_lock` and `spin_unlock`, or elsewhere.
pub data Spinner : Type 0 where
  elsewhere exchanging waiting holding : Spinner

-- `spinlock_t`, and where the threads are
pub record Spinlock : Type 0 where
  pub locked : Bool
  pub threads : ℕ → Spinner

-- `atomic_exchange_explicit` of true for the value before, and the test of it
unfoldable pub exchange : Bool → Bool × Spinner
exchange locked = (true, if locked then waiting else holding)

-- `atomic_load_explicit`, and `cpu_relax` while it says true
unfoldable pub load : Bool → Spinner
load locked = if locked then waiting else exchanging

abbrev pub at : (ℕ → Spinner) → ℕ → Spinner → ℕ → Spinner
at threads i t j = if j == i then t else threads j

pub data SpinStep (l : Spinlock) : Spinlock → Type 0 where
  spin_lock :
      (i : ℕ)
      → l.threads i ≡ elsewhere
      → SpinStep l (record l { threads = at l.threads i exchanging })
  exchanged :
      (i : ℕ)
      → l.threads i ≡ exchanging
      → SpinStep l (record {
        locked = (exchange l.locked).0;
        threads = at l.threads i (exchange l.locked).1;
      })
  loaded :
      (i : ℕ)
      → l.threads i ≡ waiting
      → SpinStep l (record l { threads = at l.threads i (load l.locked) })
  spin_unlock :
      (i : ℕ)
      → l.threads i ≡ holding
      → SpinStep l (record { locked = false; threads = at l.threads i elsewhere })

pub data Reach : Spinlock → Type 0 where
  start : Reach (record { locked = false; threads = λ _. elsewhere })
  next : {l m : Spinlock} → Reach l → SpinStep l m → Reach m

-- The lock is free, and nobody holds it, or one thread does.
abbrev FreeOrHeld : Spinlock → Type 0
FreeOrHeld l =
    ((l.locked ≡ false) × ((i : ℕ) → l.threads i ≢ holding))
    ⊎ ((l.locked ≡ true)
        × ((h : ℕ) × (l.threads h ≡ holding) × ((i : ℕ) → l.threads i ≡ holding → i ≡ h)))

at-cases :
    (threads : ℕ → Spinner) (i j : ℕ) (t : Spinner)
    → at threads i t j ≡ holding
    → ((j ≡ i) × (t ≡ holding)) ⊎ ((j ≢ i) × (threads j ≡ holding))
at-cases threads i j t e = elim (Bool-cases (j == i)) [
  | inl same ↦ inl ((==_iff j i).0 same, rw same at e)
  | inr other ↦ inr (ground (arith, other), rw other at e)
]

at-other :
    (threads : ℕ → Spinner) (i j : ℕ) (t : Spinner)
    → j ≢ i
    → threads j ≡ holding
    → at threads i t j ≡ holding
at-other threads i j t ne e = ground (arith, ne, e)

-- A step of a thread that holds the lock neither before nor behind it
bystander :
    (locked : Bool) (threads : ℕ → Spinner) (i : ℕ) (t : Spinner)
    → threads i ≢ holding
    → t ≢ holding
    → FreeOrHeld (record { locked = locked; threads = threads })
    → FreeOrHeld (record { locked = locked; threads = at threads i t })
bystander locked threads i t before behind (inl (free, nobody)) = inl (
  free,
  λ j e. elim (at-cases threads i j t e) [ inl (_, q) ↦ behind q | inr (_, q) ↦ nobody j q ],
)
bystander locked threads i t before behind (inr (taken, (h, holds, only))) = inr (
  taken,
  (
    h,
    at-other threads i h t (λ e. before (rw e at holds)) holds,
    λ j e. elim (at-cases threads i j t e) [
      | inl (_, q) ↦ absurd (behind q)
      | inr (_, q) ↦ only j q
    ],
  ),
)

-- The exchange of a free lock
acquired :
    (threads : ℕ → Spinner) (i : ℕ)
    → ((j : ℕ) → threads j ≢ holding)
    → FreeOrHeld (record { locked = true; threads = at threads i holding })
acquired threads i nobody = inr (
  refl,
  (
    i,
    ground arith,
    λ j e. elim (at-cases threads i j holding e) [
      | inl (same, _) ↦ same
      | inr (_, q) ↦ absurd (nobody j q)
    ],
  ),
)

SpinStep-FreeOrHeld : {l m : Spinlock} → SpinStep l m → FreeOrHeld l → FreeOrHeld m
unfolding exchange load
SpinStep-FreeOrHeld {l} (spin_lock i e) v =
    bystander l.locked l.threads i exchanging (λ h. cc (h, e)) (λ h. cc h) v
SpinStep-FreeOrHeld {l} (exchanged i e) (inl (free, nobody)) = rw free (acquired l.threads i nobody)
SpinStep-FreeOrHeld {l} (exchanged i e) (inr (taken, held)) =
    rw taken (bystander true l.threads i waiting (λ h. cc (h, e)) (λ h. cc h) (inr (refl, held)))
SpinStep-FreeOrHeld {l} (loaded i e) v = elim (Bool-cases l.locked) [
  | inl taken ↦
      rw taken (bystander true l.threads i waiting (λ h. cc (h, e)) (λ h. cc h) (rw taken at v))
  | inr free ↦
      rw free (bystander false l.threads i exchanging (λ h. cc (h, e)) (λ h. cc h) (rw free at v))
]
SpinStep-FreeOrHeld {l} (spin_unlock i e) (inl (free, nobody)) = absurd (nobody i e)
SpinStep-FreeOrHeld {l} (spin_unlock i e) (inr (taken, (h, holds, only))) = inl (
  refl,
  λ j q. elim (at-cases l.threads i j elsewhere q) [
    | inl (_, r) ↦ cc r
    | inr (ne, r) ↦ ne (only j r ∙ sym (only i e))
  ],
)

Reach-FreeOrHeld : {l : Spinlock} → Reach l → FreeOrHeld l
Reach-FreeOrHeld start = inl (refl, λ i e. cc e)
Reach-FreeOrHeld (next r s) = SpinStep-FreeOrHeld s (Reach-FreeOrHeld r)

-- However the atomic operations of any number of threads interleave, at most one thread is between
-- `spin_lock` and `spin_unlock`, and the lock is taken exactly when one is: a thread that does its exchange
-- while none is there gets the lock.
pub spin_lock_excludes :
    {l : Spinlock}
    → Reach l
    → ((i j : ℕ) → l.threads i ≡ holding → l.threads j ≡ holding → i ≡ j)
      × ((l.locked ≡ true) ↔ ((i : ℕ) × (l.threads i ≡ holding)))
      × (((i : ℕ) → l.threads i ≢ holding) → (exchange l.locked).1 ≡ holding)
unfolding exchange
spin_lock_excludes {l} r = elim (Reach-FreeOrHeld r) [
  | inl (free, nobody) ↦ (
    λ i j e _. absurd (nobody i e),
    (λ e. cc (e, free), λ (i, e). absurd (nobody i e)),
    λ _. rw free refl,
  )
  | inr (taken, (h, holds, only)) ↦ (
    λ i j e q. only i e ∙ sym (only j q),
    (λ _. (h, holds), λ _. taken),
    λ nobody. absurd (nobody h holds),
  )
]
