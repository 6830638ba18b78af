-- ===== src/Mailbox/Spinlock/Tests.antt =====
-- Thread 1 waits while thread 0 holds the lock.
use service_lua.Base.{ℕ, ◌≡◌, ◌≢◌, ◌↔◌, refl, true}
use service_lua.Mailbox.Spinlock.{
  Spinlock, elsewhere, exchanging, waiting, holding, exchange, at, Reach, start, next, spin_lock,
  exchanged, spin_lock_excludes,
}

abbrev contended : Spinlock
contended = record {
  locked = true;
  threads = at (at (at (at (λ _. elsewhere) 0 exchanging) 1 exchanging) 0 holding) 1 waiting;
}

contended-Reach : Reach contended
unfolding exchange
contended-Reach =
    next (next (next (next start (spin_lock 0 refl)) (spin_lock 1 refl)) (exchanged 0 refl))
      (exchanged 1 refl)

spin_lock_excludes_example :
    ((i j : ℕ) → contended.threads i ≡ holding → contended.threads j ≡ holding → i ≡ j)
    × ((contended.locked ≡ true) ↔ ((i : ℕ) × (contended.threads i ≡ holding)))
    × (((i : ℕ) → contended.threads i ≢ holding) → (exchange contended.locked).1 ≡ holding)
spin_lock_excludes_example = spin_lock_excludes contended-Reach
