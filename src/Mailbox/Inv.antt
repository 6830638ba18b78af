-- ===== src/Mailbox/Inv.antt =====
-- The invariant of `struct mailbox`, and what each function keeps of it.
use native.Mathlib.Nat.{mod-add-mod, mod-eq_of_lt}
use service_lua.Base.{
  ℕ, zero, suc, ◌+◌, ◌-◌, ◌*◌, ◌/◌, ◌%◌, ◌≤◌, ◌<◌, ◌≡◌, true, false, some, List, arith, length,
  length-set, length-replicate, size_mod, add_size, ltb, Bool-cases, inl, inr, ap, ltb→lt,
}
use service_lua.Message.{Message, zero_message}
use service_lua.Mailbox.{
  Mailbox, mailbox_new, grow_locked, push_commit, raise_threshold, mailbox_try_pop,
  mailbox_finish_batch, mailbox_overload, mailbox_close, max_capacity, push_fuel,
}
use service_lua.Mailbox.Slots.{length-copy_items}

-- The most messages that fit the address space: calloc refuses more.
abbrev pub max_items : ℕ
max_items = (size_mod - 1) / 40

-- The indices fit the buffer, no size_t wraps, and queued messages have a wake-up on its way:
-- while the mailbox is open and holds a message, it is scheduled.
pub record IsValid (b : Mailbox) : Type 0 where
  pub buffer : length b.items ≡ b.capacity
  pub head_in : b.head < b.capacity
  pub small : b.capacity ≤ max_items
  pub tail_at : b.tail ≡ (b.head + b.count) % b.capacity
  pub count_in : b.count ≤ b.capacity
  pub initial_pos : 0 < b.initial_capacity
  pub initial_small : b.initial_capacity ≤ max_items
  pub threshold_pos : 0 < b.overload_threshold
  pub threshold_small : b.overload_threshold ≤ 2 * max_items
  pub awake : b.closed ≡ false → 0 < b.count → b.scheduled ≡ true

tail_step : (h n c : ℕ) → ((h + n) % c + 1) % c ≡ (h + (n + 1)) % c
tail_step h n c = rw mod-add-mod (ap (λ k. k % c) (omega arith))

head_step : (h n c : ℕ) → 0 < n → ((h + 1) % c + (n - 1)) % c ≡ (h + n) % c
head_step h n c pos = rw mod-add-mod (ap (λ k. k % c) (omega arith))

-- What `mailbox_new` returns is valid, if calloc gave a buffer of that size.
pub mailbox_new-IsValid :
    (cap : ℕ) {b : Mailbox} → cap ≤ max_items → mailbox_new true true cap ≡ some b → IsValid b
unfolding mailbox_new
mailbox_new-IsValid cap {b} small e = ground (arith, length-replicate cap zero_message)

-- Room in the buffer, where `mailbox_try_push` stores.
pub push_commit-IsValid :
    (b : Mailbox) (m : Message) → IsValid b → b.count < b.capacity → IsValid (push_commit b m).2
unfolding push_commit
push_commit-IsValid b m v room =
    ground (arith, length-set b.items b.tail m, tail_step b.head b.count b.capacity)

pub grow_locked-IsValid :
    (b : Mailbox) (g : List Message)
    → IsValid b
    → b.capacity ≤ max_capacity
    → b.count ≡ b.capacity
    → length g ≡ b.capacity * 2
    → IsValid (grow_locked b g).0
unfolding grow_locked
grow_locked-IsValid b g v small full len = ground (
  arith,
  length-copy_items b.items b.capacity b.head 0 b.count g,
  mod-eq_of_lt {n = 0 + b.count} {m = b.capacity * 2 % size_mod} (omega arith),
)

-- One round of the loop of `mailbox_try_pop`.
abbrev raised : Mailbox → Mailbox
raised b = record b {
  overload = b.count;
  overload_threshold = (b.overload_threshold * 2) % size_mod;
}

raised-IsValid : (b : Mailbox) → IsValid b → b.overload_threshold < b.count → IsValid (raised b)
raised-IsValid b v more = ground arith

-- The mailbox with its oldest message gone.
abbrev pub popped : Mailbox → Mailbox
popped b = record b { head = add_size b.head 1 % b.capacity; count = b.count - 1 }

popped-IsValid : (b : Mailbox) → IsValid b → 0 < b.count → IsValid (popped b)
popped-IsValid b v some_left = ground (arith, head_step b.head b.count b.capacity)

-- The loop's doublings do not wrap, and end with the threshold at or above the count.
pub raise_threshold-IsValid : (f : ℕ) (b : Mailbox) → IsValid b → IsValid (raise_threshold f b)
unfolding raise_threshold
raise_threshold-IsValid zero b v = v
raise_threshold-IsValid (suc f) b v = elim (Bool-cases (ltb b.overload_threshold b.count)) [
  | inl more ↦
      rw (more, raise_threshold)
        (raise_threshold-IsValid f (raised b) (raised-IsValid b v (ltb→lt _ _ more)))
  | inr done ↦ rw (done, raise_threshold) v
]

-- `mailbox_try_pop` keeps a valid mailbox valid: its indices in the buffer, its sizes within a
-- size_t, and, while it is open and holds a message, a wake-up on its way.
pub mailbox_try_pop-IsValid : (b : Mailbox) → IsValid b → IsValid (mailbox_try_pop b).1
unfolding mailbox_try_pop
mailbox_try_pop-IsValid b v = elim (Bool-cases (ltb 0 b.count)) [
  | inl more ↦
      rw more (raise_threshold-IsValid push_fuel (popped b) (popped-IsValid b v (ltb→lt _ _ more)))
  | inr none_left ↦ rw none_left (ground arith)
]

-- `mailbox_finish_batch` keeps a valid mailbox valid, so it lets go of the wake-up only if the
-- mailbox is closed or no message waits.
pub mailbox_finish_batch-IsValid : (b : Mailbox) → IsValid b → IsValid (mailbox_finish_batch b).1
unfolding mailbox_finish_batch
mailbox_finish_batch-IsValid b v = ground arith

pub mailbox_overload-IsValid : (b : Mailbox) → IsValid b → IsValid (mailbox_overload b).1
unfolding mailbox_overload
mailbox_overload-IsValid b v = ground arith

pub mailbox_close-IsValid : (b : Mailbox) → IsValid b → IsValid (mailbox_close b)
unfolding mailbox_close
mailbox_close-IsValid b v = ground arith
