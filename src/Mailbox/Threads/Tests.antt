-- ===== src/Mailbox/Threads/Tests.antt =====
-- Two threads that push into a mailbox of one place, and a pop.
use service_lua.Base.{
  ℕ, ◌*◌, ◌≤◌, ◌≡◌, ◌⊎◌, refl, true, false, none, some, [], ◌∷◌, ◌++◌, replicate, arith,
}
use service_lua.Message.{Message, zero_message}
use service_lua.Mailbox.{
  Mailbox, mailbox_new, push_section, push_commit, grow_locked, copy_items, relock, allocate_spare,
  mailbox_try_pop,
}
use service_lua.Mailbox.Inv.{IsValid}
use service_lua.Mailbox.Refine.{contents}
use service_lua.Mailbox.Threads.{
  Shared, idle, ran, popped_one, Reach, start, next, push, allocated, pop, sent-taken,
}
use service_lua.Mailbox.Fair.{Steps, done, more, Steps-Reach, steps_fair}

abbrev message : ℕ → Message
message n = record zero_message { session = n }

abbrev one_place : Mailbox
one_place = record {
  items = zero_message ∷ [];
  capacity = 1;
  head = 0;
  tail = 0;
  count = 0;
  initial_capacity = 1;
  overload = 0;
  overload_threshold = 1;
  closed = false;
  scheduled = false;
}

one_place_lem : mailbox_new true true 1 ≡ some one_place
unfolding mailbox_new
one_place_lem = refl

abbrev w₀ : Shared
w₀ = record { box = one_place; threads = λ _. idle; sent = []; taken = [] }

abbrev w₁ : Shared
w₁ = ran w₀ 0 (message 1) (push_section w₀.box (message 1) none)

-- The buffer is full: thread 1 goes to allocate.
abbrev w₂ : Shared
w₂ = ran w₁ 1 (message 2) (push_section w₁.box (message 2) none)

abbrev w₃ : Shared
w₃ = ran w₂ 1 (message 2) (relock w₂.box (message 2) 1 (replicate 2 zero_message))

abbrev w₄ : Shared
w₄ = record w₃ {
  box = (mailbox_try_pop w₃.box).1;
  taken = w₃.taken ++ popped_one (mailbox_try_pop w₃.box).0;
}

w₄_lem : (w₄.sent ≡ message 1 ∷ message 2 ∷ []) × (w₄.taken ≡ message 1 ∷ [])
unfolding push_section push_commit grow_locked copy_items relock mailbox_try_pop
w₄_lem = (refl, refl)

w₁-Reach : Reach w₁
w₁-Reach = next (start 1 (omega arith) one_place_lem) (push 0 (message 1) refl)

w₁-Steps : Steps w₁ w₄
unfolding push_section push_commit allocate_spare
w₁-Steps = more (push 1 (message 2) refl) (
    more
      (allocated 1 1 (message 2) (λ n. some (replicate n zero_message)) (replicate 2 zero_message)
        refl refl refl)
      (more pop done))

sent-taken_example : IsValid w₄.box × (w₄.sent ≡ w₄.taken ++ contents w₄.box)
sent-taken_example = sent-taken (Steps-Reach w₁-Reach w₁-Steps)

steps_fair_example :
    IsValid w₄.box
    × ((w₄.box.capacity ≡ w₁.box.capacity) ⊎ (2 * w₁.box.capacity ≤ w₄.box.capacity))
    × (w₁.box.closed ≡ true → (w₄.box.closed ≡ true) × (w₄.sent ≡ w₁.sent))
steps_fair_example = steps_fair w₁-Reach w₁-Steps
