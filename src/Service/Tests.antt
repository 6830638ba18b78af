-- ===== src/Service/Tests.antt =====
-- One service, from `service_new` to `service_free`, and a send to it.
use service_lua.Base.{
  get_elem?, ◌≢◌, ℕ, ◌≤◌, ◌<◌, ◌≡◌, ◌⊎◌, ◌↔◌, refl, Bool, true, false, none, some, List, [], ◌∷◌,
  ◌++◌, arith, length, replicate, inl,
}
use service_lua.Message.{Message, zero_message}
use service_lua.Mailbox.{Mailbox, MailboxResult, Env, mailbox_new}
use service_lua.Mailbox.Inv.{IsValid}
use service_lua.Mailbox.Locked.{IsFair, Effect, after}
use service_lua.Service.Types.{State, Service, Pool, update, max_services, max_service_name_len}
use service_lua.Service.Pool.{
  NewEnv, fresh_service, service_new, service_retire, service_pool_lookup_service, register,
  name_taken,
}
use service_lua.Service.Pool.Names.{
  IsUnique, Holds, service_new_lem, service_pool_lookup_service_iff,
}
use service_lua.Service.Life.{
  stop_state, close_inbox, free_joined, join_begin, join_joined, join_end,
}
use service_lua.Service.Life.Reach.{
  close, Life, Reach, Thread, initial, here, next, retire, stop, join, joined, free, state_forward,
  freed_unused,
}
use service_lua.Service.Send.{Around, service_send}
use service_lua.Service.Types.{SendResult}
use service_lua.Service.Send.Delivery.{
  Refusal, Learns, Left, service_send-refuses, service_send-delivers,
}

abbrev inbox : Mailbox
inbox = record {
  items = replicate 16 zero_message;
  capacity = 16;
  head = 0;
  tail = 0;
  count = 0;
  initial_capacity = 16;
  overload = 0;
  overload_threshold = 16;
  closed = false;
  scheduled = false;
}

abbrev name : List ℕ
name = 97 ∷ 98 ∷ []

abbrev calm : NewEnv
calm = record {
  service_ok = true;
  mutex_ok = true;
  cond_ok = true;
  box_ok = true;
  items_ok = true;
  source_copy = 7;
}

abbrev pool : Pool
pool = fresh_service 0 name 7 0 inbox ∷ []

nil-IsUnique : IsUnique []
unfolding IsUnique
nil-IsUnique = λ i j s t n e h k. cc h.here

service_new_lem_example :
    (16 ≤ 16)
    × (16 ≤ 65536)
    × (length name < max_service_name_len)
    × (0 < max_services)
    × ((box : Mailbox) × (mailbox_new true true 16 ≡ some box)
        × (pool ≡ [] ++ (fresh_service 0 name 7 0 box ∷ [])))
    × IsUnique pool
unfolding service_new register name_taken mailbox_new
service_new_lem_example = service_new_lem calm [] name 0 16 nil-IsUnique refl

pool-IsUnique : IsUnique pool
pool-IsUnique = service_new_lem_example.5

service_pool_lookup_service_iff_example :
    (service_pool_lookup_service pool name ≡ some 0) ↔ ((s : Service) × Holds pool 0 name s)
service_pool_lookup_service_iff_example =
    service_pool_lookup_service_iff pool name 0 pool-IsUnique (λ e. cc e)

inbox-IsValid : IsValid inbox
inbox-IsValid = ground arith

abbrev request : Message
request = record zero_message { from = 3; to = 0; session = 5; type = 1 }

abbrev alone : Env
alone = record { malloc = λ k n. none; others = λ k b. b }

alone-IsFair : IsFair alone
alone-IsFair = record { keeps = λ k b v. v; grows = λ k b v. inl refl; sized = λ k n g e. cc e }

-- The wake-up fails, and the service has been stopped by the end of the push.
abbrev disturbed : Around
disturbed = record { wakes = false; state = λ st. State.stopping; ready = λ b. true }

service_send-delivers_example :
    (turns : ℕ) × (r : MailboxResult) × (notify : Bool) × (box : Mailbox) × (Effect
      (after alone inbox turns)
      request
      r
      notify
      box)
    × (learnt : SendResult) × (next : Service → Service) × Learns r State.stopping learnt
    × Left false r notify
        (record (fresh_service 0 name 7 0 inbox) {
          inbox = some box;
          state = State.stopping;
          inbox_async_ready = true;
        })
        (next (fresh_service 0 name 7 0 inbox))
    × (service_send alone disturbed pool request ≡ some (learnt, update 0 next pool))
service_send-delivers_example =
    service_send-delivers alone alone-IsFair disturbed pool request (omega arith) refl refl refl
      inbox-IsValid

-- Stopped before it was ever started, joined and freed.
abbrev started_life : Life
started_life = initial 0 name 7 0 inbox

freed_life : (l : Life) × Reach l × (l.service.inbox ≡ none)
unfolding service_retire stop_state close_inbox join_begin join_joined join_end free_joined
freed_life =
    let r₁ = next (here 0 name 7 0 inbox) retire in
    let r₂ = next r₁ (stop refl) in
    let r₃ = next r₂ (close (omega arith)) in
    let r₄ = next r₃ (join false refl refl) in
    let r₅ = next r₄ (joined 0 refl (λ _. refl) (λ _ e. cc e)) in
    let r₆ = next r₅ (free refl refl) in (_, r₆, refl)

state_forward_example :
    (0 ≤ 0)
    × ((true ≡ true) ⊎ (false ≡ false))
    × ((false ≡ false) ⊎ (false ≡ true))
    × ((false ≡ false) ⊎ (false ≡ true))
unfolding service_retire
state_forward_example = state_forward (here 0 name 7 0 inbox) retire

freed_unused_example :
    ((freed_life.0.thread ≡ Thread.absent) ⊎ (freed_life.0.thread ≡ Thread.ended))
    × (freed_life.0.service.routable ≡ false)
    × (freed_life.0.service.send_pins ≡ 0)
freed_unused_example = freed_unused freed_life.1 freed_life.2

-- The service is retired.
abbrev retired_pool : Pool
retired_pool = record (fresh_service 0 name 7 0 inbox) { routable = false } ∷ []

service_send-refuses_example :
    (r : SendResult) × (r ≢ SendResult.ok)
    × (service_send alone disturbed retired_pool request ≡ some (r, retired_pool))
    × Refusal (get_elem? retired_pool 0) r
service_send-refuses_example =
    service_send-refuses alone disturbed retired_pool request (omega arith) (λ s e. cc e)
