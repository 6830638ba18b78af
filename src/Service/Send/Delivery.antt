-- ===== src/Service/Send/Delivery.antt =====
-- What `service_send` does to the service and the mailbox that a message is for.
use service_lua.Base.{
  ◌≢◌, ◌≤◌, ◌⊎◌, Option-cases, inl, inr, ℕ, ◌+◌, ◌-◌, ◌<◌, ◌≡◌, refl, ap, ◌∙◌, Bool, true, false,
  Option, none, some, if◌then◌else◌, ltb, leb, arith, get_elem?,
}
use service_lua.Message.{Message}
use service_lua.Mailbox.{Mailbox, MailboxResult, Env}
use service_lua.Mailbox.Inv.{IsValid}
use service_lua.Mailbox.Locked.{IsFair, after, Effect}
use service_lua.Mailbox.Push.{mailbox_try_push-Returns}
use service_lua.Service.Types.{State, rank, Service, Pool, SendResult, update, max_services}
use service_lua.Service.Pool.{service_pool_pin, service_unpin, inactive_send_result}
use service_lua.Service.Pool.Update.{get_elem?-update, update-update, update-cong}
use service_lua.Service.Life.{service_stop}
use service_lua.Service.Send.{
  Around, meanwhile, send_result, notify_fails, after_push, send_pinned, target, send_to,
  service_send,
}

-- A service with one pin more
abbrev pinned : Service → Service
pinned s = record s { send_pins = s.send_pins + 1 }

-- A service behind a push: its mailbox as the push left it, and stopped if waking it failed.
abbrev pub settled : Around → MailboxResult → Bool → Mailbox → Service → Service
settled around r notify box s =
    let s' = meanwhile around (record s { inbox = some box }) in
    if notify_fails around r notify s' then (service_stop s').0 else s'

pin-routable :
    (pool : Pool) (id : ℕ) {s : Service}
    → id < max_services
    → get_elem? pool id ≡ some s
    → s.routable ≡ true
    → service_pool_pin pool id ≡ (SendResult.ok, update id pinned pool)
unfolding service_pool_pin
pin-routable pool id {s} small here open_ =
    let e : leb max_services id ≡ false = ground arith in rw (e, here, open_)

service_unpin-pinned : (s : Service) → service_unpin (pinned s) ≡ s
unfolding service_unpin
service_unpin-pinned s =
    let e : ltb 0 (s.send_pins + 1) ≡ true = ground arith in
    let f : s.send_pins + 1 - 1 ≡ s.send_pins = omega arith in rw (e, f)

after_push-pinned :
    (around : Around) (r : MailboxResult) (notify : Bool) (box : Mailbox) (s : Service)
    → after_push around r notify box (pinned s) ≡ settled around r notify box s
unfolding after_push meanwhile notify_fails
after_push-pinned around r notify box s =
    let unpinned = service_unpin-pinned (meanwhile around (record s { inbox = some box })) in
    elim r as (λ r. after_push around r notify box (pinned s) ≡ settled around r notify box s) [
      | MailboxResult.ok ↦ rw unpinned
      | MailboxResult.full ↦ unpinned
      | MailboxResult.closed ↦ unpinned
    ]

send_result-pinned :
    (around : Around) (r : MailboxResult) (s : Service)
    → send_result r (meanwhile around (pinned s)) ≡ send_result r (meanwhile around s)
unfolding send_result inactive_send_result meanwhile
send_result-pinned around MailboxResult.ok s = refl
send_result-pinned around MailboxResult.full s = refl
send_result-pinned around MailboxResult.closed s = refl

target-pinned :
    (pool : Pool) (id : ℕ) {s : Service} {b : Mailbox}
    → get_elem? pool id ≡ some s
    → s.inbox ≡ some b
    → target (update id pinned pool) id ≡ some (pinned s, b)
unfolding target
target-pinned pool id {s} here has =
    rw (target, get_elem?-update pool id pinned here)
      (ap
        (λ (o : Option Mailbox). elim o as (λ _. Option (Service × Mailbox)) [
          | none ↦ none
          | some box ↦ some (pinned s, box)
        ])
        has)

service_send-pinned :
    (env : Env) (around : Around) (pool : Pool) (m : Message) {s : Service} {b : Mailbox}
    → m.to < max_services
    → get_elem? pool m.to ≡ some s
    → s.routable ≡ true
    → s.inbox ≡ some b
    → service_send env around pool m
      ≡ send_pinned env around (update m.to pinned pool) m (pinned s) b
unfolding service_send send_to
service_send-pinned env around pool m {s} {b} small here found has =
    rw (pin-routable pool m.to small here found, send_to, target-pinned pool m.to here has)

pub service_send-settles :
    (env : Env) (fair : IsFair env) (around : Around) (pool : Pool) (m : Message) {s : Service}
    {b : Mailbox}
    → m.to < max_services
    → get_elem? pool m.to ≡ some s
    → s.routable ≡ true
    → s.inbox ≡ some b
    → IsValid b
    → (turns : ℕ) × (r : MailboxResult) × (notify : Bool) × (box : Mailbox) × (Effect
        (after env b turns)
        m
        r
        notify
        box)
      × (service_send env around pool m
          ≡ some
              (send_result r (meanwhile around s), update m.to (settled around r notify box) pool))
unfolding send_pinned
service_send-settles env fair around pool m {s} {b} small here found has v =
    let ret = mailbox_try_push-Returns env fair b v m in
    (
      ret.turns,
      ret.result,
      ret.notify,
      ret.final,
      ret.effect,
      service_send-pinned env around pool m small here found has
          ∙ rw (
            send_pinned,
            ret.returned,
            send_result-pinned around ret.result s,
            update-update pool m.to pinned (after_push around ret.result ret.notify ret.final),
            update-cong pool m.to
                (λ t. after_push around ret.result ret.notify ret.final (pinned t))
                (settled around ret.result ret.notify ret.final)
                (after_push-pinned around ret.result ret.notify ret.final),
          ),
    )

-- What a sender learns of a service in a state, when it cannot deliver.
abbrev pub Inactive : State → SendResult → Type 0
Inactive st r =
    ((rank st < rank State.stopped) × (r ≡ SendResult.stopping))
    ⊎ ((rank State.stopped ≤ rank st) × (r ≡ SendResult.stopped))

inactive_send_result-Inactive : (s : Service) → Inactive s.state (inactive_send_result s)
unfolding inactive_send_result
inactive_send_result-Inactive s = ground arith

-- What the sender learns, by the result of the push and the state that it finds behind it.
abbrev pub Learns : MailboxResult → State → SendResult → Type 0
Learns MailboxResult.ok st r = r ≡ SendResult.ok
Learns MailboxResult.full st r = r ≡ SendResult.full
Learns MailboxResult.closed st r = Inactive st r

send_result-Learns : (r : MailboxResult) (s : Service) → Learns r s.state (send_result r s)
unfolding send_result
send_result-Learns MailboxResult.ok s = refl
send_result-Learns MailboxResult.full s = refl
send_result-Learns MailboxResult.closed s = inactive_send_result-Inactive s

-- The push worked and asked to wake the loop, the handle for that was ready, and `uv_async_send` failed.
abbrev pub Unwoken : Bool → MailboxResult → Bool → Bool → Type 0
Unwoken wakes r notify ready =
    (r ≡ MailboxResult.ok) × (notify ≡ true) × (ready ≡ true) × (wakes ≡ false)

-- The service behind the send, from what the sender found behind the push: stopped if it could not be
-- woken, and as it was otherwise.
abbrev pub Left : Bool → MailboxResult → Bool → Service → Service → Type 0
Left wakes r notify found next =
    (Unwoken wakes r notify found.inbox_async_ready × (next ≡ (service_stop found).0))
    ⊎ (((r ≢ MailboxResult.ok)
          ⊎ (notify ≡ false)
          ⊎ (found.inbox_async_ready ≡ false)
          ⊎ (wakes ≡ true))
        × (next ≡ found))

notify_fails-Left :
    (around : Around) (r : MailboxResult) (notify : Bool) (found : Service)
    → Left around.wakes r notify found
        (if notify_fails around r notify found then (service_stop found).0 else found)
unfolding notify_fails
notify_fails-Left around MailboxResult.ok notify found = ground arith
notify_fails-Left around MailboxResult.full notify found = inr (inl (ground arith), refl)
notify_fails-Left around MailboxResult.closed notify found = inr (inl (ground arith), refl)

-- A send to a routable service with an id below 32 and a valid mailbox, which the other threads keep
-- valid and only grow meanwhile, returns. The push has its effect in the mailbox as the others left
-- it. The sender learns ok or full as the push says, and of a closed mailbox that the service is
-- stopping, or that it has stopped, by the state that it finds behind the push. Only that service
-- changes: it has as many pins as before and the mailbox that the push left, what the other threads
-- made of it, and it is stopped exactly if the push asked to wake the loop, the handle was ready and
-- `uv_async_send` failed.
pub service_send-delivers :
    (env : Env) (fair : IsFair env) (around : Around) (pool : Pool) (m : Message) {s : Service}
    {b : Mailbox}
    → m.to < max_services
    → get_elem? pool m.to ≡ some s
    → s.routable ≡ true
    → s.inbox ≡ some b
    → IsValid b
    → (turns : ℕ) × (r : MailboxResult) × (notify : Bool) × (box : Mailbox) × (Effect
        (after env b turns)
        m
        r
        notify
        box)
      × (learnt : SendResult) × (next : Service → Service) × Learns r (around.state s.state) learnt
      × Left around.wakes r notify
          (record s {
            inbox = some box;
            state = around.state s.state;
            inbox_async_ready = around.ready s.inbox_async_ready;
          })
          (next s)
      × (service_send env around pool m ≡ some (learnt, update m.to next pool))
unfolding meanwhile
service_send-delivers env fair around pool m {s} {b} small here found has v =
    let (turns, r, notify, box, effect, e) =
      service_send-settles env fair around pool m small here found has v in
    (
      turns,
      r,
      notify,
      box,
      effect,
      send_result r (meanwhile around s),
      settled around r notify box,
      send_result-Learns r (meanwhile around s),
      notify_fails-Left around r notify (meanwhile around (record s { inbox = some box })),
      e,
    )

send_to-refused :
    (env : Env) (around : Around) (m : Message) (r : SendResult) (pool : Pool)
    → r ≢ SendResult.ok
    → send_to env around m (r, pool) ≡ some (r, pool)
unfolding send_to
send_to-refused env around m SendResult.ok pool h = absurd (h refl)
send_to-refused env around m SendResult.full pool h = refl
send_to-refused env around m SendResult.not_found pool h = refl
send_to-refused env around m SendResult.stopping pool h = refl
send_to-refused env around m SendResult.stopped pool h = refl

-- The result of a send that cannot pin, by what stands at the id.
abbrev pub Refusal : Option Service → SendResult → Type 0
Refusal none r = r ≡ SendResult.not_found
Refusal (some s) r = Inactive s.state r

inactive-ne-ok : (s : Service) → inactive_send_result s ≢ SendResult.ok
unfolding inactive_send_result
inactive-ne-ok s = ground arith

pin-refused :
    (pool : Pool) (id : ℕ)
    → id < max_services
    → ((s : Service) → get_elem? pool id ≡ some s → s.routable ≡ false)
    → (r : SendResult) × (r ≢ SendResult.ok)
      × (service_pool_pin pool id ≡ (r, pool))
      × Refusal (get_elem? pool id) r
unfolding service_pool_pin
pin-refused pool id small off =
    let e : leb max_services id ≡ false = ground arith in
    elim (Option-cases (get_elem? pool id)) [
      | inl nothing ↦ (SendResult.not_found, ground arith, rw (e, nothing), rw nothing refl)
      | inr (s, here) ↦ (
        inactive_send_result s,
        inactive-ne-ok s,
        rw (e, here, off s here),
        rw here (inactive_send_result-Inactive s),
      )
    ]

-- A send to an id below 32 that no routable service has is refused, and changes nothing: with
-- SERVICE_SEND_NOT_FOUND if there is no service, with SERVICE_SEND_STOPPING if there is one that has
-- not stopped, and with SERVICE_SEND_STOPPED if there is one that has.
pub service_send-refuses :
    (env : Env) (around : Around) (pool : Pool) (m : Message)
    → m.to < max_services
    → ((s : Service) → get_elem? pool m.to ≡ some s → s.routable ≡ false)
    → (r : SendResult) × (r ≢ SendResult.ok)
      × (service_send env around pool m ≡ some (r, pool))
      × Refusal (get_elem? pool m.to) r
unfolding service_send
service_send-refuses env around pool m small off =
    let (r, bad, pinned, why) = pin-refused pool m.to small off in
    (r, bad, ap (send_to env around m) pinned ∙ send_to-refused env around m r pool bad, why)
