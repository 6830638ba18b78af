-- ===== src/Service/Send/Total.antt =====
-- `service_send` returns, whatever the message is for, and keeps the pool in order.
use service_lua.Base.{
  Option-cases, Bool-cases, inl, inr, ℕ, ◌<◌, ◌≡◌, refl, sym, subst, ◌∙◌, Bool, true, false, Option,
  some, leb, arith, get_elem?,
}
use service_lua.Message.{Message}
use service_lua.Mailbox.{Mailbox, MailboxResult, Env, mailbox_close}
use service_lua.Mailbox.Inv.{IsValid, mailbox_close-IsValid}
use service_lua.Mailbox.Locked.{IsFair, after, Effect}
use service_lua.Service.Types.{State, Service, Pool, SendResult, update, max_services}
use service_lua.Service.Pool.{service_pool_pin, service_retire}
use service_lua.Service.Pool.Update.{get_elem?-update_ne, get_elem?-update_cases}
use service_lua.Service.Life.{service_stop, stop_state, close_captured, close_inbox}
use service_lua.Service.Send.{Around, meanwhile, send_to, send_result, notify_fails, service_send}
use service_lua.Service.Send.Delivery.{settled, service_send-settles, service_send-refuses}

-- A service with a valid mailbox.
abbrev pub HasBox : Service → Type 0
HasBox s = (b : Mailbox) × (s.inbox ≡ some b) × IsValid b

-- Every service that can be found has a valid mailbox.
abbrev pub IsSound : Pool → Type 0
IsSound pool = (i : ℕ) (s : Service) → get_elem? pool i ≡ some s → s.routable ≡ true → HasBox s

-- The services that cannot be found stay as they are.
abbrev pub Keeps : Pool → Pool → Type 0
Keeps pool pool' =
    (i : ℕ) (s : Service)
    → get_elem? pool i ≡ some s
    → s.routable ≡ false
    → get_elem? pool' i ≡ some s

Effect-IsValid :
    (seen : Mailbox) (m : Message) (r : MailboxResult) (notify : Bool) (b : Mailbox)
    → Effect seen m r notify b
    → IsValid b
Effect-IsValid seen m MailboxResult.ok notify b e = e.5
Effect-IsValid seen m MailboxResult.full notify b e = e.2
Effect-IsValid seen m MailboxResult.closed notify b e = e.3

close_inbox-HasBox : (s : Service) → HasBox s → HasBox (close_inbox s)
unfolding close_inbox
close_inbox-HasBox s (b, e, v) = (mailbox_close b, rw e, mailbox_close-IsValid b v)

stop_state_inbox : (st : State) (s : Service) → (stop_state st s).0.inbox ≡ s.inbox
unfolding stop_state
stop_state_inbox State.new s = refl
stop_state_inbox State.starting s = refl
stop_state_inbox State.running s = refl
stop_state_inbox State.stopping s = refl
stop_state_inbox State.stopped s = refl
stop_state_inbox State.joined s = refl
stop_state_inbox State.freed s = refl

close_captured-HasBox :
    (captured : Bool) (s : Service) → HasBox s → HasBox (close_captured captured s)
unfolding close_captured
close_captured-HasBox true s h = close_inbox-HasBox s h
close_captured-HasBox false s h = h

service_stop-HasBox : (s : Service) → HasBox s → HasBox (service_stop s).0
unfolding service_stop service_retire
service_stop-HasBox s (b, e, v) =
    let left = stop_state s.state (record s { routable = false }) in
    close_captured-HasBox left.2 left.0
      (b, stop_state_inbox s.state (record s { routable = false }) ∙ e, v)

settled-HasBox :
    (around : Around) (r : MailboxResult) (notify : Bool) (box : Mailbox) (s : Service)
    → IsValid box
    → HasBox (settled around r notify box s)
unfolding meanwhile
settled-HasBox around r notify box s v =
    let s' = meanwhile around (record s { inbox = some box }) in
    elim (Bool-cases (notify_fails around r notify s')) [
      | inl fails ↦ rw fails (service_stop-HasBox s' (box, refl, v))
      | inr fine ↦ rw fine (box, refl, v)
    ]

update-IsSound :
    (pool : Pool) (i : ℕ) (f : Service → Service) {s : Service}
    → IsSound pool
    → get_elem? pool i ≡ some s
    → HasBox (f s)
    → IsSound (update i f pool)
update-IsSound pool i f ok here h j t at found = elim (get_elem?-update_cases pool i j f here at) [
  | inl (e, same) ↦ subst HasBox (sym same) h
  | inr (ne, old) ↦ ok j t old found
]

update-Keeps :
    (pool : Pool) (i : ℕ) (f : Service → Service) {s : Service}
    → get_elem? pool i ≡ some s
    → s.routable ≡ true
    → Keeps pool (update i f pool)
update-Keeps pool i f {s} here found j t at lost =
    get_elem?-update_ne pool i j f (λ e. cc (e, here, at, found, lost)) ∙ at

-- What a send comes to.
pub record Sent (pool : Pool) (out : Option (SendResult × Pool)) : Type 0 where
  pub result : SendResult
  pub pool' : Pool
  pub returned : out ≡ some (result, pool')
  pub sound : IsSound pool'
  pub kept : Keeps pool pool'

refused-Sent :
    (env : Env) (around : Around) (pool : Pool) (m : Message) {r : SendResult}
    → IsSound pool
    → service_send env around pool m ≡ some (r, pool)
    → Sent pool (service_send env around pool m)
refused-Sent env around pool m {r} ok e = record {
  result = r;
  pool' = pool;
  returned = e;
  sound = ok;
  kept = λ i s at lost. at;
}

far-refused :
    (env : Env) (around : Around) (pool : Pool) (m : Message)
    → leb max_services m.to ≡ true
    → service_send env around pool m ≡ some (SendResult.not_found, pool)
unfolding service_send service_pool_pin send_to
far-refused env around pool m far = rw far

module _ (env : Env) (fair : IsFair env) (around : Around) (pool : Pool) (m : Message)
    (ok : IsSound pool) where
  found-Sent :
      (s : Service)
      → m.to < max_services
      → get_elem? pool m.to ≡ some s
      → s.routable ≡ true
      → Sent pool (service_send env around pool m)
  found-Sent s near here found =
      let (b, has, v) = ok m.to s here found in
      let (turns, r, notify, box, effect, e) =
        service_send-settles env fair around pool m near here found has v in
      record {
        result = send_result r (meanwhile around s);
        pool' = update m.to (settled around r notify box) pool;
        returned = e;
        sound = update-IsSound pool m.to (settled around r notify box) ok here (
            settled-HasBox around r notify box s
              (Effect-IsValid (after env b turns) m r notify box effect));
        kept = update-Keeps pool m.to (settled around r notify box) here found;
      }

  off-Sent :
      m.to < max_services
      → ((s : Service) → get_elem? pool m.to ≡ some s → s.routable ≡ false)
      → Sent pool (service_send env around pool m)
  off-Sent near off =
      refused-Sent env around pool m ok (service_send-refuses env around pool m near off).2

  near-Sent : m.to < max_services → Sent pool (service_send env around pool m)
  near-Sent near = elim (Option-cases (get_elem? pool m.to)) [
    | inl nothing ↦ off-Sent near (λ s here. cc (nothing, here))
    | inr (s, here) ↦ elim (Bool-cases s.routable) [
      | inl found ↦ found-Sent s near here found
      | inr lost ↦ off-Sent near (λ t there. cc (here, there, lost))
    ]
  ]

  -- In a pool whose routable services have valid mailboxes, a send of any message returns, leaves such
  -- a pool, and leaves the services that cannot be found as they are.
  pub service_send-Sent : Sent pool (service_send env around pool m)
  service_send-Sent = elim (Bool-cases (leb max_services m.to)) [
    | inl far ↦ refused-Sent env around pool m ok (far-refused env around pool m far)
    | inr near ↦ near-Sent (ground arith)
  ]
