-- ===== src/Binding/Message/Owner.antt =====
-- Who owns the payload of a message that Lua sends.
use service_lua.Base.{
  ℕ, ◌≡◌, ◌⊎◌, ◌<◌, ◌≤◌, inl, inr, refl, ap, sym, subst, ◌∙◌, Bool, true, none, some, List, [], ◌∷◌,
  if◌then◌else◌, ◌==◌, get_elem?,
}
use service_lua.Message.{Message, message_dispose}
use service_lua.Mailbox.{Mailbox, MailboxResult, Env}
use service_lua.Mailbox.Inv.{IsValid}
use service_lua.Mailbox.Locked.{IsFair, after, Effect}
use service_lua.Service.Types.{State, rank, Service, Pool, SendResult, update, max_services}
use service_lua.Service.Send.{Around, service_send}
use service_lua.Service.Send.Delivery.{Learns, Left, service_send-delivers}
use service_lua.Binding.Api.{Arg, returns, throws, bad_argument, ◌>>=◌, check_light}
use service_lua.Binding.Message.{
  SendArgs, SendError, SendOutcome, after_send, send_composed, compose_message,
  lservice_send_message,
}

-- What Lua is told of a service in a state that has its mailbox closed
abbrev pub Closed : State → SendError → Type 0
Closed st text =
    ((rank st < rank State.stopped) × (text ≡ SendError.service_stopping))
    ⊎ ((rank State.stopped ≤ rank st) × (text ≡ SendError.service_stopped))

-- What is freed of a payload that nobody has
abbrev pub orphan : Message → List ℕ
orphan m = if m.msg == 0 then [] else m.msg ∷ []

-- The payload went to the mailbox, or it has been freed and Lua is told why.
abbrev pub Owns : MailboxResult → State → Message → SendOutcome → Type 0
Owns MailboxResult.ok st m out = (out.error ≡ none) × (out.freed ≡ [])
Owns MailboxResult.full st m out =
    (out.error ≡ some SendError.mailbox_full) × (out.freed ≡ orphan m)
Owns MailboxResult.closed st m out =
    (text : SendError) × (out.error ≡ some text) × Closed st text × (out.freed ≡ orphan m)

after_send-stopping :
    (st : State) (m : Message) (pool : Pool)
    → rank st < rank State.stopped
    → Owns MailboxResult.closed st m (after_send m SendResult.stopping pool)
unfolding after_send message_dispose
after_send-stopping st m pool h = (SendError.service_stopping, refl, inl (h, refl), refl)

after_send-stopped :
    (st : State) (m : Message) (pool : Pool)
    → rank State.stopped ≤ rank st
    → Owns MailboxResult.closed st m (after_send m SendResult.stopped pool)
unfolding after_send message_dispose
after_send-stopped st m pool h = (SendError.service_stopped, refl, inr (h, refl), refl)

after_send-Owns :
    (r : MailboxResult) (st : State) (learnt : SendResult) (m : Message) (pool : Pool)
    → Learns r st learnt
    → Owns r st m (after_send m learnt pool)
unfolding after_send message_dispose
after_send-Owns MailboxResult.ok st learnt m pool e = rw e (refl, refl)
after_send-Owns MailboxResult.full st learnt m pool e = rw e (refl, refl)
after_send-Owns MailboxResult.closed st learnt m pool (inl (h, e)) =
    subst (λ t. Owns MailboxResult.closed st m (after_send m t pool)) (sym e)
      (after_send-stopping st m pool h)
after_send-Owns MailboxResult.closed st learnt m pool (inr (h, e)) =
    subst (λ t. Owns MailboxResult.closed st m (after_send m t pool)) (sym e)
      (after_send-stopped st m pool h)

after_send-pool : (m : Message) (r : SendResult) (pool : Pool) → (after_send m r pool).pool ≡ pool
unfolding after_send
after_send-pool m SendResult.ok pool = refl
after_send-pool m SendResult.full pool = refl
after_send-pool m SendResult.not_found pool = refl
after_send-pool m SendResult.stopping pool = refl
after_send-pool m SendResult.stopped pool = refl

checked :
    (first : Arg) (a : SendArgs)
    → first.islight ≡ true
    → (check_light 1 first >>= λ p. compose_message a) ≡ compose_message a
checked first a light =
    ap
      (λ b.
        (if b then returns first.userdata else throws (bad_argument 1)) >>= λ p. compose_message a)
      light

send_composed-some :
    (env : Env) (around : Around) (pool : Pool) (m : Message) {r : SendResult} {pool' : Pool}
    → service_send env around pool m ≡ some (r, pool')
    → send_composed env around pool (returns m) ≡ some (returns (after_send m r pool'))
unfolding send_composed
send_composed-some env around pool m sent = rw (send_composed, sent)

send_returns :
    (env : Env) (around : Around) (pool : Pool) (first : Arg) (a : SendArgs) (m : Message)
    {r : SendResult} {pool' : Pool}
    → first.islight ≡ true
    → compose_message a ≡ returns m
    → service_send env around pool m ≡ some (r, pool')
    → lservice_send_message env around pool first a ≡ some (returns (after_send m r pool'))
unfolding lservice_send_message
send_returns env around pool first a m light composed sent =
    ap (send_composed env around pool) (checked first a light ∙ composed)
    ∙ send_composed-some env around pool m sent

-- `_send_message` with arguments in range, for a routable service with an id below 32 and a valid mailbox,
-- which the other threads keep valid and only grow meanwhile, returns. Either the message went into the
-- mailbox, behind what waited there, nothing is freed and Lua gets true; or the mailbox was full or
-- closed and stays as the others left it, the payload is freed, once, and Lua gets nil with "mailbox
-- full", "service stopping" or "service stopped", by the state that the sender finds behind the push.
pub lservice_send_message-Owns :
    (env : Env) (fair : IsFair env) (around : Around) (pool : Pool) (first : Arg) (a : SendArgs)
    (m : Message) {s : Service} {b : Mailbox}
    → first.islight ≡ true
    → compose_message a ≡ returns m
    → m.to < max_services
    → get_elem? pool m.to ≡ some s
    → s.routable ≡ true
    → s.inbox ≡ some b
    → IsValid b
    → (turns : ℕ) × (r : MailboxResult) × (notify : Bool) × (box : Mailbox) × (Effect
        (after env b turns)
        m
        r
        notify
        box)
      × (next : Service → Service) × (out : SendOutcome) × (lservice_send_message env around pool
            first a
          ≡ some (returns out))
      × (out.pool ≡ update m.to next pool)
      × Left around.wakes r notify
          (record s {
            inbox = some box;
            state = around.state s.state;
            inbox_async_ready = around.ready s.inbox_async_ready;
          })
          (next s)
      × Owns r (around.state s.state) m out
lservice_send_message-Owns env fair around pool first a m {s} light composed small here found has
      v =
    let (turns, r, notify, box, effect, learnt, next, learns, left, e) =
      service_send-delivers env fair around pool m small here found has v in
    (
      turns,
      r,
      notify,
      box,
      effect,
      next,
      after_send m learnt (update m.to next pool),
      send_returns env around pool first a m light composed e,
      after_send-pool m learnt (update m.to next pool),
      left,
      after_send-Owns r (around.state s.state) learnt m (update m.to next pool) learns,
    )
