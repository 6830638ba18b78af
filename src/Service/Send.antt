-- ===== src/Service/Send.antt =====
-- Sending in src/service.c: `service_send`, and the replies of `service_drain_mailbox`.
pub mod Delivery
pub mod Total
use service_lua.Base.{
  ℕ, zero, suc, ◌+◌, ◌-◌, Bool, true, false, ◌&&◌, ◌||◌, not, Option, none, some, List, [], ◌∷◌,
  ◌++◌, if◌then◌else◌, ◌==◌, ltb, leb, get_elem?,
}
use service_lua.Message.{Message, MessageType, code_of, message_dispose}
use service_lua.Mailbox.{Mailbox, MailboxResult, Env, mailbox_try_push, mailbox_try_pop}
use service_lua.Service.Types.{State, rank, SendResult, Service, Pool, update}
use service_lua.Service.Pool.{service_pool_pin, service_unpin, inactive_send_result}
use service_lua.Service.Life.{service_stop}

-- What `service_send` returns once the push has ended.
unfoldable pub send_result : MailboxResult → Service → SendResult
send_result MailboxResult.ok s = SendResult.ok
send_result MailboxResult.full s = SendResult.full
send_result MailboxResult.closed s = inactive_send_result s

-- What happens around one send: whether `uv_async_send` succeeds, and what the other threads make of the
-- state of the service and of `inbox_async_ready` during the push.
pub record Around : Type 0 where
  pub wakes : Bool
  pub state : State → State
  pub ready : Bool → Bool

-- The service as `service_send` finds it behind the push
unfoldable pub meanwhile : Around → Service → Service
meanwhile around s = record s {
  state = around.state s.state;
  inbox_async_ready = around.ready s.inbox_async_ready;
}

-- Whether `uv_async_send` is called, and fails
unfoldable pub notify_fails : Around → MailboxResult → Bool → Service → Bool
notify_fails around MailboxResult.ok notify s = notify && s.inbox_async_ready && not around.wakes
notify_fails around _ notify s = false

-- The pinned service behind the push
unfoldable pub after_push : Around → MailboxResult → Bool → Mailbox → Service → Service
unfolding notify_fails meanwhile
after_push around r notify box s =
    let found = meanwhile around (record s { inbox = some box }) in
    let unpinned = service_unpin found in
    if notify_fails around r notify found then (service_stop unpinned).0 else unpinned

-- `service_send` behind the pin of a service that has a mailbox
unfoldable pub send_pinned :
    Env → Around → Pool → Message → Service → Mailbox → Option (SendResult × Pool)
unfolding after_push send_result meanwhile
send_pinned env around pool message s inbox = elim (mailbox_try_push env inbox message) [
  | none ↦ none
  | some (r, notify, box) ↦
      some (
        send_result r (meanwhile around s),
        update message.to (after_push around r notify box) pool,
      )
]

-- The service that a message is for, if the pin succeeded and the mailbox is there; a pin makes sure of
-- both (`Delivery`).
unfoldable pub target : Pool → ℕ → Option (Service × Mailbox)
target pool id = elim (get_elem? pool id) [
  | none ↦ none
  | some s ↦ elim s.inbox [ none ↦ none | some box ↦ some (s, box) ]
]

-- `service_send` behind the pin
unfoldable pub send_to : Env → Around → Message → SendResult × Pool → Option (SendResult × Pool)
unfolding target send_pinned
send_to env around message (SendResult.ok, pool) = elim (target pool message.to) [
  | none ↦ none
  | some (s, inbox) ↦ send_pinned env around pool message s inbox
]
send_to env around message (refused, pool) = some (refused, pool)

-- `service_send`, for a message that is there. `none` is a fault, or fuel run out.
unfoldable pub service_send : Env → Around → Pool → Message → Option (SendResult × Pool)
unfolding send_to
service_send env around pool message = send_to env around message (service_pool_pin pool message.to)

-- The answer of `service_drain_mailbox` to a message: requests that wait for one get an error with no
-- payload.
unfoldable pub drain_reply : ℕ → Message → Option Message
drain_reply id m =
    if m.type == code_of MessageType.request && ltb 0 m.session
    then some (record {
      from = id;
      to = m.from;
      session = m.session;
      type = code_of MessageType.error;
      msg = 0;
      sz = 0;
    })
    else none

-- `service_recv`, for a service and `out` that are there
unfoldable pub service_recv : Service → Option Message × Service
service_recv s = if not (rank s.state == rank State.running) then (none, s) else elim s.inbox [
  | none ↦ (none, s)
  | some box ↦ let (out, box') = mailbox_try_pop box in (out, record s { inbox = some box' })
]
