-- ===== src/Service/Dispatch.antt =====
-- `service_async_cb` of src/service.c, and the loop of the Lua handler in lua/service.lua that it runs.
pub mod Batch
pub mod Callback
pub mod Run
pub mod Wake
mod Tests
use service_lua.Base.{
  ℕ, zero, suc, Bool, true, false, not, Option, none, some, List, [], ◌∷◌, ◌++◌, if◌then◌else◌,
  ◌==◌,
}
use service_lua.Message.{Message}
use service_lua.Mailbox.{Mailbox, mailbox_try_pop, mailbox_finish_batch, mailbox_overload}
use service_lua.Service.Types.{State, rank, Service}
use service_lua.Service.Life.{service_set_exit_error, service_stop}

-- What the handler returns to the message "msg": it raised an error, with its text if there is one; a
-- boolean; or something else.
pub data Answer : Type 0 where
  raised : Option (List ℕ) → Answer
  boolean : Bool → Answer
  other : Answer

-- "dispatcher error"
abbrev pub dispatcher_error : List ℕ
dispatcher_error =
    100 ∷ 105 ∷ 115 ∷ 112 ∷ 97 ∷ 116 ∷ 99 ∷ 104 ∷ 101 ∷ 114 ∷ 32 ∷ 101 ∷ 114 ∷ 114 ∷ 111 ∷ 114 ∷ []

-- What a callback comes to: the service, whether it has sent `inbox_async`, and the overload to report.
pub record Called : Type 0 where
  pub service : Service
  pub pending : Bool
  pub overload : ℕ

-- The end of `service_async_cb`, by the answer of the handler. `copied` and `wakes` say that malloc and
-- `uv_async_send` succeed.
unfoldable pub after_handler : Bool → Bool → Answer → Mailbox → Service → Service × Bool
after_handler copied wakes (raised message) box s =
    let text : List ℕ = elim message [ none ↦ dispatcher_error | some t ↦ t ] in
    (
      (service_stop (service_set_exit_error copied (some text) (record s { inbox = some box }))).0,
      false,
    )
after_handler copied wakes (boolean full) box s =
    let (more, box') = mailbox_finish_batch box in
    if not full
    then (record s { inbox = some box }, false)
    else if not more
    then (record s { inbox = some box' }, false)
    else if wakes
    then (record s { inbox = some box' }, true)
    else ((service_stop (record s { inbox = some box' })).0, false)
after_handler copied wakes other box s = (record s { inbox = some box }, false)

-- `service_async_cb` behind its first tests, for the mailbox of the service
unfoldable pub run_handler : Bool → Bool → (Mailbox → Answer × Mailbox) → Service → Mailbox → Called
unfolding after_handler
run_handler copied wakes handler s box =
    let (answer, box') = handler box in
    let (overload, box'') = mailbox_overload box' in
    let (s', pending) = after_handler copied wakes answer box'' s in
    record { service = s'; pending = pending; overload = overload }

-- `service_async_cb`, while no other thread uses the service. `has_handler` says that the state and the
-- handler are there; the handler returns its answer, and the mailbox as it leaves it.
unfoldable pub service_async_cb :
    Bool → Bool → Bool → (Mailbox → Answer × Mailbox) → Service → Called
unfolding run_handler
service_async_cb copied wakes has_handler handler s =
    let idle : Called = record { service = s; pending = false; overload = 0 } in
    if not (rank s.state == rank State.running)
    then idle
    else if not has_handler
    then idle
    else elim s.inbox [ none ↦ idle | some box ↦ run_handler copied wakes handler s box ]

-- The main loop of `service._on_msg`, with the rounds that are left: the messages handled, whether the
-- batch was used up, and the mailbox.
unfoldable pub on_msg : ℕ → Mailbox → List Message × Bool × Mailbox
on_msg zero box = ([], true, box)
on_msg (suc left) box =
    let (out, box') = mailbox_try_pop box in
    elim out [
      | none ↦ ([], false, box')
      | some m ↦ let (ms, full, box'') = on_msg left box' in (m ∷ ms, full, box'')
    ]

-- The handler as `service_async_cb` sees it, if it does not raise an error, and its service does not quit
unfoldable pub dispatcher : ℕ → Mailbox → Answer × Mailbox
unfolding on_msg
dispatcher batch box = let (ms, full, box') = on_msg batch box in (boolean full, box')
