-- ===== src/Service/Life.antt =====
-- The life of a service in src/service.c. A function that holds `state_lock` once is one function here;
-- one that waits, or lets the lock go, is cut there, and the parts are run in turn by the threads that
-- `Life.Reach` interleaves.
pub mod Reach
use service_lua.Base.{
  ℕ, zero, suc, ◌+◌, ◌-◌, Bool, true, false, ◌&&◌, ◌||◌, not, Option, none, some, List, [], ◌∷◌,
  ◌++◌, if◌then◌else◌, ◌==◌, ltb, leb,
}
use service_lua.Mailbox.{Mailbox, mailbox_close, mailbox_delete}
use service_lua.Service.Types.{State, rank, Service, ecanceled, einval, ebusy, ealready, edeadlk}
use service_lua.Service.Pool.{service_retire}

-- `mailbox_close(service->inbox)`
unfoldable pub close_inbox : Service → Service
close_inbox s = record s {
  inbox = elim s.inbox [ none ↦ none | some box ↦ some (mailbox_close box) ];
}

-- `service_set_exit_error`: the first message stays. The Boolean says whether malloc gives room for the
-- copy; none is NULL.
unfoldable pub service_set_exit_error : Bool → Option (List ℕ) → Service → Service
service_set_exit_error copied none s = s
service_set_exit_error copied (some message) s =
    if not copied
    then s
    else elim s.exit_error [ none ↦ record s { exit_error = some message } | some first ↦ s ]

unfoldable pub service_get_exit_error : Service → Option (List ℕ)
service_get_exit_error s = s.exit_error

-- `service_get_loop` and `service_get_async`: whether the pointer is there.
unfoldable pub service_get_loop : Service → Bool
service_get_loop s = s.loop_ready

unfoldable pub service_get_async : Service → Bool
service_get_async s = s.inbox_async_ready

-- The part of `service_stop` that holds `state_lock`, by the state. The first Boolean says whether the
-- control handle is to be woken behind the lock, the second whether the mailbox is to be closed there.
unfoldable pub stop_state : State → Service → Service × Bool × Bool
stop_state State.new s = (
  record s {
    stop_requested = true;
    start_done = true;
    start_error = ecanceled;
    state = State.stopped;
  },
  false,
  true,
)
stop_state State.starting s = (
  record s { stop_requested = true; state = State.stopping },
  not s.stop_requested && s.control_async_ready,
  true,
)
stop_state State.running s = (
  record s { stop_requested = true; state = State.stopping },
  not s.stop_requested && s.control_async_ready,
  true,
)
stop_state _ s = (s, false, false)

-- The part of `service_stop` behind the lock that changes the service
unfoldable pub close_captured : Bool → Service → Service
unfolding close_inbox
close_captured captured s = if captured then close_inbox s else s

-- `service_stop` with its three parts in turn; the Boolean says whether the control handle is woken. It
-- returns 0 for every service that is there.
unfoldable pub service_stop : Service → Service × Bool
unfolding stop_state service_retire close_captured
service_stop s =
    let (s', wake, captured) = stop_state s.state (service_retire s) in
    (close_captured captured s', wake)

-- Where the locked part of `service_start` leads.
pub data Begun : Type 0 where
  not_new : Begun
  uncreated : ℕ → Begun  -- `pthread_create` failed
  waits : Begun  -- for `start_done`

-- `service_start` up to the wait for `start_done` or the end of its locked part, with the answer of
-- `pthread_create`.
unfoldable pub start_begin : ℕ → Service → Begun × Service
start_begin error s =
    if not (rank s.state == rank State.new)
    then (Begun.not_new, s)
    else if not (error == 0)
    then (
      Begun.uncreated error,
      record s { state = State.stopped; start_done = true; start_error = error },
    )
    else (Begun.waits, record s { state = State.starting; thread_created = true })

-- What `service_start` does behind its lock once `pthread_create` has failed
unfoldable pub start_failed : Service → Service
unfolding close_inbox service_retire
start_failed s = close_inbox (service_retire s)

-- `service_init_loop`, with the answers of the three calls of libuv
unfoldable pub service_init_loop : ℕ → ℕ → ℕ → Service → ℕ × Service
service_init_loop loop_error inbox_error control_error s =
    if not (loop_error == 0)
    then (loop_error, s)
    else if not (inbox_error == 0)
    then (inbox_error, record s { loop_ready = true })
    else if not (control_error == 0)
    then (control_error, record s { loop_ready = true; inbox_async_ready = true })
    else (0, record s { loop_ready = true; inbox_async_ready = true; control_async_ready = true })

-- `service_thread_main` from its second test of `stop_requested` to the broadcast, with the error of the
-- initialisation. The Boolean is `running`.
unfoldable pub thread_ready : ℕ → Service → Bool × Service
thread_ready error s =
    if error == 0 && not s.stop_requested
    then (true, record s { state = State.running; start_error = 0; start_done = true })
    else (
      false,
      record s {
        state = State.stopping;
        start_error = if error == 0 then ecanceled else error;
        start_done = true;
      },
    )

-- The first and the last locked part of `service_finish_thread`
unfoldable pub finish_begin : Service → Service
finish_begin s =
    if ltb (rank s.state) (rank State.stopping) then record s { state = State.stopping } else s

unfoldable pub finish_end : Service → Service
finish_end s = record s {
  loop_ready = false;
  inbox_async_ready = false;
  control_async_ready = false;
  state = State.stopped;
}

-- `service_prepare_shutdown` up to the wait for the pins
unfoldable pub shutdown_begin : Service → Service
unfolding close_inbox service_retire
shutdown_begin s = close_inbox (service_retire s)

-- `service_runtime_handle_closed`: the handle that is closed is no more ready.
unfoldable pub inbox_handle_closed : Service → Service
inbox_handle_closed s = record s { inbox_async_ready = false }

unfoldable pub control_handle_closed : Service → Service
control_handle_closed s = record s { control_async_ready = false }

unfoldable pub service_runtime_handles_closed : Service → Bool
service_runtime_handles_closed s = not s.inbox_async_ready && not s.control_async_ready

-- `service_free` behind its wait for the pins: the result, and the payloads that go with the mailbox.
unfoldable pub free_joined : Service → ℕ × Service × List ℕ
free_joined s = if not (rank s.state == rank State.joined) then (ebusy, s, []) else (
  0,
  record s { inbox = none; source = 0; config = 0; state = State.freed },
  elim s.inbox [ none ↦ [] | some box ↦ mailbox_delete box ],
)

-- `service_join` behind its wait for `joining`: the error that it returns at once, or none when it goes
-- on to join. The Boolean says that the caller is the service's own thread.
unfoldable pub join_begin : Bool → Service → Option ℕ × Service
join_begin own s =
    if s.thread_created && own
    then (some edeadlk, s)
    else if s.thread_joined || rank s.state == rank State.freed
    then (some s.join_error, s)
    else if not s.thread_created && not (rank s.state == rank State.stopped)
    then (some einval, s)
    else (none, record s { joining = true })

-- After `pthread_join`, with its answer
unfoldable pub join_joined : ℕ → Service → Service
join_joined error s =
    if error == 0
    then record s { join_error = error; thread_joined = true; state = State.joined }
    else record s { join_error = error }

unfoldable pub join_end : Service → Service
join_end s = record s { joining = false }
