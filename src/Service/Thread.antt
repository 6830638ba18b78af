-- ===== src/Service/Thread.antt =====
-- The end of a service's thread in src/service.c: `service_control_cb`, `service_finish_thread` and what they
-- call. `uv_run` and `uv_loop_close` answer through a `LoopEnv`.
pub mod Finish
mod Tests
use service_lua.Base.{
  ℕ, zero, suc, ◌+◌, Bool, true, false, ◌&&◌, ◌||◌, not, Option, none, some, List, [], ◌∷◌,
  if◌then◌else◌, ◌==◌, get_elem?,
}
use service_lua.Service.Types.{Service, Pool, update}
use service_lua.Service.Life.{finish_begin, finish_end}
use service_lua.Service.Drain.{DrainEnv, Drained, service_prepare_shutdown}

-- The two handles of a service: whether each is set up, by the service's flag, and whether it is being closed.
pub record Handles : Type 0 where
  pub inbox_ready : Bool
  pub inbox_closing : Bool
  pub control_ready : Bool
  pub control_closing : Bool

-- The handles of a service that nobody has begun to close
abbrev pub handles_of : Service → Handles
handles_of s = record {
  inbox_ready = s.inbox_async_ready;
  inbox_closing = false;
  control_ready = s.control_async_ready;
  control_closing = false;
}

-- `service_close_runtime_handles`: it calls `uv_close` for each handle that is set up and not closing.
unfoldable pub service_close_runtime_handles : Handles → Handles
service_close_runtime_handles h = record h {
  inbox_closing = h.inbox_closing || h.inbox_ready;
  control_closing = h.control_closing || h.control_ready;
}

-- `service_runtime_handles_closed`, of the handles
unfoldable pub handles_closed : Handles → Bool
handles_closed h = not h.inbox_ready && not h.control_ready

-- In each round: what `uv_run` leaves of the handles, told whether luv's handles were closed before it, and
-- what `uv_loop_close` returns then.
pub record LoopEnv : Type 0 where
  pub run : ℕ → Bool → Handles → Handles
  pub loop_close : ℕ → Handles → ℕ

-- A round of the loop of `service_finish_thread` up to `uv_loop_close`
unfoldable pub close_round : LoopEnv → ℕ → Handles → Handles
unfolding service_close_runtime_handles handles_closed
close_round e k h = let h' = service_close_runtime_handles h in e.run k (handles_closed h') h'

-- The loop, with fuel; `none` means that it ran out. The other answer is the number of rounds.
unfoldable pub close_loop : LoopEnv → ℕ → ℕ → Handles → Option ℕ
unfolding close_round
close_loop e zero k h = none
close_loop e (suc fuel) k h =
    let h' = close_round e k h in
    let rest = close_loop e fuel (k + 1) h' in if e.loop_close k h' == 0 then some (k + 1) else rest

-- The function of the Lua handler that `service_notify_lua_stop` calls is there.
unfoldable pub service_notify_lua_stop : Bool → Bool → Bool
service_notify_lua_stop has_state has_handler = has_state && has_handler

-- What `service_finish_thread` leaves: the drain's outcome with the pool at the end, whether the handler was
-- called with "stop", and the rounds of the loop.
pub record Finished : Type 0 where
  pub drained : Drained
  pub notified : Bool
  pub rounds : ℕ

-- `service_finish_thread` behind the drain, for the service in the pool that the drain left
unfoldable pub finish_drained : LoopEnv → ℕ → Bool → ℕ → Drained → Option Finished
unfolding close_loop service_notify_lua_stop
finish_drained e fuel has_lua id d = elim (get_elem? d.pool id) [
  | none ↦ none
  | some s ↦ elim (if s.loop_ready then close_loop e fuel 0 (handles_of s) else some 0) [
    | none ↦ none
    | some rounds ↦ some (record {
      drained = record d { pool = update id finish_end d.pool };
      notified = service_notify_lua_stop has_lua has_lua;
      rounds = rounds;
    })
  ]
]

-- `service_finish_thread`; `none` is a fault, or fuel run out.
unfoldable pub service_finish_thread : DrainEnv → LoopEnv → ℕ → Bool → ℕ → Pool → Option Finished
unfolding finish_drained
service_finish_thread d e fuel has_lua id pool =
    elim (service_prepare_shutdown d id (update id finish_begin pool)) [
      | none ↦ none
      | some drained ↦ finish_drained e fuel has_lua id drained
    ]

-- `service_control_cb` on the thread of the service: the drain, if a stop was requested, and the handles.
unfoldable pub service_control_cb :
    DrainEnv → ℕ → Service → Pool → Option (Option Drained × Handles)
unfolding service_close_runtime_handles
service_control_cb d id s pool =
    if not s.stop_requested
    then some (none, handles_of s)
    else elim (service_prepare_shutdown d id pool) [
      | none ↦ none
      | some drained ↦ some (some drained, service_close_runtime_handles (handles_of s))
    ]
