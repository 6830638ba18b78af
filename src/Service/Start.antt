-- ===== src/Service/Start.antt =====
-- `service_start` of src/service.c with its wait, and the first half of `service_thread_main`, which it waits for.
pub mod Outcome
mod Tests
use service_lua.Base.{
  ℕ, Bool, true, false, ◌&&◌, not, Option, none, some, List, [], ◌∷◌, if◌then◌else◌, ◌==◌,
}
use service_lua.Service.Types.{Service, ealready}
use service_lua.Service.Life.{Begun, start_begin, start_failed, service_init_loop, thread_ready}
use service_lua.Service.Init.{InitEnv, service_init_lua}

-- The answers of `pthread_create` and of the three calls of libuv, what Lua answers, and what the other threads
-- make of the service while its own one does not hold the lock: before `service_init_lua`, and behind it.
pub record StartEnv : Type 0 where
  pub created : ℕ
  pub loop_error : ℕ
  pub inbox_error : ℕ
  pub control_error : ℕ
  pub init : InitEnv
  pub before : Service → Service
  pub behind : Service → Service

-- The call of `service_init_lua` in `service_thread_main`, if it comes to that
unfoldable pub init_unless_stopped : InitEnv → ℕ → Service → ℕ × Service × List ℕ
init_unless_stopped e error s =
    if error == 0 && not s.stop_requested then service_init_lua e s else (error, s, [])

-- `service_thread_main` up to the broadcast: `running`, the service, and what has been freed.
unfoldable pub thread_begin : StartEnv → Service → Bool × Service × List ℕ
unfolding init_unless_stopped
thread_begin e s =
    let (error, s₁) = service_init_loop e.loop_error e.inbox_error e.control_error s in
    let (error', s₂, freed) = init_unless_stopped e.init error (e.before s₁) in
    let (running, s₃) = thread_ready error' (e.behind s₂) in (running, s₃, freed)

-- `service_start`: its result, the service as it is once `start_done` is set, and what has been freed.
unfoldable pub service_start : StartEnv → Service → ℕ × Service × List ℕ
unfolding thread_begin
service_start e s =
    let (begun, s') = start_begin e.created s in
    elim begun [
      | Begun.not_new ↦ (ealready, s', [])
      | Begun.uncreated error ↦ (error, start_failed s', [])
      | Begun.waits ↦ let (running, s'', freed) = thread_begin e s' in (s''.start_error, s'', freed)
    ]
