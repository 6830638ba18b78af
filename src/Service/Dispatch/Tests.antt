-- ===== src/Service/Dispatch/Tests.antt =====
-- A running service with one request.
use service_lua.Base.{refl, true, arith}
use service_lua.Mailbox.Refine.{length-contents}
use service_lua.Service.Types.{State, Service}
use service_lua.Service.Drain.Tests.{busy, busy_box, busy_box-IsValid}
use service_lua.Service.Dispatch.Run.{run_callbacks, Delivers, run_callbacks-Delivers}

abbrev running : Service
running = record busy { state = State.running }

run_callbacks-Delivers_example : Delivers running busy_box (run_callbacks true 2 4 running)
run_callbacks-Delivers_example =
    run_callbacks-Delivers true 3 2 running busy_box busy_box-IsValid refl refl refl
      (omega (arith, length-contents busy_box))
