-- ===== src/Service/Thread/Tests.antt =====
-- The thread of a service with a request in its mailbox ends; one of luv's handles takes a round to close.
use service_lua.Base.{refl, true, ◌&&◌, not, arith, if◌then◌else◌, leb}
use service_lua.Service.Drain.{DrainEnv}
use service_lua.Service.Drain.Tests.{
  busy, busy_box, busy_box-IsValid, two, two-IsSound, alone, alone-IsFair, undisturbed,
}
use service_lua.Service.Thread.{LoopEnv, handles_closed, service_finish_thread}
use service_lua.Service.Thread.Finish.{Settles, Ended, service_finish_thread-Ended}

abbrev quiet : DrainEnv
quiet = record { env = λ k. alone; around = λ k. undisturbed }

abbrev libuv : LoopEnv
libuv = record {
  run = λ k asked h. record h {
    inbox_ready = h.inbox_ready && not h.inbox_closing;
    control_ready = h.control_ready && not h.control_closing;
  };
  loop_close = λ k h. if handles_closed h && leb 1 k then 0 else 16;
}

libuv-Settles : Settles libuv 1
libuv-Settles = record {
  inbox_done = λ k b h c. ground (arith, c);
  control_done = λ k b h c. ground (arith, c);
  closes = λ k h late closed. ground (arith, late, closed);
}

service_finish_thread-Ended_example :
    Ended true 0 busy busy_box (service_finish_thread quiet libuv 2 true 0 two)
service_finish_thread-Ended_example =
    service_finish_thread-Ended quiet (λ k. alone-IsFair) libuv 1 libuv-Settles true 0 two busy
      busy_box two-IsSound refl refl busy_box-IsValid
