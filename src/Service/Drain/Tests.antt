-- ===== src/Service/Drain/Tests.antt =====
-- A service that is shut down with a request in its mailbox, and sends beside it.
use service_lua.Base.{
  zero, suc, ◌≡◌, refl, true, false, none, some, [], ◌∷◌, arith, replicate, inl, Option,
}
use service_lua.Message.{Message, zero_message}
use service_lua.Mailbox.{Mailbox, Env}
use service_lua.Mailbox.Inv.{IsValid}
use service_lua.Mailbox.Refine.{contents}
use service_lua.Mailbox.Locked.{IsFair}
use service_lua.Service.Types.{Service, Pool}
use service_lua.Service.Pool.{fresh_service}
use service_lua.Service.Life.{shutdown_begin}
use service_lua.Service.Send.{Around, service_send}
use service_lua.Service.Send.Total.{IsSound, Sent, service_send-Sent}
use service_lua.Service.Drain.{DrainEnv, service_prepare_shutdown}
use service_lua.Service.Drain.Replies.{Drains, service_prepare_shutdown-Drains}

abbrev pub request : Message
request = record zero_message { from = 1; to = 0; session = 5; type = 1; msg = 9; sz = 2 }

-- One request waits.
abbrev pub busy_box : Mailbox
busy_box = record {
  items = request ∷ replicate 15 zero_message;
  capacity = 16;
  head = 0;
  tail = 1;
  count = 1;
  initial_capacity = 16;
  overload = 0;
  overload_threshold = 16;
  closed = false;
  scheduled = true;
}

abbrev idle_box : Mailbox
idle_box = record busy_box {
  items = replicate 16 zero_message;
  tail = 0;
  count = 0;
  scheduled = false;
}

abbrev pub busy : Service
busy = fresh_service 0 (97 ∷ []) 7 0 busy_box

abbrev caller : Service
caller = fresh_service 1 (98 ∷ []) 7 0 idle_box

abbrev pub two : Pool
two = busy ∷ caller ∷ []

pub busy_box-IsValid : IsValid busy_box
busy_box-IsValid = ground arith

idle_box-IsValid : IsValid idle_box
idle_box-IsValid = ground arith

box_of :
    {s t : Service} {b : Mailbox}
    → ◌≡◌ {A = Option Service} (some s) (some t)
    → s.inbox ≡ some b
    → t.inbox ≡ some b
box_of at has = cc (at, has)

pub two-IsSound : IsSound two
two-IsSound zero s at found = (busy_box, box_of at refl, busy_box-IsValid)
two-IsSound (suc zero) s at found = (idle_box, box_of at refl, idle_box-IsValid)
two-IsSound (suc (suc i)) s at found = cc at

abbrev pub alone : Env
alone = record { malloc = λ k n. none; others = λ k b. b }

pub alone-IsFair : IsFair alone
alone-IsFair = record { keeps = λ k b v. v; grows = λ k b v. inl refl; sized = λ k n g e. cc e }

-- `uv_async_send` succeeds, and no other thread touches the service.
abbrev pub undisturbed : Around
undisturbed = record { wakes = true; state = λ st. st; ready = λ b. b }

abbrev quiet : DrainEnv
quiet = record { env = λ k. alone; around = λ k. undisturbed }

service_send-Sent_example : Sent two (service_send alone undisturbed two request)
service_send-Sent_example = service_send-Sent alone alone-IsFair undisturbed two request two-IsSound

service_prepare_shutdown-Drains_example :
    Drains 0 (shutdown_begin busy) (contents busy_box) (service_prepare_shutdown quiet 0 two)
service_prepare_shutdown-Drains_example =
    service_prepare_shutdown-Drains quiet (λ k. alone-IsFair) 0 two busy busy_box two-IsSound refl
      refl busy_box-IsValid
