-- ===== src/Binding/Tests.antt =====
-- Calls from Lua: a send, a service made, and the log configured.
use service_lua.Base.{ℕ, Bool, ◌≡◌, ◌⊎◌, refl, true, false, some, List, [], pos, arith, inl}
use service_lua.Log.{Logger, codes, log_parse_level, same_ignoring_case, log_set_level}
use service_lua.Service.Types.{Service, update}
use service_lua.Service.Pool.{NewEnv}
use service_lua.Service.Pool.Names.{IsUnique}
use service_lua.Mailbox.{Mailbox, MailboxResult}
use service_lua.Mailbox.Locked.{after, Effect}
use service_lua.Service.Send.Delivery.{Left}
use service_lua.Service.Drain.Tests.{
  request, two, busy, busy_box, busy_box-IsValid, undisturbed, alone, alone-IsFair,
}
use service_lua.Binding.Api.{Arg, LuaError, throws, returns, nil_arg, integer_arg, light_arg}
use service_lua.Binding.Message.{SendOutcome, compose_message, results_of, lservice_send_message}
use service_lua.Binding.Message.Owner.{Owns, lservice_send_message-Owns}
use service_lua.Binding.Message.RoundTrip.{IsWord, compose_message-results_of}
use service_lua.Binding.Service.{lservice_new}
use service_lua.Binding.Service.New.{Named, Sized, Rejected, Made, lservice_new_lem}
use service_lua.Binding.Log.{lservice_log_config}

abbrev text_arg : List ℕ → Arg
text_arg s = record nil_arg { isnil = false; string = some s; boolean = true }

request-IsWord : IsWord request
request-IsWord = record {
  from_in = omega arith;
  to_in = omega arith;
  session_in = omega arith;
  type_in = omega arith;
  sz_in = omega arith;
  no_payload = inl (omega arith);
}

composed : compose_message (results_of request) ≡ returns request
composed = compose_message-results_of request request-IsWord

compose_message-results_of_example : compose_message (results_of request) ≡ returns request
compose_message-results_of_example = compose_message-results_of request request-IsWord

lservice_send_message-Owns_example :
    (turns : ℕ) × (r : MailboxResult) × (notify : Bool) × (box : Mailbox) × (Effect
      (after alone busy_box turns)
      request
      r
      notify
      box)
    × (next : Service → Service) × (out : SendOutcome) × (lservice_send_message alone undisturbed
          two
          (light_arg 4)
          (results_of request)
        ≡ some (returns out))
    × (out.pool ≡ update 0 next two)
    × Left true r notify
        (record busy {
          inbox = some box;
          state = busy.state;
          inbox_async_ready = busy.inbox_async_ready;
        })
        (next busy)
    × Owns r busy.state request out
lservice_send_message-Owns_example =
    lservice_send_message-Owns alone alone-IsFair undisturbed two (light_arg 4) (results_of request)
      request refl composed (omega arith) refl refl refl busy_box-IsValid

-- malloc gives out at the service's record.
abbrev starved : NewEnv
starved = record {
  service_ok = false;
  mutex_ok = true;
  cond_ok = true;
  box_ok = true;
  items_ok = true;
  source_copy = 7;
}

nobody-IsUnique : IsUnique []
unfolding IsUnique
nobody-IsUnique = λ i j s t n e h k. cc h.here

lservice_new_lem_example :
    let out =
      lservice_new starved []
        (text_arg (codes "c"))
        (text_arg (codes "@c.lua"))
        (light_arg 12)
        true
        (integer_arg (pos 64)) in
    ((e : LuaError) × (out.result ≡ throws e)
      × (out.pool ≡ [])
      × (out.freed ≡ [])
      × Rejected (text_arg (codes "c")) (text_arg (codes "@c.lua")) true (integer_arg (pos 64)))
    ⊎ ((n : List ℕ) × (size : ℕ) × Named (text_arg (codes "c")) n
        × Sized true (integer_arg (pos 64)) size
        × Made starved [] n 12 size out)
lservice_new_lem_example =
    lservice_new_lem starved [] (text_arg (codes "c")) (text_arg (codes "@c.lua")) (light_arg 12)
      true (integer_arg (pos 64)) nobody-IsUnique

abbrev logger : Logger
logger = record { level = 1; format = 0 }

quiet_log :
    (lservice_log_config logger (text_arg (codes "error")) nil_arg).1 ≡ record logger { level = 3 }
unfolding lservice_log_config log_parse_level same_ignoring_case log_set_level
quiet_log = refl
