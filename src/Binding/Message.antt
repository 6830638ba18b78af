-- ===== src/Binding/Message.antt =====
-- Sending and receiving from Lua: `_send_message`, `_recv_message` and `remove` of src/lservice.c.
pub mod Owner
pub mod RoundTrip
use service_lua.Base.{
  ℕ, zero, suc, ◌+◌, ◌^◌, ◌%◌, Bool, true, false, ◌||◌, Option, none, some, List, [], ◌∷◌,
  if◌then◌else◌, ltb, leb, ◌==◌, ℤ, pos, negsuc,
}
use service_lua.Base.Int.{to_word, of_word}
use service_lua.Message.{Message, message_dispose}
use service_lua.Mailbox.{Env}
use service_lua.Service.Types.{Service, Pool, SendResult}
use service_lua.Service.Send.{Around, service_send, service_recv}
use service_lua.Binding.Api.{
  Arg, isnoneornil, LuaError, Return, throws, returns, ◌>>=◌, check_integer, check_light,
  check_boolean, not_uint32, negative_size, bad_argument, nil_arg, integer_arg, light_arg,
}

-- `check_uint32`, for the argument with a number
unfoldable pub check_uint32 : ℕ → Arg → Return ℕ
check_uint32 i a = check_integer i a >>= λ value. elim value [
  | pos n ↦ if ltb n (2 ^ 32) then returns n else throws (not_uint32 i)
  | negsuc n ↦ throws (not_uint32 i)
]

-- The end of `compose_message`: the payload and its size
unfoldable pub compose_payload : Arg → Arg → Return (ℕ × ℕ)
compose_payload msg sz =
    if isnoneornil msg
    then returns (0, 0)
    else check_light 6 msg >>= λ p. check_integer 7 sz >>= λ size. elim size [
      | pos n ↦ returns (p, n)
      | negsuc n ↦ throws negative_size
    ]

-- The arguments 2 to 7 of `_send_message`
pub record SendArgs : Type 0 where
  pub from : Arg
  pub to : Arg
  pub session : Arg
  pub type : Arg
  pub msg : Arg
  pub sz : Arg

-- `compose_message`. The type is an int.
unfoldable pub compose_message : SendArgs → Return Message
unfolding check_uint32 compose_payload
compose_message a = check_uint32 2 a.from >>= λ from. check_uint32 3 a.to >>= λ to.
    check_uint32 4 a.session >>= λ session. check_integer 5 a.type >>= λ type.
    compose_payload a.msg a.sz >>= λ (p, n). returns (record {
      from = from;
      to = to;
      session = session;
      type = to_word (2 ^ 32) type;
      msg = p;
      sz = n;
    })

-- The text of an error, for a send that did not succeed
pub data SendError : Type 0 where
  service_stopped mailbox_full service_not_found service_stopping : SendError

abbrev pub error_of : SendResult → SendError
error_of SendResult.full = mailbox_full
error_of SendResult.not_found = service_not_found
error_of SendResult.stopping = service_stopping
error_of _ = service_stopped

-- What a send leaves: `true`, or nil and the text, as an Option; the payload that it has freed; the pool.
pub record SendOutcome : Type 0 where
  pub error : Option SendError
  pub freed : List ℕ
  pub pool : Pool

-- `lservice_send_message` behind `service_send`
unfoldable pub after_send : Message → SendResult → Pool → SendOutcome
unfolding message_dispose
after_send m SendResult.ok pool = record { error = none; freed = []; pool = pool }
after_send m refused pool = record {
  error = some (error_of refused);
  freed = (message_dispose m).0;
  pool = pool;
}

-- `lservice_send_message` behind the checks of its arguments
unfoldable pub send_composed : Env → Around → Pool → Return Message → Option (Return SendOutcome)
unfolding after_send
send_composed env around pool (throws e) = some (throws e)
send_composed env around pool (returns m) = elim (service_send env around pool m) [
  | none ↦ none
  | some (r, pool') ↦ some (returns (after_send m r pool'))
]

-- `lservice_send_message`, for the pool that its first argument is; `none` is a fault of `service_send`.
unfoldable pub lservice_send_message :
    Env → Around → Pool → Arg → SendArgs → Option (Return SendOutcome)
unfolding compose_message send_composed
lservice_send_message env around pool first a =
    send_composed env around pool (check_light 1 first >>= λ p. compose_message a)

-- The six results of `lservice_recv_message`, as Lua sees them, for a size below 2 ^ 53: a larger one
-- `lua_pushinteger` rounds, or makes negative.
abbrev pub results_of : Message → SendArgs
results_of m = record {
  from = integer_arg (pos m.from);
  to = integer_arg (pos m.to);
  session = integer_arg (pos m.session);
  type = integer_arg (of_word (2 ^ 32) m.type);
  msg = if m.msg == 0 then nil_arg else light_arg m.msg;
  sz = integer_arg (pos m.sz);
}

-- `lservice_recv_message`, for the service that its first argument is: no results, or six.
unfoldable pub lservice_recv_message : Arg → Arg → Service → Return (Option SendArgs × Service)
lservice_recv_message first blocking s = check_light 1 first >>= λ p.
    check_boolean 2 blocking >>= λ b.
    let (out, s') = service_recv s in
    returns (elim out [ none ↦ none | some m ↦ some (results_of m) ], s')

-- `luaseri_remove`: what it frees.
unfoldable pub luaseri_remove : Arg → Arg → Return (List ℕ)
luaseri_remove msg sz =
    if isnoneornil msg
    then returns []
    else check_light 1 msg >>= λ p.
        check_integer 2 sz >>= λ n. returns (if p == 0 then [] else p ∷ [])
