-- ===== src/Binding/Message/RoundTrip.antt =====
-- A message that is received can be sent on.
use service_lua.Base.{
  ℕ, ◌^◌, ◌<◌, ◌≡◌, ◌≢◌, ◌⊎◌, ap, lt→ltb, ◌==◌, pos, arith, Bool-cases, inl, inr,
}
use service_lua.Base.Int.{to_word, of_word}
use service_lua.Message.{Message}
use service_lua.Binding.Api.{Return, returns, integer_arg}
use service_lua.Binding.Message.{check_uint32, compose_payload, compose_message, results_of}

-- The fields are in the range of their C types, there is no size without a payload, and the size is one that
-- `lua_pushinteger` passes on as it is: a number of LuaJIT is exact below 2 ^ 53.
pub record IsWord (m : Message) : Type 0 where
  pub from_in : m.from < 2 ^ 32
  pub to_in : m.to < 2 ^ 32
  pub session_in : m.session < 2 ^ 32
  pub type_in : m.type < 2 ^ 32
  pub sz_in : m.sz < 2 ^ 53
  pub no_payload : (m.msg ≢ 0) ⊎ (m.sz ≡ 0)

word_of_word : (w : ℕ) → w < 2 ^ 32 → to_word (2 ^ 32) (of_word (2 ^ 32) w) ≡ w
unfolding to_word of_word
word_of_word w h = ground arith

check_uint32-pos : (i n : ℕ) → n < 2 ^ 32 → check_uint32 i (integer_arg (pos n)) ≡ returns n
unfolding check_uint32
check_uint32-pos i n h = rw (lt→ltb n (2 ^ 32) h)

compose_payload-results :
    (m : Message)
    → (m.msg ≢ 0) ⊎ (m.sz ≡ 0)
    → compose_payload (results_of m).msg (results_of m).sz ≡ returns (m.msg, m.sz)
unfolding compose_payload
compose_payload-results m h = elim (Bool-cases (m.msg == 0)) [
  | inl null ↦ rw null (ap {B = Return (ℕ × ℕ)} returns (ground arith))
  | inr held ↦ rw held
]

-- What `_recv_message` returns for a message whose fields are in range, with a size below 2 ^ 53 that is 0
-- without a payload, is composed into the same message when it is given to `_send_message`.
pub compose_message-results_of :
    (m : Message) → IsWord m → compose_message (results_of m) ≡ returns m
unfolding compose_message
compose_message-results_of m w = rw (
  check_uint32-pos 2 m.from w.from_in,
  check_uint32-pos 3 m.to w.to_in,
  check_uint32-pos 4 m.session w.session_in,
  compose_payload-results m w.no_payload,
  word_of_word m.type w.type_in,
)
