-- ===== src/Service/Drain.antt =====
-- `service_drain_mailbox` of src/service.c: what is done with the messages that a service never handled.
pub mod Replies
pub mod Tests
use service_lua.Base.{
  ℕ, zero, suc, ◌+◌, Bool, true, false, Option, none, some, List, [], ◌∷◌, ◌++◌, if◌then◌else◌,
  get_elem?,
}
use service_lua.Message.{Message, message_dispose}
use service_lua.Mailbox.{Mailbox, Env, mailbox_try_pop}
use service_lua.Service.Types.{Service, Pool, SendResult, update}
use service_lua.Service.Life.{shutdown_begin}
use service_lua.Service.Send.{Around, target, drain_reply, service_send}

-- The environment of each push, and what happens around each send.
pub record DrainEnv : Type 0 where
  pub env : ℕ → Env
  pub around : ℕ → Around

-- What a drain leaves: the pool, the payloads freed, and the replies with the results of their sends.
pub record Drained : Type 0 where
  pub pool : Pool
  pub freed : List ℕ
  pub sent : List (Message × SendResult)

-- The answer to a message, if it wants one.
unfoldable pub drain_send :
    DrainEnv → ℕ → Pool → Option Message → Option (Pool × List (Message × SendResult))
drain_send d k pool none = some (pool, [])
drain_send d k pool (some reply) = elim (service_send (d.env k) (d.around k) pool reply) [
  | none ↦ none
  | some (r, pool') ↦ some (pool', (reply, r) ∷ [])
]

-- Another message's payload and reply, in front
abbrev pub drained_first : Message → List (Message × SendResult) → Drained → Drained
drained_first m sent d = record {
  pool = d.pool;
  freed = (message_dispose m).0 ++ d.freed;
  sent = sent ++ d.sent;
}

-- The loop, for the service at an id, with fuel. `none` is a fault, or fuel run out.
unfoldable pub drain_loop : DrainEnv → ℕ → ℕ → ℕ → Pool → Option Drained
unfolding drain_send target
drain_loop d zero k id pool = none
drain_loop d (suc fuel) k id pool = elim (target pool id) [
  | none ↦ none
  | some (s, box) ↦
      let (out, box') = mailbox_try_pop box in
      let pool' = update id (λ t. record t { inbox = some box' }) pool in
      elim out [
        | none ↦ some (record { pool = pool'; freed = []; sent = [] })
        | some m ↦ elim (drain_send d k pool' (drain_reply s.id m)) [
          | none ↦ none
          | some (pool'', sent) ↦ elim (drain_loop d fuel (k + 1) id pool'') [
            | none ↦ none
            | some rest ↦ some (drained_first m sent rest)
          ]
        ]
      ]
]

-- `service_drain_mailbox`: the fuel is one more than the messages that wait.
unfoldable pub service_drain_mailbox : DrainEnv → ℕ → Pool → Option Drained
unfolding drain_loop target
service_drain_mailbox d id pool = elim (target pool id) [
  | none ↦ none
  | some (s, box) ↦ drain_loop d (box.count + 1) 0 id pool
]

-- `service_prepare_shutdown`. In the wait for the pins other threads only give their pins back: the
-- mailbox is closed, so no push into it succeeds.
unfoldable pub service_prepare_shutdown : DrainEnv → ℕ → Pool → Option Drained
unfolding service_drain_mailbox shutdown_begin
service_prepare_shutdown d id pool = service_drain_mailbox d id (update id shutdown_begin pool)
