-- ===== src/Service/Types.antt =====
-- src/service.h: the state of a service, the pool, and the result of a send.
use service_lua.Base.{ℕ, zero, suc, Bool, true, false, Option, List, [], ◌∷◌, if◌then◌else◌, ◌==◌}
use service_lua.Mailbox.{Mailbox}

-- `service_state_t`
pub data State : Type 0 where
  new starting running stopping stopped joined freed : State

-- The value of the enumerator, for the comparisons in the code
abbrev pub rank : State → ℕ
rank State.new = 0
rank State.starting = 1
rank State.running = 2
rank State.stopping = 3
rank State.stopped = 4
rank State.joined = 5
rank State.freed = 6

-- `service_send_result_t`
pub data SendResult : Type 0 where
  ok full not_found stopping stopped : SendResult

abbrev pub max_services : ℕ
max_services = 32

abbrev pub max_service_name_len : ℕ
max_service_name_len = 32

abbrev pub service_mailbox_min_size : ℕ
service_mailbox_min_size = 16

abbrev pub service_mailbox_max_size : ℕ
service_mailbox_max_size = 65536

abbrev pub ecanceled : ℕ
ecanceled = 125

abbrev pub einval : ℕ
einval = 22

abbrev pub ebusy : ℕ
ebusy = 16

abbrev pub ealready : ℕ
ealready = 114

abbrev pub edeadlk : ℕ
edeadlk = 35

-- `struct service`, but for its locks, its thread and the handles of Lua and libuv. A name and an error
-- are bytes without the final zero; `inbox` is none for NULL, after `service_free`. `source` and
-- `config` are addresses, 0 for NULL.
pub record Service : Type 0 where
  pub id : ℕ
  pub name : List ℕ
  pub routable : Bool
  pub send_pins : ℕ
  pub state : State
  pub stop_requested : Bool
  pub start_done : Bool
  pub thread_created : Bool
  pub joining : Bool
  pub thread_joined : Bool
  pub start_error : ℕ
  pub join_error : ℕ
  pub exit_error : Option (List ℕ)
  pub source : ℕ
  pub config : ℕ
  pub inbox : Option Mailbox
  pub loop_ready : Bool
  pub inbox_async_ready : Bool
  pub control_async_ready : Bool

-- `struct service_pool`: the services in the order of their ids. `next_id` is the length of the list,
-- and `services[id]` is NULL from there on.
abbrev pub Pool : Type 0
Pool = List Service

-- A change of the service at an index.
abbrev pub update : ℕ → (Service → Service) → Pool → Pool
update i f [] = []
update zero f (s ∷ pool) = f s ∷ pool
update (suc i) f (s ∷ pool) = s ∷ update i f pool

-- Equality of two strings, as `strcmp` decides it
unfoldable pub same_name : List ℕ → List ℕ → Bool
same_name [] [] = true
same_name [] (b ∷ bs) = false
same_name (a ∷ as') [] = false
same_name (a ∷ as') (b ∷ bs) = let rest = same_name as' bs in if a == b then rest else false
