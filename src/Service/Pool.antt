-- ===== src/Service/Pool.antt =====
-- The pool of src/service.c: registering, finding, pinning and retiring services. Each function holds
-- `pool->lock` for its whole body.
pub mod Names
pub mod Update
use service_lua.Base.{
  ℕ, zero, suc, ◌+◌, ◌-◌, Bool, true, false, ◌&&◌, ◌||◌, not, Option, none, some, List, [], ◌∷◌,
  ◌++◌, if◌then◌else◌, ◌==◌, ltb, leb, length, get_elem?,
}
use service_lua.Mailbox.{Mailbox, mailbox_new}
use service_lua.Service.Types.{
  State, rank, SendResult, Service, Pool, update, same_name, max_services, max_service_name_len,
  service_mailbox_min_size, service_mailbox_max_size,
}

-- `service_pool_get_service`, for a pool that is there
unfoldable pub service_pool_get_service : Pool → ℕ → Option Service
service_pool_get_service pool id = if leb max_services id then none else get_elem? pool id

-- A service that `name` finds
abbrev pub answers : List ℕ → Service → Bool
answers name s = s.routable && same_name s.name name

-- The loop of `service_pool_lookup_service` from id `i` on: the id of the first service found.
unfoldable pub lookup_from : ℕ → List ℕ → Pool → Option ℕ
lookup_from i name [] = none
lookup_from i name (s ∷ pool) =
    let rest = lookup_from (i + 1) name pool in if answers name s then some i else rest

unfoldable pub service_pool_lookup_service : Pool → List ℕ → Option ℕ
unfolding lookup_from
service_pool_lookup_service pool name = lookup_from 0 name pool

-- `service_get_state`
unfoldable pub service_get_state : Option Service → State
service_get_state none = State.freed
service_get_state (some s) = s.state

unfoldable pub inactive_send_result : Service → SendResult
inactive_send_result s =
    if ltb (rank s.state) (rank State.stopped) then SendResult.stopping else SendResult.stopped

-- `service_pool_pin`, for `out` that is there: the result, and the pool with the pin.
unfoldable pub service_pool_pin : Pool → ℕ → SendResult × Pool
unfolding inactive_send_result
service_pool_pin pool id =
    if leb max_services id then (SendResult.not_found, pool) else elim (get_elem? pool id) [
      | none ↦ (SendResult.not_found, pool)
      | some s ↦
          if s.routable
          then (SendResult.ok, update id (λ t. record t { send_pins = t.send_pins + 1 }) pool)
          else (inactive_send_result s, pool)
    ]

-- `service_unpin`, without the broadcast that wakes `service_wait_pins`
unfoldable pub service_unpin : Service → Service
service_unpin s = if ltb 0 s.send_pins then record s { send_pins = s.send_pins - 1 } else s

unfoldable pub service_retire : Service → Service
service_retire s = record s { routable = false }

-- What calloc, pthread and malloc answer in `service_new`, and the copy of `source`.
pub record NewEnv : Type 0 where
  pub service_ok : Bool
  pub mutex_ok : Bool
  pub cond_ok : Bool
  pub box_ok : Bool
  pub items_ok : Bool
  pub source_copy : ℕ

-- A registered service: what `service_new` has set by the time that it returns it.
abbrev pub fresh_service : ℕ → List ℕ → ℕ → ℕ → Mailbox → Service
fresh_service id name source config inbox = record {
  id = id;
  name = name;
  routable = true;
  send_pins = 0;
  state = State.new;
  stop_requested = false;
  start_done = false;
  thread_created = false;
  joining = false;
  thread_joined = false;
  start_error = 0;
  join_error = 0;
  exit_error = none;
  source = source;
  config = config;
  inbox = some inbox;
  loop_ready = false;
  inbox_async_ready = false;
  control_async_ready = false;
}

-- The loop that looks for the name; the unnamed are not looked for.
unfoldable pub name_taken : List ℕ → Pool → Bool
name_taken name [] = false
name_taken name (s ∷ pool) =
    let rest = name_taken name pool in if answers name s then true else rest

unfoldable pub is_named : List ℕ → Bool
is_named [] = false
is_named (c ∷ cs) = true

-- The registration under the lock
unfoldable pub register : Pool → List ℕ → ℕ → ℕ → Mailbox → Option Pool
unfolding name_taken is_named
register pool name source config inbox =
    if leb max_services (length pool)
    then none
    else if is_named name && name_taken name pool
    then none
    else some (pool ++ (fresh_service (length pool) name source config inbox ∷ []))

-- `service_new`, for a pool and a source that are there. NULL as the name is the empty name. The new
-- service has the last id.
unfoldable pub service_new : NewEnv → Pool → List ℕ → ℕ → ℕ → Option Pool
unfolding register
service_new env pool name config mailbox_size =
    if ltb mailbox_size service_mailbox_min_size
      || ltb service_mailbox_max_size mailbox_size
      || leb max_service_name_len (length name)
    then none
    else if not env.service_ok
    then none
    else if not env.mutex_ok
    then none
    else if not env.cond_ok
    then none
    else elim (mailbox_new env.box_ok env.items_ok mailbox_size) [
      | none ↦ none
      | some inbox ↦
          if env.source_copy == 0 then none else register pool name env.source_copy config inbox
    ]
