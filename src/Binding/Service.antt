-- ===== src/Binding/Service.antt =====
-- Services from Lua: `_new`, `_lookup`, `_start`, `_stop`, `_join` and the getters of src/lservice.c. What the
-- calls of src/service.c that wait return comes in.
pub mod New
use service_lua.Base.{
  ℕ, zero, suc, Bool, true, false, ◌||◌, not, Option, none, some, List, [], ◌∷◌, if◌then◌else◌, ltb,
  leb, ◌==◌, ℤ, pos, negsuc, length,
}
use service_lua.Service.Types.{
  State, rank, Service, Pool, max_services, service_mailbox_min_size, service_mailbox_max_size,
}
use service_lua.Service.Pool.{
  NewEnv, service_new, service_pool_get_service, service_pool_lookup_service, service_get_state,
}
use service_lua.Service.Life.{
  service_stop, service_set_exit_error, service_get_exit_error, service_get_loop, service_get_async,
}
use service_lua.Service.Delete.{JoinEnv, Deleted, service_pool_new, service_pool_delete}
use service_lua.Binding.Api.{
  Arg, isnoneornil, Return, throws, returns, ◌>>=◌, check_integer, check_string, check_light,
  light_arg, no_pool, bad_mailbox_size, not_created, start_failed, not_stopped, not_joined,
}

-- `lservice_pool_new`, by the answers that `service_pool_new` gets, and `lservice_pool_delete`
unfoldable pub lservice_pool_new : Bool → Bool → Bool → Return Pool
lservice_pool_new pool_ok mutex_ok cond_ok = elim (service_pool_new pool_ok mutex_ok cond_ok) [
  | none ↦ throws no_pool
  | some pool ↦ returns pool
]

unfoldable pub lservice_pool_delete : (ℕ → JoinEnv) → Arg → Pool → Return Deleted
lservice_pool_delete e first pool =
    check_light 1 first >>= λ p. returns (service_pool_delete e pool)

abbrev pub service_mailbox_default_size : ℕ
service_mailbox_default_size = 1024

-- A size in the options, and the check that it is within the limits
unfoldable pub checked_size : ℤ → Return ℕ
checked_size (negsuc n) = throws bad_mailbox_size
checked_size (pos n) =
    if ltb n service_mailbox_min_size || ltb service_mailbox_max_size n
    then throws bad_mailbox_size
    else returns n

-- The size that the options ask for. The Boolean says whether the fifth argument is a table; then the
-- other one is its field `mailbox_size`.
unfoldable pub mailbox_size_of : Bool → Arg → Return ℕ
unfolding checked_size
mailbox_size_of istable field =
    if not istable
    then returns service_mailbox_default_size
    else if field.isnil
    then returns service_mailbox_default_size
    else check_integer 5 field >>= λ value. checked_size value

-- `lua_isnil(L, 2) ? NULL : luaL_checkstring(L, 2)`; NULL is the empty name.
unfoldable pub name_of : Arg → Return (List ℕ)
name_of name = if name.isnil then returns [] else check_string 2 name

-- What `lservice_new` leaves: the pool, and what it has freed.
pub record NewOutcome : Type 0 where
  pub result : Return ℕ
  pub pool : Pool
  pub freed : List ℕ

-- `lservice_new` behind the checks of its arguments; it returns the id of the new service, which stands
-- for its address.
unfoldable pub new_checked : NewEnv → Pool → List ℕ → ℕ → ℕ → NewOutcome
new_checked env pool name config size = elim (service_new env pool name config size) [
  | none ↦ record {
    result = throws not_created;
    pool = pool;
    freed = if config == 0 then [] else config ∷ [];
  }
  | some pool' ↦ record { result = returns (length pool); pool = pool'; freed = [] }
]

-- The checks of `lservice_new`, in their order: the name, and the size of the mailbox
unfoldable pub check_new : Arg → Arg → Bool → Arg → Return (List ℕ × ℕ)
unfolding mailbox_size_of name_of
check_new name source istable field = name_of name >>= λ n.
    check_string 3 source >>= λ s. mailbox_size_of istable field >>= λ size. returns (n, size)

unfoldable pub new_with : NewEnv → Pool → ℕ → Return (List ℕ × ℕ) → NewOutcome
unfolding new_checked
new_with env pool config (throws e) = record { result = throws e; pool = pool; freed = [] }
new_with env pool config (returns (n, size)) = new_checked env pool n config size

-- `lservice_new`, for the pool that its first argument is
unfoldable pub lservice_new : NewEnv → Pool → Arg → Arg → Arg → Bool → Arg → NewOutcome
unfolding check_new new_with
lservice_new env pool name source config istable field =
    new_with env pool config.userdata (check_new name source istable field)

-- `lservice_lookup`: the id, if there is one. A NULL name finds nothing.
unfoldable pub lservice_lookup : Pool → Arg → Return (Option ℕ)
lservice_lookup pool name =
    if name.isnil
    then returns none
    else check_string 2 name >>= λ n. returns (service_pool_lookup_service pool n)

-- `lservice_start`: whether it joins the service, and its end, by what `service_start` returned and the
-- state after it.
unfoldable pub lservice_start : ℕ → State → Bool × Return ℕ
lservice_start ret state =
    if ret == 0
    then (false, returns ret)
    else (not (ltb (rank state) (rank State.stopping)), throws (start_failed ret))

-- `lservice_stop`, for a service that is there. The text is an optional string.
unfoldable pub lservice_stop : Bool → Arg → Service → Return (Service × Bool)
lservice_stop copied text s =
    if isnoneornil text
    then returns (service_stop s)
    else check_string 2 text >>= λ t.
        returns (service_stop (service_set_exit_error copied (some t) s))

-- `lservice_join`, by what `service_join` returned
unfoldable pub lservice_join : ℕ → Return ℕ
lservice_join ret = if ret == 0 then returns ret else throws (not_joined ret)

-- `lservice_get_exit_error`, `lservice_get_uv_loop` and `lservice_get_async`: a result if there is one
unfoldable pub lservice_get_exit_error : Service → Option (List ℕ)
lservice_get_exit_error s = service_get_exit_error s

unfoldable pub lservice_get_uv_loop : Service → Bool
lservice_get_uv_loop s = service_get_loop s

unfoldable pub lservice_get_async : Service → Bool
lservice_get_async s = service_get_async s

-- `lservice_get_pool`, for the address of the service's pool
unfoldable pub lservice_get_pool : ℕ → Arg
lservice_get_pool pool = light_arg pool

unfoldable pub lservice_get_id : Service → ℕ
lservice_get_id s = s.id

-- `lservice_get_addr` in the pool of its first argument: none is nil and "SERVICE_NOT_FOUND".
unfoldable pub lservice_get_addr : Pool → Arg → Return (Option Service)
lservice_get_addr pool id = check_integer 2 id >>= λ value. elim value [
  | negsuc n ↦ returns none
  | pos n ↦ if leb max_services n then returns none else returns (service_pool_get_service pool n)
]
