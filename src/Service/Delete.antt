-- ===== src/Service/Delete.antt =====
-- The end of a pool in src/service.c: `service_free`, `service_join` and `service_pool_delete`, each as a whole.
pub mod Whole
mod Tests
use service_lua.Base.{
  ℕ, zero, suc, ◌+◌, Bool, true, false, not, Option, none, some, List, [], ◌∷◌, ◌++◌, if◌then◌else◌,
  ◌==◌, map,
}
use service_lua.Service.Types.{Service, Pool}
use service_lua.Service.Pool.{service_retire}
use service_lua.Service.Life.{service_stop, free_joined, join_begin, join_joined, join_end}

-- `service_pool_new`, with the answers of calloc, `pthread_mutex_init` and `pthread_cond_init`
unfoldable pub service_pool_new : Bool → Bool → Bool → Option Pool
service_pool_new pool_ok mutex_ok cond_ok =
    if not pool_ok
    then none
    else if not mutex_ok
    then none
    else if not cond_ok
    then none
    else some []

-- `service_wait_pins`: the senders give their pins back meanwhile.
unfoldable pub service_wait_pins : Service → Service
service_wait_pins s = record s { send_pins = 0 }

-- `service_free`, for a service that is there
unfoldable pub service_free : Service → ℕ × Service × List ℕ
unfolding service_wait_pins
service_free s = free_joined (service_wait_pins (service_retire s))

-- What becomes of the thread of a service while it is waited for: what it made of the service, and what
-- `pthread_join` returns, by how the service stands at the call.
pub record JoinEnv : Type 0 where
  pub own : Bool
  pub ended : Service → Service
  pub error : Service → ℕ

-- `service_join` behind `pthread_join`, with its error
unfoldable pub joined_free : ℕ → Service → ℕ × Service × List ℕ
unfolding service_free
joined_free error s =
    let s' = join_joined error s in
    let (result, s'', freed) : ℕ × Service × List ℕ =
      if error == 0 then service_free s' else (error, s', []) in
    (result, join_end s'', freed)

-- `service_join` behind its first locked part
unfoldable pub join_waiting : JoinEnv → Option ℕ × Service → ℕ × Service × List ℕ
unfolding joined_free
join_waiting e (some error, s) = (error, s, [])
join_waiting e (none, s) =
    if s.thread_created then joined_free (e.error s) (e.ended s) else joined_free 0 s

-- `service_join`, when nobody else joins the service: the result, the service, and the payloads that go
-- with its mailbox.
unfoldable pub service_join : JoinEnv → Service → ℕ × Service × List ℕ
unfolding join_waiting
service_join e s = join_waiting e (join_begin e.own s)

-- The second loop of `service_pool_delete`, from the service `i` on: whether every join returned 0, the
-- services, and the payloads freed.
unfoldable pub join_all : (ℕ → JoinEnv) → ℕ → Pool → Bool × Pool × List ℕ
unfolding service_join
join_all e i [] = (true, [], [])
join_all e i (s ∷ pool) =
    let (error, s', freed) = service_join (e i) s in
    let (all_joined, pool', rest) = join_all e (i + 1) pool in
    if error == 0 then (all_joined, s' ∷ pool', freed ++ rest) else (false, s' ∷ pool, freed)

-- The third loop of `service_pool_delete`: the services freed, by their ids, and the exit errors.
unfoldable pub free_services : Pool → List ℕ × List (List ℕ)
free_services [] = ([], [])
free_services (s ∷ pool) =
    let (services, texts) = free_services pool in
    (s.id ∷ services, elim s.exit_error [ none ↦ texts | some text ↦ text ∷ texts ])

-- What `service_pool_delete` leaves: whether the pool itself has been freed, the services as they were
-- before they were freed, the payloads freed with their mailboxes, and the services and texts freed.
pub record Deleted : Type 0 where
  pub whole : Bool
  pub pool : Pool
  pub payloads : List ℕ
  pub services : List ℕ
  pub texts : List (List ℕ)

unfoldable pub delete_joined : Bool × Pool × List ℕ → Deleted
unfolding free_services
delete_joined (false, pool, freed) = record {
  whole = false;
  pool = pool;
  payloads = freed;
  services = [];
  texts = [];
}
delete_joined (true, pool, freed) =
    let (services, texts) = free_services pool in
    record { whole = true; pool = pool; payloads = freed; services = services; texts = texts }

-- `service_pool_delete`, for a pool that is there
unfoldable pub service_pool_delete : (ℕ → JoinEnv) → Pool → Deleted
unfolding join_all delete_joined
service_pool_delete e pool = delete_joined (join_all e 0 (map (λ s. (service_stop s).0) pool))
