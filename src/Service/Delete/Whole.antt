-- ===== src/Service/Delete/Whole.antt =====
-- A pool whose threads end is deleted as a whole.
use service_lua.Base.{
  ℕ, ◌+◌, ◌≤◌, ◌≡◌, ◌⊎◌, refl, ap, ap₂, ◌∙◌, sym, subst, Bool, true, false, none, some, List, [],
  ◌∷◌, if◌then◌else◌, arith, inl, inr, map,
}
use service_lua.Service.Types.{State, rank, Service, Pool}
use service_lua.Service.Pool.{service_retire}
use service_lua.Service.Life.{
  service_stop, stop_state, close_captured, close_inbox, free_joined, join_begin, join_joined,
  join_end,
}
use service_lua.Service.Delete.{
  JoinEnv, service_wait_pins, service_free, joined_free, join_waiting, service_join, join_all,
  free_services, delete_joined, service_pool_delete,
}

-- `service_free` has had it: no mailbox, source or configuration is left, and it is joined by nobody.
abbrev pub IsGone : Service → Type 0
IsGone s = (s.state ≡ State.freed) × (s.inbox ≡ none) × (s.source ≡ 0) × (s.config ≡ 0)

-- How a service may stand outside of `service_join`: freed by an earlier join, without a thread, or with one
-- that has not been joined.
abbrev pub Stands : Service → Type 0
Stands s =
    ((s.thread_joined ≡ true) × (s.join_error ≡ 0) × IsGone s)
    ⊎ (((s.thread_created ≡ false)
          × (s.thread_joined ≡ false)
          × ((rank s.state ≡ 0) ⊎ (rank s.state ≡ 4)))
        ⊎ ((s.thread_created ≡ true) × (s.thread_joined ≡ false) × (rank s.state ≤ 4)))

-- The thread of the service has been asked to stop, or is on its way out.
abbrev pub Asked : Service → Type 0
Asked s = (s.stop_requested ≡ true) ⊎ (3 ≤ rank s.state)

-- The joins come from another thread, and `pthread_join` returns 0 for a thread that has been asked to stop
-- or is on its way out. The thread leaves the id of its service alone.
pub record Ends (e : JoinEnv) : Type 0 where
  pub other : e.own ≡ false
  pub no_error : (s : Service) → Asked s → e.error s ≡ 0
  pub same_id : (s : Service) → (e.ended s).id ≡ s.id

joined_free-IsGone :
    (s : Service)
    → let (error, s', freed) = joined_free 0 s in (error ≡ 0) × IsGone s' × (s'.id ≡ s.id)
unfolding joined_free service_free free_joined join_joined join_end service_retire service_wait_pins
joined_free-IsGone s = ground arith

service_stop-Stands :
    (s : Service)
    → Stands s
    → Stands (service_stop s).0
      × (1 ≤ rank (service_stop s).0.state)
      × Asked (service_stop s).0
      × ((service_stop s).0.id ≡ s.id)
unfolding service_stop stop_state service_retire close_captured close_inbox
service_stop-Stands s st = ground arith

join_begin-early :
    (s : Service) (own : Bool)
    → own ≡ false
    → (s.thread_joined ≡ true) × (s.join_error ≡ 0) × IsGone s
    → join_begin own s ≡ (some 0, s)
unfolding join_begin
join_begin-early s own other over = ground arith

join_begin-waits :
    (s : Service) (own : Bool)
    → own ≡ false
    → s.thread_joined ≡ false
    → ((s.thread_created ≡ false) × (rank s.state ≡ 4))
      ⊎ ((s.thread_created ≡ true) × (rank s.state ≤ 4))
    → join_begin own s ≡ (none, record s { joining = true })
unfolding join_begin
join_begin-waits s own other unjoined st = ground arith

-- Success, and nothing left of the service with an id
abbrev Frees : ℕ → ℕ × Service × List ℕ → Type 0
Frees id (error, s, freed) = (error ≡ 0) × IsGone s × (s.id ≡ id)

either-Frees :
    (e : JoinEnv) (s : Service) (created : Bool)
    → Ends e
    → Asked s
    → Frees s.id (if created then joined_free (e.error s) (e.ended s) else joined_free 0 s)
either-Frees e s true ends asked =
    subst (λ error. Frees s.id (joined_free error (e.ended s))) (sym (ends.no_error s asked))
      (let (no_error, gone, same) = joined_free-IsGone (e.ended s) in
        (no_error, gone, same ∙ ends.same_id s))
either-Frees e s false ends asked = joined_free-IsGone s

service_join-waits :
    (e : JoinEnv) (s : Service)
    → Ends e
    → Asked s
    → join_begin e.own s ≡ (none, record s { joining = true })
    → Frees s.id (service_join e s)
unfolding service_join
service_join-waits e s ends asked begins =
    subst (λ p. Frees s.id (join_waiting e p)) (sym begins)
      (either-Frees e (record s { joining = true }) s.thread_created ends asked)

service_join-early :
    (e : JoinEnv) (s : Service)
    → join_begin e.own s ≡ (some 0, s)
    → IsGone s
    → Frees s.id (service_join e s)
unfolding service_join
service_join-early e s begins gone =
    subst (λ p. Frees s.id (join_waiting e p)) (sym begins) (refl, gone, refl)

service_join-Frees :
    (e : JoinEnv) (s : Service)
    → Ends e
    → Stands s
    → 1 ≤ rank s.state
    → Asked s
    → Frees s.id (service_join e s)
service_join-Frees e s ends st stopped asked = elim st [
  | inl over ↦ service_join-early e s (join_begin-early s e.own ends.other over) over.2
  | inr (inl (absent, unjoined, r)) ↦
      service_join-waits e s ends asked
        (join_begin-waits s e.own ends.other unjoined (inl (absent, ground arith)))
  | inr (inr (created, unjoined, r)) ↦
      service_join-waits e s ends asked
        (join_begin-waits s e.own ends.other unjoined (inr (created, r)))
]

-- Each service of a pool
abbrev pub All : (Service → Type 0) → Pool → Type 0
All P [] = Unit
All P (s ∷ pool) = P s × All P pool

join_all-IsGone :
    (e : ℕ → JoinEnv) (i : ℕ) (pool : Pool)
    → ((k : ℕ) → Ends (e k))
    → All Stands pool
    → let (done, pool', freed) = join_all e i (map (λ s. (service_stop s).0) pool) in
      (done ≡ true) × All IsGone pool' × (map (λ s. s.id) pool' ≡ map (λ s. s.id) pool)
unfolding join_all
join_all-IsGone e i [] ends st = (refl, tt, refl)
join_all-IsGone e i (s ∷ pool) ends st =
    let (ready, later, asked, same) = service_stop-Stands s st.0 in
    let (no_error, gone, kept) =
      service_join-Frees (e i) (service_stop s).0 (ends i) ready later asked in
    let (rest, gone', ids) = join_all-IsGone e (i + 1) pool ends st.1 in
    rw no_error (rest, (gone, gone'), ap₂ ◌∷◌ (kept ∙ same) ids)

free_services-ids : (pool : Pool) → (free_services pool).0 ≡ map (λ s. s.id) pool
unfolding free_services
free_services-ids [] = refl
free_services-ids (s ∷ pool) = ap (λ is. s.id ∷ is) (free_services-ids pool)

delete_joined-whole :
    (done : Bool) (pool' pool : Pool) (freed : List ℕ)
    → done ≡ true
    → All IsGone pool'
    → map (λ s. s.id) pool' ≡ map (λ s. s.id) pool
    → let out = delete_joined (done, pool', freed) in
      (out.whole ≡ true) × All IsGone out.pool × (out.services ≡ map (λ s. s.id) pool)
unfolding delete_joined
delete_joined-whole true pool' pool freed e gone ids = (refl, gone, free_services-ids pool' ∙ ids)
delete_joined-whole false pool' pool freed e gone ids = absurd (cc e)

-- `service_pool_delete` from another thread than the services', for services each of which is new, has its
-- thread, or is over, and threads that end once they have been asked to stop: it stops and joins every
-- service, which leaves none with a mailbox, a source or a configuration, frees every service, once and in
-- order, and then the pool.
pub service_pool_delete-IsGone :
    (e : ℕ → JoinEnv) (pool : Pool)
    → ((k : ℕ) → Ends (e k))
    → All Stands pool
    → let out = service_pool_delete e pool in
      (out.whole ≡ true) × All IsGone out.pool × (out.services ≡ map (λ s. s.id) pool)
unfolding service_pool_delete
service_pool_delete-IsGone e pool ends st =
    let (done, pool', freed) = join_all e 0 (map (λ s. (service_stop s).0) pool) in
    let (all_joined, gone, ids) = join_all-IsGone e 0 pool ends st in
    delete_joined-whole done pool' pool freed all_joined gone ids
