-- ===== src/Service/Start/Outcome.antt =====
-- What the caller of `service_start` learns, and who has the configuration then.
use service_lua.Base.{
  ℕ, ◌≡◌, ◌≢◌, ◌⊎◌, refl, ap, sym, subst, ◌∙◌, Bool, true, false, ◌&&◌, not, List, [], ◌∷◌, ◌++◌,
  if◌then◌else◌, ◌==◌, Bool-cases, inl, inr, arith,
}
use service_lua.Service.Types.{State, rank, Service, ealready}
use service_lua.Service.Pool.{service_retire}
use service_lua.Service.Life.{
  Begun, start_begin, start_failed, service_init_loop, thread_ready, close_inbox,
}
use service_lua.Service.Init.{InitEnv, service_init_lua}
use service_lua.Service.Init.Config.{held, service_init_lua-held}
use service_lua.Service.Start.{StartEnv, init_unless_stopped, thread_begin, service_start}

-- The service has announced that it runs, or that it does not.
abbrev pub Announced : ℕ → Service → Type 0
Announced error s =
    (s.start_done ≡ true)
    × (((error ≡ 0) × (s.state ≡ State.running)) ⊎ ((error ≢ 0) × (s.state ≡ State.stopping)))

thread_ready-Announced :
    (error : ℕ) (s : Service)
    → Announced (thread_ready error s).1.start_error (thread_ready error s).1
unfolding thread_ready
thread_ready-Announced error s = ground arith

thread_ready_config : (error : ℕ) (s : Service) → (thread_ready error s).1.config ≡ s.config
unfolding thread_ready
thread_ready_config error s = ground arith

init_loop_config : (a b c : ℕ) (s : Service) → (service_init_loop a b c s).1.config ≡ s.config
unfolding service_init_loop
init_loop_config a b c s = ground arith

held-same : (s t : Service) → s.config ≡ t.config → held s ≡ held t
held-same s t e = ap (λ c. if c == 0 then [] else c ∷ []) e

-- What has been freed and what is held are what `s` held.
abbrev Accounts : Service → ℕ × Service × List ℕ → Type 0
Accounts s (error, s', freed) = freed ++ held s' ≡ held s

either-Accounts :
    (e : InitEnv) (error : ℕ) (s : Service) (goes : Bool)
    → Accounts s (if goes then service_init_lua e s else (error, s, []))
either-Accounts e error s true = (service_init_lua-held e s).0
either-Accounts e error s false = refl

init_unless_stopped-Accounts :
    (e : InitEnv) (error : ℕ) (s : Service) → Accounts s (init_unless_stopped e error s)
unfolding init_unless_stopped
init_unless_stopped-Accounts e error s =
    either-Accounts e error s (error == 0 && not s.stop_requested)

-- The other threads leave the configuration alone.
abbrev pub Leaves : StartEnv → Type 0
Leaves e =
    ((s : Service) → (e.before s).config ≡ s.config)
    × ((s : Service) → (e.behind s).config ≡ s.config)

thread_begin-Announced :
    (e : StartEnv) (s : Service)
    → Leaves e
    → let (running, s', freed) = thread_begin e s in
      Announced s'.start_error s' × (freed ++ held s' ≡ held s)
unfolding thread_begin
thread_begin-Announced e s leaves =
    let (error, s₁) = service_init_loop e.loop_error e.inbox_error e.control_error s in
    let (error', s₂, freed) = init_unless_stopped e.init error (e.before s₁) in
    let last : (thread_ready error' (e.behind s₂)).1.config ≡ s₂.config =
      thread_ready_config error' (e.behind s₂) ∙ leaves.1 s₂ in
    let first : (e.before s₁).config ≡ s.config =
      leaves.0 s₁ ∙ init_loop_config e.loop_error e.inbox_error e.control_error s in
    (
      thread_ready-Announced error' (e.behind s₂),
      ap (λ xs. freed ++ xs) (held-same (thread_ready error' (e.behind s₂)).1 s₂ last)
          ∙ init_unless_stopped-Accounts e.init error (e.before s₁)
          ∙ held-same (e.before s₁) s first,
    )

-- How `service_start` may end: it was not the first, `pthread_create` failed, or the new thread has
-- announced itself.
abbrev pub Started : ℕ → Service → ℕ → Service → Type 0
Started created s error s' =
    ((s.state ≢ State.new) × (error ≡ ealready) × (s' ≡ s))
    ⊎ (((s.state ≡ State.new)
          × (created ≢ 0)
          × (error ≡ created)
          × (s'.state ≡ State.stopped)
          × (s'.start_error ≡ created)
          × (s'.routable ≡ false))
        ⊎ ((s.state ≡ State.new) × (created ≡ 0) × Announced error s'))

abbrev waited : StartEnv → Begun × Service → ℕ × Service × List ℕ
waited e (begun, s) = elim begun [
  | Begun.not_new ↦ (ealready, s, [])
  | Begun.uncreated error ↦ (error, start_failed s, [])
  | Begun.waits ↦ let (running, s', freed) = thread_begin e s in (s'.start_error, s', freed)
]

abbrev Outcome : StartEnv → Service → ℕ × Service × List ℕ → Type 0
Outcome e s (error, s', freed) = Started e.created s error s' × (freed ++ held s' ≡ held s)

rank-new : (st : State) → not (rank st == rank State.new) ≡ false → st ≡ State.new
rank-new st e = ground arith

begin-cases :
    (created : ℕ) (s : Service)
    → ((s.state ≢ State.new) × (start_begin created s ≡ (Begun.not_new, s)))
      ⊎ (((s.state ≡ State.new)
            × (created ≢ 0)
            × (start_begin created s ≡ (
              Begun.uncreated created,
              record s { state = State.stopped; start_done = true; start_error = created },
            )))
          ⊎ ((s.state ≡ State.new)
              × (created ≡ 0)
              × (start_begin created s
                  ≡ (Begun.waits, record s { state = State.starting; thread_created = true }))))
unfolding start_begin
begin-cases created s = elim (Bool-cases (not (rank s.state == rank State.new))) [
  | inl other ↦ inl (ground arith, rw other)
  | inr first ↦ elim (Bool-cases (not (created == 0))) [
    | inl failed ↦ inr (inl (rank-new s.state first, ground arith, rw (first, failed)))
    | inr fine ↦ inr (inr (rank-new s.state first, ground arith, rw (first, fine)))
  ]
]

-- `service_start` returns `ealready` for a service that is not new, which stays as it is. For a new one it
-- returns the error of `pthread_create` if that fails, with the service stopped and retired, and otherwise
-- what the new thread has announced: 0 if the service runs, and an error if it stops. The configuration has
-- been freed once or is still the service's. The other threads are taken to leave it alone.
pub service_start-Started :
    (e : StartEnv) (s : Service)
    → Leaves e
    → let (error, s', freed) = service_start e s in
      Started e.created s error s' × (freed ++ held s' ≡ held s)
unfolding service_start start_failed close_inbox service_retire
service_start-Started e s leaves = elim (begin-cases e.created s) [
  | inl (other, begun) ↦
      subst (λ q. Outcome e s (waited e q)) (sym begun) (inl (other, refl, refl), refl)
  | inr (inl (first, failed, begun)) ↦
      subst (λ q. Outcome e s (waited e q)) (sym begun)
        (inr (inl (first, failed, refl, refl, refl, refl)), refl)
  | inr (inr (first, fine, begun)) ↦
      let (announced, accounts) =
        thread_begin-Announced e (record s { state = State.starting; thread_created = true })
          leaves in
      subst (λ q. Outcome e s (waited e q)) (sym begun)
        (inr (inr (first, fine, announced)), accounts)
]
