-- ===== src/Service/Init/Config.antt =====
-- Who frees the configuration of a service, and what becomes of a failure to load luv.
use service_lua.Base.{
  ℕ, ◌≡◌, ◌≢◌, ◌⊎◌, refl, Bool, ◌&&◌, ◌||◌, not, Option, none, some, List, [], ◌∷◌, ◌++◌,
  if◌then◌else◌, ◌==◌, pos, append-nil, Bool-cases, inl, inr,
}
use service_lua.Luv.{is_table, is_function, LuaKind, Linker, LuvModule, Loader, service_load_luv}
use service_lua.Service.Types.{Service, einval}
use service_lua.Service.Init.{
  enomem, is_loaded, is_negative, InitEnv, Called, free_config, finish_init, service_bind_lservice,
  service_normalize_handler, service_init_lua,
}

-- The configuration that a service still holds
abbrev pub held : Service → List ℕ
held s = if s.config == 0 then [] else s.config ∷ []

-- What a function that may free the configuration leaves
abbrev Accounts : Service → ℕ × Service × List ℕ → Type 0
Accounts s (error, s', freed) = (freed ++ held s' ≡ held s) × ((error ≢ 0) ⊎ (held s' ≡ []))

freed-Accounts :
    (error : ℕ) (s : Service) → Accounts s (error, (free_config s).0, (free_config s).1)
unfolding free_config
freed-Accounts error s = (append-nil (held s), inr refl)

kept-Accounts : (error : ℕ) (s : Service) → error ≢ 0 → Accounts s (error, s, [])
kept-Accounts error s h = (refl, inl h)

finish_init-Accounts :
    (c : Called) (kind : LuaKind) (s : Service) → Accounts s (finish_init c kind s)
unfolding finish_init
finish_init-Accounts c kind s =
    elim (Bool-cases (is_table kind && not (service_normalize_handler c))) [
      | inl bad ↦ rw bad (freed-Accounts einval s)
      | inr good ↦ elim (Bool-cases (not (is_table kind || is_function kind))) [
        | inl neither ↦ rw (good, neither) (freed-Accounts einval s)
        | inr handler ↦ rw (good, handler) (freed-Accounts 0 s)
      ]
    ]

called-Accounts :
    (e : InitEnv) (s : Service) (chunk : Option LuaKind)
    → Accounts s (elim chunk as (λ _. ℕ × Service × List ℕ) [
      | none ↦ (einval, (free_config s).0, (free_config s).1)
      | some kind ↦ finish_init e.dispatch kind s
    ])
called-Accounts e s none = freed-Accounts einval s
called-Accounts e s (some kind) = finish_init-Accounts e.dispatch kind s

-- `service_init_lua` frees the configuration of the service once, or leaves it to the service; when it
-- succeeds it has freed it.
pub service_init_lua-held :
    (e : InitEnv) (s : Service)
    → let (error, s', freed) = service_init_lua e s in
      (freed ++ held s' ≡ held s) × ((error ≢ 0) ⊎ (held s' ≡ []))
unfolding service_init_lua
service_init_lua-held e s = elim (Bool-cases e.newstate_ok) [
  | inr no_state ↦ rw no_state (kept-Accounts enomem s (λ z. cc z))
  | inl state ↦ elim (Bool-cases (is_loaded e.status)) [
    | inr bad ↦ rw (state, bad) (kept-Accounts einval s (λ z. cc z))
    | inl good ↦ elim (Bool-cases (is_negative e.luv)) [
      | inl fails ↦ rw (state, good, fails) (kept-Accounts einval s (λ z. cc z))
      | inr loads ↦ elim (Bool-cases (service_bind_lservice e.input)) [
        | inr unbound ↦ rw (state, good, loads, unbound) (freed-Accounts einval s)
        | inl bound ↦ rw (state, good, loads, bound) (called-Accounts e s e.chunk)
      ]
    ]
  ]
]

-- A failure of `service_load_luv` is not noticed: its result is never negative, so `service_init_lua`
-- does the same whatever the search, the linker and Lua answered to it.
pub luv_failure_ignored :
    (e : InitEnv) (s : Service) (readable : List ℕ → Bool) (cpath : Option (List ℕ)) (dl : Linker)
    (l : LuvModule) (g : Loader)
    → service_init_lua (record e { luv = pos (service_load_luv readable cpath dl l g).0 }) s
      ≡ service_init_lua (record e { luv = pos 0 }) s
unfolding service_init_lua
luv_failure_ignored e s readable cpath dl l g = refl
