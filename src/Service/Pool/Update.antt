-- ===== src/Service/Pool/Update.antt =====
-- Changes of one service of the pool.
use service_lua.Base.{
  ℕ, zero, suc, ◌≡◌, ◌≢◌, ◌⊎◌, inl, inr, refl, ap, sym, ◌∙◌, some, [], ◌∷◌, get_elem?,
}
use native.Mathlib.Decide.{ℕ_discrete}
use service_lua.Service.Types.{Service, Pool, update}

pub get_elem?-update :
    (pool : Pool) (i : ℕ) (f : Service → Service) {s : Service}
    → get_elem? pool i ≡ some s
    → get_elem? (update i f pool) i ≡ some (f s)
get_elem?-update [] i f e = cc e
get_elem?-update (t ∷ pool) zero f e = cc e
get_elem?-update (t ∷ pool) (suc i) f e = get_elem?-update pool i f e

pub update-update :
    (pool : Pool) (i : ℕ) (f g : Service → Service)
    → update i g (update i f pool) ≡ update i (λ s. g (f s)) pool
update-update [] i f g = refl
update-update (t ∷ pool) zero f g = refl
update-update (t ∷ pool) (suc i) f g = ap (λ p. t ∷ p) (update-update pool i f g)

pub update-cong :
    (pool : Pool) (i : ℕ) (f g : Service → Service)
    → ((s : Service) → f s ≡ g s)
    → update i f pool ≡ update i g pool
update-cong [] i f g h = refl
update-cong (t ∷ pool) zero f g h = ap (λ s. s ∷ pool) (h t)
update-cong (t ∷ pool) (suc i) f g h = ap (λ p. t ∷ p) (update-cong pool i f g h)

pub get_elem?-update_ne :
    (pool : Pool) (i j : ℕ) (f : Service → Service)
    → j ≢ i
    → get_elem? (update i f pool) j ≡ get_elem? pool j
get_elem?-update_ne [] i j f h = refl
get_elem?-update_ne (t ∷ pool) zero zero f h = absurd (h refl)
get_elem?-update_ne (t ∷ pool) zero (suc j) f h = refl
get_elem?-update_ne (t ∷ pool) (suc i) zero f h = refl
get_elem?-update_ne (t ∷ pool) (suc i) (suc j) f h =
    get_elem?-update_ne pool i j f (λ e. h (ap suc e))

-- What stands at an id after the change: the changed service, or what stood there.
pub get_elem?-update_cases :
    (pool : Pool) (i j : ℕ) (f : Service → Service) {s t : Service}
    → get_elem? pool i ≡ some s
    → get_elem? (update i f pool) j ≡ some t
    → ((j ≡ i) × (t ≡ f s)) ⊎ ((j ≢ i) × (get_elem? pool j ≡ some t))
get_elem?-update_cases pool i j f here at = elim (ℕ_discrete j i) [
  | yes e ↦ inl (e, cc (get_elem?-update pool i f here, at, e))
  | no ne ↦ inr (ne, sym (get_elem?-update_ne pool i j f ne) ∙ at)
]
