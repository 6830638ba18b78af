-- ===== src/Service/Pool/Names.antt =====
-- Names in the pool: no two routable services share one, and `service_pool_lookup_service` finds the
-- service that has it.
use service_lua.Base.{
  ℕ, zero, suc, ◌+◌, ◌≤◌, ◌<◌, ◌≡◌, ◌≢◌, ◌⊎◌, ◌↔◌, refl, ap, subst, sym, ◌∙◌, true, false, ◌&&◌,
  none, some, List, [], ◌∷◌, ◌++◌, arith, length, get_elem?, Bool-cases, Option-cases, inl, inr,
}
use service_lua.Mailbox.{Mailbox, mailbox_new}
use service_lua.Service.Types.{Service, Pool, same_name, max_services, max_service_name_len}
use service_lua.Service.Pool.{
  answers, lookup_from, service_pool_lookup_service, NewEnv, fresh_service, name_taken, is_named,
  register, service_new,
}

pub same_name_iff : (a b : List ℕ) → (same_name a b ≡ true) ↔ (a ≡ b)
unfolding same_name
same_name_iff [] [] = (λ _. refl, λ _. refl)
same_name_iff [] (y ∷ ys) = (λ h. cc, λ h. cc)
same_name_iff (x ∷ xs) [] = (λ h. cc, λ h. cc)
same_name_iff (x ∷ xs) (y ∷ ys) = ground (arith, same_name_iff xs ys)

-- The service at an id, routable and of that name.
pub record Holds (pool : Pool) (i : ℕ) (name : List ℕ) (s : Service) : Type 0 where
  pub here : get_elem? pool i ≡ some s
  pub routable : s.routable ≡ true
  pub named : s.name ≡ name

-- No two routable services have the same name; any number have none.
unfoldable pub IsUnique : Pool → Type 0
IsUnique pool =
    (i j : ℕ) (s t : Service) (name : List ℕ)
    → name ≢ []
    → Holds pool i name s
    → Holds pool j name t
    → i ≡ j

answers-true :
    (name : List ℕ) (s : Service) → answers name s ≡ true → (s.routable ≡ true) × (s.name ≡ name)
answers-true name s h = ground (arith, same_name_iff s.name name)

answers-Holds :
    {pool : Pool} {i : ℕ} {name : List ℕ} {s : Service}
    → Holds pool i name s
    → answers name s ≡ true
answers-Holds {name} {s} h = ground (arith, same_name_iff s.name name, h.routable, h.named)

-- The last place of a list that grew by one.
get_elem?-snoc :
    (pool : Pool) (i : ℕ) (s x : Service)
    → get_elem? (pool ++ (x ∷ [])) i ≡ some s
    → (get_elem? pool i ≡ some s) ⊎ ((i ≡ length pool) × (s ≡ x))
get_elem?-snoc [] zero s x h = inr (refl, cc)
get_elem?-snoc [] (suc i) s x h = cc
get_elem?-snoc (y ∷ pool) zero s x h = inl h
get_elem?-snoc (y ∷ pool) (suc i) s x h = elim (get_elem?-snoc pool i s x h) [
  | inl old ↦ inl old
  | inr (e, f) ↦ inr (ap suc e, f)
]

name_taken-false :
    (name : List ℕ) (pool : Pool) (i : ℕ) (s : Service)
    → name_taken name pool ≡ false
    → get_elem? pool i ≡ some s
    → answers name s ≡ false
unfolding name_taken
name_taken-false name [] i s free h = cc
name_taken-false name (x ∷ pool) zero s free h = ground arith
name_taken-false name (x ∷ pool) (suc i) s free h = ground (arith, name_taken-false name pool i s)

is_named-true : (name : List ℕ) → name ≢ [] → is_named name ≡ true
unfolding is_named
is_named-true [] h = absurd (h refl)
is_named-true (c ∷ cs) h = refl

-- What `register` accepts: there is room, the name is free, and the service goes to the end.
pub register-some :
    (pool : Pool) (name : List ℕ) (source config : ℕ) (inbox : Mailbox) {pool' : Pool}
    → register pool name source config inbox ≡ some pool'
    → (length pool < max_services)
      × (is_named name && name_taken name pool ≡ false)
      × (pool' ≡ pool ++ (fresh_service (length pool) name source config inbox ∷ []))
unfolding register
register-some pool name source config inbox e = ground arith

-- A service of the pool and the new one do not share a name.
no_clash :
    (pool : Pool) (name n : List ℕ) (i : ℕ) (s : Service)
    → is_named name && name_taken name pool ≡ false
    → n ≢ []
    → Holds pool i n s
    → name ≢ n
no_clash pool name n i s free named h same =
    let e : is_named name ≡ true = is_named-true name (λ q. named (sym same ∙ q)) in
    cc (
      rw e at free,
      name_taken-false name pool i s (rw e at free) h.here,
      answers-Holds {pool = pool} {i = i} {name = name} {s = s}
          (record { here = h.here; routable = h.routable; named = h.named ∙ sym same }),
    )

snoc-IsUnique :
    (pool : Pool) (x : Service)
    → IsUnique pool
    → is_named x.name && name_taken x.name pool ≡ false
    → IsUnique (pool ++ (x ∷ []))
unfolding IsUnique
snoc-IsUnique pool x u free i j s t n named hi hj =
    go (get_elem?-snoc pool i s x hi.here) (get_elem?-snoc pool j t x hj.here)
  where
    go :
        (get_elem? pool i ≡ some s) ⊎ ((i ≡ length pool) × (s ≡ x))
        → (get_elem? pool j ≡ some t) ⊎ ((j ≡ length pool) × (t ≡ x))
        → i ≡ j
    go (inl a) (inl b) =
        u i j s t n named (record { here = a; routable = hi.routable; named = hi.named })
          (record { here = b; routable = hj.routable; named = hj.named })
    go (inl a) (inr b) = absurd (
        no_clash pool x.name n i s free named
          (record { here = a; routable = hi.routable; named = hi.named })
          (ap (λ (y : Service). y.name) (sym b.1) ∙ hj.named))
    go (inr a) (inl b) = absurd (
        no_clash pool x.name n j t free named
          (record { here = b; routable = hj.routable; named = hj.named })
          (ap (λ (y : Service). y.name) (sym a.1) ∙ hi.named))
    go (inr a) (inr b) = a.0 ∙ sym b.0

register-IsUnique :
    (pool : Pool) (name : List ℕ) (source config : ℕ) (inbox : Mailbox) {pool' : Pool}
    → IsUnique pool
    → register pool name source config inbox ≡ some pool'
    → IsUnique pool'
register-IsUnique pool name source config inbox u e =
    let (room, free, same) = register-some pool name source config inbox e in
    subst IsUnique (sym same)
      (snoc-IsUnique pool (fresh_service (length pool) name source config inbox) u free)

service_new-params :
    (env : NewEnv) (pool : Pool) (name : List ℕ) (config size : ℕ) {pool' : Pool}
    → service_new env pool name config size ≡ some pool'
    → (16 ≤ size) × (size ≤ 65536) × (length name < max_service_name_len)
unfolding service_new
service_new-params env pool name config size e = ground arith

service_new-register :
    (env : NewEnv) (pool : Pool) (name : List ℕ) (config size : ℕ) {pool' : Pool}
    → service_new env pool name config size ≡ some pool'
    → (inbox : Mailbox) × (mailbox_new env.box_ok env.items_ok size ≡ some inbox)
      × (register pool name env.source_copy config inbox ≡ some pool')
unfolding service_new
service_new-register env pool name config size e =
    elim (Option-cases (mailbox_new env.box_ok env.items_ok size)) [
      | inl nothing ↦ absurd (ground arith)
      | inr (inbox, made) ↦ (inbox, made, ground arith)
    ]

-- If `service_new` succeeds in a pool where no two routable services share a name, the mailbox size
-- and the name are in range, the pool had one of its 32 places left, it is the old one with one new
-- routable service at its end, and still no two routable services share a name.
pub service_new_lem :
    (env : NewEnv) (pool : Pool) (name : List ℕ) (config size : ℕ) {pool' : Pool}
    → IsUnique pool
    → service_new env pool name config size ≡ some pool'
    → (16 ≤ size)
      × (size ≤ 65536)
      × (length name < max_service_name_len)
      × (length pool < max_services)
      × ((inbox : Mailbox) × (mailbox_new env.box_ok env.items_ok size ≡ some inbox)
          × (pool' ≡ pool ++ (fresh_service (length pool) name env.source_copy config inbox ∷ [])))
      × IsUnique pool'
service_new_lem env pool name config size u e =
    let (low, high, short) = service_new-params env pool name config size e in
    let (inbox, made, registered) = service_new-register env pool name config size e in
    let (room, free, same) = register-some pool name env.source_copy config inbox registered in
    (
      low,
      high,
      short,
      room,
      (inbox, made, same),
      register-IsUnique pool name env.source_copy config inbox u registered,
    )

-- `lookup_from` finds the first service that answers.
lookup_from-some :
    (i : ℕ) (name : List ℕ) (pool : Pool) (k : ℕ)
    → lookup_from i name pool ≡ some k
    → (d : ℕ) × (s : Service) × (k ≡ i + d) × (get_elem? pool d ≡ some s) × (answers name s ≡ true)
unfolding lookup_from
lookup_from-some i name [] k h = cc
lookup_from-some i name (x ∷ pool) k h = elim (Bool-cases (answers name x)) [
  | inl here ↦ (0, x, ground arith, refl, here)
  | inr next ↦
      let (d, s, e, at, ans) = lookup_from-some (i + 1) name pool k (rw next at h) in
      (suc d, s, omega arith, at, ans)
]

lookup_from-none :
    (i : ℕ) (name : List ℕ) (pool : Pool) (d : ℕ) (s : Service)
    → lookup_from i name pool ≡ none
    → get_elem? pool d ≡ some s
    → answers name s ≡ false
unfolding lookup_from
lookup_from-none i name [] d s h at = cc
lookup_from-none i name (x ∷ pool) zero s h at = ground arith
lookup_from-none i name (x ∷ pool) (suc d) s h at =
    ground (arith, lookup_from-none (i + 1) name pool d s)

-- In a pool where no two routable services share a name, a lookup of a name that is not empty
-- returns an id exactly if the service at that id is routable and has the name.
pub service_pool_lookup_service_iff :
    (pool : Pool) (name : List ℕ) (i : ℕ)
    → IsUnique pool
    → name ≢ []
    → (service_pool_lookup_service pool name ≡ some i) ↔ ((s : Service) × Holds pool i name s)
unfolding service_pool_lookup_service
service_pool_lookup_service_iff pool name i u named = (forth, back)
  where
    found : (k : ℕ) → lookup_from 0 name pool ≡ some k → (s : Service) × Holds pool k name s
    found k h =
        let (d, s, e, at, ans) = lookup_from-some 0 name pool k h in
        let same : k ≡ d = omega arith in
        let (r, n) = answers-true name s ans in
        (s, record { here = rw same at; routable = r; named = n })

    forth : lookup_from 0 name pool ≡ some i → (s : Service) × Holds pool i name s
    forth h = found i h

    back : (s : Service) × Holds pool i name s → lookup_from 0 name pool ≡ some i
    back (s, h) = elim (Option-cases (lookup_from 0 name pool)) [
      | inl nothing ↦ cc (lookup_from-none 0 name pool i s nothing h.here, answers-Holds h)
      | inr (k, some_k) ↦
          let (t, ht) = found k some_k in
          some_k ∙ ap some (unfold IsUnique in (u k i t s name named ht h))
    ]
