-- ===== src/Binding/Service/New.antt =====
-- What `lservice_new` does with its configuration, and which services it makes.
use service_lua.Base.{
  ℕ, ◌≤◌, ◌<◌, ◌≡◌, ◌⊎◌, refl, ap, ◌∙◌, Bool, true, false, ◌||◌, none, some, List, [], ◌∷◌, ◌++◌,
  if◌then◌else◌, ◌==◌, arith, length, Option-cases, inl, inr, ltb, ℤ, pos, negsuc, Bool-cases,
}
use service_lua.Mailbox.{Mailbox, mailbox_new}
use service_lua.Service.Types.{Pool, service_mailbox_min_size, service_mailbox_max_size}
use service_lua.Service.Pool.{NewEnv, fresh_service, service_new}
use service_lua.Service.Pool.Names.{IsUnique, service_new_lem}
use service_lua.Binding.Api.{
  Arg, LuaError, Return, throws, returns, not_created, bad_mailbox_size, bad_argument,
}
use service_lua.Binding.Service.{
  NewOutcome, name_of, checked_size, mailbox_size_of, new_checked, new_with, check_new,
  lservice_new,
}

-- The name that an argument gives: nil gives the empty one.
abbrev pub Named : Arg → List ℕ → Type 0
Named name n = ((name.isnil ≡ true) × (n ≡ [])) ⊎ ((name.isnil ≡ false) × (name.string ≡ some n))

-- The size that the options give: 1024, or the field `mailbox_size` if it is within the limits.
abbrev pub Sized : Bool → Arg → ℕ → Type 0
Sized istable field size =
    (((istable ≡ false) ⊎ (field.isnil ≡ true)) × (size ≡ 1024))
    ⊎ ((istable ≡ true)
        × (field.isnil ≡ false)
        × (field.integer ≡ some (pos size))
        × (16 ≤ size)
        × (size ≤ 65536))

-- A number that is no size of a mailbox
abbrev pub Outside : ℤ → Type 0
Outside (negsuc n) = Unit
Outside (pos n) = (n < 16) ⊎ (65536 < n)

-- The options give a size that is no integer, or out of range.
abbrev pub Unsized : Bool → Arg → Type 0
Unsized istable field =
    (istable ≡ true)
    × (field.isnil ≡ false)
    × ((field.integer ≡ none) ⊎ ((v : ℤ) × (field.integer ≡ some v) × Outside v))

-- One of the arguments is of no use: the name, the source, or the size.
abbrev pub Rejected : Arg → Arg → Bool → Arg → Type 0
Rejected name source istable field =
    ((name.isnil ≡ false) × (name.string ≡ none)) ⊎ ((source.string ≡ none) ⊎ Unsized istable field)

-- The value of a check and what is known of it, or its error and the reason
abbrev Checked : {A : Type 0} → (A → Type 0) → Type 0 → Return A → Type 0
Checked {A} P Q r = ((e : LuaError) × (r ≡ throws e) × Q) ⊎ ((x : A) × (r ≡ returns x) × P x)

checked_size-Checked :
    (v : ℤ)
    → Checked (λ size. (v ≡ pos size) × (16 ≤ size) × (size ≤ 65536)) (Outside v) (checked_size v)
unfolding checked_size
checked_size-Checked (negsuc n) = inl (_, refl, tt)
checked_size-Checked (pos n) =
    elim (Bool-cases (ltb n service_mailbox_min_size || ltb service_mailbox_max_size n)) [
      | inl outside ↦ inl (bad_mailbox_size, rw outside refl, ground arith)
      | inr within ↦ inr (n, rw within refl, (refl, ground arith, ground arith))
    ]

name_of-Checked :
    (name : Arg) → Checked (Named name) ((name.isnil ≡ false) × (name.string ≡ none)) (name_of name)
unfolding name_of
name_of-Checked name = elim (Bool-cases name.isnil) [
  | inl missing ↦ inr ([], rw missing refl, inl (missing, refl))
  | inr there ↦ elim (Option-cases name.string) [
    | inl bad ↦ inl (bad_argument 2, rw (there, bad) refl, (there, bad))
    | inr (n, good) ↦ inr (n, rw (there, good) refl, inr (there, good))
  ]
]

mailbox_size_of-Checked :
    (istable : Bool) (field : Arg)
    → Checked (Sized istable field) (Unsized istable field) (mailbox_size_of istable field)
unfolding mailbox_size_of
mailbox_size_of-Checked false field = inr (1024, refl, inl (inl refl, refl))
mailbox_size_of-Checked true field = elim (Bool-cases field.isnil) [
  | inl missing ↦ inr (1024, rw missing refl, inl (inr missing, refl))
  | inr there ↦ elim (Option-cases field.integer) [
    | inl bad ↦ inl (bad_argument 5, rw (there, bad) refl, (refl, there, inl bad))
    | inr (v, good) ↦ elim (checked_size-Checked v) [
      | inl (e, bad, out) ↦ inl (e, rw (there, good) bad, (refl, there, inr (v, good, out)))
      | inr (size, fine, (same, low, high)) ↦
          inr (
            size,
            rw (there, good) fine,
            inr (refl, there, good ∙ ap (λ z. some z) same, low, high),
          )
    ]
  ]
]

check_new-Checked :
    (name source : Arg) (istable : Bool) (field : Arg)
    → Checked
        (λ p. Named name p.0 × Sized istable field p.1)
        (Rejected name source istable field)
        (check_new name source istable field)
unfolding check_new
check_new-Checked name source istable field = elim (name_of-Checked name) [
  | inl (e, bad, why) ↦ inl (e, rw bad refl, inl why)
  | inr (n, good, named) ↦ elim (Option-cases source.string) [
    | inl bad ↦ inl (bad_argument 3, rw (good, bad) refl, inr (inl bad))
    | inr (s, fine) ↦ elim (mailbox_size_of-Checked istable field) [
      | inl (e, bad, why) ↦ inl (e, rw (good, fine, bad) refl, inr (inr why))
      | inr (size, sized, known) ↦ inr ((n, size), rw (good, fine, sized) refl, (named, known))
    ]
  ]
]

-- What `_new` leaves for a name and a size that it accepts: a new service at the end of the pool, or none.
abbrev pub Made : NewEnv → Pool → List ℕ → ℕ → ℕ → NewOutcome → Type 0
Made env pool n config size out =
    ((out.result ≡ throws not_created)
      × (out.pool ≡ pool)
      × (out.freed ≡ (if config == 0 then [] else config ∷ [])))
    ⊎ ((inbox : Mailbox) × (mailbox_new env.box_ok env.items_ok size ≡ some inbox)
        × (out.result ≡ returns (length pool))
        × (out.pool ≡ pool ++ (fresh_service (length pool) n env.source_copy config inbox ∷ []))
        × (out.freed ≡ [])
        × IsUnique out.pool)

new_checked-Made :
    (env : NewEnv) (pool : Pool) (name : List ℕ) (config size : ℕ)
    → IsUnique pool
    → Made env pool name config size (new_checked env pool name config size)
unfolding new_checked
new_checked-Made env pool name config size u =
    elim (Option-cases (service_new env pool name config size)) [
      | inl e ↦ rw (e, new_checked) (inl (refl, refl, refl))
      | inr (pool', e) ↦
          let (low, high, short, room, (inbox, made, same), unique) =
            service_new_lem env pool name config size u e in
          rw (e, new_checked) (inr (inbox, made, refl, same, refl, unique))
    ]

-- `_new`, in a pool where no two routable services share a name, raises an error if the name or the source
-- is no string or the size of the mailbox is not an integer of 16 to 65536, and then leaves the pool as it
-- was and frees nothing. Otherwise, with the name that it is given, the empty one for nil, and the size, 1024
-- if there is none, either the new service of that name is the next of the pool, with a mailbox of
-- that size, nothing is freed and still no two routable services share a name; or it raises an error, leaves
-- the pool as it was and frees the configuration, if there is one.
pub lservice_new_lem :
    (env : NewEnv) (pool : Pool) (name source config : Arg) (istable : Bool) (field : Arg)
    → IsUnique pool
    → let out = lservice_new env pool name source config istable field in
      ((e : LuaError) × (out.result ≡ throws e)
        × (out.pool ≡ pool)
        × (out.freed ≡ [])
        × Rejected name source istable field)
      ⊎ ((n : List ℕ) × (size : ℕ) × Named name n
          × Sized istable field size
          × Made env pool n config.userdata size out)
unfolding lservice_new new_with
lservice_new_lem env pool name source config istable field u =
    elim (check_new-Checked name source istable field) [
      | inl (e, bad, why) ↦ inl (e, rw bad, rw bad, rw bad, why)
      | inr ((n, size), good, (named, sized)) ↦
          inr (n, size, named, sized, rw good (new_checked-Made env pool n config.userdata size u))
    ]
