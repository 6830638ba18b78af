-- ===== src/Luv/Search.antt =====
-- The search of `find_luv_so`, against the list of the templates.
use service_lua.Base.{ℕ, Bool, Option, none, some, List, [], ◌∷◌, if◌then◌else◌, ◌==◌}
use service_lua.Luv.{readable_candidate}

abbrev cons_head : ℕ → List (List ℕ) → List (List ℕ)
cons_head c [] = (c ∷ []) ∷ []
cons_head c (t ∷ ts) = (c ∷ t) ∷ ts

-- The templates of a cpath: what stands between its semicolons.
unfoldable pub templates : List ℕ → List (List ℕ)
templates [] = [] ∷ []
templates (c ∷ cs) = let rest = templates cs in if c == 59 then [] ∷ rest else cons_head c rest

-- The first template that gives a path that can be read
unfoldable pub first_readable : (List ℕ → Bool) → ℕ → List (List ℕ) → Option (List ℕ)
first_readable readable out_size [] = none
first_readable readable out_size (t ∷ ts) = elim (readable_candidate readable out_size t) [
  | some path ↦ some path
  | none ↦ first_readable readable out_size ts
]

-- The templates behind a separator, if there is one
abbrev behind : Option (List ℕ) → List (List ℕ)
behind none = []
behind (some next) = templates next
