-- ===== src/Log/Names.antt =====
-- The names of levels and formats, printed and parsed.
use service_lua.Base.{
  ℕ, zero, suc, ◌+◌, ◌≡◌, refl, ◌∙◌, true, some, List, [], ◌∷◌, arith, ◌==◌, Bool-cases, inl, inr,
  ==_iff,
}
use service_lua.Log.{
  to_lower, same_ignoring_case, parse_from, log_parse_level, log_parse_format, log_level_name,
  log_format_name, codes, level_names, format_names,
}

-- A name that differs in case only is found where the other is.
same_head :
    (a b : ℕ) (as' bs : List ℕ)
    → same_ignoring_case (a ∷ as') (b ∷ bs) ≡ true
    → (to_lower a ≡ to_lower b) × (same_ignoring_case as' bs ≡ true)
unfolding same_ignoring_case
same_head a b as' bs h = elim (Bool-cases (to_lower a == to_lower b)) [
  | inl same ↦ ((==_iff (to_lower a) (to_lower b)).0 same, rw same at h)
  | inr other ↦ cc (rw other at h)
]

same_ignoring_case-cong :
    (a b c : List ℕ)
    → same_ignoring_case a b ≡ true
    → same_ignoring_case a c ≡ same_ignoring_case b c
unfolding same_ignoring_case
same_ignoring_case-cong [] [] c h = refl
same_ignoring_case-cong [] (y ∷ b) c h = cc h
same_ignoring_case-cong (x ∷ a) [] c h = cc h
same_ignoring_case-cong (x ∷ a) (y ∷ b) [] h = refl
same_ignoring_case-cong (x ∷ a) (y ∷ b) (z ∷ c) h =
    let (e, rest) = same_head x y a b h in rw (e, same_ignoring_case-cong a b c rest)

parse_from-cong :
    (a b : List ℕ) (i : ℕ) (names : List (List ℕ))
    → same_ignoring_case a b ≡ true
    → parse_from i a names ≡ parse_from i b names
unfolding parse_from
parse_from-cong a b i [] h = refl
parse_from-cong a b i (n ∷ names) h =
    rw (same_ignoring_case-cong a b n h, parse_from-cong a b (i + 1) names h)

same_some :
    (m n : List ℕ) (l : ℕ) (names : List (List ℕ))
    → parse_from 0 m names ≡ some l
    → some m ≡ some n
    → parse_from 0 n names ≡ some l
same_some m n l names found e = cc (found, e)

own_level : (l : ℕ) (n : List ℕ) → log_level_name l ≡ some n → parse_from 0 n level_names ≡ some l
unfolding log_level_name parse_from same_ignoring_case
own_level zero n e = same_some (codes "debug") n 0 level_names refl e
own_level (suc zero) n e = same_some (codes "info") n 1 level_names refl e
own_level (suc (suc zero)) n e = same_some (codes "warn") n 2 level_names refl e
own_level (suc (suc (suc zero))) n e = same_some (codes "error") n 3 level_names refl e
own_level (suc (suc (suc (suc zero)))) n e = same_some (codes "off") n 4 level_names refl e
own_level (suc (suc (suc (suc (suc l))))) n e = ground arith

own_format :
    (l : ℕ) (n : List ℕ) → log_format_name l ≡ some n → parse_from 0 n format_names ≡ some l
unfolding log_format_name parse_from same_ignoring_case
own_format zero n e = same_some (codes "text") n 0 format_names refl e
own_format (suc zero) n e = same_some (codes "journal") n 1 format_names refl e
own_format (suc (suc l)) n e = ground arith

-- The name of a level, in any case, is parsed as that level.
pub log_parse_level-log_level_name :
    (level : ℕ) (n name : List ℕ)
    → log_level_name level ≡ some n
    → same_ignoring_case name n ≡ true
    → log_parse_level (some name) ≡ some level
unfolding log_parse_level
log_parse_level-log_level_name level n name e h =
    parse_from-cong name n 0 level_names h ∙ own_level level n e

-- The name of a format, in any case, is parsed as that format.
pub log_parse_format-log_format_name :
    (format : ℕ) (n name : List ℕ)
    → log_format_name format ≡ some n
    → same_ignoring_case name n ≡ true
    → log_parse_format (some name) ≡ some format
unfolding log_parse_format
log_parse_format-log_format_name format n name e h =
    parse_from-cong name n 0 format_names h ∙ own_format format n e

-- The name of a level and the name of a format, each in any case, are parsed as that level and that format.
pub log_parse-log_name :
    (level format : ℕ) (n m name other : List ℕ)
    → log_level_name level ≡ some n
    → same_ignoring_case name n ≡ true
    → log_format_name format ≡ some m
    → same_ignoring_case other m ≡ true
    → (log_parse_level (some name) ≡ some level) × (log_parse_format (some other) ≡ some format)
log_parse-log_name level format n m name other e h e' h' = (
  log_parse_level-log_level_name level n name e h,
  log_parse_format-log_format_name format m other e' h',
)
