-- ===== src/Service/Init/Handles/Closed.antt =====
-- Which handles are closed, and what the result says of them.
use service_lua.Base.{
  ℕ, ◌≡◌, ◌↔◌, refl, ap, ap₂, sym, ◌∙◌, Bool, true, false, ◌&&◌, not, none, some, List, [], ◌∷◌,
  ◌++◌, if◌then◌else◌, append_assoc, append-nil, arith, Bool-cases, inl, inr,
}
use service_lua.Service.Types.{einval}
use service_lua.Service.Init.Handles.{
  LuvHandle, LuvTable, close_luv_handle, walk_handles, is_available, service_close_luv_handles,
}

-- The handle can be dealt with: it is closing, or it closes.
unfoldable pub is_fine : LuvHandle → Bool
is_fine h = elim h.closing [ none ↦ false | some closing ↦ if closing then true else h.closes ]

-- The handle is to be closed, and closes.
unfoldable pub is_closed : LuvHandle → Bool
is_closed h = elim h.closing [ none ↦ false | some closing ↦ not closing && h.closes ]

-- The numbers of the handles that are closed
unfoldable pub closed_ids : List LuvHandle → List ℕ
closed_ids [] = []
closed_ids (h ∷ hs) = let rest = closed_ids hs in if is_closed h then h.id ∷ rest else rest

unfoldable pub all_fine : List LuvHandle → Bool
all_fine [] = true
all_fine (h ∷ hs) = let rest = all_fine hs in if is_fine h then rest else false

abbrev error_of : Bool → ℕ → ℕ
error_of true error = error
error_of false error = einval

close_luv_handle_lem :
    (h : LuvHandle) (error : ℕ) (closed : List ℕ)
    → close_luv_handle h (error, closed)
      ≡ (error_of (is_fine h) error, closed ++ (if is_closed h then h.id ∷ [] else []))
unfolding close_luv_handle is_fine is_closed
close_luv_handle_lem h error closed = ground (arith, append-nil closed)

error_of-if :
    (a b : Bool) (error : ℕ)
    → error_of b (error_of a error) ≡ error_of (if a then b else false) error
error_of-if true b error = refl
error_of-if false true error = refl
error_of-if false false error = refl

closed_ids-cons :
    (h : LuvHandle) (hs : List LuvHandle)
    → (if is_closed h then h.id ∷ [] else []) ++ closed_ids hs ≡ closed_ids (h ∷ hs)
unfolding closed_ids
closed_ids-cons h hs = elim (Bool-cases (is_closed h)) [ inl yes' ↦ rw yes' | inr no' ↦ rw no' ]

error_iff : (w a : Bool) → ((if w then error_of a 0 else einval) ≡ 0) ↔ ((w ≡ true) × (a ≡ true))
error_iff w a = ground arith

walk_handles_lem :
    (hs : List LuvHandle) (error : ℕ) (closed : List ℕ)
    → walk_handles hs (error, closed) ≡ (error_of (all_fine hs) error, closed ++ closed_ids hs)
unfolding walk_handles all_fine
walk_handles_lem [] error closed =
    ap {B = ℕ × List ℕ} (λ xs. (error, xs)) (sym (unfold closed_ids in append-nil closed))
walk_handles_lem (h ∷ hs) error closed =
    ap (walk_handles hs) (close_luv_handle_lem h error closed)
    ∙ walk_handles_lem hs (error_of (is_fine h) error)
        (closed ++ (if is_closed h then h.id ∷ [] else []))
    ∙ ap₂ {C = ℕ × List ℕ} (λ e xs. (e, xs)) (error_of-if (is_fine h) (all_fine hs) error)
        (append_assoc closed (if is_closed h then h.id ∷ [] else []) (closed_ids hs)
          ∙ ap (λ xs. closed ++ xs) (closed_ids-cons h hs))

-- `service_close_luv_handles` of a state with luv in it tries every handle, whatever fails before; it
-- closes those that are not closing yet and can be closed, and returns 0 exactly if the walk went through
-- and every handle was closing or has been closed.
pub service_close_luv_handles_lem :
    (t : LuvTable)
    → is_available t ≡ true
    → let (error, closed) = service_close_luv_handles true t in
      (closed ≡ closed_ids t.handles)
      × ((error ≡ 0) ↔ ((t.walk_ok ≡ true) × (all_fine t.handles ≡ true)))
unfolding service_close_luv_handles
service_close_luv_handles_lem t here =
    rw (here, walk_handles_lem t.handles 0 []) (refl, error_iff t.walk_ok (all_fine t.handles))
