-- ===== src/Log/Write.antt =====
-- What reaches the standard error of the process when `write` takes a line in parts.
use service_lua.Base.{
  ℕ, ◌≡◌, ◌⊎◌, refl, ap, sym, ◌∙◌, false, List, [], ◌∷◌, ◌++◌, take, drop, inl, inr, append_assoc,
  take-append-drop,
}
use service_lua.Log.{WriteResult, write_all}

-- One of the calls has failed, with an error other than EINTR.
abbrev pub HasFailed : List WriteResult → Type 0
HasFailed [] = ⊥
HasFailed (WriteResult.failed ∷ answers) = Unit
HasFailed (WriteResult.wrote n ∷ answers) = HasFailed answers
HasFailed (WriteResult.interrupted ∷ answers) = HasFailed answers

-- However `write` takes the bytes, `write_all` writes them from the front, in order, each once: what it has
-- written, and what is left, are the line; and if it has ended, nothing is left, or a call has failed.
pub write_all_lem :
    (answers : List WriteResult) (bytes : List ℕ)
    → let (out, done) = write_all answers bytes in
      (rest : List ℕ) × (bytes ≡ out ++ rest) × ((done ≡ false) ⊎ ((rest ≡ []) ⊎ HasFailed answers))
unfolding write_all
write_all_lem answers [] = ([], refl, inr (inl refl))
write_all_lem [] (c ∷ cs) = (c ∷ cs, refl, inl refl)
write_all_lem (WriteResult.wrote n ∷ answers) (c ∷ cs) =
    let (rest, split, ended) = write_all_lem answers (drop n (c ∷ cs)) in
    (
      rest,
      sym (take-append-drop n (c ∷ cs))
          ∙ ap (λ ys. take n (c ∷ cs) ++ ys) split
          ∙ sym (append_assoc (take n (c ∷ cs)) (write_all answers (drop n (c ∷ cs))).0 rest),
      ended,
    )
write_all_lem (WriteResult.interrupted ∷ answers) (c ∷ cs) = write_all_lem answers (c ∷ cs)
write_all_lem (WriteResult.failed ∷ answers) (c ∷ cs) = (c ∷ cs, refl, inr (inr tt))
