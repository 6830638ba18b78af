-- ===== src/Service/Dispatch/Batch.antt =====
-- One batch of messages, handed to Lua.
use service_lua.Base.{
  ℕ, zero, suc, ◌≡◌, refl, ap, sym, ◌∙◌, Bool, true, false, Option, none, some, List, [], ◌∷◌, ◌++◌,
  length, ltb, inl, inr, Bool-cases,
}
use service_lua.Message.{Message}
use service_lua.Mailbox.{Mailbox, mailbox_try_pop, raise_threshold, push_fuel}
use service_lua.Mailbox.Inv.{IsValid, popped, mailbox_try_pop-IsValid}
use service_lua.Mailbox.Refine.{contents, dequeue, mailbox_try_pop_refines}
use service_lua.Service.Dispatch.{on_msg}
use service_lua.Service.Dispatch.Wake.{pop-unscheduled}

raise_threshold-closed : (f : ℕ) (b : Mailbox) → (raise_threshold f b).closed ≡ b.closed
unfolding raise_threshold
raise_threshold-closed zero b = refl
raise_threshold-closed (suc f) b = elim (Bool-cases (ltb b.overload_threshold b.count)) [
  | inl more ↦ rw (more, raise_threshold) (raise_threshold-closed f _)
  | inr done ↦ rw (done, raise_threshold)
]

pop-closed : (b : Mailbox) → (mailbox_try_pop b).1.closed ≡ b.closed
unfolding mailbox_try_pop
pop-closed b = elim (Bool-cases (ltb 0 b.count)) [
  | inl more ↦ rw more (raise_threshold-closed push_fuel (popped b))
  | inr nothing ↦ rw nothing
]

-- What is left by a batch that was used up, and by one that was not
abbrev pub Left : Bool → ℕ → List Message → Mailbox → Type 0
Left true n ms b = length ms ≡ n
Left false n ms b = (contents b ≡ []) × (b.scheduled ≡ false)

-- A run of the handler over the mailbox `b`
pub record Handled (n : ℕ) (b : Mailbox) (out : List Message × Bool × Mailbox) : Type 0 where
  pub split : out.0 ++ contents out.2 ≡ contents b
  pub valid : IsValid out.2
  pub same : out.2.closed ≡ b.closed
  pub left : Left out.1 n out.0 out.2

on_msg-none :
    (n : ℕ) (b : Mailbox)
    → (mailbox_try_pop b).0 ≡ none
    → on_msg (suc n) b ≡ ([], false, (mailbox_try_pop b).1)
unfolding on_msg
on_msg-none n b e = rw (on_msg, e)

on_msg-some :
    (n : ℕ) (b : Mailbox) (m : Message)
    → (mailbox_try_pop b).0 ≡ some m
    → on_msg (suc n) b ≡ (
      m ∷ (on_msg n (mailbox_try_pop b).1).0,
      (on_msg n (mailbox_try_pop b).1).1,
      (on_msg n (mailbox_try_pop b).1).2,
    )
unfolding on_msg
on_msg-some n b m e = rw (on_msg, e)

Left-cons :
    (full : Bool) (n : ℕ) (m : Message) (ms : List Message) (b : Mailbox)
    → Left full n ms b
    → Left full (suc n) (m ∷ ms) b
Left-cons true n m ms b h = ap suc h
Left-cons false n m ms b h = h

pub on_msg-Handled : (n : ℕ) (b : Mailbox) → IsValid b → Handled n b (on_msg n b)
unfolding on_msg
on_msg-Handled zero b v = record { split = refl; valid = v; same = refl; left = refl }
on_msg-Handled (suc n) b v =
    let step = mailbox_try_pop_refines b v in
    let ih = on_msg-Handled n (mailbox_try_pop b).1 (mailbox_try_pop-IsValid b v) in
    popped_cases (contents b) refl step ih
  where
    popped_cases :
        (xs : List Message)
        → contents b ≡ xs
        → ((mailbox_try_pop b).0, contents (mailbox_try_pop b).1) ≡ dequeue (contents b)
        → Handled n (mailbox_try_pop b).1 (on_msg n (mailbox_try_pop b).1)
        → Handled (suc n) b (on_msg (suc n) b)
    popped_cases [] e step ih =
        let popped = step ∙ ap dequeue e in
        let nothing = ap (λ (p : Option Message × List Message). p.0) popped in
        let empty = ap (λ (p : Option Message × List Message). p.1) popped in
        rw (on_msg-none n b nothing) (record {
          split = empty ∙ sym e;
          valid = mailbox_try_pop-IsValid b v;
          same = pop-closed b;
          left = (empty, pop-unscheduled b nothing);
        })
    popped_cases (m ∷ ms) e step ih =
        let popped = step ∙ ap dequeue e in
        let taken = ap (λ (p : Option Message × List Message). p.0) popped in
        let rest = ap (λ (p : Option Message × List Message). p.1) popped in
        rw (on_msg-some n b m taken) (record {
          split = ap (λ xs. m ∷ xs) (ih.split ∙ rest) ∙ sym e;
          valid = ih.valid;
          same = ih.same ∙ pop-closed b;
          left = Left-cons _ n m _ _ ih.left;
        })
