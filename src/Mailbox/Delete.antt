-- ===== src/Mailbox/Delete.antt =====
-- What `mailbox_delete` frees.
use service_lua.Base.{
  ℕ, zero, suc, ◌+◌, ◌<◌, ◌≡◌, refl, ap, ◌∙◌, Option, List, [], ◌∷◌, ◌++◌, if◌then◌else◌, ◌==◌,
  arith, length, Bool-cases, inl, inr,
}
use service_lua.Message.{Message, message_dispose}
use service_lua.Mailbox.{Mailbox, mailbox_try_pop, mailbox_close, dispose_all, mailbox_delete}
use service_lua.Mailbox.Inv.{IsValid, mailbox_try_pop-IsValid, mailbox_close-IsValid}
use service_lua.Mailbox.Refine.{
  contents, dequeue, length-contents, contents-mailbox_close, mailbox_try_pop_refines,
}

-- The payloads of messages, in order; NULL is none.
unfoldable pub payloads : List Message → List ℕ
payloads [] = []
payloads (m ∷ ms) = let rest = payloads ms in if m.msg == 0 then rest else m.msg ∷ rest

pub payloads-cons :
    (m : Message) (ms : List Message) → (message_dispose m).0 ++ payloads ms ≡ payloads (m ∷ ms)
unfolding payloads message_dispose
payloads-cons m ms = elim (Bool-cases (m.msg == 0)) [ inl null ↦ rw null | inr held ↦ rw held ]

dispose_all-payloads :
    (f : ℕ) (b : Mailbox) (xs : List Message)
    → IsValid b
    → contents b ≡ xs
    → length xs < f
    → (dispose_all f b).0 ≡ payloads xs
unfolding dispose_all
dispose_all-payloads zero b xs v e h = absurd (omega arith)
dispose_all-payloads (suc f) b [] v e h =
    let step = mailbox_try_pop_refines b v ∙ ap dequeue e in
    rw (dispose_all, ap (λ (p : Option Message × List Message). p.0) step) (unfold payloads in refl)
dispose_all-payloads (suc f) b (m ∷ ms) v e h =
    let step = mailbox_try_pop_refines b v ∙ ap dequeue e in
    rw (dispose_all, ap (λ (p : Option Message × List Message). p.0) step)
      (ap (λ xs. (message_dispose m).0 ++ xs)
          (dispose_all-payloads f (mailbox_try_pop b).1 ms (mailbox_try_pop-IsValid b v)
            (ap (λ (p : Option Message × List Message). p.1) step) (omega arith))
        ∙ payloads-cons m ms)

-- `mailbox_delete` of a valid mailbox frees the payload of every message that waits, once, in the order
-- of the messages, and no other payload.
pub mailbox_delete_lem : (b : Mailbox) → IsValid b → mailbox_delete b ≡ payloads (contents b)
unfolding mailbox_delete
mailbox_delete_lem b v =
    dispose_all-payloads (b.count + 1) (mailbox_close b) (contents b) (mailbox_close-IsValid b v)
      (contents-mailbox_close b) (omega (arith, length-contents b))
