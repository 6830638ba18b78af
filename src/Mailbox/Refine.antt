-- ===== src/Mailbox/Refine.antt =====
-- The mailbox as a queue: which messages it holds, in order, after each function.
use service_lua.Base.{
  not, ◌&&◌, ℕ, zero, suc, ◌+◌, ◌-◌, ◌*◌, ◌%◌, ◌≤◌, ◌<◌, ◌≡◌, refl, Bool, false, Option, none, some,
  List, [], ◌∷◌, ◌++◌, arith, length, add_size, ltb, Bool-cases, inl, inr, ap, ◌∙◌, ltb→lt,
  ltb-false→le,
}
use service_lua.Message.{Message}
use service_lua.Mailbox.{
  Mailbox, grow_locked, push_commit, raise_threshold, mailbox_new, mailbox_try_pop, mailbox_close,
  mailbox_overload, mailbox_finish_batch, max_capacity, push_fuel,
}
use service_lua.Mailbox.Slots.{
  length-slots, slots, slot, slots-eq-nil, slots-set, slots-tail, slots-copy_items,
}
use service_lua.Mailbox.Inv.{IsValid, popped}
use native.Mathlib.Nat.{mod-eq_of_lt}

-- The messages waiting, oldest first.
unfoldable pub contents : Mailbox → List Message
contents b = slots b.items b.capacity b.head 0 b.count

pub length-contents : (b : Mailbox) → length (contents b) ≡ b.count
unfolding contents
length-contents b = length-slots b.items b.capacity b.head 0 b.count

pub contents-mailbox_overload : (b : Mailbox) → contents (mailbox_overload b).1 ≡ contents b
unfolding contents mailbox_overload
contents-mailbox_overload b = refl

pub contents-mailbox_finish_batch : (b : Mailbox) → contents (mailbox_finish_batch b).1 ≡ contents b
unfolding contents mailbox_finish_batch
contents-mailbox_finish_batch b = elim (Bool-cases (not b.closed && ltb 0 b.count)) [
  | inl more ↦ rw more
  | inr done ↦ rw done
]

pub contents-eq-nil : (b : Mailbox) → b.count ≡ 0 → contents b ≡ []
unfolding contents
contents-eq-nil b e = slots-eq-nil b.items b.capacity b.head 0 b.count e

pub contents-mailbox_close : (b : Mailbox) → contents (mailbox_close b) ≡ contents b
unfolding contents mailbox_close
contents-mailbox_close b = refl

pub contents-mailbox_new :
    (box_ok items_ok : Bool) (cap : ℕ) {b : Mailbox}
    → mailbox_new box_ok items_ok cap ≡ some b
    → contents b ≡ []
unfolding mailbox_new contents
contents-mailbox_new box_ok items_ok cap {b} e = slots-eq-nil _ _ _ _ _ (ground arith)

pub contents-push_commit :
    (b : Mailbox) (m : Message)
    → IsValid b
    → b.closed ≡ false
    → b.count < b.capacity
    → contents (push_commit b m).2 ≡ contents b ++ (m ∷ [])
unfolding push_commit contents
contents-push_commit b m v live room =
    let e : add_size b.count 1 ≡ suc b.count = omega arith in
    rw (live, e)
      (slots-set b.items b.capacity b.head b.count b.tail m v.buffer v.head_in room v.tail_at)

-- In a valid mailbox whose capacity may be doubled, `grow_locked` into a buffer of twice the size
-- keeps the messages that wait, in their order, wherever the oldest one stands.
pub contents-grow_locked :
    (b : Mailbox) (g : List Message)
    → IsValid b
    → b.capacity ≤ max_capacity
    → length g ≡ b.capacity * 2
    → contents (grow_locked b g).0 ≡ contents b
unfolding grow_locked contents
contents-grow_locked b g v small len =
    slots-copy_items b.items b.capacity _ b.head b.count g v.head_in v.count_in (omega arith)
      (omega arith) (omega arith)

pub contents-raise_threshold : (f : ℕ) (b : Mailbox) → contents (raise_threshold f b) ≡ contents b
unfolding raise_threshold contents
contents-raise_threshold zero b = refl
contents-raise_threshold (suc f) b = elim (Bool-cases (ltb b.overload_threshold b.count)) [
  | inl more ↦ rw (more, raise_threshold) (contents-raise_threshold f _)
  | inr done ↦ rw (done, raise_threshold)
]

-- The specification of `mailbox_try_pop`: the oldest message goes.
abbrev pub dequeue : List Message → Option Message × List Message
dequeue [] = (none, [])
dequeue (m ∷ ms) = (some m, ms)

contents-cons :
    (b : Mailbox) → IsValid b → 0 < b.count → contents b ≡ slot b.items b.head ∷ contents (popped b)
unfolding contents
contents-cons b v pos =
    let e : b.count ≡ suc (b.count - 1) = omega arith in
    let f : add_size b.head 1 ≡ b.head + 1 = omega arith in
    let h : b.head % b.capacity ≡ b.head = mod-eq_of_lt v.head_in in
    rw f (
      ap (slots b.items b.capacity b.head 0) e
      ∙ slots-tail b.items b.capacity b.head (b.count - 1)
      ∙ rw h)

-- `mailbox_try_pop` of a valid mailbox hands out the message that has waited longest, or none if
-- none waits, and the other messages stay, in their order.
pub mailbox_try_pop_refines :
    (b : Mailbox)
    → IsValid b
    → let (out, b') = mailbox_try_pop b in (out, contents b') ≡ dequeue (contents b)
unfolding mailbox_try_pop
mailbox_try_pop_refines b v = elim (Bool-cases (ltb 0 b.count)) [
  | inl more ↦
      rw (more, contents-cons b v (ltb→lt _ _ more), contents-raise_threshold push_fuel (popped b))
  | inr none_left ↦ rw none_left (
      unfold contents in
      (rw (slots-eq-nil b.items b.capacity b.head 0 b.count (omega (arith, ltb-false→le)))))
]
