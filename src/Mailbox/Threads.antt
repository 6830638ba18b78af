-- ===== src/Mailbox/Threads.antt =====
-- Any number of threads around one mailbox: each stretch that src/mailbox.c runs under the lock is a step.
mod Tests
use service_lua.Base.{
  ℕ, suc, ◌*◌, ◌≤◌, ◌<◌, ◌≡◌, ◌⊎◌, ◌≢◌, refl, ap, sym, ◌∙◌, Bool, true, false, Option, none, some,
  List, [], ◌∷◌, ◌++◌, arith, length, if◌then◌else◌, ◌==◌, ==_iff, not, ◌&&◌, leb, leb→le,
  Bool-cases, Option-cases, inl, inr, append_assoc, append-nil,
}
use service_lua.Message.{Message}
use service_lua.Mailbox.{
  MailboxResult, Mailbox, Section, mailbox_new, push_section, push_commit, grow_locked, relock,
  allocate_spare, mailbox_try_pop, mailbox_finish_batch, mailbox_overload, mailbox_close,
  max_capacity,
}
use service_lua.Mailbox.Inv.{
  IsValid, max_items, mailbox_new-IsValid, mailbox_try_pop-IsValid, mailbox_finish_batch-IsValid,
  mailbox_overload-IsValid, mailbox_close-IsValid,
}
use service_lua.Mailbox.Refine.{
  contents, dequeue, mailbox_try_pop_refines, contents-mailbox_new, contents-mailbox_finish_batch,
  contents-mailbox_overload, contents-mailbox_close,
}
use service_lua.Mailbox.Locked.{Effect, Fits, Sound, push_section-Sound}

-- A thread outside `mailbox_try_push`, or in it with the lock let go, to allocate for the capacity seen
pub data Thread : Type 0 where
  idle : Thread
  allocating : Message → ℕ → Thread

-- `sent` are the messages that a push has returned MAILBOX_OK for, and `taken` those that a pop has handed
-- out, in the order of the locked stretches.
pub record Shared : Type 0 where
  pub box : Mailbox
  pub threads : ℕ → Thread
  pub sent : List Message
  pub taken : List Message

abbrev pub enter : (ℕ → Thread) → ℕ → Thread → ℕ → Thread
enter threads i t j = if j == i then t else threads j

abbrev pub left : Section → Message → Thread
left (Section.allocate c) m = allocating m c
left (Section.return r notify) m = idle

abbrev pub accepted : Section → Message → List Message
accepted (Section.return MailboxResult.ok notify) m = m ∷ []
accepted _ m = []

abbrev pub popped_one : Option Message → List Message
popped_one none = []
popped_one (some m) = m ∷ []

-- Behind a stretch of `mailbox_try_push` by thread `i`
abbrev pub ran : Shared → ℕ → Message → Section × Mailbox → Shared
ran w i m (sec, b) = record w {
  box = b;
  threads = enter w.threads i (left sec m);
  sent = w.sent ++ accepted sec m;
}

pub data Stretch (w : Shared) : Shared → Type 0 where
  push :
      (i : ℕ) (m : Message) → w.threads i ≡ idle → Stretch w (ran w i m (push_section w.box m none))
  allocated :
      (i c : ℕ) (m : Message) (malloc : ℕ → Option (List Message)) (spare : List Message)
      → w.threads i ≡ allocating m c
      → allocate_spare malloc c ≡ some spare
      → length spare ≡ c * 2
      → Stretch w (ran w i m (relock w.box m c spare))
  refused :
      (i c : ℕ) (m : Message) (malloc : ℕ → Option (List Message))
      → w.threads i ≡ allocating m c
      → allocate_spare malloc c ≡ none
      → Stretch w (record w { threads = enter w.threads i idle })
  pop : Stretch w (record w {
    box = (mailbox_try_pop w.box).1;
    taken = w.taken ++ popped_one (mailbox_try_pop w.box).0;
  })
  finish : Stretch w (record w { box = (mailbox_finish_batch w.box).1 })
  overload : Stretch w (record w { box = (mailbox_overload w.box).1 })
  close : Stretch w (record w { box = mailbox_close w.box })

pub data Reach : Shared → Type 0 where
  start :
      (capacity : ℕ) {b : Mailbox}
      → capacity ≤ max_items
      → mailbox_new true true capacity ≡ some b
      → Reach (record { box = b; threads = λ _. idle; sent = []; taken = [] })
  next : {w x : Shared} → Reach w → Stretch w x → Reach x

pub record Inv (w : Shared) : Type 0 where
  pub valid : IsValid w.box
  pub in_order : w.sent ≡ w.taken ++ contents w.box

Sound-IsValid :
    (seen : Mailbox) (m : Message) (sec : Section × Mailbox)
    → IsValid seen
    → Sound seen m sec
    → IsValid sec.1
Sound-IsValid seen m (Section.allocate c, b) v s = rw (s.1) v
Sound-IsValid seen m (Section.return MailboxResult.ok n, b) v ((_, _, _, _, _, w), _) = w
Sound-IsValid seen m (Section.return MailboxResult.full n, b) v ((_, _, w), _) = w
Sound-IsValid seen m (Section.return MailboxResult.closed n, b) v ((_, _, _, w), _) = w

Sound-contents :
    (seen : Mailbox) (m : Message) (sec : Section × Mailbox)
    → Sound seen m sec
    → contents sec.1 ≡ contents seen ++ accepted sec.0 m
Sound-contents seen m (Section.allocate c, b) s = ap contents s.1 ∙ sym (append-nil _)
Sound-contents seen m (Section.return MailboxResult.ok n, b) ((_, e, _, _, _, _), _) = e
Sound-contents seen m (Section.return MailboxResult.full n, b) ((_, e, _), _) =
    ap contents e ∙ sym (append-nil _)
Sound-contents seen m (Section.return MailboxResult.closed n, b) ((_, _, e, _), _) =
    ap contents e ∙ sym (append-nil _)

ran-Inv :
    (w : Shared) (i : ℕ) (m : Message) (sec : Section × Mailbox)
    → Sound w.box m sec
    → Inv w
    → Inv (ran w i m sec)
ran-Inv w i m sec s v = record {
  valid = Sound-IsValid w.box m sec v.valid s;
  in_order =
      ap (λ xs. xs ++ accepted sec.0 m) v.in_order
      ∙ append_assoc w.taken (contents w.box) (accepted sec.0 m)
      ∙ ap (λ xs. w.taken ++ xs) (sym (Sound-contents w.box m sec s));
}

-- A buffer that was allocated fits the mailbox, where its capacity is the one that was seen.
pub allocate_spare-small :
    (malloc : ℕ → Option (List Message)) (c : ℕ) (g : List Message)
    → allocate_spare malloc c ≡ some g
    → c ≤ max_capacity
unfolding allocate_spare
allocate_spare-small malloc c g got = elim (Bool-cases (leb c max_capacity)) [
  | inl small ↦ leb→le c max_capacity small
  | inr big ↦ cc (rw big at got)
]

pub kept-Fits :
    (b : Mailbox) (c : ℕ) (g : List Message)
    → length g ≡ c * 2
    → c ≤ max_capacity
    → Fits (if b.capacity == c then some g else none) b
kept-Fits b c g len small = elim (Bool-cases (b.capacity == c)) [
  | inl same ↦ rw same (
    omega (arith, len, (==_iff b.capacity c).0 same),
    omega (arith, small, (==_iff b.capacity c).0 same),
  )
  | inr other ↦ rw other tt
]

pub relock-Sound :
    (b : Mailbox) (m : Message) (c : ℕ) (g : List Message)
    → IsValid b
    → length g ≡ c * 2
    → c ≤ max_capacity
    → Sound b m (relock b m c g)
unfolding relock
relock-Sound b m c g v len small = push_section-Sound b m _ v (kept-Fits b c g len small)

popped_one-dequeue : (xs : List Message) → xs ≡ popped_one (dequeue xs).0 ++ (dequeue xs).1
popped_one-dequeue [] = refl
popped_one-dequeue (x ∷ xs) = refl

pop-contents :
    (b : Mailbox)
    → IsValid b
    → contents b ≡ popped_one (mailbox_try_pop b).0 ++ contents (mailbox_try_pop b).1
pop-contents b v =
    popped_one-dequeue (contents b)
    ∙ ap (λ p. popped_one p.0 ++ p.1) (sym (mailbox_try_pop_refines b v))

pub Stretch-Inv : {w x : Shared} → Stretch w x → Inv w → Inv x
Stretch-Inv {w} (push i m e) v = ran-Inv w i m _ (push_section-Sound w.box m none v.valid tt) v
Stretch-Inv {w} (allocated i c m malloc g e got len) v =
    ran-Inv w i m _ (relock-Sound w.box m c g v.valid len (allocate_spare-small malloc c g got)) v
Stretch-Inv {w} (refused i c m malloc e got) v = record { valid = v.valid; in_order = v.in_order }
Stretch-Inv {w} pop v = record {
  valid = mailbox_try_pop-IsValid w.box v.valid;
  in_order =
      v.in_order
      ∙ ap (λ xs. w.taken ++ xs) (pop-contents w.box v.valid)
      ∙ sym (append_assoc w.taken _ _);
}
Stretch-Inv {w} finish v = record {
  valid = mailbox_finish_batch-IsValid w.box v.valid;
  in_order = v.in_order ∙ ap (λ xs. w.taken ++ xs) (sym (contents-mailbox_finish_batch w.box));
}
Stretch-Inv {w} overload v = record {
  valid = mailbox_overload-IsValid w.box v.valid;
  in_order = v.in_order ∙ ap (λ xs. w.taken ++ xs) (sym (contents-mailbox_overload w.box));
}
Stretch-Inv {w} close v = record {
  valid = mailbox_close-IsValid w.box v.valid;
  in_order = v.in_order ∙ ap (λ xs. w.taken ++ xs) (sym (contents-mailbox_close w.box));
}

-- However the locked stretches of any number of threads interleave that push, pop, end a batch, ask for an
-- overload or close, the mailbox is a queue: the messages that pushes have returned MAILBOX_OK for are, in
-- this order, those that pops have handed out and then those that wait. None is lost, doubled or overtaken,
-- and the mailbox stays valid.
pub sent-taken : {w : Shared} → Reach w → IsValid w.box × (w.sent ≡ w.taken ++ contents w.box)
sent-taken (start capacity small made) =
    (mailbox_new-IsValid capacity small made, sym (contents-mailbox_new true true capacity made))
sent-taken (next r s) =
    let (valid, in_order) = sent-taken r in
    let v = Stretch-Inv s (record { valid = valid; in_order = in_order }) in (v.valid, v.in_order)
