-- ===== src/Mailbox/Fair.antt =====
-- What the other threads make of a mailbox between two stretches of one thread.
use service_lua.Base.{
  ℕ, zero, suc, ◌*◌, ◌≤◌, ◌≡◌, ◌⊎◌, refl, ◌∙◌, true, Option, none, some, List, ◌++◌, arith, length,
  ◌==◌, not, ◌&&◌, ltb, Bool-cases, inl, inr, append-nil,
}
use service_lua.Message.{Message}
use service_lua.Mailbox.{
  MailboxResult, Mailbox, Section, push_section, push_commit, grow_locked, relock, mailbox_try_pop,
  raise_threshold, push_fuel, mailbox_finish_batch, mailbox_overload, mailbox_close, max_capacity,
}
use service_lua.Mailbox.Inv.{IsValid}
use service_lua.Mailbox.Locked.{Fits, Sound, push_section-Sound}
use service_lua.Mailbox.Threads.{
  Shared, Stretch, push, allocated, refused, pop, finish, overload, close, Reach, Inv, sent-taken,
  accepted, relock-Sound, allocate_spare-small, kept-Fits,
}

-- Some steps, one behind the other
pub data Steps : Shared → Shared → Type 0 where
  done : {w : Shared} → Steps w w
  more : {w x y : Shared} → Stretch w x → Steps x y → Steps w y

-- The buffer is kept or grows, to twice its size at least.
abbrev pub Grows : Mailbox → Mailbox → Type 0
Grows b b' = (b'.capacity ≡ b.capacity) ⊎ (2 * b.capacity ≤ b'.capacity)

push_commit-capacity : (b : Mailbox) (m : Message) → (push_commit b m).2.capacity ≡ b.capacity
unfolding push_commit
push_commit-capacity b m = ground arith

grow_locked-capacity :
    (b : Mailbox) (g : List Message)
    → b.capacity ≤ max_capacity
    → (grow_locked b g).0.capacity ≡ b.capacity * 2
unfolding grow_locked
grow_locked-capacity b g small = omega (arith, small)

push_section-Grows :
    (b : Mailbox) (m : Message) (spare : Option (List Message))
    → Fits spare b
    → Grows b (push_section b m spare).1
unfolding push_section
push_section-Grows b m none fits = elim (Bool-cases (not b.closed && b.count == b.capacity)) [
  | inl full ↦ rw full (inl refl)
  | inr room ↦ rw room (inl (push_commit-capacity b m))
]
push_section-Grows b m (some g) fits = elim (Bool-cases (not b.closed && b.count == b.capacity)) [
  | inl full ↦ rw full (
      inr (
        omega (arith, push_commit-capacity (grow_locked b g).0 m, grow_locked-capacity b g fits.1)))
  | inr room ↦ rw room (inl (push_commit-capacity b m))
]

relock-Grows :
    (b : Mailbox) (m : Message) (c : ℕ) (g : List Message)
    → length g ≡ c * 2
    → c ≤ max_capacity
    → Grows b (relock b m c g).1
unfolding relock
relock-Grows b m c g len small = push_section-Grows b m _ (kept-Fits b c g len small)

raise_threshold-rest :
    (f : ℕ) (b : Mailbox)
    → ((raise_threshold f b).capacity ≡ b.capacity) × ((raise_threshold f b).closed ≡ b.closed)
unfolding raise_threshold
raise_threshold-rest zero b = (refl, refl)
raise_threshold-rest (suc f) b = elim (Bool-cases (ltb b.overload_threshold b.count)) [
  | inl over ↦ rw (over, raise_threshold) (raise_threshold-rest f _)
  | inr under ↦ rw (under, raise_threshold) (refl, refl)
]

pop-rest :
    (b : Mailbox)
    → ((mailbox_try_pop b).1.capacity ≡ b.capacity) × ((mailbox_try_pop b).1.closed ≡ b.closed)
unfolding mailbox_try_pop
pop-rest b = elim (Bool-cases (ltb 0 b.count)) [
  | inl some_left ↦ rw some_left (raise_threshold-rest push_fuel _)
  | inr empty ↦ rw empty (refl, refl)
]

finish-rest :
    (b : Mailbox)
    → ((mailbox_finish_batch b).1.capacity ≡ b.capacity)
      × ((mailbox_finish_batch b).1.closed ≡ b.closed)
unfolding mailbox_finish_batch
finish-rest b = ground arith

Stretch-Grows : {w x : Shared} → Stretch w x → Grows w.box x.box
unfolding mailbox_overload mailbox_close
Stretch-Grows {w} (push i m e) = push_section-Grows w.box m none tt
Stretch-Grows {w} (allocated i c m malloc g e got len) =
    relock-Grows w.box m c g len (allocate_spare-small malloc c g got)
Stretch-Grows {w} (refused i c m malloc e got) = inl refl
Stretch-Grows {w} pop = inl (pop-rest w.box).0
Stretch-Grows {w} finish = inl (finish-rest w.box).0
Stretch-Grows {w} overload = inl refl
Stretch-Grows {w} close = inl refl

Grows-trans : (a b c : Mailbox) → Grows a b → Grows b c → Grows a c
Grows-trans a b c (inl e) (inl f) = inl (f ∙ e)
Grows-trans a b c (inl e) (inr f) = inr (omega (arith, e, f))
Grows-trans a b c (inr e) (inl f) = inr (omega (arith, e, f))
Grows-trans a b c (inr e) (inr f) = inr (omega (arith, e, f))

-- A closed mailbox takes no message, and stays closed.
abbrev Shut : Shared → Shared → Type 0
Shut w x = w.box.closed ≡ true → (x.box.closed ≡ true) × (x.sent ≡ w.sent)

Sound-Shut :
    (b : Mailbox) (m : Message) (sent : List Message) (sec : Section × Mailbox)
    → Sound b m sec
    → b.closed ≡ true
    → (sec.1.closed ≡ true) × (sent ++ accepted sec.0 m ≡ sent)
Sound-Shut b m sent (Section.allocate c, x) s shut = (rw (s.1) shut, append-nil sent)
Sound-Shut b m sent (Section.return MailboxResult.ok n, x) ((live, _, _, _, _, _), _) shut =
    absurd (ground (arith, live, shut))
Sound-Shut b m sent (Section.return MailboxResult.full n, x) ((_, e, _), _) shut =
    (rw e shut, append-nil sent)
Sound-Shut b m sent (Section.return MailboxResult.closed n, x) ((_, _, e, _), _) shut =
    (rw e shut, append-nil sent)

Stretch-Shut : {w x : Shared} → Inv w → Stretch w x → Shut w x
unfolding mailbox_overload mailbox_close
Stretch-Shut {w} v (push i m e) =
    Sound-Shut w.box m w.sent _ (push_section-Sound w.box m none v.valid tt)
Stretch-Shut {w} v (allocated i c m malloc g e got len) =
    Sound-Shut w.box m w.sent _
      (relock-Sound w.box m c g v.valid len (allocate_spare-small malloc c g got))
Stretch-Shut {w} v (refused i c m malloc e got) = λ shut. (shut, refl)
Stretch-Shut {w} v pop = λ shut. ((pop-rest w.box).1 ∙ shut, refl)
Stretch-Shut {w} v finish = λ shut. ((finish-rest w.box).1 ∙ shut, refl)
Stretch-Shut {w} v overload = λ shut. (shut, refl)
Stretch-Shut {w} v close = λ shut. (refl, refl)

pub Steps-Reach : {w x : Shared} → Reach w → Steps w x → Reach x
Steps-Reach r done = r
Steps-Reach r (more s ss) = Steps-Reach (Reach.next r s) ss

Steps-Grows : {w x : Shared} → Steps w x → Grows w.box x.box
Steps-Grows done = inl refl
Steps-Grows {w} {x} (more {x = y} s ss) =
    Grows-trans w.box y.box x.box (Stretch-Grows s) (Steps-Grows ss)

Steps-Shut : {w x : Shared} → Reach w → Steps w x → Shut w x
Steps-Shut r done = λ shut. (shut, refl)
Steps-Shut r (more s ss) = λ shut.
    let (valid, in_order) = sent-taken r in
    let (shut', same) = Stretch-Shut (record { valid = valid; in_order = in_order }) s shut in
    let (shut'', same') = Steps-Shut (Reach.next r s) ss shut' in (shut'', same' ∙ same)

-- What the locked stretches of other threads make of a mailbox, however many there are: it stays valid, its
-- buffer is kept or grows to twice its size at least, and once it is closed it stays closed and no push
-- returns MAILBOX_OK.
pub steps_fair :
    {w x : Shared}
    → Reach w
    → Steps w x
    → IsValid x.box
      × ((x.box.capacity ≡ w.box.capacity) ⊎ (2 * w.box.capacity ≤ x.box.capacity))
      × (w.box.closed ≡ true → (x.box.closed ≡ true) × (x.sent ≡ w.sent))
steps_fair r ss = ((sent-taken (Steps-Reach r ss)).0, Steps-Grows ss, Steps-Shut r ss)
