-- ===== src/Mailbox/Locked.antt =====
-- What one locked section of `mailbox_try_push` does, and what other threads may do between two.
use service_lua.Base.{
  ℕ, zero, suc, ◌*◌, ◌≤◌, ◌<◌, ◌≡◌, ◌⊎◌, ◌≢◌, refl, Bool, true, false, Option, none, some, not,
  ◌&&◌, List, [], ◌∷◌, ◌++◌, arith, length, ◌==◌, Bool-cases, inl, inr, ap, sym, ◌∙◌,
}
use service_lua.Message.{Message}
use service_lua.Mailbox.{
  MailboxResult, Mailbox, Section, Env, grow_locked, push_commit, push_section, max_capacity,
}
use service_lua.Mailbox.Inv.{IsValid, push_commit-IsValid, grow_locked-IsValid}
use service_lua.Mailbox.Refine.{contents, contents-push_commit, contents-grow_locked}

-- Other threads keep the invariant and only ever grow the buffer, by doublings; malloc gives a
-- buffer of the size asked for, or none.
pub record IsFair (env : Env) : Type 0 where
  pub keeps : (k : ℕ) (b : Mailbox) → IsValid b → IsValid (env.others k b)
  pub grows :
      (k : ℕ) (b : Mailbox)
      → IsValid b
      → ((env.others k b).capacity ≡ b.capacity) ⊎ (2 * b.capacity ≤ (env.others k b).capacity)
  pub sized : (k n : ℕ) (g : List Message) → env.malloc k n ≡ some g → length g ≡ n

-- The mailbox as the others leave it by the time that the lock has been let go `k` times.
abbrev pub after : Env → Mailbox → ℕ → Mailbox
after env b zero = b
after env b (suc k) = env.others k (after env b k)

-- What a call does to the mailbox `seen` in which it takes effect, by its result.
abbrev pub Effect : Mailbox → Message → MailboxResult → Bool → Mailbox → Type 0
Effect seen m MailboxResult.ok notify b =
    (seen.closed ≡ false)
    × (contents b ≡ contents seen ++ (m ∷ []))
    × (notify ≡ not seen.scheduled)
    × (b.scheduled ≡ true)
    × (b.closed ≡ false)
    × IsValid b
Effect seen m MailboxResult.full notify b = (notify ≡ false) × (b ≡ seen) × IsValid b
Effect seen m MailboxResult.closed notify b =
    (seen.closed ≡ true) × (notify ≡ false) × (b ≡ seen) × IsValid b

-- A section that returns has the effect of a call in the mailbox that it starts from.
abbrev pub Sound : Mailbox → Message → Section × Mailbox → Type 0
Sound seen m (Section.allocate c, b) = (c ≡ seen.capacity) × (b ≡ seen)
Sound seen m (Section.return r notify, b) = Effect seen m r notify b × (r ≢ MailboxResult.full)

-- The two ways through `push_commit`.
push_commit-closed :
    (b : Mailbox) (m : Message)
    → b.closed ≡ true
    → push_commit b m ≡ (MailboxResult.closed, false, b)
unfolding push_commit
push_commit-closed b m shut = rw shut

push_commit-ok :
    (b : Mailbox) (m : Message)
    → b.closed ≡ false
    → let (r, notify, b') = push_commit b m in
      (r ≡ MailboxResult.ok)
      × (notify ≡ not b.scheduled)
      × (b'.scheduled ≡ true)
      × (b'.closed ≡ false)
unfolding push_commit
push_commit-ok b m live = ground arith

push_commit-ne-full : (b : Mailbox) (m : Message) → (push_commit b m).0 ≢ MailboxResult.full
unfolding push_commit
push_commit-ne-full b m = ground arith

-- A buffer held is twice the size of the one in use.
abbrev pub Fits : Option (List Message) → Mailbox → Type 0
Fits none b = Unit {0}
Fits (some g) b = (length g ≡ b.capacity * 2) × (b.capacity ≤ max_capacity)

-- A commit into `b`, which holds what `seen` held and has room.
commit-Effect :
    (seen b : Mailbox) (m : Message)
    → IsValid b
    → b.closed ≡ false
    → b.count < b.capacity
    → contents b ≡ contents seen
    → seen.closed ≡ false
    → seen.scheduled ≡ b.scheduled
    → let (r, notify, b') = push_commit b m in Effect seen m r notify b'
commit-Effect seen b m v live room same live' sched =
    let (er, en, es, ec) = push_commit-ok b m live in
    rw er (
      live',
      contents-push_commit b m v live room ∙ ap (λ xs. xs ++ (m ∷ [])) same,
      en ∙ ap not (sym sched),
      es,
      ec,
      push_commit-IsValid b m v room,
    )

closed-Effect :
    (b : Mailbox) (m : Message)
    → IsValid b
    → b.closed ≡ true
    → let (r, notify, b') = push_commit b m in Effect b m r notify b'
closed-Effect b m v shut = rw (push_commit-closed b m shut) (shut, refl, refl, v)

grow_locked-fields :
    (b : Mailbox) (g : List Message)
    → let b' = (grow_locked b g).0 in
      (b'.closed ≡ b.closed)
      × (b'.scheduled ≡ b.scheduled)
      × (b'.count ≡ b.count)
      × (b.capacity ≤ max_capacity → b'.capacity ≡ b.capacity * 2)
unfolding grow_locked
grow_locked-fields b g = (refl, refl, refl, λ h. omega arith)

grown-Effect :
    (b : Mailbox) (m : Message) (g : List Message)
    → IsValid b
    → b.closed ≡ false
    → b.count ≡ b.capacity
    → length g ≡ b.capacity * 2
    → b.capacity ≤ max_capacity
    → let (r, notify, b') = push_commit (grow_locked b g).0 m in Effect b m r notify b'
grown-Effect b m g v live filled len small =
    let (ec, es, en, ecap) = grow_locked-fields b g in
    commit-Effect b (grow_locked b g).0 m (grow_locked-IsValid b g v small filled len) (ec ∙ live)
      (omega (arith, ecap small, en, v.head_in)) (contents-grow_locked b g v small len) live
      (sym es)

-- The test at the head of the loop.
abbrev must_grow : Mailbox → Bool
must_grow b = not b.closed && b.count == b.capacity

must_grow-true : (b : Mailbox) → must_grow b ≡ true → (b.closed ≡ false) × (b.count ≡ b.capacity)
must_grow-true b h = ground arith

must_grow-false :
    (b : Mailbox)
    → IsValid b
    → must_grow b ≡ false
    → (b.closed ≡ true) ⊎ ((b.closed ≡ false) × (b.count < b.capacity))
must_grow-false b v h = ground arith

direct-Effect :
    (b : Mailbox) (m : Message)
    → IsValid b
    → (b.closed ≡ true) ⊎ ((b.closed ≡ false) × (b.count < b.capacity))
    → let (r, notify, b') = push_commit b m in Effect b m r notify b'
direct-Effect b m v (inl shut) = closed-Effect b m v shut
direct-Effect b m v (inr (live, room)) = commit-Effect b b m v live room refl live refl

pub push_section-Sound :
    (b : Mailbox) (m : Message) (spare : Option (List Message))
    → IsValid b
    → Fits spare b
    → Sound b m (push_section b m spare)
unfolding push_section
push_section-Sound b m none v fits = elim (Bool-cases (must_grow b)) [
  | inl more ↦ rw more (refl, refl)
  | inr room ↦ rw room (direct-Effect b m v (must_grow-false b v room), push_commit-ne-full b m)
]
push_section-Sound b m (some g) v fits = elim (Bool-cases (must_grow b)) [
  | inl more ↦
      let (live, filled) = must_grow-true b more in
      rw more
        (grown-Effect b m g v live filled fits.0 fits.1, push_commit-ne-full (grow_locked b g).0 m)
  | inr room ↦ rw room (direct-Effect b m v (must_grow-false b v room), push_commit-ne-full b m)
]

-- With a spare in hand, a section returns.
unfoldable pub IsReturn : Section → Type 0
IsReturn (Section.allocate c) = ⊥
IsReturn (Section.return r notify) = Unit

pub push_section-returns :
    (b : Mailbox) (m : Message) (g : List Message) → IsReturn (push_section b m (some g)).0
unfolding push_section IsReturn
push_section-returns b m g = elim (Bool-cases (must_grow b)) [
  | inl more ↦ rw more tt
  | inr room ↦ rw room tt
]
