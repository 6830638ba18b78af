-- ===== src/Mailbox/Push.antt =====
-- `mailbox_try_push` while other threads use the mailbox whenever it lets the lock go.
use service_lua.Base.{
  ℕ, zero, suc, ◌*◌, ◌^◌, ◌≤◌, ◌<◌, ◌≡◌, ◌≢◌, refl, Bool, false, Option, none, some, List, arith,
  leb, leb→le, ◌==◌, ==_iff, Bool-cases, inl, inr,
}
use service_lua.Message.{Message}
use service_lua.Mailbox.{
  MailboxResult, Mailbox, Section, Env, push_section, relock, allocate_spare, push_loop,
  mailbox_try_push, max_capacity,
}
use service_lua.Mailbox.Inv.{IsValid, max_items}
use service_lua.Mailbox.Locked.{
  Effect, Fits, IsFair, IsReturn, Sound, after, push_section-Sound, push_section-returns,
}

-- Fuel `f` is enough for capacity `c`: `f` doublings would pass what the address space holds.
scale : ℕ → ℕ → ℕ
scale zero c = c
scale (suc f) c = scale f (2 * c)

scale_mono : (f c d : ℕ) → c ≤ d → scale f c ≤ scale f d
unfolding scale
scale_mono zero c d h = h
scale_mono (suc f) c d h = scale_mono f (2 * c) (2 * d) (omega arith)

scale-ge : (c : ℕ) → 0 < c → 2 ^ 63 ≤ scale 63 c
unfolding scale
scale-ge c h = omega (arith, scale_mono 63 1 c h)

differs : (a c : ℕ) → (a == c) ≡ false → a ≢ c
differs a c h = ground arith

-- Why a call that has let the lock go `turns` times may return a result: MAILBOX_FULL takes an
-- allocation that failed.
abbrev pub Reason : Env → Mailbox → ℕ → MailboxResult → Type 0
Reason env b turns MailboxResult.ok = Unit
Reason env b turns MailboxResult.full =
    (j : ℕ) × (turns ≡ suc j) × (allocate_spare (env.malloc j) (after env b j).capacity ≡ none)
Reason env b turns MailboxResult.closed = Unit

ne-full-Reason :
    (env : Env) (b : Mailbox) (k : ℕ) (r : MailboxResult)
    → r ≢ MailboxResult.full
    → Reason env b k r
ne-full-Reason env b k MailboxResult.ok h = tt
ne-full-Reason env b k MailboxResult.full h = absurd (h refl)
ne-full-Reason env b k MailboxResult.closed h = tt

-- What a call comes to. It returns; its result and its effect belong to the mailbox as it stood after
-- the lock had been let go `turns` times; and MAILBOX_FULL is only for a failed allocation.
pub record Returns (env : Env) (b : Mailbox) (m : Message)
    (out : Option (MailboxResult × Bool × Mailbox)) : Type 0 where
  pub turns : ℕ
  pub result : MailboxResult
  pub notify : Bool
  pub final : Mailbox
  pub returned : out ≡ some (result, notify, final)
  pub effect : Effect (after env b turns) m result notify final
  pub reason : Reason env b turns result

module _ (env : Env) (fair : IsFair env) (b : Mailbox) (v : IsValid b) (m : Message) where
  after-IsValid : (k : ℕ) → IsValid (after env b k)
  after-IsValid zero = v
  after-IsValid (suc k) = fair.keeps k (after env b k) (after-IsValid k)

  finish :
      (f k : ℕ) (sec : Section × Mailbox)
      → Sound (after env b k) m sec
      → IsReturn sec.0
      → Returns env b m (push_loop env f k m sec)
  unfolding push_loop IsReturn
  finish f k (Section.allocate c, box) sound ret = absurd ret
  finish zero k (Section.return r n, box) sound ret = record {
    turns = k;
    result = r;
    notify = n;
    final = box;
    returned = refl;
    effect = sound.0;
    reason = ne-full-Reason env b k r sound.1;
  }
  finish (suc f) k (Section.return r n, box) sound ret = record {
    turns = k;
    result = r;
    notify = n;
    final = box;
    returned = refl;
    effect = sound.0;
    reason = ne-full-Reason env b k r sound.1;
  }

  -- A buffer that `allocate_spare` returns fits the mailbox that it was asked for.
  allocate_spare-Fits :
      (k : ℕ) (x : Mailbox) (c : ℕ) (g : List Message)
      → allocate_spare (env.malloc k) c ≡ some g
      → x.capacity ≡ c
      → Fits (some g) x
  unfolding allocate_spare
  allocate_spare-Fits k x c g got same = elim (Bool-cases (leb c max_capacity)) [
    | inl small ↦ (
      omega (arith, fair.sized k (c * 2) g (rw small at got)),
      omega (arith, leb→le c max_capacity small),
    )
    | inr big ↦ cc (rw big at got)
  ]

  -- The lock was let go for the `k`th time to allocate; `ih` is the case that the buffer grew
  -- meanwhile.
  relock-Returns :
      (f k : ℕ) (g : List Message)
      → allocate_spare (env.malloc k) (after env b k).capacity ≡ some g
      → (2 * (after env b k).capacity ≤ (after env b (suc k)).capacity
          → Returns env b m (push_loop env f (suc k) m (push_section (after env b (suc k)) m none)))
      → Returns env b m
          (push_loop env f (suc k) m (relock (after env b (suc k)) m (after env b k).capacity g))
  unfolding relock
  relock-Returns f k g got ih =
      let x = after env b k in
      let y = after env b (suc k) in
      elim (Bool-cases (y.capacity == x.capacity)) [
        | inl same ↦
            let e = (==_iff y.capacity x.capacity).0 same in
            rw same (
              finish f (suc k) (push_section y m (some g))
                (push_section-Sound y m (some g) (after-IsValid (suc k))
                  (allocate_spare-Fits k y x.capacity g got e))
                (push_section-returns y m g))
        | inr other ↦ rw other (
            ih (
              omega (arith, differs y.capacity x.capacity other, fair.grows k x (after-IsValid k))))
      ]

  allocate-Returns :
      (f k : ℕ)
      → (2 * (after env b k).capacity ≤ (after env b (suc k)).capacity
          → Returns env b m (push_loop env f (suc k) m (push_section (after env b (suc k)) m none)))
      → Returns env b m
          (push_loop env (suc f) k m (Section.allocate (after env b k).capacity, after env b k))
  unfolding push_loop
  allocate-Returns f k ih = go (allocate_spare (env.malloc k) (after env b k).capacity) refl
    where
      go :
          (o : Option (List Message))
          → allocate_spare (env.malloc k) (after env b k).capacity ≡ o
          → Returns env b m
              (push_loop env (suc f) k m (Section.allocate (after env b k).capacity, after env b k))
      go none e = record {
        turns = suc k;
        result = MailboxResult.full;
        notify = false;
        final = after env b (suc k);
        returned = rw (e, push_loop);
        effect = (refl, refl, after-IsValid (suc k));
        reason = (k, refl, e);
      }
      go (some g) e = rw (e, push_loop) (relock-Returns f k g e ih)

  section-Returns :
      (f k : ℕ)
      → Returns env b m
          (push_loop env (suc f) k m (Section.allocate (after env b k).capacity, after env b k))
      → Returns env b m (push_loop env (suc f) k m (push_section (after env b k) m none))
  section-Returns f k ih =
      go (push_section (after env b k) m none)
        (push_section-Sound (after env b k) m none (after-IsValid k) tt)
    where
      go :
          (sec : Section × Mailbox)
          → Sound (after env b k) m sec
          → Returns env b m (push_loop env (suc f) k m sec)
      go (Section.return r n, box) sound =
          finish (suc f) k (Section.return r n, box) sound (unfold IsReturn in tt)
      go (Section.allocate c, box) (ec, eb) = rw (ec, eb) ih

  -- The loop from its head on, with no spare in hand, and with fuel for the capacity.
  push_loop-Returns :
      (f k : ℕ)
      → max_items < scale f (after env b k).capacity
      → Returns env b m (push_loop env (suc f) k m (push_section (after env b k) m none))
  unfolding scale
  push_loop-Returns zero k enough = absurd (omega (arith, (after-IsValid k).small))
  push_loop-Returns (suc f) k enough = section-Returns (suc f) k (
      allocate-Returns (suc f) k λ doubled. push_loop-Returns f (suc k) (
        omega (
          arith,
          scale_mono f (2 * (after env b k).capacity) (after env b (suc k)).capacity doubled,
        )))

  -- While other threads keep the mailbox valid and only grow it, a push into a valid mailbox returns.
  -- Its effect is that of one step in the mailbox as the others had left it after some number of
  -- releases of the lock: with MAILBOX_OK the message went to the end of an open mailbox, which stays
  -- open and is scheduled, and `notify` says that it was not before; with MAILBOX_CLOSED it was closed,
  -- and with MAILBOX_FULL an allocation had failed, and the mailbox is as it was. It stays valid.
  pub mailbox_try_push-Returns : Returns env b m (mailbox_try_push env b m)
  unfolding mailbox_try_push
  mailbox_try_push-Returns = push_loop-Returns 63 0 (omega (arith, v.head_in, scale-ge b.capacity))
