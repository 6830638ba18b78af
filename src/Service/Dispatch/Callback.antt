-- ===== src/Service/Dispatch/Callback.antt =====
-- One callback: what `service_async_cb` does with the messages that wait.
use service_lua.Base.{
  ℕ, ◌≡◌, ◌⊎◌, refl, ap, sym, subst, ◌∙◌, Bool, true, false, Option, none, some, [], ◌++◌, arith,
  length, inl, inr, ◌==◌,
}
use service_lua.Mailbox.{Mailbox, mailbox_finish_batch, mailbox_overload}
use service_lua.Mailbox.Inv.{IsValid, mailbox_finish_batch-IsValid, mailbox_overload-IsValid}
use service_lua.Mailbox.Refine.{
  contents, contents-mailbox_overload, contents-mailbox_finish_batch, contents-eq-nil,
}
use service_lua.Service.Types.{State, rank, Service}
use service_lua.Service.Dispatch.{
  Called, boolean, after_handler, run_handler, service_async_cb, on_msg, dispatcher,
}
use service_lua.Service.Dispatch.Batch.{Left, on_msg-Handled}

-- What one callback comes to, for a service whose mailbox is `b`
pub record Callback (n : ℕ) (s : Service) (b : Mailbox) (c : Called) : Type 0 where
  pub box : Mailbox
  pub service_is : c.service ≡ record s { inbox = some box }
  pub valid : IsValid box
  pub live : box.closed ≡ false
  pub split : (on_msg n b).0 ++ contents box ≡ contents b
  pub left :
      ((c.pending ≡ true) × (length (on_msg n b).0 ≡ n))
      ⊎ ((c.pending ≡ false) × (contents box ≡ []) × (box.scheduled ≡ false))

-- `mailbox_finish_batch` of an open mailbox
finish_cases :
    (b : Mailbox)
    → b.closed ≡ false
    → ((mailbox_finish_batch b).0 ≡ true)
      ⊎ (((mailbox_finish_batch b).0 ≡ false)
          × (b.count ≡ 0)
          × ((mailbox_finish_batch b).1.scheduled ≡ false))
unfolding mailbox_finish_batch
finish_cases b live = ground arith

finish-closed : (b : Mailbox) → (mailbox_finish_batch b).1.closed ≡ b.closed
unfolding mailbox_finish_batch
finish-closed b = ground arith

overload-fields :
    (b : Mailbox)
    → ((mailbox_overload b).1.closed ≡ b.closed) × ((mailbox_overload b).1.scheduled ≡ b.scheduled)
unfolding mailbox_overload
overload-fields b = (refl, refl)

module _ (copied : Bool) (n : ℕ) (s : Service) (b : Mailbox) (v : IsValid b)
    (live : b.closed ≡ false) where
  -- The mailbox behind the handler and `mailbox_overload`
  handled_box : Mailbox
  handled_box = (mailbox_overload (on_msg n b).2).1

  handled_contents : contents handled_box ≡ contents (on_msg n b).2
  unfolding handled_box
  handled_contents = contents-mailbox_overload (on_msg n b).2

  handled_split : (on_msg n b).0 ++ contents handled_box ≡ contents b
  handled_split = ap (λ xs. (on_msg n b).0 ++ xs) handled_contents ∙ (on_msg-Handled n b v).split

  handled-IsValid : IsValid handled_box
  unfolding handled_box
  handled-IsValid = mailbox_overload-IsValid (on_msg n b).2 (on_msg-Handled n b v).valid

  handled_live : handled_box.closed ≡ false
  unfolding handled_box
  handled_live = (overload-fields (on_msg n b).2).0 ∙ (on_msg-Handled n b v).same ∙ live

  handled_scheduled : handled_box.scheduled ≡ (on_msg n b).2.scheduled
  unfolding handled_box
  handled_scheduled = (overload-fields (on_msg n b).2).1

  finished_box : Mailbox
  finished_box = (mailbox_finish_batch handled_box).1

  finished_contents : contents finished_box ≡ contents handled_box
  unfolding finished_box
  finished_contents = contents-mailbox_finish_batch handled_box

  finished_split : (on_msg n b).0 ++ contents finished_box ≡ contents b
  finished_split = ap (λ xs. (on_msg n b).0 ++ xs) finished_contents ∙ handled_split

  finished-IsValid : IsValid finished_box
  unfolding finished_box
  finished-IsValid = mailbox_finish_batch-IsValid handled_box handled-IsValid

  finished_live : finished_box.closed ≡ false
  unfolding finished_box
  finished_live = finish-closed handled_box ∙ handled_live

  -- The callback, by whether the batch was used up
  after : Bool → Service × Bool
  after full = after_handler copied true (boolean full) handled_box s

  called : Bool → Called
  called full = record {
    service = (after full).0;
    pending = (after full).1;
    overload = (mailbox_overload (on_msg n b).2).0;
  }

  with_pending : Bool → Called
  with_pending pending = record {
    service = record s { inbox = some finished_box };
    pending = pending;
    overload = (mailbox_overload (on_msg n b).2).0;
  }

  called-more : (mailbox_finish_batch handled_box).0 ≡ true → called true ≡ with_pending true
  unfolding called after after_handler finished_box with_pending
  called-more more = rw more

  called-done : (mailbox_finish_batch handled_box).0 ≡ false → called true ≡ with_pending false
  unfolding called after after_handler finished_box with_pending
  called-done done = rw done

  after-Callback :
      (full : Bool) → Left full n (on_msg n b).0 (on_msg n b).2 → Callback n s b (called full)
  unfolding called after after_handler with_pending
  after-Callback false l = record {
    box = handled_box;
    service_is = refl;
    valid = handled-IsValid;
    live = handled_live;
    split = handled_split;
    left = inr (refl, handled_contents ∙ l.0, handled_scheduled ∙ l.1);
  }
  after-Callback true l = elim (finish_cases handled_box handled_live) [
    | inl more ↦ subst (Callback n s b) (sym (called-more more)) (record {
      box = finished_box;
      service_is = refl;
      valid = finished-IsValid;
      live = finished_live;
      split = finished_split;
      left = inl (refl, l);
    })
    | inr (done, empty, quiet) ↦ subst (Callback n s b) (sym (called-done done)) (record {
      box = finished_box;
      service_is = refl;
      valid = finished-IsValid;
      live = finished_live;
      split = finished_split;
      left = inr (
        refl,
        finished_contents ∙ contents-eq-nil handled_box empty,
        unfold finished_box in quiet,
      );
    })
  ]

  async_cb-run :
      s.state ≡ State.running
      → s.inbox ≡ some b
      → service_async_cb copied true true (dispatcher n) s
        ≡ run_handler copied true (dispatcher n) s b
  unfolding service_async_cb
  async_cb-run running has =
      let is_running : (rank s.state == rank State.running) ≡ true =
        ap (λ st. rank st == rank State.running) running in
      rw is_running (
        ap
          (λ (o : Option Mailbox). elim o as (λ _. Called) [
            | none ↦ record { service = s; pending = false; overload = 0 }
            | some box ↦ run_handler copied true (dispatcher n) s box
          ])
          has)

  run_handler-called : run_handler copied true (dispatcher n) s b ≡ called (on_msg n b).1
  unfolding run_handler called after handled_box dispatcher
  run_handler-called = refl

  pub service_async_cb-Callback :
      s.state ≡ State.running
      → s.inbox ≡ some b
      → Callback n s b (service_async_cb copied true true (dispatcher n) s)
  service_async_cb-Callback running has =
      subst (Callback n s b) (sym (async_cb-run running has ∙ run_handler-called))
        (after-Callback (on_msg n b).1 (on_msg-Handled n b v).left)
