-- ===== src/Service/Dispatch/Run.antt =====
-- Callbacks until none is pending: every message that waits is handed to Lua.
use service_lua.Base.{
  ℕ, zero, suc, ◌<◌, ◌≡◌, refl, ap, sym, ◌∙◌, Bool, true, false, Option, none, some, List, [], ◌++◌,
  arith, length, length-append, append-nil, inl, inr,
}
use service_lua.Message.{Message}
use service_lua.Mailbox.{Mailbox}
use service_lua.Mailbox.Inv.{IsValid}
use service_lua.Mailbox.Refine.{contents}
use service_lua.Service.Types.{State, Service}
use service_lua.Service.Dispatch.{Called, service_async_cb, on_msg, dispatcher}
use service_lua.Service.Dispatch.Callback.{service_async_cb-Callback}

-- The messages of one callback, and of those that follow while it is pending
unfoldable pub run_rest :
    List Message
    → Called
    → (Service → Option (List Message × Service))
    → Option (List Message × Service)
run_rest ms c run = elim c.pending [
  | false ↦ some (ms, c.service)
  | true ↦ elim (run c.service) [ none ↦ none | some (rest, s) ↦ some (ms ++ rest, s) ]
]

-- libuv calls `service_async_cb` as long as it is pending: the messages handed to Lua, in order, and the
-- service at the end. `none` means that the fuel ran out.
unfoldable pub run_callbacks : Bool → ℕ → ℕ → Service → Option (List Message × Service)
unfolding run_rest
run_callbacks copied zero batch s = none
run_callbacks copied (suc fuel) batch s = elim s.inbox [
  | none ↦ none
  | some b ↦
      run_rest (on_msg batch b).0 (service_async_cb copied true true (dispatcher batch) s)
        (run_callbacks copied fuel batch)
]

-- All messages have been handed over, and the mailbox is empty and lets a later push notify.
pub record Delivers (s : Service) (b : Mailbox) (out : Option (List Message × Service))
    : Type 0 where
  pub box : Mailbox
  pub returned : out ≡ some (contents b, record s { inbox = some box })
  pub empty : contents box ≡ []
  pub quiet : box.scheduled ≡ false

module _ (copied : Bool) (batch : ℕ) where
  run_callbacks-step :
      (f : ℕ) (s : Service) (b : Mailbox)
      → s.inbox ≡ some b
      → run_callbacks copied (suc f) batch s
        ≡ run_rest
            (on_msg batch b).0
            (service_async_cb copied true true (dispatcher batch) s)
            (run_callbacks copied f batch)
  unfolding run_callbacks
  run_callbacks-step f s b has =
      ap
        (λ (o : Option Mailbox). elim o as (λ _. Option (List Message × Service)) [
          | none ↦ none
          | some box ↦
              run_rest (on_msg batch box).0 (service_async_cb copied true true (dispatcher batch) s)
                (run_callbacks copied f batch)
        ])
        has

  run_rest-done :
      (ms : List Message) (c : Called) (run : Service → Option (List Message × Service))
      → c.pending ≡ false
      → run_rest ms c run ≡ some (ms, c.service)
  unfolding run_rest
  run_rest-done ms c run e = rw e

  run_rest-more :
      (ms rest : List Message) (c : Called) (run : Service → Option (List Message × Service))
      {s : Service}
      → c.pending ≡ true
      → run c.service ≡ some (rest, s)
      → run_rest ms c run ≡ some (ms ++ rest, s)
  unfolding run_rest
  run_rest-more ms rest c run e e' = rw (e, run_rest, e')

  some_pair :
      {ms ns : List Message} {s t : Service}
      → ms ≡ ns
      → s ≡ t
      → ◌≡◌ {A = Option (List Message × Service)} (some (ms, s)) (some (ns, t))
  some_pair e e' = rw (e, e')

-- A running service with a valid open mailbox, in batches of at least one: libuv and the handler of Lua,
-- if no other thread uses the service meanwhile and the handler does not fail, hand every message that
-- waits to Lua, in order, in no more callbacks than there are messages and one; then the mailbox is
-- empty, and the next push notifies again.
pub run_callbacks-Delivers :
    (copied : Bool) (batch f : ℕ) (s : Service) (b : Mailbox)
    → IsValid b
    → b.closed ≡ false
    → s.state ≡ State.running
    → s.inbox ≡ some b
    → length (contents b) < f
    → Delivers s b (run_callbacks copied f (suc batch) s)
run_callbacks-Delivers copied batch zero s b v live running has h = absurd (omega arith)
run_callbacks-Delivers copied batch (suc f) s b v live running has h =
    let c = service_async_cb-Callback copied (suc batch) s b v live running has in
    let s' : Service = record s { inbox = some c.box } in
    elim c.left [
      | inr (done, empty, quiet) ↦ record {
        box = c.box;
        returned =
            run_callbacks-step copied (suc batch) f s b has
            ∙ run_rest-done copied (suc batch) (on_msg (suc batch) b).0
                (service_async_cb copied true true (dispatcher (suc batch)) s)
                (run_callbacks copied f (suc batch)) done
            ∙ some_pair copied (suc batch)
                (sym (append-nil (on_msg (suc batch) b).0)
                  ∙ ap (λ xs. (on_msg (suc batch) b).0 ++ xs) (sym empty)
                  ∙ c.split)
                c.service_is;
        empty = empty;
        quiet = quiet;
      }
      | inl (more, used) ↦
          let ih = run_callbacks-Delivers copied batch f s' c.box c.valid c.live running refl (
            omega (
              arith,
              used,
              ap length c.split,
              length-append (on_msg (suc batch) b).0 (contents c.box),
            )) in
          record {
            box = ih.box;
            returned =
                run_callbacks-step copied (suc batch) f s b has
                ∙ run_rest-more copied (suc batch) (on_msg (suc batch) b).0 (contents c.box)
                    (service_async_cb copied true true (dispatcher (suc batch)) s)
                    (run_callbacks copied f (suc batch)) more
                    (ap (run_callbacks copied f (suc batch)) c.service_is ∙ ih.returned)
                ∙ some_pair copied (suc batch) c.split refl;
            empty = ih.empty;
            quiet = ih.quiet;
          }
    ]
