-- ===== src/Service/Dispatch/Wake.antt =====
-- Producers, libuv and the service's thread around one mailbox: which wake-ups are on their way.
use service_lua.Base.{
  ℕ, zero, suc, ◌+◌, ◌-◌, ◌≤◌, ◌<◌, ◌≡◌, ◌⊎◌, refl, Bool, true, false, Option, none, some, inl, inr,
  ltb, Bool-cases,
}
use service_lua.Message.{Message}
use service_lua.Mailbox.{
  Mailbox, MailboxResult, mailbox_new, mailbox_try_pop, mailbox_finish_batch, mailbox_overload,
  mailbox_close,
}
use service_lua.Mailbox.Inv.{IsValid, max_items}
use service_lua.Mailbox.Locked.{Effect}

-- Where the thread of the service stands: in `service_thread_main` before it runs, or before the
-- `uv_async_send` with which it begins to run; in `uv_run` outside `service_async_cb`, in the handler with
-- the rounds that its batch has left, or before `uv_async_send` at the end of the callback.
pub data Phase : Type 0 where
  booting : Phase
  announcing : Phase
  idle : Phase
  handling : ℕ → Phase
  resending : Phase

-- `running`: the state is SERVICE_RUNNING. `ready`: `inbox_async_ready`. `pending`: `inbox_async` has been
-- sent, and its callback has not begun. `notifying`: the senders that were told to notify, and have neither
-- called `uv_async_send` nor seen that the handle is not ready.
pub record Wakes : Type 0 where
  pub box : Mailbox
  pub running : Bool
  pub ready : Bool
  pub pending : Bool
  pub notifying : ℕ
  pub phase : Phase

abbrev after_recv : Option Message → ℕ → Phase
after_recv none n = idle
after_recv (some m) n = handling n

abbrev after_finish : Bool → Phase
after_finish true = resending
after_finish false = idle

abbrev more_notifying : Bool → ℕ → ℕ
more_notifying true n = n + 1
more_notifying false n = n

-- One locked part, or one call of libuv, of one thread. A push is the effect of `mailbox_try_push`. The
-- handler in Lua receives until there is no message or its batch is used up, unless it fails.
pub data Move (w : Wakes) : Wakes → Type 0 where
  push :
      (m : Message) (notify : Bool) (b : Mailbox)
      → Effect w.box m MailboxResult.ok notify b
      → Move w (record w { box = b; notifying = more_notifying notify w.notifying })
  send : 0 < w.notifying → Move w (record w { pending = true; notifying = w.notifying - 1 })
  skip : 0 < w.notifying → w.ready ≡ false → Move w (record w { notifying = w.notifying - 1 })
  send_fails : 0 < w.notifying → Move w (record w { running = false; notifying = w.notifying - 1 })
  init : w.phase ≡ booting → Move w (record w { ready = true })
  run :
      w.phase ≡ booting → w.ready ≡ true → Move w (record w { running = true; phase = announcing })
  announce : w.phase ≡ announcing → Move w (record w { pending = true; phase = idle })
  stop : Move w (record w { running = false })
  handle_closed : w.running ≡ false → Move w (record w { ready = false })
  call :
      (batch : ℕ)
      → w.phase ≡ idle
      → w.pending ≡ true
      → w.running ≡ true
      → Move w (record w { pending = false; phase = handling batch })
  ignore :
      w.phase ≡ idle → w.pending ≡ true → w.running ≡ false → Move w (record w { pending = false })
  recv :
      (left : ℕ)
      → w.phase ≡ handling (suc left)
      → w.running ≡ true
      → Move w (record w {
        box = (mailbox_try_pop w.box).1;
        phase = after_recv (mailbox_try_pop w.box).0 left;
      })
  recv_nothing :
      (left : ℕ)
      → w.phase ≡ handling (suc left)
      → w.running ≡ false
      → Move w (record w { phase = idle })
  fail : (left : ℕ) → w.phase ≡ handling left → Move w (record w { running = false; phase = idle })
  finish :
      w.phase ≡ handling zero
      → Move w (record w {
        box = (mailbox_finish_batch w.box).1;
        phase = after_finish (mailbox_finish_batch w.box).0;
      })
  resend : w.phase ≡ resending → Move w (record w { pending = true; phase = idle })
  resend_fails : w.phase ≡ resending → Move w (record w { running = false; phase = idle })
  overload : Move w (record w { box = (mailbox_overload w.box).1 })
  close : Move w (record w { box = mailbox_close w.box })

-- The thread of the service is before a `uv_async_send` of its own, or in its callback.
abbrev pub active : Phase → Bool
active booting = false
active idle = false
active _ = true

-- Somebody is about to look into the mailbox.
abbrev pub IsAttended : Wakes → Type 0
IsAttended w = (0 < w.notifying) ⊎ ((w.pending ≡ true) ⊎ (active w.phase ≡ true))

pub record Inv (w : Wakes) : Type 0 where
  pub valid : IsValid w.box
  pub heard : (w.running ≡ false) ⊎ (w.ready ≡ true)
  pub attended : (w.running ≡ false) ⊎ ((w.box.scheduled ≡ false) ⊎ IsAttended w)

-- From a service that has not begun to run
pub data Reach : Wakes → Type 0 where
  start :
      (capacity : ℕ) {b : Mailbox}
      → capacity ≤ max_items
      → mailbox_new true true capacity ≡ some b
      → Reach (record {
        box = b;
        running = false;
        ready = false;
        pending = false;
        notifying = 0;
        phase = booting;
      })
  next : {w x : Wakes} → Reach w → Move w x → Reach x

pub pop-unscheduled :
    (b : Mailbox) → (mailbox_try_pop b).0 ≡ none → (mailbox_try_pop b).1.scheduled ≡ false
unfolding mailbox_try_pop
pop-unscheduled b e = elim (Bool-cases (ltb 0 b.count)) [
  | inl more ↦ cc (rw more at e)
  | inr nothing ↦ rw nothing refl
]
