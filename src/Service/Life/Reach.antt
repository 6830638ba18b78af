-- ===== src/Service/Life/Reach.antt =====
-- The threads around one service, as interleavings of the locked parts of src/service.c: the thread of
-- the service, one thread that joins it, and any that stop it, send to it or free it.
use service_lua.Base.{
  ℕ, ◌+◌, ◌≤◌, ◌<◌, ◌≡◌, ◌≢◌, ◌⊎◌, ◌-◌, if◌then◌else◌, Bool, true, false, Option, none, some, List,
  arith,
}
use service_lua.Service.Types.{rank, Service}
use service_lua.Mailbox.{Mailbox}
use service_lua.Service.Pool.{service_unpin, service_retire, fresh_service}
use service_lua.Service.Life.{
  Begun, close_inbox, service_set_exit_error, stop_state, start_begin, service_init_loop,
  thread_ready, finish_begin, finish_end, shutdown_begin, inbox_handle_closed,
  control_handle_closed, free_joined, join_begin, join_joined, join_end,
}

-- Where the thread of the service stands in `service_thread_main`.
pub data Thread : Type 0 where
  absent : Thread  -- not created
  booting : Thread  -- before `start_done`
  looping : Thread  -- in `uv_run`
  leaving : Thread  -- at the start of `service_finish_thread`
  closing : Thread  -- before `service_prepare_shutdown`
  draining : Thread  -- behind `service_retire` and `mailbox_close`
  ended : Thread

-- Where the caller of `service_join` stands.
pub data Joiner : Type 0 where
  outside : Joiner
  waiting : Joiner  -- in `pthread_join`
  cleaning : Joiner  -- behind it

-- `closers` counts the callers of `service_stop` and `service_start` that have let `state_lock` go and are
-- going to close the mailbox.
pub record Life : Type 0 where
  pub service : Service
  pub thread : Thread
  pub joiner : Joiner
  pub closers : ℕ

abbrev pub started : Thread → Bool
started Thread.absent = false
started _ = true

abbrev after_start : Begun → Thread → Thread
after_start Begun.waits t = Thread.booting
after_start _ t = t

abbrev closes : Begun → ℕ
closes (Begun.uncreated error) = 1
closes _ = 0

abbrev after_ready : Bool → Thread
after_ready true = Thread.looping
after_ready false = Thread.leaving

abbrev after_join_begin : Option ℕ → Joiner
after_join_begin none = Joiner.waiting
after_join_begin (some e) = Joiner.outside

-- One locked part of one thread.
pub data Step (l : Life) : Life → Type 0 where
  retire : Step l (record l { service = service_retire l.service })
  stop :
      l.service.routable ≡ false
      → Step l (record l {
        service = (stop_state l.service.state l.service).0;
        closers = l.closers + (if (stop_state l.service.state l.service).2 then 1 else 0);
      })
  close :
      0 < l.closers → Step l (record l { service = close_inbox l.service; closers = l.closers - 1 })
  exit_error :
      (copied : Bool) (m : Option (List ℕ))
      → Step l (record l { service = service_set_exit_error copied m l.service })
  pin :
      l.service.routable ≡ true
      → Step l (record l { service = record l.service { send_pins = l.service.send_pins + 1 } })
  unpin : Step l (record l { service = service_unpin l.service })
  start :
      (error : ℕ)
      → Step l (record l {
        service = (start_begin error l.service).1;
        thread = after_start (start_begin error l.service).0 l.thread;
        closers = l.closers + closes (start_begin error l.service).0;
      })
  init :
      (a b c : ℕ)
      → l.thread ≡ Thread.booting
      → Step l (record l { service = (service_init_loop a b c l.service).1 })
  ready :
      (error : ℕ)
      → l.thread ≡ Thread.booting
      → Step l (record l {
        service = (thread_ready error l.service).1;
        thread = after_ready (thread_ready error l.service).0;
      })
  leave : l.thread ≡ Thread.looping → Step l (record l { thread = Thread.leaving })
  finish :
      l.thread ≡ Thread.leaving
      → Step l (record l { service = finish_begin l.service; thread = Thread.closing })
  shut :
      l.thread ≡ Thread.closing
      → Step l (record l { service = shutdown_begin l.service; thread = Thread.draining })
  control :
      l.thread ≡ Thread.looping
      → l.service.stop_requested ≡ true
      → Step l (record l { service = shutdown_begin l.service })
  inbox_closed :
      started l.thread ≡ true → Step l (record l { service = inbox_handle_closed l.service })
  control_closed :
      started l.thread ≡ true → Step l (record l { service = control_handle_closed l.service })
  finished :
      l.thread ≡ Thread.draining
      → l.service.send_pins ≡ 0
      → Step l (record l { service = finish_end l.service; thread = Thread.ended })
  join :
      (own : Bool)
      → l.service.joining ≡ false
      → l.joiner ≡ Joiner.outside
      → Step l (record l {
        service = (join_begin own l.service).1;
        joiner = after_join_begin (join_begin own l.service).0;
      })
  joined :
      (error : ℕ)
      → l.joiner ≡ Joiner.waiting
      → (l.service.thread_created ≡ false → error ≡ 0)
      → (error ≡ 0 → l.service.thread_created ≡ true → l.thread ≡ Thread.ended)
      → Step l (record l { service = join_joined error l.service; joiner = Joiner.cleaning })
  free :
      l.service.routable ≡ false
      → l.service.send_pins ≡ 0
      → Step l (record l { service = (free_joined l.service).1 })
  join_left :
      l.joiner ≡ Joiner.cleaning
      → Step l (record l { service = join_end l.service; joiner = Joiner.outside })

-- The states in which the thread stands where it does.
abbrev pub InPhase : Thread → ℕ → Type 0
InPhase Thread.absent r = (r ≡ 0) ⊎ (4 ≤ r)
InPhase Thread.booting r = (r ≡ 1) ⊎ (r ≡ 3)
InPhase Thread.looping r = (r ≡ 2) ⊎ (r ≡ 3)
InPhase Thread.leaving r = (r ≡ 2) ⊎ (r ≡ 3)
InPhase Thread.closing r = r ≡ 3
InPhase Thread.draining r = r ≡ 3
InPhase Thread.ended r = 4 ≤ r

pub record Inv (l : Life) : Type 0 where
  pub phase : InPhase l.thread (rank l.service.state)
  pub created : l.service.thread_created ≡ started l.thread
  pub cancelled :
      l.thread ≡ Thread.booting → l.service.stop_requested ≡ false → rank l.service.state ≡ 1
  pub deaf : l.thread ≡ Thread.draining → l.service.routable ≡ false
  pub joined_late : 5 ≤ rank l.service.state → l.service.thread_joined ≡ true
  pub unjoined : l.joiner ≡ Joiner.waiting → l.service.thread_joined ≡ false
  pub joinable :
      l.joiner ≡ Joiner.waiting → l.service.thread_created ≡ false → 4 ≤ rank l.service.state
  pub boxed :
      l.service.inbox ≡ none
      → (rank l.service.state ≡ 6) × (l.service.send_pins ≡ 0) × (l.service.routable ≡ false)
  pub announced : 2 ≤ rank l.service.state → l.thread ≢ Thread.booting → l.service.start_done ≡ true

-- What no step takes back
abbrev Lasts : Service → Service → Type 0
Lasts s t =
    (rank s.state ≤ rank t.state)
    × ((s.routable ≡ true) ⊎ (t.routable ≡ false))
    × ((s.stop_requested ≡ false) ⊎ (t.stop_requested ≡ true))
    × ((s.start_done ≡ false) ⊎ (t.start_done ≡ true))

Step-Inv : {l m : Life} → Step l m → Inv l → Inv m × Lasts l.service m.service
unfolding service_retire stop_state close_inbox service_set_exit_error service_unpin start_begin
    service_init_loop thread_ready finish_begin finish_end shutdown_begin inbox_handle_closed
    control_handle_closed free_joined join_begin join_joined join_end
Step-Inv retire v = ground arith
Step-Inv (stop q) v = ground arith
Step-Inv (close q) v = ground arith
Step-Inv (exit_error c none) v = ground arith
Step-Inv (exit_error c (some m)) v = ground arith
Step-Inv (pin q) v = ground arith
Step-Inv unpin v = ground arith
Step-Inv (start e) v = ground arith
Step-Inv (init a b c q) v = ground arith
Step-Inv (ready e q) v = ground arith
Step-Inv (leave q) v = ground arith
Step-Inv (finish q) v = ground arith
Step-Inv (shut q) v = ground arith
Step-Inv (control q r) v = ground arith
Step-Inv (inbox_closed q) v = ground arith
Step-Inv (control_closed q) v = ground arith
Step-Inv (finished q r) v = ground arith
Step-Inv (join own q r) v = ground arith
Step-Inv (joined e q r t) v = ground arith
Step-Inv (free q r) v = ground arith
Step-Inv (join_left q) v = ground arith

freed-Inv :
    {l : Life}
    → Inv l
    → l.service.inbox ≡ none
    → ((l.thread ≡ Thread.absent) ⊎ (l.thread ≡ Thread.ended))
      × (l.service.routable ≡ false)
      × (l.service.send_pins ≡ 0)
freed-Inv v gone = ground arith

-- A service as `service_new` leaves it.
abbrev pub initial : ℕ → List ℕ → ℕ → ℕ → Mailbox → Life
initial id name source config inbox = record {
  service = fresh_service id name source config inbox;
  thread = Thread.absent;
  joiner = Joiner.outside;
  closers = 0;
}

pub data Reach : Life → Type 0 where
  here :
      (id : ℕ) (name : List ℕ) (source config : ℕ) (inbox : Mailbox)
      → Reach (initial id name source config inbox)
  next : {l m : Life} → Reach l → Step l m → Reach m

pub Reach-Inv : {l : Life} → Reach l → Inv l
Reach-Inv (here id name source config inbox) = ground arith
Reach-Inv (next r st) = (Step-Inv st (Reach-Inv r)).0

-- Whatever the threads around a service do, and in whatever order, a step from a reachable state
-- moves the state of the service only forward in the order of `service_state_t`; a service that has been
-- retired is never routable again, and neither a request to stop it nor the announcement of its start is
-- taken back.
pub state_forward :
    {l m : Life}
    → Reach l
    → Step l m
    → (rank l.service.state ≤ rank m.service.state)
      × ((l.service.routable ≡ true) ⊎ (m.service.routable ≡ false))
      × ((l.service.stop_requested ≡ false) ⊎ (m.service.stop_requested ≡ true))
      × ((l.service.start_done ≡ false) ⊎ (m.service.start_done ≡ true))
state_forward r st = (Step-Inv st (Reach-Inv r)).1

-- In every reachable state without a mailbox the thread of the service has ended or was never created, the
-- service is not routable, and no sender has it pinned: neither the thread of the service nor a sender uses
-- a mailbox that has been freed. This says nothing of the callers of `service_stop` that are still to
-- close the mailbox.
pub freed_unused :
    {l : Life}
    → Reach l
    → l.service.inbox ≡ none
    → ((l.thread ≡ Thread.absent) ⊎ (l.thread ≡ Thread.ended))
      × (l.service.routable ≡ false)
      × (l.service.send_pins ≡ 0)
freed_unused r gone = freed-Inv (Reach-Inv r) gone
