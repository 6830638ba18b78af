-- ===== src/Service/Thread/Finish.antt =====
-- The thread of a service ends, whatever waits in its mailbox.
use service_lua.Base.{
  ℕ, zero, suc, ◌+◌, ◌≤◌, ◌<◌, ◌≡◌, ◌⊎◌, refl, ap, ◌∙◌, Bool, true, false, ◌||◌, Option, some, [],
  if◌then◌else◌, ◌==◌, get_elem?, arith, map, inl, inr, Bool-cases,
}
use service_lua.Mailbox.{Mailbox}
use service_lua.Mailbox.Inv.{IsValid}
use service_lua.Mailbox.Refine.{contents}
use service_lua.Mailbox.Locked.{IsFair}
use service_lua.Mailbox.Delete.{payloads}
use service_lua.Service.Types.{State, Service, Pool, update}
use service_lua.Service.Pool.Update.{get_elem?-update, get_elem?-update_cases}
use service_lua.Service.Pool.{service_retire}
use service_lua.Service.Life.{finish_begin, finish_end, shutdown_begin, close_inbox}
use service_lua.Service.Send.Total.{IsSound}
use service_lua.Service.Drain.{DrainEnv, Drained, service_prepare_shutdown}
use service_lua.Service.Drain.Replies.{replies, service_prepare_shutdown-Drains}
use service_lua.Service.Thread.{
  Handles, handles_of, LoopEnv, close_round, close_loop, service_close_runtime_handles,
  handles_closed, Finished, finish_drained, service_finish_thread, service_notify_lua_stop,
}

-- `uv_run` calls the close callbacks of the handles that are being closed, and sets none up; from round `n`
-- on, with both closed, no handle of luv keeps `uv_loop_close` from returning 0.
pub record Settles (e : LoopEnv) (n : ℕ) : Type 0 where
  pub inbox_done :
      (k : ℕ) (b : Bool) (h : Handles)
      → (h.inbox_closing ≡ true) ⊎ (h.inbox_ready ≡ false)
      → (e.run k b h).inbox_ready ≡ false
  pub control_done :
      (k : ℕ) (b : Bool) (h : Handles)
      → (h.control_closing ≡ true) ⊎ (h.control_ready ≡ false)
      → (e.run k b h).control_ready ≡ false
  pub closes : (k : ℕ) (h : Handles) → n ≤ k → handles_closed h ≡ true → e.loop_close k h ≡ 0

module _ (e : LoopEnv) (n : ℕ) (settles : Settles e n) where
  closing_or_not : (c r : Bool) → ((c || r) ≡ true) ⊎ (r ≡ false)
  closing_or_not c r = ground arith

  close_round-closed : (k : ℕ) (h : Handles) → handles_closed (close_round e k h) ≡ true
  unfolding close_round service_close_runtime_handles handles_closed
  close_round-closed k h =
      let h' = service_close_runtime_handles h in
      let i =
        settles.inbox_done k (handles_closed h') h'
          (closing_or_not h.inbox_closing h.inbox_ready) in
      let c =
        settles.control_done k (handles_closed h') h'
          (closing_or_not h.control_closing h.control_ready) in
      rw (i, c) refl

  late-closes : (k : ℕ) (h : Handles) → (e.loop_close k (close_round e k h) == 0) ≡ false → k < n
  late-closes k h busy =
      ground (arith, settles.closes k (close_round e k h), close_round-closed k h, busy)

  close_loop-ends :
      (fuel k : ℕ) (h : Handles)
      → n < k + fuel
      → 0 < fuel
      → (rounds : ℕ) × (close_loop e fuel k h ≡ some rounds)
  unfolding close_loop
  close_loop-ends zero k h enough some_left = absurd (omega arith)
  close_loop-ends (suc fuel) k h enough some_left =
      elim (Bool-cases (e.loop_close k (close_round e k h) == 0)) [
        | inl closed ↦ (k + 1, rw closed)
        | inr busy ↦
            let early = late-closes k h busy in
            let (rounds, ends) =
              close_loop-ends fuel (k + 1) (close_round e k h) (omega arith) (omega arith) in
            (rounds, rw busy ends)
      ]

-- What a thread that ends leaves of its service: stopped, without handles, with an empty mailbox, and every
-- message answered and freed; its Lua handler, if there is one, has been told.
pub record Ended (has_lua : Bool) (id : ℕ) (s : Service) (b : Mailbox) (out : Option Finished)
    : Type 0 where
  pub finished : Finished
  pub service : Service
  pub box : Mailbox
  pub returned : out ≡ some finished
  pub there : get_elem? finished.drained.pool id ≡ some service
  pub stopped : service.state ≡ State.stopped
  pub unroutable : service.routable ≡ false
  pub has_box : service.inbox ≡ some box
  pub empty : contents box ≡ []
  pub answered : map (λ p. p.0) finished.drained.sent ≡ replies s.id (contents b)
  pub freed : finished.drained.freed ≡ payloads (contents b)
  pub notified : finished.notified ≡ has_lua

module _ (d : DrainEnv) (fair : (k : ℕ) → IsFair (d.env k)) (e : LoopEnv) (n : ℕ)
    (settles : Settles e n) where
  loop-ends :
      (fuel : ℕ) (s : Service)
      → n < fuel
      → (rounds : ℕ) × ((if s.loop_ready then close_loop e fuel 0 (handles_of s) else some 0)
          ≡ some rounds)
  loop-ends fuel s enough = elim (Bool-cases s.loop_ready) [
    | inl ready ↦
        let (rounds, ends) =
          close_loop-ends e n settles fuel 0 (handles_of s) (omega arith) (omega arith) in
        (rounds, rw ready ends)
    | inr absent ↦ (0, rw absent)
  ]

  finish_begin-same :
      (s : Service)
      → ((finish_begin s).inbox ≡ s.inbox)
        × ((finish_begin s).id ≡ s.id)
        × ((finish_begin s).routable ≡ s.routable)
  unfolding finish_begin
  finish_begin-same s = ground arith

  finish_begin-IsSound :
      (id : ℕ) (pool : Pool) (s : Service)
      → IsSound pool
      → get_elem? pool id ≡ some s
      → IsSound (update id finish_begin pool)
  finish_begin-IsSound id pool s ok here j t at found =
      elim (get_elem?-update_cases pool id j finish_begin here at) [
        | inl (i, same) ↦
            let as_before = finish_begin-same s in
            let (b, has, v) =
              ok id s here (cc (ap (λ (u : Service). u.routable) same, as_before.2, found)) in
            (b, ap (λ (u : Service). u.inbox) same ∙ as_before.0 ∙ has, v)
        | inr (ne, old) ↦ ok j t old found
      ]

  finish_drained-some :
      (fuel : ℕ) (has_lua : Bool) (id : ℕ) (drained : Drained) {s : Service} {rounds : ℕ}
      → get_elem? drained.pool id ≡ some s
      → (if s.loop_ready then close_loop e fuel 0 (handles_of s) else some 0) ≡ some rounds
      → finish_drained e fuel has_lua id drained
        ≡ some (record {
          drained = record drained { pool = update id finish_end drained.pool };
          notified = service_notify_lua_stop has_lua has_lua;
          rounds = rounds;
        })
  unfolding finish_drained
  finish_drained-some fuel has_lua id drained here ends = rw (finish_drained, here, ends)

  finish_thread-some :
      (fuel : ℕ) (has_lua : Bool) (id : ℕ) (pool : Pool) {drained : Drained} {out : Finished}
      → service_prepare_shutdown d id (update id finish_begin pool) ≡ some drained
      → finish_drained e fuel has_lua id drained ≡ some out
      → service_finish_thread d e fuel has_lua id pool ≡ some out
  unfolding service_finish_thread
  finish_thread-some fuel has_lua id pool drains ends = rw (service_finish_thread, drains, ends)

  shutdown-same :
      (s : Service)
      → ((shutdown_begin (finish_begin s)).id ≡ s.id)
        × ((shutdown_begin (finish_begin s)).routable ≡ false)
  unfolding shutdown_begin finish_begin service_retire close_inbox
  shutdown-same s = ground arith

  notify_once : (has_lua : Bool) → service_notify_lua_stop has_lua has_lua ≡ has_lua
  unfolding service_notify_lua_stop
  notify_once has_lua = ground arith

  -- `service_finish_thread` of a service with a valid mailbox, in a pool whose routable services have valid
  -- mailboxes, with luv's handles closed by round `n`, returns with `n + 1` rounds of fuel: the service is
  -- stopped and retired, its mailbox is empty, each request that waited has been answered by an error, in
  -- order, each payload freed once, and the handler in Lua called with "stop" exactly if there is one.
  pub service_finish_thread-Ended :
      (has_lua : Bool) (id : ℕ) (pool : Pool) (s : Service) (b : Mailbox)
      → IsSound pool
      → get_elem? pool id ≡ some s
      → s.inbox ≡ some b
      → IsValid b
      → Ended has_lua id s b (service_finish_thread d e (n + 1) has_lua id pool)
  unfolding finish_end
  service_finish_thread-Ended has_lua id pool s b ok here has v =
      let begun = finish_begin-same s in
      let kept = shutdown-same s in
      let out =
        service_prepare_shutdown-Drains d fair id (update id finish_begin pool) (finish_begin s) b
          (finish_begin-IsSound id pool s ok here) (get_elem?-update pool id finish_begin here)
          (begun.0 ∙ has) v in
      let left : Service = record (shutdown_begin (finish_begin s)) { inbox = some out.box } in
      let (rounds, ends) = loop-ends (n + 1) left (omega arith) in
      record {
        finished = record {
          drained = record out.drained { pool = update id finish_end out.drained.pool };
          notified = service_notify_lua_stop has_lua has_lua;
          rounds = rounds;
        };
        service = finish_end left;
        box = out.box;
        returned =
            finish_thread-some (n + 1) has_lua id pool out.returned
              (finish_drained-some (n + 1) has_lua id out.drained out.there ends);
        there = get_elem?-update out.drained.pool id finish_end out.there;
        stopped = refl;
        unroutable = kept.1;
        has_box = refl;
        empty = out.empty;
        answered = out.answered ∙ ap (λ i. replies i (contents b)) kept.0;
        freed = out.freed;
        notified = notify_once has_lua;
      }
