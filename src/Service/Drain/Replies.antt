-- ===== src/Service/Drain/Replies.antt =====
-- A drain of a retired service answers every request, frees every payload and empties the mailbox.
use service_lua.Base.{
  Bool-cases, Bool, ◌&&◌, ◌==◌, ltb, if◌then◌else◌, map-append, inl, inr, ℕ, zero, suc, ◌+◌, ◌<◌,
  ◌≡◌, refl, ap, ap₂, subst, ◌∙◌, false, Option, none, some, List, [], ◌∷◌, ◌++◌, map, arith,
  get_elem?, length,
}
use service_lua.Message.{Message, MessageType, code_of, message_dispose}
use service_lua.Mailbox.{Mailbox, mailbox_try_pop, mailbox_close}
use service_lua.Mailbox.Inv.{IsValid, mailbox_try_pop-IsValid, mailbox_close-IsValid}
use service_lua.Mailbox.Refine.{
  contents, dequeue, length-contents, contents-mailbox_close, mailbox_try_pop_refines,
}
use service_lua.Mailbox.Locked.{IsFair}
use service_lua.Mailbox.Delete.{payloads, payloads-cons}
use service_lua.Service.Types.{Service, Pool, SendResult, update}
use service_lua.Service.Pool.Update.{get_elem?-update, get_elem?-update_cases}
use service_lua.Service.Send.{target, drain_reply}
use service_lua.Service.Send.Total.{IsSound, Keeps, service_send-Sent}
use service_lua.Service.Pool.{service_retire}
use service_lua.Service.Life.{shutdown_begin, close_inbox}
use service_lua.Service.Drain.{
  DrainEnv, Drained, drain_send, drained_first, drain_loop, service_drain_mailbox,
  service_prepare_shutdown,
}

abbrev to_list : Option Message → List Message
to_list none = []
to_list (some m) = m ∷ []

-- A request whose sender waits for the answer
abbrev pub awaited : Message → Bool
awaited m = m.type == code_of MessageType.request && ltb 0 m.session

-- The error that its sender gets: from the service, in the session of the request, without a payload.
abbrev pub refusal : ℕ → Message → Message
refusal id m = record {
  from = id;
  to = m.from;
  session = m.session;
  type = code_of MessageType.error;
  msg = 0;
  sz = 0;
}

-- One error for each request that is waited for, in their order.
unfoldable pub replies : ℕ → List Message → List Message
replies id [] = []
replies id (m ∷ ms) = let rest = replies id ms in if awaited m then refusal id m ∷ rest else rest

replies-cons :
    (id : ℕ) (m : Message) (ms : List Message)
    → to_list (drain_reply id m) ++ replies id ms ≡ replies id (m ∷ ms)
unfolding replies drain_reply
replies-cons id m ms = elim (Bool-cases (awaited m)) [ inl asks ↦ rw asks | inr silent ↦ rw silent ]

-- What a drain that returns has done: it answered the messages of `ms`, freed their payloads, and left
-- the service with an empty mailbox in a pool as it was before.
pub record Drains (id : ℕ) (s : Service) (ms : List Message) (out : Option Drained) : Type 0 where
  pub drained : Drained
  pub box : Mailbox
  pub returned : out ≡ some drained
  pub answered : map (λ p. p.0) drained.sent ≡ replies s.id ms
  pub freed : drained.freed ≡ payloads ms
  pub there : get_elem? drained.pool id ≡ some (record s { inbox = some box })
  pub empty : contents box ≡ []
  pub sound : IsSound drained.pool

module _ (d : DrainEnv) (fair : (k : ℕ) → IsFair (d.env k)) (id : ℕ) where
  -- The answer, sent or not wanted: the pool stays sound, and retired services stay as they are.
  record Answered (k : ℕ) (pool : Pool) (reply : Option Message) : Type 0 where
    pool' : Pool
    sent : List (Message × SendResult)
    returned : drain_send d k pool reply ≡ some (pool', sent)
    answered : map (λ p. p.0) sent ≡ to_list reply
    sound : IsSound pool'
    kept : Keeps pool pool'

  drain_send-Answered :
      (k : ℕ) (pool : Pool) (reply : Option Message) → IsSound pool → Answered k pool reply
  unfolding drain_send
  drain_send-Answered k pool none ok = record {
    pool' = pool;
    sent = [];
    returned = refl;
    answered = refl;
    sound = ok;
    kept = λ i s at lost. at;
  }
  drain_send-Answered k pool (some m) ok =
      let sent = service_send-Sent (d.env k) (fair k) (d.around k) pool m ok in
      record {
        pool' = sent.pool';
        sent = (m, sent.result) ∷ [];
        returned = rw (drain_send, sent.returned);
        answered = refl;
        sound = sent.sound;
        kept = sent.kept;
      }

  target-some :
      (pool : Pool) (s : Service) (b : Mailbox)
      → get_elem? pool id ≡ some s
      → s.inbox ≡ some b
      → target pool id ≡ some (s, b)
  unfolding target
  target-some pool s b here has =
      rw (target, here)
        (ap
          (λ (o : Option Mailbox). elim o as (λ _. Option (Service × Mailbox)) [
            | none ↦ none
            | some box ↦ some (s, box)
          ])
          has)

  -- The pool once the oldest message has been taken
  abbrev popped_pool : Mailbox → Pool → Pool
  popped_pool b pool = update id (λ t. record t { inbox = some (mailbox_try_pop b).1 }) pool

  update-off-IsSound :
      (pool : Pool) (f : Service → Service) (s : Service)
      → IsSound pool
      → get_elem? pool id ≡ some s
      → (f s).routable ≡ false
      → IsSound (update id f pool)
  update-off-IsSound pool f s ok here lost j t at found =
      elim (get_elem?-update_cases pool id j f here at) [
        | inl (e, same) ↦ cc (ap (λ (u : Service). u.routable) same, lost, found)
        | inr (ne, old) ↦ ok j t old found
      ]

  popped_pool-IsSound :
      (pool : Pool) (s : Service) (b : Mailbox)
      → IsSound pool
      → get_elem? pool id ≡ some s
      → s.routable ≡ false
      → IsSound (popped_pool b pool)
  popped_pool-IsSound pool s b =
      update-off-IsSound pool (λ t. record t { inbox = some (mailbox_try_pop b).1 }) s

  step-none :
      (f k : ℕ) (pool : Pool) (s : Service) (b : Mailbox)
      → target pool id ≡ some (s, b)
      → (mailbox_try_pop b).0 ≡ none
      → drain_loop d (suc f) k id pool
        ≡ some (record { pool = popped_pool b pool; freed = []; sent = [] })
  unfolding drain_loop
  step-none f k pool s b at e = rw (drain_loop, at, e)

  step-some :
      (f k : ℕ) (pool : Pool) (s : Service) (b : Mailbox) (m : Message) {pool' : Pool}
      {sent : List (Message × SendResult)} {rest : Drained}
      → target pool id ≡ some (s, b)
      → (mailbox_try_pop b).0 ≡ some m
      → drain_send d k (popped_pool b pool) (drain_reply s.id m) ≡ some (pool', sent)
      → drain_loop d f (k + 1) id pool' ≡ some rest
      → drain_loop d (suc f) k id pool ≡ some (drained_first m sent rest)
  unfolding drain_loop
  step-some f k pool s b m at e e' e'' = rw (drain_loop, at, e, e', e'')

  map-append-sent :
      (xs ys : List (Message × SendResult))
      → map (λ (p : Message × SendResult). p.0) (xs ++ ys)
        ≡ map (λ (p : Message × SendResult). p.0) xs ++ map (λ (p : Message × SendResult). p.0) ys
  map-append-sent xs ys = simp (map-append)

  drain_loop-Drains :
      (f k : ℕ) (pool : Pool) (s : Service) (b : Mailbox) (ms : List Message)
      → IsSound pool
      → get_elem? pool id ≡ some s
      → s.routable ≡ false
      → s.inbox ≡ some b
      → IsValid b
      → contents b ≡ ms
      → length ms < f
      → Drains id s ms (drain_loop d f k id pool)
  drain_loop-Drains zero k pool s b ms ok here lost has v e h = absurd (omega arith)
  drain_loop-Drains (suc f) k pool s b [] ok here lost has v e h =
      let step = mailbox_try_pop_refines b v ∙ ap dequeue e in
      record {
        drained = record { pool = popped_pool b pool; freed = []; sent = [] };
        box = (mailbox_try_pop b).1;
        returned =
            step-none f k pool s b (target-some pool s b here has)
              (ap (λ (p : Option Message × List Message). p.0) step);
        answered = unfold replies in refl;
        freed = unfold payloads in refl;
        there =
            get_elem?-update pool id (λ t. record t { inbox = some (mailbox_try_pop b).1 }) here;
        empty = ap (λ (p : Option Message × List Message). p.1) step;
        sound = popped_pool-IsSound pool s b ok here lost;
      }
  drain_loop-Drains (suc f) k pool s b (m ∷ ms) ok here lost has v e h =
      let step = mailbox_try_pop_refines b v ∙ ap dequeue e in
      let b' = (mailbox_try_pop b).1 in
      let s' : Service = record s { inbox = some b' } in
      let a =
        drain_send-Answered k (popped_pool b pool) (drain_reply s.id m)
          (popped_pool-IsSound pool s b ok here lost) in
      let there' =
        a.kept id s' (get_elem?-update pool id (λ t. record t { inbox = some b' }) here) lost in
      let ih =
        drain_loop-Drains f (k + 1) a.pool' s' b' ms a.sound there' lost refl
          (mailbox_try_pop-IsValid b v) (ap (λ (p : Option Message × List Message). p.1) step)
          (omega arith) in
      record {
        drained = drained_first m a.sent ih.drained;
        box = ih.box;
        returned =
            step-some f k pool s b m (target-some pool s b here has)
              (ap (λ (p : Option Message × List Message). p.0) step) a.returned ih.returned;
        answered =
            map-append-sent a.sent ih.drained.sent
            ∙ ap₂ ◌++◌ a.answered ih.answered
            ∙ replies-cons s.id m ms;
        freed = ap (λ xs. (message_dispose m).0 ++ xs) ih.freed ∙ payloads-cons m ms;
        there = ih.there;
        empty = ih.empty;
        sound = ih.sound;
      }

  -- `service_drain_mailbox` of a service that is retired, in a pool whose routable services have valid
  -- mailboxes, returns: each request that waits has been answered by an error, in order, each payload
  -- freed once, the mailbox is empty, and the pool is still such a pool.
  pub service_drain_mailbox-Drains :
      (pool : Pool) (s : Service) (b : Mailbox)
      → IsSound pool
      → get_elem? pool id ≡ some s
      → s.routable ≡ false
      → s.inbox ≡ some b
      → IsValid b
      → Drains id s (contents b) (service_drain_mailbox d id pool)
  unfolding service_drain_mailbox
  service_drain_mailbox-Drains pool s b ok here lost has v =
      rw (service_drain_mailbox, target-some pool s b here has)
        (drain_loop-Drains (b.count + 1) 0 pool s b (contents b) ok here lost has v refl
          (omega (arith, length-contents b)))

  -- `service_prepare_shutdown` of a service with a valid mailbox, in a pool whose routable services have
  -- valid mailboxes, returns once no sender has the service pinned: the service is retired, each request
  -- that waited has been answered by an error, in order, each payload freed once, the mailbox is empty,
  -- and the pool is still such a pool.
  pub service_prepare_shutdown-Drains :
      (pool : Pool) (s : Service) (b : Mailbox)
      → IsSound pool
      → get_elem? pool id ≡ some s
      → s.inbox ≡ some b
      → IsValid b
      → Drains id (shutdown_begin s) (contents b) (service_prepare_shutdown d id pool)
  unfolding service_prepare_shutdown shutdown_begin close_inbox service_retire
  service_prepare_shutdown-Drains pool s b ok here has v =
      subst (λ xs. Drains id (shutdown_begin s) xs (service_prepare_shutdown d id pool))
        (contents-mailbox_close b)
        (service_drain_mailbox-Drains (update id shutdown_begin pool) (shutdown_begin s)
          (mailbox_close b) (update-off-IsSound pool shutdown_begin s ok here refl)
          (get_elem?-update pool id shutdown_begin here) refl (rw has) (mailbox_close-IsValid b v))
