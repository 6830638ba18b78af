-- ===== src/Service/Delete/Tests.antt =====
-- A pool of a service that was never started and one that is running.
use service_lua.Base.{ℕ, ◌≡◌, refl, true, false, [], ◌∷◌, arith, inl, inr}
use service_lua.Service.Types.{State, Service}
use service_lua.Service.Drain.Tests.{busy}
use service_lua.Service.Delete.{JoinEnv, service_pool_delete}
use service_lua.Service.Delete.Whole.{IsGone, Stands, Ends, All, service_pool_delete-IsGone}

abbrev live : Service
live = record busy { id = 1; state = State.running; thread_created = true; start_done = true }

abbrev ending : ℕ → JoinEnv
ending i = record { own = false; ended = λ s. record s { state = State.stopped }; error = λ s. 0 }

ending-Ends : (i : ℕ) → Ends (ending i)
ending-Ends i = record { other = refl; no_error = λ s asked. refl; same_id = λ s. refl }

both-Stands : All Stands (busy ∷ live ∷ [])
both-Stands = (inr (inl (refl, refl, inl refl)), (inr (inr (refl, refl, omega arith)), tt))

service_pool_delete-IsGone_example :
    let out = service_pool_delete ending (busy ∷ live ∷ []) in
    (out.whole ≡ true) × All IsGone out.pool × (out.services ≡ 0 ∷ 1 ∷ [])
service_pool_delete-IsGone_example =
    service_pool_delete-IsGone ending (busy ∷ live ∷ []) ending-Ends both-Stands
