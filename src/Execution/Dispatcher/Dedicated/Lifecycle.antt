-- ===== src/Execution/Dispatcher/Dedicated/Lifecycle.antt =====
-- What becomes of the workers under dispatcher_dedicated.go and the pool's destructor.
use shimmy_wasm_go.Base.{
  String, ◌≡◌, ◌≢◌, refl, ap, ◌∙◌, ◌⊎◌, inl, inr, false, none, some, ◌∷◌, arith, Option-cases,
}
use shimmy_wasm_go.Exec.{Error, wrap, Result, ok, err, panics}
use shimmy_wasm_go.Json.{Map}
use shimmy_wasm_go.Execution.Supervisor.{
  Ref, Adapters, Event, created, started, start_failed, sent, stopping, cancelled, Supervisor,
  Release, waits, fails, noop, SendResult, acquire_worker, send_to, sending, shutdown, run_release,
  boot_worker,
}
use shimmy_wasm_go.Execution.Supervisor
use shimmy_wasm_go.Execution.Dispatcher.Dedicated.{answered, send, shut_down, destruct}

module _ {E : Type 0} (a : Adapters E) where
  answered_to :
      (r : Ref) (method : String) (m : Map) (sv : Supervisor E) (x : Map) (sv' : Supervisor E)
      → sv.persistent ≡ false
      → sv.worker_ref ≡ some r
      → answered a (send_to a r method m sv) ≡ (ok x, sv')
      → (sv'.trace ≡ cancelled r ∷ stopping r ∷ sent r ∷ sv.trace) × (sv'.worker_ref ≡ none)
  unfolding answered send_to
  answered_to r method m sv x sv' p q e = ground arith

  booted_trace :
      (sv sv' : Supervisor E) (r : Ref)
      → sv.worker_ref ≡ none
      → acquire_worker a sv ≡ (ok r, sv')
      → (sv'.trace ≡ started r ∷ created r ∷ sv.trace)
        × (sv'.worker_ref ≡ some r)
        × (sv'.persistent ≡ sv.persistent)
  unfolding acquire_worker
  booted_trace sv sv' r p e = ground arith

  answered-sending :
      (method : String) (m : Map) (sv : Supervisor E) (o : Result Error Ref × Supervisor E)
      (x : Map) (sv' : Supervisor E)
      → sv.persistent ≡ false
      → sv.worker_ref ≡ none
      → acquire_worker a sv ≡ o
      → answered a (sending a method m o) ≡ (ok x, sv')
      → (r : Ref) × (sv'.trace
          ≡ cancelled r ∷ stopping r ∷ sent r ∷ started r ∷ created r ∷ sv.trace)
        × (sv'.worker_ref ≡ none)
  unfolding answered
  answered-sending method m sv (ok r, s) x sv' p q k e =
      let b = booted_trace sv s r q k in
      let t = answered_to r method m s x sv' (b.2 ∙ p) b.1 e in
      (r, t.0 ∙ ap (λ z. cancelled r ∷ stopping r ∷ sent r ∷ z) b.0, t.1)
  answered-sending method m sv (err y, s) x sv' p q k e = cc
  answered-sending method m sv (panics, s) x sv' p q k e = cc

  -- If a dedicated dispatcher whose supervisor is transient and idle answers a message with data,
  -- then it has created and started one new worker, sent it this message, stopped it, and
  -- cancelled its context, in this order and nothing else, and the supervisor is idle again.
  pub send-lifecycle :
      (method : String) (m : Map) (sv : Supervisor E) (x : Map) (sv' : Supervisor E)
      → sv.persistent ≡ false
      → sv.worker_ref ≡ none
      → send a method m sv ≡ (ok x, sv')
      → (r : Ref) × (sv'.trace
          ≡ cancelled r ∷ stopping r ∷ sent r ∷ started r ∷ created r ∷ sv.trace)
        × (sv'.worker_ref ≡ none)
  unfolding send Supervisor.send
  send-lifecycle method m sv x sv' p q e =
      answered-sending method m sv (acquire_worker a sv) x sv' p q refl e

  failed_to :
      (r : Ref) (method : String) (m : Map) (sv : Supervisor E) (e : Error) (env env' : E)
      → sv.persistent ≡ false
      → sv.worker_ref ≡ some r
      → a.send r method m sv.env ≡ (err e, env)
      → a.stop r env ≡ (ok tt, env')
      → answered a (send_to a r method m sv) ≡ (
        err (wrap "error sending data" e),
        record sv { worker_ref = none; env = env'; trace = stopping r ∷ sent r ∷ sv.trace },
      )
  unfolding answered send_to
  failed_to r method m sv e env env' p q s t = ground arith

  -- If the worker of a transient supervisor answers a message with an error and is then asked to
  -- stop, the dedicated dispatcher returns the error and neither waits for the worker nor cancels
  -- its context, and the supervisor has no reference to it any more.
  pub send-leaks :
      (r : Ref) (method : String) (m : Map) (sv : Supervisor E) (e : Error) (env env' : E)
      → sv.persistent ≡ false
      → sv.worker_ref ≡ some r
      → a.send r method m sv.env ≡ (err e, env)
      → a.stop r env ≡ (ok tt, env')
      → send a method m sv ≡ (
        err (wrap "error sending data" e),
        record sv { worker_ref = none; env = env'; trace = stopping r ∷ sent r ∷ sv.trace },
      )
  send-leaks r method m sv e env env' p q s t =
      let same : acquire_worker a sv ≡ (ok r, sv) = unfold acquire_worker in ground arith in
      let k = failed_to r method m sv e env env' p q s t in
      unfold send in unfold Supervisor.send in ap (λ o. answered a (sending a method m o)) same ∙ k

  destruct_idle : (sv : Supervisor E) → sv.worker_ref ≡ none → destruct a sv ≡ sv
  unfolding destruct shut_down
  destruct_idle sv e = ground arith

  destruct_busy :
      (sv : Supervisor E) (r : Ref)
      → sv.worker_ref ≡ some r
      → (a.stop r sv.env).0 ≢ panics
      → ((destruct a sv).worker_ref ≡ none)
        × ((destruct a sv).trace ≡ cancelled r ∷ stopping r ∷ sv.trace)
  unfolding destruct shut_down
  destruct_busy sv r e k = ground arith

  -- The pool's destructor, whatever the stop and the wait of the worker return, short of a panic of
  -- the stop, stops the worker once and cancels its context, and leaves no worker; where there was
  -- none it does nothing.
  pub destruct-Stops :
      (sv : Supervisor E)
      → ((r : Ref) → (a.stop r sv.env).0 ≢ panics)
      → ((destruct a sv).worker_ref ≡ none)
        × (((r : Ref) × (sv.worker_ref ≡ some r)
              × ((destruct a sv).trace ≡ cancelled r ∷ stopping r ∷ sv.trace))
            ⊎ (sv.worker_ref ≡ none) × (destruct a sv ≡ sv))
  unfolding destruct shut_down
  destruct-Stops sv k = elim (Option-cases sv.worker_ref) [
    | inl e ↦ let q = destruct_idle sv e in (ap (λ z. z.worker_ref) q ∙ e, inr (e, q))
    | inr (r, e) ↦ let q = destruct_busy sv r e (k r) in (q.0, inl (r, e, q.1))
  ]
