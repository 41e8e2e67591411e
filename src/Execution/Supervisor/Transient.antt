-- ===== src/Execution/Supervisor/Transient.antt =====
-- How long the workers of the two kinds of supervisors live.
use shimmy_wasm_go.Base.{String, ◌≡◌, refl, ◌∙◌, true, false, none, some, ◌∷◌, arith}
use shimmy_wasm_go.Exec.{Error, wrap, Result, ok, err, panics}
use shimmy_wasm_go.Json.{Map}
use shimmy_wasm_go.Execution.Supervisor.{
  Ref, Adapters, created, start_failed, Supervisor, Release, waits, fails, noop, SendResult,
  acquire_worker, send_to, sending, send,
}
use shimmy_wasm_go.Execution.Supervisor.Ownership.{acquire_worker-ref}

-- the release of the worker `r`: one that waits for it, or the error of its stop
abbrev pub LetsGo : Ref → Release → Type 0
LetsGo r noop = ⊥
LetsGo r (fails e) = Unit
LetsGo r (waits q) = q ≡ r

module _ {E : Type 0} (a : Adapters E) where
  send_to_transient :
      (r : Ref) (method : String) (m : Map) (sv : Supervisor E) (res : SendResult)
      (sv' : Supervisor E)
      → sv.persistent ≡ false
      → sv.worker_ref ≡ some r
      → send_to a r method m sv ≡ (ok res, sv')
      → (sv'.worker_ref ≡ none) × LetsGo r res.release
  unfolding send_to
  send_to_transient r method m sv res sv' p q e = ground arith

  send_to_persistent :
      (r : Ref) (method : String) (m : Map) (sv : Supervisor E) (res : SendResult)
      (sv' : Supervisor E)
      → sv.persistent ≡ true
      → send_to a r method m sv ≡ (ok res, sv')
      → (sv'.worker_ref ≡ sv.worker_ref) × (res.release ≡ noop)
  unfolding send_to
  send_to_persistent r method m sv res sv' p e = ground arith

  sending_transient :
      (method : String) (m : Map) (o : Result Error Ref × Supervisor E) (res : SendResult)
      (sv' : Supervisor E)
      → o.1.persistent ≡ false
      → ((r : Ref) → o.0 ≡ ok r → o.1.worker_ref ≡ some r)
      → sending a method m o ≡ (ok res, sv')
      → (sv'.worker_ref ≡ none) × ((r : Ref) × (o.0 ≡ ok r) × LetsGo r res.release)
  sending_transient method m (ok r, sv) res sv' p k e =
      let x = send_to_transient r method m sv res sv' p (k r refl) e in (x.0, (r, refl, x.1))
  sending_transient method m (err x, sv) res sv' p k e = cc
  sending_transient method m (panics, sv) res sv' p k e = cc

  acquire_worker-persistent :
      (sv : Supervisor E) → (acquire_worker a sv).1.persistent ≡ sv.persistent
  unfolding acquire_worker
  acquire_worker-persistent sv = ground arith

  -- A message of a transient supervisor, whether it succeeds or not, leaves the supervisor without
  -- a worker, and its release is for the worker that got the message.
  pub send_transient :
      (method : String) (m : Map) (sv : Supervisor E) (res : SendResult) (sv' : Supervisor E)
      → sv.persistent ≡ false
      → send a method m sv ≡ (ok res, sv')
      → (sv'.worker_ref ≡ none)
        × ((r : Ref) × ((acquire_worker a sv).0 ≡ ok r) × LetsGo r res.release)
  send_transient method m sv res sv' p e =
      sending_transient method m (acquire_worker a sv) res sv' (rw (acquire_worker-persistent sv) p)
        (acquire_worker-ref a sv) (unfold send in e)

  sending_persistent :
      (method : String) (m : Map) (o : Result Error Ref × Supervisor E) (res : SendResult)
      (sv' : Supervisor E)
      → o.1.persistent ≡ true
      → sending a method m o ≡ (ok res, sv')
      → (sv'.worker_ref ≡ o.1.worker_ref) × (res.release ≡ noop)
  sending_persistent method m (ok r, sv) res sv' p e = send_to_persistent r method m sv res sv' p e
  sending_persistent method m (err x, sv) res sv' p e = cc
  sending_persistent method m (panics, sv) res sv' p e = cc

  -- A persistent supervisor that has a worker keeps it through a message, also one that fails, and
  -- has nothing to release.
  pub send_persistent :
      (method : String) (m : Map) (sv : Supervisor E) (r : Ref) (res : SendResult)
      (sv' : Supervisor E)
      → sv.persistent ≡ true
      → sv.worker_ref ≡ some r
      → send a method m sv ≡ (ok res, sv')
      → (sv'.worker_ref ≡ some r) × (res.release ≡ noop)
  send_persistent method m sv r res sv' p q e =
      let same : acquire_worker a sv ≡ (ok r, sv) = unfold acquire_worker in ground arith in
      let sent : sending a method m (acquire_worker a sv) ≡ (ok res, sv') = unfold send in e in
      let x = sending_persistent method m (ok r, sv) res sv' p (rw same at sent) in (x.0 ∙ q, x.1)

  -- A worker that was created and fails to start is let go with no stop and no cancel: the
  -- supervisor has no reference to it, and what it has done to it is to create it and to start it.
  pub boot_failure :
      (sv : Supervisor E) (r : Ref) (e : Error) (env env' : E)
      → sv.worker_ref ≡ none
      → a.create sv.env ≡ (ok r, env)
      → a.start r env ≡ (err e, env')
      → ((acquire_worker a sv).0
          ≡ err (wrap "failed to boot worker" (wrap "failed to start worker" e)))
        × ((acquire_worker a sv).1
            ≡ record sv { env = env'; trace = start_failed r ∷ created r ∷ sv.trace })
  unfolding acquire_worker
  boot_failure sv r e env env' p q s = ground arith
