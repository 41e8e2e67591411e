-- ===== src/Execution/Supervisor.antt =====
-- internal/execution/supervisor/supervisor.go. Each call is a function; how calls that run at the
-- same time interleave is in `Concurrent`. The adapters and their workers are an interface over a
-- state of their own; a reference to one is a number.
pub mod Ownership
pub mod Concurrent
pub mod Transient
use shimmy_wasm_go.Base.{
  ℕ, String, Bool, true, false, Option, none, some, List, [], ◌∷◌, if◌then◌else◌,
}
use shimmy_wasm_go.Exec.{
  Error, wrap, Result, ok, err, panics, Exec, pure, raise, panic, ◌>>=◌, ◌>>◌,
}
use shimmy_wasm_go.Json.{Map}

abbrev pub Ref : Type 0
Ref = ℕ

-- `createWorker`, the methods of the `Adapter` that it makes, `wait` of what `Stop` returns, and
-- the `cancel` of the worker's context.
pub record Adapters (E : Type 0) : Type 0 where
  pub create : Exec Error E Ref
  pub start : Ref → Exec Error E (Unit {0})
  pub send : Ref → String → Map → Exec Error E Map
  pub stop : Ref → Exec Error E (Unit {0})
  pub wait : Ref → Exec Error E (Unit {0})
  pub cancel : Ref → E → E

-- What the supervisor has done to adapters, newest first.
pub data Event : Type 0 where
  created started start_failed sent stopping cancelled : Ref → Event

pub record Supervisor (E : Type 0) : Type 0 where
  pub persistent : Bool
  pub worker_ref : Option Ref
  pub env : E
  pub trace : List Event

-- A `ReleaseFunc`: `noopReleaseFunc`, the one that returns the error of a failed release, or the
-- one that waits for the worker.
pub data Release : Type 0 where
  noop : Release
  fails : Error → Release
  waits : Ref → Release

-- What `Send` returns beside a result: the data, nil after an error, and the error of the adapter.
pub record SendResult : Type 0 where
  pub data_out : Map
  pub release : Release
  pub error : Option Error

-- the result of a message behind the release; a panic of the stop goes on
abbrev pub as_result : Map → Option Error → Result Error Release → Result Error SendResult
as_result m o (ok r) = ok (record { data_out = m; release = r; error = o })
as_result m o (err e) =
    ok (record { data_out = m; release = fails (wrap "failed to release worker" e); error = o })
as_result m o panics = panics

abbrev pub wrapped {ℓ} : {A : Type ℓ} → String → Result Error A → Result Error A
wrapped s (ok a) = ok a
wrapped s (err e) = err (wrap s e)
wrapped s panics = panics

module _ {E : Type 0} (a : Adapters E) where
  abbrev Act : Type 0 → Type 0
  Act A = Exec Error (Supervisor E) A

  -- the outcomes of a worker's start: a failure leaves it neither stopped nor cancelled
  abbrev booted : Supervisor E → Ref → Result Error (Unit {0}) × E → Result Error Ref × Supervisor E
  booted sv r (ok _, env) =
      (ok r, record sv { env = env; trace = started r ∷ created r ∷ sv.trace })
  booted sv r (err e, env) = (
    err (wrap "failed to start worker" e),
    record sv { env = env; trace = start_failed r ∷ created r ∷ sv.trace },
  )
  booted sv r (panics, env) = (panics, record sv { env = env; trace = created r ∷ sv.trace })

  -- `bootWorker`
  unfoldable pub boot_worker : Act Ref
  boot_worker sv = elim (a.create sv.env).0 [
    | ok r ↦ booted sv r (a.start r (a.create sv.env).1)
    | err e ↦ (err (wrap "failed to create worker" e), record sv { env = (a.create sv.env).1 })
    | panics ↦ (panics, record sv { env = (a.create sv.env).1 })
  ]

  abbrev acquired : Result Error Ref × Supervisor E → Result Error Ref × Supervisor E
  acquired (ok r, sv) = (ok r, record sv { worker_ref = some r })
  acquired (err e, sv) = (err (wrap "failed to boot worker" e), sv)
  acquired (panics, sv) = (panics, sv)

  -- `acquireWorker`
  unfoldable pub acquire_worker : Act Ref
  unfolding boot_worker
  acquire_worker sv = elim sv.worker_ref [ some r ↦ (ok r, sv) | none ↦ acquired (boot_worker sv) ]

  -- the stop of the worker `r`, which is let go in each case
  abbrev stopped :
      Supervisor E → Ref → Result Error (Unit {0}) × E → Result Error Release × Supervisor E
  stopped sv r (ok _, env) =
      (ok (waits r), record sv { worker_ref = none; env = env; trace = stopping r ∷ sv.trace })
  stopped sv r (err e, env) = (
    err e,
    record sv {
      worker_ref = none;
      env = a.cancel r env;
      trace = cancelled r ∷ stopping r ∷ sv.trace;
    },
  )
  stopped sv r (panics, env) =
      (panics, record sv { worker_ref = none; env = env; trace = stopping r ∷ sv.trace })

  -- `terminateWorker`
  unfoldable pub terminate_worker : Act Release
  terminate_worker sv = elim sv.worker_ref [
    | none ↦ (ok noop, sv)
    | some r ↦ stopped sv r (a.stop r sv.env)
  ]

  -- `releaseWorker`
  unfoldable pub release_worker : Act Release
  unfolding terminate_worker
  release_worker sv = if sv.persistent then (ok noop, sv) else terminate_worker sv

  abbrev starting : Result Error Ref × Supervisor E → Result Error (Unit {0}) × Supervisor E
  starting (ok r, sv) = (ok tt, sv)
  starting (err e, sv) = (err (wrap "failed to start worker" e), sv)
  starting (panics, sv) = (panics, sv)

  -- `Start`
  unfoldable pub start : Act (Unit {0})
  unfolding acquire_worker
  start sv = if sv.persistent then starting (acquire_worker sv) else (ok tt, sv)

  abbrev pub after_send :
      Ref → Supervisor E → Result Error Map × E → Result Error Map × Supervisor E
  after_send r sv (m, env) = (m, record sv { env = env; trace = sent r ∷ sv.trace })

  -- The release of `Send`, behind the message; a panic of the adapter passes it by.
  abbrev pub released : Result Error Map × Supervisor E → Result Error SendResult × Supervisor E
  released (panics, sv) = (panics, sv)
  released (ok m, sv) = (as_result m none (release_worker sv).0, (release_worker sv).1)
  released (err e, sv) = (as_result none (some e) (release_worker sv).0, (release_worker sv).1)

  -- `Send`, from the worker on
  unfoldable pub send_to : Ref → String → Map → Act SendResult
  unfolding release_worker
  send_to r method m sv = released (after_send r sv (a.send r method m sv.env))

  abbrev pub sending :
      String → Map → Result Error Ref × Supervisor E → Result Error SendResult × Supervisor E
  sending method m (ok r, sv) = send_to r method m sv
  sending method m (err e, sv) = (err (wrap "failed to acquire worker" e), sv)
  sending method m (panics, sv) = (panics, sv)

  -- `Send`; an error is one of the acquisition, where there is no result.
  unfoldable pub send : String → Map → Act SendResult
  unfolding acquire_worker send_to
  send method m sv = sending method m (acquire_worker sv)

  -- `Suspend` and `Shutdown`, whose wait function runs the release
  unfoldable pub suspend : Act Release
  unfolding release_worker
  suspend = release_worker

  unfoldable pub shutdown : Act Release
  unfolding terminate_worker
  shutdown = terminate_worker

  abbrev waited :
      Supervisor E → Ref → Result Error (Unit {0}) × E → Result Error (Unit {0}) × Supervisor E
  waited sv r (o, env) = (o, record sv { env = a.cancel r env; trace = cancelled r ∷ sv.trace })

  -- A release that is run: the worker's context is cancelled when the wait is over, or before
  -- that when the stop timeout is.
  unfoldable pub run_release : Release → Act (Unit {0})
  run_release noop sv = (ok tt, sv)
  run_release (fails e) sv = (err e, sv)
  run_release (waits r) sv = waited sv r (a.wait r sv.env)

-- `New`: a supervisor is persistent if the interface is RPC.
abbrev pub new : {E : Type 0} → Bool → E → Supervisor E
new is_rpc env = record { persistent = is_rpc; worker_ref = none; env = env; trace = [] }
