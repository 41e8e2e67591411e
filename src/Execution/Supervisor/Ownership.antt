-- ===== src/Execution/Supervisor/Ownership.antt =====
-- internal/execution/supervisor/supervisor.go: what calls keep that come one behind the other.
use shimmy_wasm_go.Base.{String, ◌≡◌, refl, Option, none, some, List, [], ◌∷◌, arith}
use shimmy_wasm_go.Exec.{Error, Result, ok, err, panics}
use shimmy_wasm_go.Json.{Map}
use shimmy_wasm_go.Execution.Supervisor.{
  Ref, Adapters, Event, started, sent, stopping, Supervisor, Release, acquire_worker,
  release_worker, start, send_to, sending, send, suspend, shutdown, run_release,
}

-- the worker that was started last, with success, and was not stopped since
abbrev pub owned : List Event → Option Ref
owned [] = none
owned (started r ∷ t) = some r
owned (stopping r ∷ t) = none
owned (_ ∷ t) = owned t

-- A worker is started only where there is none, and only the worker that is there is stopped or
-- gets a message.
abbrev pub IsOrderly : List Event → Type 0
IsOrderly [] = Unit
IsOrderly (started r ∷ t) = (owned t ≡ none) × IsOrderly t
IsOrderly (stopping r ∷ t) = (owned t ≡ some r) × IsOrderly t
IsOrderly (sent r ∷ t) = (owned t ≡ some r) × IsOrderly t
IsOrderly (_ ∷ t) = IsOrderly t

pub record Inv {E : Type 0} (sv : Supervisor E) : Type 0 where
  pub owns : owned sv.trace ≡ sv.worker_ref
  pub orderly : IsOrderly sv.trace

module _ {E : Type 0} (a : Adapters E) where
  acquire_worker-Inv : (sv : Supervisor E) → Inv sv → Inv (acquire_worker a sv).1
  unfolding acquire_worker
  acquire_worker-Inv sv v = ground arith

  pub acquire_worker-ref :
      (sv : Supervisor E) (r : Ref)
      → (acquire_worker a sv).0 ≡ ok r
      → (acquire_worker a sv).1.worker_ref ≡ some r
  unfolding acquire_worker
  acquire_worker-ref sv r e = ground arith

  release_worker-Inv : (sv : Supervisor E) → Inv sv → Inv (release_worker a sv).1
  unfolding release_worker
  release_worker-Inv sv v = ground arith

  send_to-Inv :
      (r : Ref) (method : String) (m : Map) (sv : Supervisor E)
      → sv.worker_ref ≡ some r
      → Inv sv
      → Inv (send_to a r method m sv).1
  unfolding send_to
  send_to-Inv r method m sv e v = ground arith

  sending-Inv :
      (method : String) (m : Map) (o : Result Error Ref × Supervisor E)
      → ((r : Ref) → o.0 ≡ ok r → o.1.worker_ref ≡ some r)
      → Inv o.1
      → Inv (sending a method m o).1
  sending-Inv method m (ok r, sv) k v = send_to-Inv r method m sv (k r refl) v
  sending-Inv method m (err e, sv) k v = v
  sending-Inv method m (panics, sv) k v = v

  send-Inv : (method : String) (m : Map) (sv : Supervisor E) → Inv sv → Inv (send a method m sv).1
  send-Inv method m sv v =
      unfold send in
      sending-Inv method m (acquire_worker a sv) (acquire_worker-ref sv) (acquire_worker-Inv sv v)

-- A call of the supervisor, or the run of a release that one of them returned.
pub data Call : Type 0 where
  start_call suspend_call shutdown_call : Call
  send_call : String → Map → Call
  release_call : Release → Call

unfoldable pub step : {E : Type 0} → Adapters E → Supervisor E → Call → Supervisor E
unfolding start send suspend shutdown run_release
step a sv start_call = (start a sv).1
step a sv suspend_call = (suspend a sv).1
step a sv shutdown_call = (shutdown a sv).1
step a sv (send_call method m) = (send a method m sv).1
step a sv (release_call r) = (run_release a r sv).1

module _ {E : Type 0} (a : Adapters E) where
  pub step-Inv : (sv : Supervisor E) (c : Call) → Inv sv → Inv (step a sv c)
  unfolding step
  step-Inv sv start_call v = ground (arith, acquire_worker-Inv a sv v)
  step-Inv sv suspend_call v = release_worker-Inv a sv v
  step-Inv sv shutdown_call v = ground arith
  step-Inv sv (send_call method m) v = send-Inv a method m sv v
  step-Inv sv (release_call r) v = ground arith
