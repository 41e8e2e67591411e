-- ===== src/Execution/Supervisor/Concurrent.antt =====
-- internal/execution/supervisor/supervisor.go: calls that run at the same time. `sendLock` lets one
-- message run at a time; the other calls, and the steps of that message, exclude each other by
-- `workerLock` where they touch the reference to the worker, and a message to the worker is a step
-- outside this lock.
use shimmy_wasm_go.Base.{
  String, ap, sym, ◌∙◌, ◌≡◌, refl, ◌⊎◌, inl, Bool, none, some, List, [], ◌∷◌, arith,
}
use shimmy_wasm_go.Exec.{Error, Result, ok, err, panics}
use shimmy_wasm_go.Json.{Map}
use shimmy_wasm_go.Execution.Supervisor.{
  Ref, Adapters, Event, created, started, start_failed, sent, stopping, cancelled, Supervisor,
  Release, acquire_worker, terminate_worker, release_worker, start, suspend, shutdown, run_release,
  send, send_to, sending, after_send, released, new,
}
use shimmy_wasm_go.Execution.Supervisor.Ownership.{owned, acquire_worker-ref}

-- The message that has `sendLock`: none, one that has got its worker, or one whose worker has
-- answered.
pub data Phase : Type 0 where
  idle : Phase
  acquired answered : Ref → Phase

pub record State (E : Type 0) : Type 0 where
  pub supervisor : Supervisor E
  pub phase : Phase

-- where a message is behind the worker's answer: a panic leaves it at once
abbrev pub phase_of : Ref → Result Error Map → Phase
phase_of r (ok m) = answered r
phase_of r (err e) = answered r
phase_of r panics = idle

pub data Step {E : Type 0} (a : Adapters E) : State E → State E → Type 0 where
  -- `Send`, up to the worker, which it may fail to get, then the message, and then the release
  acquires :
      (sv b : Supervisor E) (r : Ref)
      → acquire_worker a sv ≡ (ok r, b)
      → Step a
          (record { supervisor = sv; phase = idle })
          (record { supervisor = b; phase = acquired r })
  fails :
      (sv b : Supervisor E) (e : Error)
      → acquire_worker a sv ≡ (err e, b)
      → Step a (record { supervisor = sv; phase = idle }) (record { supervisor = b; phase = idle })
  breaks :
      (sv b : Supervisor E)
      → acquire_worker a sv ≡ (panics, b)
      → Step a (record { supervisor = sv; phase = idle }) (record { supervisor = b; phase = idle })
  sends :
      (sv : Supervisor E) (r : Ref) (method : String) (m : Map)
      → Step a
          (record { supervisor = sv; phase = acquired r })
          (record {
            supervisor = (after_send a r sv (a.send r method m sv.env)).1;
            phase = phase_of r (a.send r method m sv.env).0;
          })
  releases :
      (sv : Supervisor E) (r : Ref)
      → Step a
          (record { supervisor = sv; phase = answered r })
          (record { supervisor = (release_worker a sv).1; phase = idle })
  -- the other calls, at any time, and the run of a release
  starts : (s : State E) → Step a s (record s { supervisor = (start a s.supervisor).1 })
  suspends : (s : State E) → Step a s (record s { supervisor = (suspend a s.supervisor).1 })
  shuts : (s : State E) → Step a s (record s { supervisor = (shutdown a s.supervisor).1 })
  runs_release :
      (s : State E) (x : Release)
      → Step a s (record s { supervisor = (run_release a x s.supervisor).1 })

pub data Reach {E : Type 0} (a : Adapters E) (s : State E) : State E → Type 0 where
  here : Reach a s s
  later : (t u : State E) → Reach a s t → Step a t u → Reach a s u

-- the worker `r` was started, and perhaps stopped since
abbrev pub WasStarted : Ref → List Event → Type 0
WasStarted r [] = ⊥
WasStarted r (started q ∷ t) = (q ≡ r) ⊎ WasStarted r t
WasStarted r (_ ∷ t) = WasStarted r t

-- A worker is started only where there is none, only the worker that is there is stopped, and
-- messages go to workers that were started.
abbrev pub IsSerial : List Event → Type 0
IsSerial [] = Unit
IsSerial (started r ∷ t) = (owned t ≡ none) × IsSerial t
IsSerial (stopping r ∷ t) = (owned t ≡ some r) × IsSerial t
IsSerial (sent r ∷ t) = WasStarted r t × IsSerial t
IsSerial (_ ∷ t) = IsSerial t

abbrev HasStarted : Phase → List Event → Type 0
HasStarted idle t = Unit
HasStarted (acquired r) t = WasStarted r t
HasStarted (answered r) t = Unit

owned-WasStarted : (r : Ref) (t : List Event) → owned t ≡ some r → WasStarted r t
owned-WasStarted r [] e = cc
owned-WasStarted r (created q ∷ t) e = owned-WasStarted r t e
owned-WasStarted r (started q ∷ t) e = inl (ground arith)
owned-WasStarted r (start_failed q ∷ t) e = owned-WasStarted r t e
owned-WasStarted r (sent q ∷ t) e = owned-WasStarted r t e
owned-WasStarted r (stopping q ∷ t) e = cc
owned-WasStarted r (cancelled q ∷ t) e = owned-WasStarted r t e

pub record Serial {E : Type 0} (s : State E) : Type 0 where
  pub owns : owned s.supervisor.trace ≡ s.supervisor.worker_ref
  pub serial : IsSerial s.supervisor.trace
  pub has_started : HasStarted s.phase s.supervisor.trace

-- what holds of a supervisor behind a call, where `sv` was before it
record Kept {E : Type 0} (sv b : Supervisor E) : Type 0 where
  owns : owned b.trace ≡ b.worker_ref
  serial : IsSerial b.trace
  remembers : (r : Ref) → WasStarted r sv.trace → WasStarted r b.trace

HasStarted-kept :
    (p : Phase) (t u : List Event)
    → ((r : Ref) → WasStarted r t → WasStarted r u)
    → HasStarted p t
    → HasStarted p u
HasStarted-kept idle t u k h = tt
HasStarted-kept (acquired r) t u k h = k r h
HasStarted-kept (answered r) t u k h = tt

module _ {E : Type 0} (a : Adapters E) where
  acquire_worker-Kept :
      (sv : Supervisor E)
      → owned sv.trace ≡ sv.worker_ref
      → IsSerial sv.trace
      → Kept sv (acquire_worker a sv).1
  unfolding acquire_worker
  acquire_worker-Kept sv o i = ground arith

  terminate_worker-Kept :
      (sv : Supervisor E)
      → owned sv.trace ≡ sv.worker_ref
      → IsSerial sv.trace
      → Kept sv (terminate_worker a sv).1
  unfolding terminate_worker
  terminate_worker-Kept sv o i = ground arith

  release_worker-Kept :
      (sv : Supervisor E)
      → owned sv.trace ≡ sv.worker_ref
      → IsSerial sv.trace
      → Kept sv (release_worker a sv).1
  unfolding release_worker
  release_worker-Kept sv o i = ground arith

  after_send-Kept :
      (sv : Supervisor E) (r : Ref) (o : Result Error Map × E)
      → owned sv.trace ≡ sv.worker_ref
      → IsSerial sv.trace
      → WasStarted r sv.trace
      → Kept sv (after_send a r sv o).1
  after_send-Kept sv r (m, env) o i w = record { owns = o; serial = (w, i); remembers = λ q v. v }

  run_release-Kept :
      (x : Release) (sv : Supervisor E)
      → owned sv.trace ≡ sv.worker_ref
      → IsSerial sv.trace
      → Kept sv (run_release a x sv).1
  unfolding run_release
  run_release-Kept x sv o i = ground arith

  start-Kept :
      (sv : Supervisor E)
      → owned sv.trace ≡ sv.worker_ref
      → IsSerial sv.trace
      → Kept sv (start a sv).1
  unfolding start
  start-Kept sv o i = ground (arith, acquire_worker-Kept sv o i)

  acquired-owned :
      (sv b : Supervisor E) (r : Ref)
      → acquire_worker a sv ≡ (ok r, b)
      → owned b.trace ≡ b.worker_ref
      → WasStarted r b.trace
  acquired-owned sv b r e o =
      let ref = acquire_worker-ref a sv r (ap (λ x. x.0) e) in
      owned-WasStarted r b.trace (o ∙ (ap (λ x. x.1.worker_ref) (sym e) ∙ ref))

  Kept-Serial :
      (s : State E) (b : Supervisor E)
      → Serial s
      → Kept s.supervisor b
      → Serial (record s { supervisor = b })
  Kept-Serial s b v k = record {
    owns = k.owns;
    serial = k.serial;
    has_started = HasStarted-kept s.phase s.supervisor.trace b.trace k.remembers v.has_started;
  }

  phase_of-HasStarted :
      (r : Ref) (o : Result Error Map) (t : List Event) → HasStarted (phase_of r o) t
  phase_of-HasStarted r (ok m) t = tt
  phase_of-HasStarted r (err e) t = tt
  phase_of-HasStarted r panics t = tt

  acquired-Kept :
      (sv b : Supervisor E) (o : Result Error Ref)
      → acquire_worker a sv ≡ (o, b)
      → owned sv.trace ≡ sv.worker_ref
      → IsSerial sv.trace
      → Kept sv b
  acquired-Kept sv b o e w i = rw (ap (λ x. x.1) (sym e)) (acquire_worker-Kept sv w i)

  Step-Serial : {s t : State E} → Step a s t → Serial s → Serial t
  Step-Serial (acquires sv b r e) v =
      let k = acquired-Kept sv b (ok r) e v.owns v.serial in
      record { owns = k.owns; serial = k.serial; has_started = acquired-owned sv b r e k.owns }
  Step-Serial (fails sv b x e) v = Kept-Serial _ b v (acquired-Kept sv b (err x) e v.owns v.serial)
  Step-Serial (breaks sv b e) v = Kept-Serial _ b v (acquired-Kept sv b panics e v.owns v.serial)
  Step-Serial (sends sv r method m) v =
      let k = after_send-Kept sv r (a.send r method m sv.env) v.owns v.serial v.has_started in
      record {
        owns = k.owns;
        serial = k.serial;
        has_started = phase_of-HasStarted r (a.send r method m sv.env).0 _;
      }
  Step-Serial (releases sv r) v =
      let k = release_worker-Kept sv v.owns v.serial in
      record { owns = k.owns; serial = k.serial; has_started = tt }
  Step-Serial (starts s) v = Kept-Serial s _ v (start-Kept s.supervisor v.owns v.serial)
  Step-Serial (suspends s) v =
      unfold suspend in Kept-Serial s _ v (release_worker-Kept s.supervisor v.owns v.serial)
  Step-Serial (shuts s) v =
      unfold shutdown in Kept-Serial s _ v (terminate_worker-Kept s.supervisor v.owns v.serial)
  Step-Serial (runs_release s x) v =
      Kept-Serial s _ v (run_release-Kept x s.supervisor v.owns v.serial)

  abbrev pub idled : Supervisor E → State E
  idled sv = record { supervisor = sv; phase = idle }

  released-Reach :
      (s : State E) (r : Ref) (b : Supervisor E) (o : Result Error Map × E)
      → Reach a s (record { supervisor = (after_send a r b o).1; phase = phase_of r o.0 })
      → Reach a s (idled (released a (after_send a r b o)).1)
  released-Reach s r b (ok m, env) h = later _ _ h (releases _ r)
  released-Reach s r b (err e, env) h = later _ _ h (releases _ r)
  released-Reach s r b (panics, env) h = h

  sending-Reach :
      (sv : Supervisor E) (method : String) (m : Map) (o : Result Error Ref) (b : Supervisor E)
      → acquire_worker a sv ≡ (o, b)
      → Reach a (idled sv) (idled (sending a method m (o, b)).1)
  unfolding send_to
  sending-Reach sv method m (ok r) b e =
      released-Reach (idled sv) r b (a.send r method m b.env)
        (later _ _ (later _ _ here (acquires sv b r e)) (sends b r method m))
  sending-Reach sv method m (err x) b e = later _ _ here (fails sv b x e)
  sending-Reach sv method m panics b e = later _ _ here (breaks sv b e)

  -- The steps of one message, with none between them, are the call `Send`.
  send-Reach :
      (sv : Supervisor E) (method : String) (m : Map)
      → Reach a (idled sv) (idled (send a method m sv).1)
  send-Reach sv method m =
      unfold send in sending-Reach sv method m (acquire_worker a sv).0 (acquire_worker a sv).1 refl

  -- A new supervisor, whatever calls it gets and whatever the adapters answer, and however the steps
  -- of a message interleave with the other calls: a worker is started only where there is none, so
  -- that two are never up; what is stopped is the worker that was started last and was not stopped
  -- since; a message goes to a worker whose start has succeeded, which another call may have stopped
  -- in the meantime; and the supervisor refers to the worker that was started last and was not
  -- stopped since. Here a worker is started once its start has succeeded, and stopped once `Stop` has
  -- been called on it.
  pub Reach-Serial :
      (persistent : Bool) (env : E) (s : State E)
      → Reach a (idled (new persistent env)) s
      → Serial s
  Reach-Serial persistent env _ here = record { owns = refl; serial = tt; has_started = tt }
  Reach-Serial persistent env _ (later t u h x) = Step-Serial x (Reach-Serial persistent env t h)
