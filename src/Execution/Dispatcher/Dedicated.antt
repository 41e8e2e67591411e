-- ===== src/Execution/Dispatcher/Dedicated.antt =====
-- internal/execution/dispatcher/dispatcher_dedicated.go, and the constructor and the destructor
-- that dispatcher_pooled.go has for a supervisor of the pool.
pub mod Lifecycle
use shimmy_wasm_go.Base.{
  ℕ, String, ◌≡◌, refl, ◌⊎◌, inl, inr, Bool, true, false, Option, none, some, List, [], ◌∷◌, arith,
}
use shimmy_wasm_go.Exec.{Error, wrap, Result, ok, err, panics, Exec, Returned-cases, Result-cases}
use shimmy_wasm_go.Json.{Map}
use shimmy_wasm_go.Execution.Config.{DedicatedConfig, is_rpc}
use shimmy_wasm_go.Execution.Supervisor.{
  Ref, Adapters, Event, created, started, start_failed, sent, stopping, cancelled, Supervisor,
  Release, waits, fails, noop, SendResult, acquire_worker, send_to, sending, shutdown, run_release,
  boot_worker, wrapped,
}
use shimmy_wasm_go.Execution.Supervisor

module _ {E : Type 0} (a : Adapters E) where
  abbrev Act : Type 0 → Type 0
  Act A = Exec Error (Supervisor E) A

  -- `Start`
  unfoldable pub start : Act (Unit {0})
  unfolding Supervisor.start
  start = Supervisor.start a

  abbrev started_or_failed : Result Error (Unit {0}) × Supervisor E → Result Error (Supervisor E)
  started_or_failed (ok _, sv) = ok sv
  started_or_failed (err e, sv) = err e
  started_or_failed (panics, sv) = panics

  -- the data behind the release
  abbrev settled : Map → Result Error (Unit {0}) × Supervisor E → Result Error Map × Supervisor E
  settled m (ok _, sv) = (ok m, sv)
  settled m (err e, sv) = (err (wrap "error releasing worker" e), sv)
  settled m (panics, sv) = (panics, sv)

  -- `Send` behind the supervisor: the release of a message that failed is not run.
  unfoldable pub answered : Result Error SendResult × Supervisor E → Result Error Map × Supervisor E
  unfolding run_release
  answered (ok res, sv) = elim res.error [
    | some e ↦ (err (wrap "error sending data" e), sv)
    | none ↦ settled res.data_out (run_release a res.release sv)
  ]
  answered (err e, sv) = (err (wrap "error sending data" e), sv)
  answered (panics, sv) = (panics, sv)

  -- `Send`
  unfoldable pub send : String → Map → Act Map
  unfolding answered Supervisor.send
  send method m sv = answered (Supervisor.send a method m sv)

  abbrev shut : Result Error Release × Supervisor E → Result Error (Unit {0}) × Supervisor E
  shut (ok r, sv) = run_release a r sv
  shut (err e, sv) = (err e, sv)
  shut (panics, sv) = (panics, sv)

  -- `Shutdown`, which waits; a supervisor never returns a nil wait function with no error.
  unfoldable pub shut_down : Act (Unit {0})
  unfolding run_release shutdown
  shut_down sv = shut (shutdown a sv)

  -- The pool's `constructor`: what is not made, or fails to start, is no resource.
  unfoldable pub construct : Result Error (Supervisor E) → Result Error (Supervisor E)
  unfolding start
  construct (ok sv) = started_or_failed (start sv)
  construct (err e) = err e
  construct panics = panics

  -- The pool's `destructor`, which logs the errors.
  unfoldable pub destruct : Supervisor E → Supervisor E
  unfolding shut_down
  destruct sv = (shut_down sv).1

-- `createSupervisor`: `New` of the supervisor returns no error.
unfoldable pub create_supervisor : {E : Type 0} → DedicatedConfig → E → Result Error (Supervisor E)
create_supervisor config env = ok (Supervisor.new (is_rpc config.supervisor.io.interface) env)

-- `NewDedicatedDispatcher`
unfoldable pub new_dedicated_dispatcher :
    {E : Type 0} → DedicatedConfig → E → Result Error (Supervisor E)
unfolding create_supervisor
new_dedicated_dispatcher config env = create_supervisor config env
