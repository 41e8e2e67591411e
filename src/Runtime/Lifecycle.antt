-- ===== src/Runtime/Lifecycle.antt =====
-- runtime/runtime.go: the runtime over a dispatcher, and the hooks that start it and shut it down.
use shimmy_wasm_go.Base.{String}
use shimmy_wasm_go.Exec.{Error, Exec, Result, ok, err, panics}
use shimmy_wasm_go.Json.{Map}
use shimmy_wasm_go.Runtime.Command.{Command, command_text}
use shimmy_wasm_go.Runtime.Validate.{Runtime}

-- `execution.Dispatcher`
pub record Dispatcher (S : Type 0) : Type 0 where
  pub start : Exec Error S (Unit {0})
  pub send : String → Map → Exec Error S Map
  pub shut_down : Exec Error S (Unit {0})

pub record EvaluationRuntime (S : Type 0) : Type 0 where
  pub dispatcher : Dispatcher S

-- `NewRuntime`, for what `execution.NewDispatcher` returns
unfoldable pub new_runtime :
    {S : Type 0} → Result Error (Dispatcher S) → Result Error (EvaluationRuntime S)
new_runtime (ok d) = ok (record { dispatcher = d })
new_runtime (err e) = err e
new_runtime panics = panics

module _ {S : Type 0} (r : EvaluationRuntime S) where
  -- `Start`, `Handle` and `Shutdown`
  abbrev pub start : Exec Error S (Unit {0})
  start = r.dispatcher.start

  abbrev pub handle : Command → Map → Exec Error S Map
  handle c m = r.dispatcher.send (command_text c) m

  abbrev pub shut_down : Exec Error S (Unit {0})
  shut_down = r.dispatcher.shut_down

  -- the runtime as the handlers see it
  abbrev pub as_runtime : Runtime S
  as_runtime = record { handle = handle }

-- What the application does: its hooks, with the work between them. A start that fails is the end.
abbrev pub lived : {S A : Type 0} → EvaluationRuntime S → (S → S) → Result Error A × S → S
lived r work (ok _, s) = (shut_down r (work s)).1
lived r work (err e, s) = s
lived r work (panics, s) = s

unfoldable pub live : {S : Type 0} → EvaluationRuntime S → (S → S) → S → S
live r work s = lived r work (start r s)
