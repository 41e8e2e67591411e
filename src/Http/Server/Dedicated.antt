-- ===== src/Http/Server/Dedicated.antt =====
-- The whole server over a dedicated dispatcher: from its start over HTTP requests to its shutdown.
use shimmy_wasm_go.Base.{String, ◌≡◌, Bool, Option, none, List, refl, arith, ◌≢◌, ◌∙◌}
use shimmy_wasm_go.Exec.{Error, Result, ok, err, panics}
use shimmy_wasm_go.Json.{Map}
use shimmy_wasm_go.Json.Codec.{Body}
use shimmy_wasm_go.Runtime.Command.{command_text}
use shimmy_wasm_go.Runtime.Errors.{ValidationType}
use shimmy_wasm_go.Runtime.Schema.{Schema}
use shimmy_wasm_go.Runtime.Validate.{RuntimeHandler}
use shimmy_wasm_go.Runtime.MuEd.{EvaluateRequest}
use shimmy_wasm_go.Runtime.Lifecycle.{Dispatcher, EvaluationRuntime, as_runtime, lived, live}
use shimmy_wasm_go.Http.Reply.{Reply, HttpRequest}
use shimmy_wasm_go.Http.Server.{serve_all}
use shimmy_wasm_go.Http.Server.Keeps.{serve_all-Keeps}
use shimmy_wasm_go.Execution.Supervisor.{
  Adapters, Supervisor, Release, new, terminate_worker, boot_worker, acquire_worker, send_to,
  sending, shutdown, run_release,
}
use shimmy_wasm_go.Execution.Supervisor
use shimmy_wasm_go.Execution.Supervisor.Ownership.{
  Inv, IsOrderly, owned, step, step-Inv, start_call, send_call, release_call,
}
use shimmy_wasm_go.Execution.Dispatcher.Dedicated.{start, send, answered, shut_down}

module _ {E : Type 0} (a : Adapters E) where
  abbrev pub dedicated : Dispatcher (Supervisor E)
  dedicated = record { start = start a; send = send a; shut_down = shut_down a }

  abbrev pub dedicated_runtime : EvaluationRuntime (Supervisor E)
  dedicated_runtime = record { dispatcher = dedicated }

  abbrev pub handler : (ValidationType → Option Schema) → RuntimeHandler (Supervisor E)
  handler schemas = record { runtime = as_runtime dedicated_runtime; schemas = schemas }

  release-Inv : (r : Release) (sv : Supervisor E) → Inv sv → Inv (run_release a r sv).1
  release-Inv r sv v = unfold step in step-Inv a sv (release_call r) v

  send-Inv : (method : String) (m : Map) (sv : Supervisor E) → Inv sv → Inv (send a method m sv).1
  unfolding send answered
  send-Inv method m sv v =
      let sent : Inv (Supervisor.send a method m sv).1 =
        unfold step in step-Inv a sv (send_call method m) v in
      grind (arith, release-Inv)

  start-Inv : (sv : Supervisor E) → Inv sv → Inv (start a sv).1
  unfolding start
  start-Inv sv v = unfold step in step-Inv a sv start_call v

  -- Whatever the stop of the worker returns, the supervisor has let it go.
  shut_down-Inv :
      (sv : Supervisor E) → Inv sv → Inv (shut_down a sv).1 × ((shut_down a sv).1.worker_ref ≡ none)
  unfolding shut_down shutdown terminate_worker run_release
  shut_down-Inv sv v = ground arith

  start-none :
      (e : E) (p : Bool) → (start a (new p e)).0 ≢ ok tt → (start a (new p e)).1.worker_ref ≡ none
  unfolding start Supervisor.start acquire_worker boot_worker
  start-none e p k = ground arith

  abbrev IsStopped : Supervisor E → Type 0
  IsStopped sv = Inv sv × (sv.worker_ref ≡ none)

  lived-IsStopped :
      (work : Supervisor E → Supervisor E) (o : Result Error (Unit {0}) × Supervisor E)
      → ((sv : Supervisor E) → Inv sv → Inv (work sv))
      → Inv o.1
      → (o.0 ≢ ok tt → o.1.worker_ref ≡ none)
      → IsStopped (lived dedicated_runtime work o)
  lived-IsStopped work (ok _, sv) k v n = shut_down-Inv (work sv) (k sv v)
  lived-IsStopped work (err e, sv) k v n = (v, n (λ p. cc))
  lived-IsStopped work (panics, sv) k v n = (v, n (λ p. cc))

-- `Serve` between `Start` and `Shutdown` of the runtime
unfoldable pub life :
    {E : Type 0}
    → Adapters E
    → (ValidationType → Option Schema)
    → String
    → (Body → Result Error EvaluateRequest)
    → (HttpRequest → Option Reply)
    → List HttpRequest
    → Supervisor E
    → Supervisor E
unfolding live serve_all
life a schemas key decode redirect rs =
    live (dedicated_runtime a) (serve_all (handler a schemas) key decode redirect rs)

module _ {E : Type 0} (a : Adapters E) (schemas : ValidationType → Option Schema) (key : String)
    (decode : Body → Result Error EvaluateRequest) (redirect : HttpRequest → Option Reply) where
  serve_all-Inv :
      (rs : List HttpRequest) (sv : Supervisor E)
      → Inv sv
      → Inv (serve_all (handler a schemas) key decode redirect rs sv)
  serve_all-Inv =
      serve_all-Keeps Inv (handler a schemas) key decode redirect
        (λ c m. send-Inv a (command_text c) m)

  -- From the start of the server to its shutdown, whatever HTTP requests are served between, one
  -- behind the other, whatever the schemas and the key are, and whatever the adapters answer: a worker
  -- is started only where there is none; `Stop` is called, and messages are sent, only on the worker
  -- that was started last and was not stopped since; and at the end there is no such worker, so that
  -- `Stop` was called on each that was started, and the supervisor refers to none. A worker counts as
  -- started once its start has succeeded, and as stopped once `Stop` has been called on it, whatever
  -- that returns; of a worker whose start fails nothing is said.
  pub life-Stopped :
      (persistent : Bool) (env : E) (rs : List HttpRequest)
      → let sv = life a schemas key decode redirect rs (new persistent env) in
        IsOrderly sv.trace × (owned sv.trace ≡ none) × (sv.worker_ref ≡ none)
  unfolding life live
  life-Stopped persistent env rs =
      let stopped =
        lived-IsStopped a (serve_all (handler a schemas) key decode redirect rs)
          (start a (new persistent env)) (serve_all-Inv rs)
          (start-Inv a (new persistent env) (record { owns = refl; orderly = tt }))
          (start-none a env persistent) in
      (stopped.0.orderly, stopped.0.owns ∙ stopped.1, stopped.1)
