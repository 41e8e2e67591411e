-- ===== src/Execution/Wasm/Dispatcher/Twice.antt =====
-- The WebAssembly dispatcher is started by `NewDispatcher` of internal/execution/dispatcher.go and
-- once more by the hook of runtime/runtime.go.
use shimmy_wasm_go.Base.{
  ℕ, String, zero, suc, ◌≤◌, ◌<◌, ◌≡◌, refl, ap, ◌∙◌, inl, inr, Bool, true, false, Option, List, [],
  ◌∷◌, All-append, arith, List-cases,
}
use shimmy_wasm_go.Exec.{Error, Result, ok, err, panics, Result-cases}
use shimmy_wasm_go.Json.{Map}
use shimmy_wasm_go.Runtime.Lifecycle.{EvaluationRuntime, live}
use shimmy_wasm_go.Execution.Config.{WasmConfig, ExecutionConfig}
use shimmy_wasm_go.Execution.Choice.{Makers, wasm_dispatcher, new_dispatcher}
use shimmy_wasm_go.Execution.Dispatcher.Dedicated.{new_dedicated_dispatcher, create_supervisor}
use shimmy_wasm_go.Execution.Dispatcher.Pooled.{new_pooled_dispatcher}
use shimmy_wasm_go.Execution.Wasm.Dispatcher.{
  Event, started, shut, runtime_opened, runtime_closed, WasmDispatcher, Answers, new, instances,
  shut_all, drain_pool, fill, start, send, shut_down, acquire, give_back, lose,
}
use shimmy_wasm_go.Execution.Wasm.Dispatcher.Trace.{
  is_opened, is_closed, is_started, is_shut, times, Above, shut_all-times, fill-times, fill-starts,
  fill-pool, start-fill, opened_runtime,
}

send-Keeps :
    (n : ℕ) (ctx : Error) (answer : ℕ → Result Error Map) (d : WasmDispatcher)
    → Above n d.pool
    → let b = (send ctx answer d).1 in
      (b.trace ≡ d.trace) × (b.has_runtime ≡ d.has_runtime) × Above n b.pool
unfolding send acquire give_back lose
send-Keeps n ctx answer d a = elim (List-cases d.pool) [
  | inl p ↦ ground arith
  | inr (sv, rest, p) ↦
      let all : Above n (sv ∷ rest) = rw p at a in
      let back = All-append (λ j. n ≤ j) rest (sv ∷ []) all.1 (all.0, tt) in
      elim (Result-cases (answer sv)) [
        | inl (m, r) ↦ rw (p, r) (refl, refl, back)
        | inr (inl (e, r)) ↦ rw (p, r) (refl, refl, back)
        | inr (inr r) ↦ rw (p, r) (refl, refl, all.1)
      ]
]

-- messages, one behind the other, by what each instance answers
abbrev pub sends : Error → List (ℕ → Result Error Map) → WasmDispatcher → WasmDispatcher
sends ctx [] d = d
sends ctx (answer ∷ answers) d = sends ctx answers (send ctx answer d).1

sends-Keeps :
    (n : ℕ) (ctx : Error) (answers : List (ℕ → Result Error Map)) (d : WasmDispatcher)
    → Above n d.pool
    → let b = sends ctx answers d in
      (b.trace ≡ d.trace) × (b.has_runtime ≡ d.has_runtime) × Above n b.pool
sends-Keeps n ctx [] d a = (refl, refl, a)
sends-Keeps n ctx (answer ∷ answers) d a =
    let k = send-Keeps n ctx answer d a in
    let l = sends-Keeps n ctx answers (send ctx answer d).1 k.2 in (l.0 ∙ k.0, l.1 ∙ k.1, l.2)

shut_down-trace :
    (close : Option Error) (d : WasmDispatcher)
    → d.has_runtime ≡ true
    → (shut_down close d).1.trace ≡ runtime_closed ∷ shut_all d.pool d.trace
unfolding shut_down drain_pool
shut_down-trace close d h = ground arith

-- the runtime over a dispatcher whose start and whose end of the runtime are answered so
abbrev pub over :
    Answers
    → Error
    → (String → Map → ℕ → Result Error Map)
    → Option Error
    → EvaluationRuntime WasmDispatcher
over again ctx answer close = record {
  dispatcher = record {
    start = start again;
    send = λ method m. send ctx (answer method m);
    shut_down = shut_down close;
  };
}

-- What the first start and the system say together: the module and the number of instances are
-- those of the configuration.
abbrev pub configured : Answers → WasmConfig → Answers
configured sys c = record sys { module_path = c.module_path; max_instances = c.max_instances }

abbrev started_wasm : Result Error (Unit {0}) × WasmDispatcher → Result Error WasmDispatcher
started_wasm (ok _, d) = ok d
started_wasm (err e, d) = err e
started_wasm (panics, d) = panics

-- `NewDispatcher` with the start of this dispatcher
abbrev pub starting :
    {E P : Type 0} → Answers → Makers WasmDispatcher E P → Makers WasmDispatcher E P
starting sys makers = record makers {
  start_wasm = λ c. started_wasm (start (configured sys c) new);
}

abbrev pub wasm_config : ExecutionConfig → WasmConfig
wasm_config c = record {
  module_path = c.supervisor.start_params.cmd;
  max_instances = c.max_workers;
  timeout = c.supervisor.send_params.timeout;
}

new_dispatcher-start :
    {E P : Type 0} (sys : Answers) (makers : Makers WasmDispatcher E P) (c : ExecutionConfig)
    (d : WasmDispatcher)
    → new_dispatcher (starting sys makers) c ≡ ok (wasm_dispatcher d)
    → start (configured sys (wasm_config c)) new ≡ (ok tt, d)
unfolding new_dispatcher new_dedicated_dispatcher create_supervisor new_pooled_dispatcher
new_dispatcher-start sys makers c d e = ground arith

-- What the second start and the shutdown add to a trace, for events that are none of their starts and
-- shutdowns.
after :
    (p : Event → Bool) (again : Answers) (n : ℕ) (svs : List ℕ) (d b : WasmDispatcher)
    → fill again.starts (instances again) zero (opened_runtime d) ≡ (ok tt, b)
    → Above n svs
    → ((j : ℕ) → n ≤ j → p (shut j) ≡ false)
    → ((j : ℕ) → d.next ≤ j → p (started j) ≡ false)
    → times p (shut_all svs b.trace) ≡ times p (runtime_opened ∷ d.trace)
after p again n svs d b g a h k =
    shut_all-times p n svs b.trace h a
    ∙ fill-times p again.starts (instances again) zero (opened_runtime d) b g k

module _ (sys again : Answers) (ctx : Error) (answer : String → Map → ℕ → Result Error Map)
    (close : Option Error) where
  twice :
      (answers : List (ℕ → Result Error Map)) (d b : WasmDispatcher) (i : ℕ)
      → start sys new ≡ (ok tt, d)
      → start again d ≡ (ok tt, b)
      → i < instances sys
      → let t = (live (over again ctx answer close) (sends ctx answers) d).trace in
        (times is_opened t ≡ 2)
        × (times is_closed t ≡ 1)
        × (times (is_started i) t ≡ 1)
        × (times (is_shut i) t ≡ 0)
  unfolding live
  twice answers d b i p q l =
      let n = instances sys in
      let f = start-fill sys new d p in
      let g = start-fill again d b q in
      let first = fill-pool 0 sys.starts n zero (opened_runtime new) d f (omega arith) tt in
      let base : n ≤ d.next = omega (arith, first.0) in
      let second = fill-pool n again.starts (instances again) zero (opened_runtime d) b g base tt in
      let kept = sends-Keeps n ctx answers b second.2 in
      let same : live (over again ctx answer close) (sends ctx answers) d
          ≡ (shut_down close (sends ctx answers b)).1 =
        rw q refl in
      let svs = (sends ctx answers b).pool in
      let whole : (live (over again ctx answer close) (sends ctx answers) d).trace
          ≡ runtime_closed ∷ shut_all svs b.trace =
        ap (λ z. z.trace) same
        ∙ shut_down-trace close (sends ctx answers b) (kept.1 ∙ second.1)
        ∙ ap (λ t. runtime_closed ∷ shut_all svs t) kept.0 in
      let opens = after is_opened again n svs d b g kept.2 (λ j h. refl) (λ j h. refl) in
      let opened = fill-times is_opened sys.starts n zero (opened_runtime new) d f (λ j h. refl) in
      let closes = after is_closed again n svs d b g kept.2 (λ j h. refl) (λ j h. refl) in
      let closed = fill-times is_closed sys.starts n zero (opened_runtime new) d f (λ j h. refl) in
      rw whole (
        opens ∙ ap suc opened,
        ap suc (closes ∙ closed),
        after (is_started i) again n svs d b g kept.2 (λ j h. refl) (λ j h. grind arith)
            ∙ fill-starts sys.starts n zero i (opened_runtime new) d f (omega arith) (omega arith),
        after (is_shut i) again n svs d b g kept.2 (λ j h. grind arith) (λ j h. refl)
            ∙ fill-times (is_shut i) sys.starts n zero (opened_runtime new) d f (λ j h. refl),
      )

-- `NewDispatcher` has started the WebAssembly dispatcher that it returns, and the hook of the runtime
-- starts it once more. If that succeeds as well, then at the end of the application, whatever
-- messages came between, two runtimes were opened and `Close` was called on one, and each instance of
-- the first start was started and never shut.
pub live-leaks :
    {E P : Type 0} (sys again : Answers) (ctx : Error)
    (answer : String → Map → ℕ → Result Error Map) (close : Option Error)
    (makers : Makers WasmDispatcher E P) (c : ExecutionConfig)
    (answers : List (ℕ → Result Error Map)) (d b : WasmDispatcher) (i : ℕ)
    → new_dispatcher (starting sys makers) c ≡ ok (wasm_dispatcher d)
    → start again d ≡ (ok tt, b)
    → i < instances (configured sys (wasm_config c))
    → let t = (live (over again ctx answer close) (sends ctx answers) d).trace in
      (times is_opened t ≡ 2)
      × (times is_closed t ≡ 1)
      × (times (is_started i) t ≡ 1)
      × (times (is_shut i) t ≡ 0)
live-leaks sys again ctx answer close makers c answers d b i p q l =
    twice (configured sys (wasm_config c)) again ctx answer close answers d b i
      (new_dispatcher-start sys makers c d p) q l
