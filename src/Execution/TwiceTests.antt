-- ===== src/Execution/TwiceTests.antt =====
-- The two starts of a WebAssembly dispatcher with two instances, and two messages.
use shimmy_wasm_go.Base.{◌<◌, arith, ℕ, String, ◌≡◌, refl, none, [], ◌∷◌, List}
use shimmy_wasm_go.Exec.{Error, message, Result, ok, err}
use shimmy_wasm_go.Json.{Map, pos}
use shimmy_wasm_go.Runtime.Lifecycle.{live}
use shimmy_wasm_go.Execution.Wasm.Dispatcher
use shimmy_wasm_go.Execution.Wasm.Dispatcher.{WasmDispatcher, instances}
use shimmy_wasm_go.Execution.Wasm.Dispatcher.Trace.{
  is_opened, is_closed, is_started, is_shut, times,
}
use shimmy_wasm_go.Execution.Wasm.Dispatcher.Twice.{
  sends, over, starting, configured, wasm_config, live-leaks,
}
use shimmy_wasm_go.Execution.Config.{ExecutionConfig, wasm}
use shimmy_wasm_go.Execution.Rpc.Env.{stdio}
use shimmy_wasm_go.Execution.Choice.{Makers, wasm_dispatcher, new_dispatcher}
use shimmy_wasm_go.Execution.WasmTests.{wasm_answers, two_ready}

abbrev started_again : WasmDispatcher
started_again = record two_ready {
  pool = 2 ∷ 3 ∷ [];
  next = 4;
  trace = Dispatcher.started 3 ∷ Dispatcher.started 2 ∷ Dispatcher.runtime_opened ∷ two_ready.trace;
}

wasm_starts_again : Dispatcher.start wasm_answers two_ready ≡ (ok tt, started_again)
unfolding Dispatcher.start
wasm_starts_again = refl

abbrev ended : Error
ended = message "context ended"

abbrev answer : String → Map → ℕ → Result Error Map
answer method m i = ok none

abbrev messages : List (ℕ → Result Error Map)
messages = (λ i. ok none) ∷ (λ i. err (message "trap")) ∷ []

-- `NewDispatcher` for a module and two instances
abbrev config : ExecutionConfig
config = record {
  max_workers = pos 2;
  supervisor = record {
    io = record {
      interface = wasm;
      rpc = record {
        transport = stdio;
        http_url = "";
        ipc_endpoint = "";
        ws_url = "";
        tcp_address = "";
      };
    };
    start_params = record { cmd = "eval.wasm"; cwd = ""; args = []; env = none };
    stop_params = record { timeout = pos 5 };
    send_params = record { timeout = pos 30 };
  };
}

abbrev makers : Makers WasmDispatcher ℕ ℕ
makers = record { start_wasm = λ c. err ended; env = 0; cpus = 8; new_pool = λ size c. ok 0 }

made_ready : new_dispatcher (starting wasm_answers makers) config ≡ ok (wasm_dispatcher two_ready)
unfolding new_dispatcher Dispatcher.start
made_ready = refl

one_of_two : 1 < instances (configured wasm_answers (wasm_config config))
unfolding instances
one_of_two = omega arith

live-leaks_example :
    let t = (live (over wasm_answers ended answer none) (sends ended messages) two_ready).trace in
    (times is_opened t ≡ 2)
    × (times is_closed t ≡ 1)
    × (times (is_started 1) t ≡ 1)
    × (times (is_shut 1) t ≡ 0)
live-leaks_example =
    live-leaks wasm_answers wasm_answers ended answer none makers config messages two_ready
      started_again 1 made_ready wasm_starts_again one_of_two
