-- ===== src/Execution/AdapterTests.antt =====
-- Runs of the adapters: by RPC and by files.
use shimmy_wasm_go.Base.{
  true, ℕ, zero, suc, ◌≡◌, ◌≢◌, refl, inl, Bool, false, Option, none, some, [], ◌∷◌, arith,
}
use shimmy_wasm_go.Exec.{message, ok}
use shimmy_wasm_go.Json.{string, end, field}
use shimmy_wasm_go.Execution.Worker.{Worker, StartConfig}
use shimmy_wasm_go.Execution.Worker
use shimmy_wasm_go.Execution.Worker.Exit.{get_exit_event, clean}
use shimmy_wasm_go.Execution.Rpc.Env.{stdio, RpcConfig}
use shimmy_wasm_go.Execution.Rpc.Backoff.{dial_rpc_with_retry, dial_rpc_with_retry-Settled, Settled}
use shimmy_wasm_go.Execution.Rpc
use shimmy_wasm_go.Execution.Rpc.Ready.{Ready, start-Ready}
use shimmy_wasm_go.Execution.FileAdapter
use shimmy_wasm_go.Execution.FileAdapter.Answer.{Answered, send-Answered}
use shimmy_wasm_go.Execution.FileAdapter.Cleanup.{live, dirs, send-cleans}

abbrev params : StartConfig
params = record { cmd = "eval"; cwd = ""; args = []; env = none }

abbrev config : RpcConfig
config = record {
  transport = stdio;
  http_url = "";
  ipc_endpoint = "";
  ws_url = "";
  tcp_address = "";
}

-- the first two dials fail
abbrev third_dial : ℕ → Option ℕ
third_dial zero = none
third_dial (suc zero) = none
third_dial (suc (suc n)) = some 9

abbrev open_context : ℕ → Bool
open_context i = false

abbrev rpc_answers : Rpc.Answers
rpc_answers = record {
  worker_factory = some (λ c. ok Worker.new);
  context = none;
  stdin_pipe = none;
  stdout_pipe = none;
  stderr_pipe = none;
  launch = ok 42;
  dial = third_dial;
  done = open_context;
  fuel = 5;
}

rpc_starts : (Rpc.start config rpc_answers params Rpc.new).0 ≡ ok tt
unfolding Rpc.start
rpc_starts = refl

start-Ready_example : Ready (Rpc.start config rpc_answers params Rpc.new).1
start-Ready_example = start-Ready config rpc_answers params Rpc.new rpc_starts

third_dial-some : third_dial 2 ≢ none
third_dial-some e = absurd (ground arith)

dial_rpc_with_retry-Settled_example :
    Settled third_dial open_context (dial_rpc_with_retry third_dial open_context 5)
dial_rpc_with_retry-Settled_example =
    dial_rpc_with_retry-Settled third_dial open_context 5 2 (omega arith) (inl third_dial-some)

abbrev file_answers : FileAdapter.Answers
file_answers = record {
  mkdir = none;
  mkdir_temp = ok "/tmp/shimmy/1";
  request = ok "/tmp/shimmy/1/request-data-1";
  response = ok "/tmp/shimmy/1/response-data-1";
  encode = none;
  close = none;
  worker_factory = some (λ c. none);
  read_pipe = none;
  launch = none;
  exit = ok (get_exit_event clean []);
  exit_text = "";
  decode = ok (some (field "result" (string "x") end));
  close_response = none;
  remove = λ s. none;
}

abbrev file_adapter : FileAdapter.FileAdapter
file_adapter = record { start_params = params; worker = none; files = [] }

file_answered :
    (FileAdapter.send file_answers "eval" none file_adapter).0
    ≡ ok (some (field "result" (string "x") end))
unfolding FileAdapter.send shimmy_wasm_go.Execution.Worker.Exit.success get_exit_event
file_answered = refl

send-Answered_example :
    Answered file_answers "eval" none file_adapter
      (FileAdapter.send file_answers "eval" none file_adapter).1
      (some (field "result" (string "x") end))
send-Answered_example =
    send-Answered file_answers "eval" none file_adapter (some (field "result" (string "x") end))
      file_answered

-- the working directory is there already, and the worker fails
abbrev failing_answers : FileAdapter.Answers
failing_answers = record file_answers {
  mkdir = some (message "exists", true);
  launch = some (message "no such file");
}

send-cleans_example :
    (live (FileAdapter.send failing_answers "eval" none file_adapter).1.files
      ≡ live file_adapter.files)
    × (dirs (FileAdapter.send failing_answers "eval" none file_adapter).1.files
        ≡ "/tmp/shimmy/1" ∷ dirs file_adapter.files)
send-cleans_example = send-cleans failing_answers (λ s. refl) "eval" none file_adapter
