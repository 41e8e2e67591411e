-- ===== src/Execution/Rpc/Ready.antt =====
-- internal/execution/supervisor/adapter_rpc.go: what a start that succeeds leaves for a message.
use shimmy_wasm_go.Base.{
  ℕ, String, ◌≡◌, ◌≢◌, refl, Bool, true, false, Option, none, some, if◌then◌else◌, arith,
}
use shimmy_wasm_go.Exec.{Error, Result, ok, err, panics}
use shimmy_wasm_go.Json.{string, Fields, end, field, Map, get}
use shimmy_wasm_go.Json.Codec.{map_value}
use shimmy_wasm_go.Execution.Worker.{StartConfig, Worker}
use shimmy_wasm_go.Execution.Worker
use shimmy_wasm_go.Execution.Rpc.Env.{RpcConfig}
use shimmy_wasm_go.Execution.Rpc.Backoff.{Dialled, connected, gave_up, out_of_fuel}
use shimmy_wasm_go.Execution.Rpc.{
  RpcAdapter, Answers, start, send, launched, starting, piped, made, is_stdio, dialled,
}

-- the worker is up, and there is a client
pub record Ready (a : RpcAdapter) : Type 0 where
  pub running : Worker
  pub has_worker : a.worker ≡ some running
  pub is_up : running.process ≢ none
  pub client : ℕ
  pub has_client : a.rpc_client ≡ some client

dialled-Ready :
    (a : RpcAdapter) (w : Worker) (d : Dialled)
    → a.worker ≡ some w
    → w.process ≢ none
    → (dialled a d).0 ≡ ok tt
    → Ready (dialled a d).1
dialled-Ready a w (connected c n) h k e = record {
  running = w;
  has_worker = h;
  is_up = k;
  client = c;
  has_client = refl;
}
dialled-Ready a w (gave_up n) h k e = absurd (ground arith)
dialled-Ready a w out_of_fuel h k e = absurd (ground arith)

launched-Ready :
    (config : RpcConfig) (sys : Answers) (a : RpcAdapter) (o : Result Error (Unit {0}) × Worker)
    → (o.0 ≡ ok tt → o.1.process ≢ none)
    → (launched config sys a o).0 ≡ ok tt
    → Ready (launched config sys a o).1
launched-Ready config sys a (ok _, w) k e = dialled-Ready _ w _ refl (k refl) e
launched-Ready config sys a (err x, w) k e = absurd (ground arith)
launched-Ready config sys a (panics, w) k e = absurd (ground arith)

start-process :
    (c p : Option Error) (l : Result Error ℕ) (w : Worker)
    → (Worker.start c p l w).0 ≡ ok tt
    → (Worker.start c p l w).1.process ≢ none
unfolding Worker.start
start-process c p l w e = ground arith

starting-Ready :
    (config : RpcConfig) (sys : Answers) (a : RpcAdapter) (w : Worker)
    → (starting config sys a w).0 ≡ ok tt
    → Ready (starting config sys a w).1
starting-Ready config sys a w =
    launched-Ready config sys a (Worker.start sys.context sys.stderr_pipe sys.launch w)
      (start-process sys.context sys.stderr_pipe sys.launch w)

piped-Ready :
    (config : RpcConfig) (sys : Answers) (a : RpcAdapter) (o : Result Error (Unit {0}) × Worker)
    → (piped config sys a o).0 ≡ ok tt
    → Ready (piped config sys a o).1
piped-Ready config sys a (ok _, w) e =
    starting-Ready config sys (record a { worker = some w; stdio_pipe = true }) w e
piped-Ready config sys a (err x, w) e = absurd (ground arith)
piped-Ready config sys a (panics, w) e = absurd (ground arith)

chosen-Ready :
    (config : RpcConfig) (sys : Answers) (a : RpcAdapter) (w : Worker) (b : Bool)
    (p : Result Error (Unit {0}) × Worker)
    → let o =
        if b then piped config sys a p else starting config sys (record a { worker = some w }) w in
      o.0 ≡ ok tt → Ready o.1
chosen-Ready config sys a w true p e = piped-Ready config sys a p e
chosen-Ready config sys a w false p e = starting-Ready config sys (record a { worker = some w }) w e

made-Ready :
    (config : RpcConfig) (sys : Answers) (a : RpcAdapter) (m : Result Error Worker)
    → (made config sys a m).0 ≡ ok tt
    → Ready (made config sys a m).1
made-Ready config sys a (ok w) e =
    chosen-Ready config sys a w (is_stdio config.transport)
      (Worker.duplex_pipe sys.stdin_pipe sys.stdout_pipe w) e
made-Ready config sys a (err x) e = absurd (ground arith)
made-Ready config sys a panics e = absurd (ground arith)

started-Ready :
    (config : RpcConfig) (sys : Answers) (params : StartConfig) (a : RpcAdapter)
    (f : Option (StartConfig → Result Error Worker))
    → (start config (record sys { worker_factory = f }) params a).0 ≡ ok tt
    → Ready (start config (record sys { worker_factory = f }) params a).1
unfolding start
started-Ready config sys params a none e = absurd (ground arith)
started-Ready config sys params a (some f) e =
    made-Ready config (record sys { worker_factory = some f }) a _ e

-- An RPC adapter whose start succeeds has a worker that was launched and a client, whatever the
-- transport.
pub start-Ready :
    (config : RpcConfig) (sys : Answers) (params : StartConfig) (a : RpcAdapter)
    → (start config sys params a).0 ≡ ok tt
    → Ready (start config sys params a).1
start-Ready config sys params a = started-Ready config sys params a sys.worker_factory

-- A message to an RPC adapter that is ready is answered with what the client returns, under
-- `result`, beside the command, and changes nothing.
pub send-replies :
    (method : String) (m : Map) (a : RpcAdapter)
    → Ready a
    → (f : Fields) × (send method (ok m) a ≡ (ok (some f), a))
      × (get "result" f ≡ some (map_value m))
      × (get "command" f ≡ some (string method))
unfolding send get
send-replies method m a r =
    (field "result" (map_value m) (field "command" (string method) end), ground arith, refl, refl)
