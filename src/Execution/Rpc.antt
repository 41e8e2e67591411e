-- ===== src/Execution/Rpc.antt =====
-- internal/execution/supervisor/adapter_rpc.go, and `stopWorker` of adapter.go. The RPC client is a
-- third-party package; what it and the system answer are arguments.
pub mod Env
pub mod Backoff
pub mod Ready
use shimmy_wasm_go.Base.{
  ℕ, zero, suc, ◌+◌, String, Bool, true, false, Option, none, some, List, [], ◌∷◌, ◌++◌,
  if◌then◌else◌, str_eq,
}
use shimmy_wasm_go.Exec.{Error, sentinel, message, wrap, Result, ok, err, panics, Exec, ◌<>◌}
use shimmy_wasm_go.Json.{ℤ, Value, string, object, Fields, end, field, Map}
use shimmy_wasm_go.Json.Codec.{map_value}
use shimmy_wasm_go.Execution.Worker.{StartConfig, Worker}
use shimmy_wasm_go.Execution.Worker
use shimmy_wasm_go.Execution.Rpc.Env.{
  Transport, stdio, ipc, http, ws, tcp, other, RpcConfig, build_env,
}
use shimmy_wasm_go.Execution.Rpc.Backoff.{
  Dialled, connected, gave_up, out_of_fuel, dial_rpc_with_retry,
}

-- `stopWorker`: what remains is to wait for the worker.
unfoldable pub stop_worker : Exec Error Worker (Unit {0})
unfolding Worker.stop
stop_worker w = Worker.stop w

-- the release that `stopWorker` returns, for what the wait of the worker brings first
unfoldable pub wait_released : Result Error (Unit {0}) → Exec Error Worker (Unit {0})
unfolding Worker.wait
wait_released first w = Worker.wait first w

-- `rpcAdapter`: the worker, whether the pipe is there, and the client, named by a number
pub record RpcAdapter : Type 0 where
  pub worker : Option Worker
  pub stdio_pipe : Bool
  pub rpc_client : Option ℕ

abbrev pub new : RpcAdapter
new = record { worker = none; stdio_pipe = false; rpc_client = none }

-- What answers the calls of `Start`: the worker factory, which may be nil, the pipes and the
-- launch of the worker, the error of the context, and the dials and the context at each retry.
pub record Answers : Type 0 where
  pub worker_factory : Option (StartConfig → Result Error Worker)
  pub context : Option Error
  pub stdin_pipe : Option Error
  pub stdout_pipe : Option Error
  pub stderr_pipe : Option Error
  pub launch : Result Error ℕ
  pub dial : ℕ → Option ℕ
  pub done : ℕ → Bool
  pub fuel : ℕ

-- the cases of `dialRpc`: the stdio transport needs the pipe, each transport a worker, and another
-- transport is not supported; the caller drops the error of a dial, so its text is a stand-in
unfoldable pub dial_rpc : RpcConfig → RpcAdapter → Option ℕ → Result Error ℕ
dial_rpc config a client = elim a.worker [
  | none ↦ err (message "worker not available")
  | some w ↦ elim config.transport [
    | other s ↦ err (sentinel "unsupported io transport")
    | stdio ↦
        if a.stdio_pipe
        then elim client [ some c ↦ ok c | none ↦ err (message "dial") ]
        else err (message "stdio pipe not available")
    | _ ↦ elim client [ some c ↦ ok c | none ↦ err (message "dial") ]
  ]
]

abbrev client_of : Result Error ℕ → Option ℕ
client_of (ok c) = some c
client_of (err e) = none
client_of panics = none

-- Fuel that runs out is a start that has not returned, which is no result here. The error that is
-- returned when the context ends wraps nil: the `err` of a failed dial is another
-- variable.
abbrev dialled : RpcAdapter → Dialled → Result Error (Unit {0}) × RpcAdapter
dialled a (connected c n) = (ok tt, record a { rpc_client = some c })
dialled a (gave_up n) = (err (message "error dialing rpc: %!w(<nil>)"), a)
dialled a out_of_fuel = (panics, a)

abbrev launched :
    RpcConfig
    → Answers
    → RpcAdapter
    → Result Error (Unit {0}) × Worker
    → Result Error (Unit {0}) × RpcAdapter
launched config sys a (ok _, w) =
    let b = record a { worker = some w } in
    dialled b
      (dial_rpc_with_retry (λ i. client_of (dial_rpc config b (sys.dial i))) sys.done sys.fuel)
launched config sys a (err e, w) =
    (err (wrap "error starting worker" e), record a { worker = some w })
launched config sys a (panics, w) = (panics, record a { worker = some w })

-- `Start`, from `worker.Start` on
abbrev starting : RpcConfig → Answers → RpcAdapter → Worker → Result Error (Unit {0}) × RpcAdapter
starting config sys a w =
    launched config sys a (Worker.start sys.context sys.stderr_pipe sys.launch w)

abbrev piped :
    RpcConfig
    → Answers
    → RpcAdapter
    → Result Error (Unit {0}) × Worker
    → Result Error (Unit {0}) × RpcAdapter
piped config sys a (ok _, w) =
    starting config sys (record a { worker = some w; stdio_pipe = true }) w
piped config sys a (err e, w) =
    (err (wrap "error creating duplex pipe" e), record a { worker = some w })
piped config sys a (panics, w) = (panics, record a { worker = some w })

abbrev is_stdio : Transport → Bool
is_stdio stdio = true
is_stdio _ = false

abbrev made :
    RpcConfig → Answers → RpcAdapter → Result Error Worker → Result Error (Unit {0}) × RpcAdapter
made config sys a (err e) = (err (wrap "error creating worker" e), a)
made config sys a panics = (panics, a)
made config sys a (ok w) =
    if is_stdio config.transport
    then piped config sys a (Worker.duplex_pipe sys.stdin_pipe sys.stdout_pipe w)
    else starting config sys (record a { worker = some w }) w

-- `Start`
unfoldable pub start : RpcConfig → Answers → StartConfig → Exec Error RpcAdapter (Unit {0})
unfolding dial_rpc dial_rpc_with_retry Worker.start Worker.duplex_pipe build_env
start config sys params a = elim sys.worker_factory [
  | none ↦ (err (message "no worker factory provided"), a)
  | some f ↦ made config sys a (f (record params { env = some (build_env params.env config) }))
]

abbrev replied : String → Result Error Map → Result Error Map
replied method (ok r) =
    ok (some (field "result" (map_value r) (field "command" (string method) end)))
replied method (err e) = err (wrap "error sending rpc request" e)
replied method panics = panics

-- `Send`, for the answer of the RPC client
unfoldable pub send : String → Result Error Map → Exec Error RpcAdapter Map
send method answer a = elim a.worker [
  | none ↦ (err (message "no worker provided"), a)
  | some w ↦ elim a.rpc_client [
    | none ↦ (err (message "rpc client not available"), a)
    | some c ↦ (replied method answer, a)
  ]
]

abbrev stopped :
    RpcAdapter → Result Error (Unit {0}) × Worker → Result Error (Unit {0}) × RpcAdapter
stopped a (r, w) = (r, record a { worker = some w })

-- `Stop`
unfoldable pub stop : Exec Error RpcAdapter (Unit {0})
unfolding stop_worker
stop a = elim a.worker [
  | none ↦ (err (message "no worker provided"), a)
  | some w ↦ stopped a (stop_worker w)
]
