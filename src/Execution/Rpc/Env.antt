-- ===== src/Execution/Rpc/Env.antt =====
-- internal/execution/supervisor/adapter_rpc.go: the configuration and the worker's environment.
use shimmy_wasm_go.Base.{String, Option, none, some, List, [], ◌∷◌, ◌++◌, str_eq, if◌then◌else◌}
use shimmy_wasm_go.Exec.{◌<>◌}

-- `IOTransport`, a text: the constants, and any other
pub data Transport : Type 0 where
  stdio ipc http ws tcp : Transport
  other : String → Transport

abbrev pub transport_text : Transport → String
transport_text stdio = "stdio"
transport_text ipc = "ipc"
transport_text http = "http"
transport_text ws = "ws"
transport_text tcp = "tcp"
transport_text (other s) = s

-- `RpcConfig`
pub record RpcConfig : Type 0 where
  pub transport : Transport
  pub http_url : String
  pub ipc_endpoint : String
  pub ws_url : String
  pub tcp_address : String

-- `getIPCEndpoint`, where the system is not Windows
unfoldable pub get_ipc_endpoint : RpcConfig → String
get_ipc_endpoint c = if str_eq c.ipc_endpoint "" then "/tmp/eval.sock" else c.ipc_endpoint

-- what the transport adds
abbrev pub endpoint_env : RpcConfig → List String
endpoint_env c = elim c.transport [
  | ipc ↦ ("EVAL_RPC_IPC_ENDPOINT=" <> get_ipc_endpoint c) ∷ []
  | http ↦ ("EVAL_RPC_HTTP_URL=" <> c.http_url) ∷ []
  | ws ↦ ("EVAL_RPC_WS_URL=" <> c.ws_url) ∷ []
  | tcp ↦ ("EVAL_RPC_TCP_ADDRESS=" <> c.tcp_address) ∷ []
  | _ ↦ []
]

abbrev list_or_empty : Option (List String) → List String
list_or_empty none = []
list_or_empty (some env) = env

-- `buildEnv`
unfoldable pub build_env : Option (List String) → RpcConfig → List String
unfolding get_ipc_endpoint
build_env env c =
    (list_or_empty env
      ++ "EVAL_IO=rpc" ∷ ("EVAL_RPC_TRANSPORT=" <> transport_text c.transport) ∷ [])
    ++ endpoint_env c
