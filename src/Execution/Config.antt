-- ===== src/Execution/Config.antt =====
-- The configuration of the execution: internal/execution/dispatcher.go, supervisor/config.go,
-- supervisor/models.go, and the configurations of the dispatchers.
use shimmy_wasm_go.Base.{String, Bool, true, false, str_eq, if◌then◌else◌}
use shimmy_wasm_go.Json.{ℤ}
use shimmy_wasm_go.Execution.Worker.{StartConfig}
use shimmy_wasm_go.Execution.Rpc.Env.{Transport, stdio, ipc, http, ws, tcp, other, RpcConfig}

-- `IOInterface`, a text: the constants, and any other
pub data IoInterface : Type 0 where
  rpc file wasm : IoInterface
  other_interface : String → IoInterface

-- the text as the switches of the code read it
abbrev pub io_interface : String → IoInterface
io_interface s =
    if str_eq s "rpc"
    then rpc
    else if str_eq s "file"
    then file
    else if str_eq s "wasm"
    then wasm
    else other_interface s

abbrev pub io_transport : String → Transport
io_transport s =
    if str_eq s "stdio"
    then stdio
    else if str_eq s "ipc"
    then ipc
    else if str_eq s "http"
    then http
    else if str_eq s "ws"
    then ws
    else if str_eq s "tcp"
    then tcp
    else other s

abbrev pub is_rpc : IoInterface → Bool
is_rpc rpc = true
is_rpc _ = false

-- `IOConfig`
pub record IoConfig : Type 0 where
  pub interface : IoInterface
  pub rpc : RpcConfig

-- `StopConfig` and `SendConfig`; a duration is in nanoseconds.
pub record StopConfig : Type 0 where
  pub timeout : ℤ

pub record SendConfig : Type 0 where
  pub timeout : ℤ

-- `Config` of a supervisor
pub record SupervisorConfig : Type 0 where
  pub io : IoConfig
  pub start_params : StartConfig
  pub stop_params : StopConfig
  pub send_params : SendConfig

-- `execution.Config`
pub record ExecutionConfig : Type 0 where
  pub max_workers : ℤ
  pub supervisor : SupervisorConfig

-- `wasm.Config`
pub record WasmConfig : Type 0 where
  pub module_path : String
  pub max_instances : ℤ
  pub timeout : ℤ

-- `DedicatedDispatcherConfig`
pub record DedicatedConfig : Type 0 where
  pub supervisor : SupervisorConfig

-- `PooledDispatcherConfig`
pub record PooledConfig : Type 0 where
  pub max_workers : ℤ
  pub supervisor : SupervisorConfig
