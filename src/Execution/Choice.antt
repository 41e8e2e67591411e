-- ===== src/Execution/Choice.antt =====
-- internal/execution/dispatcher.go and `defaultAdapterFactory` of supervisor/adapter.go: which parts
-- the configured interface makes.
use shimmy_wasm_go.Base.{ℕ, String, ◌≡◌, refl, none, arith}
use shimmy_wasm_go.Exec.{Error, sentinel, wrap, Result, ok, err, panics}
use shimmy_wasm_go.Json.{Map, ℤ}
use shimmy_wasm_go.Execution.Supervisor.{
  Ref, Adapters, Supervisor, Release, SendResult, acquire_worker, boot_worker, sending,
}
use shimmy_wasm_go.Execution.Supervisor
use shimmy_wasm_go.Execution.Config.{
  IoInterface, rpc, file, wasm, other_interface, ExecutionConfig, WasmConfig, SupervisorConfig,
}
use shimmy_wasm_go.Execution.Dispatcher.Dedicated.{new_dedicated_dispatcher}
use shimmy_wasm_go.Execution.Dispatcher.Pooled
use shimmy_wasm_go.Execution.Dispatcher.Pooled.{new_pooled_dispatcher}

pub data AdapterKind : Type 0 where
  file_adapter rpc_adapter : AdapterKind

-- `dispatcher.Dispatcher`: one of the three, with what it is made of
pub data AnyDispatcher (W E P : Type 0) : Type 0 where
  wasm_dispatcher : W → AnyDispatcher W E P
  dedicated_dispatcher : Supervisor E → AnyDispatcher W E P
  pooled_dispatcher : Pooled.Dispatcher P → AnyDispatcher W E P

abbrev pub unsupported : Error
unsupported = sentinel "unsupported io interface"

-- `defaultAdapterFactory`
unfoldable pub default_adapter_factory : IoInterface → Result Error AdapterKind
default_adapter_factory file = ok file_adapter
default_adapter_factory rpc = ok rpc_adapter
default_adapter_factory _ = err unsupported

-- What the dispatchers are made from: `NewDispatcher` and `Start` of the WebAssembly dispatcher, what
-- adapters find at first, the number of CPUs, and `puddle.NewPool` for a size and the configuration
-- that its constructor gives to supervisors.
pub record Makers (W E P : Type 0) : Type 0 where
  pub start_wasm : WasmConfig → Result Error W
  pub env : E
  pub cpus : ℕ
  pub new_pool : ℤ → SupervisorConfig → Result Error P

-- a dispatcher, or the error of making it
abbrev pub made : {A B : Type 0} → (A → B) → Result Error A → Result Error B
made f (ok a) = ok (f a)
made f (err e) = err e
made f panics = panics

-- `NewDispatcher`
unfoldable pub new_dispatcher :
    {W E P : Type 0} → Makers W E P → ExecutionConfig → Result Error (AnyDispatcher W E P)
unfolding new_dedicated_dispatcher new_pooled_dispatcher
new_dispatcher makers config = elim config.supervisor.io.interface [
  | wasm ↦ made wasm_dispatcher (
      makers.start_wasm record {
        module_path = config.supervisor.start_params.cmd;
        max_instances = config.max_workers;
        timeout = config.supervisor.send_params.timeout;
      })
  | rpc ↦
      made dedicated_dispatcher
        (new_dedicated_dispatcher (record { supervisor = config.supervisor }) makers.env)
  | _ ↦ made pooled_dispatcher (
      new_pooled_dispatcher makers.new_pool makers.cpus
        record { max_workers = config.max_workers; supervisor = config.supervisor })
]

-- The adapters of a supervisor for an interface: `createWorker` asks the factory.
unfoldable pub adapters_for : {E : Type 0} → IoInterface → Adapters E → Adapters E
unfolding default_adapter_factory
adapters_for i a = record a {
  create = elim (default_adapter_factory i) [
    | ok k ↦ a.create
    | err e ↦ λ env. (err (wrap "failed to create adapter" e), env)
    | panics ↦ λ env. (panics, env)
  ];
}

-- An interface that is none of the three is refused by no constructor: the pooled dispatcher is
-- made. Each message to one of its supervisors, which has no worker, is then an error, which says
-- that the interface is not supported, and the supervisor stays as it is.
pub send-unsupported :
    {W E P : Type 0} (makers : Makers W E P) (config : ExecutionConfig) (a : Adapters E)
    (name method : String) (m : Map) (sv : Supervisor E)
    → config.supervisor.io.interface ≡ other_interface name
    → sv.worker_ref ≡ none
    → (new_dispatcher makers config
        ≡ made pooled_dispatcher (
            new_pooled_dispatcher makers.new_pool makers.cpus
              record { max_workers = config.max_workers; supervisor = config.supervisor }))
      × (Supervisor.send (adapters_for (other_interface name) a) method m sv ≡ (
        err (
            wrap "failed to acquire worker" (
              wrap "failed to boot worker"
                (wrap "failed to create worker" (wrap "failed to create adapter" unsupported)))),
        sv,
      ))
unfolding new_dispatcher adapters_for Supervisor.send acquire_worker
send-unsupported makers config a name method m sv q p = (rw q refl, ground arith)
