-- ===== src/Execution/Wasm.antt =====
-- internal/execution/wasm: the WebAssembly backend. The module instances are those of a third-party
-- runtime, an interface over a state of their own.
pub mod Adapter
pub mod Supervisor
pub mod Dispatcher
