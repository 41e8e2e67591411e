-- ===== src/Execution.antt =====
-- internal/execution: the workers, their adapters and supervisors, and the dispatchers.
mod Tests
mod AdapterTests
mod WasmTests
mod TwiceTests
mod PooledTests
mod SupervisorTests
mod ReaperTests
pub mod Pipe
pub mod Supervisor
pub mod Dispatcher
pub mod Config
pub mod Choice
pub mod Worker
pub mod Rpc
pub mod FileAdapter
pub mod Wasm
