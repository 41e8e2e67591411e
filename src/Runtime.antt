-- ===== src/Runtime.antt =====
-- The runtime handler of runtime/: one module for each file, and the proofs below them.
pub mod Command
mod Tests
pub mod Errors
pub mod Schema
pub mod Validate
pub mod Response
pub mod Send
pub mod Evaluate
pub mod Cases
pub mod Keeps
pub mod Lifecycle
pub mod Handler
pub mod MuEd
