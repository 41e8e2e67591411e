-- ===== src/Execution/Dispatcher.antt =====
-- internal/execution/dispatcher: dispatcher_dedicated.go over its one supervisor, and
-- dispatcher_pooled.go over a pool of them, which is a third-party package and here a parameter.
pub mod Dedicated
pub mod Pooled
