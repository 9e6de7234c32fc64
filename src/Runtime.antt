-- ===== src/Runtime.antt =====
-- src/runtime/: the executor, the timer clock and the reactor, each in a file of its own.
pub mod Park
pub mod Context
pub mod Clock
pub mod Executor
pub mod Reactor
pub mod System
