-- ===== src/Interpreter.antt =====
-- src/interpreter/interpreter_dd.c: the bytecode interpreter.
pub mod Numbers
pub mod State
pub mod Data
pub mod Throw
pub mod Control
pub mod Store
pub mod Frames
pub mod Fusion
pub mod Dropped
pub mod Unwind
pub mod Arguments
pub mod Calls
pub mod RoundTrip
pub mod Stale
pub mod Scopes
pub mod Fields
pub mod Collector
mod Tests
