-- ===== src/Interpreter/Fields.antt =====
-- OP_GET_FIELD, OP_GET_FIELD_IMMEDIATE and OP_SET_FIELD of src/interpreter/interpreter_dd.c. Fields.Types has
-- the classes and states that they look into, Fields.Virtual the fields of instances.
pub mod Types
pub mod Virtual
pub mod Handlers
pub mod Creating
pub mod Imports
pub mod RoundTrip
pub mod Private
mod Tests
