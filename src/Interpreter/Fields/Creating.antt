-- ===== src/Interpreter/Fields/Creating.antt =====
-- The handlers of src/interpreter/interpreter_dd.c that make strings, function references and `this`, and
-- OP_IMPORT.
use zscript.Base.{ℕ, ◌+◌, Option, some, List, ◌>>=◌}
use zscript.Base.Strings.{Text}
use zscript.Map.{Map, map_get, map_insert}
use zscript.Program.Instruction.{Instruction}
use zscript.Interpreter.State.{
  string, function_ref, instance_object, Vm, type_str, type_function_ref, type_instance, allocate,
  set_reg,
}
use zscript.Interpreter.Data.{next_of}
use zscript.Interpreter.Fields.Types.{TypeInfo, World, get_imports_table}

-- OP_MOV_STR: a new string with the text among the constants that `r1` leads to
unfoldable pub op_mov_str : (ℕ → Text) → Instruction → Vm → Option Vm
op_mov_str constant i vm =
    let new = allocate vm.objects (string (constant i.r1)) in
    next_of (set_reg (record vm { objects = new.0 }) i.r0 (record { type = type_str; val = new.1 }))

-- OP_MOV_FNC: the function's scope lies in the running one
unfoldable pub op_mov_fnc : Instruction → Vm → Option Vm
op_mov_fnc i vm =
    let new = allocate vm.objects (
      function_ref (record {
        start_address = i.r1;
        is_async = i.r2;
        parent_context = vm.current_context;
        responsible_interpreter_state = vm.state_id;
      })) in
    next_of (
      set_reg (record vm { objects = new.0 }) i.r0
        (record { type = type_function_ref; val = new.1 }))

-- OP_CREATE_THIS: an instance of the running class, with the running state, in register 1
unfoldable pub op_create_this : Instruction → Vm → Option Vm
op_create_this i vm =
    let new = allocate vm.objects (instance_object vm.class_name vm.state_id) in
    next_of
      (set_reg (record vm { objects = new.0 }) 1 (record { type = type_instance; val = new.1 }))

-- `map_insert` into the imports table that a pointer leads to
unfoldable pub put_import : Text → Text → Text → Map TypeInfo → Option (Map TypeInfo)
put_import class_name alias path known_types = do
  info ← map_get known_types class_name
  some (
      map_insert known_types class_name
        (record info { imports_table = map_insert info.imports_table alias path }))

module _ (load : Text → Option (List ℕ)) (run_static : World → List ℕ → Text → Option World) where
  -- OP_IMPORT: the class at the path gets a name among the imports of the running class
  unfoldable pub op_import : (ℕ → Text) → Instruction → World → Option World
  op_import constant i w = do
    (w, imports) ← get_imports_table load run_static w
    known_types ← put_import w.vm.class_name (constant i.r1) (constant i.r0) (w.fields.known_types)
    some (record w {
      vm = record (w.vm) { ip = w.vm.ip + 32 };
      fields = record (w.fields) { known_types = known_types };
    })
