-- ===== src/Interpreter/Fields/Types.antt =====
-- What the handlers for fields use beside the state: the classes that are loaded, the variables that
-- threads share, and the states of instances (src/interpreter/object.c, interpreter_dd.c).
use zscript.Base.{ℕ, Option, none, some, List, ◌>>=◌}
use zscript.Base.Strings.{Text}
use zscript.Map.{Map, map_new, map_get, map_insert}
use zscript.Interpreter.State.{Reg, Ptr, Object, string, obj, Vm}

-- `z_type_info_t`
pub record TypeInfo : Type 0 where
  pub class_name : Text
  pub bytecode_stream : List ℕ
  pub static_variables : Map Reg
  pub imports_table : Map Text

-- an interpreter state that is not the running one, with its bytes; its objects are the running one's
pub record SavedState : Type 0 where
  pub state : Vm
  pub bytes : List ℕ

pub record Fields : Type 0 where
  -- the copy that `z_interpreter_run` made
  pub byte_stream : List ℕ
  pub synchronized_variables : Map Reg
  pub native_functions : Map ℕ
  pub string_native_properties : Map Reg
  pub known_types : Map TypeInfo
  pub states : List SavedState
  -- the variable `object_to_search_on`, of which a native function is given the value
  pub object_to_search_on : Ptr

-- A state with what belongs to it.
pub record World : Type 0 where
  pub vm : Vm
  pub fields : Fields

unfoldable pub resolve_imported_class_name : Text → Option (Map Text) → Text
resolve_imported_class_name class_name imports_table = elim imports_table [
  | none ↦ class_name
  | some table ↦ elim (map_get table class_name) [ none ↦ class_name | some path ↦ path ]
]

unfoldable pub register_object_type : Text → List ℕ → Map TypeInfo → Map TypeInfo
register_object_type class_name bytecodes known_types = map_insert known_types class_name (record {
  class_name = class_name;
  bytecode_stream = bytecodes;
  static_variables = map_new;
  imports_table = map_new;
})

-- `load` gives the bytes of a class file, and `run_static` is the run of a loaded class's static
-- constructor; `none` is the end of the program.
module _ (load : Text → Option (List ℕ)) (run_static : World → List ℕ → Text → Option World) where
  unfoldable pub load_type_info : World → Text → Option (Map Text) → Option (World × TypeInfo)
  load_type_info w class_name imports_table = do
    let resolved = resolve_imported_class_name class_name imports_table
    bytes ← load resolved
    w ←
        run_static
          (record w {
            fields = record (w.fields) {
              known_types = register_object_type class_name bytes (w.fields.known_types);
            };
          })
          bytes class_name
    info ← map_get (w.fields.known_types) class_name
    let info = record info { imports_table = map_insert info.imports_table class_name resolved }
    some (
      record w {
        fields = record (w.fields) {
          known_types = map_insert (w.fields.known_types) class_name info;
        };
      },
      info,
    )

  -- object_manager_get_or_load_type_info
  unfoldable pub get_or_load_type_info :
      World → Text → Option (Map Text) → Option (World × TypeInfo)
  get_or_load_type_info w class_name imports_table =
      elim (map_get (w.fields.known_types) class_name) [
        | some info ↦ some (w, info)
        | none ↦ load_type_info w class_name imports_table
      ]

  unfoldable pub get_imports_table : World → Option (World × Map Text)
  get_imports_table w = do
    (w, info) ← get_or_load_type_info w (w.vm.class_name) none
    some (w, info.imports_table)

-- `map_insert` into the static variables that a pointer leads to
unfoldable pub put_static : Text → Text → Reg → Map TypeInfo → Option (Map TypeInfo)
put_static class_name name v known_types = do
  info ← map_get known_types class_name
  some (
      map_insert known_types class_name
        (record info { static_variables = map_insert info.static_variables name v }))

-- `object->properties`: the fields of other objects lie in its place
unfoldable pub properties_of : Fields → Option Object → Option (Map Reg)
properties_of fields (some (obj properties cache)) = some properties
properties_of fields (some (string text)) = some fields.string_native_properties
properties_of fields _ = none
