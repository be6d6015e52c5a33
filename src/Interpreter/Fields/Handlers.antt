-- ===== src/Interpreter/Fields/Handlers.antt =====
-- The handlers for fields of src/interpreter/interpreter_dd.c.
use zscript.Base.{
  ℕ, ◌+◌, ◌-◌, not, Option, none, some, List, [], ◌∷◌, ◌==◌, ◌||◌, ◌&&◌, if◌then◌else◌, ◌>>=◌,
  length, get_elem?, set,
}
use zscript.Base.Strings.{Text, str_eq}
use zscript.Map.{map_get, map_insert}
use zscript.Program.Instruction.{Instruction}
use zscript.Interpreter.Numbers.{Float64}
use zscript.Interpreter.State.{
  Reg, Ptr, Object, string, class_ref, obj, instance_object, Vm, type_number, type_native_func,
  type_class_ref, type_instance, object_at, allocate, get_reg, set_reg, goto_next,
}
use zscript.Interpreter.Data.{operand_text}
use zscript.Interpreter.Throw.{Outcome, running, raise}
use zscript.Interpreter.Scopes.{search_scope, read_local, write_local}
use zscript.Interpreter.Fields.Types.{
  SavedState, Fields, World, get_or_load_type_info, get_imports_table, put_static, properties_of,
}
use zscript.Interpreter.Fields.Virtual.{get_field_virtual, set_field_virtual}

abbrev pub cannot_read_property : Text
cannot_read_property =
    99 ∷ 97 ∷ 110 ∷ 110 ∷ 111 ∷ 116 ∷ 32 ∷ 114 ∷ 101 ∷ 97 ∷ 100 ∷ 32 ∷ 112 ∷ 114 ∷ 111 ∷ 112 ∷ 101
    ∷ 114 ∷ 116 ∷ 121 ∷ []

abbrev pub cannot_read_property_on_object : Text
cannot_read_property_on_object =
    99 ∷ 97 ∷ 110 ∷ 110 ∷ 111 ∷ 116 ∷ 32 ∷ 114 ∷ 101 ∷ 97 ∷ 100 ∷ 32 ∷ 112 ∷ 114 ∷ 111 ∷ 112 ∷ 101
    ∷ 114 ∷ 116 ∷ 121 ∷ 32 ∷ 111 ∷ 110 ∷ 32 ∷ 111 ∷ 98 ∷ 106 ∷ 101 ∷ 99 ∷ 116 ∷ []

abbrev pub static_name : Text
static_name = 95 ∷ 95 ∷ 115 ∷ 116 ∷ 97 ∷ 116 ∷ 105 ∷ 99 ∷ 95 ∷ 95 ∷ []

-- a handler that wrote to a register, or threw
abbrev pub next_with : Fields → Option Vm → Option (Outcome × Fields)
next_with fields none = none
next_with fields (some vm) = some (running (goto_next vm), fields)

abbrev pub raise_with : Fields → Vm → Text → Option (Outcome × Fields)
raise_with fields vm message = raise vm message >>= λ outcome. some (outcome, fields)

-- the result is written, or there is none and the exception is thrown
abbrev pub set_or_raise : Fields → Vm → ℕ → Option Reg → Text → Option (Outcome × Fields)
set_or_raise fields vm r2 prop message = elim prop [
  | some v ↦ next_with fields (set_reg vm r2 v)
  | none ↦ raise_with fields vm message
]

-- what SEARCH_THIS does with a name that is in no scope: a variable shared by threads, a static
-- variable of the class, or else a class
unfoldable pub search_outside : Vm → Fields → ℕ → Text → Option (Outcome × Fields)
search_outside vm fields r2 name = elim (map_get fields.synchronized_variables name) [
  | some v ↦ next_with fields (set_reg vm r2 v)
  | none ↦
      elim (map_get fields.known_types vm.class_name >>= λ info.
      map_get info.static_variables name) [
        | some v ↦ next_with fields (set_reg vm r2 v)
        | none ↦
            let new = allocate vm.objects (class_ref name) in
            next_with fields (
              set_reg (record vm { objects = new.0 }) r2
                (record { type = type_class_ref; val = new.1 }))
      ]
]

-- SEARCH_THIS
unfoldable pub search_this : Vm → Fields → ℕ → Text → Option (Outcome × Fields)
search_this vm fields r2 name = do
  (objects, place) ←
      search_scope (length vm.objects + 2) fields.byte_stream vm.objects vm.current_context name
  let vm = record vm { objects = objects }
  elim place [
    | none ↦ search_outside vm fields r2 name
    | some (p, index) ↦ do v ← read_local objects p index; next_with fields (set_reg vm r2 v)
  ]

-- the state of an instance; it can be the running one
unfoldable pub saved_state_of : Vm → Fields → ℕ → Option SavedState
saved_state_of vm fields n =
    if n == vm.state_id
    then some (record { state = vm; bytes = fields.byte_stream })
    else (get_elem? fields.states n >>= λ s.
        some (record s { state = record (s.state) { objects = vm.objects } }))

-- the class that a class reference names, and the saved state of an instance
abbrev pub class_named : Option Object → Option Text
class_named (some (class_ref name)) = some name
class_named _ = none

abbrev pub instance_state : Option Object → Option ℕ
instance_state (some (instance_object name saved)) = some saved
instance_state _ = none

module _ (load : Text → Option (List ℕ)) (run_static : World → List ℕ → Text → Option World) where
  -- a static variable of the class that `r0` refers to
  unfoldable pub get_static : Vm → Fields → ℕ → Reg → Text → Option (Outcome × Fields)
  get_static vm fields r2 r0 name = do
    class_name ← class_named (object_at vm.objects r0.val)
    (w, imports) ← get_imports_table load run_static (record { vm = vm; fields = fields })
    (w, info) ← get_or_load_type_info load run_static w class_name (some imports)
    set_or_raise (w.fields) (w.vm) r2 (map_get info.static_variables name) cannot_read_property

  -- a field of the instance that `r0` refers to
  unfoldable pub get_instance : Vm → Fields → ℕ → Reg → Text → Option (Outcome × Fields)
  get_instance vm fields r2 r0 name = do
    n ← instance_state (object_at vm.objects r0.val)
    saved ← saved_state_of vm fields n
    (objects, prop) ←
        get_field_virtual (length vm.objects + 2) saved.bytes vm.class_name (saved.state.class_name)
          vm.objects (saved.state.root_context) name
    set_or_raise fields (record vm { objects = objects }) r2 prop cannot_read_property_on_object

  -- a property of the object that `r0` refers to
  unfoldable pub get_property : Vm → Fields → ℕ → Reg → Text → Option (Outcome × Fields)
  get_property vm fields r2 r0 name = do
    properties ← properties_of fields (object_at vm.objects r0.val)
    set_or_raise fields vm r2 (map_get properties name) cannot_read_property

  unfoldable pub get_on_object : Vm → Fields → ℕ → Reg → Text → Option (Outcome × Fields)
  get_on_object vm fields r2 r0 name =
      let fields = record fields { object_to_search_on = r0.val } in
      if r0.type == type_class_ref
      then get_static vm fields r2 r0 name
      else if r0.type == type_instance
      then get_instance vm fields r2 r0 name
      else get_property vm fields r2 r0 name

  -- the part that OP_GET_FIELD and OP_GET_FIELD_IMMEDIATE share, behind `fieldNameSet`
  unfoldable pub get_field_named :
      Float64 → Instruction → Vm → Fields → Text → Option (Outcome × Fields)
  get_field_named f i vm fields name = elim (map_get fields.native_functions name) [
    | some native_fnc ↦
        next_with fields (set_reg vm i.r2 (record { type = type_native_func; val = native_fnc }))
    | none ↦ if i.r0 == 1 then search_this vm fields i.r2 name else (do
      r0 ← get_reg vm i.r0
      if not (r0.type == type_number)
          then get_on_object vm fields i.r2 r0 name
          else if f.equal r0.val 0 || f.equal r0.val f.one
          then search_this vm fields i.r2 name
          else some (running (goto_next vm), fields))
  ]

  unfoldable pub op_get_field :
      Float64 → (Ptr → Text) → Instruction → Vm → Fields → Option (Outcome × Fields)
  op_get_field f describe i vm fields = do
    r1 ← get_reg vm i.r1
    name ← operand_text f describe vm r1
    get_field_named f i vm fields name

  -- the name is the string among the constants that `r1` leads to
  unfoldable pub op_get_field_immediate :
      Float64 → (ℕ → Text) → Instruction → Vm → Fields → Option (Outcome × Fields)
  op_get_field_immediate f constant i vm fields = get_field_named f i vm fields (constant i.r1)

  -- a static variable of the class that `r0` refers to; `__static__` is the running class
  unfoldable pub set_static : Vm → Fields → Reg → Text → Reg → Option (Outcome × Fields)
  set_static vm fields r0 name v = do
    class_name ← class_named (object_at vm.objects r0.val)
    let w : World = record { vm = vm; fields = fields }
    (w, info) ←
        (if str_eq class_name static_name
          then get_or_load_type_info load run_static w vm.class_name none
          else (get_imports_table load run_static w >>= λ (w, imports).
              get_or_load_type_info load run_static w class_name (some imports)))
    known_types ← put_static info.class_name name v (w.fields.known_types)
    next_with (record (w.fields) { known_types = known_types }) (some (w.vm))

  -- a property; of a string it is one of all strings
  unfoldable pub set_property : Vm → Fields → Reg → Text → Reg → Option (Outcome × Fields)
  set_property vm fields r0 name v = elim (object_at vm.objects r0.val) [
    | some (obj properties cache) ↦ next_with fields (
        some (record vm {
          objects = set vm.objects (r0.val - 1) (obj (map_insert properties name v) 0);
        }))
    | some (string text) ↦
        next_with
          (record fields {
            string_native_properties = map_insert fields.string_native_properties name v;
          })
          (some vm)
    | other ↦ none
  ]

  -- a field of an instance; an exception is passed on only if the search for the field returns 1
  unfoldable pub set_instance : Vm → Fields → Reg → Text → Reg → Option (Outcome × Fields)
  set_instance vm fields r0 name v = do
    n ← instance_state (object_at vm.objects r0.val)
    saved ← saved_state_of vm fields n
    (state, failed) ← set_field_virtual saved.bytes vm.class_name saved.state name v
    let own = n == vm.state_id
    let vm = if own then state else record vm { objects = state.objects }
    let fields =
        if own
        then fields
        else record fields { states = set fields.states n (record saved { state = state }) }
    if failed && not (state.return_code == 0)
        then raise_with fields vm state.exception_details
        else next_with fields (some vm)

  -- a variable of the scopes, and else one that threads share
  unfoldable pub set_this : Vm → Fields → Text → Reg → Option (Outcome × Fields)
  set_this vm fields name v = do
    (objects, place) ←
        search_scope (length vm.objects + 2) fields.byte_stream vm.objects vm.current_context name
    elim place [
      | none ↦
          next_with
            (record fields {
              synchronized_variables = map_insert fields.synchronized_variables name v;
            })
            (some (record vm { objects = objects }))
      | some (p, index) ↦ do
        objects ← write_local objects p index v
        next_with fields (some (record vm { objects = objects }))
    ]

  unfoldable pub op_set_field :
      Float64 → (Ptr → Text) → Instruction → Vm → Fields → Option (Outcome × Fields)
  op_set_field f describe i vm fields = do
    r1 ← get_reg vm i.r1
    name ← operand_text f describe vm r1
    r2 ← get_reg vm i.r2
    if i.r0 == 1 then set_this vm fields name r2 else (do
      r0 ← get_reg vm i.r0
      if r0.type == type_number
          then some (running (goto_next vm), fields)
          else if r0.type == type_class_ref
          then set_static vm fields r0 name r2
          else (let fields = record fields { object_to_search_on = r0.val } in
              if r0.type == type_instance
              then set_instance vm fields r0 name r2
              else set_property vm fields r0 name r2))
