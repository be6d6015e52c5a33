-- ===== src/Interpreter/Fields/Virtual.antt =====
-- The fields of an instance in src/interpreter/interpreter_dd.c: interpreter_get_field_virtual and
-- interpreter_set_field_virtual, which look into the state that the instance has saved.
use zscript.Base.{
  ℕ, zero, suc, ◌/◌, ◌%◌, Bool, true, false, not, Option, none, some, List, [], ◌∷◌, ◌==◌, ◌&&◌,
  if◌then◌else◌, ◌>>=◌,
}
use zscript.Base.Strings.{Text, str_eq}
use zscript.Map.{map_get_flags, map_flag_private}
use zscript.Interpreter.State.{Reg, Ptr, Object, Vm, context_at}
use zscript.Interpreter.Throw.{throw_exception_from_str}
use zscript.Interpreter.Scopes.{symbol_table_of, read_local, write_local}

abbrev pub cannot_set_private_property : Text
cannot_set_private_property =
    99 ∷ 97 ∷ 110 ∷ 110 ∷ 111 ∷ 116 ∷ 32 ∷ 115 ∷ 101 ∷ 116 ∷ 32 ∷ 112 ∷ 114 ∷ 105 ∷ 118 ∷ 97 ∷ 116
    ∷ 101 ∷ 32 ∷ 112 ∷ 114 ∷ 111 ∷ 112 ∷ 101 ∷ 114 ∷ 116 ∷ 121 ∷ 32 ∷ 111 ∷ 102 ∷ 32 ∷ 111 ∷ 98
    ∷ 106 ∷ 101 ∷ 99 ∷ 116 ∷ []

abbrev pub no_such_property : Text
no_such_property =
    110 ∷ 111 ∷ 32 ∷ 115 ∷ 117 ∷ 99 ∷ 104 ∷ 32 ∷ 112 ∷ 114 ∷ 111 ∷ 112 ∷ 101 ∷ 114 ∷ 116 ∷ 121 ∷ 32
    ∷ 102 ∷ 111 ∷ 117 ∷ 110 ∷ 100 ∷ 32 ∷ 111 ∷ 110 ∷ 32 ∷ 111 ∷ 98 ∷ 106 ∷ 101 ∷ 99 ∷ 116 ∷ []

-- `flags & MAP_FLAG_PRIVATE`
abbrev pub is_private_flag : ℕ → Bool
is_private_flag flags = flags / map_flag_private % 2 == 1

-- what stops the access of `our_class` to a field with these flags of an object of `objects_class`
abbrev pub is_hidden : ℕ → Text → Text → Bool
is_hidden flags our_class objects_class =
    is_private_flag flags && not (str_eq our_class objects_class)

-- The loop of interpreter_get_field_virtual, on fuel; the second component is `NULL` or the register.
unfoldable pub get_field_virtual :
    ℕ
    → (bytes : List ℕ) → (our_class objects_class : Text) → List Object
    → Ptr
    → Text
    → Option (List Object × Option Reg)
get_field_virtual zero bytes our_class objects_class objects p name = none
get_field_virtual (suc fuel) bytes our_class objects_class objects zero name = some (objects, none)
get_field_virtual (suc fuel) bytes our_class objects_class objects (suc i) name =
    elim (context_at objects (suc i)) [
      | none ↦ none
      | some c ↦ elim (symbol_table_of bytes objects (suc i) c) [
        | none ↦ none
        | some (objects, table) ↦ elim (map_get_flags table name) [
          | none ↦
              get_field_virtual fuel bytes our_class objects_class objects c.parent_context name
          | some (index, flags) ↦
              if is_hidden flags our_class objects_class
              then some (objects, none)
              else (read_local objects (suc i) index >>= λ v. some (objects, some v))
        ]
      ]
    ]

-- interpreter_set_field_virtual: the object's state after it, and whether it returns 1. The throw for a
-- private property does not keep the assignment behind it from being made.
unfoldable pub set_field_virtual : List ℕ → Text → Vm → Text → Reg → Option (Vm × Bool)
set_field_virtual bytes our_class state name value = do
  let state = record state { return_code = 0 }
  c ← context_at state.objects state.root_context
  (objects, table) ← symbol_table_of bytes state.objects state.root_context c
  let state = record state { objects = objects }
  elim (map_get_flags table name) [
    | none ↦ do state ← throw_exception_from_str state no_such_property; some (state, true)
    | some (index, flags) ↦ do
      state ←
          (if is_hidden flags our_class state.class_name
            then throw_exception_from_str state cannot_set_private_property
            else some state)
      objects ← write_local state.objects state.root_context index value
      some (record state { objects = objects }, false)
  ]
