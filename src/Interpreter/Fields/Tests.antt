-- ===== src/Interpreter/Fields/Tests.antt =====
-- Two scopes with a variable each, one of them with its table not yet built (src/interpreter/interpreter_dd.c).
use zscript.Base.{
  ℕ, ◌<◌, ◌≡◌, refl, false, Option, none, some, List, [], ◌∷◌, arith, length, inl, inr, Bool-cases,
}
use zscript.Base.Strings.{Text, str_eq}
use zscript.Symbols.{build_symbol_table, build_symbols, read_string, word_of}
use zscript.Symbols.Reading.{nothing_new}
use zscript.Map.{
  Map, map_new, map_insert, index_of, open_bag, bag_of, get_hash, map_insert_flags, map_get,
}
use zscript.Map.Lookup.{
  map_new-IsValid, get_flags-insert_flags, insert_flags-IsValid, map_get-map_insert, IsOpen,
}
use zscript.Program.Instruction.{Instruction, set_field, get_field, import_cls}
use zscript.Interpreter.Numbers.{whole}
use zscript.Interpreter.State.{
  Reg, Ptr, Context, context, string, Vm, get_reg, context_at, object_at, context_of, type_str,
  type_number,
}
use zscript.Interpreter.Data.{operand_text, object_text}
use zscript.Interpreter.Scopes.{search_scope, read_symbols}
use zscript.Interpreter.Scopes.Resolve.{scope_at, block_at, Chain, scope, outermost}
use zscript.Interpreter.Scopes.Search.{Searched, search_scope-Searched}
use zscript.Interpreter.Fields.Types.{TypeInfo, Fields, World}
use zscript.Interpreter.Fields.Handlers.{get_field_named, op_set_field}
use zscript.Interpreter.Fields.Virtual.{get_field_virtual}
use zscript.Interpreter.Fields.Creating.{op_import}
use zscript.Interpreter.Fields.Imports.{Imported, op_import-Imported}
use zscript.Interpreter.Fields.Private.{Fetched, get_field_virtual-Fetched}
use zscript.Interpreter.Fields.RoundTrip.{Restores, get_field_named-op_set_field}

abbrev a_name : Text
a_name = 97 ∷ []

abbrev num : ℕ → Reg
num v = record { type = type_number; val = v }

-- a symbol table with the private name "a"
abbrev table : Map ℕ
table = map_insert_flags map_new a_name 1 3

-- its bytes
abbrev symbols : List ℕ
symbols = 1 ∷ 0 ∷ 0 ∷ 0 ∷ 0 ∷ 0 ∷ 0 ∷ 0 ∷ 97 ∷ 0 ∷ 1 ∷ []

symbols_read : read_symbols symbols 0 ≡ some table
unfolding read_symbols build_symbol_table build_symbols read_string word_of
symbols_read = refl

abbrev scope_of : Ptr → Option (Map ℕ) → List Reg → Context
scope_of parent symbol_table locals = record {
  parent_context = parent;
  return_context = 0;
  locals = some locals;
  locals_count = length locals;
  symbol_table = symbol_table;
  catches_list = none;
  symbols_address = 0;
  requested_return_register_index = 0;
  return_address = 0;
}

abbrev outer_locals : List Reg
outer_locals = num 0 ∷ num 5 ∷ []

-- register 2 has the name, register 3 the value, register 4 is for what is read
abbrev inner_locals : List Reg
inner_locals = num 0 ∷ num 0 ∷ record { type = type_str; val = 3 } ∷ num 7 ∷ num 0 ∷ []

-- the table of the outer scope is not built yet, the inner scope has none of the names
abbrev vm : Vm
vm = record {
  state_id = 0;
  objects =
      context (scope_of 0 none outer_locals)
      ∷ context (scope_of 1 (some map_new) inner_locals)
      ∷ string a_name
      ∷ [];
  state_context = 2;
  current_context = 2;
  root_context = 1;
  stack = [];
  stack_ptr = 0;
  ip = 64;
  instruction_pointer = 0;
  class_name = [];
  return_code = 0;
  exception_details = [];
  return_value = num 0;
}

abbrev fields : Fields
fields = record {
  byte_stream = symbols;
  synchronized_variables = map_new;
  native_functions = map_new;
  string_native_properties = map_new;
  known_types = map_new;
  states = [];
  object_to_search_on = 0;
}

new_has_none : (name : Text) → map_get {V = ℕ} map_new name ≡ none
unfolding map_get
new_has_none name = rw (nothing_new name)

new_mutable : (map_new {V = ℕ}).is_immutable ≡ false
unfolding map_new
new_mutable = refl

map_new-IsOpen {ℓ} : (V : Type ℓ) → IsOpen {V = V} map_new
unfolding map_new
map_new-IsOpen V = record { valid = map_new-IsValid; mutable = refl }

table_fits : (name : Text) (index : ℕ) → map_get table name ≡ some index → index < 2
unfolding map_get
table_fits name index h =
    let e = get_flags-insert_flags {V = ℕ} map_new a_name name 1 3 map_new-IsValid new_mutable in
    elim (Bool-cases (str_eq a_name name)) [
      | inl same ↦
          let found : some 1 ≡ some index = rw (e, same) at h in
          let one : 1 ≡ index = cc found in omega arith
      | inr other ↦ let found : none ≡ some index = rw (e, other, nothing_new name) at h in cc found
    ]

chain : Chain symbols vm.objects 2
unfolding scope_at block_at context_at object_at context_of
chain =
    scope 1 1 map_new inner_locals refl (omega arith) refl
      (λ name index h. cc (h, new_has_none name))
      (scope 0 0 table outer_locals (rw symbols_read refl) (omega arith) refl table_fits outermost)

search_scope-Searched_example :
    Searched symbols vm.objects a_name 2 (search_scope 3 symbols vm.objects 2 a_name)
search_scope-Searched_example =
    search_scope-Searched symbols 3 vm.objects 2 a_name (omega arith) chain

abbrev set_a : Instruction
set_a = record { opcode = set_field; r0 = 1; r1 = 2; r2 = 3 }

abbrev get_a : Instruction
get_a = record { opcode = get_field; r0 = 1; r1 = 2; r2 = 4 }

abbrev load : Text → Option (List ℕ)
load name = none

abbrev run_static : World → List ℕ → Text → Option World
run_static w bytes name = some w

get_field_named-op_set_field_example :
    Restores vm 4
      (num 7)
      (op_set_field load run_static whole (λ p. []) set_a vm fields)
      (λ vm fields. get_field_named load run_static whole get_a vm fields a_name)
unfolding get_reg context_at object_at context_of block_at operand_text object_text map_new
get_field_named-op_set_field_example =
    get_field_named-op_set_field load run_static whole (λ p. []) set_a get_a vm fields a_name
      (record { type = type_str; val = 3 }) (num 7) inner_locals refl refl refl refl refl refl
      (omega arith) chain (new_has_none a_name) (map_new-IsOpen Reg)

get_field_virtual-Fetched_example :
    Fetched symbols a_name [] a_name vm.objects 2
      (get_field_virtual 3 symbols a_name [] vm.objects 2 a_name)
get_field_virtual-Fetched_example =
    get_field_virtual-Fetched symbols a_name [] a_name 3 vm.objects 2 (omega arith) chain

-- the running class, which has no name, is known
abbrev running : TypeInfo
running = record {
  class_name = [];
  bytecode_stream = symbols;
  static_variables = map_new;
  imports_table = map_new;
}

abbrev importing : World
importing = record {
  vm = vm;
  fields = record fields { known_types = map_insert map_new [] running };
}

abbrev constant : ℕ → Text
constant n = n ∷ []

abbrev import_b : Instruction
import_b = record { opcode = import_cls; r0 = 98; r1 = 99; r2 = 0 }

known : map_get importing.fields.known_types [] ≡ some running
unfolding str_eq
known = map_get-map_insert map_new [] [] running (map_new-IsOpen TypeInfo)

known-IsOpen : IsOpen importing.fields.known_types
unfolding map_insert map_insert_flags map_new index_of open_bag bag_of get_hash
known-IsOpen = record {
  valid = insert_flags-IsValid map_new [] running 1 map_new-IsValid;
  mutable = refl;
}

op_import-Imported_example :
    Imported load run_static importing
      (99 ∷ [])
      (98 ∷ [])
      map_new
      (op_import load run_static constant import_b importing)
op_import-Imported_example =
    op_import-Imported load run_static constant import_b importing running known known-IsOpen
      (map_new-IsOpen Text)
