-- ===== src/Interpreter/State.antt =====
-- The state of src/interpreter/interpreter_dd.c: registers, call contexts in a store of objects, the
-- value stack, and the two variables that name the current context.
use zscript.Base.{
  ℕ, zero, suc, ◌+◌, ◌-◌, ◌/◌, ◌%◌, Option, none, some, List, [], ◌∷◌, ◌++◌, leb, ltb, ◌==◌, ◌&&◌,
  if◌then◌else◌, ◌>>=◌, get_elem?, set, length,
}
use zscript.Base.Strings.{Text}
use zscript.Map.{Map}
use zscript.Program.Instruction.{Instruction}

abbrev pub type_number : ℕ
type_number = 0

abbrev pub type_str : ℕ
type_str = 1

abbrev pub type_function_ref : ℕ
type_function_ref = 4

abbrev pub type_obj : ℕ
type_obj = 16

abbrev pub type_native_func : ℕ
type_native_func = 32

abbrev pub type_instance : ℕ
type_instance = 64

abbrev pub type_class_ref : ℕ
type_class_ref = 128

abbrev pub type_context : ℕ
type_context = 256

-- `val` holds the 64 bits of the union
pub record Reg : Type 0 where
  pub type : ℕ
  pub val : ℕ

abbrev pub zero_reg : Reg
zero_reg = record { type = 0; val = 0 }

-- pointers are positions in the store, counted from 1; 0 is `NULL`
abbrev pub Ptr : Type 0
Ptr = ℕ

pub record Context : Type 0 where
  pub parent_context : Ptr
  pub return_context : Ptr
  -- `none` is `NULL`
  pub locals : Option (List Reg)
  pub locals_count : ℕ
  pub symbol_table : Option (Map ℕ)
  pub catches_list : Option (List ℕ)
  pub symbols_address : ℕ
  pub requested_return_register_index : ℕ
  pub return_address : ℕ

pub record FunctionRef : Type 0 where
  pub start_address : ℕ
  pub is_async : ℕ
  pub parent_context : Ptr
  pub responsible_interpreter_state : ℕ

pub data Object : Type 0 where
  string : Text → Object
  context : Context → Object
  function_ref : FunctionRef → Object
  class_ref : Text → Object
  -- the properties, and `key_list_cache`
  obj : Map Reg → Ptr → Object
  -- the class, and the saved state
  instance_object : Text → ℕ → Object

-- `z_interpreter_state_t` with the variables of `z_interpreter_run`. `state_context` is
-- `initial_state->current_context`, `current_context` the variable of that name. The variable
-- `locals_ptr` always is the `locals` of the latter: what writes one writes the other.
pub record Vm : Type 0 where
  -- which interpreter state this is
  pub state_id : ℕ
  pub objects : List Object
  pub state_context : Ptr
  pub current_context : Ptr
  pub root_context : Ptr
  pub stack : List Reg
  pub stack_ptr : ℕ
  -- the variable `instruction_ptr`, as an offset into the byte stream
  pub ip : ℕ
  -- `initial_state->instruction_pointer`
  pub instruction_pointer : ℕ
  pub class_name : Text
  pub return_code : ℕ
  pub exception_details : Text
  pub return_value : Reg

-- the bytecode: instructions of 32 bytes from `code_start`
pub record Code : Type 0 where
  pub code_start : ℕ
  pub instructions : List Instruction

abbrev pub instruction_size : ℕ
instruction_size = 32

unfoldable pub fetch : Code → ℕ → Option Instruction
fetch code address =
    if leb code.code_start address && (address - code.code_start) % instruction_size == 0
    then get_elem? code.instructions ((address - code.code_start) / instruction_size)
    else none

unfoldable pub object_at : List Object → Ptr → Option Object
object_at objects zero = none
object_at objects (suc i) = get_elem? objects i

unfoldable pub context_of : Option Object → Option Context
context_of (some (context c)) = some c
context_of _ = none

-- `*context`; no context there is undefined
unfoldable pub context_at : List Object → Ptr → Option Context
context_at objects p = context_of (object_at objects p)

unfoldable pub put_context : List Object → Ptr → Context → List Object
put_context objects zero c = objects
put_context objects (suc i) c = set objects i (context c)

-- a new object behind the others, and its address
unfoldable pub allocate : List Object → Object → List Object × Ptr
allocate objects o = (objects ++ o ∷ [], length objects + 1)

abbrev pub locals_of : Context → Option (List Reg)
locals_of c = c.locals

-- `locals_ptr[r]`; outside the block is undefined
unfoldable pub get_reg : Vm → ℕ → Option Reg
get_reg vm r =
    context_at vm.objects vm.current_context >>= locals_of >>= λ locals. get_elem? locals r

-- A write to the block of locals of the current context `c`.
unfoldable pub store_reg : Vm → ℕ → Reg → Context → List Reg → Option Vm
store_reg vm r v c locals =
    if ltb r (length locals)
    then some (record vm {
      objects =
          put_context vm.objects vm.current_context (record c { locals = some (set locals r v) });
    })
    else none

-- `locals_ptr[r] = v`
unfoldable pub set_reg : Vm → ℕ → Reg → Option Vm
set_reg vm r v = do
  c ← context_at vm.objects vm.current_context
  locals ← c.locals
  store_reg vm r v c locals

-- `*++stack_ptr = v`
unfoldable pub push_value : Vm → Reg → Option Vm
push_value vm v =
    if ltb (vm.stack_ptr + 1) (length vm.stack)
    then some
        (record vm { stack = set vm.stack (vm.stack_ptr + 1) v; stack_ptr = vm.stack_ptr + 1 })
    else none

-- `*stack_ptr--`; below the start of the stack is undefined
unfoldable pub pop_value : Vm → Option (Reg × Vm)
pop_value vm = do
  v ← get_elem? vm.stack vm.stack_ptr
  (if leb 1 vm.stack_ptr then some (v, record vm { stack_ptr = vm.stack_ptr - 1 }) else none)

-- GOTO_NEXT
unfoldable pub goto_next : Vm → Vm
goto_next vm = record vm { ip = vm.ip + instruction_size }
