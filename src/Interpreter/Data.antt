-- ===== src/Interpreter/Data.antt =====
-- The handlers of src/interpreter/interpreter_dd.c that move, compute, compare and jump.
use zscript.Base.{ℕ, Bool, not, Option, none, some, ◌++◌, ◌==◌, if◌then◌else◌, ◌>>=◌}
use zscript.Base.Strings.{Text}
use zscript.Program.Instruction
use zscript.Program.Instruction.{Instruction}
use zscript.Interpreter.Numbers.{Float64, of_bool}
use zscript.Interpreter.State.{
  Reg, Ptr, Object, string, Vm, type_number, type_str, type_native_func, object_at, allocate,
  get_reg, set_reg, goto_next,
}

abbrev number : ℕ → Reg
number bits = record { type = type_number; val = bits }

-- the end of a handler that wrote to a register
abbrev pub next_of : Option Vm → Option Vm
next_of none = none
next_of (some vm) = some (goto_next vm)

unfoldable pub op_mov_number : Instruction → Vm → Option Vm
op_mov_number i vm = next_of (set_reg vm i.r0 (number i.r1))

unfoldable pub op_mov : Instruction → Vm → Option Vm
op_mov i vm = do r1 ← get_reg vm i.r1; next_of (set_reg vm i.r0 r1)

-- OP_INC and OP_DEC: the register keeps its type, and its copy goes to `r1`
unfoldable pub op_step : (ℕ → ℕ) → Instruction → Vm → Option Vm
op_step change i vm = do
  r0 ← get_reg vm i.r0
  vm ← set_reg vm i.r0 (record r0 { val = change r0.val })
  copy ← get_reg vm i.r0
  next_of (set_reg vm i.r1 copy)

-- OP_SUB and OP_MUL
unfoldable pub op_number : (ℕ → ℕ → ℕ) → Instruction → Vm → Option Vm
op_number compute i vm = do
  r0 ← get_reg vm i.r0
  r1 ← get_reg vm i.r1
  next_of (set_reg vm i.r2 (number (compute r0.val r1.val)))

-- with a left operand that is no number the handler does nothing
unfoldable pub op_mod : Float64 → Instruction → Vm → Option Vm
op_mod f i vm = do
  r0 ← get_reg vm i.r0
  r1 ← get_reg vm i.r1
  if r0.type == type_number
      then next_of (set_reg vm i.r2 (number (f.fmod r0.val r1.val)))
      else some (goto_next vm)

-- `obj->operations.to_string(obj)`: a string's own text, and for any other object its address, printed
-- by `describe`
unfoldable pub object_text : (Ptr → Text) → Ptr → Option Object → Option Text
object_text describe p none = none
object_text describe p (some (string text)) = some text
object_text describe p (some _) = some (describe p)

unfoldable pub operand_text : Float64 → (Ptr → Text) → Vm → Reg → Option Text
operand_text f describe vm r =
    if r.type == type_number
    then some (f.num_to_str r.val)
    else if r.type == type_native_func
    then none
    else object_text describe r.val (object_at vm.objects r.val)

-- the concatenation becomes a new string object
unfoldable pub concatenate : Float64 → (Ptr → Text) → Instruction → Vm → Reg → Reg → Option Vm
concatenate f describe i vm r0 r1 = do
  s1 ← operand_text f describe vm r0
  s2 ← operand_text f describe vm r1
  let new = allocate vm.objects (string (s1 ++ s2))
  next_of (set_reg (record vm { objects = new.0 }) i.r2 (record { type = type_str; val = new.1 }))

unfoldable pub op_add : Float64 → (Ptr → Text) → Instruction → Vm → Option Vm
op_add f describe i vm = do
  r0 ← get_reg vm i.r0
  r1 ← get_reg vm i.r1
  if r0.type == type_number
      then (if r1.type == type_number
          then next_of (set_reg vm i.r2 (number (f.plus r0.val r1.val)))
          else concatenate f describe i vm r0 r1)
      else concatenate f describe i vm r0 r1

-- the comparison that each of the six OP_CMP handlers stores
unfoldable pub compare_value : Float64 → (opcode : ℕ) → ℕ → ℕ → Bool
compare_value f opcode a b =
    if opcode == Instruction.cmp_equal
    then f.equal a b
    else if opcode == Instruction.cmp_less
    then f.less a b
    else if opcode == Instruction.cmp_less_or_equal
    then f.less_or_equal a b
    else if opcode == Instruction.cmp_greater
    then f.less b a
    else if opcode == Instruction.cmp_n_equal
    then not (f.equal a b)
    else f.less_or_equal b a

unfoldable pub op_cmp : Float64 → Instruction → Vm → Option Vm
op_cmp f i vm = do
  r0 ← get_reg vm i.r0
  r1 ← get_reg vm i.r1
  next_of (set_reg vm i.r2 (number (of_bool f (compare_value f i.opcode r0.val r1.val))))

abbrev pub jump_if : Bool → ℕ → Vm → Option Vm
jump_if test target vm = if test then some (record vm { ip = target }) else some (goto_next vm)

-- any bit of the register counts
unfoldable pub op_jmp_true : Instruction → Vm → Option Vm
op_jmp_true i vm = do r0 ← get_reg vm i.r0; jump_if (not (r0.val == 0)) i.r1 vm

unfoldable pub op_jmp_not_true : Instruction → Vm → Option Vm
op_jmp_not_true i vm = do r0 ← get_reg vm i.r0; jump_if (r0.val == 0) i.r1 vm

unfoldable pub op_jmp : Instruction → Vm → Option Vm
op_jmp i vm = some (record vm { ip = i.r0 })

-- the test of each of OP_JL, OP_JG, OP_JLE, OP_JGE, OP_JE and OP_JNE
unfoldable pub jump_test : Float64 → (opcode : ℕ) → ℕ → ℕ → Bool
jump_test f opcode a b =
    if opcode == Instruction.jmp_less
    then f.less a b
    else if opcode == Instruction.jmp_greater
    then f.less b a
    else if opcode == Instruction.jmp_less_or_equal
    then f.less_or_equal a b
    else if opcode == Instruction.jmp_greater_or_equal
    then f.less_or_equal b a
    else if opcode == Instruction.jmp_equal
    then f.equal a b
    else not (f.equal a b)

unfoldable pub op_jump : Float64 → Instruction → Vm → Option Vm
op_jump f i vm = do
  r0 ← get_reg vm i.r0
  r1 ← get_reg vm i.r1
  jump_if (jump_test f i.opcode r0.val r1.val) i.r2 vm

-- The test of the handlers with an immediate. OP_JE_I and OP_JNE_I compare the bits, not the numbers.
unfoldable pub immediate_test : Float64 → (opcode : ℕ) → ℕ → ℕ → Bool
immediate_test f opcode a b =
    if opcode == Instruction.jmp_less_i
    then f.less a b
    else if opcode == Instruction.jmp_greater_i
    then f.less b a
    else if opcode == Instruction.jmp_less_or_equal_i
    then f.less_or_equal a b
    else if opcode == Instruction.jmp_greater_or_equal_i
    then f.less_or_equal b a
    else if opcode == Instruction.jmp_equal_i
    then a == b
    else not (a == b)

unfoldable pub op_jump_immediate : Float64 → Instruction → Vm → Option Vm
op_jump_immediate f i vm = do
  r0 ← get_reg vm i.r0
  jump_if (immediate_test f i.opcode r0.val i.r1) i.r2 vm

unfoldable pub op_nop : Instruction → Vm → Option Vm
op_nop i vm = some (goto_next vm)
