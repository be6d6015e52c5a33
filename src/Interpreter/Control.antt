-- ===== src/Interpreter/Control.antt =====
-- The handlers of src/interpreter/interpreter_dd.c for the stack, calls of a function of the same
-- state, frames and returns, and the division, which can throw.
use zscript.Base.{
  ℕ, zero, suc, ◌+◌, Option, none, some, List, [], ◌∷◌, ◌==◌, ltb, if◌then◌else◌, ◌>>=◌, length,
  get_elem?, set, replicate,
}
use zscript.Base.Strings.{Text}
use zscript.Program.Instruction.{Instruction}
use zscript.Interpreter.Numbers.{Float64}
use zscript.Interpreter.State.{
  Reg, zero_reg, Ptr, Context, FunctionRef, Object, context, Vm, Code, fetch, type_number,
  context_at, put_context, allocate, get_reg, set_reg, push_value, pop_value, goto_next,
}
use zscript.Interpreter.Data.{next_of}
use zscript.Interpreter.Throw.{Outcome, running, ended, raise}

abbrev pub divide_by_0 : Text
divide_by_0 = 100 ∷ 105 ∷ 118 ∷ 105 ∷ 100 ∷ 101 ∷ 32 ∷ 98 ∷ 121 ∷ 32 ∷ 48 ∷ []

abbrev pub runs : Option Vm → Option Outcome
runs none = none
runs (some vm) = some (running vm)

-- the exception is thrown from the state's context, which need not be the current one
unfoldable pub op_div : Float64 → Instruction → Vm → Option Outcome
op_div f i vm = do
  r0 ← get_reg vm i.r0
  r1 ← get_reg vm i.r1
  if f.equal r1.val 0
      then raise vm divide_by_0
      else runs
          (next_of (set_reg vm i.r2 (record { type = type_number; val = f.over r0.val r1.val })))

unfoldable pub op_push : Instruction → Vm → Option Vm
op_push i vm = do r0 ← get_reg vm i.r0; next_of (push_value vm r0)

unfoldable pub op_pop : Instruction → Vm → Option Vm
op_pop i vm = do (v, vm) ← pop_value vm; next_of (set_reg vm i.r0 v)

unfoldable pub set_arguments_count : Vm → ℕ → Option Vm
set_arguments_count vm n = push_value vm (record { type = type_number; val = n })

-- The loop of OP_FFRAME that places the arguments: `n` are left, the next goes to `at`. A place outside
-- the block is undefined.
unfoldable pub place_arguments : ℕ → ℕ → List Reg → Vm → Option (List Reg × Vm)
place_arguments zero at locals vm = some (locals, vm)
place_arguments (suc n) at locals vm = do
  (v, vm) ← pop_value vm
  if ltb at (length locals) then place_arguments n (at + 1) (set locals at v) vm else none

-- `this` is copied from the root context, if that has locals already
unfoldable pub place_this : List Object → Ptr → List Reg → Option (List Reg)
place_this objects root locals = do
  c ← context_at objects root
  elim c.locals [
    | none ↦ some locals
    | some root_locals ↦ do
      this ← get_elem? root_locals 1
      if ltb 1 (length locals) then some (set locals 1 this) else none
  ]

-- The block of locals, the arguments and `this`. That the handler also replaces the opcodes of the function
-- by the addresses of their handlers is no part of the model, which goes by the opcodes, nor is the
-- list of objects for the collector.
unfoldable pub op_fframe : Instruction → Vm → Option Vm
op_fframe i vm = do
  (count, vm) ← pop_value vm
  (locals, vm) ← place_arguments count.val 3 (replicate (i.r0 + 1) zero_reg) vm
  locals ← place_this vm.objects vm.root_context locals
  c ← context_at vm.objects vm.current_context
  some (
      goto_next (record vm {
        objects =
            put_context vm.objects vm.current_context
              (record c { locals = some locals; locals_count = i.r0 + 1; symbols_address = i.r1 });
      }))

-- `context_new()` with the fields that OP_CALL sets
unfoldable pub call_context : FunctionRef → Vm → Instruction → Context
call_context f vm i = record {
  parent_context = f.parent_context;
  return_context = vm.current_context;
  locals = none;
  locals_count = 0;
  symbol_table = none;
  catches_list = none;
  symbols_address = 0;
  requested_return_register_index = i.r1;
  return_address = vm.ip;
}

-- OP_CALL of a function of this state that is not asynchronous, up to and with OP_FFRAME
unfoldable pub call_own : Code → Instruction → FunctionRef → Vm → Option Vm
call_own code i f vm = do
  vm ← set_arguments_count vm i.r2
  let new = allocate vm.objects (context (call_context f vm i))
  frame ← fetch code f.start_address
  op_fframe frame (record vm {
    objects = new.0;
    current_context = new.1;
    state_context = new.1;
    ip = f.start_address;
  })

-- The register read last is the caller's; with no caller the run ends.
unfoldable pub op_return : Instruction → Vm → Option Outcome
op_return i vm = do
  actual ← get_reg vm i.r0
  c ← context_at vm.objects vm.current_context
  let vm = record vm {
    ip = c.return_address;
    state_context = vm.current_context;
    current_context = c.return_context;
  }
  if c.return_context == 0
      then some (ended (record vm { return_value = actual; return_code = 0 }))
      else runs (next_of (set_reg vm c.requested_return_register_index actual))
