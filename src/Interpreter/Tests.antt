-- ===== src/Interpreter/Tests.antt =====
-- The interpreter in concrete states (src/interpreter/interpreter_dd.c).
use zscript.Base.{
  ℕ, zero, suc, ◌+◌, ◌<◌, ◌≡◌, refl, Bool, none, some, List, [], ◌∷◌, if◌then◌else◌, ◌>>=◌, arith,
  inl, inr,
}
use zscript.Program.Instruction.{
  Instruction, cmp_less, jmp_not_true, jmp_equal, jmp_equal_i, mov, mov_number, call, fframe,
  return', div,
}
use zscript.Program.Optimizer.{optimize_pass, cons_to, compare_action, fused_jump, merge}
use zscript.Interpreter.Numbers.{whole, whole-IsIeee}
use zscript.Interpreter.State.{
  Reg, zero_reg, Context, FunctionRef, Object, context, Vm, Code, fetch, type_number, context_at,
  context_of, object_at, get_reg,
}
use zscript.Interpreter.Data.{op_cmp, op_mov, op_mov_number, op_jump, op_jump_immediate}
use zscript.Interpreter.Throw.{running, throw_exception_from_str}
use zscript.Interpreter.Control.{call_own, op_return, op_div, divide_by_0}
use zscript.Interpreter.Store.{Frame}
use zscript.Interpreter.Frames.{with_local, result_of}
use zscript.Interpreter.Fusion.{compare_and_jump, fused_jump_lem}
use zscript.Interpreter.Dropped.{dropped_move, dropped_assignment}
use zscript.Interpreter.Unwind.{IsLinked, IsContextOrNull, Thrown, throw-Thrown, handled}
use zscript.Interpreter.Calls.{
  HasThis, Ready, entered, call_own-entered, call_own-overflow, Block, returned,
}
use zscript.Interpreter.RoundTrip.{ReturnsTo, return-call}
use zscript.Interpreter.Stale.{then_run, return-stale_catch}

abbrev num : ℕ → Reg
num v = record { type = type_number; val = v }

abbrev at : ℕ → ℕ → ℕ → ℕ → Instruction
at opcode r0 r1 r2 = record { opcode = opcode; r0 = r0; r1 = r1; r2 = r2 }

abbrev root_locals : List Reg
root_locals = zero_reg ∷ record { type = 16; val = 9 } ∷ zero_reg ∷ num 5 ∷ num 0 ∷ num 1 ∷ []

-- the context of the class body
abbrev root : Context
root = record {
  parent_context = 0;
  return_context = 0;
  locals = some root_locals;
  locals_count = 6;
  symbol_table = none;
  catches_list = none;
  symbols_address = 0;
  requested_return_register_index = 0;
  return_address = 0;
}

abbrev callee_locals : List Reg
callee_locals = zero_reg ∷ zero_reg ∷ num 11 ∷ []

-- a context that was called from it and has a catch point at 96
abbrev callee : Context
callee = record {
  parent_context = 1;
  return_context = 1;
  locals = some callee_locals;
  locals_count = 3;
  symbol_table = none;
  catches_list = some (96 ∷ []);
  symbols_address = 0;
  requested_return_register_index = 2;
  return_address = 64;
}

abbrev machine : List Object → ℕ → Vm
machine objects current = record {
  state_id = 1;
  objects = objects;
  state_context = current;
  current_context = current;
  root_context = 1;
  stack = zero_reg ∷ num 41 ∷ num 42 ∷ zero_reg ∷ zero_reg ∷ [];
  stack_ptr = 2;
  ip = 0;
  instruction_pointer = 0;
  class_name = 65 ∷ [];
  return_code = 0;
  exception_details = [];
  return_value = zero_reg;
}

abbrev in_root : Vm
in_root = machine (context root ∷ []) 1

abbrev in_callee : Vm
in_callee = machine (context root ∷ context callee ∷ []) 2

root_frame : Frame in_root root_locals
unfolding context_at object_at context_of
root_frame = record { here = root; there = refl; block = refl }

-- a call of a function at 64 with two arguments, for register 2
abbrev calls : Instruction
calls = at call 3 2 2

abbrev frames : Instruction
frames = at fframe 5 0 0

abbrev small_frames : Instruction
small_frames = at fframe 3 0 0

abbrev returns : Instruction
returns = at return' 4 0 0

abbrev program : Instruction → Code
program frame = record {
  code_start = 0;
  instructions = calls ∷ at mov 3 3 0 ∷ frame ∷ returns ∷ [];
}

abbrev function : FunctionRef
function = record {
  start_address = 64;
  is_async = 0;
  parent_context = 1;
  responsible_interpreter_state = 1;
}

abbrev arguments : List Reg
arguments = num 42 ∷ num 41 ∷ []

ready : Ready (program frames) calls frames function in_root arguments
unfolding fetch
ready = record {
  starts = refl;
  counted = refl;
  pushed = (refl, omega arith, (refl, omega arith, tt));
  room = omega arith;
}

small_frames-Ready : Ready (program small_frames) calls small_frames function in_root arguments
unfolding fetch
small_frames-Ready = record {
  starts = refl;
  counted = refl;
  pushed = (refl, omega arith, (refl, omega arith, tt));
  room = omega arith;
}

abbrev this : Reg
this = record { type = 16; val = 9 }

has_this : HasThis in_root this
unfolding context_at object_at context_of
has_this = record {
  root = root;
  root_locals = root_locals;
  there = refl;
  block = refl;
  second = refl;
}

return-call_example :
    (vm' : Vm) × ((call_own (program frames) calls function in_root >>= op_return returns)
      ≡ some (running vm'))
    × ReturnsTo calls in_root arguments root_locals (num 41) vm'
return-call_example =
    return-call (program frames) calls returns frames function in_root arguments root_locals this 1
      (num 41) root_frame ready has_this (omega arith) refl refl (omega arith)

call_own-entered_example :
    call_own (program frames) calls function in_root
    ≡ some (entered function in_root calls frames arguments this)
call_own-entered_example =
    call_own-entered (program frames) calls frames function in_root arguments this ready has_this
      (omega arith)

call_own-overflow_example : call_own (program small_frames) calls function in_root ≡ none
call_own-overflow_example =
    call_own-overflow (program small_frames) calls small_frames function in_root arguments this
      small_frames-Ready (omega arith) (omega arith)

in_callee_context : context_at in_callee.objects 2 ≡ some callee
unfolding context_at object_at context_of
in_callee_context = refl

caller_block : Block in_callee.objects 1 root_locals
unfolding context_at object_at context_of
caller_block = record { here = root; there = refl; block = refl }

return-stale_catch_example :
    (op_return (at return' 2 0 0) in_callee >>= then_run (op_div whole (at div 3 4 5)))
    ≡ some (
        running
          (record (handled
            (returned in_callee callee caller_block.here root_locals (num 11))
            divide_by_0
            2
            96) { ip = 96; current_context = 2 }))
return-stale_catch_example =
    return-stale_catch whole (at return' 2 0 0) (at div 3 4 5) in_callee callee_locals root_locals
      (num 11) (num 5) (num 0) callee [] 96 in_callee_context refl refl caller_block (omega arith)
      (omega arith) refl refl refl refl (omega arith) refl

linked : IsLinked in_callee.objects
unfolding context_at object_at context_of
linked = record { earlier = earlier; closed = closed }
  where
    earlier : (p : ℕ) (c : Context) → context_at in_callee.objects p ≡ some c → c.return_context < p
    earlier zero c h = cc
    earlier (suc zero) c h = ground arith
    earlier (suc (suc zero)) c h = ground arith
    earlier (suc (suc (suc p))) c h = cc

    closed :
        (p : ℕ) (c : Context)
        → context_at in_callee.objects p ≡ some c
        → IsContextOrNull in_callee.objects c.return_context
    closed zero c h = cc
    closed (suc zero) c h = inl (ground arith)
    closed (suc (suc zero)) c h = let e : c.return_context ≡ 1 = ground arith in inr (root, rw e)
    closed (suc (suc (suc p))) c h = cc

throw-Thrown_example :
    Thrown in_callee divide_by_0 2 (throw_exception_from_str in_callee divide_by_0)
throw-Thrown_example =
    throw-Thrown in_callee divide_by_0 linked (omega arith) (inr (callee, in_callee_context))

abbrev compares : Instruction
compares = at cmp_less 4 3 5

merges : compare_action compares (at jmp_not_true 5 960 0) ≡ merge (at 33 4 3 960)
unfolding compare_action fused_jump
merges = refl

fused_jump_lem_example :
    (taken : Bool) × (compare_and_jump whole compares (at jmp_not_true 5 960 0) in_root
      ≡ some (record in_root {
        objects =
            with_local in_root root_locals root_frame 5 (result_of whole compares (num 0) (num 5));
        ip = if taken then 960 else 0 + 32 + 32;
      }))
    × (op_jump whole (at 33 4 3 960) in_root
        ≡ some (record in_root { ip = if taken then 960 else 0 + 32 }))
fused_jump_lem_example =
    fused_jump_lem whole compares (at jmp_not_true 5 960 0) (at 33 4 3 960) in_root root_locals
      (num 0) (num 5) root_frame whole-IsIeee refl (inr refl) refl (ground arith) merges refl refl
      refl refl (omega arith)

dropped_move_example :
    (optimize_pass (compares ∷ at mov 2 5 0 ∷ []) ≡ cons_to compares (optimize_pass []))
    × ((op_cmp whole compares in_root >>= op_mov (at mov 2 5 0) >>= λ vm. get_reg vm 2)
        ≡ some (result_of whole compares (num 0) (num 5)))
    × ((op_cmp whole compares in_root >>= λ vm. get_reg vm 2) ≡ some zero_reg)
dropped_move_example =
    dropped_move whole compares (at mov 2 5 0) [] in_root root_locals (num 0) (num 5) zero_reg
      root_frame refl refl refl (ground arith) refl refl refl (omega arith) (omega arith)

dropped_assignment_example :
    (optimize_pass (at mov_number 5 8 0 ∷ at jmp_equal 3 5 960 ∷ [])
      ≡ cons_to (at jmp_equal_i 3 8 960) (optimize_pass []))
    × ((op_mov_number (at mov_number 5 8 0) in_root
          >>= op_jump whole (at jmp_equal 3 5 960)
          >>= λ vm. get_reg vm 5)
        ≡ some (num 8))
    × ((op_jump_immediate whole (at jmp_equal_i 3 8 960) in_root >>= λ vm. get_reg vm 5)
        ≡ some (num 1))
dropped_assignment_example =
    dropped_assignment whole (at mov_number 5 8 0) (at jmp_equal 3 5 960) [] in_root root_locals
      (num 5) (num 1) root_frame refl (omega arith) (omega arith) refl (ground arith) refl refl
      (omega arith)
