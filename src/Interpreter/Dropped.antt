-- ===== src/Interpreter/Dropped.antt =====
-- Two merges of src/program/BytecodeOptimizer.cpp that lose a write to a variable, seen in the handlers
-- of src/interpreter/interpreter_dd.c.
use zscript.Base.{
  ℕ, ◌+◌, ◌≤◌, ◌<◌, ◌≡◌, ◌≢◌, ◌∙◌, true, false, some, List, ◌∷◌, ◌==◌, ◌>>=◌, length, get_elem?,
  set, arith, get_elem?-set, length-set, ==_refl,
}
use zscript.Program.Instruction.{Instruction, is_compare, mov, mov_number}
use zscript.Program.Optimizer.{
  merge, compare_action, mov_number_action, action, optimize_pass, cons_to, immediate_jump,
}
use zscript.Interpreter.Numbers.{Float64}
use zscript.Interpreter.State.{Reg, Vm, get_reg, type_number}
use zscript.Interpreter.Data.{
  op_cmp, jump_test, op_jump, op_mov, op_mov_number, op_jump_immediate, immediate_test,
}
use zscript.Interpreter.Store.{Frame, get_reg-Frame}
use zscript.Interpreter.Frames.{
  with_local, Frame-set, result_of, op_cmp-Frame, op_jump-Frame, lands, op_mov-Frame,
  op_mov_number-Frame, op_jump_immediate-Frame, get_reg-ip,
}

dropped_action :
    (c n : Instruction)
    → is_compare c.opcode ≡ true
    → n.r1 ≡ c.r2
    → action c (some n) ≡ some (merge c)
unfolding action compare_action
dropped_action c n h e = ground arith

-- A move of a compare's result into another variable, both registers of the frame, is taken for a
-- part of the compare: the optimizer drops it, and the variable keeps its old value where the two
-- instructions would have set it.
pub dropped_move :
    (f : Float64) (c n : Instruction) (rest : List Instruction) (vm : Vm) (locals : List Reg)
    (x y old : Reg) (fr : Frame vm locals)
    → is_compare c.opcode ≡ true
    → n.opcode ≡ mov
    → n.r1 ≡ c.r2
    → n.r0 ≢ c.r2
    → get_elem? locals c.r0 ≡ some x
    → get_elem? locals c.r1 ≡ some y
    → get_elem? locals n.r0 ≡ some old
    → c.r2 < length locals
    → n.r0 < length locals
    → (optimize_pass (c ∷ n ∷ rest) ≡ cons_to c (optimize_pass rest))
      × ((op_cmp f c vm >>= op_mov n >>= λ vm. get_reg vm n.r0) ≡ some (result_of f c x y))
      × ((op_cmp f c vm >>= λ vm. get_reg vm n.r0) ≡ some old)
unfolding optimize_pass
dropped_move f c n rest vm locals x y old fr cmp kind same apart gx gy go h k =
    let result = result_of f c x y in
    let after = Frame-set vm locals c.r2 result (vm.ip + 32) fr in
    let now = set locals c.r2 result in
    let moved : get_elem? now n.r1 ≡ some result =
      rw (same, get_elem?-set locals c.r2 c.r2 result h, ==_refl) in
    let other : (c.r2 == n.r0) ≡ false = ground (arith, apart) in
    let kept : get_elem? now n.r0 ≡ some old =
      rw (get_elem?-set locals c.r2 n.r0 result h, other) go in
    let inside : n.r0 < length now = omega (arith, length-set locals c.r2 result) in
    let last = Frame-set _ now n.r0 result (vm.ip + 32 + 32) after in
    let read : get_elem? (set now n.r0 result) n.r0 ≡ some result =
      rw (get_elem?-set now n.r0 n.r0 result inside, ==_refl) in
    (
      rw (dropped_action c n cmp same, optimize_pass),
      rw
          (
            op_cmp-Frame f c vm locals x y fr gx gy h,
            ◌>>=◌,
            op_mov-Frame n _ now result after moved inside,
          )
          (get_reg-Frame _ (set now n.r0 result) n.r0 last ∙ read),
      rw (op_cmp-Frame f c vm locals x y fr gx gy h, ◌>>=◌) (get_reg-Frame _ now n.r0 after ∙ kept),
    )

-- the opcodes with an immediate operand follow those without one in the same order
immediate_jump-next : (op : ℕ) → 30 ≤ op → op ≤ 35 → immediate_jump op ≡ some (op + 6)
unfolding immediate_jump
immediate_jump-next op lo hi = ground arith

-- the jump with the constant as its immediate operand: an opcode OP_J has OP_J_I six places behind it
abbrev pub immediate : Instruction → Instruction → Instruction
immediate c n = record { opcode = n.opcode + 6; r0 = n.r0; r1 = c.r1; r2 = n.r2 }

assignment_action :
    (c n : Instruction)
    → c.opcode ≡ mov_number
    → 30 ≤ n.opcode
    → n.opcode ≤ 35
    → n.r1 ≡ c.r0
    → action c (some n) ≡ some (merge (immediate c n))
unfolding action mov_number_action
assignment_action c n op lo hi same =
    let chosen = immediate_jump-next n.opcode lo hi in ground arith

-- A constant that is assigned to a variable of the frame, and with which a jump that follows
-- compares another register, is taken for a temporary: the optimizer leaves in place of the two the
-- same jump with the constant as its immediate operand, to the same target. This leaves the variable as
-- it was, where the two instructions would have set it.
pub dropped_assignment :
    (f : Float64) (c n : Instruction) (rest : List Instruction) (vm : Vm) (locals : List Reg)
    (x old : Reg) (fr : Frame vm locals)
    → c.opcode ≡ mov_number
    → 30 ≤ n.opcode
    → n.opcode ≤ 35
    → n.r1 ≡ c.r0
    → n.r0 ≢ c.r0
    → get_elem? locals n.r0 ≡ some x
    → get_elem? locals c.r0 ≡ some old
    → c.r0 < length locals
    → (optimize_pass (c ∷ n ∷ rest) ≡ cons_to (immediate c n) (optimize_pass rest))
      × ((op_mov_number c vm >>= op_jump f n >>= λ vm. get_reg vm c.r0)
          ≡ some (record { type = type_number; val = c.r1 }))
      × ((op_jump_immediate f (immediate c n) vm >>= λ vm. get_reg vm c.r0) ≡ some old)
unfolding optimize_pass
dropped_assignment f c n rest vm locals x old fr op lo hi same apart gx go h =
    let value : Reg = record { type = type_number; val = c.r1 } in
    let chosen = assignment_action c n op lo hi same in
    let after = Frame-set vm locals c.r0 value (vm.ip + 32) fr in
    let vm' : Vm = record vm { objects = with_local vm locals fr c.r0 value; ip = vm.ip + 32 } in
    let now = set locals c.r0 value in
    let other : (c.r0 == n.r0) ≡ false = ground (arith, apart) in
    let first : get_elem? now n.r0 ≡ some x =
      rw (get_elem?-set locals c.r0 n.r0 value h, other) gx in
    let second : get_elem? now c.r0 ≡ some value =
      rw (get_elem?-set locals c.r0 c.r0 value h, ==_refl) in
    let second' : get_elem? now n.r1 ≡ some value = rw same second in
    let test = jump_test f n.opcode x.val c.r1 in
    let tested = immediate_test f (n.opcode + 6) x.val c.r1 in
    (
      rw (chosen, optimize_pass),
      rw
          (
            op_mov_number-Frame c vm locals fr h,
            ◌>>=◌,
            op_jump-Frame f n _ now x value after first second',
            lands test n.r2 vm',
          )
          (get_reg-ip vm' now c.r0 _ after ∙ second),
      rw (op_jump_immediate-Frame f (immediate c n) vm locals x fr gx, lands tested n.r2 vm, ◌>>=◌)
          (get_reg-ip vm locals c.r0 _ fr ∙ go),
    )
