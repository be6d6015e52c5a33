-- ===== src/Interpreter/Fusion.antt =====
-- The jump that src/program/BytecodeOptimizer.cpp puts in place of a compare and a conditional jump,
-- run by the handlers of src/interpreter/interpreter_dd.c.
use zscript.Base.{
  ℕ, ◌+◌, ◌<◌, ◌≡◌, ◌≢◌, ◌∙◌, Bool, true, false, not, Option, some, List, ◌==◌, if◌then◌else◌,
  ◌>>=◌, length, get_elem?, set, arith, get_elem?-set, ==_refl, ◌⊎◌,
}
use zscript.Program.Instruction.{Instruction, is_compare, jmp_true, jmp_not_true}
use zscript.Program.Optimizer.{merge, fused_jump, compare_action}
use zscript.Interpreter.Numbers.{Float64, IsIeee, of_bool}
use zscript.Interpreter.State.{Reg, Vm}
use zscript.Interpreter.Data.{
  jump_if, compare_value, op_cmp, op_jmp_true, op_jmp_not_true, jump_test, op_jump,
}
use zscript.Interpreter.Store.{Frame, get_reg-Frame}
use zscript.Interpreter.Frames.{
  with_local, Frame-set, result_of, op_cmp-Frame, op_jump-Frame, lands,
}

fused_test :
    (f : Float64) (op a b : ℕ) (neg : Bool)
    → IsIeee f
    → is_compare op ≡ true
    → f.is_nan a ≡ false
    → f.is_nan b ≡ false
    → jump_test f (fused_jump op neg) a b ≡ (
        if neg
        then of_bool f (compare_value f op a b) == 0
        else not (of_bool f (compare_value f op a b) == 0))
unfolding jump_test fused_jump compare_value
fused_test f op a b true laws c na nb =
    ground (arith, laws.one_ne_zero, laws.total a b na nb, laws.total b a nb na)
fused_test f op a b false laws c na nb = ground (arith, laws.one_ne_zero)

-- a compare and the jump on its result
abbrev pub compare_and_jump : Float64 → Instruction → Instruction → Vm → Option Vm
compare_and_jump f c n vm = do
  vm ← op_cmp f c vm
  if n.opcode == jmp_not_true then op_jmp_not_true n vm else op_jmp_true n vm

jump_on_register :
    (n : Instruction) (vm : Vm) (locals : List Reg) (x : Reg) (fr : Frame vm locals)
    → get_elem? locals n.r0 ≡ some x
    → (if n.opcode == jmp_not_true then op_jmp_not_true n vm else op_jmp_true n vm)
      ≡ jump_if (if n.opcode == jmp_not_true then x.val == 0 else not (x.val == 0)) n.r1 vm
unfolding op_jmp_not_true op_jmp_true
jump_on_register n vm locals x fr g = rw (get_reg-Frame vm locals n.r0 fr, g, ◌>>=◌) (ground arith)

fused_shape :
    (c n i : Instruction)
    → (n.opcode ≡ jmp_true) ⊎ (n.opcode ≡ jmp_not_true)
    → n.r1 ≢ c.r2
    → compare_action c n ≡ merge i
    → (i.opcode ≡ fused_jump c.opcode (n.opcode == jmp_not_true))
      × (i.r0 ≡ c.r0)
      × (i.r1 ≡ c.r1)
      × (i.r2 ≡ n.r1)
unfolding compare_action
fused_shape c n i kind apart h = ground arith

-- On numbers that are no NaNs, with arithmetic as in IEEE 754, the jump that `optimize` puts in
-- place of a compare and a conditional jump on its result, whose target is not the number of the
-- compare's register, is taken exactly when the two would have jumped, and to the same place; it
-- changes no register, where the two leave the result of the compare in its register, which is one
-- of the frame.
pub fused_jump_lem :
    (f : Float64) (c n i : Instruction) (vm : Vm) (locals : List Reg) (x y : Reg)
    (fr : Frame vm locals)
    → IsIeee f
    → is_compare c.opcode ≡ true
    → (n.opcode ≡ jmp_true) ⊎ (n.opcode ≡ jmp_not_true)
    → n.r0 ≡ c.r2
    → n.r1 ≢ c.r2
    → compare_action c n ≡ merge i
    → get_elem? locals c.r0 ≡ some x
    → get_elem? locals c.r1 ≡ some y
    → f.is_nan x.val ≡ false
    → f.is_nan y.val ≡ false
    → c.r2 < length locals
    → (taken : Bool) × (compare_and_jump f c n vm
        ≡ some (record vm {
          objects = with_local vm locals fr c.r2 (result_of f c x y);
          ip = if taken then n.r1 else vm.ip + 32 + 32;
        }))
      × (op_jump f i vm ≡ some (record vm { ip = if taken then n.r1 else vm.ip + 32 }))
fused_jump_lem f c n i vm locals x y fr laws cmp kind same apart merged gx gy nx ny h =
    let neg = n.opcode == jmp_not_true in
    let result = result_of f c x y in
    let taken = if neg then result.val == 0 else not (result.val == 0) in
    let after = Frame-set vm locals c.r2 result (vm.ip + 32) fr in
    let seen : get_elem? (set locals c.r2 result) n.r0 ≡ some result =
      rw (same, get_elem?-set locals c.r2 c.r2 result h, ==_refl) in
    let shape = fused_shape c n i kind apart merged in
    let here = jump_on_register n _ (set locals c.r2 result) result after seen in
    (
      taken,
      rw (op_cmp-Frame f c vm locals x y fr gx gy h, ◌>>=◌) (here ∙ lands taken n.r1 _),
      op_jump-Frame f i vm locals x y fr (rw shape.1 gx) (rw shape.2 gy)
          ∙ rw (shape.0, shape.3, fused_test f c.opcode x.val y.val neg laws cmp nx ny)
              (lands taken n.r1 vm),
    )
