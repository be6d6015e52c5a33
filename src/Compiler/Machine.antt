-- ===== src/Compiler/Machine.antt =====
-- Straight code in src/interpreter/interpreter_dd.c: the handlers that compute, one after the other, and
-- what they do to the block of locals of the current function.
use zscript.Base.{
  ℕ, ◌≡◌, refl, Option, none, some, List, [], ◌∷◌, ◌++◌, ◌==◌, ltb, ◌&&◌, if◌then◌else◌, ◌>>=◌,
  length, get_elem?, set, inl, inr, Option-cases,
}
use zscript.Base.Strings.{Text}
use zscript.Program.Instruction
use zscript.Program.Instruction.{Instruction, is_compare}
use zscript.Interpreter.Numbers.{Float64, of_bool}
use zscript.Interpreter.State.{Reg, Ptr, Vm, type_number}
use zscript.Interpreter.Data.{
  compare_value, op_mov, op_mov_number, op_number, op_mod, op_add, op_cmp,
}
use zscript.Interpreter.Throw.{Outcome, running}
use zscript.Interpreter.Control.{op_div}

abbrev pub going_on : Option Outcome → Option Vm
going_on (some (running vm)) = some vm
going_on _ = none

-- a value of a register that is a number
abbrev pub number : ℕ → Reg
number bits = record { type = type_number; val = bits }

-- a write to a block of locals
unfoldable pub write : List Reg → ℕ → Option Reg → Option (List Reg)
write locals r none = none
write locals r (some v) = if ltb r (length locals) then some (set locals r v) else none

module _ (f : Float64) where
  -- what an instruction with two operands computes; numbers only
  unfoldable pub compute : (opcode : ℕ) → Reg → Reg → Option Reg
  compute opcode x y =
      if x.type == type_number && y.type == type_number
      then (if opcode == Instruction.add
          then some (number (f.plus x.val y.val))
          else if opcode == Instruction.sub
          then some (number (f.minus x.val y.val))
          else if opcode == Instruction.div
          then (if f.equal y.val 0 then none else some (number (f.over x.val y.val)))
          else if opcode == Instruction.mul
          then some (number (f.times x.val y.val))
          else if opcode == Instruction.mod'
          then some (number (f.fmod x.val y.val))
          else if is_compare opcode
          then some (number (of_bool f (compare_value f opcode x.val y.val)))
          else none)
      else none

  unfoldable pub local_step : Instruction → List Reg → Option (List Reg)
  local_step i locals =
      if i.opcode == Instruction.mov_number
      then write locals i.r0 (some (number i.r1))
      else if i.opcode == Instruction.mov
      then write locals i.r0 (get_elem? locals i.r1)
      else write locals i.r2
          (get_elem? locals i.r0 >>= λ x. get_elem? locals i.r1 >>= λ y. compute i.opcode x y)

  -- the steps of straight code on a block of locals
  unfoldable pub local_run : List Instruction → List Reg → Option (List Reg)
  local_run [] locals = some locals
  local_run (i ∷ code) locals = local_step i locals >>= λ locals. local_run code locals

  pub local_run-append :
      (a b : List Instruction) (locals : List Reg)
      → local_run (a ++ b) locals ≡ (local_run a locals >>= λ locals. local_run b locals)
  unfolding local_run
  local_run-append [] b locals = refl
  local_run-append (i ∷ a) b locals = elim (Option-cases (local_step i locals)) [
    | inl e ↦ rw (e, ◌>>=◌)
    | inr (mid, e) ↦ rw (e, ◌>>=◌) (local_run-append a b mid)
  ]

  module _ (describe : Ptr → Text) where
    -- the handlers that compute or move, by the opcode
    unfoldable pub dispatch : Instruction → Vm → Option Vm
    dispatch i vm =
        if i.opcode == Instruction.mov_number
        then op_mov_number i vm
        else if i.opcode == Instruction.mov
        then op_mov i vm
        else if i.opcode == Instruction.add
        then op_add f describe i vm
        else if i.opcode == Instruction.sub
        then op_number f.minus i vm
        else if i.opcode == Instruction.div
        then going_on (op_div f i vm)
        else if i.opcode == Instruction.mul
        then op_number f.times i vm
        else if i.opcode == Instruction.mod'
        then op_mod f i vm
        else if is_compare i.opcode
        then op_cmp f i vm
        else none

    unfoldable pub run_straight : List Instruction → Vm → Option Vm
    run_straight [] vm = some vm
    run_straight (i ∷ code) vm = dispatch i vm >>= λ vm. run_straight code vm
