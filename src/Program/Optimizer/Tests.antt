-- ===== src/Program/Optimizer/Tests.antt =====
-- The optimizer on a concrete program (src/program/BytecodeOptimizer.cpp).
use zscript.Base.{ℕ, ◌≡◌, refl, some, List, [], ◌∷◌, arith}
use zscript.Program.Instruction.{Instruction, cmp_less, jmp_not_true, mov, label}
use zscript.Program.Optimizer.{
  optimize_pass, optimize, optimize_on, action, compare_action, fused_jump,
}
use zscript.Program.Optimizer.Stable.{IsProgram, Optimized, optimize_lem}

abbrev at : ℕ → ℕ → ℕ → ℕ → Instruction
at opcode r0 r1 r2 = record { opcode = opcode; r0 = r0; r1 = r1; r2 = r2 }

-- if a test of registers 3 and 4 fails to the label at 1000
abbrev loop : List Instruction
loop =
    at cmp_less 3 4 9
    ∷ at jmp_not_true 9 1000 0
    ∷ at mov 5 5 0
    ∷ at cmp_less 3 3 9
    ∷ at mov 6 9 0
    ∷ at label 1000 0 0
    ∷ []

loop-IsProgram : IsProgram loop
loop-IsProgram = record {
  ends = refl;
  sound = (
    record { destination = λ h. ground arith; bare = λ h. cc },
    (
      record { destination = λ h. ground arith; bare = λ h. cc },
      (
        record { destination = λ h. ground arith; bare = λ h. cc },
        (
          record { destination = λ h. ground arith; bare = λ h. cc },
          (
            record { destination = λ h. ground arith; bare = λ h. cc },
            (record { destination = λ h. ground arith; bare = λ h. refl }, tt),
          ),
        ),
      ),
    ),
  );
}

optimize-loop : optimize loop ≡ some (at 33 3 4 1000 ∷ at cmp_less 3 3 9 ∷ at label 1000 0 0 ∷ [])
unfolding optimize optimize_on optimize_pass action compare_action fused_jump
optimize-loop = refl

optimize_lem_example : (ret : List Instruction) × (optimize loop ≡ some ret) × Optimized loop ret
optimize_lem_example = optimize_lem loop loop-IsProgram
