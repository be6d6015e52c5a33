-- ===== src/Program/Assembler/Tests.antt =====
-- A loop with a label through the assembler (src/program/Assembler.cpp).
use zscript.Base.{ℕ, ◌≡◌, refl, some, [], ◌∷◌, get_elem?}
use zscript.Base.Strings.{Text, str_eq}
use zscript.Program.Instruction.{Instruction, label, jmp, mov, mov_number}
use zscript.Program.Assembler.{
  put_label, label_position, takes_room, calculate_labels, resolve_labels, number_bits,
  assemble_instruction, assemble_with, assemble,
}
use zscript.Program.Assembler.Labels.{target_of, assemble-fetch}
use zscript.Interpreter.State.{fetch}

-- each operand points to a string with its number in it
abbrev text : ℕ → Text
text p = p ∷ []

abbrev start : Instruction
start = record { opcode = mov_number; r0 = 3; r1 = 7; r2 = 0 }

abbrev loop : Instruction
loop = record { opcode = label; r0 = 1000; r1 = 0; r2 = 0 }

abbrev body : Instruction
body = record { opcode = mov; r0 = 4; r1 = 3; r2 = 0 }

abbrev back : Instruction
back = record { opcode = jmp; r0 = 1000; r1 = 0; r2 = 0 }

assembled :
    assemble text 1 (λ t. 9) 16 (start ∷ loop ∷ body ∷ back ∷ [])
    ≡ record { opcode = mov_number; r0 = 3; r1 = 9; r2 = 0 }
      ∷ body
      ∷ record { opcode = jmp; r0 = 48; r1 = 0; r2 = 0 }
      ∷ []
unfolding assemble assemble_with assemble_instruction resolve_labels calculate_labels put_label
    label_position takes_room number_bits str_eq
assembled = refl

back_target : target_of back ≡ some 1000
unfolding target_of
back_target = refl

assemble-fetch_example :
    (address : ℕ) × (target_of (
        assemble_instruction text 1
          (λ t. 9)
          (calculate_labels text 16 0 (start ∷ loop ∷ body ∷ back ∷ []) [])
          back)
      ≡ some address)
    × (fetch
          (record {
            code_start = 16;
            instructions = assemble text 1 (λ t. 9) 16 (start ∷ loop ∷ body ∷ back ∷ []);
          })
          address
        ≡ get_elem?
            (assemble_with text 1
              (λ t. 9)
              (calculate_labels text 16 0 (start ∷ loop ∷ body ∷ back ∷ []) [])
              (body ∷ back ∷ []))
            0)
assemble-fetch_example =
    assemble-fetch text 1 (λ t. 9) 16 (start ∷ []) (body ∷ back ∷ []) loop back 1000 refl
      (λ h. cc, (λ h. cc, tt)) back_target refl
