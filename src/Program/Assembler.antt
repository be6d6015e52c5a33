-- ===== src/Program/Assembler.antt =====
-- src/program/Assembler.cpp from the labels on: the positions of the labels, and the instructions with
-- their operands resolved. The two words at the start of the file, of which one gets the position of the
-- static constructor, are not modelled. `text` gives the string that an operand points to, and `parse` is `atof`.
pub mod Labels
mod Tests
use zscript.Base.{
  ℕ, zero, suc, ◌+◌, Bool, true, false, not, List, [], ◌∷◌, ◌++◌, ◌==◌, leb, ◌&&◌, ◌||◌,
  if◌then◌else◌,
}
use zscript.Base.Strings.{Text, str_eq}
use zscript.Program.Instruction.{
  Instruction, mov_number, jmp_less, jmp_n_equal_i, jmp_less_i, jmp_true, jmp_not_true, jmp,
  mov_fnc, set_catch, fframe, comment, label,
}

-- `label_position_map`, whose keys are compared as strings
abbrev pub LabelMap : Type 0
LabelMap = List (Text × ℕ)

-- `label_position_map[name] = position`
unfoldable pub put_label : Text → ℕ → LabelMap → LabelMap
put_label name position [] = (name, position) ∷ []
put_label name position ((n, p) ∷ labels) =
    let rest = put_label name position labels in
    if str_eq n name then (n, position) ∷ labels else (n, p) ∷ rest

-- `label_position_map[name]`, which is 0 for a missing key
unfoldable pub label_position : Text → LabelMap → ℕ
label_position name [] = 0
label_position name ((n, p) ∷ labels) = if str_eq n name then p else label_position name labels

-- neither a label nor a comment, which take no room
unfoldable pub takes_room : Instruction → Bool
takes_room i = not (i.opcode == label) && not (i.opcode == comment)

abbrev pub true_text : Text
true_text = 116 ∷ 114 ∷ 117 ∷ 101 ∷ []

abbrev pub false_text : Text
false_text = 102 ∷ 97 ∷ 108 ∷ 115 ∷ 101 ∷ []

module _ (text : ℕ → Text) where
  -- the loop that calculates the labels
  unfoldable pub calculate_labels :
      (sizeof_constants lpos : ℕ) → List Instruction → LabelMap → LabelMap
  calculate_labels sizeof_constants lpos [] labels = labels
  calculate_labels sizeof_constants lpos (i ∷ instructions) labels =
      calculate_labels sizeof_constants (if takes_room i then lpos + 32 else lpos) instructions (
        if i.opcode == label
        then put_label (text i.r0) (sizeof_constants + lpos) labels
        else labels)

  unfoldable pub resolve_labels : LabelMap → Instruction → Instruction
  resolve_labels labels i =
      if leb jmp_less i.opcode && leb i.opcode jmp_n_equal_i
      then record i { r2 = label_position (text i.r2) labels }
      else if i.opcode == jmp_not_true || i.opcode == jmp_true
      then record i { r1 = label_position (text i.r1) labels }
      else if i.opcode == jmp
      then record i { r0 = label_position (text i.r0) labels }
      else if i.opcode == mov_fnc
      then record i { r1 = label_position (text i.r1) labels }
      else if i.opcode == set_catch
      then record i { r0 = label_position (text i.r0) labels }
      else if i.opcode == fframe
      then record i { r2 = label_position (text i.r2) labels }
      else i

  module _ (one : ℕ) (parse : Text → ℕ) where
    -- the bits of a number
    unfoldable pub number_bits : Text → ℕ
    number_bits num_str =
        if str_eq num_str true_text
        then one
        else if str_eq num_str false_text
        then 0
        else parse num_str

    -- the four words that are written
    unfoldable pub assemble_instruction : LabelMap → Instruction → Instruction
    assemble_instruction labels i =
        let resolved = resolve_labels labels i in
        if i.opcode == mov_number || leb jmp_less_i i.opcode && leb i.opcode jmp_n_equal_i
        then record resolved { r1 = number_bits (text resolved.r1) }
        else resolved

    unfoldable pub assemble_with : LabelMap → List Instruction → List Instruction
    assemble_with labels [] = []
    assemble_with labels (i ∷ instructions) =
        let rest = assemble_with labels instructions in
        if takes_room i then assemble_instruction labels i ∷ rest else rest

    -- the instructions behind the constants
    unfoldable pub assemble : (sizeof_constants : ℕ) → List Instruction → List Instruction
    assemble sizeof_constants instructions =
        assemble_with (calculate_labels sizeof_constants 0 instructions []) instructions
