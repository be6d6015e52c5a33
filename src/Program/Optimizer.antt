-- ===== src/Program/Optimizer.antt =====
-- src/program/BytecodeOptimizer.cpp: the peephole optimizer. A read of `next` behind the last
-- instruction is undefined: `none`.
pub mod Actions
pub mod Stable
mod Tests
use zscript.Base.{
  ℕ, zero, suc, Bool, true, false, Option, none, some, List, [], ◌∷◌, ◌==◌, ◌&&◌, if◌then◌else◌,
  ◌>>=◌, length,
}
use zscript.Program.Instruction.{
  Instruction, is_compare, mov_number, mov, cmp_equal, cmp_less, cmp_less_or_equal, cmp_greater,
  cmp_n_equal, jmp_true, jmp_not_true, return', jmp_less, jmp_greater, jmp_less_or_equal,
  jmp_greater_or_equal, jmp_equal, jmp_n_equal, jmp_less_i, jmp_greater_i, jmp_less_or_equal_i,
  jmp_greater_or_equal_i, jmp_equal_i, jmp_n_equal_i,
}

-- What one round of the loop does: it adds the instruction as it is, adds one in place of this and the
-- next, or adds none.
pub data Action : Type 0 where
  keep : Action
  merge : Instruction → Action
  remove : Action

-- mov_n jmp -> jmp immediate, by the opcode of the jump
unfoldable pub immediate_jump : ℕ → Option ℕ
immediate_jump next_opcode =
    if next_opcode == jmp_n_equal
    then some jmp_n_equal_i
    else if next_opcode == jmp_equal
    then some jmp_equal_i
    else if next_opcode == jmp_less
    then some jmp_less_i
    else if next_opcode == jmp_less_or_equal
    then some jmp_less_or_equal_i
    else if next_opcode == jmp_greater
    then some jmp_greater_i
    else if next_opcode == jmp_greater_or_equal
    then some jmp_greater_or_equal_i
    else none

-- compare and jump, by the opcode of the compare and whether the jump is negated
unfoldable pub fused_jump : ℕ → Bool → ℕ
fused_jump opcode neg =
    if opcode == cmp_equal
    then (if neg then jmp_n_equal else jmp_equal)
    else if opcode == cmp_n_equal
    then (if neg then jmp_equal else jmp_n_equal)
    else if opcode == cmp_less
    then (if neg then jmp_greater_or_equal else jmp_less)
    else if opcode == cmp_less_or_equal
    then (if neg then jmp_greater else jmp_less_or_equal)
    else if opcode == cmp_greater
    then (if neg then jmp_less_or_equal else jmp_greater)
    else (if neg then jmp_less else jmp_greater_or_equal)

unfoldable pub mov_number_action : Instruction → Instruction → Action
mov_number_action current next =
    if current.r0 == next.r1
    then elim (immediate_jump next.opcode) [
      | some opcode ↦
          merge (record { opcode = opcode; r0 = next.r0; r1 = current.r1; r2 = next.r2 })
      | none ↦ keep
    ]
    else keep

unfoldable pub compare_action : Instruction → Instruction → Action
compare_action current next =
    if next.r1 == current.r2
    then merge (record current { r2 = next.r1 })
    else if next.opcode == jmp_not_true
    then merge (record current { opcode = fused_jump current.opcode true; r2 = next.r1 })
    else if next.opcode == jmp_true
    then merge (record current { opcode = fused_jump current.opcode false; r2 = next.r1 })
    else keep

unfoldable pub action : Instruction → Option Instruction → Option Action
action current next =
    if current.opcode == return'
    then (next >>= λ next. some (if next.opcode == return' then merge current else keep))
    else if current.opcode == mov
    then some (if current.r0 == current.r1 then remove else keep)
    else if current.opcode == mov_number
    then (next >>= λ next. some (mov_number_action current next))
    else if is_compare current.opcode
    then (next >>= λ next. some (compare_action current next))
    else some keep

abbrev pub cons_to : Instruction → Option (List Instruction) → Option (List Instruction)
cons_to i none = none
cons_to i (some is) = some (i ∷ is)

-- the loop over the instructions
unfoldable pub optimize_pass : List Instruction → Option (List Instruction)
optimize_pass [] = some []
optimize_pass (current ∷ []) = elim (action current none) [
  | none ↦ none
  | some keep ↦ some (current ∷ [])
  | some (merge i) ↦ some (i ∷ [])
  | some remove ↦ some []
]
optimize_pass (current ∷ next ∷ rest) = elim (action current (some next)) [
  | none ↦ none
  | some keep ↦ cons_to current (optimize_pass (next ∷ rest))
  | some (merge i) ↦ cons_to i (optimize_pass rest)
  | some remove ↦ optimize_pass (next ∷ rest)
]

-- The recursion at the end of `optimize`, on fuel.
unfoldable pub optimize_on : ℕ → List Instruction → Option (List Instruction)
optimize_on zero instructions = none
optimize_on (suc fuel) instructions = elim (optimize_pass instructions) [
  | none ↦ none
  | some ret ↦ elim (length ret == length instructions) [
    | true ↦ some ret
    | false ↦ optimize_on fuel ret
  ]
]

unfoldable pub optimize : List Instruction → Option (List Instruction)
unfolding optimize_on
optimize instructions = optimize_on (suc (length instructions)) instructions
