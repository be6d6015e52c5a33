-- ===== src/Program/Optimizer/Actions.antt =====
-- What a round of the optimizer can do to an instruction (src/program/BytecodeOptimizer.cpp).
use zscript.Base.{
  ℕ, ◌≡◌, ◌≢◌, Bool, true, false, Option, some, ◌==◌, if◌then◌else◌, arith, inl, inr, Bool-cases,
  Option-cases, ◌≤◌,
}
use zscript.Program.Instruction.{Instruction, is_compare, mov_number, mov, return', label}
use zscript.Program.Optimizer.{
  Action, keep, merge, remove, immediate_jump, fused_jump, mov_number_action, compare_action,
  action,
}

-- A compare has a destination other than register 0, and a label has nothing in `r1`.
pub record IsSound (i : Instruction) : Type 0 where
  pub destination : is_compare i.opcode ≡ true → i.r2 ≢ 0
  pub bare : i.opcode ≡ label → i.r1 ≡ 0

fused_jump_range : (op : ℕ) (neg : Bool) → (30 ≤ fused_jump op neg) × (fused_jump op neg ≤ 35)
unfolding fused_jump
fused_jump_range op true = ground arith
fused_jump_range op false = ground arith

immediate_jump_range :
    (op j : ℕ) → immediate_jump op ≡ some j → (36 ≤ j) × (j ≤ 41) × (30 ≤ op) × (op ≤ 35)
unfolding immediate_jump
immediate_jump_range op j h = ground arith

-- neither a compare nor a label
pub record IsPlain (i : Instruction) : Type 0 where
  pub no_compare : is_compare i.opcode ≡ false
  pub no_label : i.opcode ≢ label

pub plain-IsSound : (i : Instruction) → IsPlain i → IsSound i
plain-IsSound i p = record { destination = λ h. ground arith; bare = λ h. absurd (p.no_label h) }

-- an instruction that stands for two others, neither of which is a label
pub record IsMerged (current next i : Instruction) : Type 0 where
  pub first : current.opcode ≢ label
  pub second : next.opcode ≢ label
  pub sound : IsSound i
  pub no_label : i.opcode ≢ label

mov_number_merge :
    (c n i : Instruction) → c.opcode ≡ mov_number → mov_number_action c n ≡ merge i → IsMerged c n i
unfolding mov_number_action
mov_number_merge c n i e h = elim (Option-cases (immediate_jump n.opcode)) [
  | inl g ↦ ground arith
  | inr (j, g) ↦ ground (arith, immediate_jump_range n.opcode j g)
]

compare_merge :
    (c n i : Instruction)
    → is_compare c.opcode ≡ true
    → IsSound c
    → IsSound n
    → compare_action c n ≡ merge i
    → IsMerged c n i
unfolding compare_action
compare_merge c n i e s t h = ground (
  arith,
  fused_jump_range c.opcode true,
  fused_jump_range c.opcode false,
  s.destination e,
  t.bare,
)

-- A merge takes no label away, and gives a sound instruction.
pub action-IsMerged :
    (c n i : Instruction)
    → IsSound c
    → IsSound n
    → action c (some n) ≡ some (merge i)
    → IsMerged c n i
unfolding action
action-IsMerged c n i s t h = elim (Bool-cases (c.opcode == return')) [
  | inl r ↦
      let merged : (if n.opcode == return' then merge c else keep) ≡ merge i = ground arith in
      ground (arith, s.destination, s.bare)
  | inr r ↦ elim (Bool-cases (c.opcode == mov)) [
    | inl m ↦ ground arith
    | inr m ↦ elim (Bool-cases (c.opcode == mov_number)) [
      | inl k ↦
          let number : mov_number_action c n ≡ merge i = ground arith in
          mov_number_merge c n i (ground arith) number
      | inr k ↦ elim (Bool-cases (is_compare c.opcode)) [
        | inl q ↦
            let compare : compare_action c n ≡ merge i = ground arith in
            compare_merge c n i q s t compare
        | inr q ↦ ground arith
      ]
    ]
  ]
]

-- Before another instruction a round is defined.
pub action-some : (c n : Instruction) → (a : Action) × (action c (some n) ≡ some a)
unfolding action
action-some c n = elim (Option-cases (action c (some n))) [
  | inr r ↦ r
  | inl e ↦ absurd (ground arith)
]

-- A label is kept, whether or not another instruction follows.
pub action-label :
    (c : Instruction) (o : Option Instruction) → c.opcode ≡ label → action c o ≡ some keep
unfolding action
action-label c o e = rw e

-- What is removed is no label.
pub action-remove : (c n : Instruction) → action c (some n) ≡ some remove → c.opcode ≢ label
unfolding action
action-remove c n h e = cc (rw e at h)
