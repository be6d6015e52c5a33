-- ===== src/Interpreter/Arguments.antt =====
-- The arguments of a call of src/interpreter/interpreter_dd.c on their way from the stack to the locals.
use zscript.Base.{
  ℕ, zero, suc, ◌+◌, ◌-◌, ◌≤◌, ◌<◌, ◌≡◌, refl, ◌∙◌, true, false, none, some, List, [], ◌∷◌, ◌==◌,
  ltb, leb, ◌>>=◌, length, set, arith, get_elem?, get_elem?-set, length-set, Bool-cases, inl, inr,
}
use zscript.Interpreter.State.{Reg, Vm, pop_value}
use zscript.Interpreter.Control.{place_arguments}

-- the arguments from the top of the stack down, the first on top
abbrev pub OnStack : List Reg → ℕ → List Reg → Type 0
OnStack stack p [] = Unit
OnStack stack p (a ∷ args) = (get_elem? stack p ≡ some a) × (1 ≤ p) × OnStack stack (p - 1) args

-- a value pushed above leaves them
pub OnStack-set :
    (stack : List Reg) (p q : ℕ) (v : Reg) (args : List Reg)
    → p < q
    → q < length stack
    → OnStack stack p args
    → OnStack (set stack q v) p args
OnStack-set stack p q v [] h k s = tt
OnStack-set stack p q v (a ∷ args) h k s =
    let other : (q == p) ≡ false = ground arith in
    (
      rw (get_elem?-set stack q p v k, other) s.0,
      s.1,
      OnStack-set stack (p - 1) q v args (omega arith) k s.2,
    )

-- the locals with the arguments from `at` on
unfoldable pub placed : ℕ → List Reg → List Reg → List Reg
placed at [] locals = locals
placed at (a ∷ args) locals = placed (at + 1) args (set locals at a)

pub place_arguments-placed :
    (args : List Reg) (at : ℕ) (locals : List Reg) (vm : Vm)
    → OnStack vm.stack vm.stack_ptr args
    → at + length args ≤ length locals
    → place_arguments (length args) at locals vm
      ≡ some (placed at args locals, record vm { stack_ptr = vm.stack_ptr - length args })
unfolding place_arguments placed pop_value
place_arguments-placed [] at locals vm s fits =
    let e : vm.stack_ptr - 0 ≡ vm.stack_ptr = omega arith in rw e
place_arguments-placed (a ∷ args) at locals vm s fits =
    let above : leb 1 vm.stack_ptr ≡ true = ground (arith, s.1) in
    let inside : ltb at (length locals) ≡ true = ground arith in
    let e : vm.stack_ptr - 1 - length args ≡ vm.stack_ptr - suc (length args) = omega arith in
    rw (s.0, ◌>>=◌, above, inside)
      (place_arguments-placed args (at + 1) (set locals at a)
          (record vm { stack_ptr = vm.stack_ptr - 1 }) s.2 (omega (arith, length-set locals at a))
        ∙ rw e)

-- Placing stops at the first argument that has no place in the block.
pub place_arguments-outside :
    (args : List Reg) (at : ℕ) (locals : List Reg) (vm : Vm)
    → OnStack vm.stack vm.stack_ptr args
    → at ≤ length locals
    → length locals < at + length args
    → place_arguments (length args) at locals vm ≡ none
unfolding place_arguments pop_value
place_arguments-outside [] at locals vm s low over = absurd (omega arith)
place_arguments-outside (a ∷ args) at locals vm s low over =
    let above : leb 1 vm.stack_ptr ≡ true = ground (arith, s.1) in
    elim (Bool-cases (ltb at (length locals))) [
      | inr outside ↦ rw (s.0, ◌>>=◌, above, outside)
      | inl inside ↦
          rw (s.0, ◌>>=◌, above, inside)
            (place_arguments-outside args (at + 1) (set locals at a)
              (record vm { stack_ptr = vm.stack_ptr - 1 }) s.2
              (ground (arith, length-set locals at a)) (omega (arith, length-set locals at a)))
    ]

pub length-placed :
    (args : List Reg) (at : ℕ) (locals : List Reg) → length (placed at args locals) ≡ length locals
unfolding placed
length-placed [] at locals = refl
length-placed (a ∷ args) at locals =
    length-placed args (at + 1) (set locals at a) ∙ length-set locals at a

pub placed-below :
    (args : List Reg) (at r : ℕ) (locals : List Reg)
    → at + length args ≤ length locals
    → r < at
    → get_elem? (placed at args locals) r ≡ get_elem? locals r
unfolding placed
placed-below [] at r locals fits h = refl
placed-below (a ∷ args) at r locals fits h =
    let other : (at == r) ≡ false = ground arith in
    placed-below args (at + 1) r (set locals at a) (omega (arith, length-set locals at a))
      (omega arith)
    ∙ rw (get_elem?-set locals at r a (omega arith), other)

pub placed-argument :
    (args : List Reg) (at k : ℕ) (locals : List Reg) (a : Reg)
    → at + length args ≤ length locals
    → get_elem? args k ≡ some a
    → get_elem? (placed at args locals) (at + k) ≡ some a
unfolding placed
placed-argument [] at k locals a fits h = cc
placed-argument (b ∷ args) at zero locals a fits h =
    let e : at + 0 ≡ at = omega arith in
    let same : (at == at) ≡ true = ground arith in
    rw e (
      placed-below args (at + 1) at (set locals at b) (omega (arith, length-set locals at b))
        (omega arith)
      ∙ rw (get_elem?-set locals at at b (omega arith), same) h)
placed-argument (b ∷ args) at (suc k) locals a fits h =
    let e : at + suc k ≡ at + 1 + k = omega arith in
    rw e (
      placed-argument args (at + 1) k (set locals at b) a (omega (arith, length-set locals at b)) h)
