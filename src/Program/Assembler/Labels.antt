-- ===== src/Program/Assembler/Labels.antt =====
-- Where the labels of src/program/Assembler.cpp lead in src/interpreter/interpreter_dd.c.
use zscript.Base.{
  ℕ, zero, suc, ◌+◌, ◌-◌, ◌*◌, ◌/◌, ◌%◌, ◌≡◌, refl, sym, ◌∙◌, true, false, Option, none, some, List,
  [], ◌∷◌, ◌++◌, ◌==◌, leb, ◌&&◌, ◌||◌, if◌then◌else◌, length, get_elem?, arith, inl, inr,
  Bool-cases, All,
}
use zscript.Base.Strings.{Text, str_eq, str_eq_iff, str_eq_refl}
use zscript.Program.Instruction.{
  Instruction, jmp_less, jmp_n_equal_i, jmp_true, jmp_not_true, jmp, mov_fnc, set_catch, fframe,
  label,
}
use zscript.Program.Assembler.{
  LabelMap, put_label, label_position, takes_room, calculate_labels, resolve_labels,
  assemble_instruction, assemble_with, assemble,
}
use zscript.Interpreter.State.{fetch}

label_position-put_label :
    (labels : LabelMap) (name k : Text) (position : ℕ)
    → label_position k (put_label name position labels)
      ≡ (if str_eq name k then position else label_position k labels)
unfolding label_position put_label
label_position-put_label [] name k position = refl
label_position-put_label ((n, p) ∷ labels) name k position = ground (
  arith,
  label_position-put_label labels name k position,
  str_eq_iff n name,
  str_eq_iff n k,
  str_eq_iff name k,
)

module _ (text : ℕ → Text) where
  -- no label of the list has the name
  abbrev pub IsAbsent : Text → List Instruction → Type 0
  IsAbsent name instructions =
      All (λ i. i.opcode ≡ label → str_eq (text i.r0) name ≡ false) instructions

  -- how many instructions take room
  unfoldable pub written : List Instruction → ℕ
  written [] = 0
  written (i ∷ instructions) = (if takes_room i then 1 else 0) + written instructions

  calculate_labels-absent :
      (base lpos : ℕ) (p : List Instruction) (labels : LabelMap) (name : Text)
      → IsAbsent name p
      → label_position name (calculate_labels text base lpos p labels) ≡ label_position name labels
  unfolding calculate_labels
  calculate_labels-absent base lpos [] labels name h = refl
  calculate_labels-absent base lpos (i ∷ p) labels name h = elim (Bool-cases (i.opcode == label)) [
    | inl is ↦ rw is (
        calculate_labels-absent base (if takes_room i then lpos + 32 else lpos) p
          (put_label (text i.r0) (base + lpos) labels) name h.1
        ∙ label_position-put_label labels (text i.r0) name (base + lpos)
        ∙ rw (h.0 (ground arith)))
    | inr other ↦
        rw other (
          calculate_labels-absent base (if takes_room i then lpos + 32 else lpos) p labels name h.1)
  ]

  calculate_labels-found :
      (base lpos : ℕ) (before after : List Instruction) (l : Instruction) (labels : LabelMap)
      → l.opcode ≡ label
      → IsAbsent (text l.r0) after
      → label_position (text l.r0) (calculate_labels text base lpos (before ++ l ∷ after) labels)
        ≡ base + (lpos + 32 * written before)
  unfolding calculate_labels written takes_room
  calculate_labels-found base lpos [] after l labels is h =
      let e : lpos + 32 * 0 ≡ lpos = omega arith in
      let yes : (l.opcode == label) ≡ true = ground arith in
      rw (calculate_labels, yes, e)
        (calculate_labels-absent base lpos after (put_label (text l.r0) (base + lpos) labels)
            (text l.r0) h
          ∙ label_position-put_label labels (text l.r0) (text l.r0) (base + lpos)
          ∙ rw (str_eq_refl (text l.r0)))
  calculate_labels-found base lpos (i ∷ before) after l labels is h =
      calculate_labels-found base (if takes_room i then lpos + 32 else lpos) before after l
        (if i.opcode == label then put_label (text i.r0) (base + lpos) labels else labels) is h
      ∙ ground arith

  module _ (one : ℕ) (parse : Text → ℕ) (labels : LabelMap) where
    length-assemble_with :
        (p : List Instruction) → length (assemble_with text one parse labels p) ≡ written p
    unfolding assemble_with written
    length-assemble_with [] = refl
    length-assemble_with (i ∷ p) = ground (arith, length-assemble_with p)

    pub assemble_with-append :
        (p q : List Instruction)
        → assemble_with text one parse labels (p ++ q)
          ≡ assemble_with text one parse labels p ++ assemble_with text one parse labels q
    unfolding assemble_with
    assemble_with-append [] q = refl
    assemble_with-append (i ∷ p) q = ground (arith, assemble_with-append p q)

-- the operand at which an instruction goes on, or that it hands on as an address
unfoldable pub target_of : Instruction → Option ℕ
target_of i =
    if leb jmp_less i.opcode && leb i.opcode jmp_n_equal_i
    then some i.r2
    else if i.opcode == fframe
    then some i.r2
    else if i.opcode == jmp_not_true || i.opcode == jmp_true || i.opcode == mov_fnc
    then some i.r1
    else if i.opcode == jmp || i.opcode == set_catch
    then some i.r0
    else none

get_elem?-behind :
    {A : Type 0} (xs ys : List A) (n : ℕ) → n ≡ length xs → get_elem? (xs ++ ys) n ≡ get_elem? ys 0
get_elem?-behind [] ys n e = rw e
get_elem?-behind (x ∷ xs) ys zero e = absurd (omega arith)
get_elem?-behind (x ∷ xs) ys (suc n) e = get_elem?-behind xs ys n (omega arith)

fetch-place :
    (base n : ℕ) (instructions : List Instruction)
    → fetch (record { code_start = base; instructions = instructions }) (base + 32 * n)
      ≡ get_elem? instructions n
unfolding fetch
fetch-place base n instructions =
    let low : leb base (base + 32 * n) ≡ true = ground arith in
    let back : base + 32 * n - base ≡ 32 * n = omega arith in
    let whole : (32 * n % 32 == 0) ≡ true = ground arith in
    let place : 32 * n / 32 ≡ n = omega arith in rw (low, back, whole, place)

module _ (text : ℕ → Text) (one : ℕ) (parse : Text → ℕ) where
  target_of-assemble_instruction :
      (labels : LabelMap) (i : Instruction) (t : ℕ)
      → target_of i ≡ some t
      → target_of (assemble_instruction text one parse labels i)
        ≡ some (label_position (text t) labels)
  unfolding target_of assemble_instruction resolve_labels
  target_of-assemble_instruction labels i t h = ground arith

  -- An operand that names a label, the last of its name in the program, is assembled to an address
  -- at which the interpreter finds the first instruction behind the label that is neither a label
  -- nor a comment, or none if there is none.
  pub assemble-fetch :
      (base : ℕ) (before after : List Instruction) (l i : Instruction) (t : ℕ)
      → l.opcode ≡ label
      → IsAbsent text (text l.r0) after
      → target_of i ≡ some t
      → text t ≡ text l.r0
      → (address : ℕ) × (target_of (
            assemble_instruction text one parse
              (calculate_labels text base 0 (before ++ l ∷ after) [])
              i)
          ≡ some address)
        × (fetch
              (record {
                code_start = base;
                instructions = assemble text one parse base (before ++ l ∷ after);
              })
              address
            ≡ get_elem?
                (assemble_with text one parse
                  (calculate_labels text base 0 (before ++ l ∷ after) [])
                  after)
                0)
  unfolding assemble
  assemble-fetch base before after l i t is last goes same =
      let p = before ++ l ∷ after in
      let labels = calculate_labels text base 0 p [] in
      let n = written text before in
      let skipped : assemble_with text one parse labels (l ∷ after)
          ≡ assemble_with text one parse labels after =
        unfold assemble_with takes_room in ground arith in
      let zero_add : base + (0 + 32 * n) ≡ base + 32 * n = omega arith in
      let found : label_position (text t) labels ≡ base + 32 * n =
        rw same (calculate_labels-found text base 0 before after l [] is last ∙ zero_add) in
      let size : n ≡ length (assemble_with text one parse labels before) =
        sym (length-assemble_with text one parse labels before) in
      (
        base + 32 * n,
        target_of-assemble_instruction labels i t goes ∙ rw found,
        fetch-place base n (assemble_with text one parse labels p)
            ∙ rw (assemble_with-append text one parse labels before (l ∷ after), skipped)
                (get_elem?-behind _ _ n size),
      )
