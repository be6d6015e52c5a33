-- ===== src/Compiler/Var.antt =====
-- Declarations of variables (compileVar of src/compiler/Compiler.cpp).
use zscript.Base.{
  ℕ, ◌+◌, ◌<◌, ◌≡◌, refl, sym, ap, ◌∙◌, Bool, true, false, Option, none, some, List, [], ◌∷◌, ◌++◌,
  ◌==◌, ltb, if◌then◌else◌, ◌>>=◌, length, get_elem?, set, arith, inl, inr, Bool-cases,
  get_elem?-set, append_assoc,
}
use zscript.Base.Strings.{Text}
use zscript.Program.Instruction
use zscript.Program.Instruction.{Instruction}
use zscript.Program.Assembler.{
  LabelMap, assemble_with, assemble_instruction, resolve_labels, takes_room,
}
use zscript.Interpreter.Numbers.{Float64}
use zscript.Interpreter.State.{Reg, Ptr, Vm, get_reg}
use zscript.Interpreter.Store.{Frame, get_reg-Frame}
use zscript.Symbols.{find}
use zscript.Syntax.{Expr}
use zscript.Compiler.{
  Compiling, add_instruction, take_register, release_register, register_of, compile_expression,
}
use zscript.Compiler.Machine.{number, write, local_step, local_run, run_straight}
use zscript.Compiler.Straight.{run_straight-RunsTo}
use zscript.Compiler.Allocating.{symbols, Held, length-release, symbols-Moves}
use zscript.Compiler.Arithmetic.{IsReady, register_of-find, words as words_of}
use zscript.Compiler.Operation.{run_on}
use zscript.Compiler.Correct.{compile_expression-Compiled}
use zscript.Compiler.Meaning.{Meaning}

module _ (text : ℕ → Text) (minus_one : ℕ) where
  unfoldable pub compile_var :
      (identifier : ℕ) → (is_synchronized : Bool) → (value : Expr) → Compiling → Option Compiling
  compile_var identifier is_synchronized value st = do
    let reg = register_of text minus_one identifier st
    (value_reg, st) ← compile_expression text minus_one value reg false st
    if is_synchronized
        then (do
          (temp_reg, st) ← take_register st
          let st = add_instruction Instruction.mov_str temp_reg identifier 0 st
          some (
              release_register temp_reg
                (add_instruction Instruction.set_field 1 temp_reg value_reg st)))
        else if value_reg == reg
        then some st
        else some (release_register value_reg (add_instruction Instruction.mov reg value_reg 0 st))

-- the block has room for all registers of the table
abbrev pub HasRoomAfter : List Reg → Option Compiling → Type 0
HasRoomAfter locals none = Unit
HasRoomAfter locals (some after) = symbols after + length after.register_table < length locals

module _ (text : ℕ → Text) (minus_one : ℕ) (f : Float64) (parse : Text → ℕ)
    (labels : LabelMap) where
  -- code that leaves a value in a variable's register
  pub record Initializes (describe : Ptr → Text) (st : Compiling) (x v : ℕ) (vm : Vm)
      (result : Option Compiling) : Type 0 where
    pub after : Compiling
    pub code : List Instruction
    pub vm' : Vm
    pub compiles : result ≡ some after
    pub emits : after.instructions ≡ st.instructions ++ code
    pub runs : run_straight f describe (assemble_with text f.one parse labels code) vm ≡ some vm'
    pub value :
        (r : ℕ)
        → 0 < r
        → Held st r
        → get_reg vm' r ≡ (if x == r then some (number v) else get_reg vm r)

  abbrev words : List Instruction → List Instruction
  words code = words_of text minus_one f parse labels code

  moved :
      (x r : ℕ) (v : Reg) (locals : List Reg)
      → get_elem? locals r ≡ some v
      → x < length locals
      → local_run f
          (words (record { opcode = Instruction.mov; r0 = x; r1 = r; r2 = 0 } ∷ []))
          locals
        ≡ some (set locals x v)
  unfolding local_run local_step write assemble_with assemble_instruction resolve_labels takes_room
  moved x r v locals e inside =
      let small : ltb x (length locals) ≡ true = ground arith in rw (e, small)

  -- the code runs on a block, so it runs in a frame with that block
  in_frame :
      (describe : Ptr → Text) (st after : Compiling) (x v : ℕ) (vm : Vm) (locals locals' : List Reg)
      (code : List Instruction) (result : Option Compiling)
      → Frame vm locals
      → result ≡ some after
      → after.instructions ≡ st.instructions ++ code
      → local_run f (words code) locals ≡ some locals'
      → ((r : ℕ)
          → 0 < r
          → Held st r
          → get_elem? locals' r ≡ (if x == r then some (number v) else get_elem? locals r))
      → Initializes describe st x v vm result
  in_frame describe st after x v vm locals locals' code result frame compiles emits runs holds =
      let ends = run_straight-RunsTo f describe (words code) vm locals locals' frame runs in
      record {
        after = after;
        code = code;
        vm' = ends.after;
        compiles = compiles;
        emits = emits;
        runs = ends.runs;
        value = λ r low held.
            rw (get_reg-Frame vm locals r frame)
              (get_reg-Frame (ends.after) locals' r (ends.frame) ∙ holds r low held);
      }

  -- the table is not longer before the register is given back
  before :
      (st : Compiling) (x r : ℕ) (locals : List Reg)
      → symbols (release_register r (add_instruction Instruction.mov x r 0 st))
          + length (release_register r (add_instruction Instruction.mov x r 0 st)).register_table
        < length locals
      → symbols st + length st.register_table < length locals
  unfolding release_register add_instruction
  before st x r locals h = let grown = length-release st r in omega arith

  -- The declaration of a variable of the function that is not synchronized, with an expression of
  -- number literals, variables and operators that has a value in the running function. It is
  -- compiled, and in a frame with room for the registers of the table the assembled code runs to
  -- its end, leaves the value in the variable's register, and leaves the registers of the other
  -- variables and the temporary ones in use as they were; a variable's value is moved, too.
  pub compile_var-Initializes :
      (describe : Ptr → Text) (st : Compiling) (ident x v : ℕ) (value : Expr) (vm : Vm)
      (locals : List Reg)
      → IsReady st
      → find (text ident) st.symbol_table ≡ some x
      → Meaning text parse f st.symbol_table (get_reg vm) value v
      → Frame vm locals
      → HasRoomAfter locals (compile_var text minus_one ident false value st)
      → Initializes describe st x v vm (compile_var text minus_one ident false value st)
  unfolding compile_var release_register add_instruction
  compile_var-Initializes describe st ident x v value vm locals ready at meaning frame room =
      let (low, high) = ready.numbered (text ident) x at in
      let c =
        compile_expression-Compiled text minus_one f parse labels st.symbol_table (get_reg vm) value
          v st x meaning refl ready (inl high) in
      let reg = register_of-find text minus_one f parse labels st ident x at in
      elim (Bool-cases (c.register == x)) [
        | inl direct ↦
            let compiles : compile_var text minus_one ident false value st ≡ some c.after =
              rw (reg, c.runs, ◌>>=◌, direct) in
            let e =
              c.does locals (λ r low high. sym (get_reg-Frame vm locals r frame))
                (rw compiles at room) in
            in_frame describe st (c.after) x v vm locals (e.locals') c.code _ frame compiles
              (c.emits) (e.runs)
              (λ r low held. elim (Bool-cases (x == r)) [
                | inl here ↦ let q : c.register ≡ r = ground arith in rw here (rw (← q) e.value)
                | inr away ↦ rw away (e.keeps r low (λ same. ground arith) held)
              ])
        | inr other ↦
            let i : Instruction = record {
              opcode = Instruction.mov;
              r0 = x;
              r1 = c.register;
              r2 = 0;
            } in
            let last =
              release_register c.register
                (add_instruction Instruction.mov x c.register 0 c.after) in
            let compiles : compile_var text minus_one ident false value st ≡ some last =
              rw (reg, c.runs, ◌>>=◌, other) in
            let room' : symbols last + length last.register_table < length locals =
              rw compiles at room in
            let room0 = before c.after x c.register locals room' in
            let e = c.does locals (λ r low high. sym (get_reg-Frame vm locals r frame)) room0 in
            let inside : x < length e.locals' =
              omega (arith, high, room0, e.size, symbols-Moves st (c.after) (c.moves)) in
            in_frame describe st last x v vm locals (set e.locals' x (number v)) (c.code ++ i ∷ [])
              _ frame compiles
              (ap (λ code. code ++ i ∷ []) c.emits ∙ append_assoc st.instructions c.code (i ∷ []))
              (run_on text minus_one f parse labels c.code (i ∷ []) locals e.locals' _ (e.runs)
                (moved x c.register (number v) e.locals' (e.value) inside))
              (λ r low held.
                get_elem?-set e.locals' x r (number v) inside ∙ (elim (Bool-cases (x == r)) [
                  | inl here ↦ rw here
                  | inr away ↦ rw away (e.keeps r low (λ same. ground arith) held)
                ]))
      ]
