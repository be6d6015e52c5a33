-- ===== src/Compiler/Negate.antt =====
-- The unary minus on a variable (compilePrefix of src/compiler/ExprssionCompiler.cpp).
use zscript.Base.{
  ℕ, ◌+◌, ◌<◌, ◌≡◌, refl, sym, ap, ◌∙◌, false, some, List, [], ◌∷◌, ◌++◌, ◌==◌, ◌>>=◌, length,
  get_elem?, set, arith, inl, inr, Bool-cases, get_elem?-set, append_assoc,
}
use zscript.Base.Strings.{Text, str_eq}
use zscript.Program.Instruction
use zscript.Program.Instruction.{Instruction}
use zscript.Program.Assembler.{LabelMap, number_bits}
use zscript.Interpreter.Numbers.{Float64}
use zscript.Interpreter.State.{Reg, Ptr, Vm, get_reg}
use zscript.Interpreter.Store.{Frame, get_reg-Frame}
use zscript.Symbols.{find}
use zscript.Syntax.{terminal, prefix', type_identifier, minus_text}
use zscript.Compiler.{
  Compiling, add_instruction, release_register, compile_prefix, compile_expression,
}
use zscript.Compiler.Machine.{number, compute}
use zscript.Compiler.Straight.{run_straight-RunsTo}
use zscript.Compiler.Allocating.{
  symbols, Held, Held-Moves, Moves, release-Moves, destination-Took, length-release, symbols-Moves,
}
use zscript.Compiler.Arithmetic.{IsReady, IsReady-Moves, literal-Compiled, compile_variable, words}
use zscript.Compiler.Operation.{run_on, computed}
use zscript.Compiler.Correct.{HasRoom}
use zscript.Compiler.Assign.{Assigned}

module _ (text : ℕ → Text) (minus_one : ℕ) (f : Float64) (parse : Text → ℕ)
    (labels : LabelMap) where
  abbrev negated : ℕ → ℕ
  negated v = f.times v (number_bits text f.one parse (text minus_one))

  -- The unary minus on a variable of the function that holds a number, with no register asked for. It
  -- is compiled, and in a frame with room for the registers of the table the assembled code runs to
  -- its end and leaves the product with the number that "-1" is read as in the register of the
  -- variable itself; the registers of the other variables and the temporary ones in use are left as
  -- they were.
  pub negate-Assigned :
      (describe : Ptr → Text) (st : Compiling) (ident x v : ℕ) (vm : Vm) (locals : List Reg)
      → IsReady st
      → find (text ident) st.symbol_table ≡ some x
      → get_reg vm x ≡ some (number v)
      → Frame vm locals
      → HasRoom locals (
          compile_expression text minus_one
            (prefix' minus_text (terminal type_identifier ident))
            0
            false
            st)
      → Assigned text minus_one f parse labels describe st x (negated v) vm (
          compile_expression text minus_one
            (prefix' minus_text (terminal type_identifier ident))
            0
            false
            st)
  unfolding compile_expression compile_prefix str_eq compute release_register add_instruction
  negate-Assigned describe st ident x v vm locals ready at holds frame room =
      let (low, high) = ready.numbered (text ident) x at in
      let t = destination-Took st 0 (ready.row) (inl (omega arith)) in
      let back = release_register t.register t.after in
      let moves : Moves st back =
        release-Moves st (t.after) (t.after) t.register (ready.row) (t.at) (t.moves) in
      let c =
        literal-Compiled text minus_one f parse labels back 0 minus_one (get_reg vm)
          (IsReady-Moves text minus_one f parse labels st back moves ready) (inl (omega arith)) in
      let i : Instruction = record { opcode = Instruction.mul; r0 = x; r1 = c.register; r2 = x } in
      let last =
        release_register c.register (add_instruction Instruction.mul x c.register x c.after) in
      let compiles : compile_expression text minus_one
            (prefix' minus_text (terminal type_identifier ident)) 0 false st
          ≡ some (x, last) =
        rw (
          compile_variable text minus_one f parse labels st 0 ident x at low,
          ◌>>=◌,
          t.runs,
          c.runs,
        ) in
      let room' : symbols last + length last.register_table < length locals = rw compiles at room in
      let grown = length-release c.after c.register in
      let e = c.does locals (λ r low high. sym (get_reg-Frame vm locals r frame)) (omega arith) in
      let x_held : Held back x = Held-Moves st back x moves (inl high) in
      let value : get_elem? e.locals' x ≡ some (number v) =
        e.keeps x low (λ same. absurd (omega (arith, same, low))) x_held
        ∙ sym (get_reg-Frame vm locals x frame)
        ∙ holds in
      let inside : x < length e.locals' = omega (
        arith,
        high,
        room',
        grown,
        e.size,
        symbols-Moves st back moves,
        symbols-Moves back (c.after) (c.moves),
      ) in
      let runs =
        run_on text minus_one f parse labels c.code (i ∷ []) locals e.locals'
          (set e.locals' x (number (negated v))) (e.runs)
          (computed text minus_one f parse labels Instruction.mul x c.register x (number v)
            (number (number_bits text f.one parse (text minus_one))) (number (negated v)) e.locals'
            (omega arith, omega arith) value (e.value) refl inside) in
      let ends =
        run_straight-RunsTo f describe (words text minus_one f parse labels (c.code ++ i ∷ [])) vm
          locals _ frame runs in
      record {
        register = x;
        after = last;
        code = c.code ++ i ∷ [];
        vm' = ends.after;
        compiles = compiles;
        emits =
            ap (λ code. code ++ i ∷ []) (c.emits ∙ ap (λ code. code ++ c.code) t.same_code)
            ∙ append_assoc st.instructions c.code (i ∷ []);
        runs = ends.runs;
        value = λ r r_low held.
            get_reg-Frame (ends.after) _ r (ends.frame)
            ∙ get_elem?-set e.locals' x r (number (negated v)) inside
            ∙ (elim (Bool-cases (x == r)) [
              | inl here ↦ rw here
              | inr away ↦ rw away (
                  e.keeps r r_low (λ same. absurd (omega (arith, same, r_low)))
                    (Held-Moves st back r moves held)
                  ∙ sym (get_reg-Frame vm locals r frame))
            ]);
      }
