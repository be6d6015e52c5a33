-- ===== src/Compiler/Correct.antt =====
-- The compiler of expressions against the interpreter: src/compiler/ExprssionCompiler.cpp, src/program/Assembler.cpp
-- and src/interpreter/interpreter_dd.c together.
use zscript.Base.{
  ℕ, ◌+◌, ◌<◌, ◌≡◌, ◌≢◌, refl, sym, ◌∙◌, false, Option, none, some, List, ◌++◌, length, arith, inl,
}
use zscript.Base.Strings.{Text}
use zscript.Program.Instruction.{Instruction}
use zscript.Program.Assembler.{LabelMap, assemble_with}
use zscript.Interpreter.Numbers.{Float64}
use zscript.Interpreter.State.{Reg, Ptr, Vm, get_reg}
use zscript.Interpreter.Store.{Frame, get_reg-Frame}
use zscript.Symbols.{Table}
use zscript.Syntax.{Expr}
use zscript.Compiler.{Compiling, compile_expression}
use zscript.Compiler.Machine.{number, run_straight}
use zscript.Compiler.Straight.{run_straight-RunsTo}
use zscript.Compiler.Allocating.{symbols, Held, Moves, Place}
use zscript.Compiler.Arithmetic.{
  IsReady, IsReady-Moves, Compiled, literal-Compiled, variable-Compiled,
}
use zscript.Compiler.Operation.{compile_binary-operands, operation-Compiled}
use zscript.Compiler.Meaning.{Meaning, literal, variable, operation}

-- the block has room for all registers of the table
abbrev pub HasRoom : List Reg → Option (ℕ × Compiling) → Type 0
HasRoom locals none = Unit
HasRoom locals (some (register, after)) =
    symbols after + length after.register_table < length locals

module _ (text : ℕ → Text) (minus_one : ℕ) (f : Float64) (parse : Text → ℕ)
    (labels : LabelMap) where
  pub compile_expression-Compiled :
      (table : Table) (variables : ℕ → Option Reg) (expr : Expr) (v : ℕ) (st : Compiling) (d : ℕ)
      → Meaning text parse f table variables expr v
      → st.symbol_table ≡ table
      → IsReady st
      → Held st d
      → Compiled text minus_one f parse labels st d variables v
          (compile_expression text minus_one expr d false st)
  unfolding compile_expression
  compile_expression-Compiled table variables _ _ st d (literal data') same ready held =
      literal-Compiled text minus_one f parse labels st d data' variables ready held
  compile_expression-Compiled table variables _ _ st d (variable ident index v at is) same ready
        held =
      variable-Compiled text minus_one f parse labels st d ident index v variables ready
        (rw same at) is
  compile_expression-Compiled table variables _ _ st d (operation o left right a b v ml mr e) same
        ready held =
      let l =
        compile_expression-Compiled table variables left a st 0 ml same ready (inl (omega arith)) in
      let r =
        compile_expression-Compiled table variables right b (l.after) 0 mr (l.moves.same ∙ same)
          (IsReady-Moves text minus_one f parse labels st (l.after) (l.moves) ready)
          (inl (omega arith)) in
      rw
        (compile_binary-operands text minus_one f parse labels o left table variables a _ _ _ d st
          ml)
        (operation-Compiled text minus_one f parse labels o st d variables a b v _ _ ready held e l
          r)

  -- code that leaves the value of an expression in a register
  pub record Evaluates (describe : Ptr → Text) (st : Compiling) (d v : ℕ) (vm : Vm)
      (result : Option (ℕ × Compiling)) : Type 0 where
    pub register : ℕ
    pub after : Compiling
    pub code : List Instruction
    pub vm' : Vm
    pub compiles : result ≡ some (register, after)
    pub emits : after.instructions ≡ st.instructions ++ code
    pub moves : Moves st after
    pub place : Place st d after register
    pub runs : run_straight f describe (assemble_with text f.one parse labels code) vm ≡ some vm'
    pub value : get_reg vm' register ≡ some (number v)
    pub keeps : (r : ℕ) → 0 < r → r ≢ d → Held st r → get_reg vm' r ≡ get_reg vm r

  -- An expression of number literals, variables of the function and operators on numbers, which has
  -- a value where the variables have their values in the running function. It is compiled, in a
  -- function whose variables have the registers from 1 on and whose temporary registers are
  -- consecutive behind them; the register asked for, if one is, is a variable's or in use. The
  -- result's register is the one asked for, a variable's, or one that was not in use. In the
  -- interpreter, in a frame with room for the registers of the table, the assembled code runs to its
  -- end, leaves the value in the result's register, and leaves the registers of the variables and
  -- the temporary ones in use as they were, but for the one asked for.
  pub compile_expression-Evaluates :
      (describe : Ptr → Text) (expr : Expr) (v : ℕ) (st : Compiling) (d : ℕ) (vm : Vm)
      (locals : List Reg)
      → Meaning text parse f st.symbol_table (get_reg vm) expr v
      → IsReady st
      → Held st d
      → Frame vm locals
      → HasRoom locals (compile_expression text minus_one expr d false st)
      → Evaluates describe st d v vm (compile_expression text minus_one expr d false st)
  compile_expression-Evaluates describe expr v st d vm locals meaning ready held frame room =
      let c =
        compile_expression-Compiled st.symbol_table (get_reg vm) expr v st d meaning refl ready
          held in
      let e =
        c.does locals (λ r low high. sym (get_reg-Frame vm locals r frame)) (rw c.runs at room) in
      let ends =
        run_straight-RunsTo f describe (assemble_with text f.one parse labels c.code) vm locals
          (e.locals') frame (e.runs) in
      record {
        register = c.register;
        after = c.after;
        code = c.code;
        vm' = ends.after;
        compiles = c.runs;
        emits = c.emits;
        moves = c.moves;
        place = c.place;
        runs = ends.runs;
        value = get_reg-Frame (ends.after) (e.locals') c.register (ends.frame) ∙ e.value;
        keeps = λ r low other held.
            get_reg-Frame (ends.after) (e.locals') r (ends.frame)
            ∙ e.keeps r low other held
            ∙ sym (get_reg-Frame vm locals r frame);
      }
