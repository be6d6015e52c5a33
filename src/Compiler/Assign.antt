-- ===== src/Compiler/Assign.antt =====
-- Assignments to variables of the function (compileBinary of src/compiler/ExprssionCompiler.cpp).
use zscript.Base.{
  ℕ, ◌+◌, ◌<◌, ◌≤◌, ◌≡◌, refl, sym, ◌∙◌, false, Option, some, List, ◌++◌, ◌==◌, if◌then◌else◌,
  ◌>>=◌, length, arith, inl, inr, Bool-cases,
}
use zscript.Base.Strings.{Text, str_eq}
use zscript.Program.Instruction.{Instruction}
use zscript.Program.Assembler.{LabelMap, assemble_with}
use zscript.Interpreter.Numbers.{Float64}
use zscript.Interpreter.State.{Reg, Ptr, Vm, get_reg}
use zscript.Interpreter.Store.{Frame, get_reg-Frame}
use zscript.Symbols.{find}
use zscript.Syntax.{Expr, terminal, binary, type_identifier, type_number as a_number, assign_text}
use zscript.Compiler.{
  Compiling, Compile, release_register, compile_binary, compile_operands, compile_expression,
}
use zscript.Compiler.Machine.{number, run_straight}
use zscript.Compiler.Straight.{run_straight-RunsTo}
use zscript.Compiler.Allocating.{
  symbols, Held, destination-Took, give_back, give_back-code, length-give_back, length-release,
  symbols-Moves, symbols-give_back,
}
use zscript.Compiler.Arithmetic.{
  IsReady, IsReady-Moves, Compiled, literal-Compiled, literal-register, compile_variable,
  register_of-find,
}
use zscript.Compiler.Operation.{compile_binary-operands, operation-Compiled, operation-register}
use zscript.Compiler.Correct.{HasRoom, compile_expression-Compiled}
use zscript.Compiler.Meaning.{Meaning, literal, variable, operation}

-- a number literal or an operator; not a variable
abbrev pub IsComputed : Expr → Type 0
IsComputed (terminal a_number data') = Unit
IsComputed (binary op left right) = Unit
IsComputed _ = ⊥

module _ (text : ℕ → Text) (minus_one : ℕ) (f : Float64) (parse : Text → ℕ)
    (labels : LabelMap) where
  -- the end of an assignment: it adds no code
  record Assigns (mid : Compiling) (result : Option (ℕ × Compiling)) : Type 0 where
    register : ℕ
    after : Compiling
    compiles : result ≡ some (register, after)
    no_more : after.instructions ≡ mid.instructions
    same : symbols after ≡ symbols mid
    grows : length mid.register_table ≤ length after.register_table

  assignment-Assigns :
      (st mid : Compiling) (ident x right : ℕ) (cd : ℕ → Compiling → Option Compiling)
      (cr : Compile)
      → find (text ident) st.symbol_table ≡ some x
      → 0 < x
      → IsReady mid
      → cr x false st ≡ some (right, mid)
      → Assigns mid (
          compile_binary text minus_one assign_text
            (terminal type_identifier ident)
            (compile_expression text minus_one (terminal type_identifier ident))
            cd
            cr
            0
            st)
  unfolding compile_binary compile_operands compile_expression str_eq release_register
  assignment-Assigns st mid ident x right cd cr at low ready e =
      let t = destination-Took mid 0 (ready.row) (inl (omega arith)) in
      let proper : (x == 0) ≡ false = ground arith in
      record {
        register = t.register;
        after = release_register x (give_back right t.register t.after);
        compiles = rw (
          register_of-find text minus_one f parse labels st ident x at,
          proper,
          compile_variable text minus_one f parse labels st 0 ident x at low,
          ◌>>=◌,
          e,
          t.runs,
        );
        no_more = give_back-code (t.after) right t.register ∙ t.same_code;
        same = symbols-give_back (t.after) right t.register ∙ symbols-Moves mid (t.after) (t.moves);
        grows = omega (
          arith,
          t.moves.grows,
          length-give_back t.after right t.register,
          length-release (give_back right t.register t.after) x,
        );
      }

  -- An assignment of a variable of the function to a variable of the function is compiled to no code
  -- at all, so it leaves the first as it was.
  pub assign-variable :
      (st : Compiling) (ident x source y : ℕ)
      → IsReady st
      → find (text ident) st.symbol_table ≡ some x
      → find (text source) st.symbol_table ≡ some y
      → (register : ℕ) × (after : Compiling) × (compile_expression text minus_one
            (binary assign_text (terminal type_identifier ident) (terminal type_identifier source))
            0
            false
            st
          ≡ some (register, after))
        × (after.instructions ≡ st.instructions)
  unfolding compile_expression
  assign-variable st ident x source y ready at at' =
      let low = (ready.numbered (text ident) x at).0 in
      let low' = (ready.numbered (text source) y at').0 in
      let a =
        assignment-Assigns st st ident x y _
          (compile_expression text minus_one (terminal type_identifier source)) at low ready
          (compile_variable text minus_one f parse labels st x source y at' low') in
      (a.register, a.after, a.compiles, a.no_more)

  -- the register asked for gets the value of all but a variable
  computed-Compiled :
      (st : Compiling) (d v : ℕ) (right : Expr) (variables : ℕ → Option Reg)
      → IsComputed right
      → Meaning text parse f st.symbol_table variables right v
      → IsReady st
      → Held st d
      → 0 < d
      → (c : Compiled text minus_one f parse labels st d variables v
          (compile_expression text minus_one right d false st))
        × (c.register ≡ d)
  unfolding compile_expression
  computed-Compiled st d _ _ variables is (literal data') ready held low = (
    literal-Compiled text minus_one f parse labels st d data' variables ready held,
    literal-register text minus_one f parse labels st d data' variables ready held low,
  )
  computed-Compiled st d _ _ variables is (variable ident index v at e) ready held low = absurd is
  computed-Compiled st d _ _ variables is (operation o left right a b v ml mr e) ready held low =
      let l =
        compile_expression-Compiled text minus_one f parse labels st.symbol_table variables left a
          st 0 ml refl ready (inl (omega arith)) in
      let r =
        compile_expression-Compiled text minus_one f parse labels st.symbol_table variables right b
          (l.after) 0 mr (l.moves.same)
          (IsReady-Moves text minus_one f parse labels st (l.after) (l.moves) ready)
          (inl (omega arith)) in
      rw
        (compile_binary-operands text minus_one f parse labels o left st.symbol_table variables a _
          _ _ d st ml)
        (
          operation-Compiled text minus_one f parse labels o st d variables a b v _ _ ready held e l
              r,
          operation-register text minus_one f parse labels o st d variables a b v _ _ ready held e l
              r low,
        )

  -- code that leaves a value in a variable's register
  pub record Assigned (describe : Ptr → Text) (st : Compiling) (x v : ℕ) (vm : Vm)
      (result : Option (ℕ × Compiling)) : Type 0 where
    pub register : ℕ
    pub after : Compiling
    pub code : List Instruction
    pub vm' : Vm
    pub compiles : result ≡ some (register, after)
    pub emits : after.instructions ≡ st.instructions ++ code
    pub runs : run_straight f describe (assemble_with text f.one parse labels code) vm ≡ some vm'
    pub value :
        (r : ℕ)
        → 0 < r
        → Held st r
        → get_reg vm' r ≡ (if x == r then some (number v) else get_reg vm r)

  -- with the right side compiled
  assigned :
      (describe : Ptr → Text) (st : Compiling) (ident x v : ℕ) (right : Expr) (vm : Vm)
      (locals : List Reg)
      → IsReady st
      → find (text ident) st.symbol_table ≡ some x
      → (c : Compiled text minus_one f parse labels st x
          (get_reg vm)
          v
          (compile_expression text minus_one right x false st))
      → c.register ≡ x
      → Frame vm locals
      → HasRoom locals (
          compile_expression text minus_one
            (binary assign_text (terminal type_identifier ident) right)
            0
            false
            st)
      → Assigned describe st x v vm (
          compile_expression text minus_one
            (binary assign_text (terminal type_identifier ident) right)
            0
            false
            st)
  unfolding compile_expression
  assigned describe st ident x v right vm locals ready at c direct frame room =
      let (low, high) = ready.numbered (text ident) x at in
      let ready' = IsReady-Moves text minus_one f parse labels st (c.after) (c.moves) ready in
      let a =
        assignment-Assigns st (c.after) ident x c.register _
          (compile_expression text minus_one right) at low ready' (c.runs) in
      let room' : symbols a.after + length a.after.register_table < length locals =
        rw (a.compiles) at room in
      let e =
        c.does locals (λ r low high. sym (get_reg-Frame vm locals r frame))
          (omega (arith, room', a.same, a.grows)) in
      let ends =
        run_straight-RunsTo f describe (assemble_with text f.one parse labels c.code) vm locals
          (e.locals') frame (e.runs) in
      record {
        register = a.register;
        after = a.after;
        code = c.code;
        vm' = ends.after;
        compiles = a.compiles;
        emits = a.no_more ∙ c.emits;
        runs = ends.runs;
        value = λ r low held.
            get_reg-Frame (ends.after) (e.locals') r (ends.frame) ∙ (elim (Bool-cases (x == r)) [
              | inl here ↦
                  let q : c.register ≡ r = ground (arith, direct) in rw here (rw (← q) e.value)
              | inr away ↦ rw away (
                  e.keeps r low (λ same. ground arith) held ∙ sym (get_reg-Frame vm locals r frame))
            ]);
      }

  -- An assignment of a number literal or an operator's result to a variable of the function, where
  -- the right side has a value in the running function. It is compiled, and in a frame with room for
  -- the registers of the table the assembled code runs to its end, leaves the value in the
  -- variable's register, and leaves the registers of the other variables and the temporary ones in
  -- use as they were.
  pub assign-computed :
      (describe : Ptr → Text) (st : Compiling) (ident x v : ℕ) (right : Expr) (vm : Vm)
      (locals : List Reg)
      → IsReady st
      → find (text ident) st.symbol_table ≡ some x
      → IsComputed right
      → Meaning text parse f st.symbol_table (get_reg vm) right v
      → Frame vm locals
      → HasRoom locals (
          compile_expression text minus_one
            (binary assign_text (terminal type_identifier ident) right)
            0
            false
            st)
      → Assigned describe st x v vm (
          compile_expression text minus_one
            (binary assign_text (terminal type_identifier ident) right)
            0
            false
            st)
  assign-computed describe st ident x v right vm locals ready at is meaning frame room =
      let (low, high) = ready.numbered (text ident) x at in
      let (c, direct) =
        computed-Compiled st x v right (get_reg vm) is meaning ready (inl high) low in
      assigned describe st ident x v right vm locals ready at c direct frame room
