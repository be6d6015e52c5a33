-- ===== src/Compiler/Arithmetic.antt =====
-- The code of an expression of numbers and variables computes its value (src/compiler/ExprssionCompiler.cpp
-- for the code, src/program/Assembler.cpp for its words, and src/interpreter/interpreter_dd.c for what they do).
use zscript.Base.{
  ==_refl, ℕ, ◌+◌, ◌<◌, ◌≤◌, ◌≡◌, ◌≢◌, refl, sym, ap, ◌∙◌, true, false, Option, some, List, [], ◌∷◌,
  ◌++◌, ◌==◌, ltb, ◌>>=◌, length, get_elem?, set, arith, get_elem?-set, length-set, append-nil,
}
use zscript.Base.Strings.{Text}
use zscript.Program.Instruction
use zscript.Program.Instruction.{Instruction}
use zscript.Program.Assembler.{
  LabelMap, assemble_with, assemble_instruction, resolve_labels, takes_room, number_bits,
}
use zscript.Interpreter.Numbers.{Float64}
use zscript.Interpreter.State.{Reg}
use zscript.Symbols.{find}
use zscript.Registers.{get_named_register}
use zscript.Registers.Temporary.{IsRow}
use zscript.Syntax.{type_number as a_number, type_identifier}
use zscript.Compiler.{
  Compiling, add_instruction, register_of, compile_identifier_immediate, compile_terminal,
}
use zscript.Compiler.Machine.{number, write, local_step, local_run}
use zscript.Compiler.Allocating.{
  symbols, Held, Moves, Place, asked, variable, fresh, destination-Took,
}

-- The variables of the block, and nothing but them, have the values given.
abbrev pub Agrees : ℕ → (ℕ → Option Reg) → List Reg → Type 0
Agrees symbols variables locals = (r : ℕ) → 0 < r → r ≤ symbols → get_elem? locals r ≡ variables r

-- A run that leaves the value in the register, and every register that is held as it was, but for the
-- one asked for.
pub record Ends (st : Compiling) (d register : ℕ) (v : Reg) (locals : List Reg)
    (run : Option (List Reg)) : Type 0 where
  pub locals' : List Reg
  pub runs : run ≡ some locals'
  pub value : get_elem? locals' register ≡ some v
  pub size : length locals' ≡ length locals
  pub keeps : (r : ℕ) → 0 < r → r ≢ d → Held st r → get_elem? locals' r ≡ get_elem? locals r

-- the state is one of a function whose variables have the registers from 1 on
pub record IsReady (st : Compiling) : Type 0 where
  pub row : IsRow (symbols st + 1) st.register_table
  pub numbered :
      (name : Text) (index : ℕ)
      → find name st.symbol_table ≡ some index
      → (0 < index) × (index ≤ symbols st)

module _ (text : ℕ → Text) (minus_one : ℕ) (f : Float64) (parse : Text → ℕ)
    (labels : LabelMap) where
  abbrev pub words : List Instruction → List Instruction
  words code = assemble_with text f.one parse labels code

  -- the code of an expression with the value `v`
  pub record Compiled (st : Compiling) (d : ℕ) (variables : ℕ → Option Reg) (v : ℕ)
      (result : Option (ℕ × Compiling)) : Type 0 where
    pub register : ℕ
    pub after : Compiling
    pub code : List Instruction
    pub runs : result ≡ some (register, after)
    pub emits : after.instructions ≡ st.instructions ++ code
    pub moves : Moves st after
    pub place : Place st d after register
    pub does :
        (locals : List Reg)
        → Agrees (symbols st) variables locals
        → symbols after + length after.register_table < length locals
        → Ends st d register (number v) locals (local_run f (words code) locals)

  pub IsReady-Moves : (st after : Compiling) → Moves st after → IsReady st → IsReady after
  IsReady-Moves st after m ready = record {
    row = m.row;
    numbered = λ name index h. rw m.same (ready.numbered name index (rw m.same at h));
  }

  pub set-Ends :
      (st : Compiling) (d r : ℕ) (v : Reg) (locals : List Reg) (run : Option (List Reg))
      → ((s : ℕ) → s ≢ d → Held st s → s ≢ r)
      → r < length locals
      → run ≡ some (set locals r v)
      → Ends st d r v locals run
  set-Ends st d r v locals run apart inside runs = record {
    locals' = set locals r v;
    runs = runs;
    value = get_elem?-set locals r r v inside ∙ rw ==_refl;
    size = length-set locals r v;
    keeps = λ s low other held.
        let e : (r == s) ≡ false = ground (arith, apart s other held) in
        get_elem?-set locals r s v inside ∙ rw e;
  }

  local_run-one :
      (i : Instruction) (locals locals' : List Reg)
      → local_step f i locals ≡ some locals'
      → local_run f (i ∷ []) locals ≡ some locals'
  unfolding local_run
  local_run-one i locals locals' h = rw (h, ◌>>=◌)

  placed :
      {st : Compiling} {d r : ℕ} {after : Compiling} (code : List Instruction)
      → Place st d after r
      → Place st d (record after { instructions = code }) r
  placed code (asked h e) = asked h e
  placed code (variable low high) = variable low high
  placed code (fresh h unused used) = fresh h unused used

  moved_number :
      (r data' : ℕ) (locals : List Reg)
      → r < length locals
      → local_run f
          (words (record { opcode = Instruction.mov_number; r0 = r; r1 = data'; r2 = 0 } ∷ []))
          locals
        ≡ some (set locals r (number (number_bits text f.one parse (text data'))))
  unfolding local_run local_step write assemble_with assemble_instruction resolve_labels takes_room
  moved_number r data' locals inside =
      let small : ltb r (length locals) ≡ true = ground arith in rw small

  pub literal-Compiled :
      (st : Compiling) (d data' : ℕ) (variables : ℕ → Option Reg)
      → IsReady st
      → Held st d
      → Compiled st d variables
          (number_bits text f.one parse (text data'))
          (compile_terminal text minus_one a_number data' d false st)
  unfolding compile_terminal add_instruction
  literal-Compiled st d data' variables ready held =
      let t = destination-Took st d (ready.row) held in
      record {
        register = t.register;
        after = add_instruction Instruction.mov_number t.register data' 0 t.after;
        code = record { opcode = Instruction.mov_number; r0 = t.register; r1 = data'; r2 = 0 } ∷ [];
        runs = rw (t.runs, ◌>>=◌);
        emits =
            ap
              (λ l.
                l
                ++ record { opcode = Instruction.mov_number; r0 = t.register; r1 = data'; r2 = 0 }
                  ∷ [])
              t.same_code;
        moves =
            let m = t.moves in
            record { same = m.same; row = m.row; kept = m.kept; grows = m.grows };
        place = placed _ (t.at);
        does = λ locals agrees room.
            let inside : t.register < length locals = omega (arith, t.inside) in
            set-Ends st d t.register (number (number_bits text f.one parse (text data'))) locals _
              (t.apart) inside (moved_number t.register data' locals inside);
      }

  pub literal-register :
      (st : Compiling) (d data' : ℕ) (variables : ℕ → Option Reg) (ready : IsReady st)
      (held : Held st d)
      → 0 < d
      → (literal-Compiled st d data' variables ready held).register ≡ d
  unfolding literal-Compiled
  literal-register st d data' variables ready held low =
      (destination-Took st d (ready.row) held).is_asked low

  pub register_of-find :
      (st : Compiling) (ident index : ℕ)
      → find (text ident) st.symbol_table ≡ some index
      → register_of text minus_one ident st ≡ index
  unfolding register_of get_named_register
  register_of-find st ident index at = rw (register_of, get_named_register, at)

  pub compile_variable :
      (st : Compiling) (d ident index : ℕ)
      → find (text ident) st.symbol_table ≡ some index
      → 0 < index
      → compile_terminal text minus_one type_identifier ident d false st ≡ some (index, st)
  unfolding compile_terminal compile_identifier_immediate
  compile_variable st d ident index at low =
      let proper : (index == 0) ≡ false = ground arith in
      rw (register_of-find st ident index at, proper)

  pub variable-Compiled :
      (st : Compiling) (d ident index v : ℕ) (variables : ℕ → Option Reg)
      → IsReady st
      → find (text ident) st.symbol_table ≡ some index
      → variables index ≡ some (number v)
      → Compiled st d variables v (compile_terminal text minus_one type_identifier ident d false st)
  unfolding local_run assemble_with
  variable-Compiled st d ident index v variables ready at is =
      let (low, high) = ready.numbered (text ident) index at in
      record {
        register = index;
        after = st;
        code = [];
        runs = compile_variable st d ident index at low;
        emits = sym (append-nil st.instructions);
        moves = record { same = refl; row = ready.row; kept = λ r u. u; grows = omega arith };
        place = variable low high;
        does = λ locals agrees room. record {
          locals' = locals;
          runs = refl;
          value = agrees index low high ∙ is;
          size = refl;
          keeps = λ r l o h. refl;
        };
      }
