-- ===== src/Compiler/Operation.antt =====
-- The code of an operator on two expressions (compileBinary of src/compiler/ExprssionCompiler.cpp).
use zscript.Base.{
  ==_refl, ℕ, ◌+◌, ◌<◌, ◌≤◌, ◌≡◌, refl, sym, ap, ◌∙◌, true, false, Option, some, List, [], ◌∷◌,
  ◌++◌, ◌==◌, ◌&&◌, ltb, ◌>>=◌, length, get_elem?, set, arith, inl, inr, Bool-cases, get_elem?-set,
  length-set, append_assoc,
}
use zscript.Base.Strings.{Text, str_eq}
use zscript.Program.Instruction
use zscript.Program.Instruction.{Instruction}
use zscript.Program.Assembler.{
  LabelMap, assemble_with, assemble_instruction, resolve_labels, takes_room,
}
use zscript.Program.Assembler.Labels.{assemble_with-append}
use zscript.Interpreter.Numbers.{Float64}
use zscript.Interpreter.State.{Reg}
use zscript.Symbols.{Table}
use zscript.Syntax.{Expr, assign_text, dot_text}
use zscript.Compiler.{
  Compiling, add_instruction, release_register, destination, compile_operands, compile_binary,
  Compile,
}
use zscript.Compiler.Machine.{number, write, compute, local_step, local_run, local_run-append}
use zscript.Compiler.Allocating.{
  symbols, Held, Moves, Moves-trans, Held-Moves, Place, asked, fresh, Took, destination-Took,
  release-Moves, give_back, give_back-Moves, give_back-InUse, give_back-code, Place-Held,
  symbols-Moves, release-InUse, length-release, length-give_back,
}
use zscript.Compiler.Arithmetic.{words as words_of, IsReady, Compiled, Ends, Agrees}
use zscript.Compiler.Meaning.{
  Operator, spelling, operate, Meaning, literal, variable as a_variable, operation, Translates,
  operate-Translates,
}

module _ (text : ℕ → Text) (minus_one : ℕ) (f : Float64) (parse : Text → ℕ)
    (labels : LabelMap) where
  abbrev words : List Instruction → List Instruction
  words code = words_of text minus_one f parse labels code

  -- the operators are neither an assignment nor a dot
  not_assign :
      (o : Operator)
      → (str_eq (spelling o) assign_text ≡ false) × (str_eq (spelling o) dot_text ≡ false)
  unfolding str_eq
  not_assign Operator.plus = (refl, refl)
  not_assign Operator.minus = (refl, refl)
  not_assign Operator.times = (refl, refl)
  not_assign Operator.over = (refl, refl)
  not_assign Operator.remainder = (refl, refl)
  not_assign Operator.less = (refl, refl)
  not_assign Operator.less_or_equal = (refl, refl)
  not_assign Operator.greater = (refl, refl)
  not_assign Operator.greater_or_equal = (refl, refl)
  not_assign Operator.equal = (refl, refl)
  not_assign Operator.not_equal = (refl, refl)

  pub compile_binary-operands :
      (o : Operator) (left : Expr) (table : Table) (variables : ℕ → Option Reg) (a : ℕ)
      (compile_left compile_right : Compile) (compile_dot : ℕ → Compiling → Option Compiling)
      (d : ℕ) (st : Compiling)
      → Meaning text parse f table variables left a
      → compile_binary text minus_one (spelling o) left compile_left compile_dot compile_right d st
        ≡ compile_operands text minus_one (spelling o) compile_left compile_right d st
  unfolding compile_binary
  compile_binary-operands o _ table variables _ cl cr cd d st (literal data') =
      rw ((not_assign o).0)
  compile_binary-operands o _ table variables a cl cr cd d st (a_variable ident index v at is) =
      rw ((not_assign o).0, ◌&&◌)
  compile_binary-operands o _ table variables a cl cr cd d st
        (operation o' left right x y v l r e) =
      rw ((not_assign o).0)

  -- the assembler leaves it as it is
  plain_word :
      (opcode r0 r1 r2 : ℕ)
      → (Instruction.add ≤ opcode) × (opcode ≤ Instruction.cmp_greater_or_equal)
      → words (record { opcode = opcode; r0 = r0; r1 = r1; r2 = r2 } ∷ [])
        ≡ record { opcode = opcode; r0 = r0; r1 = r1; r2 = r2 } ∷ []
  unfolding assemble_with assemble_instruction resolve_labels takes_room
  plain_word opcode r0 r1 r2 (low, high) = ground arith

  -- an instruction that computes, as a word and as a step
  pub computed :
      (opcode r0 r1 r2 : ℕ) (x y v : Reg) (locals : List Reg)
      → (Instruction.add ≤ opcode) × (opcode ≤ Instruction.cmp_greater_or_equal)
      → get_elem? locals r0 ≡ some x
      → get_elem? locals r1 ≡ some y
      → compute f opcode x y ≡ some v
      → r2 < length locals
      → local_run f (words (record { opcode = opcode; r0 = r0; r1 = r1; r2 = r2 } ∷ [])) locals
        ≡ some (set locals r2 v)
  unfolding local_run local_step write
  computed opcode r0 r1 r2 x y v locals plain ex ey c inside =
      let small : ltb r2 (length locals) ≡ true = ground arith in
      let no_number : (opcode == Instruction.mov_number) ≡ false = ground (arith, plain) in
      let no_move : (opcode == Instruction.mov) ≡ false = ground (arith, plain) in
      let assembled : words (record { opcode = opcode; r0 = r0; r1 = r1; r2 = r2 } ∷ [])
          ≡ record { opcode = opcode; r0 = r0; r1 = r1; r2 = r2 } ∷ [] =
        plain_word opcode r0 r1 r2 plain in
      rw assembled (rw (no_number, no_move, ex, ◌>>=◌, ey, c, small))

  words-append : (a b : List Instruction) → words (a ++ b) ≡ words a ++ words b
  words-append a b = assemble_with-append text f.one parse labels a b

  -- one run behind another
  pub run_on :
      (a b : List Instruction) (locals mid locals' : List Reg)
      → local_run f (words a) locals ≡ some mid
      → local_run f (words b) mid ≡ some locals'
      → local_run f (words (a ++ b)) locals ≡ some locals'
  run_on a b locals mid locals' x y =
      rw (words-append a b, local_run-append f (words a) (words b) locals, x, ◌>>=◌) y

  module _ (o : Operator) (st : Compiling) (d : ℕ) (variables : ℕ → Option Reg) (a b v : ℕ)
      (cl cr : Compile) (ready : IsReady st) (held : Held st d) (e : operate f o a b ≡ some v)
      (l : Compiled text minus_one f parse labels st 0 variables a (cl 0 false st))
      (r : Compiled text minus_one f parse labels
        (l.after)
        0
        variables
        b
        (cr 0 false l.after)) where
    both : Moves st r.after
    both = Moves-trans st l.after r.after (l.moves) (r.moves)

    taken : Took (r.after) d (destination d r.after)
    taken = destination-Took (r.after) d (r.moves.row) (Held-Moves st r.after d both held)

    op : Translates f o a b v
    op = operate-Translates f a b v o e

    i : Instruction
    i = record { opcode = op.opcode; r0 = l.register; r1 = r.register; r2 = taken.register }

    emitted : Compiling
    emitted = add_instruction op.opcode l.register r.register taken.register taken.after

    later : Compiling
    later = give_back r.register taken.register emitted

    last : Compiling
    last = release_register l.register later

    emits : last.instructions ≡ st.instructions ++ (l.code ++ (r.code ++ (i ∷ [])))
    unfolding last later emitted i release_register add_instruction
    emits =
        give_back-code emitted r.register taken.register
        ∙ ap (λ code. code ++ i ∷ [])
            (taken.same_code ∙ r.emits ∙ ap (λ code. code ++ r.code) l.emits)
        ∙ append_assoc (st.instructions ++ l.code) r.code (i ∷ [])
        ∙ append_assoc st.instructions l.code (r.code ++ (i ∷ []))

    emitted-Moves : Moves r.after emitted
    unfolding emitted add_instruction
    emitted-Moves =
        let m = taken.moves in record { same = m.same; row = m.row; kept = m.kept; grows = m.grows }

    -- the result of the right operand is given back, from the state behind the left one
    later-Moves : Moves l.after later
    unfolding later
    later-Moves =
        give_back-Moves (l.after) (r.after) emitted r.register taken.register (l.moves.row)
          (r.place) (Moves-trans (l.after) (r.after) emitted (r.moves) emitted-Moves)

    last-Moves : Moves st last
    unfolding last
    last-Moves =
        release-Moves st (l.after) later l.register (ready.row) (l.place)
          (Moves-trans st (l.after) later (l.moves) later-Moves)

    -- the left operand's register is held behind the right one
    left-Held : (0 < l.register) × Held (r.after) l.register
    left-Held =
        let (low, h) = Place-Held st (l.after) l.register (l.moves) (l.place) in
        (low, Held-Moves (l.after) (r.after) l.register (r.moves) h)

    place : Place st d last taken.register
    unfolding last later emitted add_instruction
    place = elim (Bool-cases (d == 0)) [
      | inr some_d ↦ asked (ground arith) (taken.is_asked (ground arith))
      | inl no_d ↦
          let none_asked : d ≡ 0 = ground arith in
          let (low, unused, used) = taken.is_fresh none_asked in
          let apart =
            taken.apart l.register (λ same. absurd (omega (arith, left-Held.0))) (left-Held.1) in
          fresh (omega (arith, low, symbols-Moves st r.after both))
            (λ u. unused (both.kept taken.register u))
            (release-InUse later l.register taken.register (later-Moves.row)
              (λ same. apart (sym same))
              (give_back-InUse emitted r.register taken.register (emitted-Moves.row) used))
    ]

    -- the sizes of the tables on the way
    room :
        (locals : List Reg)
        → symbols last + length last.register_table < length locals
        → (symbols l.after + length l.after.register_table < length locals)
          × (symbols r.after + length r.after.register_table < length locals)
          × (taken.register < length locals)
    unfolding last later emitted add_instruction
    room locals h =
        let table = length-release later l.register in
        let back = length-give_back emitted r.register taken.register in
        let a = symbols-Moves (l.after) (r.after) (r.moves) in
        let b = symbols-Moves (r.after) (taken.after) (taken.moves) in
        let c = symbols-Moves st (r.after) both in
        let d = symbols-Moves st last last-Moves in
        (
          omega (arith, table, back, taken.moves.grows, r.moves.grows, a, c, d),
          omega (arith, table, back, taken.moves.grows, c, d),
          omega (arith, table, back, taken.inside, b, c, d),
        )

    does :
        (locals : List Reg)
        → Agrees (symbols st) variables locals
        → symbols last + length last.register_table < length locals
        → Ends st d taken.register
            (number v)
            locals
            (local_run f (words (l.code ++ (r.code ++ (i ∷ [])))) locals)
    unfolding i
    does locals agrees h =
        let (room_l, room_r, inside) = room locals h in
        let x = l.does locals agrees room_l in
        let y =
          r.does (x.locals')
            (λ q low high.
              let own : q ≤ symbols st = omega (arith, symbols-Moves st (l.after) (l.moves)) in
              x.keeps q low (λ same. absurd (omega (arith, same))) (inl own) ∙ agrees q low own)
            (omega (arith, room_r, x.size)) in
        let left_value : get_elem? y.locals' l.register ≡ some (number a) =
          y.keeps l.register (left-Held.0) (λ same. absurd (omega (arith, same, left-Held.0)))
            ((Place-Held st (l.after) l.register (l.moves) (l.place)).1)
          ∙ x.value in
        let wide : taken.register < length y.locals' = omega (arith, inside, x.size, y.size) in
        record {
          locals' = set y.locals' taken.register (number v);
          runs = run_on l.code (r.code ++ (i ∷ [])) locals x.locals' _ (x.runs) (
              run_on r.code (i ∷ []) x.locals' y.locals' _ (y.runs) (
                computed op.opcode l.register r.register taken.register (number a) (number b)
                  (number v) y.locals' (op.plain) left_value (y.value) (op.computes) wide));
          value =
              get_elem?-set y.locals' taken.register taken.register (number v) wide ∙ rw ==_refl;
          size = length-set y.locals' taken.register (number v) ∙ y.size ∙ x.size;
          keeps = λ q low other held_q.
              let apart : (taken.register == q) ≡ false =
                ground (arith, taken.apart q other (Held-Moves st (r.after) q both held_q)) in
              get_elem?-set y.locals' taken.register q (number v) wide
              ∙ rw apart (
                  y.keeps q low (λ same. absurd (omega (arith, same)))
                    (Held-Moves st (l.after) q (l.moves) held_q)
                  ∙ x.keeps q low (λ same. absurd (omega (arith, same))) held_q);
        }

    pub operation-Compiled :
        Compiled text minus_one f parse labels st d variables v
          (compile_operands text minus_one (spelling o) cl cr d st)
    unfolding compile_operands last later emitted i
    operation-Compiled = record {
      register = taken.register;
      after = last;
      code = l.code ++ (r.code ++ (i ∷ []));
      runs = rw ((not_assign o).0, l.runs, ◌>>=◌, (not_assign o).1, r.runs, taken.runs, op.by_text);
      emits = emits;
      moves = last-Moves;
      place = place;
      does = does;
    }

    pub operation-register : 0 < d → operation-Compiled.register ≡ d
    unfolding operation-Compiled
    operation-register low = taken.is_asked low
