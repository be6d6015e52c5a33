-- ===== src/Compiler/Statements/Stacks.antt =====
-- The stacks of labels and of blocks of src/compiler/Compiler.cpp while it compiles a body.
use zscript.Base.{
  ℕ, zero, suc, Bool, true, false, Option, none, some, List, [], ◌∷◌, ◌++◌, ◌≡◌, refl, ap, ◌∙◌,
  subst, ◌>>=◌,
}
use zscript.Base.Strings.{Text}
use zscript.Program.Instruction
use zscript.Syntax.{Expr}
use zscript.Compiler.{compile_expression, register_of}
use zscript.Compiler.Var.{compile_var}
use zscript.Syntax.Statements.{
  Node, function', var, loop, block, conditional, try_catch, expression, Body, no_statement,
  statement, OptionalBody, no_body, some_body,
}
use zscript.Compiler.Statements.{
  Building, Build, emit, free_temporary, add_function_to_compile_later, top_label, rest_of,
  without_last, if_body, push_finally, pop_finally, prepend_blocks, evaluate, evaluate_away,
  compile_condition, new_label, compile_loop, jump_over, compile_conditional, compile_try_catch,
  compile_return, compile_break, compile_node, compile_stmt, compile_statements, hoist,
  compile_body,
}

-- the labels that a `break` jumps to, and the blocks that a `return` runs first
abbrev pub stacks : Building → List ℕ × List Body
stacks st = (st.loop_end_labels, st.finally_blocks_to_prepend_return)

-- the compiler stops, or leaves these stacks
abbrev pub Leaves : List ℕ × List Body → Option Building → Type 0
Leaves s none = Unit
Leaves s (some st) = stacks st ≡ s

Leaves->>= :
    {s s' : List ℕ × List Body} (s'' : List ℕ × List Body) (result : Option Building) (f : Build)
    → Leaves s result
    → s ≡ s'
    → ((st : Building) → stacks st ≡ s' → Leaves s'' (f st))
    → Leaves s'' (result >>= f)
Leaves->>= s'' none f leaves e rest = tt
Leaves->>= s'' (some st) f leaves e rest = rest st (leaves ∙ e)

-- a part that does not change the stacks
Leaves-then :
    {A : Type 0} (s : List ℕ × List Body) (result : Option A) (f : A → Option Building)
    → ((a : A) → Leaves s (f a))
    → Leaves s (result >>= f)
Leaves-then s none f rest = tt
Leaves-then s (some a) f rest = rest a

Leaves-map :
    {A B : Type 0} (s : List ℕ × List Body) (result : Option A) (g : A → B)
    (f : B → Option Building)
    → ((a : A) → Leaves s (f (g a)))
    → Leaves s ((result >>= λ a. some (g a)) >>= f)
Leaves-map s none g f rest = tt
Leaves-map s (some a) g f rest = rest a

without_last-push : (bodies : List Body) (body : Body) → without_last (bodies ++ body ∷ []) ≡ bodies
unfolding without_last
without_last-push [] body = refl
without_last-push (b ∷ []) body = refl
without_last-push (b ∷ c ∷ bodies) body =
    ap (λ rest. b ∷ rest) (without_last-push (c ∷ bodies) body)

pub stacks-hoist :
    (text : ℕ → Text) (minus_one : ℕ) (label : Text → ℕ → ℕ) (body : Body) (st : Building)
    → stacks (hoist text minus_one label body st) ≡ stacks st
unfolding hoist emit
stacks-hoist text minus_one label no_statement st = refl
stacks-hoist text minus_one label (statement b r (function' func) body) st =
    stacks-hoist text minus_one label body (
      emit Instruction.mov_fnc (register_of text minus_one func.identifier st.compiling)
        func.identifier func.is_async st)
stacks-hoist text minus_one label (statement b r (var i s v) body) st =
    stacks-hoist text minus_one label body st
stacks-hoist text minus_one label (statement b r (loop s c i l) body) st =
    stacks-hoist text minus_one label body st
stacks-hoist text minus_one label (statement b r (block l) body) st =
    stacks-hoist text minus_one label body st
stacks-hoist text minus_one label (statement b r (conditional c l e) body) st =
    stacks-hoist text minus_one label body st
stacks-hoist text minus_one label (statement b r (try_catch t i c f) body) st =
    stacks-hoist text minus_one label body st
stacks-hoist text minus_one label (statement b r (expression e) body) st =
    stacks-hoist text minus_one label body st

module _ (text : ℕ → Text) (minus_one : ℕ) (label : Text → ℕ → ℕ) where
  Leaves-evaluate :
      (expr : Expr) (st : Building) (s : List ℕ × List Body) (f : ℕ × Building → Option Building)
      → ((reg : ℕ) (st' : Building) → stacks st' ≡ stacks st → Leaves s (f (reg, st')))
      → Leaves s (evaluate text minus_one label expr st >>= f)
  unfolding evaluate
  Leaves-evaluate expr st s f rest =
      Leaves-map s (compile_expression text minus_one expr 0 false st.compiling)
        (λ (reg, compiling). (reg, record st { compiling = compiling })) f
        (λ a. rest a.0 (record st { compiling = a.1 }) refl)

  Leaves-evaluate_away :
      (expr : Option Expr) (st : Building)
      → Leaves (stacks st) (evaluate_away text minus_one label expr st)
  unfolding evaluate_away free_temporary
  Leaves-evaluate_away none st = refl
  Leaves-evaluate_away (some expr) st =
      Leaves-evaluate expr st (stacks st) (λ (reg, st). some (free_temporary reg st))
        (λ reg st' e. e)

  Leaves-condition :
      (start : ℕ) (expr : Option Expr) (st : Building)
      → Leaves (stacks st) (compile_condition text minus_one label start expr st)
  unfolding compile_condition free_temporary emit
  Leaves-condition start none st = refl
  Leaves-condition start (some expr) st =
      Leaves-evaluate expr st (stacks st)
        (λ (reg, st). some (free_temporary reg (emit Instruction.jmp_true reg start 0 st)))
        (λ reg st' e. e)

  module _ (compile : Body → Build)
      (balanced : (body : Body) (st : Building) → Leaves (stacks st) (compile body st)) where
    Leaves-if_body :
        (body : OptionalBody) (st : Building) (s : List ℕ × List Body)
        → stacks st ≡ s
        → Leaves s (if_body compile body st)
    unfolding if_body
    Leaves-if_body no_body st s e = e
    Leaves-if_body (some_body body) st s e =
        subst (λ s. Leaves s (compile body st)) e (balanced body st)

    Leaves-prepend :
        (bodies : List Body) (st : Building) → Leaves (stacks st) (prepend_blocks compile bodies st)
    unfolding prepend_blocks
    Leaves-prepend [] st = refl
    Leaves-prepend (body ∷ bodies) st = Leaves->>= _ _ _ (balanced body st) refl (λ st' e.
        subst (λ s. Leaves s (prepend_blocks compile bodies st')) e (Leaves-prepend bodies st'))

    Leaves-loop :
        (start_expr condition iter_expr : Option Expr) (body : Body) (st : Building)
        → Leaves
            (stacks st)
            (compile_loop text minus_one label compile start_expr condition iter_expr body st)
    unfolding compile_loop new_label emit rest_of
    Leaves-loop start_expr condition iter_expr body st =
        Leaves->>= _ _ _ (Leaves-evaluate_away start_expr _) refl (λ st e.
          Leaves->>= _ _ _ (balanced body _) e (λ st e.
            Leaves->>= _ _ _ (Leaves-evaluate_away iter_expr _) e (λ st e.
              Leaves->>= _ _ _ (Leaves-condition _ condition _) e
                (λ st e. ap (λ s. (rest_of s.0, s.1)) e))))

    Leaves-conditional :
        (condition : Expr) (body : Body) (else_body : OptionalBody) (st : Building)
        → Leaves
            (stacks st)
            (compile_conditional text minus_one label compile condition body else_body st)
    unfolding compile_conditional new_label emit free_temporary jump_over
    Leaves-conditional condition body no_body st =
        Leaves-evaluate condition _ (stacks st) _ (λ reg st e.
          Leaves->>= _ _ _ (balanced body _) e
            (λ st e. Leaves->>= _ _ _ (Leaves-if_body no_body _ _ refl) e (λ st e. e)))
    Leaves-conditional condition body (some_body other) st =
        Leaves-evaluate condition _ (stacks st) _ (λ reg st e.
          Leaves->>= _ _ _ (balanced body _) e
            (λ st e. Leaves->>= _ _ _ (Leaves-if_body (some_body other) _ _ refl) e (λ st e. e)))

    Leaves-try_catch :
        (try_body : Body) (catch_ident : ℕ) (catch_body : Body) (finally_body : OptionalBody)
        (st : Building)
        → Leaves (stacks st) (
            compile_try_catch text minus_one label compile try_body catch_ident catch_body
              finally_body st)
    unfolding compile_try_catch new_label emit free_temporary push_finally pop_finally
    Leaves-try_catch try_body catch_ident catch_body no_body st =
        Leaves->>= _ _ _ (balanced try_body _) refl (λ st e.
          Leaves->>= _ _ _ (balanced catch_body _) e
            (λ st e. Leaves->>= _ _ _ (Leaves-if_body no_body _ _ refl) e (λ st e. e)))
    Leaves-try_catch try_body catch_ident catch_body (some_body body) st =
        Leaves->>= _ _ _ (balanced try_body _) refl (λ st1 e.
          Leaves->>= _ _ _ (balanced catch_body _) e (λ st2 e.
            Leaves->>= _ _ _ (Leaves-if_body (some_body body) _ _ refl) e (λ st3 e.
              ap (λ s. (s.0, without_last s.1)) e
              ∙ ap (λ bodies. (st.loop_end_labels, bodies))
                  (without_last-push st.finally_blocks_to_prepend_return body))))

    Leaves-node :
        (has_return : Bool) (stmt : Node) (st : Building)
        → Leaves (stacks st) (compile_node text minus_one label compile has_return stmt st)
    unfolding compile_node add_function_to_compile_later compile_return emit free_temporary
    Leaves-node r (function' fnc) st = refl
    Leaves-node r (var identifier is_synchronized value) st =
        Leaves-then (stacks st)
          (compile_var text minus_one identifier is_synchronized value st.compiling) _
          (λ compiling. refl)
    Leaves-node r (loop start_expr condition iter_expr body) st =
        Leaves-loop start_expr condition iter_expr body st
    Leaves-node r (block body) st = balanced body st
    Leaves-node r (conditional condition body else_body) st =
        Leaves-conditional condition body else_body st
    Leaves-node r (try_catch try_body catch_ident catch_body finally_body) st =
        Leaves-try_catch try_body catch_ident catch_body finally_body st
    Leaves-node true (expression expr) st = Leaves-evaluate expr st (stacks st) _ (λ reg st e.
        Leaves->>= _ _ _ (Leaves->>= _ _ _ (Leaves-prepend _ st) e (λ st e. e)) refl (λ st e. e))
    Leaves-node false (expression expr) st = Leaves-evaluate expr st (stacks st) _ (λ reg st e. e)

    Leaves-stmt :
        (has_break has_return : Bool) (stmt : Node) (st : Building)
        → Leaves
            (stacks st)
            (compile_stmt text minus_one label compile has_break has_return stmt st)
    unfolding compile_stmt compile_break emit
    Leaves-stmt false r stmt st = Leaves-node r stmt st
    Leaves-stmt true r stmt st =
        Leaves->>= _ _ _
          (Leaves-then (stacks st) (top_label st.loop_end_labels) _ (λ lend_label. refl)) refl
          (λ st' e.
            subst (λ s. Leaves s (compile_node text minus_one label compile r stmt st')) e
              (Leaves-node r stmt st'))

    Leaves-statements :
        (body : Body) (st : Building)
        → Leaves (stacks st) (compile_statements text minus_one label compile body st)
    unfolding compile_statements
    Leaves-statements no_statement st = refl
    Leaves-statements (statement b r stmt body) st =
        Leaves->>= _ _ _ (Leaves-stmt b r stmt st) refl (λ st' e.
          subst (λ s. Leaves s (compile_statements text minus_one label compile body st')) e
            (Leaves-statements body st'))

  -- A body that is compiled leaves the stack of the labels that `break` jumps to and the list of the
  -- blocks that `return` runs first as it found them.
  pub compile_body-Leaves :
      (fuel : ℕ) (body : Body) (st : Building)
      → Leaves (stacks st) (compile_body text minus_one label fuel body st)
  unfolding compile_body
  compile_body-Leaves zero body st = tt
  compile_body-Leaves (suc fuel) body st =
      subst
        (λ s. Leaves s (
          compile_statements text minus_one label (compile_body text minus_one label fuel) body
            (hoist text minus_one label body st)))
        (stacks-hoist text minus_one label body st)
        (Leaves-statements (compile_body text minus_one label fuel) (compile_body-Leaves fuel) body
          (hoist text minus_one label body st))
