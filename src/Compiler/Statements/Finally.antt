-- ===== src/Compiler/Statements/Finally.antt =====
-- `return` inside a finally block (compileTryCatch and compileStmt of src/compiler/Compiler.cpp).
use zscript.Base.{
  ℕ, zero, suc, true, false, Option, none, some, List, [], ◌∷◌, ◌++◌, ◌≡◌, refl, ap, ◌∙◌, ◌>>=◌,
}
use zscript.Base.Strings.{Text}
use zscript.Syntax.{Expr}
use zscript.Compiler.{compile_expression}
use zscript.Syntax.Statements.{try_catch, expression, Body, statement, some_body}
use zscript.Compiler.Statements.{
  Building, Build, emit, if_body, push_finally, prepend_blocks, evaluate, new_label,
  compile_try_catch, compile_return, compile_break, compile_node, compile_stmt, compile_statements,
  hoist, compile_body,
}
use zscript.Compiler.Statements.Stacks.{stacks, Leaves, stacks-hoist, compile_body-Leaves}

-- a part that leaves its stacks is followed by one that fails on these
fails-after :
    {s : List ℕ × List Body} (result : Option Building) (f : Build)
    → Leaves s result
    → ((st : Building) → stacks st ≡ s → f st ≡ none)
    → (result >>= f) ≡ none
fails-after none f leaves fails = refl
fails-after (some st) f leaves fails = fails st leaves

fails-first :
    {A : Type 0} (result : Option A) (f : A → Option Building)
    → result ≡ none
    → (result >>= f) ≡ none
fails-first result f fails = ap (λ result. result >>= f) fails

fails-map :
    {A B : Type 0} (result : Option A) (g : A → B) (f : B → Option Building)
    → ((a : A) → f (g a) ≡ none)
    → ((result >>= λ a. some (g a)) >>= f) ≡ none
fails-map none g f fails = refl
fails-map (some a) g f fails = fails a

-- behind the blocks before it, a block that fails makes the return fail
prepend_blocks-fails :
    (compile : Body → Build) (before after : List Body) (body : Body) (st : Building)
    → ((body : Body) (st : Building) → Leaves (stacks st) (compile body st))
    → ((st' : Building) → stacks st' ≡ stacks st → compile body st' ≡ none)
    → prepend_blocks compile (before ++ body ∷ after) st ≡ none
unfolding prepend_blocks
prepend_blocks-fails compile [] after body st leaves fails =
    ap (λ result. result >>= prepend_blocks compile after) (fails st refl)
prepend_blocks-fails compile (b ∷ before) after body st leaves fails =
    fails-after (compile b st) (prepend_blocks compile (before ++ body ∷ after)) (leaves b st)
      (λ st1 e.
        prepend_blocks-fails compile before after body st1 leaves (λ st2 e'. fails st2 (e' ∙ e)))

module _ (text : ℕ → Text) (minus_one : ℕ) (label : Text → ℕ → ℕ) where
  abbrev compiler : ℕ → Body → Build
  compiler fuel = compile_body text minus_one label fuel

  fails-evaluate :
      (expr : Expr) (st : Building) (f : ℕ × Building → Option Building)
      → ((reg : ℕ) (st' : Building) → stacks st' ≡ stacks st → f (reg, st') ≡ none)
      → (evaluate text minus_one label expr st >>= f) ≡ none
  unfolding evaluate
  fails-evaluate expr st f fails =
      fails-map (compile_expression text minus_one expr 0 false st.compiling)
        (λ (reg, compiling). (reg, record st { compiling = compiling })) f
        (λ a. fails a.0 (record st { compiling = a.1 }) refl)

  return-fails :
      (compile : Body → Build) (before after : List Body) (body : Body) (reg : ℕ) (st : Building)
      → st.finally_blocks_to_prepend_return ≡ before ++ body ∷ after
      → ((body : Body) (st : Building) → Leaves (stacks st) (compile body st))
      → ((st' : Building) → stacks st' ≡ stacks st → compile body st' ≡ none)
      → compile_return text minus_one label compile true reg st ≡ none
  unfolding compile_return
  return-fails compile before after body reg st e leaves fails = fails-first _ _ (
      ap (λ bodies. prepend_blocks compile bodies st) e
      ∙ prepend_blocks-fails compile before after body st leaves fails)

  -- a block that starts with `return`, while it is among the blocks
  block-fails :
      (fuel : ℕ) (expr : Expr) (rest : Body) (before after : List Body) (st : Building)
      → st.finally_blocks_to_prepend_return
        ≡ before ++ statement false true (expression expr) rest ∷ after
      → compiler fuel (statement false true (expression expr) rest) st ≡ none
  unfolding compile_body compile_statements compile_stmt compile_break compile_node
  block-fails zero expr rest before after st e = refl
  block-fails (suc fuel) expr rest before after st e = fails-first _ _ (
      fails-evaluate expr _ _ (λ reg st1 same. fails-first _ _ (
        return-fails (compiler fuel) before after (statement false true (expression expr) rest) reg
          st1 (ap (λ s. s.1) same ∙ hoisted ∙ e) (compile_body-Leaves text minus_one label fuel)
          (λ st2 same2.
            block-fails fuel expr rest before after st2
              (ap (λ s. s.1) (same2 ∙ same) ∙ hoisted ∙ e)))))
    where
      hoisted :
          (hoist text minus_one label
            (statement false true (expression expr) rest)
            st).finally_blocks_to_prepend_return
          ≡ st.finally_blocks_to_prepend_return
      hoisted =
          ap (λ s. s.1)
            (stacks-hoist text minus_one label (statement false true (expression expr) rest) st)

  -- A `try` whose finally block starts with a `return` is never compiled: however deep the recursion of
  -- compileBody may go, a body that starts with the `try` gets no code.
  pub compile_body-return_in_finally :
      (fuel : ℕ) (expr : Expr) (rest try_body catch_body next : Body) (catch_ident : ℕ)
      (st : Building)
      → compile_body text minus_one label fuel
          (statement false false
            (try_catch try_body catch_ident catch_body
              (some_body (statement false true (expression expr) rest)))
            next)
          st
        ≡ none
  unfolding compile_body compile_statements compile_stmt compile_break compile_node
      compile_try_catch new_label push_finally if_body emit
  compile_body-return_in_finally zero expr rest try_body catch_body next catch_ident st = refl
  compile_body-return_in_finally (suc fuel) expr rest try_body catch_body next catch_ident st =
      fails-first _ _ (
        fails-after _ _ (compile_body-Leaves text minus_one label fuel try_body _) (λ st1 e1.
          fails-after _ _ (compile_body-Leaves text minus_one label fuel catch_body _) (λ st2 e2.
            fails-first _ _ (block-fails fuel expr rest _ [] _ (ap (λ s. s.1) (e2 ∙ e1))))))
