-- ===== src/Compiler/Statements.antt =====
-- The statements of src/compiler/Compiler.cpp but for the functions themselves: bodies, loops,
-- conditionals, try and return. `label` is the address of a new string of a prefix and a number
-- (`sprintf`); the copy that `addLabel` makes has the address of its original.
pub mod Stacks
pub mod Finally
mod Tests
use zscript.Base.{
  ℕ, zero, suc, ◌+◌, Bool, true, false, Option, none, some, List, [], ◌∷◌, ◌++◌, if◌then◌else◌,
  ◌>>=◌,
}
use zscript.Base.Strings.{Text}
use zscript.Program.Instruction
use zscript.Syntax.{Expr}
use zscript.Syntax.Statements.{
  Function, Node, function', var, loop, block, conditional, try_catch, expression, Body,
  no_statement, statement, OptionalBody, no_body, some_body,
}
use zscript.Compiler.{Compiling, add_instruction, release_register, register_of, compile_expression}
use zscript.Compiler.Var.{compile_var}

-- The state of the compiler of one function; the last label and the last block are the tops.
pub record Building : Type 0 where
  pub compiling : Compiling
  pub label_count : ℕ
  pub loop_end_labels : List ℕ
  pub loop_start_labels : List ℕ
  pub finally_blocks_to_prepend_return : List Body
  pub functions_to_compile : List Function

abbrev pub Build : Type 0
Build = Building → Option Building

-- .lstart_
abbrev pub start_text : Text
start_text = 46 ∷ 108 ∷ 115 ∷ 116 ∷ 97 ∷ 114 ∷ 116 ∷ 95 ∷ []

-- .lend_
abbrev pub end_text : Text
end_text = 46 ∷ 108 ∷ 101 ∷ 110 ∷ 100 ∷ 95 ∷ []

-- .lcond_
abbrev pub condition_text : Text
condition_text = 46 ∷ 108 ∷ 99 ∷ 111 ∷ 110 ∷ 100 ∷ 95 ∷ []

-- .else_
abbrev pub else_text : Text
else_text = 46 ∷ 101 ∷ 108 ∷ 115 ∷ 101 ∷ 95 ∷ []

-- .end_cond_
abbrev pub end_cond_text : Text
end_cond_text = 46 ∷ 101 ∷ 110 ∷ 100 ∷ 95 ∷ 99 ∷ 111 ∷ 110 ∷ 100 ∷ 95 ∷ []

-- .catch_
abbrev pub catch_text : Text
catch_text = 46 ∷ 99 ∷ 97 ∷ 116 ∷ 99 ∷ 104 ∷ 95 ∷ []

-- .finally_
abbrev pub finally_text : Text
finally_text = 46 ∷ 102 ∷ 105 ∷ 110 ∷ 97 ∷ 108 ∷ 108 ∷ 121 ∷ 95 ∷ []

unfoldable pub emit : (opcode r0 r1 r2 : ℕ) → Building → Building
emit opcode r0 r1 r2 st = record st { compiling = add_instruction opcode r0 r1 r2 st.compiling }

unfoldable pub free_temporary : ℕ → Building → Building
free_temporary index st = record st { compiling = release_register index st.compiling }

-- `addFunctionToCompileLater`
unfoldable pub add_function_to_compile_later : Function → Building → Building
add_function_to_compile_later fnc st = record st {
  functions_to_compile = st.functions_to_compile ++ fnc ∷ [];
}

-- `stack::top`, undefined on an empty stack
unfoldable pub top_label : List ℕ → Option ℕ
top_label [] = none
top_label (label ∷ labels) = some label

-- `stack::pop`
unfoldable pub rest_of : List ℕ → List ℕ
rest_of [] = []
rest_of (label ∷ labels) = labels

-- `arraylist_pop`
unfoldable pub without_last : List Body → List Body
without_last [] = []
without_last (body ∷ []) = []
without_last (body ∷ next ∷ bodies) = body ∷ without_last (next ∷ bodies)

-- `if (body) f(body)`
unfoldable pub if_body : (Body → Build) → OptionalBody → Build
if_body f no_body st = some st
if_body f (some_body body) st = f body st

unfoldable pub push_finally : OptionalBody → Building → Building
push_finally no_body st = st
push_finally (some_body body) st = record st {
  finally_blocks_to_prepend_return = st.finally_blocks_to_prepend_return ++ body ∷ [];
}

unfoldable pub pop_finally : OptionalBody → Building → Building
pop_finally no_body st = st
pop_finally (some_body body) st = record st {
  finally_blocks_to_prepend_return = without_last st.finally_blocks_to_prepend_return;
}

-- the loop over the blocks before a return
unfoldable pub prepend_blocks : (Body → Build) → List Body → Build
prepend_blocks compile [] st = some st
prepend_blocks compile (body ∷ bodies) st = compile body st >>= prepend_blocks compile bodies

module _ (text : ℕ → Text) (minus_one : ℕ) (label : Text → ℕ → ℕ) where
  -- `compileExpression` on the function that is compiled
  unfoldable pub evaluate : Expr → Building → Option (ℕ × Building)
  evaluate expr st = do
    (reg, compiling) ← compile_expression text minus_one expr 0 false st.compiling
    some (reg, record st { compiling = compiling })

  -- an expression that may be null, for its effect
  unfoldable pub evaluate_away : Option Expr → Build
  evaluate_away none st = some st
  evaluate_away (some expr) st = evaluate expr st >>= λ (reg, st). some (free_temporary reg st)

  -- the condition of a loop, and the jump back
  unfoldable pub compile_condition : (lstart_label : ℕ) → Option Expr → Build
  compile_condition lstart_label none st = some st
  compile_condition lstart_label (some condition) st = do
    (cond_reg, st) ← evaluate condition st
    some (free_temporary cond_reg (emit Instruction.jmp_true cond_reg lstart_label 0 st))

  unfoldable pub new_label : Text → Building → ℕ × Building
  new_label name st =
      let count = suc st.label_count in (label name count, record st { label_count = count })

  -- compileBody is handed on as `compile`
  module _ (compile : Body → Build) where
    unfoldable pub compile_loop : (start_expr condition iter_expr : Option Expr) → Body → Build
    compile_loop start_expr condition iter_expr body st = do
      let (lstart_label, st) = new_label start_text st
      let (lend_label, st) = new_label end_text st
      let (lcond_label, st) = new_label condition_text (record st {
        loop_end_labels = lend_label ∷ st.loop_end_labels;
        loop_start_labels = lstart_label ∷ st.loop_start_labels;
      })
      st ← evaluate_away start_expr st
      st ←
          compile body
            (emit Instruction.label lstart_label 0 0 (emit Instruction.jmp lcond_label 0 0 st))
      st ← evaluate_away iter_expr st
      st ← compile_condition lstart_label condition (emit Instruction.label lcond_label 0 0 st)
      let st = emit Instruction.label lend_label 0 0 st
      some (record st { loop_end_labels = rest_of st.loop_end_labels })

    -- the jump over the `else` of a conditional
    unfoldable pub jump_over : (con_end_label : ℕ) → OptionalBody → Building → Building
    jump_over con_end_label no_body st = st
    jump_over con_end_label (some_body body) st = emit Instruction.jmp con_end_label 0 0 st

    unfoldable pub compile_conditional : Expr → Body → OptionalBody → Build
    compile_conditional condition body else_body st = do
      let (if_fail_label, st) = new_label else_text st
      let (con_end_label, st) = new_label end_cond_text st
      (cond_reg, st) ← evaluate condition st
      st ←
          compile body
            (free_temporary cond_reg (emit Instruction.jmp_not_true cond_reg if_fail_label 0 st))
      st ←
          if_body compile else_body
            (emit Instruction.label if_fail_label 0 0 (jump_over con_end_label else_body st))
      some (emit Instruction.label con_end_label 0 0 st)

    unfoldable pub compile_try_catch : Body → ℕ → Body → OptionalBody → Build
    compile_try_catch try_body catch_ident catch_body finally_body st = do
      let (catch_label, st) = new_label catch_text (push_finally finally_body st)
      let (finally_label, st) = new_label finally_text st
      st ← compile try_body (emit Instruction.set_catch catch_label finally_label 0 st)
      let st = emit Instruction.label catch_label 0 0 (emit Instruction.jmp finally_label 0 0 st)
      let exception_info_register = register_of text minus_one catch_ident st.compiling
      st ← compile catch_body (emit Instruction.pop exception_info_register 0 0 st)
      st ← if_body compile finally_body (emit Instruction.label finally_label 0 0 st)
      some (pop_finally finally_body (emit Instruction.clear_catch 0 0 0 st))

    -- what `return` adds behind its expression
    unfoldable pub compile_return : Bool → ℕ → Build
    compile_return false reg st = some st
    compile_return true reg st = do
      st ← prepend_blocks compile st.finally_blocks_to_prepend_return st
      some (emit Instruction.return' reg 0 0 st)

    unfoldable pub compile_break : Bool → Build
    compile_break false st = some st
    compile_break true st = do
      lend_label ← top_label st.loop_end_labels
      some (emit Instruction.jmp lend_label 0 0 st)

    unfoldable pub compile_node : (has_return : Bool) → Node → Build
    compile_node has_return (function' fnc) st = some (add_function_to_compile_later fnc st)
    compile_node has_return (var identifier is_synchronized value) st = do
      compiling ← compile_var text minus_one identifier is_synchronized value st.compiling
      some (record st { compiling = compiling })
    compile_node has_return (loop start_expr condition iter_expr body) st =
        compile_loop start_expr condition iter_expr body st
    compile_node has_return (block body) st = compile body st
    compile_node has_return (conditional condition body else_body) st =
        compile_conditional condition body else_body st
    compile_node has_return (try_catch try_body catch_ident catch_body finally_body) st =
        compile_try_catch try_body catch_ident catch_body finally_body st
    compile_node has_return (expression expr) st = do
      (reg, st) ← evaluate expr st
      st ← compile_return has_return reg st
      some (free_temporary reg st)

    -- compileStmt
    unfoldable pub compile_stmt : (has_break has_return : Bool) → Node → Build
    compile_stmt has_break has_return stmt st =
        compile_break has_break st >>= compile_node has_return stmt

    -- the second loop of compileBody
    unfoldable pub compile_statements : Body → Build
    compile_statements no_statement st = some st
    compile_statements (statement has_break has_return stmt body) st =
        compile_stmt has_break has_return stmt st >>= compile_statements body

  -- the first loop of compileBody
  unfoldable pub hoist : Body → Building → Building
  hoist no_statement st = st
  hoist (statement has_break has_return (function' func) body) st = hoist body (
      emit Instruction.mov_fnc (register_of text minus_one func.identifier st.compiling)
        func.identifier func.is_async st)
  hoist (statement has_break has_return _ body) st = hoist body st

  -- compileBody, with `fuel` for the depth of the recursion
  unfoldable pub compile_body : (fuel : ℕ) → Body → Build
  compile_body zero body st = none
  compile_body (suc fuel) body st = compile_statements (compile_body fuel) body (hoist body st)
