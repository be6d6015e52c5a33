-- ===== src/Compiler/Statements/Tests.antt =====
-- The compiler of statements (src/compiler/Compiler.cpp) on small bodies of a function with the variable `a`.
use zscript.Base.{ℕ, ◌≡◌, refl, false, true, Option, none, some, List, [], ◌∷◌, ◌+◌}
use zscript.Base.Strings.{Text, str_eq}
use zscript.Program.Instruction
use zscript.Program.Instruction.{Instruction}
use zscript.Syntax.{Expr, terminal, type_identifier}
use zscript.Compiler.{Compiling}
use zscript.Registers
use zscript.Symbols.{find}
use zscript.Compiler
use zscript.Compiler.Statements
use zscript.Syntax.Statements.{
  loop, try_catch, expression, Body, no_statement, statement, some_body,
}
use zscript.Compiler.Statements.{Building, compile_body}
use zscript.Compiler.Statements.Stacks.{Leaves, stacks, compile_body-Leaves}
use zscript.Compiler.Statements.Finally.{compile_body-return_in_finally}

abbrev text : ℕ → Text
text n = 97 ∷ []

-- a label has the address of its number
abbrev label : Text → ℕ → ℕ
label name count = 100 + count

abbrev a_var : Expr
a_var = terminal type_identifier 0

abbrev fresh : Building
fresh = record {
  compiling = record { instructions = []; register_table = []; symbol_table = (97 ∷ [], 1) ∷ [] };
  label_count = 0;
  loop_end_labels = [];
  loop_start_labels = [];
  finally_blocks_to_prepend_return = [];
  functions_to_compile = [];
}

abbrev code_of : Option Building → Option (List Instruction)
code_of none = none
code_of (some st) = some st.compiling.instructions

abbrev at : (opcode r0 r1 r2 : ℕ) → Instruction
at opcode r0 r1 r2 = record { opcode = opcode; r0 = r0; r1 = r1; r2 = r2 }

-- return a
abbrev return_a : Body
return_a = statement false true (expression a_var) no_statement

-- while (a) break;
abbrev while_a : Body
while_a =
    statement false false
      (loop none (some a_var) none (statement true false (expression a_var) no_statement))
      no_statement

-- try { return a } catch (a) { } finally { while ... }
abbrev try_return : Body
try_return =
    statement false false (try_catch return_a 0 no_statement (some_body while_a)) no_statement

while_a_code :
    code_of (compile_body text 5 label 2 while_a fresh)
    ≡ some (
        at Instruction.jmp 103 0 0
        ∷ at Instruction.label 101 0 0
        ∷ at Instruction.jmp 102 0 0
        ∷ at Instruction.label 103 0 0
        ∷ at Instruction.jmp_true 1 101 0
        ∷ at Instruction.label 102 0 0
        ∷ [])
unfolding compile_body Statements.compile_statements Statements.compile_stmt
    Statements.compile_break Statements.compile_node Statements.compile_loop
    Statements.compile_conditional Statements.compile_try_catch Statements.compile_return
    Statements.prepend_blocks Statements.new_label Statements.emit Statements.free_temporary
    Statements.evaluate Statements.evaluate_away Statements.compile_condition Statements.if_body
    Statements.jump_over Statements.push_finally Statements.pop_finally Statements.without_last
    Statements.top_label Statements.rest_of Statements.hoist Compiler.compile_expression
    Compiler.compile_terminal Compiler.compile_identifier_immediate Compiler.compile_identifier
    Compiler.register_of Registers.get_named_register find str_eq Compiler.add_instruction
    Compiler.release_register Registers.free_register
while_a_code = refl

-- the finally block runs in front of the return, and again behind the catch block
try_return_code :
    code_of (compile_body text 5 label 4 try_return fresh)
    ≡ some (
        at Instruction.set_catch 101 102 0
        ∷ at Instruction.jmp 105 0 0
        ∷ at Instruction.label 103 0 0
        ∷ at Instruction.jmp 104 0 0
        ∷ at Instruction.label 105 0 0
        ∷ at Instruction.jmp_true 1 103 0
        ∷ at Instruction.label 104 0 0
        ∷ at Instruction.return' 1 0 0
        ∷ at Instruction.jmp 102 0 0
        ∷ at Instruction.label 101 0 0
        ∷ at Instruction.pop 1 0 0
        ∷ at Instruction.label 102 0 0
        ∷ at Instruction.jmp 108 0 0
        ∷ at Instruction.label 106 0 0
        ∷ at Instruction.jmp 107 0 0
        ∷ at Instruction.label 108 0 0
        ∷ at Instruction.jmp_true 1 106 0
        ∷ at Instruction.label 107 0 0
        ∷ at Instruction.clear_catch 0 0 0
        ∷ [])
unfolding compile_body Statements.compile_statements Statements.compile_stmt
    Statements.compile_break Statements.compile_node Statements.compile_loop
    Statements.compile_conditional Statements.compile_try_catch Statements.compile_return
    Statements.prepend_blocks Statements.new_label Statements.emit Statements.free_temporary
    Statements.evaluate Statements.evaluate_away Statements.compile_condition Statements.if_body
    Statements.jump_over Statements.push_finally Statements.pop_finally Statements.without_last
    Statements.top_label Statements.rest_of Statements.hoist Compiler.compile_expression
    Compiler.compile_terminal Compiler.compile_identifier_immediate Compiler.compile_identifier
    Compiler.register_of Registers.get_named_register find str_eq Compiler.add_instruction
    Compiler.release_register Registers.free_register
try_return_code = refl

compile_body-Leaves_example : Leaves (stacks fresh) (compile_body text 5 label 4 try_return fresh)
compile_body-Leaves_example = compile_body-Leaves text 5 label 4 try_return fresh

compile_body-return_in_finally_example :
    compile_body text 5 label 9
      (statement false false (try_catch while_a 0 no_statement (some_body return_a)) no_statement)
      fresh
    ≡ none
compile_body-return_in_finally_example =
    compile_body-return_in_finally text 5 label 9 a_var no_statement while_a no_statement
      no_statement 0 fresh
