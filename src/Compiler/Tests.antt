-- ===== src/Compiler/Tests.antt =====
-- The compiler of expressions on small ones (src/compiler/ExprssionCompiler.cpp): in a function with the
-- variables `a` and `b`.
use zscript.Base.{
  ℕ, zero, suc, ◌+◌, ◌≡◌, refl, false, Option, none, some, List, [], ◌∷◌, arith, inl,
}
use zscript.Base.Strings.{Text, str_eq}
use zscript.Program.Instruction
use zscript.Program.Instruction.{Instruction}
use zscript.Program.Assembler.{number_bits}
use zscript.Interpreter.Numbers.{whole}
use zscript.Interpreter.State.{
  Reg, Context, context, Vm, get_reg, type_number, context_at, object_at, context_of,
}
use zscript.Interpreter.Store.{Frame}
use zscript.Symbols.{Table, find}
use zscript.Registers
use zscript.Compiler
use zscript.Syntax
use zscript.Syntax.{
  Expr, terminal, binary, prefix', method_call, no_more, argument, type_identifier,
  type_number as a_number,
}
use zscript.Compiler.{Compiling, compile_expression}
use zscript.Compiler.Arithmetic.{IsReady}
use zscript.Compiler.Assign.{Assigned, assign-variable, assign-computed}
use zscript.Compiler.Var.{HasRoomAfter, compile_var, Initializes, compile_var-Initializes}
use zscript.Compiler.Negate.{negate-Assigned}
use zscript.Compiler.Correct.{HasRoom, Evaluates, compile_expression-Evaluates}
use zscript.Compiler.Meaning.{Operator, Meaning, literal, variable, operation, operate}

-- the strings, by their addresses
abbrev text : ℕ → Text
text zero = 97 ∷ []
text (suc zero) = 98 ∷ []
text (suc (suc n)) = (48 + n) ∷ []

abbrev parse : Text → ℕ
parse [] = 0
parse (c ∷ cs) = c

abbrev a_var : Expr
a_var = terminal type_identifier 0

abbrev b_var : Expr
b_var = terminal type_identifier 1

abbrev five : Expr
five = terminal a_number 7

abbrev symbol_table : Table
symbol_table = (97 ∷ [], 1) ∷ (98 ∷ [], 2) ∷ []

abbrev fresh_function : Compiling
fresh_function = record { instructions = []; register_table = []; symbol_table = symbol_table }

-- a + b * 5
abbrev sum : Expr
sum = binary Syntax.plus_text a_var (binary Syntax.times_text b_var five)

abbrev code_of : Option (ℕ × Compiling) → Option (List Instruction)
code_of none = none
code_of (some (register, st)) = some st.instructions

abbrev code_after : Option Compiling → Option (List Instruction)
code_after none = none
code_after (some st) = some st.instructions

abbrev at : (opcode r0 r1 r2 : ℕ) → Instruction
at opcode r0 r1 r2 = record { opcode = opcode; r0 = r0; r1 = r1; r2 = r2 }

abbrev assign_a : Expr → Expr
assign_a right = binary Syntax.assign_text a_var right

abbrev code : Expr → Option (List Instruction)
code expr = code_of (compile_expression text 9 expr 0 false fresh_function)

-- The code of `a + b * 5`, where registers 3, 4 and 5 are temporary, and of `a = a + b * 5`; that of
-- `-a` changes `a`, and that of `b(5, a)` puts 5 into the register of `a` before the call; `!a` has no
-- code at all.
codes :
    (code sum
      ≡ some (
          at Instruction.mov_number 3 7 0
          ∷ at Instruction.mul 2 3 4
          ∷ at Instruction.add 1 4 3
          ∷ []))
    × (code (assign_a sum)
        ≡ some (
            at Instruction.mov_number 3 7 0
            ∷ at Instruction.mul 2 3 4
            ∷ at Instruction.add 1 4 1
            ∷ []))
    × (code (prefix' Syntax.minus_text a_var)
        ≡ some (at Instruction.mov_number 3 9 0 ∷ at Instruction.mul 1 3 1 ∷ []))
    × (code (method_call b_var (argument five (argument a_var no_more)))
        ≡ some (
            at Instruction.push 1 0 0
            ∷ at Instruction.mov_number 1 7 0
            ∷ at Instruction.push 1 0 0
            ∷ at Instruction.call 2 3 2
            ∷ []))
    × (code (prefix' (33 ∷ []) a_var) ≡ some [])
unfolding compile_expression Compiler.compile_binary Compiler.compile_operands
    Compiler.compile_prefix Compiler.compile_terminal Compiler.compile_identifier_immediate
    Compiler.register_of Registers.get_named_register find str_eq Compiler.destination
    Compiler.take_register Registers.get_register Registers.free_index Registers.put_register
    Registers.register_at Registers.free_register Compiler.release_register Compiler.add_instruction
    Compiler.to_opcode Syntax.count Compiler.write_back
codes = (refl, refl, refl, refl, refl)

abbrev num : ℕ → Reg
num v = record { type = type_number; val = v }

abbrev locals : List Reg
locals = num 0 ∷ num 4 ∷ num 6 ∷ num 0 ∷ num 0 ∷ num 0 ∷ num 0 ∷ []

abbrev here : Context
here = record {
  parent_context = 0;
  return_context = 0;
  locals = some locals;
  locals_count = 7;
  symbol_table = none;
  catches_list = none;
  symbols_address = 0;
  requested_return_register_index = 0;
  return_address = 0;
}

abbrev vm : Vm
vm = record {
  state_id = 0;
  objects = context here ∷ [];
  state_context = 1;
  current_context = 1;
  root_context = 1;
  stack = [];
  stack_ptr = 0;
  ip = 64;
  instruction_pointer = 0;
  class_name = [];
  return_code = 0;
  exception_details = [];
  return_value = num 0;
}

frame : Frame vm locals
unfolding context_at object_at context_of
frame = record { here = here; there = refl; block = refl }

ready : IsReady fresh_function
unfolding find
ready = record { row = tt; numbered = λ name index h. ground arith }

meaning : Meaning text parse whole symbol_table (get_reg vm) sum 322
unfolding find str_eq get_reg context_at object_at context_of operate number_bits
meaning =
    operation Operator.plus a_var (binary Syntax.times_text b_var five) 4 318 322
      (variable 0 1 4 refl refl)
      (operation Operator.times b_var five 6 53 318 (variable 1 2 6 refl refl) (literal 7) refl)
      refl

rooms :
    HasRoom locals (compile_expression text 9 sum 0 false fresh_function)
    × HasRoom locals (compile_expression text 9 (assign_a sum) 0 false fresh_function)
unfolding compile_expression Compiler.compile_binary Compiler.compile_operands
    Compiler.compile_prefix Compiler.compile_terminal Compiler.compile_identifier_immediate
    Compiler.register_of Registers.get_named_register find str_eq Compiler.destination
    Compiler.take_register Registers.get_register Registers.free_index Registers.put_register
    Registers.register_at Registers.free_register Compiler.release_register Compiler.add_instruction
    Compiler.to_opcode Syntax.count Compiler.write_back
rooms = (omega arith, omega arith)

compile_expression-Evaluates_example :
    Evaluates text 9 whole parse []
      (λ p. [])
      fresh_function
      0
      322
      vm
      (compile_expression text 9 sum 0 false fresh_function)
compile_expression-Evaluates_example =
    compile_expression-Evaluates text 9 whole parse [] (λ p. []) sum 322 fresh_function 0 vm locals
      meaning ready (inl (omega arith)) frame (rooms.0)

assign-variable_example :
    (register : ℕ) × (after : Compiling) × (compile_expression text 9
        (assign_a b_var)
        0
        false
        fresh_function
      ≡ some (register, after))
    × (after.instructions ≡ [])
unfolding find str_eq
assign-variable_example =
    assign-variable text 9 whole parse [] fresh_function 0 1 1 2 ready refl refl

assign-computed_example :
    Assigned text 9 whole parse []
      (λ p. [])
      fresh_function
      1
      322
      vm
      (compile_expression text 9 (assign_a sum) 0 false fresh_function)
unfolding find str_eq
assign-computed_example =
    assign-computed text 9 whole parse [] (λ p. []) fresh_function 0 1 322 sum vm locals ready refl
      tt meaning frame (rooms.1)

-- `var a = b` moves
var_rooms :
    (code_after (compile_var text 9 0 false b_var fresh_function)
      ≡ some (at Instruction.mov 1 2 0 ∷ []))
    × HasRoomAfter locals (compile_var text 9 0 false b_var fresh_function)
unfolding compile_expression Compiler.compile_binary Compiler.compile_operands
    Compiler.compile_prefix Compiler.compile_terminal Compiler.compile_identifier_immediate
    Compiler.register_of Registers.get_named_register find str_eq Compiler.destination
    Compiler.take_register Registers.get_register Registers.free_index Registers.put_register
    Registers.register_at Registers.free_register Compiler.release_register Compiler.add_instruction
    Compiler.to_opcode Syntax.count Compiler.write_back compile_var
var_rooms = (refl, omega arith)

b-Meaning : Meaning text parse whole symbol_table (get_reg vm) b_var 6
unfolding find str_eq get_reg context_at object_at context_of
b-Meaning = variable 1 2 6 refl refl

compile_var-Initializes_example :
    Initializes text 9 whole parse []
      (λ p. [])
      fresh_function
      1
      6
      vm
      (compile_var text 9 0 false b_var fresh_function)
unfolding find str_eq
compile_var-Initializes_example =
    compile_var-Initializes text 9 whole parse [] (λ p. []) fresh_function 0 1 6 b_var vm locals
      ready refl b-Meaning frame (var_rooms.1)

abbrev minus_a : Expr
minus_a = prefix' Syntax.minus_text a_var

minus_room : HasRoom locals (compile_expression text 9 minus_a 0 false fresh_function)
unfolding compile_expression Compiler.compile_binary Compiler.compile_operands
    Compiler.compile_prefix Compiler.compile_terminal Compiler.compile_identifier_immediate
    Compiler.register_of Registers.get_named_register find str_eq Compiler.destination
    Compiler.take_register Registers.get_register Registers.free_index Registers.put_register
    Registers.register_at Registers.free_register Compiler.release_register Compiler.add_instruction
    Compiler.to_opcode Syntax.count Compiler.write_back
minus_room = omega arith

-- the number at address 9 is read as 55
negate-Assigned_example :
    Assigned text 9 whole parse []
      (λ p. [])
      fresh_function
      1
      220
      vm
      (compile_expression text 9 minus_a 0 false fresh_function)
unfolding find str_eq get_reg context_at object_at context_of number_bits
negate-Assigned_example =
    negate-Assigned text 9 whole parse [] (λ p. []) fresh_function 0 1 4 vm locals ready refl refl
      frame minus_room
