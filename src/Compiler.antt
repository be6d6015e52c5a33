-- ===== src/Compiler.antt =====
-- The expressions of src/compiler/ExprssionCompiler.cpp, on the classes of src/compiler/ast/expression.
-- A `char *` is its address, `text` gives the string there, and `minus_one` is the address of "-1".
pub mod Machine
pub mod Straight
pub mod Allocating
pub mod Meaning
pub mod Arithmetic
pub mod Operation
pub mod Correct
pub mod Assign
pub mod Var
pub mod Negate
pub mod Statements
mod Tests
use zscript.Base.{
  ℕ, zero, suc, ◌+◌, Bool, true, false, not, Option, none, some, List, [], ◌∷◌, ◌++◌, ◌==◌, ◌&&◌,
  if◌then◌else◌, ◌>>=◌, length,
}
use zscript.Base.Strings.{Text, str_eq}
use zscript.Program.Instruction
use zscript.Program.Instruction.{Instruction}
use zscript.Symbols.{Table}
use zscript.Registers.{RegisterTable, get_register, free_register, get_named_register}
use zscript.Syntax.{
  TerminalType, type_identifier, type_number, type_string, Expr, terminal, binary, prefix',
  postfix', method_call, other, Exprs, no_more, argument, count, dot_text, plus_text, minus_text,
  times_text, over_text, less_text, less_or_equal_text, greater_text, greater_or_equal_text,
  increment_text, decrement_text, not_equal_text, equal_text, percent_text, throw_text, assign_text,
}

-- `program` and `function`
pub record Compiling : Type 0 where
  pub instructions : List Instruction
  pub register_table : RegisterTable
  pub symbol_table : Table

-- `compileExpression` of a part: the register asked for, 0 for none, whether the value is looked up in an
-- object, and the register that the value is in. `none` is `error_and_exit`, or is undefined.
abbrev pub Compile : Type 0
Compile = ℕ → Bool → Compiling → Option (ℕ × Compiling)

unfoldable pub add_instruction : (opcode r0 r1 r2 : ℕ) → Compiling → Compiling
add_instruction opcode r0 r1 r2 st = record st {
  instructions = st.instructions ++ record { opcode = opcode; r0 = r0; r1 = r1; r2 = r2 } ∷ [];
}

-- `getRegister(NULL)`
unfoldable pub take_register : Compiling → Option (ℕ × Compiling)
take_register st = do
  (r, table) ← get_register (length st.symbol_table) st.register_table
  some (r, record st { register_table = table })

unfoldable pub release_register : ℕ → Compiling → Compiling
release_register index st = record st {
  register_table = free_register (length st.symbol_table) index st.register_table;
}

-- `requestedDestinationRegister == 0 ? getRegister(NULL) : requestedDestinationRegister`
unfoldable pub destination : ℕ → Compiling → Option (ℕ × Compiling)
destination d st = if d == 0 then take_register st else some (d, st)

unfoldable pub to_opcode : Text → Option ℕ
to_opcode operation =
    if str_eq operation dot_text
    then some Instruction.get_field
    else if str_eq operation plus_text
    then some Instruction.add
    else if str_eq operation minus_text
    then some Instruction.sub
    else if str_eq operation times_text
    then some Instruction.mul
    else if str_eq operation over_text
    then some Instruction.div
    else if str_eq operation less_text
    then some Instruction.cmp_less
    else if str_eq operation less_or_equal_text
    then some Instruction.cmp_less_or_equal
    else if str_eq operation greater_text
    then some Instruction.cmp_greater
    else if str_eq operation greater_or_equal_text
    then some Instruction.cmp_greater_or_equal
    else if str_eq operation increment_text
    then some Instruction.inc
    else if str_eq operation decrement_text
    then some Instruction.sub
    else if str_eq operation not_equal_text
    then some Instruction.cmp_n_equal
    else if str_eq operation equal_text
    then some Instruction.cmp_equal
    else if str_eq operation percent_text
    then some Instruction.mod'
    else if str_eq operation throw_text
    then some Instruction.throw_exception
    else none

module _ (text : ℕ → Text) (minus_one : ℕ) where
  -- `getRegister(ident)`
  unfoldable pub register_of : ℕ → Compiling → ℕ
  register_of ident st = get_named_register st.symbol_table (text ident)

  -- compileIdentifierImmediate
  unfoldable pub compile_identifier_immediate : ℕ → ℕ → Compiling → Option (ℕ × Compiling)
  compile_identifier_immediate ident d st =
      if register_of ident st == 0
      then (do
        (r, st) ← destination d st
        some (r, add_instruction Instruction.get_field_immediate 1 ident r st))
      else some (register_of ident st, st)

  -- compileIdentifier
  unfoldable pub compile_identifier : ℕ → ℕ → Compiling → Option (ℕ × Compiling)
  compile_identifier ident d st =
      if register_of ident st == 0
      then (do
        (r, st) ← destination d st
        (str_reg, st) ← take_register st
        let st = add_instruction Instruction.mov_str str_reg ident 0 st
        some (r, add_instruction Instruction.get_field 1 str_reg r st))
      else some (register_of ident st, st)

  -- compileTerminal; what compileIdentifier returns is not used
  unfoldable pub compile_terminal : TerminalType → ℕ → ℕ → Bool → Compiling → Option (ℕ × Compiling)
  compile_terminal type_identifier data' d has_lookup_object st = do
    st ←
        (if has_lookup_object
          then (compile_identifier data' d st >>= λ (r, st). some st)
          else some st)
    compile_identifier_immediate data' d st
  compile_terminal type_number data' d has_lookup_object st = do
    (r, st) ← destination d st
    some (r, add_instruction Instruction.mov_number r data' 0 st)
  compile_terminal type_string data' d has_lookup_object st = do
    (r, st) ← destination d st
    some (r, add_instruction Instruction.mov_str r data' 0 st)

  -- the end of compilePostfix and compilePrefix: a variable of another scope is written back
  unfoldable pub write_back : Expr → ℕ → Compiling → Option Compiling
  write_back (terminal type_identifier ident) left_reg st =
      if register_of ident st == 0
      then (do
        (temp, st) ← take_register st
        let st = add_instruction Instruction.mov_str temp ident 0 st
        some (release_register temp (add_instruction Instruction.set_field 1 temp left_reg st)))
      else some st
  write_back _ left_reg st = some st

  unfoldable pub compile_postfix : Text → Expr → Compile → ℕ → Compiling → Option (ℕ × Compiling)
  compile_postfix op expr compile d st = do
    (left_reg, st) ← compile 0 false st
    (target, st) ← destination d st
    let st = add_instruction Instruction.mov target left_reg 0 st
    let st =
        if str_eq op increment_text
        then add_instruction Instruction.inc left_reg left_reg 0 st
        else if str_eq op decrement_text
        then add_instruction Instruction.dec left_reg left_reg 0 st
        else st
    st ← write_back expr left_reg st
    some (target, st)

  unfoldable pub compile_prefix : Text → Expr → Compile → ℕ → Compiling → Option (ℕ × Compiling)
  compile_prefix op expr compile d st = do
    (left_reg, st) ← compile 0 false st
    (target, st) ← destination d st
    let own = if d == 0 then left_reg else d
    if str_eq op increment_text
        then (do
          st ← write_back expr left_reg (add_instruction Instruction.inc left_reg own 0 st)
          some (own, st))
        else if str_eq op decrement_text
        then (do
          st ← write_back expr left_reg (add_instruction Instruction.dec left_reg own 0 st)
          some (own, st))
        else if str_eq op minus_text
        then (do
          let st = if d == 0 then release_register target st else st
          (right_reg, st) ← compile_terminal type_number minus_one 0 false st
          some (
            own,
            release_register right_reg (add_instruction Instruction.mul left_reg right_reg own st),
          ))
        else if str_eq op throw_text
        then (let st = if d == 0 then release_register target st else st in
            some (target, add_instruction Instruction.throw_exception left_reg 0 0 st))
        else (do st ← write_back expr left_reg st; some (target, st))

  -- what compileBinary does with an operation whose left operand has code of its own
  unfoldable pub compile_operands :
      Text → Compile → Compile → ℕ → Compiling → Option (ℕ × Compiling)
  compile_operands op compile_left compile_right d st = do
    let is_assignment = str_eq op assign_text
    (left_reg, st) ← compile_left 0 false st
    (right_reg, st) ← compile_right (if is_assignment then left_reg else 0) (str_eq op dot_text) st
    (result_reg, st) ← destination d st
    st ←
        (if is_assignment
          then some st
          else (to_opcode op >>= λ opcode.
              some (add_instruction opcode left_reg right_reg result_reg st)))
    let st = if right_reg == result_reg then st else release_register right_reg st
    some (result_reg, release_register left_reg st)

  -- an assignment to a variable of another scope
  unfoldable pub compile_set_this : ℕ → Compile → Compiling → Option (ℕ × Compiling)
  compile_set_this ident compile_right st = do
    (left_reg, st) ← take_register st
    (right_reg, st) ←
        compile_right 0 false (add_instruction Instruction.mov_str left_reg ident 0 st)
    some (0, add_instruction Instruction.set_field 1 left_reg right_reg st)

  unfoldable pub compile_binary :
      Text
      → Expr
      → Compile
      → (ℕ → Compiling → Option Compiling)
      → Compile
      → ℕ
      → Compiling
      → Option (ℕ × Compiling)
  compile_binary op (binary left_op left right) compile_left compile_dot compile_right d st =
      if str_eq op assign_text
      then (do
        (right_reg, st) ← compile_right 0 false st
        st ← compile_dot right_reg st
        some (right_reg, st))
      else compile_operands op compile_left compile_right d st
  compile_binary op (terminal type_identifier ident) compile_left compile_dot compile_right d st =
      if str_eq op assign_text && register_of ident st == 0
      then compile_set_this ident compile_right st
      else compile_operands op compile_left compile_right d st
  compile_binary op (terminal type data') compile_left compile_dot compile_right d st =
      if str_eq op assign_text then none else compile_operands op compile_left compile_right d st
  compile_binary op left compile_left compile_dot compile_right d st =
      compile_operands op compile_left compile_right d st

  unfoldable mutual
    -- the registers asked for are those of compileExpression's callers
    pub compile_expression : Expr → Compile
    compile_expression (terminal type data') d has_lookup_object st =
        compile_terminal type data' d has_lookup_object st
    compile_expression (binary op left right) d has_lookup_object st =
        compile_binary op left (compile_expression left) (compile_dot_for_set_field left)
          (compile_expression right) d st
    compile_expression (prefix' op expr) d has_lookup_object st =
        compile_prefix op expr (compile_expression expr) d st
    compile_expression (postfix' op expr) d has_lookup_object st =
        compile_postfix op expr (compile_expression expr) d st
    compile_expression (method_call callee arguments) d has_lookup_object st = do
      (result_reg, st) ← destination d st
      (expr_reg, st) ← take_register st
      (expr_reg, st) ← compile_arguments arguments expr_reg st
      (callee_reg, st) ← compile_expression callee 0 false (release_register expr_reg st)
      some (
        result_reg,
        release_register callee_reg
            (add_instruction Instruction.call callee_reg result_reg (count arguments) st),
      )
    compile_expression other d has_lookup_object st = some (0, st)

    -- compileDotForSetField, or "left value expected"
    pub compile_dot_for_set_field : Expr → ℕ → Compiling → Option Compiling
    compile_dot_for_set_field (binary op left right) result st =
        if str_eq op dot_text
        then (compile_expression left 0 false st >>= λ (left_reg, st).
            compile_expression right 0 false st >>= λ (right_reg, st).
            some (add_instruction Instruction.set_field left_reg right_reg result st))
        else none
    compile_dot_for_set_field _ result st = none

    -- the loop of compileMethodCall, from the last argument on
    pub compile_arguments : Exprs → ℕ → Compiling → Option (ℕ × Compiling)
    compile_arguments no_more expr_reg st = some (expr_reg, st)
    compile_arguments (argument expr arguments) expr_reg st = do
      (expr_reg, st) ← compile_arguments arguments expr_reg st
      (expr_reg, st) ← compile_expression expr expr_reg false st
      some (expr_reg, add_instruction Instruction.push expr_reg 0 0 st)
