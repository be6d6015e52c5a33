-- ===== src/Lib.antt =====
-- zscript: a scripting language whose compiler produces bytecode for a register machine.
--
-- The source of a class is parsed (src/compiler), translated to instructions (src/program), optimized,
-- and assembled into bytes; the interpreter (src/interpreter) runs them, on the array lists and
-- maps of src/common/data_structures.
--
-- The parts and their files:
-- - Base: native numbers with Boolean tests, lists, blocks of bytes with the accesses of the C
--   library, and C strings.
-- - Allocation: src/common/alloc.c, the count of the heap in use.
-- - ArrayList: src/common/data_structures/arraylist.c, one definition per function with its name. The
--   block of items is a list of bytes, a pointer into it is an offset.
-- - Map: src/common/data_structures/map.c, one definition per function with its name. A bag is the
--   three parallel lists under one hash.
-- - Program: src/program/instruction.h (Program.Instruction) and src/program/BytecodeOptimizer.cpp
--   (Program.Optimizer): `optimize_pass` is the loop of `optimize`, `action` its body.
--   Program.Assembler is the second half of `assemble` of src/program/Assembler.cpp: labels and
--   instructions.
-- - Symbols: the symbol table of a function: `add_to_current_table` of
--   src/compiler/AddressCalculator.cpp, `assemble_frame` for what src/program/Assembler.cpp writes
--   for FFRAME, and `build_symbol_table` of src/interpreter/object.c.
-- - Registers: the temporary registers of a function, `getRegister` and `freeRegister` of
--   src/compiler/ast/FunctionKind.cpp.
-- - Interpreter: src/interpreter/interpreter_dd.c. Interpreter.State has the registers, the objects
--   and the state of `z_interpreter_run`; a handler OP_X is `op_x` of Interpreter.Data,
--   Interpreter.Throw or Interpreter.Control. `call_own` is OP_CALL for a function of the
--   running state. Interpreter.Collector is src/interpreter/garbage_collector.h, where
--   gc_visit_x is `visit_x` and gives the pointers that are visited next. An object is a place in a
--   list, and 0 is the null pointer.
--
--   Interpreter.Scopes is the search for a name in the scopes of a function, Interpreter.Fields
--   OP_GET_FIELD, OP_GET_FIELD_IMMEDIATE and OP_SET_FIELD, with interpreter_get_field_virtual,
--   interpreter_set_field_virtual and the loading of a class (src/interpreter/object.c);
--   Interpreter.Fields.Creating has OP_MOV_STR, OP_MOV_FNC, OP_CREATE_THIS and OP_IMPORT. The bytes of
--   a class file and the run of its static constructor are parameters, `load` and `run_static`.
-- - Compiler: src/compiler/ExprssionCompiler.cpp, where compileX is `compile_x`; `compile_operands` and
--   `compile_set_this` are parts of compileBinary. A function that compiles a part of an expression
--   is handed on to the function for the whole. Syntax has the classes of expressions of
--   src/compiler/ast/expression, Syntax.Statements those of statements of src/compiler/ast.
--   Compiler.Machine and Compiler.Straight are the straight code of the interpreter, on a state and on
--   a block of locals. Compiler.Var is compileVar of src/compiler/Compiler.cpp, and
--   Compiler.Statements has its bodies, loops, conditionals and try, where compileX is `compile_x`;
--   compileStmt is cut at its conditions. A label has an address that depends on its prefix and number
--   only.
--
-- Conventions. `none` is undefined behaviour of the C program: an access outside a block or to a null
-- pointer. The bits of a register are a number, and the operations on `double` are a parameter
-- with the laws of IEEE 754 that a theorem needs (Interpreter.Numbers). `malloc` is a parameter that
-- gives a block of the length asked for, and does not fail but in Allocation. Sizes are not limited to
-- 64 bits, but for the hash of a string, the version of a collection, and the count of the heap in
-- use, which wrap.
--
-- Fuel: the search for a name has one step for each object and two more, as a scope lies in an older
-- one. `optimize` has one round for each instruction and one more, as every round but the last
-- shortens the program; the search for a catch point has one step for each object and two more, as a
-- context returns to an older one; `compile_body` takes the depth of its recursion, one step for
-- each body in a body or in a block that a return puts in front of itself; a visit of the collector
-- goes as deep as there are objects, and two more, as it marks an object before it goes on.
--
-- Not modelled: the parser, which stands on a generated one; the compiler of functions and classes
-- (compileFunction, compileRemainingFunctions, compileClass); the native functions; threads and the
-- collector's barriers; the printing of instructions; what only frees memory. Calls into another
-- interpreter state are not modelled.
pub mod Allocation
pub mod ArrayList
pub mod Base
pub mod Compiler
pub mod Interpreter
pub mod Map
pub mod Program
pub mod Registers
pub mod Symbols
pub mod Syntax
