-- ===== src/Program/Instruction.antt =====
-- src/program/instruction.h: the opcodes, and an instruction as its four words. A label, a string or a
-- function that an operand points to before assembly is its address.
use zscript.Base.{ℕ, Bool, leb, ◌&&◌}

abbrev pub mov_number : ℕ
mov_number = 0

abbrev pub mov_str : ℕ
mov_str = 1

abbrev pub mov : ℕ
mov = 2

abbrev pub add : ℕ
add = 3

abbrev pub sub : ℕ
sub = 4

abbrev pub div : ℕ
div = 5

abbrev pub mul : ℕ
mul = 6

abbrev pub mod' : ℕ
mod' = 7

abbrev pub cmp_equal : ℕ
cmp_equal = 8

abbrev pub cmp_less : ℕ
cmp_less = 9

abbrev pub cmp_less_or_equal : ℕ
cmp_less_or_equal = 10

abbrev pub cmp_greater : ℕ
cmp_greater = 11

abbrev pub cmp_n_equal : ℕ
cmp_n_equal = 12

abbrev pub cmp_greater_or_equal : ℕ
cmp_greater_or_equal = 13

abbrev pub jmp_true : ℕ
jmp_true = 14

abbrev pub jmp_not_true : ℕ
jmp_not_true = 15

abbrev pub jmp : ℕ
jmp = 16

abbrev pub get_field : ℕ
get_field = 17

abbrev pub get_field_immediate : ℕ
get_field_immediate = 18

abbrev pub set_field : ℕ
set_field = 19

abbrev pub call : ℕ
call = 20

abbrev pub push : ℕ
push = 21

abbrev pub pop : ℕ
pop = 22

abbrev pub return' : ℕ
return' = 23

abbrev pub fframe : ℕ
fframe = 26

abbrev pub inc : ℕ
inc = 27

abbrev pub dec : ℕ
dec = 28

abbrev pub mov_fnc : ℕ
mov_fnc = 29

abbrev pub jmp_less : ℕ
jmp_less = 30

abbrev pub jmp_greater : ℕ
jmp_greater = 31

abbrev pub jmp_less_or_equal : ℕ
jmp_less_or_equal = 32

abbrev pub jmp_greater_or_equal : ℕ
jmp_greater_or_equal = 33

abbrev pub jmp_equal : ℕ
jmp_equal = 34

abbrev pub jmp_n_equal : ℕ
jmp_n_equal = 35

abbrev pub jmp_less_i : ℕ
jmp_less_i = 36

abbrev pub jmp_greater_i : ℕ
jmp_greater_i = 37

abbrev pub jmp_less_or_equal_i : ℕ
jmp_less_or_equal_i = 38

abbrev pub jmp_greater_or_equal_i : ℕ
jmp_greater_or_equal_i = 39

abbrev pub jmp_equal_i : ℕ
jmp_equal_i = 40

abbrev pub jmp_n_equal_i : ℕ
jmp_n_equal_i = 41

abbrev pub import_cls : ℕ
import_cls = 42

abbrev pub throw_exception : ℕ
throw_exception = 43

abbrev pub set_catch : ℕ
set_catch = 44

abbrev pub clear_catch : ℕ
clear_catch = 45

abbrev pub create_this : ℕ
create_this = 46

abbrev pub comment : ℕ
comment = 47

abbrev pub label : ℕ
label = 48

pub record Instruction : Type 0 where
  pub opcode : ℕ
  pub r0 : ℕ
  pub r1 : ℕ
  pub r2 : ℕ

unfoldable pub instruction_new : (opcode r0 r1 r2 : ℕ) → Instruction
instruction_new opcode r0 r1 r2 = record { opcode = opcode; r0 = r0; r1 = r1; r2 = r2 }

-- the range of the compare opcodes
abbrev pub is_compare : ℕ → Bool
is_compare opcode = leb cmp_equal opcode && leb opcode cmp_greater_or_equal
