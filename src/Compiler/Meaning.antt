-- ===== src/Compiler/Meaning.antt =====
-- What expressions of numbers and variables mean, apart from how src/compiler/ExprssionCompiler.cpp
-- compiles them.
use zscript.Base.{
  ℕ, ◌≤◌, arith, ap, inl, inr, Bool-cases, not, Option, none, some, ◌≡◌, refl, if◌then◌else◌,
}
use zscript.Base.Strings.{Text, str_eq}
use zscript.Program.Instruction
use zscript.Program.Assembler.{number_bits}
use zscript.Interpreter.Numbers.{Float64, of_bool}
use zscript.Interpreter.Data.{compare_value}
use zscript.Interpreter.State.{Reg}
use zscript.Symbols.{Table, find}
use zscript.Syntax
use zscript.Syntax.{Expr, terminal, binary, type_number as a_number, type_identifier}
use zscript.Compiler.{to_opcode}
use zscript.Compiler.Machine.{number, compute}

-- the operators of two numbers
pub data Operator : Type 0 where
  plus minus times over remainder less less_or_equal greater greater_or_equal equal not_equal :
      Operator

abbrev pub spelling : Operator → Text
spelling plus = Syntax.plus_text
spelling minus = Syntax.minus_text
spelling times = Syntax.times_text
spelling over = Syntax.over_text
spelling remainder = Syntax.percent_text
spelling less = Syntax.less_text
spelling less_or_equal = Syntax.less_or_equal_text
spelling greater = Syntax.greater_text
spelling greater_or_equal = Syntax.greater_or_equal_text
spelling equal = Syntax.equal_text
spelling not_equal = Syntax.not_equal_text

-- the result of an operator; a division by 0 has none
unfoldable pub operate : Float64 → Operator → ℕ → ℕ → Option ℕ
operate f plus a b = some (f.plus a b)
operate f minus a b = some (f.minus a b)
operate f times a b = some (f.times a b)
operate f over a b = if f.equal b 0 then none else some (f.over a b)
operate f remainder a b = some (f.fmod a b)
operate f less a b = some (of_bool f (f.less a b))
operate f less_or_equal a b = some (of_bool f (f.less_or_equal a b))
operate f greater a b = some (of_bool f (f.less b a))
operate f greater_or_equal a b = some (of_bool f (f.less_or_equal b a))
operate f equal a b = some (of_bool f (f.equal a b))
operate f not_equal a b = some (of_bool f (not (f.equal a b)))

-- The value of an expression, where `variables` gives the values of the registers of variables.
pub data Meaning (text : ℕ → Text) (parse : Text → ℕ) (f : Float64) (table : Table)
    (variables : ℕ → Option Reg) : Expr → ℕ → Type 0 where
  literal :
      (data' : ℕ)
      → Meaning text parse f table variables
          (terminal a_number data')
          (number_bits text f.one parse (text data'))
  variable :
      (ident index v : ℕ)
      → find (text ident) table ≡ some index
      → variables index ≡ some (number v)
      → Meaning text parse f table variables (terminal type_identifier ident) v
  operation :
      (o : Operator) (left right : Expr) (a b v : ℕ)
      → Meaning text parse f table variables left a
      → Meaning text parse f table variables right b
      → operate f o a b ≡ some v
      → Meaning text parse f table variables (binary (spelling o) left right) v

-- the opcode of an operator, and what its handler computes
pub record Translates (f : Float64) (o : Operator) (a b v : ℕ) : Type 0 where
  pub opcode : ℕ
  pub by_text : to_opcode (spelling o) ≡ some opcode
  pub computes : compute f opcode (number a) (number b) ≡ some (number v)
  pub plain : (Instruction.add ≤ opcode) × (opcode ≤ Instruction.cmp_greater_or_equal)

abbrev num : ℕ → Option Reg
num v = some (number v)

module _ (f : Float64) (a b v : ℕ) where
  value : (w : ℕ) → some w ≡ some v → num w ≡ num v
  value w e = ap num (cc e)

  pub operate-Translates : (o : Operator) → operate f o a b ≡ some v → Translates f o a b v
  unfolding operate compute to_opcode compare_value str_eq
  operate-Translates plus h = record {
    opcode = Instruction.add;
    by_text = refl;
    computes = value (f.plus a b) h;
    plain = (omega arith, omega arith);
  }
  operate-Translates minus h = record {
    opcode = Instruction.sub;
    by_text = refl;
    computes = value (f.minus a b) h;
    plain = (omega arith, omega arith);
  }
  operate-Translates times h = record {
    opcode = Instruction.mul;
    by_text = refl;
    computes = value (f.times a b) h;
    plain = (omega arith, omega arith);
  }
  operate-Translates over h = record {
    opcode = Instruction.div;
    by_text = refl;
    computes = elim (Bool-cases (f.equal b 0)) [
      | inl nil ↦ cc (rw nil at h)
      | inr proper ↦ rw proper (value (f.over a b) (rw proper at h))
    ];
    plain = (omega arith, omega arith);
  }
  operate-Translates remainder h = record {
    opcode = Instruction.mod';
    by_text = refl;
    computes = value (f.fmod a b) h;
    plain = (omega arith, omega arith);
  }
  operate-Translates less h = record {
    opcode = Instruction.cmp_less;
    by_text = refl;
    computes = value (of_bool f (f.less a b)) h;
    plain = (omega arith, omega arith);
  }
  operate-Translates less_or_equal h = record {
    opcode = Instruction.cmp_less_or_equal;
    by_text = refl;
    computes = value (of_bool f (f.less_or_equal a b)) h;
    plain = (omega arith, omega arith);
  }
  operate-Translates greater h = record {
    opcode = Instruction.cmp_greater;
    by_text = refl;
    computes = value (of_bool f (f.less b a)) h;
    plain = (omega arith, omega arith);
  }
  operate-Translates greater_or_equal h = record {
    opcode = Instruction.cmp_greater_or_equal;
    by_text = refl;
    computes = value (of_bool f (f.less_or_equal b a)) h;
    plain = (omega arith, omega arith);
  }
  operate-Translates equal h = record {
    opcode = Instruction.cmp_equal;
    by_text = refl;
    computes = value (of_bool f (f.equal a b)) h;
    plain = (omega arith, omega arith);
  }
  operate-Translates not_equal h = record {
    opcode = Instruction.cmp_n_equal;
    by_text = refl;
    computes = value (of_bool f (not (f.equal a b))) h;
    plain = (omega arith, omega arith);
  }
