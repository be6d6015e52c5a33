-- ===== src/Syntax.antt =====
-- The syntax trees of expressions (src/compiler/ast/expression), and the spelling of the operators.
-- A `char *` is its address.
pub mod Statements
use zscript.Base.{ℕ, suc, [], ◌∷◌}
use zscript.Base.Strings.{Text}

pub data TerminalType : Type 0 where
  type_identifier : TerminalType
  type_number : TerminalType
  type_string : TerminalType

abbrev pub dot_text : Text
dot_text = 46 ∷ []

abbrev pub plus_text : Text
plus_text = 43 ∷ []

abbrev pub minus_text : Text
minus_text = 45 ∷ []

abbrev pub times_text : Text
times_text = 42 ∷ []

abbrev pub over_text : Text
over_text = 47 ∷ []

abbrev pub less_text : Text
less_text = 60 ∷ []

abbrev pub less_or_equal_text : Text
less_or_equal_text = 60 ∷ 61 ∷ []

abbrev pub greater_text : Text
greater_text = 62 ∷ []

abbrev pub greater_or_equal_text : Text
greater_or_equal_text = 62 ∷ 61 ∷ []

abbrev pub increment_text : Text
increment_text = 43 ∷ 43 ∷ []

abbrev pub decrement_text : Text
decrement_text = 45 ∷ 45 ∷ []

abbrev pub not_equal_text : Text
not_equal_text = 33 ∷ 61 ∷ []

abbrev pub equal_text : Text
equal_text = 61 ∷ 61 ∷ []

abbrev pub percent_text : Text
percent_text = 37 ∷ []

abbrev pub throw_text : Text
throw_text = 116 ∷ 104 ∷ 114 ∷ 111 ∷ 119 ∷ []

abbrev pub assign_text : Text
assign_text = 61 ∷ []

-- A function and the empty expression have no code of their own.
mutual
  pub data Expr : Type 0 where
    terminal : TerminalType → (data' : ℕ) → Expr
    binary : (op : Text) → (left right : Expr) → Expr
    prefix' : (op : Text) → (expr : Expr) → Expr
    postfix' : (op : Text) → (expr : Expr) → Expr
    -- the arguments are in the order of the source
    method_call : (callee : Expr) → (arguments : Exprs) → Expr
    other : Expr

  pub data Exprs : Type 0 where
    no_more : Exprs
    argument : Expr → Exprs → Exprs

-- `expressions->size()`
unfoldable pub count : Exprs → ℕ
count no_more = 0
count (argument expr arguments) = suc (count arguments)
