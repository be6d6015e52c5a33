-- ===== src/Syntax/Statements.antt =====
-- The syntax trees of statements (src/compiler/ast). A function is compiled later and is here its name.
use zscript.Base.{ℕ, Bool, Option}
use zscript.Syntax.{Expr}

-- `identifier` and `isAsync`
pub record Function : Type 0 where
  pub identifier : ℕ
  pub is_async : ℕ

-- `Statement::stmt`, a list of statements with `hasBreak` and `hasReturn`, and a body that may be null
mutual
  pub data Node : Type 0 where
    function' : Function → Node
    var : (identifier : ℕ) → (is_synchronized : Bool) → (value : Expr) → Node
    loop : (start_expr condition iter_expr : Option Expr) → Body → Node
    block : Body → Node
    conditional : (condition : Expr) → Body → (else_body : OptionalBody) → Node
    try_catch :
        (try_body : Body)
        → (catch_ident : ℕ) → (catch_body : Body) → (finally_body : OptionalBody) → Node
    expression : Expr → Node

  pub data Body : Type 0 where
    no_statement : Body
    statement : (has_break has_return : Bool) → Node → Body → Body

  pub data OptionalBody : Type 0 where
    no_body : OptionalBody
    some_body : Body → OptionalBody
