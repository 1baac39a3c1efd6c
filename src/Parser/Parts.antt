-- ===== src/Parser/Parts.antt =====
-- The parsers that those of expressions and statements call in turn, with less fuel; the precedences
-- of compiler/crates/tyra-parser/src/expr.rs.
pub mod IsTotal
use tyra.Prelude.{ℕ, List, Bool}
use tyra.Parser.Parse.{Parse}
use tyra.Parser.Ast.{Expr, Stmt, IfExpr}

pub data Prec : Type 0 where
  none assignment or and equality comparison term factor unary postfix : Prec

-- The order of the precedences is that of their discriminants.
unfoldable pub rank : Prec → ℕ
rank Prec.none = 0
rank Prec.assignment = 1
rank Prec.or = 2
rank Prec.and = 3
rank Prec.equality = 4
rank Prec.comparison = 5
rank Prec.term = 6
rank Prec.factor = 7
rank Prec.unary = 8
rank Prec.postfix = 9

pub record Parts : Type 0 where
  pub expr_prec : Prec → Parse Expr
  pub body : Parse (List Stmt)
  pub if_expr : Parse IfExpr
