-- ===== src/Parser/Expr.antt =====
-- compiler/crates/tyra-parser/src/expr.rs: expressions by precedence.
pub mod Total
use tyra.Prelude.{
  ℕ, zero, suc, Bool, true, false, ◌||◌, ◌&&◌, Option, none, some, String, leb, if◌then◌else◌,
}
use tyra.Diagnostics.Span.{Span, merge}
use tyra.Syntax.Token.{
  TokenKind, Token, kw_or, kw_and, eq_eq, bang_eq, eq_eq_eq, lt, lt_eq, gt, gt_eq, plus, minus,
  star, slash, percent, eq,
}
use tyra.Parser.Parse.{Parse, return, stuck, ◌>>=◌, peek, advance, outcome}
use tyra.Parser.Ast.{Expr, ExprKind, expr_of, expr_span, BinOp}
use tyra.Parser.Parts.{Parts, Prec, rank}
use tyra.Parser.Postfix.{parse_postfix}
use tyra.Parser.Prefix.{parse_prefix}

unfoldable pub infix_precedence : TokenKind → Option Prec
infix_precedence kw_or = some Prec.or
infix_precedence kw_and = some Prec.and
infix_precedence eq_eq = some Prec.equality
infix_precedence bang_eq = some Prec.equality
infix_precedence eq_eq_eq = some Prec.equality
infix_precedence lt = some Prec.comparison
infix_precedence lt_eq = some Prec.comparison
infix_precedence gt = some Prec.comparison
infix_precedence gt_eq = some Prec.comparison
infix_precedence plus = some Prec.term
infix_precedence minus = some Prec.term
infix_precedence star = some Prec.factor
infix_precedence slash = some Prec.factor
infix_precedence percent = some Prec.factor
infix_precedence kind = none

unfoldable pub token_to_binop : TokenKind → Option BinOp
token_to_binop plus = some BinOp.add
token_to_binop minus = some BinOp.sub
token_to_binop star = some BinOp.mul
token_to_binop slash = some BinOp.div
token_to_binop percent = some BinOp.rem
token_to_binop eq_eq = some BinOp.eq
token_to_binop bang_eq = some BinOp.not_eq
token_to_binop lt = some BinOp.lt
token_to_binop lt_eq = some BinOp.lt_eq
token_to_binop gt = some BinOp.gt
token_to_binop gt_eq = some BinOp.gt_eq
token_to_binop eq_eq_eq = some BinOp.ref_eq
token_to_binop kw_and = some BinOp.and
token_to_binop kw_or = some BinOp.or
token_to_binop kind = none

unfoldable pub is_eq : TokenKind → Bool
is_eq eq = true
is_eq kind = false

unfoldable pub binary : Expr → BinOp → Expr → Expr
unfolding merge
binary left op right =
    expr_of (ExprKind.binary_op left op right) (merge (expr_span left) (expr_span right))

unfoldable pub assignment : Expr → Expr → Expr
unfolding merge
assignment left right =
    expr_of (ExprKind.assign left right) (merge (expr_span left) (expr_span right))

-- `prec <= min_prec || prec == Prec::Assignment`.
unfoldable pub ends_at : Prec → Prec → Bool
unfolding rank
ends_at prec min_prec = leb (rank prec) (rank min_prec) || (leb (rank prec) 1 && leb 1 (rank prec))

module _ (is_uppercase : ℕ → Bool) (inner : String → Option Expr) (sub : Parts) (fuel : ℕ)
    (min_prec : Prec) where
  -- The operator is consumed first; `none` is the panic of `unwrap`.
  unfoldable pub operand : (Expr → Parse Expr) → Expr → Prec → Parse Expr
  unfolding advance outcome token_to_binop binary
  operand loop left prec = advance >>= λ token. outcome (token_to_binop token.kind) >>= λ op.
      sub.expr_prec prec >>= λ right. loop (binary left op right)

  unfoldable pub infix_at : (Expr → Parse Expr) → Expr → Option Prec → Parse Expr
  unfolding ends_at operand
  infix_at loop left none = return left
  infix_at loop left (some prec) =
      if ends_at prec min_prec then return left else operand loop left prec

  unfoldable pub assigned : (Expr → Parse Expr) → Expr → Parse Expr
  unfolding advance assignment
  assigned loop left =
      advance >>= λ sign. sub.expr_prec Prec.assignment >>= λ right. loop (assignment left right)

  unfoldable pub operator_at : (Expr → Parse Expr) → Expr → TokenKind → Parse Expr
  unfolding is_eq rank assigned infix_at infix_precedence
  operator_at loop left kind =
      if is_eq kind && leb (rank min_prec) (rank Prec.assignment)
      then assigned loop left
      else infix_at loop left (infix_precedence kind)

  -- The rounds of the loop are on fuel.
  unfoldable pub expr_loop : ℕ → Expr → Parse Expr
  unfolding parse_postfix peek operator_at
  expr_loop zero left = stuck
  expr_loop (suc f) left =
      parse_postfix sub fuel fuel left >>= λ e. peek >>= operator_at (expr_loop f) e

  unfoldable pub parse_expr_prec : Parse Expr
  unfolding parse_prefix expr_loop
  parse_expr_prec = parse_prefix is_uppercase inner sub fuel >>= expr_loop fuel
