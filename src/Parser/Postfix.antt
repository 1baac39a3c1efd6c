-- ===== src/Parser/Postfix.antt =====
-- compiler/crates/tyra-parser/src/expr.rs: call arguments and postfix operators.
pub mod Total
use tyra.Prelude.{ℕ, zero, suc, Bool, true, false, Option, none, some, List, [], ◌∷◌, ◌++◌, String}
use tyra.Diagnostics.Span.{Span, merge}
use tyra.Syntax.Token.{
  TokenKind, Token, l_paren, r_paren, l_bracket, r_bracket, comma, colon, colon_colon, lt, gt, dot,
  question, ident, kw_await, kw_value, kw_data, kw_type, kw_trait, kw_impl,
}
use tyra.Syntax.KindName.{keyword_as_ident}
use tyra.Types.Written.{TypeExpr}
use tyra.Parser.Parse.{
  Parse, return, stuck, ◌>>=◌, peek_span, peek, check, advance, eat, expect, complain,
  peek_ahead_is_colon,
}
use tyra.Parser.Commas.{parse_comma_separated}
use tyra.Parser.TypeExpr.{parse_type, or_else, args_loop}
use tyra.Parser.Ast.{Expr, ExprKind, expr_of, expr_span, Arg, arg_of, arg_vec}
use tyra.Parser.Parts.{Parts, Prec}

-- The label of `name: value`, if the expression is a name.
unfoldable pub label_of : Expr → Option String
label_of (expr_of (ExprKind.ident name) span) = some name
label_of e = none

module _ (sub : Parts) (fuel : ℕ) where
  -- `parse_expr`.
  unfoldable pub parse_expr : Parse Expr
  parse_expr = sub.expr_prec Prec.none

  unfoldable pub value_of : Span → Option String → Parse Arg
  unfolding parse_expr merge
  value_of start label =
      parse_expr >>= λ value. return (arg_of label value (merge start (expr_span value)))

  unfoldable pub plain_arg : Expr → Parse Arg
  plain_arg first = return (arg_of none first (expr_span first))

  unfoldable pub label_at : Span → Expr → Option String → Bool → Parse Arg
  unfolding advance value_of plain_arg
  label_at start first (some label) true = advance >>= λ sign. value_of start (some label)
  label_at start first (some label) false = plain_arg first
  label_at start first none colon_ahead = plain_arg first

  unfoldable pub expr_arg : Span → Parse Arg
  unfolding parse_expr check label_at label_of
  expr_arg start = parse_expr >>= λ first. check colon >>= label_at start first (label_of first)

  unfoldable pub keyword_arg : Span → String → Bool → Parse Arg
  unfolding advance value_of expr_arg
  keyword_arg start name true =
      advance >>= λ keyword. advance >>= λ sign. value_of start (some name)
  keyword_arg start name false = expr_arg start

  unfoldable pub arg_at : Span → Option String → Parse Arg
  unfolding peek_ahead_is_colon keyword_arg expr_arg
  arg_at start (some name) = peek_ahead_is_colon >>= keyword_arg start name
  arg_at start none = expr_arg start

  unfoldable pub parse_arg : Parse Arg
  unfolding peek_span peek arg_at keyword_as_ident
  parse_arg = peek_span >>= λ start. peek >>= λ kind. arg_at start (keyword_as_ident kind)

  unfoldable pub parse_call_args : Parse (List Arg)
  unfolding expect parse_comma_separated parse_arg
  parse_call_args = expect l_paren >>= λ paren.
      parse_comma_separated r_paren parse_arg fuel [] >>= λ args.
      expect r_paren >>= λ close. return args

  -- Behind the operator: the loop goes on with a larger expression.
  module _ (loop : Expr → Parse Expr) (e : Expr) where
    unfoldable pub field : String → Parse Expr
    unfolding advance merge
    field name = advance >>= λ last.
        loop (expr_of (ExprKind.field_access e name) (merge (expr_span e) last.span))

    unfoldable pub keyword_field : TokenKind → Parse Expr
    unfolding field keyword_as_ident
    keyword_field kind = field (or_else "" (keyword_as_ident kind))

    -- The `break` ends the loop.
    unfoldable pub no_field : Parse Expr
    unfolding peek_span complain
    no_field = peek_span >>= λ span.
        complain "expected field name or `await` after `.`" "E0103" span "expected identifier"
        >>= λ u. return e

    unfoldable pub dot_at : TokenKind → Parse Expr
    unfolding advance merge field keyword_field no_field
    dot_at kw_await =
        advance >>= λ last. loop (expr_of (ExprKind.await e) (merge (expr_span e) last.span))
    dot_at (ident name) = field name
    dot_at kw_value = keyword_field kw_value
    dot_at kw_data = keyword_field kw_data
    dot_at kw_type = keyword_field kw_type
    dot_at kw_trait = keyword_field kw_trait
    dot_at kw_impl = keyword_field kw_impl
    dot_at kind = no_field

    unfoldable pub turbofish : Parse Expr
    unfolding advance expect parse_type args_loop parse_call_args peek_span merge
    turbofish = advance >>= λ sign. expect lt >>= λ angle. parse_type fuel >>= λ t.
        args_loop (parse_type fuel) fuel (t ∷ []) >>= λ types. expect gt >>= λ close.
        parse_call_args >>= λ args. peek_span >>= λ stop.
        loop (expr_of (ExprKind.turbofish_call e types (arg_vec args)) (merge (expr_span e) stop))

    unfoldable pub index_of : Parse Expr
    unfolding advance parse_expr peek_span expect merge
    index_of = advance >>= λ bracket. parse_expr >>= λ index. peek_span >>= λ stop.
        expect r_bracket >>= λ close.
        loop (expr_of (ExprKind.index e index) (merge (expr_span e) stop))

    unfoldable pub call_of : Parse Expr
    unfolding parse_call_args peek_span merge
    call_of = parse_call_args >>= λ args. peek_span >>= λ stop.
        loop (expr_of (ExprKind.call e (arg_vec args)) (merge (expr_span e) stop))

    unfoldable pub propagated : Parse Expr
    unfolding advance merge
    propagated =
        advance >>= λ last. loop (expr_of (ExprKind.propagate e) (merge (expr_span e) last.span))

    unfoldable pub postfix_at : TokenKind → Parse Expr
    unfolding advance peek dot_at propagated call_of turbofish index_of
    postfix_at dot = advance >>= λ point. peek >>= dot_at
    postfix_at question = propagated
    postfix_at l_paren = call_of
    postfix_at colon_colon = turbofish
    postfix_at l_bracket = index_of
    postfix_at kind = return e

  -- The rounds of the loop are on fuel.
  unfoldable pub parse_postfix : ℕ → Expr → Parse Expr
  unfolding peek postfix_at
  parse_postfix zero e = stuck
  parse_postfix (suc f) e = peek >>= postfix_at (parse_postfix f) e
