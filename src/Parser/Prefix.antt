-- ===== src/Parser/Prefix.antt =====
-- compiler/crates/tyra-parser/src/expr.rs: prefix expressions. `inner` is the parse of the text of an
-- interpolated expression, whose diagnostics the code drops.
pub mod Total
use Prim.Native.String.{◌++◌ as append}
use tyra.Prelude.{ℕ, zero, suc, Bool, true, false, Option, none, some, List, [], ◌∷◌, ◌++◌, String}
use tyra.Diagnostics.Span.{Span, merge}
use tyra.Syntax.Token.{
  TokenKind, Token, InterpPart, int, float, string, interp_string, raw_string, ident, kw_true,
  kw_false, kw_value, kw_data, kw_type, kw_trait, kw_impl, minus, kw_not, l_paren, r_paren,
  l_bracket, r_bracket, l_brace, r_brace, comma, colon, kw_if, kw_match, kw_for, kw_while, kw_spawn,
  kw_fn,
}
use tyra.Syntax.KindName.{kind_name, keyword_as_ident}
use tyra.Parser.Parse.{
  Parse, return, ◌>>=◌, peek_span, peek, check, advance, eat, expect, complain, outcome,
}
use tyra.Parser.Commas.{parse_comma_separated}
use tyra.Parser.TypeExpr.{or_else}
use tyra.Parser.Ast.{
  Expr, ExprKind, expr_of, expr_span, expr_vec, entry_vec, StringPart, part_vec, UnaryOp, IfExpr,
  if_of, MatchExpr, match_of, ForExpr, for_of, WhileExpr, while_of, LambdaExpr, lambda_of,
}
use tyra.Parser.Parts.{Parts, Prec}
use tyra.Parser.Postfix.{parse_expr}
use tyra.Parser.Control.{parse_if, parse_match, parse_for, parse_while, parse_lambda}

-- The arms that take one token.
unfoldable pub one_token : ExprKind → Span → Parse Expr
unfolding advance
one_token kind start = advance >>= λ token. return (expr_of kind start)

unfoldable pub keyword_name : TokenKind → Span → Parse Expr
unfolding one_token keyword_as_ident
keyword_name kind = one_token (ExprKind.ident (or_else "" (keyword_as_ident kind)))

unfoldable pub no_expr : Span → Parse Expr
unfolding advance complain kind_name
no_expr start = advance >>= λ token.
    complain (append "expected expression, found " (kind_name token.kind)) "E0104" token.span
      "expected expression"
    >>= λ u. return (expr_of (ExprKind.int_lit 0) start)

unfoldable pub of_if : IfExpr → Expr
of_if (if_of condition body other span) =
    expr_of (ExprKind.if_kind (if_of condition body other span)) span

unfoldable pub of_match : MatchExpr → Expr
of_match (match_of subject branches span) =
    expr_of (ExprKind.match_kind (match_of subject branches span)) span

unfoldable pub of_for : ForExpr → Expr
of_for (for_of bindings iter body span) =
    expr_of (ExprKind.for_kind (for_of bindings iter body span)) span

unfoldable pub of_while : WhileExpr → Expr
of_while (while_of condition body span) =
    expr_of (ExprKind.while_kind (while_of condition body span)) span

unfoldable pub of_lambda : LambdaExpr → Expr
of_lambda (lambda_of params result body span) =
    expr_of (ExprKind.lambda (lambda_of params result body span)) span

module _ (inner : String → Option Expr) where
  unfoldable pub parsed_part : Option Expr → Option StringPart
  parsed_part none = none
  parsed_part (some e) = some (StringPart.expr e)

  unfoldable pub part_of : InterpPart → Option StringPart
  unfolding parsed_part
  part_of (InterpPart.lit text) = some (StringPart.lit text)
  part_of (InterpPart.expr text) = parsed_part (inner text)

  unfoldable pub part_then : Option StringPart → Option (List StringPart) → Option (List StringPart)
  part_then none rest = none
  part_then (some p) none = none
  part_then (some p) (some ps) = some (p ∷ ps)

  unfoldable pub string_parts : List InterpPart → Option (List StringPart)
  unfolding part_of part_then
  string_parts [] = some []
  string_parts (p ∷ ps) = part_then (part_of p) (string_parts ps)

  unfoldable pub interpolated : List InterpPart → Span → Parse Expr
  unfolding advance outcome string_parts
  interpolated parts start = advance >>= λ token. outcome (string_parts parts) >>= λ found.
      return (expr_of (ExprKind.string_interp (part_vec found)) start)

module _ (is_uppercase : ℕ → Bool) (inner : String → Option Expr) (sub : Parts) (fuel : ℕ) where
  unfoldable pub unary : UnaryOp → Span → Parse Expr
  unfolding advance merge
  unary op start = advance >>= λ sign. sub.expr_prec Prec.unary >>= λ operand.
      return (expr_of (ExprKind.unary_op op operand) (merge start (expr_span operand)))

  -- Behind the first expression in parentheses: a tuple, or the expression itself.
  unfoldable pub tuple_at : Span → Expr → Bool → Parse Expr
  unfolding parse_comma_separated parse_expr peek_span expect merge
  tuple_at start first true =
      parse_comma_separated r_paren (parse_expr sub fuel) fuel (first ∷ []) >>= λ elems.
      peek_span >>= λ stop. expect r_paren >>= λ close.
      return (expr_of (ExprKind.tuple (expr_vec elems)) (merge start stop))
  tuple_at start first false = expect r_paren >>= λ close. return first

  unfoldable pub paren_at : Span → Bool → Parse Expr
  unfolding advance merge parse_expr eat tuple_at
  paren_at start true =
      advance >>= λ close. return (expr_of ExprKind.unit_lit (merge start close.span))
  paren_at start false = parse_expr sub fuel >>= λ first. eat comma >>= tuple_at start first

  unfoldable pub paren : Span → Parse Expr
  unfolding advance check paren_at
  paren start = advance >>= λ open_paren. check r_paren >>= paren_at start

  unfoldable pub list : Span → Parse Expr
  unfolding advance parse_comma_separated parse_expr peek_span expect merge
  list start = advance >>= λ bracket.
      parse_comma_separated r_bracket (parse_expr sub fuel) fuel [] >>= λ items.
      peek_span >>= λ stop. expect r_bracket >>= λ close.
      return (expr_of (ExprKind.list_lit (expr_vec items)) (merge start stop))

  unfoldable pub entry : Parse (Expr × Expr)
  unfolding parse_expr expect
  entry = parse_expr sub fuel >>= λ key.
      expect colon >>= λ sign. parse_expr sub fuel >>= λ value. return (key, value)

  unfoldable pub map : Span → Parse Expr
  unfolding advance parse_comma_separated entry peek_span expect merge
  map start = advance >>= λ brace. parse_comma_separated r_brace entry fuel [] >>= λ found.
      peek_span >>= λ stop. expect r_brace >>= λ close.
      return (expr_of (ExprKind.map_lit (entry_vec found)) (merge start stop))

  unfoldable pub spawned : Span → Parse Expr
  unfolding advance merge
  spawned start = advance >>= λ keyword. sub.expr_prec Prec.postfix >>= λ call.
      return (expr_of (ExprKind.spawn call) (merge start (expr_span call)))

  -- The match of `parse_prefix`.
  unfoldable pub prefix_at : Span → TokenKind → Parse Expr
  unfolding one_token interpolated keyword_name unary paren list map parse_if of_if parse_match
      of_match parse_for of_for parse_while of_while spawned parse_lambda of_lambda no_expr
  prefix_at start (int n) = one_token (ExprKind.int_lit n) start
  prefix_at start (float n) = one_token (ExprKind.float_lit n) start
  prefix_at start (string s) = one_token (ExprKind.string_lit s) start
  prefix_at start (interp_string parts) = interpolated inner parts start
  prefix_at start (raw_string s) = one_token (ExprKind.string_lit s) start
  prefix_at start kw_true = one_token (ExprKind.bool_lit true) start
  prefix_at start kw_false = one_token (ExprKind.bool_lit false) start
  prefix_at start (ident name) = one_token (ExprKind.ident name) start
  prefix_at start kw_value = keyword_name kw_value start
  prefix_at start kw_data = keyword_name kw_data start
  prefix_at start kw_type = keyword_name kw_type start
  prefix_at start kw_trait = keyword_name kw_trait start
  prefix_at start kw_impl = keyword_name kw_impl start
  prefix_at start minus = unary UnaryOp.neg start
  prefix_at start kw_not = unary UnaryOp.not start
  prefix_at start l_paren = paren start
  prefix_at start l_bracket = list start
  prefix_at start l_brace = map start
  prefix_at start kw_if = parse_if is_uppercase sub fuel >>= λ e. return (of_if e)
  prefix_at start kw_match = parse_match is_uppercase sub fuel >>= λ e. return (of_match e)
  prefix_at start kw_for = parse_for is_uppercase sub fuel >>= λ e. return (of_for e)
  prefix_at start kw_while = parse_while is_uppercase sub fuel >>= λ e. return (of_while e)
  prefix_at start kw_spawn = spawned start
  prefix_at start kw_fn = parse_lambda is_uppercase sub fuel >>= λ e. return (of_lambda e)
  prefix_at start kind = no_expr start

  unfoldable pub parse_prefix : Parse Expr
  unfolding peek peek_span prefix_at
  parse_prefix = peek >>= λ kind. peek_span >>= λ start. prefix_at start kind
