-- ===== src/Parser/TypeExpr.antt =====
-- compiler/crates/tyra-parser/src/type_expr.rs: type expressions and type parameters.
pub mod Total
pub mod Params
pub mod Print
pub mod RoundTrip
use Prim.Native.String.{◌++◌ as append}
use tyra.Prelude.{
  ℕ, zero, suc, Bool, true, false, Option, none, some, List, [], ◌∷◌, ◌++◌, String, length, ltb,
  if◌then◌else◌,
}
use tyra.Diagnostics.Span.{Span, merge}
use tyra.Syntax.Token.{
  TokenKind, Token, l_paren, r_paren, kw_fn, ident, comma, arrow, dot, lt, gt, colon, plus,
}
use tyra.Syntax.KindName.{kind_name}
use tyra.Parser.Parse.{
  Parse, return, stuck, ◌>>=◌, peek_span, peek, check, more_before, advance, eat, expect,
  expect_ident, complain,
}
use tyra.Parser.Ast.{TypeParam}
use tyra.Parser.Commas.{parse_comma_separated}
use tyra.Types.Written.{
  TypeExpr, TypeExprs, type_expr, no_exprs, exprs, named_kind, generic_kind, fn_kind, tuple_kind,
}

abbrev pub vec : List TypeExpr → TypeExprs
vec [] = no_exprs
vec (t ∷ ts) = exprs t (vec ts)

abbrev pub span_of : TypeExpr → Span
span_of (type_expr kind span) = span

-- `Option::unwrap_or`.
abbrev pub or_else {ℓ} : {A : Type ℓ} → A → Option A → A
or_else a none = a
or_else a (some b) = b

unfoldable pub two_or_more : List TypeExpr → Span → Parse Unit
unfolding complain
two_or_more elems start =
    if ltb (length elems) 2
    then complain "tuple type requires 2 or more elements" "E0316" start "tuple type here"
    else return tt

-- Behind `name.`, the name that follows.
unfoldable pub qualified : String → Bool → Parse String
unfolding advance expect_ident
qualified name false = return name
qualified name true = advance >>= λ point. expect_ident >>= λ last. return (or_else name last)

unfoldable pub no_type : Span → Parse TypeExpr
unfolding advance complain kind_name
no_type start = advance >>= λ token.
    complain (append "expected type, found " (kind_name token.kind)) "E0107" token.span
      "expected type"
    >>= λ u. return (type_expr (named_kind "_error") start)

-- The parser for the parts is `parse_type` with less fuel.
module _ (part : Parse TypeExpr) where
  unfoldable pub arg_at :
      (List TypeExpr → Parse (List TypeExpr)) → List TypeExpr → Bool → Parse (List TypeExpr)
  arg_at loop args false = return args
  arg_at loop args true = part >>= λ t. loop (args ++ (t ∷ []))

  -- The loop over type arguments, on fuel.
  unfoldable pub args_loop : ℕ → List TypeExpr → Parse (List TypeExpr)
  unfolding eat arg_at
  args_loop zero args = stuck
  args_loop (suc f) args = eat comma >>= arg_at (args_loop f) args

  unfoldable pub tuple_type : ℕ → Span → Parse TypeExpr
  unfolding advance parse_comma_separated peek_span expect two_or_more merge
  tuple_type f start = advance >>= λ paren. parse_comma_separated r_paren part f [] >>= λ elems.
      peek_span >>= λ stop. expect r_paren >>= λ close. two_or_more elems start >>= λ u.
      return (type_expr (tuple_kind (vec elems)) (merge start stop))

  unfoldable pub fn_type : ℕ → Span → Parse TypeExpr
  unfolding advance parse_comma_separated expect merge
  fn_type f start = advance >>= λ keyword. expect l_paren >>= λ paren.
      parse_comma_separated r_paren part f [] >>= λ params. expect r_paren >>= λ close.
      expect arrow >>= λ to.
      part >>= λ ret. return (type_expr (fn_kind (vec params) ret) (merge start (span_of ret)))

  unfoldable pub generic_at : ℕ → Span → String → Bool → Parse TypeExpr
  unfolding advance args_loop peek_span expect merge
  generic_at f start name false = return (type_expr (named_kind name) start)
  generic_at f start name true = advance >>= λ angle. part >>= λ arg.
      args_loop f (arg ∷ []) >>= λ args. peek_span >>= λ stop.
      expect gt >>= λ close. return (type_expr (generic_kind name (vec args)) (merge start stop))

  unfoldable pub named_type : ℕ → Span → String → Parse TypeExpr
  unfolding advance check qualified generic_at
  named_type f start name = advance >>= λ first.
      check dot >>= qualified name >>= λ last. check lt >>= generic_at f start last

  -- The match of `parse_type`.
  unfoldable pub type_at : ℕ → Span → TokenKind → Parse TypeExpr
  unfolding tuple_type fn_type named_type no_type
  type_at f start l_paren = tuple_type f start
  type_at f start kw_fn = fn_type f start
  type_at f start (ident name) = named_type f start name
  type_at f start kind = no_type start

-- The depth of the recursion and the rounds of its loops are on fuel.
unfoldable pub parse_type : ℕ → Parse TypeExpr
unfolding peek_span peek type_at
parse_type zero = stuck
parse_type (suc f) = peek_span >>= λ start. peek >>= type_at (parse_type f) f start

module _ (fuel : ℕ) where
  unfoldable pub second_at : TypeExpr → Bool → Parse (List TypeExpr)
  unfolding advance parse_type
  second_at bound false = return (bound ∷ [])
  second_at bound true = advance >>= λ sign. parse_type fuel >>= λ more. return (bound ∷ more ∷ [])

  unfoldable pub constraints_at : Bool → Parse (List TypeExpr)
  unfolding advance parse_type check second_at
  constraints_at false = return []
  constraints_at true =
      advance >>= λ sign. parse_type fuel >>= λ bound. check plus >>= second_at bound

  unfoldable pub param_behind :
      (List TypeParam → Parse (List TypeParam)) → List TypeParam → Bool → Parse (List TypeParam)
  param_behind loop params true = loop params
  param_behind loop params false = return params

  -- The loop of `parse_type_params`, on fuel.
  unfoldable pub params_loop : ℕ → List TypeParam → Parse (List TypeParam)
  unfolding peek_span expect_ident check constraints_at merge eat param_behind
  params_loop zero params = stuck
  params_loop (suc f) params = peek_span >>= λ start. expect_ident >>= λ found.
      check colon >>= constraints_at >>= λ bounds. peek_span >>= λ stop.
      eat comma
      >>= param_behind (params_loop f) (
          params
          ++ (record { name = or_else "" found; constraints = bounds; span = merge start stop }
              ∷ []))

  unfoldable pub params_at : Bool → Parse (List TypeParam)
  unfolding advance params_loop expect
  params_at false = return []
  params_at true =
      advance >>= λ angle. params_loop fuel [] >>= λ params. expect gt >>= λ close. return params

  unfoldable pub parse_type_params : Parse (List TypeParam)
  unfolding check params_at
  parse_type_params = check lt >>= params_at
