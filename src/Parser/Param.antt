-- ===== src/Parser/Param.antt =====
-- compiler/crates/tyra-parser/src/decl.rs: parameters; src/stmt.rs: `parse_optional_type_annotation`.
pub mod Total
use tyra.Prelude.{
  ℕ, zero, suc, Bool, true, false, Option, none, some, List, [], ◌∷◌, ◌++◌, String, ◌==◌, string_eq,
}
use tyra.Diagnostics.Span.{Span, merge}
use tyra.Syntax.Token.{TokenKind, ident, colon, arrow, r_paren}
use tyra.Types.Written.{TypeExpr}
use tyra.Parser.Parse.{
  Parse, return, ◌>>=◌, peek_span, peek, check, advance, expect, expect_ident_or_field_keyword,
}
use tyra.Parser.Commas.{parse_comma_separated}
use tyra.Parser.Ast.{Param}
use tyra.Parser.TypeExpr.{parse_type, span_of, or_else}

unfoldable pub is_ident : String → TokenKind → Bool
is_ident text (ident name) = name == text
is_ident text kind = false

unfoldable pub any_ident : TokenKind → Bool
any_ident (ident name) = true
any_ident kind = false

-- Behind a token, a type.
module _ (fuel : ℕ) where
  unfoldable pub type_behind : Bool → Parse (Option TypeExpr)
  unfolding advance
  type_behind true = advance >>= λ sign. parse_type fuel >>= λ t. return (some t)
  type_behind false = return none

  unfoldable pub parse_optional_type_annotation : Parse (Option TypeExpr)
  unfolding check type_behind
  parse_optional_type_annotation = check colon >>= type_behind

  unfoldable pub return_type : Parse (Option TypeExpr)
  unfolding check type_behind
  return_type = check arrow >>= type_behind

  -- A name, a colon and a type.
  unfoldable pub typed : Span → Option String → String → Parse Param
  unfolding expect merge
  typed start label name = expect colon >>= λ sign. parse_type fuel >>= λ annotation.
      return (record {
        label = label;
        name = name;
        type_annotation = annotation;
        span = merge start (span_of annotation);
      })

  unfoldable pub named_param : Span → Option String → Parse Param
  unfolding expect_ident_or_field_keyword typed
  named_param start label =
      expect_ident_or_field_keyword >>= λ name. typed start label (or_else "" name)

  -- Behind the first name.
  unfoldable pub labelled : Span → String → Bool → Parse Param
  unfolding named_param typed
  labelled start first true = named_param start (some first)
  labelled start first false = typed start (some first) first

  unfoldable pub param_at : Span → Bool → Parse Param
  unfolding advance named_param expect_ident_or_field_keyword peek any_ident labelled
  param_at start true = advance >>= λ token. named_param start none
  param_at start false = expect_ident_or_field_keyword >>= λ first.
      peek >>= λ kind. labelled start (or_else "" first) (any_ident kind)

  unfoldable pub parse_param : Parse Param
  unfolding peek_span peek is_ident param_at
  parse_param = peek_span >>= λ start. peek >>= λ kind. param_at start (is_ident "_" kind)

  unfoldable pub parse_params : Parse (List Param)
  unfolding parse_comma_separated parse_param
  parse_params = parse_comma_separated r_paren parse_param fuel []
