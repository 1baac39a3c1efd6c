-- ===== src/Parser/Prefix/Total.antt =====
-- Prefix expressions have a result on every stream that ends with `eof` whose interpolated texts parse.
use tyra.Prelude.{ℕ, suc, ◌<◌, ◌≡◌, refl, Bool, Option, some, List, [], ◌∷◌, String, arith}
use tyra.Diagnostics.Span.{Span}
use tyra.Syntax.Token.{
  TokenKind, Token, InterpPart, discriminant, int, float, string, interp_string, raw_string, ident,
  kw_true, kw_false, kw_value, kw_data, kw_type, kw_trait, kw_impl, minus, kw_not, l_paren, r_paren,
  l_bracket, r_bracket, l_brace, r_brace, comma, colon, kw_if, kw_match, kw_for, kw_while, kw_spawn,
  kw_fn,
}
use tyra.Syntax.TokenStream.{matches}
use tyra.Parser.Parse.{◌>>=◌, eat}
use tyra.Parser.Parse.Runs.{Runs, Moves, return-Runs, Runs-bind, Moves-bind, Runs-split}
use tyra.Parser.Parse.Steps.{advance-Runs, expect-Runs, complain-Runs}
use tyra.Parser.Parse.Behind.{
  Runs-peek_span_then, Moves-peek_span_then, Runs-end_then, Moves-advance_then, Runs-check_then,
  Runs-eat_then,
}
use tyra.Parser.Parse.Newlines.{outcome-Runs}
use tyra.Parser.Parse.Seen.{Held, Moves-peek-Held_then}
use tyra.Parser.Commas.{parse_comma_separated-Runs}
use tyra.Parser.Ast.{Expr, ExprKind, StringPart, UnaryOp}
use tyra.Parser.Parts.{Parts, Prec}
use tyra.Parser.Parts.IsTotal.{IsTotal}
use tyra.Parser.Postfix.{parse_expr}
use tyra.Parser.Postfix.Total.{parse_expr-Runs, parse_expr-Moves}
use tyra.Parser.Control.Total.{
  parse_if-Moves, parse_match-Moves, parse_for-Moves, parse_while-Moves, parse_lambda-Moves,
}
use tyra.Parser.Prefix.{
  one_token, keyword_name, no_expr, string_parts, interpolated, unary, tuple_at, paren_at, paren,
  list, entry, map, spawned, prefix_at, parse_prefix,
}

-- The texts of an interpolated string parse.
unfoldable pub Fine : (String → Option Expr) → TokenKind → Type 0
Fine inner (interp_string parts) =
    (found : List StringPart) × (string_parts inner parts ≡ some found)
Fine inner kind = Unit

module _ (tokens : List Token) (n : ℕ) (start : Span) where
  one_token-Moves : (kind : ExprKind) → Moves tokens n (one_token kind start)
  unfolding one_token
  one_token-Moves kind = Moves-advance_then tokens n _ (λ token. return-Runs tokens n _)

  keyword_name-Moves : (kind : TokenKind) → Moves tokens n (keyword_name kind start)
  unfolding keyword_name
  keyword_name-Moves kind = one_token-Moves _

  no_expr-Runs : Runs tokens n (no_expr start)
  unfolding no_expr
  no_expr-Runs = Runs-bind tokens n _ _ (advance-Runs tokens n) (λ token.
      Runs-bind tokens n _ _ (complain-Runs tokens n _ _ token.span _)
        (λ u. return-Runs tokens n _))

  no_expr-Moves : Moves tokens n (no_expr start)
  unfolding no_expr
  no_expr-Moves = Moves-advance_then tokens n _ (λ token.
      Runs-bind tokens n _ _ (complain-Runs tokens n _ _ token.span _)
        (λ u. return-Runs tokens n _))

  interpolated-Moves :
      (inner : String → Option Expr) (parts : List InterpPart)
      → Fine inner (interp_string parts)
      → Moves tokens n (interpolated inner parts start)
  unfolding interpolated Fine
  interpolated-Moves inner parts fine = Moves-advance_then tokens n _ (λ token.
      Runs-bind tokens n _ _ (outcome-Runs tokens n fine.0 (string_parts inner parts) fine.1)
        (λ found. return-Runs tokens n _))

module _ (tokens : List Token) (is_uppercase : ℕ → Bool) (inner : String → Option Expr) (f : ℕ)
    (sub : Parts) (total : IsTotal tokens f sub) where
  module _ (n : ℕ) (l : n < f) (start : Span) where
    unary-Moves : (op : UnaryOp) → Moves tokens n (unary is_uppercase inner sub (suc f) op start)
    unfolding unary
    unary-Moves op = Moves-advance_then tokens n _ (λ sign.
        Runs-bind tokens n _ _ (total.expr_prec-Runs Prec.unary n l)
          (λ operand. return-Runs tokens n _))

    spawned-Moves : Moves tokens n (spawned is_uppercase inner sub (suc f) start)
    unfolding spawned
    spawned-Moves = Moves-advance_then tokens n _ (λ keyword.
        Runs-bind tokens n _ _ (total.expr_prec-Runs Prec.postfix n l)
          (λ call. return-Runs tokens n _))

    list-Moves : Moves tokens n (list is_uppercase inner sub (suc f) start)
    unfolding list
    list-Moves = Moves-advance_then tokens n _ (λ bracket.
        Runs-bind tokens n _ _
          (parse_comma_separated-Runs tokens r_bracket (parse_expr sub (suc f)) f
            (parse_expr-Moves tokens f sub total) (suc f) n [] (omega arith) l)
          (λ items. Runs-peek_span_then tokens n _ (λ stop.
            Runs-bind tokens n _ _ (expect-Runs tokens n r_bracket)
              (λ close. return-Runs tokens n _))))

  entry-Moves : (n : ℕ) → suc n < f → Moves tokens n (entry is_uppercase inner sub (suc f))
  unfolding entry
  entry-Moves n l = Moves-bind tokens n _ _ (parse_expr-Moves tokens f sub total n l) (λ key.
      Runs-bind tokens n _ _ (expect-Runs tokens n colon) (λ sign.
        Runs-bind tokens n _ _ (parse_expr-Runs tokens f sub total n (omega arith))
          (λ value. return-Runs tokens n _)))

  tuple-Runs :
      (n : ℕ)
      → n < f
      → (start : Span) (first : Expr)
      → Runs tokens n (eat comma >>= tuple_at is_uppercase inner sub (suc f) start first)
  unfolding tuple_at matches discriminant
  tuple-Runs n l start first =
      Runs-eat_then tokens n comma _ refl
        (Runs-bind tokens n _ _ (expect-Runs tokens n r_paren) (λ close. return-Runs tokens n _))
        (λ j q.
          Runs-bind tokens j _ _
            (parse_comma_separated-Runs tokens r_paren (parse_expr sub (suc f)) f
              (parse_expr-Moves tokens f sub total) (suc f) j (first ∷ []) (omega arith)
              (omega arith))
            (λ elems. Runs-peek_span_then tokens j _ (λ stop.
              Runs-bind tokens j _ _ (expect-Runs tokens j r_paren)
                (λ close. return-Runs tokens j _))))

  module _ (n : ℕ) (l : n < f) (start : Span) where
    map-Moves : Moves tokens n (map is_uppercase inner sub (suc f) start)
    unfolding map
    map-Moves = Moves-advance_then tokens n _ (λ brace.
        Runs-bind tokens n _ _
          (parse_comma_separated-Runs tokens r_brace (entry is_uppercase inner sub (suc f)) f
            entry-Moves (suc f) n [] (omega arith) l)
          (λ found. Runs-peek_span_then tokens n _ (λ stop.
            Runs-bind tokens n _ _ (expect-Runs tokens n r_brace)
              (λ close. return-Runs tokens n _))))

    paren-Moves : Moves tokens n (paren is_uppercase inner sub (suc f) start)
    unfolding paren paren_at matches discriminant
    paren-Moves = Moves-advance_then tokens n _ (λ open_paren.
        Runs-check_then tokens n r_paren _ refl
          (Runs-bind tokens n _ _ (parse_expr-Runs tokens f sub total n l)
            (λ first. tuple-Runs n l start first))
          (λ j q. Moves-advance_then tokens j _ (λ close. return-Runs tokens j _)))

    prefix_at-Moves :
        (kind : TokenKind)
        → Fine inner kind
        → Moves tokens n (prefix_at is_uppercase inner sub (suc f) start kind)
    unfolding prefix_at Fine
    prefix_at-Moves (int v) fine = one_token-Moves tokens n start _
    prefix_at-Moves (float v) fine = one_token-Moves tokens n start _
    prefix_at-Moves (string s) fine = one_token-Moves tokens n start _
    prefix_at-Moves (interp_string ps) fine = interpolated-Moves tokens n start inner ps fine
    prefix_at-Moves (raw_string s) fine = one_token-Moves tokens n start _
    prefix_at-Moves kw_true fine = one_token-Moves tokens n start _
    prefix_at-Moves kw_false fine = one_token-Moves tokens n start _
    prefix_at-Moves (ident name) fine = one_token-Moves tokens n start _
    prefix_at-Moves kw_value fine = keyword_name-Moves tokens n start kw_value
    prefix_at-Moves kw_data fine = keyword_name-Moves tokens n start kw_data
    prefix_at-Moves kw_type fine = keyword_name-Moves tokens n start kw_type
    prefix_at-Moves kw_trait fine = keyword_name-Moves tokens n start kw_trait
    prefix_at-Moves kw_impl fine = keyword_name-Moves tokens n start kw_impl
    prefix_at-Moves minus fine = unary-Moves n l start UnaryOp.neg
    prefix_at-Moves kw_not fine = unary-Moves n l start UnaryOp.not
    prefix_at-Moves l_paren fine = paren-Moves
    prefix_at-Moves l_bracket fine = list-Moves n l start
    prefix_at-Moves l_brace fine = map-Moves
    prefix_at-Moves kw_if fine =
        Moves-bind tokens n _ _ (parse_if-Moves tokens is_uppercase f sub total n l)
          (λ e. return-Runs tokens n _)
    prefix_at-Moves kw_match fine =
        Moves-bind tokens n _ _ (parse_match-Moves tokens is_uppercase f sub total n l)
          (λ e. return-Runs tokens n _)
    prefix_at-Moves kw_for fine =
        Moves-bind tokens n _ _ (parse_for-Moves tokens is_uppercase f sub total n l)
          (λ e. return-Runs tokens n _)
    prefix_at-Moves kw_while fine =
        Moves-bind tokens n _ _ (parse_while-Moves tokens is_uppercase f sub total n l)
          (λ e. return-Runs tokens n _)
    prefix_at-Moves kw_spawn fine = spawned-Moves n l start
    prefix_at-Moves kw_fn fine =
        Moves-bind tokens n _ _ (parse_lambda-Moves tokens is_uppercase f sub total n l)
          (λ e. return-Runs tokens n _)
    prefix_at-Moves kind fine = no_expr-Moves tokens n start

  module _ (fine : (kind : TokenKind) → Held tokens kind → Fine inner kind) where
    pub parse_prefix-Moves :
        (n : ℕ) → n < f → Moves tokens n (parse_prefix is_uppercase inner sub (suc f))
    unfolding parse_prefix
    parse_prefix-Moves n l = Moves-peek-Held_then tokens n _ (λ kind held.
        Moves-peek_span_then tokens n _ (λ start. prefix_at-Moves n l start kind (fine kind held)))

    pub parse_prefix-Runs :
        (n : ℕ) → n < suc f → Runs tokens n (parse_prefix is_uppercase inner sub (suc f))
    unfolding parse_prefix prefix_at
    parse_prefix-Runs n l =
        Runs-split tokens n (parse_prefix is_uppercase inner sub (suc f))
          (Runs-end_then tokens _
            (Runs-peek_span_then tokens 0 _ (λ start. no_expr-Runs tokens 0 start)))
          (λ j q. parse_prefix-Moves j (omega arith))
