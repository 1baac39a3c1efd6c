-- ===== src/Parser/Param/Total.antt =====
-- Parameters have a result on every stream that ends with `eof`: the fuel is enough.
use tyra.Prelude.{ℕ, suc, ◌<◌, refl, Bool, true, false, Option, some, none, List, [], String, arith}
use tyra.Diagnostics.Span.{Span}
use tyra.Syntax.Token.{Token, discriminant, colon, arrow, r_paren}
use tyra.Syntax.TokenStream.{matches}
use tyra.Parser.Parse.Runs.{Runs, Moves, return-Runs, Runs-bind, Moves-bind, Moves-behind}
use tyra.Parser.Parse.Steps.{expect-Runs}
use tyra.Parser.Parse.Behind.{
  Moves-peek_span_then, Runs-peek_then, Moves-peek_then, Moves-advance_then, Runs-check_then,
}
use tyra.Parser.Parse.Newlines.{expect_ident_or_field_keyword-Runs}
use tyra.Parser.Commas.{parse_comma_separated-Runs}
use tyra.Parser.TypeExpr.{or_else}
use tyra.Parser.TypeExpr.Total.{parse_type-Runs, parse_type-Moves}
use tyra.Parser.Param.{
  type_behind, parse_optional_type_annotation, return_type, typed, named_param, labelled, param_at,
  parse_param, parse_params, is_ident, any_ident,
}

module _ (tokens : List Token) (f : ℕ) where
  type_behind-Moves : (n : ℕ) → n < f → Moves tokens n (type_behind f true)
  unfolding type_behind
  type_behind-Moves n small = Moves-advance_then tokens n _ (λ sign.
      Runs-bind tokens n _ _ (parse_type-Runs tokens f n small) (λ t. return-Runs tokens n _))

  pub annotation-Runs : (n : ℕ) → n < f → Runs tokens n (parse_optional_type_annotation f)
  unfolding parse_optional_type_annotation type_behind matches discriminant
  annotation-Runs n small =
      Runs-check_then tokens n colon _ refl (return-Runs tokens n _)
        (λ j q. type_behind-Moves j (omega arith))

  pub return_type-Runs : (n : ℕ) → n < f → Runs tokens n (return_type f)
  unfolding return_type type_behind matches discriminant
  return_type-Runs n small =
      Runs-check_then tokens n arrow _ refl (return-Runs tokens n _)
        (λ j q. type_behind-Moves j (omega arith))

  module _ (start : Span) where
    typed-Runs :
        (label : Option String) (name : String) (n : ℕ)
        → n < f
        → Runs tokens n (typed f start label name)
    unfolding typed
    typed-Runs label name n small = Runs-bind tokens n _ _ (expect-Runs tokens n colon) (λ sign.
        Runs-bind tokens n _ _ (parse_type-Runs tokens f n small) (λ t. return-Runs tokens n _))

    named_param-Runs :
        (label : Option String) (n : ℕ) → n < f → Runs tokens n (named_param f start label)
    unfolding named_param
    named_param-Runs label n small =
        Runs-bind tokens n _ _ (expect_ident_or_field_keyword-Runs tokens n)
          (λ name. typed-Runs label (or_else "" name) n small)

    labelled-Runs :
        (first : String) (b : Bool) (n : ℕ) → n < f → Runs tokens n (labelled f start first b)
    unfolding labelled
    labelled-Runs first true n small = named_param-Runs (some first) n small
    labelled-Runs first false n small = typed-Runs (some first) first n small

    typed-Moves :
        (label : Option String) (name : String) (n : ℕ)
        → suc n < f
        → Moves tokens n (typed f start label name)
    unfolding typed
    typed-Moves label name n small =
        Moves-behind tokens n _ _ (expect-Runs tokens (suc n) colon)
          (λ sign.
            Runs-bind tokens n _ _ (parse_type-Runs tokens f n (omega arith))
              (λ t. return-Runs tokens n _))
          (λ sign.
            Moves-bind tokens n _ _ (parse_type-Moves tokens f n small)
              (λ t. return-Runs tokens n _))

    named_param-Moves :
        (label : Option String) (n : ℕ) → suc n < f → Moves tokens n (named_param f start label)
    unfolding named_param
    named_param-Moves label n small =
        Moves-behind tokens n _ _ (expect_ident_or_field_keyword-Runs tokens (suc n))
          (λ name. typed-Runs label (or_else "" name) n (omega arith))
          (λ name. typed-Moves label (or_else "" name) n small)

    labelled-Moves :
        (first : String) (b : Bool) (n : ℕ) → suc n < f → Moves tokens n (labelled f start first b)
    unfolding labelled
    labelled-Moves first true n small = named_param-Moves (some first) n small
    labelled-Moves first false n small = typed-Moves (some first) first n small

    param_at-Moves : (b : Bool) (n : ℕ) → suc n < f → Moves tokens n (param_at f start b)
    unfolding param_at
    param_at-Moves true n small =
        Moves-advance_then tokens n _ (λ token. named_param-Runs none n (omega arith))
    param_at-Moves false n small =
        Moves-behind tokens n _ _ (expect_ident_or_field_keyword-Runs tokens (suc n))
          (λ first.
            Runs-peek_then tokens n _
              (λ kind. labelled-Runs (or_else "" first) (any_ident kind) n (omega arith)))
          (λ first.
            Moves-peek_then tokens n _
              (λ kind. labelled-Moves (or_else "" first) (any_ident kind) n small))

  parse_param-Moves : (n : ℕ) → suc n < f → Moves tokens n (parse_param f)
  unfolding parse_param
  parse_param-Moves n small = Moves-peek_span_then tokens n _ (λ start.
      Moves-peek_then tokens n _ (λ kind. param_at-Moves start (is_ident "_" kind) n small))

  -- With more fuel than tokens ahead `parse_params` has a result.
  pub parse_params-Runs : (n : ℕ) → n < f → Runs tokens n (parse_params f)
  unfolding parse_params
  parse_params-Runs n small =
      parse_comma_separated-Runs tokens r_paren (parse_param f) f parse_param-Moves f n [] small
        small
