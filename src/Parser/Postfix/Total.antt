-- ===== src/Parser/Postfix/Total.antt =====
-- Call arguments and postfix operators have a result on every stream that ends with `eof`.
use tyra.Prelude.{
  ℕ, suc, zero, ◌<◌, sym, subst, ◌⊎◌, inl, inr, refl, Bool, true, false, Option, some, none, List,
  [], ◌∷◌, String, arith,
}
use tyra.Diagnostics.Span.{Span}
use tyra.Syntax.Token.{
  TokenKind, Token, discriminant, colon, l_paren, r_paren, l_bracket, r_bracket, dot, question,
  colon_colon, lt, gt, ident, kw_await, kw_value, kw_data, kw_type, kw_trait, kw_impl,
}
use tyra.Syntax.TokenStream.{matches}
use tyra.Syntax.KindName.{keyword_as_ident}
use tyra.Parser.Parse.{Parse, ◌>>=◌, check, advance}
use tyra.Parser.Parse.Runs.{Runs, Moves, return-Runs, Runs-bind, Moves-bind}
use tyra.Parser.Parse.Steps.{advance-Runs, expect-Runs, complain-Runs}
use tyra.Parser.Parse.Behind.{
  Runs-peek_span_then, Moves-peek_span_then, Runs-peek_then, Moves-peek_then, Moves-advance_then,
  Runs-check_then, Runs-checked_then,
}
use tyra.Parser.Parse.Newlines.{Moves-colon_ahead_then}
use tyra.Parser.Parse.Seen.{Steps, Steps-Moves, Steps-bind, Steps-expect_then, Runs-peek_kind_then}
use tyra.Parser.Commas.{parse_comma_separated, parse_comma_separated-Runs}
use tyra.Parser.TypeExpr.{or_else, parse_type}
use tyra.Parser.TypeExpr.Total.{parse_type-Runs, parse_type-Moves, args_loop-Runs}
use tyra.Parser.Ast.{Expr}
use tyra.Parser.Parts.{Parts, Prec}
use tyra.Parser.Parts.IsTotal.{IsTotal}
use tyra.Parser.Postfix.{
  label_of, parse_expr, value_of, plain_arg, label_at, expr_arg, keyword_arg, arg_at, parse_arg,
  parse_call_args, field, keyword_field, no_field, dot_at, turbofish, index_of, call_of, propagated,
  postfix_at, parse_postfix,
}

module _ (tokens : List Token) (f : ℕ) (sub : Parts) (total : IsTotal tokens f sub) where
  pub parse_expr-Runs : (n : ℕ) → n < f → Runs tokens n (parse_expr sub (suc f))
  unfolding parse_expr
  parse_expr-Runs n small = total.expr_prec-Runs Prec.none n small

  pub parse_expr-Moves : (n : ℕ) → suc n < f → Moves tokens n (parse_expr sub (suc f))
  unfolding parse_expr
  parse_expr-Moves n small = total.expr_prec-Moves Prec.none n small

  module _ (start : Span) where
    value_of-Runs :
        (label : Option String) (n : ℕ) → n < f → Runs tokens n (value_of sub (suc f) start label)
    unfolding value_of
    value_of-Runs label n small =
        Runs-bind tokens n _ _ (parse_expr-Runs n small) (λ value. return-Runs tokens n _)

    label_at-Runs :
        (first : Expr) (label : Option String) (n : ℕ)
        → n < f
        → Runs tokens n (check colon >>= label_at sub (suc f) start first label)
    unfolding label_at plain_arg matches discriminant
    label_at-Runs first (some label) n small =
        Runs-check_then tokens n colon _ refl (return-Runs tokens n _) (λ j q.
          Moves-advance_then tokens j _ (λ sign. value_of-Runs (some label) j (omega arith)))
    label_at-Runs first none n small =
        Runs-checked_then tokens n colon _ (λ b. return-Runs tokens n _)

    expr_arg-Moves : (n : ℕ) → suc n < f → Moves tokens n (expr_arg sub (suc f) start)
    unfolding expr_arg
    expr_arg-Moves n small =
        Moves-bind tokens n _ _ (parse_expr-Moves n small)
          (λ first. label_at-Runs first (label_of first) n (omega arith))

    keyword_arg-Moves :
        (name : String) (b : Bool) (n : ℕ)
        → suc n < f
        → Moves tokens n (keyword_arg sub (suc f) start name b)
    unfolding keyword_arg
    keyword_arg-Moves name true n small = Moves-advance_then tokens n _ (λ keyword.
        Runs-bind tokens n _ _ (advance-Runs tokens n)
          (λ sign. value_of-Runs (some name) n (omega arith)))
    keyword_arg-Moves name false n small = expr_arg-Moves n small

    arg_at-Moves :
        (name : Option String) (n : ℕ) → suc n < f → Moves tokens n (arg_at sub (suc f) start name)
    unfolding arg_at
    arg_at-Moves (some name) n small =
        Moves-colon_ahead_then tokens n _ (λ b. keyword_arg-Moves name b n small)
    arg_at-Moves none n small = expr_arg-Moves n small

  parse_arg-Moves : (n : ℕ) → suc n < f → Moves tokens n (parse_arg sub (suc f))
  unfolding parse_arg
  parse_arg-Moves n small = Moves-peek_span_then tokens n _ (λ start.
      Moves-peek_then tokens n _ (λ kind. arg_at-Moves start (keyword_as_ident kind) n small))

  args-Runs :
      (n : ℕ)
      → n < f
      → Runs tokens n (parse_comma_separated r_paren (parse_arg sub (suc f)) (suc f) [])
  args-Runs n small =
      parse_comma_separated-Runs tokens r_paren (parse_arg sub (suc f)) f parse_arg-Moves (suc f) n
        [] (omega arith) small

  parse_call_args-Steps : (n : ℕ) → n < f → Steps tokens l_paren n (parse_call_args sub (suc f))
  unfolding parse_call_args matches discriminant
  parse_call_args-Steps n small = Steps-expect_then tokens l_paren n _ refl (λ paren.
      Runs-bind tokens n _ _ (args-Runs n small) (λ args.
        Runs-bind tokens n _ _ (expect-Runs tokens n r_paren) (λ close. return-Runs tokens n _)))

  parse_call_args-Runs : (n : ℕ) → n < f → Runs tokens n (parse_call_args sub (suc f))
  unfolding parse_call_args
  parse_call_args-Runs n small = Runs-bind tokens n _ _ (expect-Runs tokens n l_paren) (λ paren.
      Runs-bind tokens n _ _ (args-Runs n small) (λ args.
        Runs-bind tokens n _ _ (expect-Runs tokens n r_paren) (λ close. return-Runs tokens n _)))

  -- Behind the operator the loop goes on.
  module _ (n : ℕ) (small : n < f) (loop : Expr → Parse Expr)
      (again : (e : Expr) → Runs tokens n (loop e)) (e : Expr) where
    then_loop-Runs : (k : Token → Expr) → Runs tokens n (advance >>= λ t. loop (k t))
    then_loop-Runs k = Runs-bind tokens n _ _ (advance-Runs tokens n) (λ t. again _)

    field-Runs : (name : String) → Runs tokens n (field sub (suc f) loop e name)
    unfolding field
    field-Runs name = then_loop-Runs _

    no_field-Runs : Runs tokens n (no_field sub (suc f) loop e)
    unfolding no_field
    no_field-Runs = Runs-peek_span_then tokens n _ (λ span.
        Runs-bind tokens n _ _ (complain-Runs tokens n _ _ span _) (λ u. return-Runs tokens n e))

    dot_at-Runs : (kind : TokenKind) → Runs tokens n (dot_at sub (suc f) loop e kind)
    unfolding dot_at keyword_field
    dot_at-Runs kw_await = then_loop-Runs _
    dot_at-Runs (ident name) = field-Runs name
    dot_at-Runs kw_value = field-Runs (or_else "" (keyword_as_ident kw_value))
    dot_at-Runs kw_data = field-Runs (or_else "" (keyword_as_ident kw_data))
    dot_at-Runs kw_type = field-Runs (or_else "" (keyword_as_ident kw_type))
    dot_at-Runs kw_trait = field-Runs (or_else "" (keyword_as_ident kw_trait))
    dot_at-Runs kw_impl = field-Runs (or_else "" (keyword_as_ident kw_impl))
    dot_at-Runs kind = no_field-Runs

    turbofish-Moves : Moves tokens n (turbofish sub (suc f) loop e)
    unfolding turbofish
    turbofish-Moves = Moves-advance_then tokens n _ (λ sign.
        Runs-bind tokens n _ _ (expect-Runs tokens n lt) (λ angle.
          Runs-bind tokens n _ _ (parse_type-Runs tokens (suc f) n (omega arith)) (λ t.
            Runs-bind tokens n _ _
              (args_loop-Runs tokens (suc f) (parse_type (suc f)) (parse_type-Runs tokens (suc f))
                (parse_type-Moves tokens (suc f)) (suc f) n (t ∷ []) (omega arith) (omega arith))
              (λ types. Runs-bind tokens n _ _ (expect-Runs tokens n gt) (λ close.
                Runs-bind tokens n _ _ (parse_call_args-Runs n small)
                  (λ args. Runs-peek_span_then tokens n _ (λ stop. again _)))))))

    index_of-Moves : Moves tokens n (index_of sub (suc f) loop e)
    unfolding index_of
    index_of-Moves = Moves-advance_then tokens n _ (λ bracket.
        Runs-bind tokens n _ _ (parse_expr-Runs n small) (λ index.
          Runs-peek_span_then tokens n _
            (λ stop. Runs-bind tokens n _ _ (expect-Runs tokens n r_bracket) (λ close. again _))))

    call_of-Steps : Steps tokens l_paren n (call_of sub (suc f) loop e)
    unfolding call_of
    call_of-Steps =
        Steps-bind tokens l_paren n _ _ (parse_call_args-Steps n small)
          (λ args. Runs-peek_span_then tokens n _ (λ stop. again _))

    -- An operator brings the loop closer to the end; without one it ends.
    postfix_at-ends :
        (kind : TokenKind)
        → Steps tokens kind n (postfix_at sub (suc f) loop e kind)
          ⊎ Runs tokens (suc n) (postfix_at sub (suc f) loop e kind)
    unfolding postfix_at propagated
    postfix_at-ends dot = inl (
        Steps-Moves tokens dot n _
          (Moves-advance_then tokens n _ (λ point. Runs-peek_then tokens n _ dot_at-Runs)))
    postfix_at-ends question =
        inl (Steps-Moves tokens question n _ (Moves-advance_then tokens n _ (λ last. again _)))
    postfix_at-ends l_paren = inl call_of-Steps
    postfix_at-ends colon_colon = inl (Steps-Moves tokens colon_colon n _ turbofish-Moves)
    postfix_at-ends l_bracket = inl (Steps-Moves tokens l_bracket n _ index_of-Moves)
    postfix_at-ends kind = inr (return-Runs tokens (suc n) e)

  -- The loop over postfix operators ends.
  pub parse_postfix-Runs :
      (g n : ℕ) (e : Expr) → n < g → n < suc f → Runs tokens n (parse_postfix sub (suc f) g e)
  unfolding parse_postfix postfix_at
  parse_postfix-Runs zero n e l small = absurd (omega arith)
  parse_postfix-Runs (suc g) n e l small =
      Runs-peek_kind_then tokens n _ (return-Runs tokens 0 e) (λ j q kind.
        subst
          (λ n.
            Steps tokens kind j (postfix_at sub (suc f) (parse_postfix sub (suc f) g) e kind)
            ⊎ Runs tokens n (postfix_at sub (suc f) (parse_postfix sub (suc f) g) e kind))
          (sym q)
          (postfix_at-ends j (omega arith) (parse_postfix sub (suc f) g)
            (λ e. parse_postfix-Runs g j e (omega arith) (omega arith)) e kind))
