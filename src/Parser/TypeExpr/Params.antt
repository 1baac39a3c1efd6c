-- ===== src/Parser/TypeExpr/Params.antt =====
-- Type parameters have a result on every stream that ends with `eof`.
use tyra.Prelude.{ℕ, zero, suc, ◌<◌, refl, List, [], arith}
use tyra.Syntax.Token.{Token, discriminant, comma, lt, gt, plus, colon}
use tyra.Syntax.TokenStream.{matches}
use tyra.Types.Written.{TypeExpr}
use tyra.Parser.Parse.{◌>>=◌, check}
use tyra.Parser.Parse.Runs.{Runs, return-Runs, Runs-bind}
use tyra.Parser.Parse.Steps.{expect-Runs, expect_ident-Runs}
use tyra.Parser.Parse.Behind.{
  Runs-peek_span_then, Moves-advance_then, Runs-check_then, Runs-eat_then,
}
use tyra.Parser.Ast.{TypeParam}
use tyra.Parser.TypeExpr.{
  second_at, constraints_at, param_behind, params_loop, params_at, parse_type_params,
}
use tyra.Parser.TypeExpr.Total.{parse_type-Runs}

module _ (tokens : List Token) where
  module _ (f : ℕ) where
    second_at-Runs :
        (n : ℕ) → n < f → (bound : TypeExpr) → Runs tokens n (check plus >>= second_at f bound)
    unfolding second_at matches discriminant
    second_at-Runs n small bound =
        Runs-check_then tokens n plus _ refl (return-Runs tokens n _) (λ j q.
          Moves-advance_then tokens j _ (λ sign.
            Runs-bind tokens j _ _ (parse_type-Runs tokens f j (omega arith))
              (λ more. return-Runs tokens j _)))

    constraints_at-Runs : (n : ℕ) → n < f → Runs tokens n (check colon >>= constraints_at f)
    unfolding constraints_at matches discriminant
    constraints_at-Runs n small =
        Runs-check_then tokens n colon _ refl (return-Runs tokens n _) (λ j q.
          Moves-advance_then tokens j _ (λ sign.
            Runs-bind tokens j _ _ (parse_type-Runs tokens f j (omega arith))
              (second_at-Runs j (omega arith))))

    params_loop-Runs :
        (g n : ℕ)
        → n < g
        → n < f
        → (params : List TypeParam) → Runs tokens n (params_loop f g params)
    unfolding params_loop param_behind matches discriminant
    params_loop-Runs zero n l small params = absurd (omega arith)
    params_loop-Runs (suc g) n l small params = Runs-peek_span_then tokens n _ (λ start.
        Runs-bind tokens n _ _ (expect_ident-Runs tokens n) (λ found.
          Runs-bind tokens n _ _ (constraints_at-Runs n small) (λ bounds.
            Runs-peek_span_then tokens n _ (λ stop.
              Runs-eat_then tokens n comma _ refl (return-Runs tokens n _)
                (λ j q. params_loop-Runs g j (omega arith) (omega arith) _)))))

    -- With more fuel than tokens ahead `parse_type_params` has a result.
    pub parse_type_params-Runs : (n : ℕ) → n < f → Runs tokens n (parse_type_params f)
    unfolding parse_type_params params_at matches discriminant
    parse_type_params-Runs n small =
        Runs-check_then tokens n lt _ refl (return-Runs tokens n _) (λ j q.
          Moves-advance_then tokens j _ (λ angle.
            Runs-bind tokens j _ _ (params_loop-Runs f j (omega arith) (omega arith) []) (λ params.
              Runs-bind tokens j _ _ (expect-Runs tokens j gt) (λ close. return-Runs tokens j _))))
