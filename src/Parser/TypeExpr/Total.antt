-- ===== src/Parser/TypeExpr/Total.antt =====
-- The parsers of types have a result on every stream that ends with `eof`: the fuel is enough.
use tyra.Prelude.{
  ℕ, zero, suc, ◌<◌, refl, true, false, List, [], ◌∷◌, ◌++◌, String, arith, length, ltb,
  if◌then◌else◌,
}
use tyra.Diagnostics.Span.{Span}
use tyra.Syntax.Token.{
  TokenKind, Token, discriminant, r_paren, comma, l_paren, kw_fn, ident, dot, lt, gt, arrow,
}
use tyra.Syntax.TokenStream.{matches}
use tyra.Types.Written.{TypeExpr}
use tyra.Parser.Parse.{Parse, return, ◌>>=◌, check, complain}
use tyra.Parser.Parse.Runs.{Runs, Moves, return-Runs, Runs-split, Runs-bind}
use tyra.Parser.Parse.Steps.{advance-Runs, expect-Runs, complain-Runs, expect_ident-Runs}
use tyra.Parser.Parse.Behind.{
  Runs-peek_span_then, Moves-peek_span_then, Runs-end_then, Moves-peek_then, Moves-advance_then,
  Runs-check_then, Runs-eat_then,
}
use tyra.Parser.Commas.{parse_comma_separated-Runs}
use tyra.Parser.TypeExpr.{
  arg_at, args_loop, two_or_more, tuple_type, fn_type, qualified, generic_at, named_type, no_type,
  type_at, parse_type,
}

module _ (tokens : List Token) where
  two_or_more-Runs :
      (n : ℕ) (elems : List TypeExpr) (start : Span) → Runs tokens n (two_or_more elems start)
  unfolding two_or_more
  two_or_more-Runs n elems start =
      elim (ltb (length elems) 2)
        as (λ b. Runs tokens n (
          if b
          then complain "tuple type requires 2 or more elements" "E0316" start "tuple type here"
          else return tt)) [
            | true ↦ complain-Runs tokens n _ _ start _
            | false ↦ return-Runs tokens n tt
          ]

  no_type-Moves : (n : ℕ) (start : Span) → Moves tokens n (no_type start)
  unfolding no_type
  no_type-Moves n start = Moves-advance_then tokens n _ (λ token.
      Runs-bind tokens n _ _ (complain-Runs tokens n _ _ token.span _)
        (λ u. return-Runs tokens n _))

  qualified-Runs : (n : ℕ) (name : String) → Runs tokens n (check dot >>= qualified name)
  unfolding qualified matches discriminant
  qualified-Runs n name = Runs-check_then tokens n dot _ refl (return-Runs tokens n name) (λ j q.
      Moves-advance_then tokens j _ (λ point.
        Runs-bind tokens j _ _ (expect_ident-Runs tokens j) (λ last. return-Runs tokens j _)))

  -- The parser for the parts: it has a result where there are fewer tokens ahead than fuel.
  module _ (f : ℕ) (part : Parse TypeExpr) (total : (n : ℕ) → n < f → Runs tokens n part)
      (moving : (n : ℕ) → suc n < f → Moves tokens n part) where
    pub args_loop-Runs :
        (g n : ℕ) (args : List TypeExpr) → n < g → n < f → Runs tokens n (args_loop part g args)
    unfolding args_loop arg_at matches discriminant
    args_loop-Runs zero n args l small = absurd (omega arith)
    args_loop-Runs (suc g) n args l small =
        Runs-eat_then tokens n comma _ refl (return-Runs tokens n args) (λ j q.
          Runs-bind tokens j part _ (total j (omega arith))
            (λ t. args_loop-Runs g j (args ++ (t ∷ [])) (omega arith) (omega arith)))

    module _ (n : ℕ) (small : n < f) (start : Span) where
      tuple_type-Moves : Moves tokens n (tuple_type part f start)
      unfolding tuple_type
      tuple_type-Moves = Moves-advance_then tokens n _ (λ paren.
          Runs-bind tokens n _ _
            (parse_comma_separated-Runs tokens r_paren part f moving f n [] small small)
            (λ elems. Runs-peek_span_then tokens n _ (λ stop.
              Runs-bind tokens n _ _ (expect-Runs tokens n r_paren) (λ close.
                Runs-bind tokens n _ _ (two_or_more-Runs n elems start)
                  (λ u. return-Runs tokens n _)))))

      fn_type-Moves : Moves tokens n (fn_type part f start)
      unfolding fn_type
      fn_type-Moves = Moves-advance_then tokens n _ (λ keyword.
          Runs-bind tokens n _ _ (expect-Runs tokens n l_paren) (λ paren.
            Runs-bind tokens n _ _
              (parse_comma_separated-Runs tokens r_paren part f moving f n [] small small)
              (λ params. Runs-bind tokens n _ _ (expect-Runs tokens n r_paren) (λ close.
                Runs-bind tokens n _ _ (expect-Runs tokens n arrow)
                  (λ to. Runs-bind tokens n _ _ (total n small) (λ ret. return-Runs tokens n _))))))

      generic_at-Runs : (name : String) → Runs tokens n (generic_at part f start name false)
      unfolding generic_at
      generic_at-Runs name = return-Runs tokens n _

      -- The list of type arguments.
      generic_at-Moves :
          (j : ℕ) → j < f → (name : String) → Moves tokens j (generic_at part f start name true)
      unfolding generic_at
      generic_at-Moves j l name = Moves-advance_then tokens j _ (λ angle.
          Runs-bind tokens j _ _ (total j l) (λ arg.
            Runs-bind tokens j _ _ (args_loop-Runs f j (arg ∷ []) l l) (λ args.
              Runs-peek_span_then tokens j _ (λ stop.
                Runs-bind tokens j _ _ (expect-Runs tokens j gt)
                  (λ close. return-Runs tokens j _)))))

      named_type-Moves : (name : String) → Moves tokens n (named_type part f start name)
      unfolding named_type matches discriminant
      named_type-Moves name = Moves-advance_then tokens n _ (λ first.
          Runs-bind tokens n _ _ (qualified-Runs n name) (λ last.
            Runs-check_then tokens n lt _ refl (generic_at-Runs last)
              (λ j q. generic_at-Moves j (omega arith) last)))

      type_at-Moves : (kind : TokenKind) → Moves tokens n (type_at part f start kind)
      unfolding type_at
      type_at-Moves l_paren = tuple_type-Moves
      type_at-Moves kw_fn = fn_type-Moves
      type_at-Moves (ident name) = named_type-Moves name
      type_at-Moves kind = no_type-Moves n start

  no_type-Runs : (n : ℕ) (start : Span) → Runs tokens n (no_type start)
  unfolding no_type
  no_type-Runs n start = Runs-bind tokens n _ _ (advance-Runs tokens n) (λ token.
      Runs-bind tokens n _ _ (complain-Runs tokens n _ _ token.span _)
        (λ u. return-Runs tokens n _))

  -- With more fuel than tokens ahead `parse_type` has a result; with tokens ahead it comes closer to the
  -- end, and at the end it gives the type for an error.
  parse_type_total :
      (f : ℕ)
      → ((n : ℕ) → n < f → Runs tokens n (parse_type f))
        × ((n : ℕ) → suc n < f → Moves tokens n (parse_type f))
  unfolding parse_type type_at
  parse_type_total zero = ((λ n l. absurd (omega arith)), (λ n l. absurd (omega arith)))
  parse_type_total (suc f) =
      let (total, moving) = parse_type_total f in
      let more : (n : ℕ) → suc n < suc f → Moves tokens n (parse_type (suc f)) = λ n l.
        Moves-peek_span_then tokens n _ (λ start.
          Moves-peek_then tokens n _
            (type_at-Moves f (parse_type f) total moving n (omega arith) start)) in
      (
        (λ n l.
            Runs-split tokens n (parse_type (suc f))
              (Runs-peek_span_then tokens 0 _
                (λ start. Runs-end_then tokens _ (no_type-Runs 0 start)))
              (λ j q. more j (omega arith))),
        more,
      )

  pub parse_type-Runs : (f n : ℕ) → n < f → Runs tokens n (parse_type f)
  parse_type-Runs f = (parse_type_total f).0

  pub parse_type-Moves : (f n : ℕ) → suc n < f → Moves tokens n (parse_type f)
  parse_type-Moves f = (parse_type_total f).1
