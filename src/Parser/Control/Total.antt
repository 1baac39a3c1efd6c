-- ===== src/Parser/Control/Total.antt =====
-- Control flow and lambdas have a result on every stream that ends with `eof`.
use tyra.Prelude.{
  ℕ, suc, zero, ◌<◌, refl, Bool, true, false, List, [], ◌∷◌, ◌++◌, String, arith, length, ltb,
  if◌then◌else◌,
}
use tyra.Diagnostics.Span.{Span}
use tyra.Syntax.Token.{
  Token, discriminant, eof, comma, l_paren, r_paren, kw_else, kw_if, kw_end, kw_when, kw_in,
}
use tyra.Syntax.TokenStream.{matches}
use tyra.Parser.Parse.{Parse, return, ◌>>=◌, check, complain, expect, peek_span}
use tyra.Parser.Parse.Runs.{Runs, Moves, return-Runs, Runs-bind, Moves-bind}
use tyra.Parser.Parse.Steps.{expect-Runs, expect_ident-Runs, complain-Runs}
use tyra.Parser.Parse.Behind.{
  Runs-peek_span_then, Moves-advance_then, Runs-check_then, Runs-checked_then, Runs-eat_then,
}
use tyra.Parser.Parse.Newlines.{skip_newlines-Runs, eat_newline-Runs, expect_newline_or_eof-Runs}
use tyra.Parser.TypeExpr.{or_else}
use tyra.Parser.Pattern.Total.{parse_pattern-Runs}
use tyra.Parser.Param.Total.{parse_params-Runs, return_type-Runs}
use tyra.Parser.Ast.{MatchArm, Stmt}
use tyra.Parser.Parts.{Parts}
use tyra.Parser.Parts.IsTotal.{IsTotal}
use tyra.Parser.Postfix.Total.{parse_expr-Runs}
use tyra.Parser.Control.{
  name_behind, names_loop, two_or_more, tuple_names, second_at, bindings_at, inline_body, then_at,
  block_form, then_body, else_branch, else_at, parse_if, parse_match_arm, arm_at, arms_loop,
  parse_match, parse_for, parse_while, parse_lambda,
}

module _ (tokens : List Token) where
  two_or_more-Runs :
      (n : ℕ) (names : List String) (start : Span) → Runs tokens n (two_or_more names start)
  unfolding two_or_more
  two_or_more-Runs n names start =
      elim (ltb (length names) 2)
        as (λ b. Runs tokens n (
          if b
          then complain "tuple destructure requires 2 or more bindings" "E0316" start
              "tuple destructure here"
          else return tt)) [
            | true ↦ complain-Runs tokens n _ _ start _
            | false ↦ return-Runs tokens n tt
          ]

  behind_comma-Runs :
      (n : ℕ) (loop : List String → Parse (List String)) (names : List String)
      → ((names : List String) → Runs tokens n (loop names))
      → Runs tokens n (name_behind loop names true)
  unfolding name_behind
  behind_comma-Runs n loop names again = Runs-checked_then tokens n r_paren _ (λ b. Runs-if b names)
    where
      Runs-if :
          (b : Bool) (names : List String) → Runs tokens n (if b then return names else loop names)
      Runs-if true names = return-Runs tokens n names
      Runs-if false names = again names

  names_loop-Runs : (g n : ℕ) (names : List String) → n < g → Runs tokens n (names_loop g names)
  unfolding names_loop name_behind matches discriminant
  names_loop-Runs zero n names l = absurd (omega arith)
  names_loop-Runs (suc g) n names l = Runs-bind tokens n _ _ (expect_ident-Runs tokens n) (λ name.
      Runs-eat_then tokens n comma _ refl (return-Runs tokens n _) (λ j q.
        behind_comma-Runs j (names_loop g) _ (λ names. names_loop-Runs g j names (omega arith))))

  pub tuple_names-Moves : (f n : ℕ) (start : Span) → n < f → Moves tokens n (tuple_names f start)
  unfolding tuple_names
  tuple_names-Moves f n start l = Moves-advance_then tokens n _ (λ paren.
      Runs-bind tokens n _ _ (names_loop-Runs f n [] l) (λ names.
        Runs-bind tokens n _ _ (expect-Runs tokens n r_paren) (λ close.
          Runs-bind tokens n _ _ (two_or_more-Runs n names start)
            (λ u. return-Runs tokens n names))))

  second-Runs : (n : ℕ) (first : String) → Runs tokens n (check comma >>= second_at first)
  unfolding second_at matches discriminant
  second-Runs n first = Runs-check_then tokens n comma _ refl (return-Runs tokens n _) (λ j q.
      Moves-advance_then tokens j _ (λ sign.
        Runs-bind tokens j _ _ (expect_ident-Runs tokens j) (λ second. return-Runs tokens j _)))

  bindings-Runs :
      (f n : ℕ) (start : Span) → n < f → Runs tokens n (check l_paren >>= bindings_at f start)
  unfolding bindings_at matches discriminant
  bindings-Runs f n start l =
      Runs-check_then tokens n l_paren _ refl
        (Runs-bind tokens n _ _ (expect_ident-Runs tokens n)
          (λ first. second-Runs n (or_else "" first)))
        (λ j q.
          Moves-bind tokens j _ _ (tuple_names-Moves f j start (omega arith))
            (λ names. return-Runs tokens j _))

module _ (tokens : List Token) (is_uppercase : ℕ → Bool) (f : ℕ) (sub : Parts)
    (total : IsTotal tokens f sub) where
  inline_body-Runs : (n : ℕ) → n < f → Runs tokens n (inline_body is_uppercase sub (suc f))
  unfolding inline_body
  inline_body-Runs n l = Runs-peek_span_then tokens n _ (λ start.
      Runs-bind tokens n _ _ (parse_expr-Runs tokens f sub total n l)
        (λ e. Runs-bind tokens n _ _ (skip_newlines-Runs tokens n) (λ u. return-Runs tokens n _)))

  block_form-Runs : (n : ℕ) (b : Bool) → Runs tokens n (block_form is_uppercase sub (suc f) b)
  unfolding block_form
  block_form-Runs n true = return-Runs tokens n true
  block_form-Runs n false = Runs-checked_then tokens n eof _ (λ ended.
      Runs-checked_then tokens n kw_end _
        (λ closed. Runs-checked_then tokens n kw_else _ (λ other. return-Runs tokens n _)))

  then_at-Runs : (n : ℕ) → n < f → (b : Bool) → Runs tokens n (then_at is_uppercase sub (suc f) b)
  unfolding then_at
  then_at-Runs n l true = total.body-Runs n l
  then_at-Runs n l false = inline_body-Runs n l

  then_body-Runs : (n : ℕ) → n < f → Runs tokens n (then_body is_uppercase sub (suc f))
  unfolding then_body
  then_body-Runs n l =
      Runs-bind tokens n _ _
        (Runs-bind tokens n _ _ (eat_newline-Runs tokens n) (block_form-Runs n)) (then_at-Runs n l)

  else_branch-Runs :
      (n : ℕ) → n < f → Runs tokens n (check kw_if >>= else_branch is_uppercase sub (suc f))
  unfolding else_branch matches discriminant
  else_branch-Runs n l =
      Runs-check_then tokens n kw_if _ refl
        (Runs-bind tokens n _ _ (skip_newlines-Runs tokens n) (λ u.
          Runs-bind tokens n _ _ (total.body-Runs n l) (λ body.
            Runs-bind tokens n _ _ (expect-Runs tokens n kw_end)
              (λ close. return-Runs tokens n _))))
        (λ j q.
          Moves-bind tokens j _ _ (total.if_expr-Moves j (omega arith))
            (λ inner. return-Runs tokens j _))

  else-Runs : (n : ℕ) → n < f → Runs tokens n (check kw_else >>= else_at is_uppercase sub (suc f))
  unfolding else_at matches discriminant
  else-Runs n l =
      Runs-check_then tokens n kw_else _ refl
        (Runs-bind tokens n _ _ (expect-Runs tokens n kw_end) (λ close. return-Runs tokens n _))
        (λ j q. Moves-advance_then tokens j _ (λ keyword. else_branch-Runs j (omega arith)))

  pub parse_if-Moves : (n : ℕ) → n < f → Moves tokens n (parse_if is_uppercase sub (suc f))
  unfolding parse_if
  parse_if-Moves n l = Moves-advance_then tokens n _ (λ keyword.
      Runs-bind tokens n _ _ (parse_expr-Runs tokens f sub total n l) (λ condition.
        Runs-bind tokens n _ _ (then_body-Runs n l) (λ body.
          Runs-bind tokens n _ _ (else-Runs n l)
            (λ other. Runs-peek_span_then tokens n _ (λ stop. return-Runs tokens n _)))))

  parse_match_arm-Moves :
      (n : ℕ) → n < f → Moves tokens n (parse_match_arm is_uppercase sub (suc f))
  unfolding parse_match_arm
  parse_match_arm-Moves n l = Moves-advance_then tokens n _ (λ keyword.
      Runs-bind tokens n _ _ (parse_pattern-Runs tokens is_uppercase (suc f) n (omega arith))
        (λ pattern. Runs-bind tokens n _ _ (total.body-Runs n l) (λ body. return-Runs tokens n _)))

  arms_loop-Runs :
      (g n : ℕ) (done : List MatchArm)
      → n < g
      → n < f
      → Runs tokens n (arms_loop is_uppercase sub (suc f) g done)
  unfolding arms_loop arm_at matches discriminant
  arms_loop-Runs zero n done l small = absurd (omega arith)
  arms_loop-Runs (suc g) n done l small =
      Runs-check_then tokens n kw_when _ refl (return-Runs tokens n done) (λ j q.
        Moves-bind tokens j _ _ (parse_match_arm-Moves j (omega arith)) (λ arm.
          Runs-bind tokens j _ _ (skip_newlines-Runs tokens j)
            (λ u. arms_loop-Runs g j (done ++ (arm ∷ [])) (omega arith) (omega arith))))

  pub parse_match-Moves : (n : ℕ) → n < f → Moves tokens n (parse_match is_uppercase sub (suc f))
  unfolding parse_match
  parse_match-Moves n l = Moves-advance_then tokens n _ (λ keyword.
      Runs-bind tokens n _ _ (parse_expr-Runs tokens f sub total n l) (λ subject.
        Runs-bind tokens n _ _ (expect_newline_or_eof-Runs tokens n) (λ u.
          Runs-bind tokens n _ _ (skip_newlines-Runs tokens n) (λ v.
            Runs-bind tokens n _ _ (arms_loop-Runs (suc f) n [] (omega arith) l) (λ done.
              Runs-bind tokens n _ _ (expect-Runs tokens n kw_end)
                (λ close. Runs-peek_span_then tokens n _ (λ stop. return-Runs tokens n _)))))))

  -- The body, `end` and the span behind it.
  module _ {A : Type 0} (n : ℕ) (l : n < f) where
    body_end-Runs :
        (k : List Stmt → Span → A)
        → Runs tokens n (
            sub.body >>= λ body.
            expect kw_end >>= λ close. peek_span >>= λ stop. return (k body stop))
    body_end-Runs k = Runs-bind tokens n _ _ (total.body-Runs n l) (λ body.
        Runs-bind tokens n _ _ (expect-Runs tokens n kw_end)
          (λ close. Runs-peek_span_then tokens n _ (λ stop. return-Runs tokens n _)))

  pub parse_for-Moves : (n : ℕ) → n < f → Moves tokens n (parse_for is_uppercase sub (suc f))
  unfolding parse_for
  parse_for-Moves n l = Moves-advance_then tokens n _ (λ keyword.
      Runs-bind tokens n _ _ (bindings-Runs tokens (suc f) n keyword.span (omega arith))
        (λ bindings. Runs-bind tokens n _ _ (expect-Runs tokens n kw_in) (λ sign.
          Runs-bind tokens n _ _ (parse_expr-Runs tokens f sub total n l) (λ iter.
            Runs-bind tokens n _ _ (expect_newline_or_eof-Runs tokens n)
              (λ u. body_end-Runs n l _)))))

  pub parse_while-Moves : (n : ℕ) → n < f → Moves tokens n (parse_while is_uppercase sub (suc f))
  unfolding parse_while
  parse_while-Moves n l = Moves-advance_then tokens n _ (λ keyword.
      Runs-bind tokens n _ _ (parse_expr-Runs tokens f sub total n l) (λ condition.
        Runs-bind tokens n _ _ (expect_newline_or_eof-Runs tokens n) (λ u. body_end-Runs n l _)))

  pub parse_lambda-Moves : (n : ℕ) → n < f → Moves tokens n (parse_lambda is_uppercase sub (suc f))
  unfolding parse_lambda
  parse_lambda-Moves n l = Moves-advance_then tokens n _ (λ keyword.
      Runs-bind tokens n _ _ (expect-Runs tokens n l_paren) (λ paren.
        Runs-bind tokens n _ _ (parse_params-Runs tokens (suc f) n (omega arith)) (λ params.
          Runs-bind tokens n _ _ (expect-Runs tokens n r_paren) (λ close.
            Runs-bind tokens n _ _ (return_type-Runs tokens (suc f) n (omega arith)) (λ result.
              Runs-bind tokens n _ _ (expect_newline_or_eof-Runs tokens n)
                (λ u. body_end-Runs n l _))))))
