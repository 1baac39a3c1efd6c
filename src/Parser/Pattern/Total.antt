-- ===== src/Parser/Pattern/Total.antt =====
-- The parser of patterns has a result on every stream that ends with `eof`: the fuel is enough.
use tyra.Prelude.{
  ℕ, zero, suc, ◌≤◌, ◌<◌, refl, Bool, true, false, Option, none, some, List, [], String, arith,
  length, ltb, if◌then◌else◌, ◌==◌, string_eq,
}
use tyra.Diagnostics.Span.{Span}
use tyra.Syntax.Token.{
  Token, TokenKind, discriminant, int, minus, float, string, kw_true, kw_false, ident, l_paren,
  r_paren, colon, comma,
}
use tyra.Syntax.TokenStream.{matches, field_name}
use tyra.Parser.Parse.{Parse, return, ◌>>=◌, check, complain}
use tyra.Parser.Parse.Runs.{Runs, Moves, return-Runs, Runs-split, Runs-bind, Moves-bind}
use tyra.Parser.Parse.Steps.{advance-Runs, expect-Runs, complain-Runs}
use tyra.Parser.Parse.Behind.{
  Runs-peek_span_then, Moves-peek_span_then, Runs-peek_then, Moves-peek_then, Runs-end_then,
  Moves-advance_then, Runs-check_then, Runs-eat_then, Runs-more_before_then,
}
use tyra.Parser.Commas.{parse_comma_separated-Runs}
use tyra.Parser.Ast.{PatternKind, Pattern, PatternField}
use tyra.Parser.Pattern.{
  one_token, negative_at, negative, two_or_more, no_pattern, is_pascal_case, field_behind,
  nested_fields, constructor_at, shorthand, explicit_at, field_of, field_at, parse_pattern_fields,
  name_at, ident_at, tuple_pattern, pattern_at, parse_pattern,
}

module _ (tokens : List Token) where
  module _ (n : ℕ) (start : Span) where
    one_token-Moves : (kind : PatternKind) → Moves tokens n (one_token kind start)
    unfolding one_token
    one_token-Moves kind = Moves-advance_then tokens n _ (λ token. return-Runs tokens n _)

    negative_at-Runs : (kind : TokenKind) → Runs tokens n (negative_at start kind)
    unfolding negative_at
    negative_at-Runs (int v) =
        Runs-bind tokens n _ _ (advance-Runs tokens n) (λ token. return-Runs tokens n _)
    negative_at-Runs kind =
        Runs-bind tokens n _ _ (complain-Runs tokens n _ _ start _) (λ u. return-Runs tokens n _)

    negative-Moves : Moves tokens n (negative start)
    unfolding negative
    negative-Moves =
        Moves-advance_then tokens n _ (λ sign. Runs-peek_then tokens n _ negative_at-Runs)

    two_or_more-Runs : (elems : List Pattern) → Runs tokens n (two_or_more elems start)
    unfolding two_or_more
    two_or_more-Runs elems =
        elim (ltb (length elems) 2)
          as (λ b. Runs tokens n (
            if b
            then complain "tuple pattern requires 2 or more elements" "E0316" start
                "tuple pattern here"
            else return tt)) [
              | true ↦ complain-Runs tokens n _ _ start _
              | false ↦ return-Runs tokens n tt
            ]

    no_pattern-Moves : Moves tokens n (no_pattern start)
    unfolding no_pattern
    no_pattern-Moves = Moves-advance_then tokens n _ (λ token.
        Runs-bind tokens n _ _ (complain-Runs tokens n _ _ token.span _)
          (λ u. return-Runs tokens n _))

    no_pattern-Runs : Runs tokens n (no_pattern start)
    unfolding no_pattern
    no_pattern-Runs = Runs-bind tokens n _ _ (advance-Runs tokens n) (λ token.
        Runs-bind tokens n _ _ (complain-Runs tokens n _ _ token.span _)
          (λ u. return-Runs tokens n _))

  module _ (is_uppercase : ℕ → Bool) (f : ℕ) (part : Parse Pattern)
      (total : (n : ℕ) → n < f → Runs tokens n part)
      (moving : (n : ℕ) → suc n < f → Moves tokens n part) where
    module _ (n : ℕ) (inner : Parse (List PatternField))
        (fields-Runs : (j : ℕ) → j ≤ n → Runs tokens j inner) (name : String) (start : Span) where
      nested_fields-Moves :
          (j : ℕ) → j ≤ n → Moves tokens j (nested_fields is_uppercase part inner name start)
      unfolding nested_fields
      nested_fields-Moves j l = Moves-advance_then tokens j _ (λ paren.
          Runs-bind tokens j _ _ (fields-Runs j l) (λ found. Runs-peek_span_then tokens j _ (λ stop.
            Runs-bind tokens j _ _ (expect-Runs tokens j r_paren)
              (λ close. return-Runs tokens j _))))

      shorthand-Runs : (b : Bool) → Runs tokens n (shorthand is_uppercase part inner name start b)
      unfolding shorthand constructor_at matches discriminant
      shorthand-Runs true =
          Runs-check_then tokens n l_paren _ refl (return-Runs tokens n _)
            (λ j q. nested_fields-Moves j (omega arith))
      shorthand-Runs false = return-Runs tokens n _

      explicit_at-Runs :
          n < f → Runs tokens n (check colon >>= explicit_at is_uppercase part inner name start)
      unfolding explicit_at matches discriminant
      explicit_at-Runs small =
          Runs-check_then tokens n colon _ refl
            (Runs-bind tokens n _ _ (shorthand-Runs (is_pascal_case is_uppercase name))
              (λ pattern. return-Runs tokens n _))
            (λ j q. Moves-advance_then tokens j _ (λ sign.
              Runs-bind tokens j _ _ (total j (omega arith)) (λ pattern. return-Runs tokens j _)))

    field_of-Moves :
        (n : ℕ) (inner : Parse (List PatternField))
        → ((j : ℕ) → j ≤ n → Runs tokens j inner)
        → suc n < f
        → (start : Span) (name : Option String)
        → Moves tokens n (field_of is_uppercase part inner start name)
    unfolding field_of
    field_of-Moves n inner inner-Runs small start none =
        Moves-bind tokens n part _ (moving n small) (λ pattern. return-Runs tokens n _)
    field_of-Moves n inner inner-Runs small start (some name) =
        Moves-advance_then tokens n _
          (λ token. explicit_at-Runs n inner inner-Runs name start (omega arith))

    parse_pattern_fields-Runs :
        (g n : ℕ) (done : List PatternField)
        → n < g
        → n < f
        → Runs tokens n (parse_pattern_fields is_uppercase part g done)
    unfolding parse_pattern_fields field_at field_behind matches discriminant
    parse_pattern_fields-Runs zero n done l small = absurd (omega arith)
    parse_pattern_fields-Runs (suc g) n done l small =
        Runs-more_before_then tokens n r_paren _ (return-Runs tokens n done) (λ j q.
          Moves-peek_span_then tokens j _ (λ start. Moves-peek_then tokens j _ (λ kind.
            Moves-bind tokens j _ _
              (field_of-Moves j _
                (λ i k. parse_pattern_fields-Runs g i [] (omega arith) (omega arith)) (omega arith)
                start (field_name kind))
              (λ field.
                Runs-eat_then tokens j comma _ refl (return-Runs tokens j _)
                  (λ i p. parse_pattern_fields-Runs g i _ (omega arith) (omega arith))))))

    module _ (n : ℕ) (small : n < f) (start : Span) where
      name_at-Runs :
          (name : String) → Runs tokens n (check l_paren >>= name_at is_uppercase part f name start)
      unfolding name_at matches discriminant
      name_at-Runs name = Runs-check_then tokens n l_paren _ refl (return-Runs tokens n _) (λ j q.
          nested_fields-Moves j _
            (λ i k. parse_pattern_fields-Runs f i [] (omega arith) (omega arith)) name start j
            (omega arith))

      ident_at-Moves :
          (name : String) (b : Bool) → Moves tokens n (ident_at is_uppercase part f name start b)
      unfolding ident_at
      ident_at-Moves name true = one_token-Moves n start _
      ident_at-Moves name false = Moves-advance_then tokens n _ (λ token. name_at-Runs name)

      tuple_pattern-Moves : Moves tokens n (tuple_pattern is_uppercase part f start)
      unfolding tuple_pattern
      tuple_pattern-Moves = Moves-advance_then tokens n _ (λ paren.
          Runs-bind tokens n _ _
            (parse_comma_separated-Runs tokens r_paren part f moving f n [] small small)
            (λ elems. Runs-peek_span_then tokens n _ (λ stop.
              Runs-bind tokens n _ _ (expect-Runs tokens n r_paren) (λ close.
                Runs-bind tokens n _ _ (two_or_more-Runs n start elems)
                  (λ u. return-Runs tokens n _)))))

      pattern_at-Moves :
          (kind : TokenKind) → Moves tokens n (pattern_at is_uppercase part f start kind)
      unfolding pattern_at
      pattern_at-Moves (ident name) = ident_at-Moves name (name == "_")
      pattern_at-Moves (int v) = one_token-Moves n start _
      pattern_at-Moves minus = negative-Moves n start
      pattern_at-Moves (float v) = one_token-Moves n start _
      pattern_at-Moves (string s) = one_token-Moves n start _
      pattern_at-Moves kw_true = one_token-Moves n start _
      pattern_at-Moves kw_false = one_token-Moves n start _
      pattern_at-Moves l_paren = tuple_pattern-Moves
      pattern_at-Moves kind = no_pattern-Moves n start

  module _ (is_uppercase : ℕ → Bool) where
    parse_pattern_total :
        (f : ℕ)
        → ((n : ℕ) → n < f → Runs tokens n (parse_pattern is_uppercase f))
          × ((n : ℕ) → suc n < f → Moves tokens n (parse_pattern is_uppercase f))
    unfolding parse_pattern pattern_at
    parse_pattern_total zero = ((λ n l. absurd (omega arith)), (λ n l. absurd (omega arith)))
    parse_pattern_total (suc f) =
        let (total, moving) = parse_pattern_total f in
        let more : (n : ℕ) → suc n < suc f → Moves tokens n (parse_pattern is_uppercase (suc f)) =
          λ n l. Moves-peek_span_then tokens n _ (λ start. Moves-peek_then tokens n _ (
            pattern_at-Moves is_uppercase f (parse_pattern is_uppercase f) total moving n
              (omega arith) start)) in
        (
          (λ n l.
              Runs-split tokens n (parse_pattern is_uppercase (suc f))
                (Runs-peek_span_then tokens 0 _
                  (λ start. Runs-end_then tokens _ (no_pattern-Runs 0 start)))
                (λ j q. more j (omega arith))),
          more,
        )

    pub parse_pattern-Runs : (f n : ℕ) → n < f → Runs tokens n (parse_pattern is_uppercase f)
    parse_pattern-Runs f = (parse_pattern_total f).0

    pub parse_pattern-Moves : (f n : ℕ) → suc n < f → Moves tokens n (parse_pattern is_uppercase f)
    parse_pattern-Moves f = (parse_pattern_total f).1
