-- ===== src/Syntax/Lexer/Total.antt =====
-- `tokenize` ends without a panic, with tokens that follow each other through the source and `eof`.
use tyra.Prelude.{
  ℕ, ◌≡◌, Bool, true, false, ◌||◌, Option, none, some, List, if◌then◌else◌, arith, ◌==◌, nat_eq,
}
use tyra.Prelude.Dict.{get}
use tyra.Syntax.Token.{TokenKind, error, newline, eq, bang_eq, eq_eq, eq_eq_eq}
use tyra.Syntax.Scan.{◌>>=◌, pos, peek_next, advance, eat, eat_while}
use tyra.Syntax.Scan.Runs.{Runs, Moves, return-Runs}
use tyra.Syntax.Scan.Steps.{pos-Runs, advance-Moves, eat-Runs, eat_while-Runs}
use tyra.Syntax.Scan.Behind.{
  Runs-bind, Moves-bind, Moves-if, Moves-pos_then, Moves-peek_next_then, complain-return,
}
use tyra.Syntax.Literals.{is_word, is_letter, is_digit, is_char}
use tyra.Syntax.Literals.Total.{scan_ident-Moves, scan_number-Moves}
use tyra.Syntax.Strings.Total.{scan_string-Moves, scan_raw_string-Runs}
use tyra.Syntax.Lexer.{
  is_blank, not_newline, singles, either_kind, one_or_two, equals_at, scan_equals, bang_at,
  unrecognized, single_at, operator_at, lexeme_at, token_at,
}

module _ (n : ℕ) (base : List ℕ) where
  either_kind-Runs : (long short : TokenKind) (b : Bool) → Runs n base (either_kind long short b)
  either_kind-Runs long short true = return-Runs n base long
  either_kind-Runs long short false = return-Runs n base short

  eat_either : (c : ℕ) (long short : TokenKind) → Runs n base (eat c >>= either_kind long short)
  eat_either c long short =
      Runs-bind n base (eat c) _ (eat-Runs n base c) (either_kind-Runs long short)

  one_or_two-Moves : (ch c : ℕ) (long short : TokenKind) → Moves n base ch (one_or_two c long short)
  unfolding one_or_two
  one_or_two-Moves ch c long short =
      Moves-bind n base ch advance _ (advance-Moves n base ch) (λ e. eat_either c long short)

  equals_at-Runs : (b : Bool) → Runs n base (equals_at b)
  equals_at-Runs true = eat_either 61 eq_eq_eq eq_eq
  equals_at-Runs false = return-Runs n base eq

  scan_equals-Moves : (ch : ℕ) → Moves n base ch scan_equals
  unfolding scan_equals
  scan_equals-Moves ch =
      Moves-bind n base ch advance _ (advance-Moves n base ch)
        (λ e. Runs-bind n base (eat 61) _ (eat-Runs n base 61) equals_at-Runs)

module _ (parse_f64 : List ℕ → Option ℕ) (id n : ℕ) (base : List ℕ) where
  bang_at-Runs : (b : Bool) → Runs n base (bang_at parse_f64 id b)
  unfolding bang_at
  bang_at-Runs true = return-Runs n base bang_eq
  bang_at-Runs false =
      Runs-bind n base pos _ (pos-Runs n base)
        (λ stop. complain-return n base id _ _ _ stop _ error)

  unrecognized-Moves : (ch : ℕ) → Moves n base ch (unrecognized parse_f64 id ch)
  unfolding unrecognized
  unrecognized-Moves ch = Moves-pos_then n base ch _ (λ here.
      Moves-bind n here ch advance _ (advance-Moves n here ch) (λ e.
        Runs-bind n here pos _ (pos-Runs n here)
          (λ stop. complain-return n here id _ _ _ stop _ error)))

  single_at-Moves : (ch : ℕ) (k : Option TokenKind) → Moves n base ch (single_at parse_f64 id ch k)
  unfolding single_at
  single_at-Moves ch none = unrecognized-Moves ch
  single_at-Moves ch (some k) =
      Moves-bind n base ch advance _ (advance-Moves n base ch) (λ e. return-Runs n base k)

  operator_at-Moves : (ch : ℕ) → Moves n base ch (operator_at parse_f64 id ch)
  unfolding operator_at
  operator_at-Moves ch =
      Moves-if n base ch (ch == 61) _ _ (λ y. scan_equals-Moves n base ch)
        (λ y1.
          Moves-if n base ch (ch == 33) _ _
            (λ y.
              Moves-bind n base ch advance _ (advance-Moves n base ch)
                (λ e. Runs-bind n base (eat 61) _ (eat-Runs n base 61) bang_at-Runs))
            (λ y2.
              Moves-if n base ch (ch == 60) _ _ (λ y. one_or_two-Moves n base ch _ _ _)
                (λ y3.
                  Moves-if n base ch (ch == 62) _ _ (λ y. one_or_two-Moves n base ch _ _ _)
                    (λ y4.
                      Moves-if n base ch (ch == 45) _ _ (λ y. one_or_two-Moves n base ch _ _ _)
                        (λ y5.
                          Moves-if n base ch (ch == 58) _ _ (λ y. one_or_two-Moves n base ch _ _ _)
                            (λ y6. single_at-Moves ch (get ch singles)))))))

  lexeme_at-Moves : (ch : ℕ) (next : Option ℕ) → Moves n base ch (lexeme_at parse_f64 id ch next)
  unfolding lexeme_at
  lexeme_at-Moves ch next =
      Moves-if n base ch (ch == 34) _ _ (λ y. scan_string-Moves id n base ch)
        (λ y1.
          Moves-if n base ch (if ch == 114 then is_char 34 next else false) _ _
            (λ y.
              Moves-bind n base ch advance _ (advance-Moves n base ch)
                (λ e. scan_raw_string-Runs id n base))
            (λ y2.
              Moves-if n base ch (is_digit ch) _ _ (λ y. scan_number-Moves parse_f64 id n base ch y)
                (λ y3.
                  Moves-if n base ch (is_letter ch || (ch == 95)) _ _
                    (λ y. scan_ident-Moves n base ch (word_start ch y))
                    (λ y4. operator_at-Moves ch))))
    where
      word_start : (c : ℕ) → (is_letter c || (c == 95)) ≡ true → is_word c ≡ true
      word_start c y = ground arith

  pub token_at-Moves : (ch : ℕ) → Moves n base ch (token_at parse_f64 id (some ch))
  unfolding token_at
  token_at-Moves ch =
      Moves-if n base ch (is_blank ch) _ _
        (λ y.
          Moves-bind n base ch advance _ (advance-Moves n base ch) (λ e. return-Runs n base none))
        (λ y1.
          Moves-if n base ch (ch == 10) _ _
            (λ y.
              Moves-bind n base ch advance _ (advance-Moves n base ch)
                (λ e. return-Runs n base (some newline)))
            (λ y2.
              Moves-if n base ch (ch == 35) _ _
                (λ y. Moves-bind n base ch advance _ (advance-Moves n base ch) (λ e.
                  Runs-bind n base (eat_while not_newline) _ (eat_while-Runs n base not_newline)
                    (λ t. return-Runs n base none)))
                (λ y3.
                  Moves-bind n base ch (peek_next >>= lexeme_at parse_f64 id ch) _
                    (Moves-peek_next_then n base ch _ (lexeme_at-Moves ch))
                    (λ k. return-Runs n base (some k)))))
