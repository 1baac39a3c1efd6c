-- ===== src/Syntax/Literals/Total.antt =====
-- Identifiers and numbers are scanned without a panic.
use tyra.Prelude.{ℕ, ◌≡◌, true, Option, none, some, List}
use tyra.Syntax.Cursor.{bytes}
use tyra.Syntax.Token.{error, float, int}
use tyra.Syntax.Scan.{pos, peek, peek_next, slice_from, advance, eat_while}
use tyra.Syntax.Scan.Runs.{Runs, Moves, Runs-if, return-Runs}
use tyra.Syntax.Scan.Steps.{
  peek-Runs, peek_next-Runs, pos-Runs, slice_from-Runs, advance-Runs, eat_while-Runs,
  eat_while-Moves,
}
use tyra.Syntax.Scan.Behind.{Runs-bind, Moves-bind, Moves-pos_then, complain-return}
use tyra.Syntax.Literals.{
  is_digit, is_word, scan_ident, parse_i64, float_of, int_of, fraction, whole, scan_number,
}

pub scan_ident-Moves :
    (n : ℕ) (base : List ℕ) (ch : ℕ) → is_word ch ≡ true → Moves n base ch scan_ident
unfolding scan_ident
scan_ident-Moves n base ch y = Moves-pos_then n base ch _ (λ here.
    Moves-bind n here ch (eat_while is_word) _ (eat_while-Moves n here ch is_word y) (λ e.
      Runs-bind n here (slice_from (bytes here)) _ (slice_from-Runs n here)
        (λ name. return-Runs n here _)))

module _ (parse_f64 : List ℕ → Option ℕ) (id : ℕ) (n : ℕ) (base : List ℕ) where
  float_of-Runs :
      (start : ℕ) (digits : List ℕ) (v : Option ℕ)
      → Runs n base (float_of parse_f64 id start digits v)
  unfolding float_of
  float_of-Runs start digits (some v) = return-Runs n base (float v)
  float_of-Runs start digits none =
      Runs-bind n base pos _ (pos-Runs n base)
        (λ stop. complain-return n base id _ _ start stop _ error)

  int_of-Runs :
      (start : ℕ) (digits : List ℕ) (v : Option ℕ)
      → Runs n base (int_of parse_f64 id start digits v)
  unfolding int_of
  int_of-Runs start digits (some v) = return-Runs n base (int v)
  int_of-Runs start digits none =
      Runs-bind n base pos _ (pos-Runs n base)
        (λ stop. complain-return n base id _ _ start stop _ error)

  fraction-Runs : Runs n base (fraction parse_f64 id (bytes base))
  unfolding fraction
  fraction-Runs = Runs-bind n base advance _ (advance-Runs n base) (λ dot.
      Runs-bind n base (eat_while is_digit) _ (eat_while-Runs n base is_digit) (λ more.
        Runs-bind n base (slice_from (bytes base)) _ (slice_from-Runs n base)
          (λ digits. float_of-Runs (bytes base) digits (parse_f64 digits))))

  whole-Runs : Runs n base (whole parse_f64 id (bytes base))
  unfolding whole
  whole-Runs =
      Runs-bind n base (slice_from (bytes base)) _ (slice_from-Runs n base)
        (λ digits. int_of-Runs (bytes base) digits (parse_i64 digits))

pub scan_number-Moves :
    (parse_f64 : List ℕ → Option ℕ) (id n : ℕ) (base : List ℕ) (ch : ℕ)
    → is_digit ch ≡ true
    → Moves n base ch (scan_number parse_f64 id)
unfolding scan_number
scan_number-Moves parse_f64 id n base ch y = Moves-pos_then n base ch _ (λ here.
    Moves-bind n here ch (eat_while is_digit) _ (eat_while-Moves n here ch is_digit y) (λ e.
      Runs-bind n here peek _ (peek-Runs n here) (λ a.
        Runs-bind n here peek_next _ (peek_next-Runs n here) (λ b.
          Runs-if n here _ _ _ (fraction-Runs parse_f64 id n here)
            (whole-Runs parse_f64 id n here)))))
