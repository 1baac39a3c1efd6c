-- ===== src/Syntax/Strings/Escaped.antt =====
-- What `scan_string` makes of a literal whose characters are escaped where they must be.
use tyra.Prelude.{
  ℕ, zero, suc, ◌≤◌, ◌≡◌, refl, ap, ◌∙◌, subst, false, Option, some, List, [], ◌∷◌, ◌++◌, arith,
  nat_eq, length, length-append,
}
use tyra.Syntax.Cursor.Boundary.{append_nil}
use tyra.Syntax.Cursor.Slices.{append_assoc}
use tyra.Syntax.Text.{text}
use tyra.Syntax.Token.{TokenKind, string}
use tyra.Syntax.Scan.{Lexer, return, ◌>>=◌}
use tyra.Syntax.Scan.Runs.{On, behind}
use tyra.Syntax.Scan.Ahead.{peek-ahead, advance-ahead, behind-On}
use tyra.Syntax.Strings.{string_at, string_loop, scan_string, closed}
use tyra.Syntax.Strings.Rounds.{escaped_char, char-Round}

unfoldable pub escaped : List ℕ → List ℕ
unfolding escaped_char
escaped [] = []
escaped (c ∷ cs) = escaped_char c ++ escaped cs

module _ (id : ℕ) where
  -- The loop comes behind the closing quote, with the text of the characters.
  record Closed (chars before rest : List ℕ) (s : Lexer) (r : Option (TokenKind × Lexer))
      : Type 0 where
    pub later : Lexer
    pub result : r ≡ some (string (text chars), later)
    pub on : On before rest later
    pub same : later.report ≡ s.report

  string_loop-Closed :
      (f : ℕ) (chars current before rest : List ℕ) (s : Lexer)
      → On before (escaped chars ++ (34 ∷ rest)) s
      → length chars ≤ f
      → Closed
          (current ++ chars)
          (before ++ (escaped chars ++ (34 ∷ [])))
          rest
          s
          (string_loop id (suc f) current [] false s)
  unfolding escaped string_loop string_at closed ◌>>=◌ return
  string_loop-Closed f [] current before rest s on l = record {
    later = behind s 34;
    result =
        rw (peek-ahead before rest 34 s on, advance-ahead before rest 34 s on, append_nil current)
          refl;
    on = behind-On before rest 34 s on;
    same = refl;
  }
  string_loop-Closed zero (c ∷ cs) current before rest s on l = absurd (omega arith)
  string_loop-Closed (suc f) (c ∷ cs) current before rest s on l =
      let w = escaped_char c in
      let r =
        char-Round id (suc f) current c before (escaped cs ++ (34 ∷ rest)) s
          (subst (λ l. On before l s) (append_assoc w (escaped cs) (34 ∷ rest)) on) in
      let d =
        string_loop-Closed f cs (current ++ (c ∷ [])) (before ++ w) rest r.later r.on
          (omega arith) in
      record {
        later = d.later;
        result =
            r.turns
            ∙ d.result
            ∙ ap (λ l. some (string (text l), d.later)) (append_assoc current (c ∷ []) cs);
        on = subst (λ l. On l rest d.later) (simp append_assoc) d.on;
        same = d.same ∙ r.same;
      }

escaped-longer : (chars : List ℕ) → length chars ≤ length (escaped chars)
unfolding escaped escaped_char
escaped-longer [] = omega arith
escaped-longer (c ∷ cs) =
    let h = escaped-longer cs in
    let one : 1 ≤ length (escaped_char c) = ground arith in
    omega (arith, h, one, length-append (escaped_char c) (escaped cs))

-- In front of a quote, the characters with a newline, a quote, a backslash and a hash escaped, and a
-- quote, scan_string gives the string of the characters, goes behind the second quote and reports
-- nothing.
pub scan_string-escaped :
    (id : ℕ) (chars before rest : List ℕ) (s : Lexer)
    → On before (34 ∷ (escaped chars ++ (34 ∷ rest))) s
    → (later : Lexer) × (scan_string id s ≡ some (string (text chars), later))
      × On (before ++ (34 ∷ (escaped chars ++ (34 ∷ [])))) rest later
      × (later.report ≡ s.report)
unfolding scan_string ◌>>=◌
scan_string-escaped id chars before rest s on =
    let on' = behind-On before _ 34 s on in
    let size = ap length on.at.source in
    let n = length-append before (34 ∷ (escaped chars ++ (34 ∷ rest))) in
    let k = length-append (escaped chars) (34 ∷ rest) in
    let h = escaped-longer chars in
    let d =
      string_loop-Closed id (length s.cursor.source) chars [] (before ++ (34 ∷ [])) rest
        (behind s 34) on' (omega (arith, size, n, k, h)) in
    (
      d.later,
      rw (advance-ahead before _ 34 s on) d.result,
      subst (λ l. On l rest d.later) (append_assoc before (34 ∷ []) (escaped chars ++ (34 ∷ [])))
          d.on,
      d.same,
    )
