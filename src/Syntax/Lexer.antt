-- ===== src/Syntax/Lexer.antt =====
-- compiler/crates/tyra-lexer/src/lexer.rs: `scan_token` and `tokenize`.
pub mod Total
pub mod Stream
use tyra.Prelude.{
  ℕ, zero, suc, ◌-◌, Bool, true, false, ◌||◌, Option, none, some, List, [], ◌∷◌, ◌++◌, length, ◌==◌,
  nat_eq, if◌then◌else◌,
}
use tyra.Prelude.Dict.{Dict, get}
use tyra.Diagnostics.Span
use tyra.Diagnostics.Report.{Report}
use tyra.Syntax.Cursor
use tyra.Syntax.Text.{text, format}
use tyra.Syntax.Token.{
  TokenKind, Token, plus, minus, star, slash, percent, dot, question, pipe, comma, l_paren, r_paren,
  l_bracket, r_bracket, l_brace, r_brace, eq, eq_eq, eq_eq_eq, bang_eq, lt, lt_eq, gt, gt_eq, arrow,
  colon, colon_colon, newline, eof, error,
}
use tyra.Syntax.Scan.{
  Lexer, Scan, return, ◌>>=◌, pos, peek, peek_next, at_eof, advance, eat, eat_while, complain,
}
use tyra.Syntax.Literals.{stuck, rounds, is_letter, is_digit, is_char, scan_ident, scan_number}
use tyra.Syntax.Strings.{scan_string, scan_raw_string}

abbrev pub is_blank : ℕ → Bool
is_blank c = (c == 32) || ((c == 9) || (c == 13))

abbrev pub not_newline : ℕ → Bool
not_newline c = if c == 10 then false else true

-- The tokens of one character.
abbrev pub singles : Dict ℕ TokenKind
singles =
    (43, plus)
    ∷ (42, star)
    ∷ (47, slash)
    ∷ (37, percent)
    ∷ (46, dot)
    ∷ (63, question)
    ∷ (124, pipe)
    ∷ (44, comma)
    ∷ (40, l_paren)
    ∷ (41, r_paren)
    ∷ (91, l_bracket)
    ∷ (93, r_bracket)
    ∷ (123, l_brace)
    ∷ (125, r_brace)
    ∷ []

-- One kind if the character follows, and else the other.
abbrev pub either_kind : TokenKind → TokenKind → Bool → Scan TokenKind
either_kind long short true = return long
either_kind long short false = return short

unfoldable pub one_or_two : ℕ → TokenKind → TokenKind → Scan TokenKind
unfolding advance eat
one_or_two ch long short = advance >>= λ eaten. eat ch >>= either_kind long short

abbrev pub equals_at : Bool → Scan TokenKind
equals_at true = eat 61 >>= either_kind eq_eq_eq eq_eq
equals_at false = return eq

unfoldable pub scan_equals : Scan TokenKind
unfolding advance eat
scan_equals = advance >>= λ eaten. eat 61 >>= equals_at

module _ (parse_f64 : List ℕ → Option ℕ) (id : ℕ) where
  unfoldable pub bang_at : Bool → Scan TokenKind
  unfolding pos complain
  bang_at true = return bang_eq
  bang_at false = pos >>= λ stop.
      complain id "unexpected character `!`" "E0002" (stop - 1) stop
        "use `not` for logical negation"
      >>= λ u. return error

  unfoldable pub unrecognized : ℕ → Scan TokenKind
  unfolding pos advance complain text
  unrecognized c = pos >>= λ start. advance >>= λ eaten. pos >>= λ stop.
      complain id (format "unexpected character `" (text (c ∷ [])) "`") "E0002" start stop
        "not valid in Tyra source"
      >>= λ u. return error

  unfoldable pub single_at : ℕ → Option TokenKind → Scan TokenKind
  unfolding unrecognized advance
  single_at c none = unrecognized c
  single_at c (some kind) = advance >>= λ eaten. return kind

  -- The operators and what follows them in the match.
  unfoldable pub operator_at : ℕ → Scan TokenKind
  unfolding scan_equals advance eat bang_at one_or_two single_at get
  operator_at c =
      if c == 61
      then scan_equals
      else if c == 33
      then (advance >>= λ eaten. eat 61 >>= bang_at)
      else if c == 60
      then one_or_two 61 lt_eq lt
      else if c == 62
      then one_or_two 61 gt_eq gt
      else if c == 45
      then one_or_two 62 arrow minus
      else if c == 58
      then one_or_two 58 colon_colon colon
      else single_at c (get c singles)

  -- The literals and the names, before the operators.
  unfoldable pub lexeme_at : ℕ → Option ℕ → Scan TokenKind
  unfolding scan_string advance scan_raw_string scan_number scan_ident operator_at
  lexeme_at c next =
      if c == 34
      then scan_string id
      else if (if c == 114 then is_char 34 next else false)
      then (advance >>= λ eaten. scan_raw_string id)
      else if is_digit c
      then scan_number parse_f64 id
      else if is_letter c || (c == 95)
      then scan_ident
      else operator_at c

  abbrev pub kept : Scan TokenKind → Scan (Option TokenKind)
  kept m = m >>= λ kind. return (some kind)

  unfoldable pub token_at : Option ℕ → Scan (Option TokenKind)
  unfolding advance eat_while peek_next lexeme_at
  token_at none = return none
  token_at (some c) =
      if is_blank c
      then (advance >>= λ eaten. return none)
      else if c == 10
      then (advance >>= λ eaten. return (some newline))
      else if c == 35
      then (advance >>= λ eaten. eat_while not_newline >>= λ comment. return none)
      else kept (peek_next >>= lexeme_at c)

  -- `none` is a space or a comment.
  unfoldable pub scan_token : Scan (Option TokenKind)
  unfolding peek token_at
  scan_token = peek >>= token_at

  abbrev pub Tokens : Type 0
  Tokens = List Token → Scan (List Token)

  unfoldable pub push_token : Tokens → List Token → ℕ → Option TokenKind → Scan (List Token)
  unfolding pos
  push_token loop tokens start none = loop tokens
  push_token loop tokens start (some kind) =
      pos >>= λ stop. loop (tokens ++ (record { kind = kind; span = Span.new id start stop } ∷ []))

  unfoldable pub tokens_at : Tokens → List Token → Bool → Scan (List Token)
  unfolding pos scan_token push_token
  tokens_at loop tokens true = return tokens
  tokens_at loop tokens false = pos >>= λ start. scan_token >>= push_token loop tokens start

  -- The loop of `tokenize`, on fuel.
  unfoldable pub tokenize_loop : ℕ → Tokens
  unfolding at_eof tokens_at
  tokenize_loop zero tokens = stuck
  tokenize_loop (suc f) tokens = at_eof >>= tokens_at (tokenize_loop f) tokens

  unfoldable pub end_tokens : List Token → Scan (List Token)
  unfolding pos
  end_tokens tokens =
      pos >>= λ here. return (tokens ++ (record { kind = eof; span = Span.new id here here } ∷ []))

  -- The file with the id `id` has the content `source`.
  unfoldable pub tokenize : List ℕ → Report → Option (List Token × Lexer)
  unfolding tokenize_loop end_tokens Cursor.new
  tokenize source report =
      (rounds >>= λ f. tokenize_loop f [] >>= end_tokens)
        (record { cursor = Cursor.new source; report = report })
