-- ===== src/Syntax/Strings.antt =====
-- compiler/crates/tyra-lexer/src/lexer.rs: the functions that scan string literals. A text in the making
-- is its list of characters.
pub mod Total
pub mod Rounds
pub mod Escaped
use Prim.Native.Char.{Char}
use tyra.Prelude.{
  ℕ, zero, suc, ◌+◌, ◌-◌, Bool, true, false, ◌||◌, Option, none, some, List, [], ◌∷◌, ◌++◌, length,
  ltb, ◌==◌, nat_eq, if◌then◌else◌,
}
use tyra.Prelude.Dict.{Dict, get}
use tyra.Syntax.Text.{text, from_u32, format}
use tyra.Syntax.Token.{TokenKind, InterpPart, lit, expr, string, interp_string, raw_string, error}
use tyra.Syntax.Scan.{
  Scan, return, ◌>>=◌, pos, peek, peek_next, slice_from, advance, eat, eat_while, complain,
}
use tyra.Syntax.Literals.{
  stuck, rounds, is_hex, is_char, hex_digit, digits_value, hex_digits, hex_width,
}

-- The escapes that stand for one character.
abbrev pub escapes : Dict ℕ ℕ
escapes = (110, 10) ∷ (116, 9) ∷ (114, 13) ∷ (92, 92) ∷ (34, 34) ∷ (48, 0) ∷ []

-- Behind a closing brace, with the depth that is left.
unfoldable pub expr_closed :
    (ℕ → List ℕ → Scan (Option (List ℕ))) → ℕ → List ℕ → Scan (Option (List ℕ))
expr_closed loop depth expr_text =
    if depth == 0 then return (some expr_text) else loop depth (expr_text ++ (125 ∷ []))

-- The parts with the literal before them, unless it is empty.
unfoldable pub save : List ℕ → List InterpPart → List InterpPart
unfolding text
save [] parts = parts
save (c ∷ cs) parts = parts ++ (lit (text (c ∷ cs)) ∷ [])

unfoldable pub closed : List ℕ → List InterpPart → Bool → TokenKind
unfolding save text
closed current parts true = interp_string (save current parts)
closed current parts false = string (text current)

abbrev pub Loop : Type 0
Loop = List ℕ → List InterpPart → Bool → Scan TokenKind

unfoldable pub interp_scanned : Loop → List InterpPart → Option (List ℕ) → Scan TokenKind
unfolding text
interp_scanned loop parts none = return error
interp_scanned loop parts (some expr_text) = loop [] (parts ++ (expr (text expr_text) ∷ [])) true

module _ (id : ℕ) where
  unfoldable pub push_char : List ℕ → ℕ → ℕ → Option Char → Scan (List ℕ)
  unfolding text hex_digits hex_width complain pos
  push_char value start code_point (some ch) = return (value ++ (code_point ∷ []))
  push_char value start code_point none = pos >>= λ stop.
      complain id
        (format "invalid Unicode code point: U+"
          (text (hex_digits (hex_width code_point) code_point)) "")
        "E0004" start stop "not a valid Unicode scalar value"
      >>= λ u. return value

  unfoldable pub escape_closed : List ℕ → ℕ → List ℕ → Bool → Scan (List ℕ)
  unfolding pos complain push_char from_u32 digits_value
  escape_closed value start hex false = pos >>= λ here.
      complain id "expected `}` to close Unicode escape" "E0004" here here "missing `}`" >>= λ u.
      return value
  escape_closed value start hex true =
      let code_point = digits_value 16 hex_digit hex 0 in
      push_char value start code_point (from_u32 code_point)

  unfoldable pub escape_digits : List ℕ → ℕ → List ℕ → Scan (List ℕ)
  unfolding pos complain eat escape_closed
  escape_digits value start hex =
      if (length hex == 0) || ltb 6 (length hex)
      then (pos >>= λ stop.
          complain id "Unicode escape must have 1-6 hex digits" "E0004" start stop
            "expected 1-6 hex digits"
          >>= λ u. eat 125 >>= λ eaten. return value)
      else (eat 125 >>= escape_closed value start hex)

  unfoldable pub escape_opened : List ℕ → Bool → Scan (List ℕ)
  unfolding pos complain eat_while escape_digits
  escape_opened value false = pos >>= λ here.
      complain id "expected `{` after `\\u`" "E0004" (here - 2) here
        "Unicode escape requires `\\u{XXXX}`"
      >>= λ u. return value
  escape_opened value true = pos >>= λ start. eat_while is_hex >>= escape_digits value start

  -- The text that the escape leaves in place of `value`.
  unfoldable pub scan_unicode_escape : List ℕ → Scan (List ℕ)
  unfolding eat escape_opened
  scan_unicode_escape value = eat 123 >>= escape_opened value

  unfoldable pub escape_char : List ℕ → ℕ → Option ℕ → Scan (List ℕ)
  unfolding advance pos complain text scan_unicode_escape
  escape_char current c (some v) = advance >>= λ eaten. return (current ++ (v ∷ []))
  escape_char current c none =
      if c == 117
      then (advance >>= λ eaten. scan_unicode_escape current)
      else (pos >>= λ here. advance >>= λ eaten. pos >>= λ stop.
          complain id (format "unknown escape sequence `\\" (text (c ∷ [])) "`") "E0004" (here - 1)
            stop "invalid escape"
          >>= λ u. return (current ++ (c ∷ [])))

  -- What the character behind a backslash adds to the literal.
  unfoldable pub escape_at : List ℕ → Option ℕ → Scan (List ℕ)
  unfolding escape_char get
  escape_at current none = return current
  escape_at current (some c) = escape_char current c (get c escapes)

  unfoldable pub interp_unclosed : Scan (Option (List ℕ))
  unfolding pos complain
  interp_unclosed = pos >>= λ here.
      complain id "unterminated string interpolation" "E0003" here here "missing closing `}`"
      >>= λ u. return none

  unfoldable pub expr_at :
      (ℕ → List ℕ → Scan (Option (List ℕ))) → ℕ → List ℕ → Option ℕ → Scan (Option (List ℕ))
  unfolding interp_unclosed expr_closed advance
  expr_at loop depth expr_text none = interp_unclosed
  expr_at loop depth expr_text (some c) =
      if c == 10
      then interp_unclosed
      else if c == 123
      then (advance >>= λ eaten. loop (depth + 1) (expr_text ++ (123 ∷ [])))
      else if c == 125
      then (advance >>= λ eaten. expr_closed loop (depth - 1) expr_text)
      else (advance >>= λ eaten. loop depth (expr_text ++ (c ∷ [])))

  -- The loop over the text of an interpolated expression, on fuel; `none` is the return of an error. The
  -- depth counts braces of the text.
  unfoldable pub expr_loop : ℕ → ℕ → List ℕ → Scan (Option (List ℕ))
  unfolding expr_at peek
  expr_loop zero depth expr_text = stuck
  expr_loop (suc f) depth expr_text = peek >>= expr_at (expr_loop f) depth expr_text

  unfoldable pub string_unclosed : Scan TokenKind
  unfolding pos complain
  string_unclosed = pos >>= λ here.
      complain id "unterminated string literal" "E0003" here here
        "string not closed before end of line"
      >>= λ u. return error

  -- At a `#`.
  unfoldable pub hash_at : ℕ → Loop → List ℕ → List InterpPart → Bool → Option ℕ → Scan TokenKind
  unfolding advance expr_loop interp_scanned save
  hash_at f loop current parts has_interp next =
      if is_char 123 next
      then (advance >>= λ hash.
          advance >>= λ brace. expr_loop f 1 [] >>= interp_scanned loop (save current parts))
      else (advance >>= λ hash. loop (current ++ (35 ∷ [])) parts has_interp)

  unfoldable pub string_at : ℕ → Loop → List ℕ → List InterpPart → Bool → Option ℕ → Scan TokenKind
  unfolding string_unclosed advance closed peek_next hash_at peek escape_at
  string_at f loop current parts has_interp none = string_unclosed
  string_at f loop current parts has_interp (some c) =
      if c == 10
      then string_unclosed
      else if c == 34
      then (advance >>= λ quote. return (closed current parts has_interp))
      else if c == 35
      then (peek_next >>= hash_at f loop current parts has_interp)
      else if c == 92
      then (advance >>= λ backslash.
          peek >>= escape_at current >>= λ longer. loop longer parts has_interp)
      else (advance >>= λ eaten. loop (current ++ (c ∷ [])) parts has_interp)

  -- The loop of `scan_string`, on fuel.
  unfoldable pub string_loop : ℕ → Loop
  unfolding peek string_at
  string_loop zero current parts has_interp = stuck
  string_loop (suc f) current parts has_interp =
      peek >>= string_at f (string_loop f) current parts has_interp

  unfoldable pub scan_string : Scan TokenKind
  unfolding advance string_loop
  scan_string = advance >>= λ quote. rounds >>= λ f. string_loop f [] [] false

  unfoldable pub raw_unclosed : Scan TokenKind
  unfolding pos complain
  raw_unclosed = pos >>= λ here.
      complain id "unterminated raw string literal" "E0003" here here
        "raw string not closed before end of line"
      >>= λ u. return error

  unfoldable pub raw_at : Scan TokenKind → ℕ → Option ℕ → Scan TokenKind
  unfolding raw_unclosed slice_from advance text
  raw_at loop start none = raw_unclosed
  raw_at loop start (some c) =
      if c == 10
      then raw_unclosed
      else if c == 34
      then (slice_from start >>= λ content. advance >>= λ quote. return (raw_string (text content)))
      else (advance >>= λ eaten. loop)

  -- The loop of `scan_raw_string`, on fuel.
  unfoldable pub raw_loop : ℕ → ℕ → Scan TokenKind
  unfolding peek raw_at
  raw_loop zero start = stuck
  raw_loop (suc f) start = peek >>= raw_at (raw_loop f start) start

  unfoldable pub scan_raw_string : Scan TokenKind
  unfolding advance pos raw_loop
  scan_raw_string = advance >>= λ quote. pos >>= λ start. rounds >>= λ f. raw_loop f start
