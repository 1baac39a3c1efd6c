-- ===== src/Tests/Syntax.antt =====
-- The tokens of `(`, a newline, `x`, a newline and the end of the file.
use tyra.Prelude.{ltb, ◌≡◌, refl, false, some, List, [], ◌∷◌, arith, string_eq}
use tyra.Prelude.Dict.{get}
use tyra.Diagnostics.Span.{Span}
use tyra.Diagnostics.Report.{Report}
use tyra.Syntax.Token.{
  TokenKind, Token, l_paren, newline, ident, eof, kw_value, kw_while, keyword, keywords,
}
use tyra.Syntax.KindName.{keyword_as_ident}
use tyra.Syntax.KindName.Keywords.{keyword-keyword_as_ident}
use tyra.Syntax.Cursor.{Cursor, bytes, len_utf8}
use tyra.Syntax.Cursor.Boundary.{At, Eaten, eat_while_loop-Eaten}
use tyra.Syntax.TokenStream.{
  TokenStream, skipped, is_newline, peek_token, past_newlines, leading, token_at, clamp,
  expect_newline_or_eof,
}
use tyra.Syntax.TokenStream.Cursor.{IsValid, Advanced, advance-Advanced, peek_token-bracketed}
use tyra.Syntax.TokenStream.Newlines.{Skipped, skip_newlines-Skipped}
use tyra.Syntax.TokenStream.Demands.{Demanded, expect-Demanded}
use tyra.Syntax.TokenStream.Terminators.{Ended, expect_newline_or_eof-Ended}

abbrev here : Span
here = record { source = 0; start = 0; stop = 1 }

abbrev token : TokenKind → Token
token kind = record { kind = kind; span = here }

abbrev tokens : List Token
tokens = token l_paren ∷ token newline ∷ token (ident "x") ∷ token newline ∷ token eof ∷ []

abbrev inside : TokenStream
inside = record { tokens = tokens; pos = 1; bracket_depth = 1 }

abbrev outside : TokenStream
outside = record { tokens = tokens; pos = 3; bracket_depth = 0 }

inside-IsValid : IsValid inside
inside-IsValid = record {
  last = token eof;
  at = refl;
  is_eof = refl;
  some_tokens = omega arith;
  within = omega arith;
}

outside-IsValid : IsValid outside
outside-IsValid = record {
  last = token eof;
  at = refl;
  is_eof = refl;
  some_tokens = omega arith;
  within = omega arith;
}

advance-Advanced_example : Advanced inside
advance-Advanced_example = advance-Advanced inside inside-IsValid

shown : peek_token inside ≡ some (token (ident "x"))
unfolding peek_token token_at clamp skipped past_newlines leading is_newline
shown = refl

peek_token-bracketed_example : is_newline (ident "x") ≡ false
peek_token-bracketed_example =
    peek_token-bracketed inside (token (ident "x")) inside-IsValid (omega arith) shown

skip_newlines-Skipped_example : Skipped 3 outside
skip_newlines-Skipped_example = skip_newlines-Skipped 3 outside outside-IsValid (omega arith)

expect-Demanded_example : Demanded eof outside tyra.Diagnostics.Report.new
expect-Demanded_example = expect-Demanded eof outside tyra.Diagnostics.Report.new outside-IsValid

expect_newline_or_eof-Ended_example :
    Ended outside (expect_newline_or_eof outside tyra.Diagnostics.Report.new)
expect_newline_or_eof-Ended_example =
    expect_newline_or_eof-Ended outside tyra.Diagnostics.Report.new outside-IsValid

while_keyword : keyword "while" ≡ some kw_while
unfolding keyword keywords get
while_keyword = refl

value_ident : keyword_as_ident kw_value ≡ some "value"
unfolding keyword_as_ident
value_ident = refl

keyword-keyword_as_ident_example : keyword "value" ≡ some kw_value
keyword-keyword_as_ident_example = keyword-keyword_as_ident kw_value "value" value_ident

-- `aé=`, with the cursor behind the first character.
abbrev text : Cursor
text = record { source = 97 ∷ 233 ∷ 61 ∷ []; pos = 1 }

text-At : At text (97 ∷ []) (233 ∷ 61 ∷ [])
unfolding bytes len_utf8
text-At = record { source = refl; pos = refl }

eat_while_loop-Eaten_example : Eaten (ltb 64) 3 text (97 ∷ []) (233 ∷ 61 ∷ [])
eat_while_loop-Eaten_example =
    eat_while_loop-Eaten (ltb 64) 3 text (97 ∷ []) (233 ∷ 61 ∷ []) text-At (omega arith)
