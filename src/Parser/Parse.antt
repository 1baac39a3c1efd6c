-- ===== src/Parser/Parse.antt =====
-- What the functions of compiler/crates/tyra-parser are handed as `&mut`, the token stream and the
-- report, and what they do with them. `none` is a panic, or a recursion that its fuel does not carry.
pub mod Runs
pub mod Steps
pub mod Behind
pub mod Newlines
pub mod Seen
pub mod Reads
use tyra.Prelude.{ℕ, suc, length, Bool, true, false, not, Option, none, some, String}
use tyra.Diagnostics.Span.{Span}
use tyra.Diagnostics.Report.{Report}
use tyra.Syntax.Token.{TokenKind, Token}
use tyra.Syntax.TokenStream
use tyra.Syntax.TokenStream.{TokenStream}

abbrev pub Parse : Type 0 → Type 0
Parse A = TokenStream → Report → Option (A × (TokenStream × Report))

module _ {A : Type 0} where
  unfoldable pub return : A → Parse A
  return a ts report = some (a, (ts, report))

  -- A recursion without fuel.
  abbrev pub stuck : Parse A
  stuck ts report = none

  abbrev pub seen_by : TokenStream → Report → Option A → Option (A × (TokenStream × Report))
  seen_by ts report none = none
  seen_by ts report (some a) = some (a, (ts, report))

  -- What the stream shows.
  abbrev pub look : (TokenStream → Option A) → Parse A
  look f ts report = seen_by ts report (f ts)

  abbrev pub moved_by : Report → Option (A × TokenStream) → Option (A × (TokenStream × Report))
  moved_by report none = none
  moved_by report (some (a, ts)) = some (a, (ts, report))

  -- A move in the stream.
  abbrev pub move : (TokenStream → Option (A × TokenStream)) → Parse A
  move f ts report = moved_by report (f ts)

module _ {A B : Type 0} where
  abbrev pub then_parse :
      (A → Parse B) → Option (A × (TokenStream × Report)) → Option (B × (TokenStream × Report))
  then_parse k none = none
  then_parse k (some (a, (ts, report))) = k a ts report

  infixl 5 ◌>>=◌
  unfoldable pub ◌>>=◌ : Parse A → (A → Parse B) → Parse B
  ◌>>=◌ m k ts report = then_parse k (m ts report)

abbrev pub behind : Report → Option TokenStream → Option (Unit {0} × (TokenStream × Report))
behind report none = none
behind report (some ts) = some (tt, (ts, report))

unfoldable pub peek_span : Parse Span
peek_span = look TokenStream.peek_span

unfoldable pub peek : Parse TokenKind
peek = look TokenStream.peek

unfoldable pub peek_past_newlines : Parse TokenKind
peek_past_newlines = look TokenStream.peek_past_newlines

unfoldable pub peek_second : Parse TokenKind
peek_second = look TokenStream.peek_second

unfoldable pub check : TokenKind → Parse Bool
check kind = look (λ ts. TokenStream.check ts kind)

abbrev pub not_at : Option Bool → Option Bool
not_at none = none
not_at (some b) = some (not b)

abbrev pub and_not_eof : TokenStream → Option Bool → Option Bool
and_not_eof ts none = none
and_not_eof ts (some true) = some false
and_not_eof ts (some false) = not_at (TokenStream.at_eof ts)

unfoldable pub at_eof : Parse Bool
at_eof = look TokenStream.at_eof

-- `!ts.check(close) && !ts.at_eof()`.
unfoldable pub more_before : TokenKind → Parse Bool
more_before close = look (λ ts. and_not_eof ts (TokenStream.check ts close))

unfoldable pub advance : Parse Token
advance = move TokenStream.advance

unfoldable pub eat : TokenKind → Parse Bool
eat kind = move (λ ts. TokenStream.eat ts kind)

unfoldable pub expect : TokenKind → Parse (Option Token)
expect kind = TokenStream.expect kind

unfoldable pub expect_ident : Parse (Option String)
expect_ident = TokenStream.expect_ident

-- `skip_newlines`; the loop has a round for each token, and one more.
unfoldable pub skip_newlines : Parse Unit
skip_newlines ts report = behind report (TokenStream.skip_newlines (suc (length ts.tokens)) ts)

unfoldable pub eat_newline : Parse Bool
eat_newline = move TokenStream.eat_newline

abbrev pub ended : Option (TokenStream × Report) → Option (Unit {0} × (TokenStream × Report))
ended none = none
ended (some (ts, report)) = some (tt, (ts, report))

unfoldable pub expect_newline_or_eof : Parse Unit
expect_newline_or_eof ts report = ended (TokenStream.expect_newline_or_eof ts report)

unfoldable pub expect_ident_or_field_keyword : Parse (Option String)
expect_ident_or_field_keyword = TokenStream.expect_ident_or_field_keyword

unfoldable pub peek_ahead_is_colon : Parse Bool
peek_ahead_is_colon = look (λ ts. some (TokenStream.peek_ahead_is_colon ts))

-- A part of a parser that is not the stream's, such as a parse of another text.
unfoldable pub outcome : {A : Type 0} → Option A → Parse A
outcome r ts report = seen_by ts report r

-- `report.add` of an error with a code and one label.
unfoldable pub complain : String → String → Span → String → Parse Unit
complain message code span label ts report =
    some (tt, (ts, TokenStream.complain message code label span report))
