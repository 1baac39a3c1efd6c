-- ===== src/Syntax/TokenStream.antt =====
-- compiler/crates/tyra-parser/src/token_stream.rs: the parser's cursor. `none` is the panic of an
-- index out of range; `bracket_depth` is a `u32`.
pub mod Cursor
pub mod Newlines
pub mod Demands
pub mod Terminators
use Prim.Native.String.{◌++◌ as append}
use tyra.Prelude.{
  ℕ, zero, suc, ◌+◌, ◌-◌, ◌%◌, ◌^◌, min, nat_eq, Bool, true, false, Option, none, some, List, [],
  ◌∷◌, String, if◌then◌else◌, ◌==◌, ltb, length, get_elem?, drop,
}
use tyra.Diagnostics.Span.{Span}
use tyra.Diagnostics.Report.{Label, Report, error as error_with, with_code, with_label, add}
use tyra.Syntax.Token.{
  TokenKind, Token, discriminant, newline, eof, ident, colon, kw_end, kw_else, kw_when, l_paren,
  l_bracket, l_brace, r_paren, r_bracket, r_brace,
}
use tyra.Syntax.KindName.{kind_name, keyword_as_ident}

pub record TokenStream : Type 0 where
  pub tokens : List Token
  pub pos : ℕ
  pub bracket_depth : ℕ

unfoldable pub new : List Token → TokenStream
new tokens = record { tokens = tokens; pos = 0; bracket_depth = 0 }

unfoldable pub is_newline : TokenKind → Bool
is_newline newline = true
is_newline kind = false

-- The number of newlines that a list of tokens starts with.
unfoldable pub leading : List Token → ℕ
leading [] = 0
leading (t ∷ ts) = let rest = leading ts in if is_newline t.kind then suc rest else 0

-- The loops `while i < self.tokens.len() && self.tokens[i].kind == Newline { i += 1; }`.
unfoldable pub past_newlines : List Token → ℕ → ℕ
past_newlines tokens i = i + leading (drop i tokens)

-- The loops of `peek_skip_newlines` and of `skip_non_significant_newlines`.
unfoldable pub skipped : TokenStream → ℕ
skipped ts = if ltb 0 ts.bracket_depth then past_newlines ts.tokens ts.pos else ts.pos

unfoldable pub clamp : TokenStream → ℕ → ℕ
clamp ts i = min i (length ts.tokens - 1)

unfoldable pub token_at : TokenStream → ℕ → Option Token
token_at ts i = get_elem? ts.tokens (clamp ts i)

unfoldable pub kind_of : Option Token → Option TokenKind
kind_of none = none
kind_of (some t) = some t.kind

unfoldable pub peek_token : TokenStream → Option Token
peek_token ts = token_at ts (skipped ts)

unfoldable pub span_of : Option Token → Option Span
span_of none = none
span_of (some t) = some t.span

unfoldable pub peek_span : TokenStream → Option Span
peek_span ts = span_of (peek_token ts)

unfoldable pub position : TokenStream → ℕ
position ts = ts.pos

unfoldable pub peek : TokenStream → Option TokenKind
peek ts = kind_of (peek_token ts)

unfoldable pub raw_peek : TokenStream → Option TokenKind
raw_peek ts = kind_of (token_at ts ts.pos)

-- The token after the current one.
unfoldable pub peek_second : TokenStream → Option TokenKind
peek_second ts = kind_of (token_at ts (past_newlines ts.tokens (clamp ts (skipped ts) + 1)))

unfoldable pub peek_past_newlines : TokenStream → Option TokenKind
peek_past_newlines ts = kind_of (token_at ts (past_newlines ts.tokens ts.pos))

unfoldable pub is_colon : Option Token → Bool
is_colon none = false
is_colon (some t) = discriminant t.kind == discriminant colon

unfoldable pub peek_ahead_is_colon : TokenStream → Bool
peek_ahead_is_colon ts =
    is_colon (get_elem? ts.tokens (past_newlines ts.tokens (clamp ts (skipped ts) + 1)))

unfoldable pub matches : TokenKind → TokenKind → Bool
matches kind expected = discriminant kind == discriminant expected

unfoldable pub track_brackets : TokenKind → ℕ → ℕ
track_brackets l_paren depth = (depth + 1) % 2 ^ 32
track_brackets l_bracket depth = (depth + 1) % 2 ^ 32
track_brackets l_brace depth = (depth + 1) % 2 ^ 32
track_brackets r_paren depth = depth - 1
track_brackets r_bracket depth = depth - 1
track_brackets r_brace depth = depth - 1
track_brackets kind depth = depth

unfoldable pub advance_over : TokenStream → ℕ → Option Token → Option (Token × TokenStream)
advance_over ts idx none = none
advance_over ts idx (some t) = some (
  t,
  record {
    tokens = ts.tokens;
    pos = idx + 1;
    bracket_depth = track_brackets t.kind ts.bracket_depth;
  },
)

unfoldable pub advance : TokenStream → Option (Token × TokenStream)
advance ts = let idx = clamp ts (skipped ts) in advance_over ts idx (get_elem? ts.tokens idx)

unfoldable pub kind_test : TokenKind → Option TokenKind → Option Bool
kind_test kind none = none
kind_test kind (some k) = some (matches k kind)

unfoldable pub check : TokenStream → TokenKind → Option Bool
check ts kind = kind_test kind (peek ts)

-- What an operation that may add a diagnostic gives: its value, the stream and the report.
abbrev pub Parsed : Type 0 → Type 0
Parsed A = Option (Option A × (TokenStream × Report))

unfoldable pub advanced : Report → Option (Token × TokenStream) → Parsed Token
advanced report none = none
advanced report (some (t, ts)) = some (some t, (ts, report))

unfoldable pub taken : String → Report → Option (Token × TokenStream) → Parsed String
taken a report none = none
taken a report (some (t, ts)) = some (some a, (ts, report))

unfoldable pub complain : String → String → String → Span → Report → Report
complain message code label span report =
    add (with_label (with_code (error_with message) code) (record { span = span; message = label }))
      report

unfoldable pub wanted : TokenKind → String
wanted expected = append "expected " (kind_name expected)

unfoldable pub unexpected : TokenKind → TokenKind → String
unexpected expected kind = append (wanted expected) (append ", found " (kind_name kind))

unfoldable pub expect_at : TokenKind → TokenStream → Report → Option Token → Parsed Token
expect_at expected ts report none = none
expect_at expected ts report (some t) =
    if matches t.kind expected
    then advanced report (advance ts)
    else some
        (none, (ts, complain (unexpected expected t.kind) "E0100" (wanted expected) t.span report))

unfoldable pub expect : TokenKind → TokenStream → Report → Parsed Token
expect expected ts report = expect_at expected ts report (peek_token ts)

unfoldable pub eaten : Option (Token × TokenStream) → Option (Bool × TokenStream)
eaten none = none
eaten (some (t, ts)) = some (true, ts)

-- Whether the token was consumed, and the stream.
unfoldable pub eat_at : TokenStream → Option Bool → Option (Bool × TokenStream)
eat_at ts none = none
eat_at ts (some false) = some (false, ts)
eat_at ts (some true) = eaten (advance ts)

unfoldable pub eat : TokenStream → TokenKind → Option (Bool × TokenStream)
eat ts kind = eat_at ts (check ts kind)

abbrev pub step : TokenStream → TokenStream
step ts = record { tokens = ts.tokens; pos = ts.pos + 1; bracket_depth = ts.bracket_depth }

unfoldable pub newline_at : TokenStream → Option TokenKind → Option (Bool × TokenStream)
newline_at ts none = none
newline_at ts (some kind) = some (if is_newline kind then (true, step ts) else (false, ts))

unfoldable pub eat_newline : TokenStream → Option (Bool × TokenStream)
eat_newline ts = if ts.bracket_depth == 0 then newline_at ts (raw_peek ts) else some (false, ts)

-- `while self.eat_newline() {}`, on fuel.
unfoldable pub again :
    (TokenStream → Option TokenStream) → Option (Bool × TokenStream) → Option TokenStream
again next none = none
again next (some (false, ts)) = some ts
again next (some (true, ts)) = next ts

unfoldable pub skip_newlines : ℕ → TokenStream → Option TokenStream
skip_newlines zero ts = none
skip_newlines (suc fuel) ts = again (skip_newlines fuel) (eat_newline ts)

unfoldable pub not_ended : TokenStream → Report → Option Token → Option (TokenStream × Report)
not_ended ts report none = none
not_ended ts report (some t) =
    some
      (ts, complain "expected newline or end of file" "E0101" "expected newline here" t.span report)

unfoldable pub end_at : TokenStream → Report → Option TokenKind → Option (TokenStream × Report)
end_at ts report none = none
end_at ts report (some newline) = some (step ts, report)
end_at ts report (some eof) = some (ts, report)
end_at ts report (some kw_end) = some (ts, report)
end_at ts report (some kw_else) = some (ts, report)
end_at ts report (some kw_when) = some (ts, report)
end_at ts report (some kind) = not_ended ts report (get_elem? ts.tokens ts.pos)

unfoldable pub expect_newline_or_eof : TokenStream → Report → Option (TokenStream × Report)
expect_newline_or_eof ts report =
    if ltb 0 ts.bracket_depth then some (ts, report) else end_at ts report (raw_peek ts)

unfoldable pub no_ident : TokenStream → Report → Token → Parsed String
no_ident ts report t = some (
  none,
  (
    ts,
    complain (append "expected identifier, found " (kind_name t.kind)) "E0102" "expected identifier"
        t.span report,
  ),
)

unfoldable pub ident_of : TokenKind → Option String
ident_of (ident name) = some name
ident_of kind = none

unfoldable pub named_or : TokenStream → Report → Token → Option String → Parsed String
named_or ts report t none = no_ident ts report t
named_or ts report t (some name) = taken name report (advance ts)

unfoldable pub expect_ident_at : TokenStream → Report → Option Token → Parsed String
expect_ident_at ts report none = none
expect_ident_at ts report (some t) = named_or ts report t (ident_of t.kind)

unfoldable pub expect_ident : TokenStream → Report → Parsed String
expect_ident ts report = expect_ident_at ts report (peek_token ts)

unfoldable pub field_name : TokenKind → Option String
field_name (ident name) = some name
field_name kind = keyword_as_ident kind

unfoldable pub expect_field_at : TokenStream → Report → Option Token → Parsed String
expect_field_at ts report none = none
expect_field_at ts report (some t) = named_or ts report t (field_name t.kind)

unfoldable pub expect_ident_or_field_keyword : TokenStream → Report → Parsed String
expect_ident_or_field_keyword ts report = expect_field_at ts report (peek_token ts)

unfoldable pub at_eof : TokenStream → Option Bool
at_eof ts = check ts eof
