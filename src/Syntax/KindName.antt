-- ===== src/Syntax/KindName.antt =====
-- compiler/crates/tyra-parser/src/token_stream.rs: the names of tokens in messages, and the keywords
-- that can be field names.
pub mod Keywords
use tyra.Prelude.{Option, some, none, String}
use tyra.Syntax.Token.{
  TokenKind, int, float, string, interp_string, raw_string, kw_true, kw_false, ident, kw_fn,
  kw_data, kw_value, kw_type, kw_trait, kw_impl, kw_let, kw_mut, kw_if, kw_else, kw_match, kw_when,
  kw_for, kw_in, kw_while, kw_break, kw_continue, kw_return, kw_defer, kw_async, kw_await, kw_spawn,
  kw_import, kw_export, kw_and, kw_or, kw_not, kw_end, plus, minus, star, slash, percent, eq, eq_eq,
  bang_eq, lt, lt_eq, gt, gt_eq, eq_eq_eq, arrow, dot, colon, colon_colon, question, pipe, comma,
  l_paren, r_paren, l_bracket, r_bracket, l_brace, r_brace, newline, eof, error,
}

unfoldable pub kind_name : TokenKind → String
kind_name (int v) = "integer literal"
kind_name (float v) = "float literal"
kind_name (string v) = "string literal"
kind_name (interp_string v) = "interpolated string"
kind_name (raw_string v) = "raw string literal"
kind_name kw_true = "`true`"
kind_name kw_false = "`false`"
kind_name (ident v) = "identifier"
kind_name kw_fn = "`fn`"
kind_name kw_data = "`data`"
kind_name kw_value = "`value`"
kind_name kw_type = "`type`"
kind_name kw_trait = "`trait`"
kind_name kw_impl = "`impl`"
kind_name kw_let = "`let`"
kind_name kw_mut = "`mut`"
kind_name kw_if = "`if`"
kind_name kw_else = "`else`"
kind_name kw_match = "`match`"
kind_name kw_when = "`when`"
kind_name kw_for = "`for`"
kind_name kw_in = "`in`"
kind_name kw_while = "`while`"
kind_name kw_break = "`break`"
kind_name kw_continue = "`continue`"
kind_name kw_return = "`return`"
kind_name kw_defer = "`defer`"
kind_name kw_async = "`async`"
kind_name kw_await = "`await`"
kind_name kw_spawn = "`spawn`"
kind_name kw_import = "`import`"
kind_name kw_export = "`export`"
kind_name kw_and = "`and`"
kind_name kw_or = "`or`"
kind_name kw_not = "`not`"
kind_name kw_end = "`end`"
kind_name plus = "`+`"
kind_name minus = "`-`"
kind_name star = "`*`"
kind_name slash = "`/`"
kind_name percent = "`%`"
kind_name eq = "`=`"
kind_name eq_eq = "`==`"
kind_name bang_eq = "`!=`"
kind_name lt = "`<`"
kind_name lt_eq = "`<=`"
kind_name gt = "`>`"
kind_name gt_eq = "`>=`"
kind_name eq_eq_eq = "`===`"
kind_name arrow = "`->`"
kind_name dot = "`.`"
kind_name colon = "`:`"
kind_name colon_colon = "`::`"
kind_name question = "`?`"
kind_name pipe = "`|`"
kind_name comma = "`,`"
kind_name l_paren = "`(`"
kind_name r_paren = "`)`"
kind_name l_bracket = "`[`"
kind_name r_bracket = "`]`"
kind_name l_brace = "`{`"
kind_name r_brace = "`}`"
kind_name newline = "newline"
kind_name eof = "end of file"
kind_name error = "error token"

unfoldable pub keyword_as_ident : TokenKind → Option String
keyword_as_ident kw_value = some "value"
keyword_as_ident kw_data = some "data"
keyword_as_ident kw_type = some "type"
keyword_as_ident kw_trait = some "trait"
keyword_as_ident kw_impl = some "impl"
keyword_as_ident kw_mut = some "mut"
keyword_as_ident kw_async = some "async"
keyword_as_ident kw_await = some "await"
keyword_as_ident kw_spawn = some "spawn"
keyword_as_ident kw_import = some "import"
keyword_as_ident kw_export = some "export"
keyword_as_ident kw_defer = some "defer"
keyword_as_ident kind = none
