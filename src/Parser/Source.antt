-- ===== src/Parser/Source.antt =====
-- compiler/crates/tyra-parser/src/lib.rs: `parse`; the interpolated texts of src/expr.rs are lexed and
-- parsed in turn, to a depth.
pub mod Total
pub mod Nested
use Prim.Native.Char.{code}
use tyra.Prelude.{
  ℕ, zero, suc, Bool, true, false, Option, none, some, List, [], ◌∷◌, ◌++◌, String, length, ◌==◌,
  nat_eq,
}
use tyra.Diagnostics.Report
use tyra.Diagnostics.Report.{Report}
use tyra.Diagnostics.Span.{merge}
use tyra.Syntax.Token.{Token}
use tyra.Syntax.TokenStream
use tyra.Syntax.TokenStream.{TokenStream}
use tyra.Syntax.Scan.{Lexer}
use tyra.Syntax.Lexer.{tokenize}
use tyra.Parser.Parse.{Parse, return, stuck, ◌>>=◌, look, peek_span, at_eof, advance, skip_newlines}
use tyra.Parser.Ast.{Expr, Item, SourceFile}
use tyra.Parser.Parts.{Prec}
use tyra.Parser.Stmt.{parts, parse_stmt, parse_body}
use tyra.Parser.Item.{parse_item}

-- The characters of a text.
abbrev pub codes : String → List ℕ
codes String.[] = []
codes (String.◌∷◌ c s) = code c ∷ codes s

unfoldable pub position : Parse ℕ
position = look (λ ts. some (TokenStream.position ts))

-- `if ts.position() == before { ts.advance(); }`.
unfoldable pub advance_if : Bool → Parse Unit
unfolding advance
advance_if true = advance >>= λ token. return tt
advance_if false = return tt

-- An item, or at least a token.
unfoldable pub forced : Parse Item → Parse Item
unfolding position advance_if
forced item = position >>= λ before.
    item >>= λ found. position >>= λ after. advance_if (after == before) >>= λ u. return found

-- The loop over the items, on fuel.
unfoldable pub items_at :
    Parse Item → (List Item → Parse (List Item)) → List Item → Bool → Parse (List Item)
unfolding forced skip_newlines
items_at item loop items true = return items
items_at item loop items false =
    forced item >>= λ found. skip_newlines >>= λ u. loop (items ++ (found ∷ []))

unfoldable pub items_loop : Parse Item → ℕ → List Item → Parse (List Item)
unfolding at_eof items_at
items_loop item zero items = stuck
items_loop item (suc f) items = at_eof >>= items_at item (items_loop item f) items

unfoldable pub source_file : Parse Item → ℕ → Parse SourceFile
unfolding peek_span skip_newlines items_loop merge
source_file item fuel = peek_span >>= λ start. skip_newlines >>= λ u.
    items_loop item fuel [] >>= λ items.
    peek_span >>= λ stop. return (record { items = items; span = merge start stop })

unfoldable pub value_of : {A : Type 0} → Option (A × (TokenStream × Report)) → Option A
value_of none = none
value_of (some (a, rest)) = some a

-- `parse_f64` is `str::parse::<f64>`, with the bits of its result; `is_uppercase` is
-- `char::is_uppercase`.
module _ (parse_f64 : List ℕ → Option ℕ) (is_uppercase : ℕ → Bool) where
  -- The parse of the tokens of an interpolated text; the fuel is one more than there are tokens.
  unfoldable pub inner_tokens : (String → Option Expr) → Option (List Token × Lexer) → Option Expr
  unfolding value_of parts TokenStream.new Report.new
  inner_tokens inner none = none
  inner_tokens inner (some (tokens, lexer)) = value_of (
      (parts is_uppercase inner (suc (length tokens))).expr_prec Prec.none (TokenStream.new tokens)
        lexer.report)

  -- An interpolated text with at most so many levels of interpolation; it is the only file.
  unfoldable pub inner_expr : ℕ → String → Option Expr
  unfolding inner_tokens tokenize Report.new
  inner_expr zero text = none
  inner_expr (suc depth) text =
      inner_tokens (inner_expr depth) (tokenize parse_f64 0 (codes text) Report.new)

  unfoldable pub file_of :
      ℕ → Option (List Token × Lexer) → Option (SourceFile × (TokenStream × Report))
  unfolding source_file parse_item parse_stmt parse_body parts TokenStream.new
  file_of depth none = none
  file_of depth (some (tokens, lexer)) =
      let inner = inner_expr depth in
      let fuel = length tokens in
      let sub = parts is_uppercase inner fuel in
      source_file
        (parse_item (parse_stmt is_uppercase inner sub (suc fuel))
          (parse_body is_uppercase inner sub (suc fuel)) (suc fuel))
        (suc fuel) (TokenStream.new tokens) lexer.report

  -- `parse` of the file `id` with the content `source`.
  unfoldable pub parse : ℕ → ℕ → List ℕ → Report → Option (SourceFile × (TokenStream × Report))
  unfolding file_of tokenize
  parse depth id source report = file_of depth (tokenize parse_f64 id source report)
