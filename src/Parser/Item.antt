-- ===== src/Parser/Item.antt =====
-- compiler/crates/tyra-parser/src/lib.rs: `parse_item`.
pub mod Total
use tyra.Prelude.{
  ℕ, Bool, true, false, not, ◌&&◌, Option, none, some, List, String, ◌==◌, string_eq, if◌then◌else◌,
}
use tyra.Diagnostics.Span.{Span}
use tyra.Diagnostics.Report.{error as error_with, with_code, with_label, with_note, with_help, add}
use tyra.Syntax.Token.{
  TokenKind, string, kw_export, kw_async, kw_fn, kw_value, kw_data, kw_type, kw_trait, kw_impl,
  kw_import,
}
use tyra.Parser.Parse.{
  Parse, return, ◌>>=◌, peek_span, peek, peek_second, eat, complain, skip_newlines,
}
use tyra.Parser.Param.{is_ident}
use tyra.Parser.Ast.{
  Expr, Stmt, FnDef, Item, fn_def, value_def, data_def, type_def, trait_def, impl_def, import_decl,
  stmt, test_def,
}
use tyra.Parser.Decl.{parse_fn_def, parse_trait_def, parse_impl_def, parse_import, parse_test_def}
use tyra.Parser.Decl.Types.{parse_value_def, parse_data_def, parse_type_def}

unfoldable pub is_fn : TokenKind → Bool
is_fn kw_fn = true
is_fn kind = false

unfoldable pub is_string : TokenKind → Bool
is_string (string s) = true
is_string kind = false

-- `report.add` under a test.
unfoldable pub complain_if : Bool → String → String → Span → String → Parse Unit
unfolding complain
complain_if true message code span label = complain message code span label
complain_if false message code span label = return tt

-- The error at an exported `main`.
unfoldable pub exported_main : Bool → Span → Parse Unit
unfolding error_with with_code with_label with_note with_help add
exported_main false start = return tt
exported_main true start = λ ts report. some (
  tt,
  (
    ts,
    add
        (with_help
          (with_note
            (with_label (with_code (error_with "`export` cannot be applied to `fn main`") "E0111")
              (record { span = start; message = "`export` used here" }))
            "`fn main` is the program entry point (spec §6.1); it is invoked by the runtime, never imported")
          "remove the export modifier: fn main(...)")
        report,
  ),
)

-- `parse_stmt` and `parse_body` are handed over with the fuel for their recursion.
module _ (parse_stmt : Parse Stmt) (parse_body : Parse (List Stmt)) (fuel : ℕ) where
  -- Behind an item newlines are skipped.
  unfoldable pub item_of : {A : Type 0} → Parse A → (A → Item) → Parse Item
  unfolding skip_newlines
  item_of parse_def make = parse_def >>= λ d. skip_newlines >>= λ u. return (make d)

  unfoldable pub checked_fn : Span → Bool → Bool → Parse FnDef
  unfolding parse_fn_def exported_main
  checked_fn start is_async is_export = parse_fn_def fuel parse_body is_async is_export >>= λ func.
      exported_main (is_export && (func.name == "main")) start >>= λ u. return func

  -- The match of `parse_item`.
  unfoldable pub item_at : Span → Bool → Bool → TokenKind → Parse Item
  unfolding item_of checked_fn parse_value_def parse_data_def parse_type_def parse_trait_def
      complain_if parse_impl_def parse_import
  item_at start is_async is_export kw_fn = item_of (checked_fn start is_async is_export) fn_def
  item_at start is_async is_export kw_value = item_of (parse_value_def fuel is_export) value_def
  item_at start is_async is_export kw_data = item_of (parse_data_def fuel is_export) data_def
  item_at start is_async is_export kw_type = item_of (parse_type_def fuel is_export) type_def
  item_at start is_async is_export kw_trait = item_of (parse_trait_def fuel is_export) trait_def
  item_at start is_async is_export kw_impl =
      complain_if is_export "`export` cannot be applied to `impl`" "E0109" start
        "`export` used here"
      >>= λ u. item_of (parse_impl_def fuel parse_body) impl_def
  item_at start is_async is_export kw_import =
      complain_if is_export "`export` cannot be applied to `import`" "E0109" start
        "`export` used here"
      >>= λ u. item_of (parse_import fuel) import_decl
  item_at start is_async is_export kind =
      complain_if is_export "`export` cannot be applied to a statement" "E0109" start
        "`export` used here"
      >>= λ u. item_of parse_stmt stmt

  unfoldable pub test_or_item : Span → Bool → Bool → TokenKind → Bool → Parse Item
  unfolding item_of parse_test_def item_at
  test_or_item start is_async is_export kind true =
      item_of (parse_test_def fuel parse_body) test_def
  test_or_item start is_async is_export kind false = item_at start is_async is_export kind

  unfoldable pub parse_item : Parse Item
  unfolding peek_span eat peek complain_if is_fn peek_second test_or_item is_ident is_string
  parse_item = peek_span >>= λ start. eat kw_export >>= λ is_export. eat kw_async >>= λ is_async.
      peek >>= λ kind.
      complain_if (is_async && not (is_fn kind)) "`async` can only be applied to `fn`" "E0108" start
        "`async` used here"
      >>= λ u. peek_second >>= λ second.
          test_or_item start is_async is_export kind
            (not is_export && not is_async && is_ident "test" kind && is_string second)
