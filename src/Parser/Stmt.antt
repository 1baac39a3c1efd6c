-- ===== src/Parser/Stmt.antt =====
-- compiler/crates/tyra-parser/src/stmt.rs: statements and bodies.
pub mod Total
use Prim.Native.String.{◌++◌ as append}
use tyra.Prelude.{
  ℕ, zero, suc, Bool, true, false, not, Option, none, some, List, [], ◌∷◌, ◌++◌, String,
  if◌then◌else◌,
}
use tyra.Diagnostics.Span.{Span, merge}
use tyra.Diagnostics.Report.{Report, error as error_with, with_code, with_label, with_help, add}
use tyra.Syntax.Token.{
  TokenKind, Token, newline, eof, kw_end, kw_else, kw_when, kw_let, kw_mut, kw_return, kw_defer,
  kw_break, kw_continue, kw_import, kw_export, l_paren, eq,
}
use tyra.Syntax.TokenStream.{TokenStream}
use tyra.Parser.Parse.{
  Parse, return, stuck, ◌>>=◌, peek_span, peek, check, advance, expect,
  expect_ident_or_field_keyword, skip_newlines, expect_newline_or_eof,
}
use tyra.Types.Written.{TypeExpr}
use tyra.Parser.TypeExpr.{or_else}
use tyra.Parser.Param.{parse_optional_type_annotation}
use tyra.Parser.Ast.{
  Expr, ExprKind, expr_of, expr_span, Stmt, let_stmt, tuple_let_stmt, mut_stmt, return_stmt,
  defer_stmt, break_stmt, continue_stmt, expr_stmt, ReturnValue, no_value, returned,
}
use tyra.Parser.Parts.{Parts, Prec}
use tyra.Parser.Postfix.{parse_expr}
use tyra.Parser.Control.{tuple_names, parse_if}
use tyra.Parser.Expr.{parse_expr_prec}

-- `End | Else | When | Eof`.
unfoldable pub ends_body : TokenKind → Bool
ends_body kw_end = true
ends_body kw_else = true
ends_body kw_when = true
ends_body eof = true
ends_body kind = false

-- `Newline | Eof | End | Else | When`.
unfoldable pub ends_line : TokenKind → Bool
unfolding ends_body
ends_line newline = true
ends_line kind = ends_body kind

-- The error at an `import` or `export` inside a body.
unfoldable pub misplaced : String → Span → Parse Unit
unfolding error_with with_code with_label with_help add
misplaced kw span ts report = some (
  tt,
  (
    ts,
    add
        (with_help
          (with_label
            (with_code
              (error_with (
                append (append "`" kw)
                  "` statements must appear at the top of the file, not inside a function body"))
              "E0110")
            (record {
              span = span;
              message =
                  append (append "move this `" kw)
                    "` to the top of the file, before any `fn` definitions";
            }))
          "Place all `import` and `export` statements at the top of the file, before any `fn`, `data`, or `value` definitions")
        report,
  ),
)

-- The loop over the rest of the line, on fuel.
unfoldable pub line_at : Parse Unit → Bool → Parse Unit
unfolding advance
line_at loop true = return tt
line_at loop false = advance >>= λ token. loop

unfoldable pub skip_line : ℕ → Parse Unit
unfolding peek ends_line line_at
skip_line zero = stuck
skip_line (suc f) = peek >>= λ kind. line_at (skip_line f) (ends_line kind)

module _ (is_uppercase : ℕ → Bool) (inner : String → Option Expr) (sub : Parts) (fuel : ℕ) where
  -- Behind the name: an annotation, `=`, an expression and the end of the line.
  unfoldable pub bound : Span → (Option TypeExpr → Expr → Span → Stmt) → Parse Stmt
  unfolding parse_optional_type_annotation expect parse_expr expect_newline_or_eof merge
  bound start make = parse_optional_type_annotation fuel >>= λ annotation. expect eq >>= λ sign.
      parse_expr sub fuel >>= λ value.
      expect_newline_or_eof >>= λ u. return (make annotation value (merge start (expr_span value)))

  unfoldable pub let_at : Span → Bool → Parse Stmt
  unfolding tuple_names bound expect_ident_or_field_keyword
  let_at start true = tuple_names fuel start >>= λ names. bound start (tuple_let_stmt names)
  let_at start false =
      expect_ident_or_field_keyword >>= λ name. bound start (let_stmt (or_else "" name))

  unfoldable pub parse_let : Parse Stmt
  unfolding advance check let_at
  parse_let = advance >>= λ keyword. check l_paren >>= let_at keyword.span

  unfoldable pub parse_mut : Parse Stmt
  unfolding advance expect_ident_or_field_keyword bound
  parse_mut = advance >>= λ keyword.
      expect_ident_or_field_keyword >>= λ name. bound keyword.span (mut_stmt (or_else "" name))

  unfoldable pub return_at : Span → Bool → Parse Stmt
  unfolding expect_newline_or_eof parse_expr merge
  return_at start true = expect_newline_or_eof >>= λ u. return (return_stmt no_value start)
  return_at start false = parse_expr sub fuel >>= λ value. expect_newline_or_eof >>= λ u.
      return (return_stmt (returned value) (merge start (expr_span value)))

  unfoldable pub parse_return : Parse Stmt
  unfolding advance peek ends_line return_at
  parse_return = advance >>= λ keyword. peek >>= λ kind. return_at keyword.span (ends_line kind)

  unfoldable pub parse_defer : Parse Stmt
  unfolding advance parse_expr expect_newline_or_eof merge
  parse_defer = advance >>= λ keyword. parse_expr sub fuel >>= λ e.
      expect_newline_or_eof >>= λ u. return (defer_stmt e (merge keyword.span (expr_span e)))

  -- `parse_break` and `parse_continue`.
  unfoldable pub jump : (Span → Stmt) → Parse Stmt
  unfolding advance expect_newline_or_eof
  jump make = advance >>= λ keyword. expect_newline_or_eof >>= λ u. return (make keyword.span)

  unfoldable pub misplaced_item : String → Parse Stmt
  unfolding peek_span misplaced skip_line
  misplaced_item kw = peek_span >>= λ span. misplaced kw span >>= λ u.
      skip_line fuel >>= λ v. return (expr_stmt (expr_of ExprKind.unit_lit span) span)

  unfoldable pub parse_expr_stmt : Parse Stmt
  unfolding peek_span parse_expr_prec expect_newline_or_eof merge
  parse_expr_stmt = peek_span >>= λ start.
      parse_expr_prec is_uppercase inner sub fuel Prec.none >>= λ e.
      expect_newline_or_eof >>= λ u. return (expr_stmt e (merge start (expr_span e)))

  unfoldable pub stmt_at : TokenKind → Parse Stmt
  unfolding parse_let parse_mut parse_return parse_defer jump misplaced_item parse_expr_stmt
  stmt_at kw_let = parse_let
  stmt_at kw_mut = parse_mut
  stmt_at kw_return = parse_return
  stmt_at kw_defer = parse_defer
  stmt_at kw_break = jump break_stmt
  stmt_at kw_continue = jump continue_stmt
  stmt_at kw_import = misplaced_item "import"
  stmt_at kw_export = misplaced_item "export"
  stmt_at kind = parse_expr_stmt

  unfoldable pub parse_stmt : Parse Stmt
  unfolding peek stmt_at
  parse_stmt = peek >>= stmt_at

  unfoldable pub stmts_at : (List Stmt → Parse (List Stmt)) → List Stmt → Bool → Parse (List Stmt)
  unfolding parse_stmt skip_newlines
  stmts_at loop done true = return done
  stmts_at loop done false = parse_stmt >>= λ s. skip_newlines >>= λ u. loop (done ++ (s ∷ []))

  -- The loop of `parse_body`, on fuel.
  unfoldable pub stmts_loop : ℕ → List Stmt → Parse (List Stmt)
  unfolding peek ends_body stmts_at
  stmts_loop zero done = stuck
  stmts_loop (suc f) done = peek >>= λ kind. stmts_at (stmts_loop f) done (ends_body kind)

  unfoldable pub parse_body : Parse (List Stmt)
  unfolding skip_newlines stmts_loop
  parse_body = skip_newlines >>= λ u. stmts_loop fuel []

module _ (is_uppercase : ℕ → Bool) (inner : String → Option Expr) where
  -- The recursion through expressions, bodies and `if`s, on fuel.
  unfoldable pub parts : ℕ → Parts
  unfolding parse_expr_prec parse_body parse_if
  parts zero = record { expr_prec = λ p. stuck; body = stuck; if_expr = stuck }
  parts (suc f) = record {
    expr_prec = parse_expr_prec is_uppercase inner (parts f) (suc f);
    body = parse_body is_uppercase inner (parts f) (suc f);
    if_expr = parse_if is_uppercase (parts f) (suc f);
  }
