-- ===== src/Parser/Stmt/Total.antt =====
-- Statements, bodies and expressions have a result on every stream that ends with `eof` and whose
-- interpolated texts parse: the fuel is enough.
use tyra.Prelude.{
  ℕ, suc, zero, ◌<◌, ◌≡◌, refl, Bool, true, false, Option, List, [], ◌∷◌, ◌++◌, String, arith,
}
use tyra.Diagnostics.Span.{Span}
use tyra.Syntax.Token.{
  TokenKind, Token, discriminant, l_paren, eq, kw_let, kw_mut, kw_return, kw_defer, kw_break,
  kw_continue, kw_import, kw_export,
}
use tyra.Syntax.TokenStream.{matches}
use tyra.Types.Written.{TypeExpr}
use tyra.Parser.Parse.{Parse, ◌>>=◌, check}
use tyra.Parser.Parse.Runs.{Runs, Moves, return-Runs, Runs-split, Runs-bind, Moves-bind}
use tyra.Parser.Parse.Steps.{expect-Runs}
use tyra.Parser.Parse.Behind.{
  Runs-peek_span_then, Moves-peek_span_then, Runs-peek_then, Runs-end_then, Moves-advance_then,
  Runs-check_then,
}
use tyra.Parser.Parse.Newlines.{
  skip_newlines-Runs, expect_newline_or_eof-Runs, expect_ident_or_field_keyword-Runs,
}
use tyra.Parser.Parse.Seen.{
  Steps, Held, Steps-Moves, Steps-bind, Steps-peek_then, Steps-peek_span_then, Moves-peek_kind_then,
  Runs-peek_test_then,
}
use tyra.Parser.TypeExpr.{or_else}
use tyra.Parser.Param.Total.{annotation-Runs}
use tyra.Parser.Ast.{Expr, Stmt, let_stmt, tuple_let_stmt, mut_stmt, break_stmt, continue_stmt}
use tyra.Parser.Parts.{Parts, Prec}
use tyra.Parser.Parts.IsTotal.{IsTotal}
use tyra.Parser.Postfix.Total.{parse_expr-Runs}
use tyra.Parser.Control.Total.{tuple_names-Moves, parse_if-Moves}
use tyra.Parser.Prefix.Total.{Fine}
use tyra.Parser.Expr.Total.{parse_expr_prec-Runs, parse_expr_prec-Moves}
use tyra.Parser.Stmt.{
  ends_body, ends_line, misplaced, line_at, skip_line, bound, let_at, parse_let, parse_mut,
  return_at, parse_return, parse_defer, jump, misplaced_item, parse_expr_stmt, stmt_at, parse_stmt,
  stmts_at, stmts_loop, parse_body, parts,
}

module _ (tokens : List Token) where
  skip_line-Runs : (g n : ℕ) → n < g → Runs tokens n (skip_line g)
  unfolding skip_line line_at ends_line ends_body
  skip_line-Runs zero n l = absurd (omega arith)
  skip_line-Runs (suc g) n l =
      Runs-peek_test_then tokens n ends_line (line_at (skip_line g)) refl (return-Runs tokens n tt)
        (λ j q. Moves-advance_then tokens j _ (λ token. skip_line-Runs g j (omega arith)))

  skip_line-Steps :
      (g n : ℕ) (kind : TokenKind)
      → ends_line kind ≡ false
      → n < g
      → Steps tokens kind n (skip_line (suc g))
  unfolding skip_line line_at
  skip_line-Steps g n kind e l = Steps-peek_then tokens kind n _ (
      rw e (
        Steps-Moves tokens kind n _
          (Moves-advance_then tokens n _ (λ token. skip_line-Runs g n l))))

  misplaced-Steps :
      {B : Type 0} (n : ℕ) (kind : TokenKind) (kw : String) (span : Span) (k : Unit → Parse B)
      → Steps tokens kind n (k tt)
      → Steps tokens kind n (misplaced kw span >>= k)
  unfolding Steps misplaced ◌>>=◌
  misplaced-Steps n kind kw span k h ts report v some_ahead l t e q = h ts _ v some_ahead l t e q

module _ (tokens : List Token) (is_uppercase : ℕ → Bool) (inner : String → Option Expr) (f : ℕ)
    (sub : Parts) (total : IsTotal tokens f sub) where
  bound-Runs :
      (n : ℕ)
      → n < f
      → (start : Span) (make : Option TypeExpr → Expr → Span → Stmt)
      → Runs tokens n (bound is_uppercase inner sub (suc f) start make)
  unfolding bound
  bound-Runs n l start make =
      Runs-bind tokens n _ _ (annotation-Runs tokens (suc f) n (omega arith)) (λ annotation.
        Runs-bind tokens n _ _ (expect-Runs tokens n eq) (λ sign.
          Runs-bind tokens n _ _ (parse_expr-Runs tokens f sub total n l) (λ value.
            Runs-bind tokens n _ _ (expect_newline_or_eof-Runs tokens n)
              (λ u. return-Runs tokens n _))))

  return_at-Runs :
      (n : ℕ)
      → n < f
      → (start : Span) (b : Bool) → Runs tokens n (return_at is_uppercase inner sub (suc f) start b)
  unfolding return_at
  return_at-Runs n l start true =
      Runs-bind tokens n _ _ (expect_newline_or_eof-Runs tokens n) (λ u. return-Runs tokens n _)
  return_at-Runs n l start false =
      Runs-bind tokens n _ _ (parse_expr-Runs tokens f sub total n l) (λ value.
        Runs-bind tokens n _ _ (expect_newline_or_eof-Runs tokens n) (λ u. return-Runs tokens n _))

  let-Runs :
      (n : ℕ)
      → n < f
      → (start : Span)
      → Runs tokens n (check l_paren >>= let_at is_uppercase inner sub (suc f) start)
  unfolding let_at matches discriminant
  let-Runs n l start =
      Runs-check_then tokens n l_paren _ refl
        (Runs-bind tokens n _ _ (expect_ident_or_field_keyword-Runs tokens n)
          (λ name. bound-Runs n l start (let_stmt (or_else "" name))))
        (λ j q.
          Moves-bind tokens j _ _ (tuple_names-Moves tokens (suc f) j start (omega arith))
            (λ names. bound-Runs j (omega arith) start (tuple_let_stmt names)))

  module _ (n : ℕ) (l : n < f) where
    parse_let-Moves : Moves tokens n (parse_let is_uppercase inner sub (suc f))
    unfolding parse_let
    parse_let-Moves = Moves-advance_then tokens n _ (λ keyword. let-Runs n l keyword.span)

    parse_mut-Moves : Moves tokens n (parse_mut is_uppercase inner sub (suc f))
    unfolding parse_mut
    parse_mut-Moves = Moves-advance_then tokens n _ (λ keyword.
        Runs-bind tokens n _ _ (expect_ident_or_field_keyword-Runs tokens n)
          (λ name. bound-Runs n l keyword.span (mut_stmt (or_else "" name))))

    parse_return-Moves : Moves tokens n (parse_return is_uppercase inner sub (suc f))
    unfolding parse_return
    parse_return-Moves = Moves-advance_then tokens n _ (λ keyword.
        Runs-peek_then tokens n _ (λ kind. return_at-Runs n l keyword.span (ends_line kind)))

    parse_defer-Moves : Moves tokens n (parse_defer is_uppercase inner sub (suc f))
    unfolding parse_defer
    parse_defer-Moves = Moves-advance_then tokens n _ (λ keyword.
        Runs-bind tokens n _ _ (parse_expr-Runs tokens f sub total n l) (λ e.
          Runs-bind tokens n _ _ (expect_newline_or_eof-Runs tokens n)
            (λ u. return-Runs tokens n _)))

    jump-Moves : (make : Span → Stmt) → Moves tokens n (jump is_uppercase inner sub (suc f) make)
    unfolding jump
    jump-Moves make = Moves-advance_then tokens n _ (λ keyword.
        Runs-bind tokens n _ _ (expect_newline_or_eof-Runs tokens n) (λ u. return-Runs tokens n _))

    misplaced_item-Steps :
        (kind : TokenKind) (kw : String)
        → ends_line kind ≡ false
        → Steps tokens kind n (misplaced_item is_uppercase inner sub (suc f) kw)
    unfolding misplaced_item
    misplaced_item-Steps kind kw e = Steps-peek_span_then tokens kind n _ (λ span.
        misplaced-Steps tokens n kind kw span _ (
          Steps-bind tokens kind n _ _ (skip_line-Steps tokens f n kind e l)
            (λ v. return-Runs tokens n _)))

  module _ (fine : (kind : TokenKind) → Held tokens kind → Fine inner kind) where
    parse_expr_stmt-Runs :
        (n : ℕ) → n < suc f → Runs tokens n (parse_expr_stmt is_uppercase inner sub (suc f))
    unfolding parse_expr_stmt
    parse_expr_stmt-Runs n l = Runs-peek_span_then tokens n _ (λ start.
        Runs-bind tokens n _ _
          (parse_expr_prec-Runs tokens is_uppercase inner f sub total Prec.none fine n l)
          (λ e.
            Runs-bind tokens n _ _ (expect_newline_or_eof-Runs tokens n)
              (λ u. return-Runs tokens n _)))

    parse_expr_stmt-Moves :
        (n : ℕ) → n < f → Moves tokens n (parse_expr_stmt is_uppercase inner sub (suc f))
    unfolding parse_expr_stmt
    parse_expr_stmt-Moves n l = Moves-peek_span_then tokens n _ (λ start.
        Moves-bind tokens n _ _
          (parse_expr_prec-Moves tokens is_uppercase inner f sub total Prec.none fine n l)
          (λ e.
            Runs-bind tokens n _ _ (expect_newline_or_eof-Runs tokens n)
              (λ u. return-Runs tokens n _)))

    stmt_at-Steps :
        (n : ℕ)
        → n < f
        → (kind : TokenKind) → Steps tokens kind n (stmt_at is_uppercase inner sub (suc f) kind)
    unfolding stmt_at ends_line ends_body
    stmt_at-Steps n l kw_let = Steps-Moves tokens kw_let n _ (parse_let-Moves n l)
    stmt_at-Steps n l kw_mut = Steps-Moves tokens kw_mut n _ (parse_mut-Moves n l)
    stmt_at-Steps n l kw_return = Steps-Moves tokens kw_return n _ (parse_return-Moves n l)
    stmt_at-Steps n l kw_defer = Steps-Moves tokens kw_defer n _ (parse_defer-Moves n l)
    stmt_at-Steps n l kw_break = Steps-Moves tokens kw_break n _ (jump-Moves n l break_stmt)
    stmt_at-Steps n l kw_continue =
        Steps-Moves tokens kw_continue n _ (jump-Moves n l continue_stmt)
    stmt_at-Steps n l kw_import = misplaced_item-Steps n l kw_import "import" refl
    stmt_at-Steps n l kw_export = misplaced_item-Steps n l kw_export "export" refl
    stmt_at-Steps n l kind = Steps-Moves tokens kind n _ (parse_expr_stmt-Moves n l)

    pub parse_stmt-Moves :
        (n : ℕ) → n < f → Moves tokens n (parse_stmt is_uppercase inner sub (suc f))
    unfolding parse_stmt
    parse_stmt-Moves n l = Moves-peek_kind_then tokens n _ (stmt_at-Steps n l)

    pub parse_stmt-Runs :
        (n : ℕ) → n < suc f → Runs tokens n (parse_stmt is_uppercase inner sub (suc f))
    unfolding parse_stmt stmt_at
    parse_stmt-Runs n l =
        Runs-split tokens n (parse_stmt is_uppercase inner sub (suc f))
          (Runs-end_then tokens _ (parse_expr_stmt-Runs 0 (omega arith)))
          (λ j q. parse_stmt-Moves j (omega arith))

    stmts_loop-Runs :
        (g n : ℕ) (done : List Stmt)
        → n < g
        → n < suc f
        → Runs tokens n (stmts_loop is_uppercase inner sub (suc f) g done)
    unfolding stmts_loop stmts_at ends_body
    stmts_loop-Runs zero n done l small = absurd (omega arith)
    stmts_loop-Runs (suc g) n done l small =
        Runs-peek_test_then tokens n ends_body
          (stmts_at is_uppercase inner sub (suc f) (stmts_loop is_uppercase inner sub (suc f) g)
            done)
          refl (return-Runs tokens n done)
          (λ j q. Moves-bind tokens j _ _ (parse_stmt-Moves j (omega arith)) (λ s.
            Runs-bind tokens j _ _ (skip_newlines-Runs tokens j)
              (λ u. stmts_loop-Runs g j (done ++ (s ∷ [])) (omega arith) (omega arith))))

    pub parse_body-Runs :
        (n : ℕ) → n < suc f → Runs tokens n (parse_body is_uppercase inner sub (suc f))
    unfolding parse_body
    parse_body-Runs n l =
        Runs-bind tokens n _ _ (skip_newlines-Runs tokens n) (λ u. stmts_loop-Runs (suc f) n [] l l)

-- With more fuel than tokens ahead, expressions, bodies and `if`s have results, in a stream whose
-- interpolated texts parse.
pub parts-IsTotal :
    (tokens : List Token) (is_uppercase : ℕ → Bool) (inner : String → Option Expr)
    → ((kind : TokenKind) → Held tokens kind → Fine inner kind)
    → (f : ℕ) → IsTotal tokens f (parts is_uppercase inner f)
unfolding parts
parts-IsTotal tokens is_uppercase inner fine zero = record {
  expr_prec-Runs = λ prec n l. absurd (omega arith);
  expr_prec-Moves = λ prec n l. absurd (omega arith);
  body-Runs = λ n l. absurd (omega arith);
  if_expr-Moves = λ n l. absurd (omega arith);
}
parts-IsTotal tokens is_uppercase inner fine (suc f) =
    let total = parts-IsTotal tokens is_uppercase inner fine f in
    record {
      expr_prec-Runs = λ prec n l.
          parse_expr_prec-Runs tokens is_uppercase inner f (parts is_uppercase inner f) total prec
            fine n l;
      expr_prec-Moves = λ prec n l.
          parse_expr_prec-Moves tokens is_uppercase inner f (parts is_uppercase inner f) total prec
            fine n (omega arith);
      body-Runs = λ n l.
          parse_body-Runs tokens is_uppercase inner f (parts is_uppercase inner f) total fine n l;
      if_expr-Moves = λ n l.
          parse_if-Moves tokens is_uppercase f (parts is_uppercase inner f) total n (omega arith);
    }
