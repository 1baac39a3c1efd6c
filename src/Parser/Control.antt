-- ===== src/Parser/Control.antt =====
-- compiler/crates/tyra-parser/src/stmt.rs: control flow; src/decl.rs: `parse_lambda`.
pub mod Total
use tyra.Prelude.{
  ℕ, zero, suc, Bool, true, false, ◌||◌, Option, none, some, List, [], ◌∷◌, ◌++◌, String, length,
  ltb, if◌then◌else◌,
}
use tyra.Diagnostics.Span.{Span, merge}
use tyra.Syntax.Token.{
  TokenKind, Token, l_paren, r_paren, comma, kw_else, kw_if, kw_end, kw_when, kw_in, eof,
}
use tyra.Parser.Parse.{
  Parse, return, stuck, ◌>>=◌, peek_span, check, advance, eat, expect, expect_ident, complain,
  skip_newlines, eat_newline, expect_newline_or_eof,
}
use tyra.Parser.TypeExpr.{or_else}
use tyra.Parser.Pattern.{parse_pattern}
use tyra.Parser.Param.{parse_params, return_type}
use tyra.Parser.Ast.{
  Expr, expr_span, ForBindings, idents, IfExpr, if_of, ElseBody, no_else, else_body, else_if,
  MatchExpr, match_of, MatchArm, match_arm, arm_vec, ForExpr, for_of, WhileExpr, while_of,
  LambdaExpr, lambda_of, Stmt, let_stmt, tuple_let_stmt, mut_stmt, return_stmt, defer_stmt,
  break_stmt, continue_stmt, expr_stmt, stmt_vec,
}
use tyra.Parser.Parts.{Parts}
use tyra.Parser.Postfix.{parse_expr}

unfoldable pub stmt_span : Stmt → Span
stmt_span (let_stmt name annotation value span) = span
stmt_span (tuple_let_stmt names annotation value span) = span
stmt_span (mut_stmt name annotation value span) = span
stmt_span (return_stmt value span) = span
stmt_span (defer_stmt e span) = span
stmt_span (break_stmt span) = span
stmt_span (continue_stmt span) = span
stmt_span (expr_stmt e span) = span

-- From the start to the last statement.
unfoldable pub arm_span : Span → List Stmt → Span
unfolding merge stmt_span
arm_span start [] = start
arm_span start (s ∷ []) = merge start (stmt_span s)
arm_span start (s ∷ t ∷ rest) = arm_span start (t ∷ rest)

-- The names of a destructured tuple, as `parse_let` and `parse_for` read them: rounds on fuel.
unfoldable pub name_behind :
    (List String → Parse (List String)) → List String → Bool → Parse (List String)
unfolding check
name_behind loop names false = return names
name_behind loop names true =
    check r_paren >>= λ closed. if closed then return names else loop names

unfoldable pub names_loop : ℕ → List String → Parse (List String)
unfolding expect_ident eat name_behind
names_loop zero names = stuck
names_loop (suc f) names = expect_ident >>= λ name.
    eat comma >>= name_behind (names_loop f) (names ++ (or_else "" name ∷ []))

unfoldable pub two_or_more : List String → Span → Parse Unit
unfolding complain
two_or_more names start =
    if ltb (length names) 2
    then complain "tuple destructure requires 2 or more bindings" "E0316" start
        "tuple destructure here"
    else return tt

-- `(a, b)`, from its parenthesis on.
unfoldable pub tuple_names : ℕ → Span → Parse (List String)
unfolding advance names_loop expect two_or_more
tuple_names fuel start = advance >>= λ paren. names_loop fuel [] >>= λ names.
    expect r_paren >>= λ close. two_or_more names start >>= λ u. return names

-- The second name of `for k, v in`.
unfoldable pub second_at : String → Bool → Parse ForBindings
unfolding advance expect_ident
second_at first true =
    advance >>= λ sign. expect_ident >>= λ second. return (idents (first ∷ or_else "" second ∷ []))
second_at first false = return (idents (first ∷ []))

unfoldable pub bindings_at : ℕ → Span → Bool → Parse ForBindings
unfolding tuple_names expect_ident check second_at
bindings_at fuel start true = tuple_names fuel start >>= λ names. return (ForBindings.tuple names)
bindings_at fuel start false =
    expect_ident >>= λ first. check comma >>= second_at (or_else "" first)

module _ (is_uppercase : ℕ → Bool) (sub : Parts) (fuel : ℕ) where
  unfoldable pub inline_body : Parse (List Stmt)
  unfolding peek_span parse_expr merge skip_newlines
  inline_body = peek_span >>= λ start. parse_expr sub fuel >>= λ e.
      skip_newlines >>= λ u. return (expr_stmt e (merge start (expr_span e)) ∷ [])

  -- The block form, or the inline form.
  unfoldable pub then_at : Bool → Parse (List Stmt)
  unfolding inline_body
  then_at true = sub.body
  then_at false = inline_body

  -- `ts.eat_newline() || ts.check(Eof) || ts.check(End) || ts.check(Else)`.
  unfoldable pub block_form : Bool → Parse Bool
  unfolding check
  block_form true = return true
  block_form false = check eof >>= λ ended.
      check kw_end >>= λ closed. check kw_else >>= λ other. return (ended || closed || other)

  unfoldable pub then_body : Parse (List Stmt)
  unfolding eat_newline block_form then_at
  then_body = eat_newline >>= block_form >>= then_at

  unfoldable pub else_branch : Bool → Parse ElseBody
  unfolding skip_newlines expect
  else_branch true = sub.if_expr >>= λ inner. return (else_if inner)
  else_branch false = skip_newlines >>= λ u.
      sub.body >>= λ body. expect kw_end >>= λ close. return (else_body (stmt_vec body))

  unfoldable pub else_at : Bool → Parse ElseBody
  unfolding advance check else_branch expect
  else_at true = advance >>= λ keyword. check kw_if >>= else_branch
  else_at false = expect kw_end >>= λ close. return no_else

  unfoldable pub parse_if : Parse IfExpr
  unfolding advance parse_expr then_body check else_at peek_span merge
  parse_if = advance >>= λ keyword. parse_expr sub fuel >>= λ condition. then_body >>= λ body.
      check kw_else >>= else_at >>= λ other.
      peek_span >>= λ stop. return (if_of condition (stmt_vec body) other (merge keyword.span stop))

  unfoldable pub parse_match_arm : Parse MatchArm
  unfolding advance parse_pattern arm_span
  parse_match_arm = advance >>= λ keyword. parse_pattern is_uppercase fuel >>= λ pattern.
      sub.body >>= λ body. return (match_arm pattern (stmt_vec body) (arm_span keyword.span body))

  unfoldable pub arm_at :
      (List MatchArm → Parse (List MatchArm)) → List MatchArm → Bool → Parse (List MatchArm)
  unfolding parse_match_arm skip_newlines
  arm_at loop done true =
      parse_match_arm >>= λ arm. skip_newlines >>= λ u. loop (done ++ (arm ∷ []))
  arm_at loop done false = return done

  -- The loop over the arms, on fuel.
  unfoldable pub arms_loop : ℕ → List MatchArm → Parse (List MatchArm)
  unfolding check arm_at
  arms_loop zero done = stuck
  arms_loop (suc f) done = check kw_when >>= arm_at (arms_loop f) done

  unfoldable pub parse_match : Parse MatchExpr
  unfolding advance parse_expr expect_newline_or_eof skip_newlines arms_loop expect peek_span merge
  parse_match = advance >>= λ keyword. parse_expr sub fuel >>= λ subject.
      expect_newline_or_eof >>= λ u. skip_newlines >>= λ v. arms_loop fuel [] >>= λ done.
      expect kw_end >>= λ close.
      peek_span >>= λ stop. return (match_of subject (arm_vec done) (merge keyword.span stop))

  unfoldable pub parse_for : Parse ForExpr
  unfolding advance check bindings_at expect parse_expr expect_newline_or_eof peek_span merge
  parse_for = advance >>= λ keyword. check l_paren >>= bindings_at fuel keyword.span >>= λ bindings.
      expect kw_in >>= λ sign. parse_expr sub fuel >>= λ iter. expect_newline_or_eof >>= λ u.
      sub.body >>= λ body. expect kw_end >>= λ close.
      peek_span >>= λ stop. return (for_of bindings iter (stmt_vec body) (merge keyword.span stop))

  unfoldable pub parse_while : Parse WhileExpr
  unfolding advance parse_expr expect_newline_or_eof expect peek_span merge
  parse_while = advance >>= λ keyword. parse_expr sub fuel >>= λ condition.
      expect_newline_or_eof >>= λ u. sub.body >>= λ body. expect kw_end >>= λ close.
      peek_span >>= λ stop. return (while_of condition (stmt_vec body) (merge keyword.span stop))

  unfoldable pub parse_lambda : Parse LambdaExpr
  unfolding advance expect parse_params return_type expect_newline_or_eof peek_span merge
  parse_lambda = advance >>= λ keyword. expect l_paren >>= λ paren. parse_params fuel >>= λ params.
      expect r_paren >>= λ close. return_type fuel >>= λ result. expect_newline_or_eof >>= λ u.
      sub.body >>= λ body. expect kw_end >>= λ last. peek_span >>= λ stop.
      return (lambda_of params result (stmt_vec body) (merge keyword.span stop))
