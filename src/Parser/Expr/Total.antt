-- ===== src/Parser/Expr/Total.antt =====
-- The loop over operators ends, and its `unwrap` does not panic.
use tyra.Prelude.{
  ℕ, suc, zero, ◌<◌, ◌≡◌, ◌⊎◌, inl, inr, refl, sym, ap, ◌∙◌, subst, Bool, ◌&&◌, Option, some, none,
  List, String, arith, Bool-cases, leb,
}
use tyra.Syntax.Token.{
  TokenKind, Token, kw_or, kw_and, eq_eq, bang_eq, eq_eq_eq, lt, lt_eq, gt, gt_eq, plus, minus,
  star, slash, percent,
}
use tyra.Parser.Parse.{Parse}
use tyra.Parser.Parse.Runs.{Runs, Moves, return-Runs, Runs-bind, Moves-bind}
use tyra.Parser.Parse.Behind.{Moves-advance_then}
use tyra.Parser.Parse.Newlines.{outcome-Runs}
use tyra.Parser.Parse.Seen.{Steps, Held, Steps-Moves, Steps-advance_then, Runs-peek_kind_then}
use tyra.Parser.Ast.{Expr, BinOp}
use tyra.Parser.Parts.{Parts, Prec, rank}
use tyra.Parser.Parts.IsTotal.{IsTotal}
use tyra.Parser.Postfix.Total.{parse_postfix-Runs}
use tyra.Parser.Prefix.Total.{Fine, parse_prefix-Runs, parse_prefix-Moves}
use tyra.Parser.Expr.{
  infix_precedence, token_to_binop, is_eq, ends_at, operand, infix_at, assigned, operator_at,
  expr_loop, parse_expr_prec,
}

-- Each token with an infix precedence is a binary operator, so the `unwrap` of `parse_expr_prec` gives one.
pub infix-token_to_binop :
    (kind : TokenKind) (prec : Prec)
    → infix_precedence kind ≡ some prec
    → (op : BinOp) × (token_to_binop kind ≡ some op)
unfolding infix_precedence token_to_binop
infix-token_to_binop kw_or prec e = (BinOp.or, refl)
infix-token_to_binop kw_and prec e = (BinOp.and, refl)
infix-token_to_binop eq_eq prec e = (BinOp.eq, refl)
infix-token_to_binop bang_eq prec e = (BinOp.not_eq, refl)
infix-token_to_binop eq_eq_eq prec e = (BinOp.ref_eq, refl)
infix-token_to_binop lt prec e = (BinOp.lt, refl)
infix-token_to_binop lt_eq prec e = (BinOp.lt_eq, refl)
infix-token_to_binop gt prec e = (BinOp.gt, refl)
infix-token_to_binop gt_eq prec e = (BinOp.gt_eq, refl)
infix-token_to_binop plus prec e = (BinOp.add, refl)
infix-token_to_binop minus prec e = (BinOp.sub, refl)
infix-token_to_binop star prec e = (BinOp.mul, refl)
infix-token_to_binop slash prec e = (BinOp.div, refl)
infix-token_to_binop percent prec e = (BinOp.rem, refl)
infix-token_to_binop kind prec e = absurd (cc)

module _ (tokens : List Token) (is_uppercase : ℕ → Bool) (inner : String → Option Expr) (f : ℕ)
    (sub : Parts) (total : IsTotal tokens f sub) (min_prec : Prec) where
  -- With the loop on fewer tokens, behind one left operand.
  module _ (n : ℕ) (l : n < f) (loop : Expr → Parse Expr)
      (again : (e : Expr) → Runs tokens n (loop e)) (left : Expr) where
    operand-Steps :
        (kind : TokenKind) (prec : Prec)
        → infix_precedence kind ≡ some prec
        → Steps tokens kind n (operand is_uppercase inner sub (suc f) min_prec loop left prec)
    unfolding operand
    operand-Steps kind prec e = Steps-advance_then tokens kind n _ (λ token q.
        let (op, b) = infix-token_to_binop kind prec e in
        Runs-bind tokens n _ _
          (outcome-Runs tokens n op (token_to_binop token.kind) (ap token_to_binop q ∙ b))
          (λ op. Runs-bind tokens n _ _ (total.expr_prec-Runs prec n l) (λ right. again _)))

    assigned-Moves : Moves tokens n (assigned is_uppercase inner sub (suc f) min_prec loop left)
    unfolding assigned
    assigned-Moves = Moves-advance_then tokens n _ (λ sign.
        Runs-bind tokens n _ _ (total.expr_prec-Runs Prec.assignment n l) (λ right. again _))

    abbrev Ends : TokenKind → Parse Expr → Type 0
    Ends kind m = Steps tokens kind n m ⊎ Runs tokens (suc n) m

    infix_at-Ends :
        (kind : TokenKind) (found : Option Prec)
        → infix_precedence kind ≡ found
        → Ends kind (infix_at is_uppercase inner sub (suc f) min_prec loop left found)
    unfolding infix_at
    infix_at-Ends kind none e = inr (return-Runs tokens (suc n) left)
    infix_at-Ends kind (some prec) e = elim (Bool-cases (ends_at prec min_prec)) [
      | inl y ↦ rw y (inr (return-Runs tokens (suc n) left))
      | inr f ↦ rw f (inl (operand-Steps kind prec e))
    ]

    operator_at-Ends :
        (kind : TokenKind)
        → Ends kind (operator_at is_uppercase inner sub (suc f) min_prec loop left kind)
    unfolding operator_at
    operator_at-Ends kind =
        elim (Bool-cases (is_eq kind && leb (rank min_prec) (rank Prec.assignment))) [
          | inl y ↦ rw y (inl (Steps-Moves tokens kind n _ assigned-Moves))
          | inr f ↦ rw f (infix_at-Ends kind (infix_precedence kind) refl)
        ]

  expr_loop-Runs :
      (g n : ℕ) (left : Expr)
      → n < g
      → n < suc f
      → Runs tokens n (expr_loop is_uppercase inner sub (suc f) min_prec g left)
  unfolding expr_loop operator_at is_eq infix_precedence infix_at
  expr_loop-Runs zero n left l small = absurd (omega arith)
  expr_loop-Runs (suc g) n left l small =
      Runs-bind tokens n _ _ (parse_postfix-Runs tokens f sub total (suc f) n left small small)
        (λ e. Runs-peek_kind_then tokens n _ (return-Runs tokens 0 e) (λ j q kind.
          subst
            (λ n.
              Steps tokens kind j (
                operator_at is_uppercase inner sub (suc f) min_prec
                  (expr_loop is_uppercase inner sub (suc f) min_prec g) e kind)
              ⊎ Runs tokens n (
                  operator_at is_uppercase inner sub (suc f) min_prec
                    (expr_loop is_uppercase inner sub (suc f) min_prec g) e kind))
            (sym q)
            (operator_at-Ends j (omega arith) (expr_loop is_uppercase inner sub (suc f) min_prec g)
              (λ e. expr_loop-Runs g j e (omega arith) (omega arith)) e kind)))

  module _ (fine : (kind : TokenKind) → Held tokens kind → Fine inner kind) where
    pub parse_expr_prec-Runs :
        (n : ℕ)
        → n < suc f
        → Runs tokens n (parse_expr_prec is_uppercase inner sub (suc f) min_prec)
    unfolding parse_expr_prec
    parse_expr_prec-Runs n l =
        Runs-bind tokens n _ _ (parse_prefix-Runs tokens is_uppercase inner f sub total fine n l)
          (λ left. expr_loop-Runs (suc f) n left l l)

    pub parse_expr_prec-Moves :
        (n : ℕ) → n < f → Moves tokens n (parse_expr_prec is_uppercase inner sub (suc f) min_prec)
    unfolding parse_expr_prec
    parse_expr_prec-Moves n l =
        Moves-bind tokens n _ _ (parse_prefix-Moves tokens is_uppercase inner f sub total fine n l)
          (λ left. expr_loop-Runs (suc f) n left (omega arith) (omega arith))
