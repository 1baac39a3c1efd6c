-- ===== src/Parser/Parts/IsTotal.antt =====
-- What the parsers with less fuel are relied on for.
use tyra.Prelude.{ℕ, suc, ◌<◌, List}
use tyra.Syntax.Token.{Token}
use tyra.Parser.Parse.Runs.{Runs, Moves}
use tyra.Parser.Parts.{Parts, Prec}

-- They have results where there are fewer tokens ahead than fuel, closer to the end if there are any.
pub record IsTotal (tokens : List Token) (f : ℕ) (sub : Parts) : Type 0 where
  pub expr_prec-Runs : (prec : Prec) (n : ℕ) → n < f → Runs tokens n (sub.expr_prec prec)
  pub expr_prec-Moves : (prec : Prec) (n : ℕ) → suc n < f → Moves tokens n (sub.expr_prec prec)
  pub body-Runs : (n : ℕ) → n < f → Runs tokens n sub.body
  pub if_expr-Moves : (n : ℕ) → suc n < f → Moves tokens n sub.if_expr
