-- ===== src/Parser/Parse/Newlines.antt =====
-- The operations on newlines and the ends of statements, as parsers that do not panic.
use tyra.Prelude.{ℕ, suc, ◌≡◌, refl, ap, ◌∙◌, Bool, true, false, Option, some, List, length, arith}
use tyra.Syntax.Token.{Token}
use tyra.Syntax.TokenStream
use tyra.Syntax.TokenStream.{TokenStream}
use tyra.Syntax.TokenStream.Newlines.{
  skip_newlines-Skipped, eat_newline-Eaten, stays, steps, step-IsValid,
}
use tyra.Syntax.TokenStream.Terminators.{expect_newline_or_eof-Ended}
use tyra.Parser.Parse.{
  Parse, ◌>>=◌, skip_newlines, eat_newline, expect_newline_or_eof, expect_ident_or_field_keyword,
  peek_ahead_is_colon, outcome,
}
use tyra.Parser.Parse.Runs
use tyra.Parser.Parse.Runs.{Over, Went, Runs, Moves, ahead}
use tyra.Parser.Parse.Steps.{peek_token-some, named-Went}

module _ (tokens : List Token) (n : ℕ) where
  pub skip_newlines-Runs : Runs tokens n skip_newlines
  unfolding Runs skip_newlines
  skip_newlines-Runs ts report v l =
      let s = skip_newlines-Skipped (suc (length ts.tokens)) ts v.valid (omega arith) in
      let f = s.forward in
      let size = ap length s.same in
      record {
        value = tt;
        next = s.rest;
        report = report;
        result = rw s.result refl;
        over = record { valid = s.valid; same = s.same ∙ v.same };
        closer = omega arith;
      }

  pub eat_newline-Runs : Runs tokens n eat_newline
  unfolding Runs eat_newline
  eat_newline-Runs ts report v l = elim (eat_newline-Eaten ts v.valid) [
    | stays e ↦ Runs.stays false report (rw e refl) v
    | steps e b ↦ record {
      value = true;
      next = TokenStream.step ts;
      report = report;
      result = rw e refl;
      over = record { valid = step-IsValid ts v.valid b; same = v.same };
      closer = omega arith;
    }
  ]

  pub expect_newline_or_eof-Runs : Runs tokens n expect_newline_or_eof
  unfolding Runs expect_newline_or_eof
  expect_newline_or_eof-Runs ts report v l =
      let e = expect_newline_or_eof-Ended ts report v.valid in
      let f = e.forward in
      let size = ap length e.same in
      record {
        value = tt;
        next = e.rest;
        report = e.report;
        result = rw e.is refl;
        over = record { valid = e.valid; same = e.same ∙ v.same };
        closer = omega arith;
      }

  pub expect_ident_or_field_keyword-Runs : Runs tokens n expect_ident_or_field_keyword
  unfolding Runs expect_ident_or_field_keyword TokenStream.expect_ident_or_field_keyword
      TokenStream.expect_field_at
  expect_ident_or_field_keyword-Runs ts report v l =
      let (t, e) = peek_token-some ts v.valid in
      rw e (named-Went tokens ts report t (TokenStream.field_name t.kind) v)

  pub outcome-Runs : {A : Type 0} (a : A) (r : Option A) → r ≡ some a → Runs tokens n (outcome r)
  unfolding Runs outcome
  outcome-Runs a r e ts report v l = rw e (Runs.stays a report refl v)

  pub Moves-colon_ahead_then :
      {B : Type 0} (k : Bool → Parse B)
      → ((b : Bool) → Moves tokens n (k b))
      → Moves tokens n (peek_ahead_is_colon >>= k)
  unfolding Moves ◌>>=◌ peek_ahead_is_colon
  Moves-colon_ahead_then k h ts report v some_ahead l =
      h (TokenStream.peek_ahead_is_colon ts) ts report v some_ahead l
