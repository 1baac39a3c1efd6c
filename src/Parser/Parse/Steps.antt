-- ===== src/Parser/Parse/Steps.antt =====
-- compiler/crates/tyra-parser/src/token_stream.rs: the moves of the stream and its reports, as parsers.
use tyra.Prelude.{
  ℕ, ◌-◌, ◌≤◌, ◌<◌, ◌≡◌, refl, sym, ap, ◌∙◌, subst, true, false, Option, none, some, List, String,
  length, get_elem?, arith, min, inl, inr, Bool-cases, ltb, nat_eq,
}
use mathlib.Core.Option.{some-injective}
use tyra.Diagnostics.Report.{Report}
use tyra.Diagnostics.Span.{Span}
use tyra.Syntax.Token.{TokenKind, Token, eof}
use tyra.Syntax.TokenStream
use tyra.Syntax.TokenStream.{TokenStream, clamp, skipped, token_at, peek_token, matches}
use tyra.Syntax.TokenStream.Cursor.{IsValid, token_at-some, skipped-forward, advance-Advanced}
use tyra.Syntax.TokenStream.Demands.{expect-Demanded, met, missed}
use tyra.Parser.Parse.{advance, expect, expect_ident, complain}
use tyra.Parser.Parse.Runs.{Over, Went, Runs, Moves, ahead, stays}

-- Behind the last token the stream shows `eof`.
pub eof_behind :
    (ts : TokenStream) (t : Token)
    → IsValid ts
    → ahead ts ≤ 0
    → peek_token ts ≡ some t
    → t.kind ≡ eof
unfolding peek_token token_at clamp
eof_behind ts t v l e =
    let s = skipped-forward ts in
    let n = v.some_tokens in
    let c : length ts.tokens - 1 ≡ min (skipped ts) (length ts.tokens - 1) = omega arith in
    let q = some-injective _ _ (sym v.at ∙ ap (get_elem? ts.tokens) c ∙ e) in
    sym (ap (λ u. u.kind) q) ∙ v.is_eof

pub peek_token-some : (ts : TokenStream) → IsValid ts → (t : Token) × (peek_token ts ≡ some t)
unfolding peek_token
peek_token-some ts v = token_at-some ts (skipped ts) v

pub not_at_eof :
    (ts : TokenStream) (t : Token) (kind : TokenKind)
    → IsValid ts
    → peek_token ts ≡ some t
    → matches t.kind kind ≡ true
    → matches eof kind ≡ false
    → 0 < ahead ts
not_at_eof ts t kind v e y n = elim (Bool-cases (ltb 0 (ahead ts))) [
  | inl some_ahead ↦ ground arith
  | inr behind ↦
      let k = eof_behind ts t v (ground arith) e in
      let b : matches eof kind ≡ true = subst (λ k. matches k kind ≡ true) k y in absurd (cc)
]

pub some_before :
    (ts : TokenStream) (t : Token)
    → IsValid ts
    → peek_token ts ≡ some t
    → matches t.kind eof ≡ false
    → 0 < ahead ts
unfolding matches
some_before ts t v e g = elim (Bool-cases (ltb 0 (ahead ts))) [
  | inl some_ahead ↦ ground arith
  | inr behind ↦
      let q = eof_behind ts t v (ground arith) e in
      let b : matches eof eof ≡ false = subst (λ k. matches k eof ≡ false) q g in
      absurd (ground arith)
]

pub advance-Went :
    (tokens : List Token) (ts : TokenStream) (report : Report)
    → Over tokens ts
    → 0 < ahead ts
    → Went tokens 1 ts (advance ts report)
unfolding advance
advance-Went tokens ts report v some_ahead =
    let a = advance-Advanced ts v.valid in
    let f = a.forward (omega arith) in
    let size = ap length a.same in
    record {
      value = a.token;
      next = a.next;
      report = report;
      result = rw a.result refl;
      over = record { valid = a.valid; same = a.same ∙ v.same };
      closer = omega arith;
    }

pub advance-Moves : (tokens : List Token) (n : ℕ) → Moves tokens n advance
unfolding Moves
advance-Moves tokens n ts report v some_ahead l = advance-Went tokens ts report v some_ahead

pub advance-Runs : (tokens : List Token) (n : ℕ) → Runs tokens n advance
unfolding Runs advance
advance-Runs tokens n ts report v l =
    let a = advance-Advanced ts v.valid in
    let f = a.onward in
    let size = ap length a.same in
    record {
      value = a.token;
      next = a.next;
      report = report;
      result = rw a.result refl;
      over = record { valid = a.valid; same = a.same ∙ v.same };
      closer = omega arith;
    }

pub expect-Runs : (tokens : List Token) (n : ℕ) (kind : TokenKind) → Runs tokens n (expect kind)
unfolding Runs expect
expect-Runs tokens n kind ts report v l = elim (expect-Demanded kind ts report v.valid) [
  | met a y q e ↦
      let f = a.onward in
      let size = ap length a.same in
      record {
        value = some a.token;
        next = a.next;
        report = report;
        result = q;
        over = record { valid = a.valid; same = a.same ∙ v.same };
        closer = omega arith;
      }
  | missed t s m q e ↦ stays none _ q v
]

pub complain-Runs :
    (tokens : List Token) (n : ℕ) (message code : String) (span : Span) (label : String)
    → Runs tokens n (complain message code span label)
unfolding Runs complain
complain-Runs tokens n message code span label ts report v l = stays tt _ refl v

pub named-Went :
    (tokens : List Token) (ts : TokenStream) (report : Report) (t : Token) (name : Option String)
    → Over tokens ts
    → Went tokens 0 ts (TokenStream.named_or ts report t name)
unfolding TokenStream.named_or TokenStream.taken TokenStream.no_ident
named-Went tokens ts report t none v = stays none _ refl v
named-Went tokens ts report t (some name) v =
    let a = advance-Advanced ts v.valid in
    let f = a.onward in
    let size = ap length a.same in
    record {
      value = some name;
      next = a.next;
      report = report;
      result = rw a.result refl;
      over = record { valid = a.valid; same = a.same ∙ v.same };
      closer = omega arith;
    }

pub expect_ident-Runs : (tokens : List Token) (n : ℕ) → Runs tokens n expect_ident
unfolding Runs expect_ident TokenStream.expect_ident TokenStream.expect_ident_at
expect_ident-Runs tokens n ts report v l =
    let (t, e) = peek_token-some ts v.valid in
    rw e (named-Went tokens ts report t (TokenStream.ident_of t.kind) v)
