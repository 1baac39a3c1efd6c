-- ===== src/Syntax/TokenStream/Newlines.antt =====
-- The loop over newlines ends, and the operations that end a statement do not run off the stream.
use mathlib.Core.Option.{some-injective}
use tyra.Prelude.{
  ℕ, zero, suc, ◌+◌, ◌-◌, ◌≤◌, ◌<◌, ◌≡◌, refl, sym, ap, ◌∙◌, true, false, some, ◌==◌, nat_eq, ltb,
  length, get_elem?, arith, min, inl, inr, Bool-cases, ltb→lt,
}
use tyra.Syntax.Token.{Token}
use tyra.Syntax.TokenStream.{
  TokenStream, is_newline, clamp, token_at, kind_of, raw_peek, step, newline_at, eat_newline, again,
  skip_newlines,
}
use tyra.Syntax.TokenStream.Cursor.{IsValid, token_at-some, is_newline-eof}

-- A stream whose raw current token is a newline stands before the end.
before_end :
    (ts : TokenStream) (t : Token)
    → IsValid ts
    → token_at ts ts.pos ≡ some t
    → is_newline t.kind ≡ true
    → ts.pos < length ts.tokens
unfolding token_at clamp
before_end ts t v e y = elim (Bool-cases (ltb ts.pos (length ts.tokens))) [
  | inl l ↦ ltb→lt ts.pos (length ts.tokens) l
  | inr n ↦
      let l : length ts.tokens ≤ ts.pos = ground arith in
      let c : min ts.pos (length ts.tokens - 1) ≡ length ts.tokens - 1 = omega arith in
      let q = some-injective _ _ (sym v.at ∙ ap (get_elem? ts.tokens) (sym c) ∙ e) in
      let f = is_newline-eof t.kind (sym (ap (λ u. u.kind) q) ∙ v.is_eof) in absurd cc
]

pub step-IsValid : (ts : TokenStream) → IsValid ts → ts.pos < length ts.tokens → IsValid (step ts)
step-IsValid ts v l = record {
  last = v.last;
  at = v.at;
  is_eof = v.is_eof;
  some_tokens = v.some_tokens;
  within = omega arith;
}

-- What `eat_newline` does to a valid stream: it stays, or it steps over a newline.
pub data Eaten (ts : TokenStream) : Type 0 where
  stays : eat_newline ts ≡ some (false, ts) → Eaten ts
  steps : eat_newline ts ≡ some (true, step ts) → ts.pos < length ts.tokens → Eaten ts

pub eat_newline-Eaten : (ts : TokenStream) → IsValid ts → Eaten ts
unfolding eat_newline newline_at raw_peek kind_of
eat_newline-Eaten ts v = elim (Bool-cases (ts.bracket_depth == 0)) [
  | inr n ↦ stays (rw n refl)
  | inl z ↦
      let (t, e) = token_at-some ts ts.pos v in
      elim (Bool-cases (is_newline t.kind)) [
        | inl y ↦ steps (rw (z, e, y) refl) (before_end ts t v e y)
        | inr n ↦ stays (rw (z, e, n) refl)
      ]
]

-- Where the loop ends.
pub record Skipped (fuel : ℕ) (ts : TokenStream) : Type 0 where
  pub rest : TokenStream
  pub result : skip_newlines fuel ts ≡ some rest
  pub valid : IsValid rest
  pub stopped : eat_newline rest ≡ some (false, rest)
  pub same : rest.tokens ≡ ts.tokens
  pub forward : ts.pos ≤ rest.pos

-- On a stream that ends with `eof`, the loop of `skip_newlines` ends within one round more than there
-- are tokens ahead, where `eat_newline` finds nothing.
pub skip_newlines-Skipped :
    (fuel : ℕ) (ts : TokenStream) → IsValid ts → length ts.tokens < fuel + ts.pos → Skipped fuel ts
unfolding skip_newlines again
skip_newlines-Skipped zero ts v h = absurd (let w = v.within in omega arith)
skip_newlines-Skipped (suc fuel) ts v h = elim (eat_newline-Eaten ts v) [
  | stays e ↦ record {
    rest = ts;
    result = rw e refl;
    valid = v;
    stopped = e;
    same = refl;
    forward = omega arith;
  }
  | steps e l ↦
      let r = skip_newlines-Skipped fuel (step ts) (step-IsValid ts v l) (omega arith) in
      record {
        rest = r.rest;
        result = rw e r.result;
        valid = r.valid;
        stopped = r.stopped;
        same = r.same;
        forward = let f = r.forward in omega arith;
      }
]
