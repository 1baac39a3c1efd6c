-- ===== src/Syntax/TokenStream/Terminators.antt =====
-- The end of a statement, on a stream that ends with `eof`.
use tyra.Prelude.{
  ◌-◌, ◌<◌, ◌≤◌, ◌≡◌, refl, ap, ◌∙◌, Option, some, ltb, ltb→lt, length, get_elem?-some, min, arith,
  inl, inr, Bool-cases,
}
use tyra.Diagnostics.Report.{Report}
use tyra.Syntax.Token.{TokenKind, newline, eof}
use tyra.Syntax.TokenStream.{
  TokenStream, token_at, clamp, kind_of, raw_peek, step, not_ended, end_at, expect_newline_or_eof,
}
use tyra.Syntax.TokenStream.Cursor.{IsValid, token_at-some}
use tyra.Syntax.TokenStream.Newlines.{step-IsValid}

-- A result with a stream that ends with `eof` and is not behind `ts`.
pub record Ended (ts : TokenStream) (result : Option (TokenStream × Report)) : Type 0 where
  pub rest : TokenStream
  pub report : Report
  pub is : result ≡ some (rest, report)
  pub valid : IsValid rest
  pub same : rest.tokens ≡ ts.tokens
  pub forward : ts.pos ≤ rest.pos

end_at-Ended :
    (ts : TokenStream) (report : Report) (kind : TokenKind)
    → IsValid ts
    → ts.pos < length ts.tokens
    → Ended ts (end_at ts report (some kind))
unfolding end_at not_ended
end_at-Ended ts report kind v l =
    let (t, e) = get_elem?-some ts.tokens ts.pos l in
    elim kind as (λ kind. Ended ts (end_at ts report (some kind))) [
      | newline ↦ record {
        rest = step ts;
        report = report;
        is = refl;
        valid = step-IsValid ts v l;
        same = refl;
        forward = omega arith;
      }
      | eof ↦ record {
        rest = ts;
        report = report;
        is = refl;
        valid = v;
        same = refl;
        forward = omega arith;
      }
      | TokenKind.kw_end ↦ record {
        rest = ts;
        report = report;
        is = refl;
        valid = v;
        same = refl;
        forward = omega arith;
      }
      | TokenKind.kw_else ↦ record {
        rest = ts;
        report = report;
        is = refl;
        valid = v;
        same = refl;
        forward = omega arith;
      }
      | TokenKind.kw_when ↦ record {
        rest = ts;
        report = report;
        is = refl;
        valid = v;
        same = refl;
        forward = omega arith;
      }
      | _ ↦ record {
        rest = ts;
        report = _;
        is = ap (not_ended ts report) e;
        valid = v;
        same = refl;
        forward = omega arith;
      }
    ]

end_at-eof : (ts : TokenStream) (report : Report) → end_at ts report (some eof) ≡ some (ts, report)
unfolding end_at
end_at-eof ts report = refl

raw_peek-at_end :
    (ts : TokenStream) → IsValid ts → length ts.tokens ≤ ts.pos → raw_peek ts ≡ some eof
unfolding raw_peek token_at clamp kind_of
raw_peek-at_end ts v l =
    let c : min ts.pos (length ts.tokens - 1) ≡ length ts.tokens - 1 = omega arith in
    rw (c, v.at, v.is_eof) refl

end_at-valid :
    (ts : TokenStream) (report : Report) → IsValid ts → Ended ts (end_at ts report (raw_peek ts))
unfolding raw_peek kind_of
end_at-valid ts report v = elim (Bool-cases (ltb ts.pos (length ts.tokens))) [
  | inl y ↦
      let (t, e) = token_at-some ts ts.pos v in
      let f = end_at-Ended ts report t.kind v (ltb→lt ts.pos (length ts.tokens) y) in rw e f
  | inr n ↦
      let l : length ts.tokens ≤ ts.pos = ground arith in
      let e = raw_peek-at_end ts v l in
      record {
        rest = ts;
        report = report;
        is = ap (end_at ts report) e ∙ end_at-eof ts report;
        valid = v;
        same = refl;
        forward = omega arith;
      }
]

-- On a stream that ends with `eof`, `expect_newline_or_eof` does not panic, although it reads a token
-- at an unclamped index, and leaves such a stream.
pub expect_newline_or_eof-Ended :
    (ts : TokenStream) (report : Report) → IsValid ts → Ended ts (expect_newline_or_eof ts report)
unfolding expect_newline_or_eof
expect_newline_or_eof-Ended ts report v = elim (Bool-cases (ltb 0 ts.bracket_depth)) [
  | inl y ↦ rw y (record {
    rest = ts;
    report = report;
    is = refl;
    valid = v;
    same = refl;
    forward = omega arith;
  })
  | inr n ↦ rw n (end_at-valid ts report v)
]
