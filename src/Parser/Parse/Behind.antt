-- ===== src/Parser/Parse/Behind.antt =====
-- Parsers behind a look at the current token, or a move over it.
use tyra.Prelude.{
  ℕ, suc, ◌+◌, ◌-◌, ◌≡◌, refl, ap, ◌∙◌, Bool, true, false, List, length, arith, inl, inr,
  Bool-cases, nat_eq,
}
use tyra.Diagnostics.Span.{Span}
use tyra.Syntax.Token.{TokenKind, Token, eof}
use tyra.Syntax.TokenStream
use tyra.Syntax.TokenStream.{TokenStream, clamp, skipped, token_at, peek_token, matches}
use tyra.Syntax.TokenStream.Cursor.{token_at-some}
use tyra.Syntax.TokenStream.Demands.{expect-Demanded, met, missed}
use tyra.Parser.Parse.{
  Parse, ◌>>=◌, peek_span, peek, check, more_before, advance, eat, at_eof, peek_past_newlines,
  peek_second,
}
use tyra.Parser.Parse.Runs.{Runs, Moves, stays, Runs-bind, Went-lower, Went-behind}
use tyra.Parser.Parse.Steps.{
  not_at_eof, eof_behind, peek_token-some, some_before, advance-Went, advance-Runs,
}

module _ {B : Type 0} (tokens : List Token) (n : ℕ) where
  pub Runs-peek_span_then :
      (k : Span → Parse B) → ((s : Span) → Runs tokens n (k s)) → Runs tokens n (peek_span >>= k)
  unfolding Runs ◌>>=◌ peek_span TokenStream.peek_span TokenStream.span_of
  Runs-peek_span_then k h ts report v l =
      let (t, e) = peek_token-some ts v.valid in rw e (h t.span ts report v l)

  pub Moves-peek_span_then :
      (k : Span → Parse B) → ((s : Span) → Moves tokens n (k s)) → Moves tokens n (peek_span >>= k)
  unfolding Moves ◌>>=◌ peek_span TokenStream.peek_span TokenStream.span_of
  Moves-peek_span_then k h ts report v some_ahead l =
      let (t, e) = peek_token-some ts v.valid in rw e (h t.span ts report v some_ahead l)

  pub Runs-peek_then :
      (k : TokenKind → Parse B)
      → ((kind : TokenKind) → Runs tokens n (k kind))
      → Runs tokens n (peek >>= k)
  unfolding Runs ◌>>=◌ peek TokenStream.peek TokenStream.kind_of
  Runs-peek_then k h ts report v l =
      let (t, e) = peek_token-some ts v.valid in rw e (h t.kind ts report v l)

  pub Moves-peek_then :
      (k : TokenKind → Parse B)
      → ((kind : TokenKind) → Moves tokens n (k kind))
      → Moves tokens n (peek >>= k)
  unfolding Moves ◌>>=◌ peek TokenStream.peek TokenStream.kind_of
  Moves-peek_then k h ts report v some_ahead l =
      let (t, e) = peek_token-some ts v.valid in rw e (h t.kind ts report v some_ahead l)

  -- Behind the last token there is one less ahead.
  pub Moves-advance_then :
      (k : Token → Parse B) → ((t : Token) → Runs tokens n (k t)) → Moves tokens n (advance >>= k)
  unfolding Moves Runs ◌>>=◌
  Moves-advance_then k h ts report v some_ahead l =
      let w = advance-Went tokens ts report v some_ahead in
      let c = w.closer in Went-behind k w (h w.value w.next w.report w.over (omega arith))

  pub advance_then-total :
      (k : Token → Parse B)
      → ((t : Token) → Runs tokens n (k t))
      → Runs tokens n (advance >>= k) × Moves tokens n (advance >>= k)
  advance_then-total k h =
      (Runs-bind tokens n advance k (advance-Runs tokens n) h, Moves-advance_then k h)

  pub Runs-check_then :
      (kind : TokenKind) (k : Bool → Parse B)
      → matches eof kind ≡ false
      → Runs tokens n (k false)
      → ((j : ℕ) → n ≡ suc j → Moves tokens j (k true))
      → Runs tokens n (check kind >>= k)
  unfolding Runs Moves ◌>>=◌ check TokenStream.check TokenStream.kind_test TokenStream.peek
      TokenStream.kind_of
  Runs-check_then kind k not_eof r h ts report v l =
      let (t, e) = peek_token-some ts v.valid in
      elim (Bool-cases (matches t.kind kind)) [
        | inr f ↦ rw (e, f) (r ts report v l)
        | inl y ↦
            let some_ahead = not_at_eof ts t kind v.valid e y not_eof in
            rw (e, y) (Went-lower (h (n - 1) (omega arith) ts report v some_ahead (omega arith)))
      ]

  pub Runs-eat_then :
      (kind : TokenKind) (k : Bool → Parse B)
      → matches eof kind ≡ false
      → Runs tokens n (k false)
      → ((j : ℕ) → n ≡ suc j → Runs tokens j (k true))
      → Runs tokens n (eat kind >>= k)
  unfolding Runs ◌>>=◌ eat
  Runs-eat_then kind k not_eof r h ts report v l = elim (expect-Demanded kind ts report v.valid) [
    | missed t s m q e ↦ rw e (r ts report v l)
    | met a y q e ↦
        let some_ahead = not_at_eof ts a.token kind v.valid a.peeked y not_eof in
        let f = a.forward (omega arith) in
        let size = ap length a.same in
        let w =
          h (n - 1) (omega arith) a.next report (record { valid = a.valid; same = a.same ∙ v.same })
            (omega arith) in
        let c = w.closer in
        rw e (record {
          value = w.value;
          next = w.next;
          report = w.report;
          result = w.result;
          over = w.over;
          closer = omega arith;
        })
  ]

  pub Runs-more_before_then :
      (close : TokenKind) (k : Bool → Parse B)
      → Runs tokens n (k false)
      → ((j : ℕ) → n ≡ suc j → Moves tokens j (k true))
      → Runs tokens n (more_before close >>= k)
  unfolding Runs Moves ◌>>=◌ more_before TokenStream.check TokenStream.kind_test TokenStream.peek
      TokenStream.kind_of TokenStream.at_eof
  Runs-more_before_then close k r h ts report v l =
      let (t, e) = peek_token-some ts v.valid in
      elim (Bool-cases (matches t.kind close)) [
        | inl y ↦ rw (e, y) (r ts report v l)
        | inr f ↦ elim (Bool-cases (matches t.kind eof)) [
          | inl y ↦ rw (e, f, e, y) (r ts report v l)
          | inr g ↦
              let some_ahead = some_before ts t v.valid e g in
              rw (e, f, e, g)
                (Went-lower (h (n - 1) (omega arith) ts report v some_ahead (omega arith)))
        ]
      ]

-- Behind the last token the current kind is `eof`.
pub Runs-end_then :
    {B : Type 0} (tokens : List Token) (k : TokenKind → Parse B)
    → Runs tokens 0 (k eof)
    → Runs tokens 0 (peek >>= k)
unfolding Runs ◌>>=◌ peek TokenStream.peek TokenStream.kind_of
Runs-end_then tokens k h ts report v l =
    let (t, e) = peek_token-some ts v.valid in
    let q = eof_behind ts t v.valid l e in rw (e, q) (h ts report v l)

-- Whether or not the token is there.
pub Runs-checked_then :
    {B : Type 0} (tokens : List Token) (n : ℕ) (kind : TokenKind) (k : Bool → Parse B)
    → ((b : Bool) → Runs tokens n (k b))
    → Runs tokens n (check kind >>= k)
unfolding Runs ◌>>=◌ check TokenStream.check TokenStream.kind_test TokenStream.peek
    TokenStream.kind_of
Runs-checked_then tokens n kind k h ts report v l =
    let (t, e) = peek_token-some ts v.valid in rw e (h (matches t.kind kind) ts report v l)

pub eat-Runs : (tokens : List Token) (n : ℕ) (kind : TokenKind) → Runs tokens n (eat kind)
unfolding Runs eat
eat-Runs tokens n kind ts report v l = elim (expect-Demanded kind ts report v.valid) [
  | missed t s m q e ↦ stays false report (rw e refl) v
  | met a y q e ↦
      let f = a.onward in
      let size = ap length a.same in
      record {
        value = true;
        next = a.next;
        report = report;
        result = rw e refl;
        over = record { valid = a.valid; same = a.same ∙ v.same };
        closer = omega arith;
      }
]

-- Before `eof` there are tokens ahead.
pub Runs-at_eof_then :
    {B : Type 0} (tokens : List Token) (n : ℕ) (k : Bool → Parse B)
    → Runs tokens n (k true)
    → ((j : ℕ) → n ≡ suc j → Moves tokens j (k false))
    → Runs tokens n (at_eof >>= k)
unfolding Runs Moves ◌>>=◌ at_eof TokenStream.at_eof TokenStream.check TokenStream.kind_test
    TokenStream.peek TokenStream.kind_of
Runs-at_eof_then tokens n k r h ts report v l =
    let (t, e) = peek_token-some ts v.valid in
    elim (Bool-cases (matches t.kind eof)) [
      | inl y ↦ rw (e, y) (r ts report v l)
      | inr g ↦
          let some_ahead = some_before ts t v.valid e g in
          rw (e, g) (Went-lower (h (n - 1) (omega arith) ts report v some_ahead (omega arith)))
    ]

pub peek_past_newlines-Runs : (tokens : List Token) (n : ℕ) → Runs tokens n peek_past_newlines
unfolding Runs peek_past_newlines TokenStream.peek_past_newlines TokenStream.kind_of
peek_past_newlines-Runs tokens n ts report v l =
    let (t, e) = token_at-some ts (TokenStream.past_newlines ts.tokens ts.pos) v.valid in
    stays t.kind report (rw e refl) v

pub peek_second-Runs : (tokens : List Token) (n : ℕ) → Runs tokens n peek_second
unfolding Runs peek_second TokenStream.peek_second TokenStream.kind_of
peek_second-Runs tokens n ts report v l =
    let (t, e) =
      token_at-some ts (TokenStream.past_newlines ts.tokens (clamp ts (skipped ts) + 1)) v.valid in
    stays t.kind report (rw e refl) v
