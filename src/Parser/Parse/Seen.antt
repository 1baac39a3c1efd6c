-- ===== src/Parser/Parse/Seen.antt =====
-- Parsers behind a look at the current token whose kind decides what they do.
use tyra.Prelude.{
  ℕ, suc, ◌-◌, ◌≤◌, ◌<◌, ◌≡◌, ◌⊎◌, refl, sym, ap, ◌∙◌, subst, Bool, true, false, Option, some, List,
  length, get_elem?, arith, inl, inr, Bool-cases, ltb,
}
use mathlib.Core.Option.{some-injective}
use tyra.Diagnostics.Report.{Report}
use tyra.Diagnostics.Span.{Span}
use tyra.Syntax.Token.{TokenKind, Token, eof}
use tyra.Syntax.TokenStream
use tyra.Syntax.TokenStream.{TokenStream, clamp, skipped, token_at, peek_token, matches}
use tyra.Syntax.TokenStream.Cursor.{advance-Advanced}
use tyra.Syntax.TokenStream.Demands.{expect-Demanded, met, missed}
use tyra.Parser.Parse.{Parse, ◌>>=◌, peek_span, peek, advance, expect}
use tyra.Parser.Parse.Runs.{Over, Went, Runs, Moves, ahead, Went-behind, Went-lower}
use tyra.Parser.Parse.Steps.{eof_behind, peek_token-some}

-- Where the current token is of the kind, the parser has a result that is closer to the end.
unfoldable pub Steps : {A : Type 0} → List Token → TokenKind → ℕ → Parse A → Type 0
Steps tokens kind n m =
    (ts : TokenStream) (report : Report)
    → Over tokens ts
    → 0 < ahead ts
    → ahead ts ≤ suc n
    → (t : Token) → peek_token ts ≡ some t
    → t.kind ≡ kind
    → Went tokens 1 ts (m ts report)

-- The tokens have one of the kind.
pub record Held (tokens : List Token) (kind : TokenKind) : Type 0 where
  pub at : ℕ
  pub token : Token
  pub found : get_elem? tokens at ≡ some token
  pub is : token.kind ≡ kind

module _ {A : Type 0} (tokens : List Token) (kind : TokenKind) (n : ℕ) where
  pub Steps-Moves : (m : Parse A) → Moves tokens n m → Steps tokens kind n m
  unfolding Steps Moves
  Steps-Moves m h ts report v some_ahead l t e q = h ts report v some_ahead l

module _ {A B : Type 0} (tokens : List Token) (kind : TokenKind) (n : ℕ) where
  pub Steps-bind :
      (m : Parse A) (k : A → Parse B)
      → Steps tokens kind n m
      → ((a : A) → Runs tokens n (k a))
      → Steps tokens kind n (m >>= k)
  unfolding Steps Runs ◌>>=◌
  Steps-bind m k r h ts report v some_ahead l t e q =
      let w = r ts report v some_ahead l t e q in
      let c = w.closer in Went-behind k w (h w.value w.next w.report w.over (omega arith))

module _ {B : Type 0} (tokens : List Token) (kind : TokenKind) (n : ℕ) where
  pub Steps-advance_then :
      (k : Token → Parse B)
      → ((t : Token) → t.kind ≡ kind → Runs tokens n (k t))
      → Steps tokens kind n (advance >>= k)
  unfolding Steps Runs ◌>>=◌ advance
  Steps-advance_then k h ts report v some_ahead l t e q =
      let a = advance-Advanced ts v.valid in
      let f = a.forward (omega arith) in
      let size = ap length a.same in
      let same = some-injective _ _ (sym a.peeked ∙ e) in
      let w =
        h a.token (ap (λ u. u.kind) same ∙ q) a.next report
          (record { valid = a.valid; same = a.same ∙ v.same }) (omega arith) in
      rw a.result (record {
        value = w.value;
        next = w.next;
        report = w.report;
        result = w.result;
        over = w.over;
        closer = let c = w.closer in omega arith;
      })

  pub Steps-expect_then :
      (k : Option Token → Parse B)
      → matches kind kind ≡ true
      → ((t : Option Token) → Runs tokens n (k t))
      → Steps tokens kind n (expect kind >>= k)
  unfolding Steps Runs ◌>>=◌ expect
  Steps-expect_then k itself h ts report v some_ahead l t e q =
      elim (expect-Demanded kind ts report v.valid) [
        | missed u s m r x ↦
            let same = some-injective _ _ (sym s ∙ e) in
            let b : matches kind kind ≡ false =
              subst (λ k. matches k kind ≡ false) (ap (λ u. u.kind) same ∙ q) m in
            absurd (cc)
        | met a y r x ↦
            let f = a.forward (omega arith) in
            let size = ap length a.same in
            let w =
              h (some a.token) a.next report (record { valid = a.valid; same = a.same ∙ v.same })
                (omega arith) in
            rw r (record {
              value = w.value;
              next = w.next;
              report = w.report;
              result = w.result;
              over = w.over;
              closer = let c = w.closer in omega arith;
            })
      ]

  pub Steps-peek_span_then :
      (k : Span → Parse B)
      → ((s : Span) → Steps tokens kind n (k s))
      → Steps tokens kind n (peek_span >>= k)
  unfolding Steps ◌>>=◌ peek_span TokenStream.peek_span TokenStream.span_of
  Steps-peek_span_then k h ts report v some_ahead l t e q =
      rw e (h t.span ts report v some_ahead l t e q)

  pub Steps-peek_then :
      (k : TokenKind → Parse B) → Steps tokens kind n (k kind) → Steps tokens kind n (peek >>= k)
  unfolding Steps ◌>>=◌ peek TokenStream.peek TokenStream.kind_of
  Steps-peek_then k h ts report v some_ahead l t e q = rw (e, q) (h ts report v some_ahead l t e q)

module _ {B : Type 0} (tokens : List Token) (n : ℕ) where
  pub Moves-peek_kind_then :
      (k : TokenKind → Parse B)
      → ((kind : TokenKind) → Steps tokens kind n (k kind))
      → Moves tokens n (peek >>= k)
  unfolding Steps Moves ◌>>=◌ peek TokenStream.peek TokenStream.kind_of
  Moves-peek_kind_then k h ts report v some_ahead l =
      let (t, e) = peek_token-some ts v.valid in rw e (h t.kind ts report v some_ahead l t e refl)

  pub Moves-peek-Held_then :
      (k : TokenKind → Parse B)
      → ((kind : TokenKind) → Held tokens kind → Moves tokens n (k kind))
      → Moves tokens n (peek >>= k)
  unfolding Moves ◌>>=◌ peek TokenStream.peek TokenStream.kind_of peek_token token_at
  Moves-peek-Held_then k h ts report v some_ahead l =
      let (t, e) = peek_token-some ts v.valid in
      let held : Held tokens t.kind = record {
        at = clamp ts (skipped ts);
        token = t;
        found = ap (λ l. get_elem? l (clamp ts (skipped ts))) (sym v.same) ∙ e;
        is = refl;
      } in
      rw e (h t.kind held ts report v some_ahead l)

  -- Where there are tokens ahead the kind decides between a parser that moves and one that may stay.
  pub Runs-peek_kind_then :
      (k : TokenKind → Parse B)
      → Runs tokens 0 (k eof)
      → ((j : ℕ)
          → n ≡ suc j
          → (kind : TokenKind) → Steps tokens kind j (k kind) ⊎ Runs tokens n (k kind))
      → Runs tokens n (peek >>= k)
  unfolding Steps Runs ◌>>=◌ peek TokenStream.peek TokenStream.kind_of
  Runs-peek_kind_then k z h ts report v l =
      let (t, e) = peek_token-some ts v.valid in
      elim (Bool-cases (ltb 0 (ahead ts))) [
        | inr behind ↦
            let q = eof_behind ts t v.valid (ground arith) e in
            rw (e, q) (z ts report v (ground arith))
        | inl y ↦
            let some_ahead : 0 < ahead ts = ground arith in
            rw e (elim (h (n - 1) (omega arith) t.kind) [
              | inl steps ↦ Went-lower (steps ts report v some_ahead (omega arith) t e refl)
              | inr stays ↦ stays ts report v l
            ])
      ]

  -- The test holds of `eof`.
  pub Runs-peek_test_then :
      (test : TokenKind → Bool) (k : Bool → Parse B)
      → test eof ≡ true
      → Runs tokens n (k true)
      → ((j : ℕ) → n ≡ suc j → Moves tokens j (k false))
      → Runs tokens n (peek >>= λ kind. k (test kind))
  unfolding Runs Moves ◌>>=◌ peek TokenStream.peek TokenStream.kind_of
  Runs-peek_test_then test k at_end r h ts report v l =
      let (t, e) = peek_token-some ts v.valid in
      elim (Bool-cases (test t.kind)) [
        | inl y ↦ rw (e, y) (r ts report v l)
        | inr f ↦ elim (Bool-cases (ltb 0 (ahead ts))) [
          | inl y ↦
              let some_ahead : 0 < ahead ts = ground arith in
              rw (e, f) (Went-lower (h (n - 1) (omega arith) ts report v some_ahead (omega arith)))
          | inr behind ↦
              let q = eof_behind ts t v.valid (ground arith) e in
              let b : test eof ≡ false = subst (λ k. test k ≡ false) q f in absurd (cc)
        ]
      ]
