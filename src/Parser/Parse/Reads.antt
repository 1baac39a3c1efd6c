-- ===== src/Parser/Parse/Reads.antt =====
-- Parsers on streams that show given kinds: what they read, and that they report nothing.
use tyra.Prelude.{
  ℕ, zero, suc, ◌+◌, ◌<◌, ◌≡◌, refl, ap, ◌∙◌, Bool, true, false, Option, some, List, [], ◌∷◌,
  length, get_elem?, drop, arith, inl, inr, Bool-cases, ltb,
}
use tyra.Diagnostics.Report.{Report}
use tyra.Diagnostics.Span.{Span}
use tyra.Syntax.Token.{TokenKind, Token, eof}
use tyra.Syntax.TokenStream
use tyra.Syntax.TokenStream.{
  TokenStream, clamp, skipped, token_at, peek_token, matches, is_newline, leading, past_newlines,
}
use tyra.Parser.Parse.{
  Parse, return, ◌>>=◌, then_parse, peek_span, peek, check, more_before, advance, eat, expect,
}

abbrev pub kinds_of : List Token → List TokenKind
kinds_of [] = []
kinds_of (t ∷ ts) = t.kind ∷ kinds_of ts

-- The kinds of the tokens ahead.
abbrev pub Shows : TokenStream → List TokenKind → Type 0
Shows ts kinds = kinds_of (drop ts.pos ts.tokens) ≡ kinds

-- A result without a new diagnostic, on a stream that shows the rest.
pub record Parses {A : Type 0} (ok : A → Type 0) (rest : List TokenKind) (report : Report)
    (r : Option (A × (TokenStream × Report))) : Type 0 where
  pub value : A
  pub next : TokenStream
  pub result : r ≡ some (value, (next, report))
  pub good : ok value
  pub shows : Shows next rest

-- Where the kinds are ahead the parser reads them, up to the rest.
unfoldable pub Reads :
    {A : Type 0} → List TokenKind → List TokenKind → Parse A → (A → Type 0) → Type 0
Reads kinds rest m ok =
    (ts : TokenStream) (report : Report) → Shows ts kinds → Parses ok rest report (m ts report)

record Split (tokens : List Token) (i : ℕ) (kind : TokenKind) (kinds : List TokenKind)
    : Type 0 where
  token : Token
  found : get_elem? tokens i ≡ some token
  is : token.kind ≡ kind
  behind : kinds_of (drop (suc i) tokens) ≡ kinds
  inside : i < length tokens
  here : (more : List Token) × (drop i tokens ≡ token ∷ more)

split :
    (tokens : List Token) (i : ℕ) (kind : TokenKind) (kinds : List TokenKind)
    → kinds_of (drop i tokens) ≡ kind ∷ kinds
    → Split tokens i kind kinds
split [] zero kind kinds e = absurd (cc)
split [] (suc i) kind kinds e = absurd (cc)
split (t ∷ ts) zero kind kinds e = record {
  token = t;
  found = refl;
  is = cc;
  behind = cc;
  inside = omega arith;
  here = (ts, refl);
}
split (t ∷ ts) (suc i) kind kinds e =
    let s = split ts i kind kinds e in
    record {
      token = s.token;
      found = s.found;
      is = s.is;
      behind = s.behind;
      inside = let l = s.inside in omega arith;
      here = s.here;
    }

-- The current token of a stream that shows a kind which is no newline.
record Current (ts : TokenStream) (kind : TokenKind) (kinds : List TokenKind) : Type 0 where
  token : Token
  next : TokenStream
  is : token.kind ≡ kind
  peeked : peek_token ts ≡ some token
  advanced : TokenStream.advance ts ≡ some (token, next)
  shows : Shows next kinds

-- The loop over newlines stays at a token that is none.
stands :
    (ts : TokenStream) (kind : TokenKind)
    → is_newline kind ≡ false
    → (t : Token) → t.kind ≡ kind
    → (more : List Token) → drop ts.pos ts.tokens ≡ t ∷ more
    → ts.pos < length ts.tokens
    → clamp ts (skipped ts) ≡ ts.pos
unfolding clamp skipped past_newlines leading
stands ts kind plain t is more e l =
    let n : is_newline t.kind ≡ false = ap is_newline is ∙ plain in
    let z : leading (drop ts.pos ts.tokens) ≡ 0 = rw (e, leading, n) refl in
    elim (Bool-cases (ltb 0 ts.bracket_depth)) [
      | inl y ↦ rw (y, z) (omega arith)
      | inr f ↦ rw f (omega arith)
    ]

current :
    (ts : TokenStream) (kind : TokenKind) (kinds : List TokenKind)
    → is_newline kind ≡ false
    → Shows ts (kind ∷ kinds)
    → Current ts kind kinds
unfolding peek_token token_at TokenStream.advance TokenStream.advance_over
current ts kind kinds plain e =
    let s = split ts.tokens ts.pos kind kinds e in
    let q : clamp ts (skipped ts) ≡ ts.pos =
      stands ts kind plain s.token s.is s.here.0 s.here.1 s.inside in
    record {
      token = s.token;
      next = record {
        tokens = ts.tokens;
        pos = ts.pos + 1;
        bracket_depth = TokenStream.track_brackets s.token.kind ts.bracket_depth;
      };
      is = s.is;
      peeked = rw q s.found;
      advanced = rw (q, s.found) refl;
      shows = let p : ts.pos + 1 ≡ suc ts.pos = omega arith in rw p s.behind;
    }

pub Reads-return :
    {A : Type 0} (rest : List TokenKind) (ok : A → Type 0) (a : A)
    → ok a
    → Reads rest rest (return a) ok
unfolding Reads return
Reads-return rest ok a good ts report e = record {
  value = a;
  next = ts;
  result = refl;
  good = good;
  shows = e;
}

module _ {A B : Type 0} where
  pub Reads-bind :
      (kinds between rest : List TokenKind) (m : Parse A) (k : A → Parse B) (fine : A → Type 0)
      (ok : B → Type 0)
      → Reads kinds between m fine
      → ((a : A) → fine a → Reads between rest (k a) ok)
      → Reads kinds rest (m >>= k) ok
  unfolding Reads ◌>>=◌
  Reads-bind kinds between rest m k fine ok r h ts report e =
      let w = r ts report e in
      let v = h w.value w.good w.next report w.shows in
      record {
        value = v.value;
        next = v.next;
        result = ap (then_parse k) w.result ∙ v.result;
        good = v.good;
        shows = v.shows;
      }

module _ {B : Type 0} (kind : TokenKind) (kinds rest : List TokenKind) (ok : B → Type 0)
    (plain : is_newline kind ≡ false) where
  pub Reads-advance_then :
      (k : Token → Parse B)
      → ((t : Token) → Reads kinds rest (k t) ok)
      → Reads (kind ∷ kinds) rest (advance >>= k) ok
  unfolding Reads ◌>>=◌ advance
  Reads-advance_then k h ts report e =
      let c = current ts kind kinds plain e in rw c.advanced (h c.token c.next report c.shows)

  pub Reads-peek_then :
      (k : TokenKind → Parse B)
      → Reads (kind ∷ kinds) rest (k kind) ok
      → Reads (kind ∷ kinds) rest (peek >>= k) ok
  unfolding Reads ◌>>=◌ peek TokenStream.peek TokenStream.kind_of
  Reads-peek_then k h ts report e =
      let c = current ts kind kinds plain e in rw (c.peeked, c.is) (h ts report e)

  pub Reads-peek_span_then :
      (k : Span → Parse B)
      → ((s : Span) → Reads (kind ∷ kinds) rest (k s) ok)
      → Reads (kind ∷ kinds) rest (peek_span >>= k) ok
  unfolding Reads ◌>>=◌ peek_span TokenStream.peek_span TokenStream.span_of
  Reads-peek_span_then k h ts report e =
      let c = current ts kind kinds plain e in rw c.peeked (h c.token.span ts report e)

  pub Reads-check_then :
      (expected : TokenKind) (k : Bool → Parse B)
      → Reads (kind ∷ kinds) rest (k (matches kind expected)) ok
      → Reads (kind ∷ kinds) rest (check expected >>= k) ok
  unfolding Reads ◌>>=◌ check TokenStream.check TokenStream.kind_test TokenStream.peek
      TokenStream.kind_of
  Reads-check_then expected k h ts report e =
      let c = current ts kind kinds plain e in rw (c.peeked, c.is) (h ts report e)

  pub Reads-more_before_then :
      (close : TokenKind) (k : Bool → Parse B)
      → matches kind close ≡ false
      → matches kind eof ≡ false
      → Reads (kind ∷ kinds) rest (k true) ok
      → Reads (kind ∷ kinds) rest (more_before close >>= k) ok
  unfolding Reads ◌>>=◌ more_before TokenStream.check TokenStream.kind_test TokenStream.peek
      TokenStream.kind_of TokenStream.at_eof
  Reads-more_before_then close k other before h ts report e =
      let c = current ts kind kinds plain e in
      rw (c.peeked, c.is, other, c.peeked, c.is, before) (h ts report e)

  pub Reads-none_before_then :
      (close : TokenKind) (k : Bool → Parse B)
      → matches kind close ≡ true
      → Reads (kind ∷ kinds) rest (k false) ok
      → Reads (kind ∷ kinds) rest (more_before close >>= k) ok
  unfolding Reads ◌>>=◌ more_before TokenStream.check TokenStream.kind_test TokenStream.peek
      TokenStream.kind_of
  Reads-none_before_then close k same h ts report e =
      let c = current ts kind kinds plain e in rw (c.peeked, c.is, same) (h ts report e)

  pub Reads-eat_then :
      (expected : TokenKind) (k : Bool → Parse B)
      → matches kind expected ≡ true
      → Reads kinds rest (k true) ok
      → Reads (kind ∷ kinds) rest (eat expected >>= k) ok
  unfolding Reads ◌>>=◌ eat TokenStream.eat TokenStream.eat_at TokenStream.eaten TokenStream.check
      TokenStream.kind_test TokenStream.peek TokenStream.kind_of
  Reads-eat_then expected k same h ts report e =
      let c = current ts kind kinds plain e in
      rw (c.peeked, c.is, same, c.advanced) (h c.next report c.shows)

  pub Reads-uneaten_then :
      (expected : TokenKind) (k : Bool → Parse B)
      → matches kind expected ≡ false
      → Reads (kind ∷ kinds) rest (k false) ok
      → Reads (kind ∷ kinds) rest (eat expected >>= k) ok
  unfolding Reads ◌>>=◌ eat TokenStream.eat TokenStream.eat_at TokenStream.check
      TokenStream.kind_test TokenStream.peek TokenStream.kind_of
  Reads-uneaten_then expected k other h ts report e =
      let c = current ts kind kinds plain e in rw (c.peeked, c.is, other) (h ts report e)

  pub Reads-expect_then :
      (expected : TokenKind) (k : Option Token → Parse B)
      → matches kind expected ≡ true
      → ((t : Option Token) → Reads kinds rest (k t) ok)
      → Reads (kind ∷ kinds) rest (expect expected >>= k) ok
  unfolding Reads ◌>>=◌ expect TokenStream.expect TokenStream.expect_at TokenStream.advanced
  Reads-expect_then expected k same h ts report e =
      let c = current ts kind kinds plain e in
      rw (c.peeked, c.is, same, c.advanced) (h (some c.token) c.next report c.shows)
