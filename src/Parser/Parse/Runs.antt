-- ===== src/Parser/Parse/Runs.antt =====
-- Parsers that do not panic: they leave a valid stream, and never go back.
use tyra.Prelude.{
  ℕ, zero, suc, ◌+◌, ◌-◌, ◌≤◌, ◌<◌, ◌≡◌, refl, ap, ◌∙◌, Option, some, List, length, arith, inl, inr,
  Bool-cases, ltb,
}
use tyra.Diagnostics.Report.{Report}
use tyra.Syntax.Token.{Token}
use tyra.Syntax.TokenStream.{TokenStream}
use tyra.Syntax.TokenStream.Cursor.{IsValid}
use tyra.Parser.Parse.{Parse, return, ◌>>=◌, then_parse}

-- The tokens ahead, the current one included.
abbrev pub ahead : TokenStream → ℕ
ahead ts = length ts.tokens - ts.pos

-- A valid stream over the tokens.
pub record Over (tokens : List Token) (ts : TokenStream) : Type 0 where
  pub valid : IsValid ts
  pub same : ts.tokens ≡ tokens

-- A parser's result: a value and a valid stream, at least `least` tokens closer to the end.
pub record Went {A : Type 0} (tokens : List Token) (least : ℕ) (ts : TokenStream)
    (r : Option (A × (TokenStream × Report))) : Type 0 where
  pub value : A
  pub next : TokenStream
  pub report : Report
  pub result : r ≡ some (value, (next, report))
  pub over : Over tokens next
  pub closer : least + ahead next ≤ ahead ts

-- With at most `n` tokens ahead in a valid stream the parser has a result.
unfoldable pub Runs : {A : Type 0} → List Token → ℕ → Parse A → Type 0
Runs tokens n m =
    (ts : TokenStream) (report : Report)
    → Over tokens ts
    → ahead ts ≤ n
    → Went tokens 0 ts (m ts report)

-- With at least one and at most `n` more tokens ahead it has a result that is closer to the end.
unfoldable pub Moves : {A : Type 0} → List Token → ℕ → Parse A → Type 0
Moves tokens n m =
    (ts : TokenStream) (report : Report)
    → Over tokens ts
    → 0 < ahead ts
    → ahead ts ≤ suc n
    → Went tokens 1 ts (m ts report)

-- A parser that stays where it is.
pub stays :
    {A : Type 0} {tokens : List Token} {ts : TokenStream} {r : Option (A × (TokenStream × Report))}
    (a : A) (report : Report)
    → r ≡ some (a, (ts, report))
    → Over tokens ts
    → Went tokens 0 ts r
stays {tokens} {ts} a report q v = record {
  value = a;
  next = ts;
  report = report;
  result = q;
  over = v;
  closer = omega arith;
}

-- A parser behind a parser.
pub Went-behind :
    {A B : Type 0} {tokens : List Token} {least : ℕ} {ts : TokenStream}
    {r : Option (A × (TokenStream × Report))} (k : A → Parse B) (w : Went tokens least ts r)
    → Went tokens 0 w.next (k w.value w.next w.report)
    → Went tokens least ts (then_parse k r)
Went-behind k w v = record {
  value = v.value;
  next = v.next;
  report = v.report;
  result = ap (then_parse k) w.result ∙ v.result;
  over = v.over;
  closer = let c = w.closer in let d = v.closer in omega arith;
}

pub Went-lower :
    {A : Type 0} {tokens : List Token} {ts : TokenStream} {r : Option (A × (TokenStream × Report))}
    → Went tokens 1 ts r
    → Went tokens 0 ts r
Went-lower w = record {
  value = w.value;
  next = w.next;
  report = w.report;
  result = w.result;
  over = w.over;
  closer = let c = w.closer in omega arith;
}

module _ {A : Type 0} (tokens : List Token) where
  pub return-Runs : (n : ℕ) (a : A) → Runs tokens n (return a)
  unfolding Runs return
  return-Runs n a ts report v l = stays a report refl v

  pub Runs-weaken : (n k : ℕ) (m : Parse A) → n ≤ k → Runs tokens k m → Runs tokens n m
  unfolding Runs
  Runs-weaken n k m b r ts report v l = r ts report v (omega arith)

  -- Where there are tokens ahead a parser moves, and where there are none it stays.
  pub Runs-split :
      (n : ℕ) (m : Parse A)
      → Runs tokens 0 m
      → ((j : ℕ) → n ≡ suc j → Moves tokens j m)
      → Runs tokens n m
  unfolding Runs Moves
  Runs-split zero m z h ts report v l = z ts report v l
  Runs-split (suc j) m z h ts report v l = elim (Bool-cases (ltb 0 (ahead ts))) [
    | inl y ↦ Went-lower (h j refl ts report v (ground arith) (omega arith))
    | inr n ↦ z ts report v (ground arith)
  ]

module _ {A B : Type 0} (tokens : List Token) (n : ℕ) where
  pub Runs-bind :
      (m : Parse A) (k : A → Parse B)
      → Runs tokens n m
      → ((a : A) → Runs tokens n (k a))
      → Runs tokens n (m >>= k)
  unfolding Runs ◌>>=◌
  Runs-bind m k r h ts report v l =
      let w = r ts report v l in
      let c = w.closer in Went-behind k w (h w.value w.next w.report w.over (omega arith))

  pub Moves-bind :
      (m : Parse A) (k : A → Parse B)
      → Moves tokens n m
      → ((a : A) → Runs tokens n (k a))
      → Moves tokens n (m >>= k)
  unfolding Runs Moves ◌>>=◌
  Moves-bind m k r h ts report v some_ahead l =
      let w = r ts report v some_ahead l in
      let c = w.closer in Went-behind k w (h w.value w.next w.report w.over (omega arith))

  -- The first may stay, and the second moves then.
  pub Moves-behind :
      (m : Parse A) (k : A → Parse B)
      → Runs tokens (suc n) m
      → ((a : A) → Runs tokens n (k a))
      → ((a : A) → Moves tokens n (k a))
      → Moves tokens n (m >>= k)
  unfolding Runs Moves ◌>>=◌
  Moves-behind m k r h g ts report v some_ahead l =
      let w = r ts report v l in
      let c = w.closer in
      elim (Bool-cases (ltb (ahead w.next) (ahead ts))) [
        | inl y ↦
            let d : ahead w.next < ahead ts = ground arith in
            let u = h w.value w.next w.report w.over (omega arith) in
            record {
              value = u.value;
              next = u.next;
              report = u.report;
              result = ap (then_parse k) w.result ∙ u.result;
              over = u.over;
              closer = let e = u.closer in omega arith;
            }
        | inr s ↦
            let d : ahead w.next ≡ ahead ts = ground arith in
            let u = g w.value w.next w.report w.over (omega arith) (omega arith) in
            record {
              value = u.value;
              next = u.next;
              report = u.report;
              result = ap (then_parse k) w.result ∙ u.result;
              over = u.over;
              closer = let e = u.closer in omega arith;
            }
      ]
