-- ===== src/Parser/Source/Total.antt =====
-- `parse` has a result, and reads the tokens to their end.
use tyra.Prelude.{
  subst, ℕ, zero, suc, ◌^◌, ◌<◌, ◌≡◌, refl, sym, ap, ◌∙◌, Bool, true, false, Option, some, none,
  List, [], ◌∷◌, ◌++◌, arith, length, ◌==◌, nat_eq, inl, inr, Bool-cases,
}
use tyra.Diagnostics.Span.{Span}
use tyra.Diagnostics.Report.{Report}
use tyra.Syntax.Token.{Token}
use tyra.Syntax.TokenStream
use tyra.Syntax.TokenStream.{TokenStream}
use tyra.Syntax.TokenStream.Cursor.{IsValid}
use tyra.Syntax.Cursor.{bytes}
use tyra.Syntax.Lexer.{tokenize}
use tyra.Syntax.Lexer.Stream.{tokenize-IsValid}
use tyra.Parser.Parse.{
  Parse, return, then_parse, seen_by, ◌>>=◌, stuck, at_eof, peek_span, skip_newlines,
}
use tyra.Parser.Parse.Runs.{Runs, Moves, return-Runs, Runs-bind, Moves-bind}
use tyra.Parser.Parse.Steps.{advance-Went}
use tyra.Parser.Parse.Behind.{Runs-peek_span_then, Runs-at_eof_then}
use tyra.Parser.Parse.Newlines.{skip_newlines-Runs}
use tyra.Parser.Ast.{Item, SourceFile}
use tyra.Parser.Source.Nested.{Tokenized, Nests, Held-Fine, inner_expr-total}
use tyra.Parser.Stmt.{parts}
use tyra.Parser.Stmt.Total.{parts-IsTotal, parse_stmt-Runs, parse_body-Runs}
use tyra.Parser.Item.Total.{parse_item-Runs}
use tyra.Parser.Source.{
  position, advance_if, forced, items_at, items_loop, source_file, inner_expr, file_of, parse,
}

module _ (tokens : List Token) (item : Parse Item) where
  -- The check on the position moves over a token where the item did not.
  forced-Moves : (n : ℕ) → Runs tokens (suc n) item → Moves tokens n (forced item)
  unfolding forced position advance_if Runs Moves ◌>>=◌ return TokenStream.position
  forced-Moves n h ts report v some_ahead l =
      let w = h ts report v l in
      let c = w.closer in
      let within = w.over.valid.within in
      let size = ap length (w.over.same ∙ sym v.same) in
      elim (Bool-cases (w.next.pos == ts.pos)) [
        | inr f ↦ record {
          value = w.value;
          next = w.next;
          report = w.report;
          result = rw (w.result, f) refl;
          over = w.over;
          closer = ground arith;
        }
        | inl y ↦
            let same : w.next.pos ≡ ts.pos = ground arith in
            let a = advance-Went tokens w.next w.report w.over (omega arith) in
            let d = a.closer in
            record {
              value = w.value;
              next = a.next;
              report = a.report;
              result = rw (w.result, y, a.result) refl;
              over = a.over;
              closer = omega arith;
            }
      ]

  module _ (f : ℕ) (item-Runs : (n : ℕ) → n < f → Runs tokens n item) where
    items_loop-Runs :
        (g n : ℕ) (items : List Item) → n < g → n < f → Runs tokens n (items_loop item g items)
    unfolding items_loop items_at
    items_loop-Runs zero n items l small = absurd (omega arith)
    items_loop-Runs (suc g) n items l small =
        Runs-at_eof_then tokens n _ (return-Runs tokens n items) (λ j q.
          Moves-bind tokens j _ _ (forced-Moves j (item-Runs (suc j) (omega arith))) (λ found.
            Runs-bind tokens j _ _ (skip_newlines-Runs tokens j)
              (λ u. items_loop-Runs g j (items ++ (found ∷ [])) (omega arith) (omega arith))))

    source_file-Runs : (n : ℕ) → n < f → Runs tokens n (source_file item f)
    unfolding source_file
    source_file-Runs n l = Runs-peek_span_then tokens n _ (λ start.
        Runs-bind tokens n _ _ (skip_newlines-Runs tokens n) (λ u.
          Runs-bind tokens n _ _ (items_loop-Runs f n [] l l)
            (λ items. Runs-peek_span_then tokens n _ (λ stop. return-Runs tokens n _))))

-- The parts of a parser that has a result.
record Behind {A B : Type 0} (r : Option (A × (TokenStream × Report))) (k : A → Parse B) (b : B)
    (rest : TokenStream) (report : Report) : Type 0 where
  pub value : A
  pub next : TokenStream
  pub between : Report
  pub first : r ≡ some (value, (next, between))
  pub second : k value next between ≡ some (b, (rest, report))

then_parse-Behind :
    {A B : Type 0} (r : Option (A × (TokenStream × Report))) (k : A → Parse B) {b : B}
    {rest : TokenStream} {report : Report}
    → then_parse k r ≡ some (b, (rest, report))
    → Behind r k b rest report
then_parse-Behind none k e = absurd (cc)
then_parse-Behind (some (a, (ts, report))) k e = record {
  value = a;
  next = ts;
  between = report;
  first = refl;
  second = e;
}

seen_by-some :
    {A : Type 0} (o : Option A) (ts : TokenStream) (report : Report) {a : A} {next : TokenStream}
    {r : Report}
    → seen_by ts report o ≡ some (a, (next, r))
    → (o ≡ some a) × (ts ≡ next)
seen_by-some none ts report e = absurd (cc)
seen_by-some (some x) ts report e = (cc, cc)

-- Where a parser has a result, the stream behind it is at `eof`.
unfoldable EndsAtEof : {A : Type 0} → Parse A → Type 0
EndsAtEof {A} m =
    (ts : TokenStream) (report : Report) (a : A) (rest : TokenStream) (r : Report)
    → m ts report ≡ some (a, (rest, r))
    → TokenStream.at_eof rest ≡ some true

EndsAtEof-bind :
    {A B : Type 0} (m : Parse A) (k : A → Parse B)
    → ((a : A) → EndsAtEof (k a))
    → EndsAtEof (m >>= k)
unfolding EndsAtEof ◌>>=◌
EndsAtEof-bind m k h ts report b rest r e =
    let x = then_parse-Behind (m ts report) k e in h x.value x.next x.between b rest r x.second

stuck-EndsAtEof : (A : Type 0) → EndsAtEof {A = A} stuck
unfolding EndsAtEof
stuck-EndsAtEof A ts report a rest r e = absurd (cc)

-- Behind a parser that ends at `eof`, a look at the span and a value.
ending :
    {A B : Type 0} (m : Parse A) (k : A → Span → B)
    → EndsAtEof m
    → EndsAtEof (m >>= λ a. peek_span >>= λ stop. return (k a stop))
unfolding EndsAtEof ◌>>=◌ peek_span return
ending m k h ts report b rest r e =
    let x = then_parse-Behind (m ts report) (λ a. peek_span >>= λ stop. return (k a stop)) e in
    let y =
      then_parse-Behind (peek_span x.next x.between) (λ stop. return (k x.value stop)) x.second in
    let (q, same) = seen_by-some (TokenStream.peek_span x.next) x.next x.between y.first in
    let last : y.next ≡ rest = cc (y.second) in
    subst (λ s. TokenStream.at_eof s ≡ some true) (same ∙ last)
      (h ts report x.value x.next x.between x.first)

module _ (item : Parse Item) where
  round-EndsAtEof :
      (loop : List Item → Parse (List Item)) (items : List Item)
      → ((items : List Item) → EndsAtEof (loop items))
      → EndsAtEof (at_eof >>= items_at item loop items)
  unfolding EndsAtEof items_at ◌>>=◌ at_eof return
  round-EndsAtEof loop items again ts report found rest r e =
      let x = then_parse-Behind (at_eof ts report) (items_at item loop items) e in
      let (q, same) = seen_by-some (TokenStream.at_eof ts) ts report x.first in
      let at = subst (λ s. TokenStream.at_eof s ≡ some x.value) same q in
      go x.value x.next x.between at x.second
    where
      go :
          (b : Bool) (next : TokenStream) (between : Report)
          → TokenStream.at_eof next ≡ some b
          → items_at item loop items b next between ≡ some (found, (rest, r))
          → TokenStream.at_eof rest ≡ some true
      go true next between at e = subst (λ s. TokenStream.at_eof s ≡ some true) (cc) at
      go false next between at e =
          EndsAtEof-bind (forced item) _
            (λ a. EndsAtEof-bind skip_newlines _ (λ u. again (items ++ (a ∷ [])))) next between
            found rest r e

  items_loop-EndsAtEof : (f : ℕ) (items : List Item) → EndsAtEof (items_loop item f items)
  unfolding items_loop
  items_loop-EndsAtEof zero items = stuck-EndsAtEof (List Item)
  items_loop-EndsAtEof (suc f) items =
      round-EndsAtEof (items_loop item f) items (items_loop-EndsAtEof f)

  source_file-EndsAtEof : (f : ℕ) → EndsAtEof (source_file item f)
  unfolding source_file
  source_file-EndsAtEof f = EndsAtEof-bind peek_span _ (λ start.
      EndsAtEof-bind skip_newlines _
        (λ u. ending (items_loop item f []) _ (items_loop-EndsAtEof f [])))

module _ (parse_f64 : List ℕ → Option ℕ) (is_uppercase : ℕ → Bool) where
  -- What `parse` gives: the file, and the stream, which ends with `eof` and is read to its end.
  pub record Parsed (result : Option (SourceFile × (TokenStream × Report))) : Type 0 where
    pub file : SourceFile
    pub rest : TokenStream
    pub report : Report
    pub is : result ≡ some (file, (rest, report))
    pub valid : IsValid rest
    pub at_end : TokenStream.at_eof rest ≡ some true

  -- On a source of fewer than 2 ^ 32 bytes whose interpolated strings nest less deeply than the depth,
  -- `parse` ends without a panic, and the stream it leaves is valid and shows `eof`.
  pub parse-Parsed :
      (depth id : ℕ) (source : List ℕ) (report : Report)
      → bytes source < 2 ^ 32
      → Tokenized parse_f64 (Nests parse_f64 (suc depth)) (tokenize parse_f64 id source report)
      → Parsed (parse parse_f64 is_uppercase depth id source report)
  unfolding parse file_of TokenStream.new Nests Runs EndsAtEof
  parse-Parsed depth id source report small nests =
      let (tokens, lexer, q, v) = tokenize-IsValid parse_f64 id source report small in
      let all = subst (Tokenized parse_f64 (Nests parse_f64 (suc depth))) q nests in
      let inner = inner_expr parse_f64 is_uppercase depth in
      let fine =
        Held-Fine parse_f64 (Nests parse_f64 depth) inner
          (inner_expr-total parse_f64 is_uppercase depth) tokens all in
      let f = length tokens in
      let sub = parts is_uppercase inner f in
      let total = parts-IsTotal tokens is_uppercase inner fine f in
      let body = parse_body-Runs tokens is_uppercase inner f sub total fine in
      let stmt = parse_stmt-Runs tokens is_uppercase inner f sub total fine in
      let w =
        source_file-Runs tokens _ (suc f)
          (λ n l. parse_item-Runs tokens _ _ (suc f) n l (stmt n l) body) f (omega arith)
          (TokenStream.new tokens) lexer.report (record { valid = v; same = refl }) (omega arith) in
      record {
        file = w.value;
        rest = w.next;
        report = w.report;
        is = rw (q, w.result) refl;
        valid = w.over.valid;
        at_end = source_file-EndsAtEof _ (suc f) _ _ _ _ _ w.result;
      }
