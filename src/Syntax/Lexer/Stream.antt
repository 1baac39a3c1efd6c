-- ===== src/Syntax/Lexer/Stream.antt =====
-- `tokenize` ends: its tokens follow each other through the source, and `eof` is behind them.
use tyra.Prelude.{
  ℕ, zero, suc, ◌+◌, ◌^◌, ◌≤◌, ◌<◌, ◌≡◌, refl, sym, ap, ◌∙◌, subst, true, false, Option, none, some,
  List, [], ◌∷◌, ◌++◌, arith, length, length-append, get_elem?, leb,
}
use tyra.Diagnostics.Span
use tyra.Diagnostics.Report.{Report}
use tyra.Syntax.Cursor
use tyra.Syntax.Cursor.{bytes, len_utf8}
use tyra.Syntax.Cursor.Boundary.{len_utf8_pos, append_nil, slice-At}
use tyra.Syntax.Cursor.Slices.{append_assoc, bytes-append}
use tyra.Syntax.Token.{TokenKind, Token, eof}
use tyra.Syntax.TokenStream
use tyra.Syntax.TokenStream.Cursor.{IsValid}
use tyra.Syntax.Scan.{Lexer, return, ◌>>=◌, pos, peek, at_eof}
use tyra.Syntax.Scan.Runs.{On, Moves}
use tyra.Syntax.Scan.Behind.{pos-bytes}
use tyra.Syntax.Lexer.{
  Tokens, scan_token, token_at, push_token, tokens_at, tokenize_loop, end_tokens, tokenize,
}
use tyra.Syntax.Lexer.Total.{token_at-Moves}

bytes_pos : (l : List ℕ) → 1 ≤ length l → 1 ≤ bytes l
unfolding bytes
bytes_pos [] h = absurd (omega arith)
bytes_pos (c ∷ l) h = let p = len_utf8_pos c in omega arith

-- The tokens are not empty and follow each other, from one offset to another, in one file.
unfoldable pub Laid : ℕ → ℕ → List Token → ℕ → Type 0
Laid id from [] to = from ≤ to
Laid id from (t ∷ ts) to =
    (t.span.source ≡ id)
    × (from ≤ t.span.start)
    × (t.span.start < t.span.stop)
    × Laid id t.span.stop ts to

Laid-later :
    (id from to more : ℕ) (ts : List Token) → Laid id from ts to → to ≤ more → Laid id from ts more
unfolding Laid
Laid-later id from to more [] h l = omega arith
Laid-later id from to more (t ∷ ts) (a, b, c, d) l =
    (a, b, c, Laid-later id t.span.stop to more ts d l)

Laid-snoc :
    (id from to stop : ℕ) (ts : List Token) (kind : TokenKind)
    → Laid id from ts to
    → to < stop
    → Laid id from (ts ++ (record { kind = kind; span = Span.new id to stop } ∷ [])) stop
unfolding Laid Span.new
Laid-snoc id from to stop [] kind h l = (refl, h, l, omega arith)
Laid-snoc id from to stop (t ∷ ts) kind (a, b, c, d) l =
    (a, b, c, Laid-snoc id t.span.stop to stop ts kind d l)

module _ (parse_f64 : List ℕ → Option ℕ) (id : ℕ) where
  -- The end of the loop: all of the source is behind the cursor.
  record Done (source : List ℕ) (r : Option (List Token × Lexer)) : Type 0 where
    pub tokens : List Token
    pub lexer : Lexer
    pub result : r ≡ some (tokens, lexer)
    pub laid : Laid id 0 tokens (bytes source)
    pub on : On source [] lexer

  push_token-Done :
      (loop : Tokens parse_f64 id) (tokens : List Token) (here now source : List ℕ) (rest : List ℕ)
      (kind : Option TokenKind) (s : Lexer)
      → Laid id 0 tokens (bytes here)
      → bytes here < bytes now
      → On now rest s
      → ((ts : List Token) → Laid id 0 ts (bytes now) → Done source (loop ts s))
      → Done source (push_token parse_f64 id loop tokens (bytes here) kind s)
  unfolding push_token pos ◌>>=◌
  push_token-Done loop tokens here now source rest none s laid l on more =
      more tokens (Laid-later id 0 (bytes here) (bytes now) tokens laid (omega arith))
  push_token-Done loop tokens here now source rest (some kind) s laid l on more =
      rw (pos-bytes now rest s on)
        (more _ (Laid-snoc id 0 (bytes here) (bytes now) tokens kind laid l))

  scan_token-ahead :
      (here chs : List ℕ) (ch : ℕ) (s : Lexer)
      → On here (ch ∷ chs) s
      → scan_token parse_f64 id s ≡ token_at parse_f64 id (some ch) s
  unfolding scan_token peek Cursor.peek Cursor.next ◌>>=◌
  scan_token-ahead here chs ch s on = rw (slice-At s.cursor here (ch ∷ chs) on.at) refl

  next_token-Done :
      (loop : Tokens parse_f64 id) (tokens : List Token) (here after chs : List ℕ) (s : Lexer)
      (ch : ℕ)
      → after ≡ ch ∷ chs
      → On here after s
      → Laid id 0 tokens (bytes here)
      → ((now rest : List ℕ) (ts : List Token) (lexer : Lexer)
          → On now rest lexer
          → length rest ≤ length chs
          → now ++ rest ≡ here ++ after
          → Laid id 0 ts (bytes now)
          → Done (here ++ after) (loop ts lexer))
      → Done (here ++ after) (tokens_at parse_f64 id loop tokens false s)
  unfolding tokens_at pos ◌>>=◌ Moves
  next_token-Done loop tokens here after chs s ch e on laid more =
      let on' = subst (λ l. On here l s) e on in
      let w = token_at-Moves parse_f64 id (length chs) [] ch here chs s on' (omega arith) in
      let far = w.far in
      let size = ap length w.split in
      let grown = bytes_pos w.more far in
      let same : (here ++ w.more) ++ w.rest ≡ here ++ after =
        append_assoc here w.more w.rest ∙ ap (λ l. here ++ l) (w.split ∙ sym e) in
      rw (pos-bytes here after s on, scan_token-ahead here chs ch s on', w.result)
        (push_token-Done loop tokens here (here ++ w.more) (here ++ after) w.rest w.value w.lexer
          laid (omega (arith, grown, bytes-append here w.more)) w.on
          (λ ts laid'.
            more (here ++ w.more) w.rest ts w.lexer w.on
              (omega (arith, far, size, length-append w.more w.rest)) same laid'))

  ended :
      (here after : List ℕ) (s : Lexer)
      → On here after s
      → leb (bytes s.cursor.source) s.cursor.pos ≡ leb (bytes here + bytes after) (bytes here)
  ended here after s on =
      let a = ap bytes on.at.source ∙ bytes-append here after in rw (a, on.at.pos) refl

  tokenize_loop-Done :
      (f : ℕ) (here after : List ℕ) (tokens : List Token) (s : Lexer)
      → On here after s
      → length after ≤ f
      → Laid id 0 tokens (bytes here)
      → Done (here ++ after) (tokenize_loop parse_f64 id (suc f) tokens s)
  unfolding tokenize_loop tokens_at at_eof Cursor.is_eof ◌>>=◌ return bytes pos scan_token peek
      Cursor.peek Cursor.next
  tokenize_loop-Done f here [] tokens s on l laid =
      let q : leb (bytes here + 0) (bytes here) ≡ true = ground arith in
      let n = sym (append_nil here) in
      rw (ended here [] s on, q)
        (record {
          tokens = tokens;
          lexer = s;
          result = refl;
          laid = subst (λ l. Laid id 0 tokens (bytes l)) n laid;
          on = subst (λ l. On l [] s) n on;
        })
  tokenize_loop-Done zero here (ch ∷ chs) tokens s on l laid = absurd (omega arith)
  tokenize_loop-Done (suc f) here (ch ∷ chs) tokens s on l laid =
      let p = len_utf8_pos ch in
      let q : leb (bytes here + (len_utf8 ch + bytes chs)) (bytes here) ≡ false = ground arith in
      rw (ended here (ch ∷ chs) s on, q)
        (next_token-Done (tokenize_loop parse_f64 id (suc f)) tokens here (ch ∷ chs) chs s ch refl
          on laid
          (λ now rest ts lexer on' short same laid'.
            subst (λ l. Done l (tokenize_loop parse_f64 id (suc f) ts lexer)) same
              (tokenize_loop-Done f now rest ts lexer on' (omega arith) laid')))

  -- In a source of fewer than 2 ^ 32 bytes tokenize ends without a panic; the tokens before the last are
  -- not empty and follow each other from the source's start on, and the last is `eof` at the source's end.
  pub tokenize-Laid :
      (source : List ℕ) (report : Report)
      → bytes source < 2 ^ 32
      → (tokens : List Token) × (lexer : Lexer) × (tokenize parse_f64 id source report
          ≡ some (
            tokens
                ++ (record { kind = eof; span = Span.new id (bytes source) (bytes source) } ∷ []),
            lexer,
          ))
        × Laid id 0 tokens (bytes source)
  unfolding tokenize end_tokens Cursor.new ◌>>=◌ return pos bytes Laid
  tokenize-Laid source report small =
      let start : Lexer = record { cursor = Cursor.new source; report = report } in
      let d =
        tokenize_loop-Done (length source) [] source [] start
          (record { at = record { source = refl; pos = refl }; small = small }) (omega arith)
          (omega arith) in
      (d.tokens, d.lexer, rw (d.result, pos-bytes source [] d.lexer d.on) refl, d.laid)

get_elem?-snoc : (ts : List Token) (t : Token) → get_elem? (ts ++ (t ∷ [])) (length ts) ≡ some t
get_elem?-snoc [] t = refl
get_elem?-snoc (x ∷ ts) t = get_elem?-snoc ts t

-- In a source of fewer than 2 ^ 32 bytes tokenize gives the parser tokens that end with `eof`, which is
-- what the operations of its token stream rely on.
pub tokenize-IsValid :
    (parse_f64 : List ℕ → Option ℕ) (id : ℕ) (source : List ℕ) (report : Report)
    → bytes source < 2 ^ 32
    → (tokens : List Token) × (lexer : Lexer) × (tokenize parse_f64 id source report
        ≡ some (tokens, lexer))
      × IsValid (TokenStream.new tokens)
unfolding TokenStream.new
tokenize-IsValid parse_f64 id source report small =
    let (ts, lexer, q, laid) = tokenize-Laid parse_f64 id source report small in
    let last : Token = record { kind = eof; span = Span.new id (bytes source) (bytes source) } in
    let size = length-append ts (last ∷ []) in
    (
      ts ++ (last ∷ []),
      lexer,
      q,
      record {
        last = last;
        at = ap (get_elem? (ts ++ (last ∷ []))) (omega (arith, size)) ∙ get_elem?-snoc ts last;
        is_eof = refl;
        some_tokens = omega (arith, size);
        within = omega arith;
      },
    )
