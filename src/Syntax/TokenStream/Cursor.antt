-- ===== src/Syntax/TokenStream/Cursor.antt =====
-- The cursor on a stream that ends with `eof`, as the lexer makes it: it never runs off the end.
use mathlib.Core.Option.{some-injective}
use tyra.Prelude.{
  ℕ, zero, suc, ◌+◌, ◌-◌, ◌≤◌, ◌<◌, ◌≡◌, refl, sym, ap, ◌∙◌, subst, true, false, some, List, [],
  ◌∷◌, nat_eq, ltb, length, get_elem?, drop, arith, min, inl, inr, Bool-cases, get_elem?-some,
  ltb→lt,
}
use tyra.Syntax.Token.{TokenKind, Token, eof}
use tyra.Syntax.TokenStream.{
  TokenStream, is_newline, leading, past_newlines, skipped, clamp, token_at, peek_token,
  track_brackets, advance_over, advance,
}

-- There is a last token, of kind `eof`, and the cursor is at most one behind it.
pub record IsValid (ts : TokenStream) : Type 0 where
  pub last : Token
  pub at : get_elem? ts.tokens (length ts.tokens - 1) ≡ some last
  pub is_eof : last.kind ≡ eof
  pub some_tokens : 0 < length ts.tokens
  pub within : ts.pos ≤ length ts.tokens

pub clamp-bound : (ts : TokenStream) (i : ℕ) → 0 < length ts.tokens → clamp ts i < length ts.tokens
unfolding clamp
clamp-bound ts i h = omega arith

pub token_at-some : (ts : TokenStream) (i : ℕ) → IsValid ts → (t : Token) × (token_at ts i ≡ some t)
unfolding token_at
token_at-some ts i v = get_elem?-some ts.tokens (clamp ts i) (clamp-bound ts i v.some_tokens)

pub skipped-forward : (ts : TokenStream) → ts.pos ≤ skipped ts
unfolding skipped past_newlines
skipped-forward ts = ground arith

leading-next :
    (ts : List Token) (t : Token) → get_elem? ts (leading ts) ≡ some t → is_newline t.kind ≡ false
unfolding leading
leading-next [] t e = absurd cc
leading-next (x ∷ xs) t e = elim (Bool-cases (is_newline x.kind)) [
  | inl y ↦ leading-next xs t (rw y at e)
  | inr n ↦
      let f : some x ≡ some t = (rw n at e) in
      subst (λ u. is_newline u.kind ≡ false) (some-injective _ _ f) n
]

get_elem?-drop : (ts : List Token) (i n : ℕ) → get_elem? ts (i + n) ≡ get_elem? (drop i ts) n
get_elem?-drop ts zero n = ap (get_elem? ts) (omega arith)
get_elem?-drop [] (suc i) n = refl
get_elem?-drop (x ∷ xs) (suc i) n =
    let k : suc i + n ≡ suc (i + n) = omega arith in rw k (get_elem?-drop xs i n)

-- The token that `past_newlines` finds is no newline.
pub past_newlines-stop :
    (ts : List Token) (i : ℕ) (t : Token)
    → get_elem? ts (past_newlines ts i) ≡ some t
    → is_newline t.kind ≡ false
unfolding past_newlines
past_newlines-stop ts i t e =
    leading-next (drop i ts) t (sym (get_elem?-drop ts i (leading (drop i ts))) ∙ e)

forward : (ts : TokenStream) → ts.pos < length ts.tokens → ts.pos < clamp ts (skipped ts) + 1
unfolding clamp
forward ts h = omega (arith, skipped-forward ts)

onward :
    (ts : TokenStream)
    → ts.pos ≤ length ts.tokens
    → 0 < length ts.tokens
    → ts.pos ≤ clamp ts (skipped ts) + 1
unfolding clamp
onward ts h n = omega (arith, skipped-forward ts)

skipped-bracketed :
    (ts : TokenStream) → 0 < ts.bracket_depth → skipped ts ≡ past_newlines ts.tokens ts.pos
unfolding skipped
skipped-bracketed ts d = let g : ltb 0 ts.bracket_depth ≡ true = ground arith in rw g refl

pub is_newline-eof : (kind : TokenKind) → kind ≡ eof → is_newline kind ≡ false
unfolding is_newline
is_newline-eof kind e = rw e refl

-- Inside brackets `peek_token` shows no newline, on a stream that ends with `eof`.
pub peek_token-bracketed :
    (ts : TokenStream) (t : Token)
    → IsValid ts
    → 0 < ts.bracket_depth
    → peek_token ts ≡ some t
    → is_newline t.kind ≡ false
unfolding peek_token token_at clamp
peek_token-bracketed ts t v d e =
    let s = skipped-bracketed ts d in
    let j = past_newlines ts.tokens ts.pos in
    elim (Bool-cases (ltb j (length ts.tokens))) [
      | inl y ↦
          let l = ltb→lt j (length ts.tokens) y in
          let c : min (skipped ts) (length ts.tokens - 1) ≡ j = omega (arith, s) in
          past_newlines-stop ts.tokens ts.pos t (ap (get_elem? ts.tokens) (sym c) ∙ e)
      | inr n ↦
          let l : length ts.tokens ≤ j = ground arith in
          let c : min (skipped ts) (length ts.tokens - 1) ≡ length ts.tokens - 1 =
            omega (arith, s) in
          let q = some-injective _ _ (sym v.at ∙ ap (get_elem? ts.tokens) (sym c) ∙ e) in
          is_newline-eof t.kind (sym (ap (λ u. u.kind) q) ∙ v.is_eof)
    ]

-- What `advance` does to a valid stream.
pub record Advanced (ts : TokenStream) : Type 0 where
  pub token : Token
  pub next : TokenStream
  pub result : advance ts ≡ some (token, next)
  pub peeked : peek_token ts ≡ some token
  pub valid : IsValid next
  pub same : next.tokens ≡ ts.tokens
  pub onward : ts.pos ≤ next.pos
  pub forward : ts.pos < length ts.tokens → ts.pos < next.pos
  pub depth : next.bracket_depth ≡ track_brackets token.kind ts.bracket_depth

-- On a stream that ends with `eof`, `advance` succeeds, gives the token that `peek_token` shows and
-- leaves such a stream; before the end the cursor moves forward.
pub advance-Advanced : (ts : TokenStream) → IsValid ts → Advanced ts
unfolding advance advance_over peek_token token_at
advance-Advanced ts v =
    let (t, e) = token_at-some ts (skipped ts) v in
    let b = clamp-bound ts (skipped ts) v.some_tokens in
    record {
      token = t;
      next = record {
        tokens = ts.tokens;
        pos = clamp ts (skipped ts) + 1;
        bracket_depth = track_brackets t.kind ts.bracket_depth;
      };
      result = rw e refl;
      peeked = e;
      valid = record {
        last = v.last;
        at = v.at;
        is_eof = v.is_eof;
        some_tokens = v.some_tokens;
        within = omega (arith, b);
      };
      same = refl;
      onward = onward ts v.within v.some_tokens;
      forward = λ h. forward ts (omega arith);
      depth = refl;
    }
