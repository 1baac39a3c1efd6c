-- ===== src/Syntax/Cursor/Slices.antt =====
-- The slices of the source between two boundaries.
use mathlib.Core.Option.{map}
use tyra.Prelude.{
  ℕ, zero, suc, ◌+◌, ◌-◌, ◌≤◌, ◌<◌, ◌≡◌, refl, sym, ap, ◌∙◌, true, false, some, List, [], ◌∷◌, ◌++◌,
  leb, ltb, length, length-append, arith, Bool, Bool-cases, inl, inr,
}
use tyra.Syntax.Cursor.{
  len_utf8, bytes, slice_to, slice_to_end, slice_ahead, Cursor, slice_from, with_slice, eat_while,
}
use tyra.Syntax.Cursor.Boundary.{
  At, len_utf8_pos, slice_to_end-append, span_of, eat_while_loop-Eaten,
}

pub bytes-append : (xs ys : List ℕ) → bytes (xs ++ ys) ≡ bytes xs + bytes ys
unfolding bytes
bytes-append [] ys = omega arith
bytes-append (x ∷ xs) ys = omega (arith, bytes-append xs ys)

pub append_assoc : (xs ys zs : List ℕ) → (xs ++ ys) ++ zs ≡ xs ++ (ys ++ zs)
append_assoc [] ys zs = refl
append_assoc (x ∷ xs) ys zs = ap (λ l. x ∷ l) (append_assoc xs ys zs)

slice_to-step :
    (n ch : ℕ) (chs : List ℕ)
    → len_utf8 ch ≤ n
    → slice_to n (ch ∷ chs) ≡ map (λ l. ch ∷ l) (slice_to (n - len_utf8 ch) chs)
unfolding slice_to
slice_to-step zero ch chs l = absurd (let p = len_utf8_pos ch in omega arith)
slice_to-step (suc n) ch chs l =
    let b : leb (len_utf8 ch) (suc n) ≡ true = ground arith in rw b refl

slice_to-append : (xs ys : List ℕ) → slice_to (bytes xs) (xs ++ ys) ≡ some xs
unfolding bytes slice_to
slice_to-append [] ys = refl
slice_to-append (x ∷ xs) ys =
    let e : len_utf8 x + bytes xs - len_utf8 x ≡ bytes xs = omega arith in
    slice_to-step (len_utf8 x + bytes xs) x (xs ++ ys) (omega arith)
    ∙ ap (λ n. map (λ l. x ∷ l) (slice_to n (xs ++ ys))) e
    ∙ ap (map (λ l. x ∷ l)) (slice_to-append xs ys)

-- From a boundary on to the cursor.
pub slice_from-At :
    (c : Cursor) (base gone after : List ℕ)
    → At c (base ++ gone) after
    → slice_from c (bytes base) ≡ some gone
unfolding slice_from slice_ahead
slice_from-At c base gone after h =
    let b : c.pos ≡ bytes base + bytes gone = h.pos ∙ bytes-append base gone in
    let n : ltb c.pos (bytes base) ≡ false = ground arith in
    let d : c.pos - bytes base ≡ bytes gone = omega arith in
    let s : slice_to_end (bytes base) c.source ≡ some (gone ++ after) =
      ap (slice_to_end (bytes base)) (h.source ∙ append_assoc base gone after)
      ∙ slice_to_end-append base (gone ++ after) in
    rw (n, s, d) (slice_to-append gone after)

-- `eat_while` gives the longest prefix of the text ahead whose characters all pass.
pub record Taken (p : ℕ → Bool) (c : Cursor) (before after : List ℕ) : Type 0 where
  pub stop : Cursor
  pub result : eat_while p c ≡ some ((span_of p after).0, stop)
  pub stands : At stop (before ++ (span_of p after).0) (span_of p after).1
  pub source : stop.source ≡ c.source

pub span_of-append : (p : ℕ → Bool) (xs : List ℕ) → (span_of p xs).0 ++ (span_of p xs).1 ≡ xs
unfolding span_of
span_of-append p [] = refl
span_of-append p (x ∷ xs) = elim (Bool-cases (p x)) [
  | inl y ↦ rw y (ap (λ l. x ∷ l) (span_of-append p xs))
  | inr n ↦ rw n refl
]

pub eat_while-Taken :
    (p : ℕ → Bool) (c : Cursor) (before after : List ℕ) → At c before after → Taken p c before after
unfolding eat_while with_slice
eat_while-Taken p c before after h =
    let room : length after < suc (length c.source) =
      let l = ap length h.source in omega (arith, l, length-append before after) in
    let e = eat_while_loop-Eaten p (suc (length c.source)) c before after h room in
    let taken = (span_of p after).0 in
    let cut : slice_from e.stop c.pos ≡ some taken =
      ap (slice_from e.stop) h.pos
      ∙ slice_from-At e.stop before taken (span_of p after).1 e.stands in
    record {
      stop = e.stop;
      result = rw (e.result, cut) refl;
      stands = e.stands;
      source =
          e.stands.source
          ∙ append_assoc before taken (span_of p after).1
          ∙ ap (λ l. before ++ l) (span_of-append p after)
          ∙ sym h.source;
    }
