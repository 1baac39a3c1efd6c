-- ===== src/Syntax/Cursor/Boundary.antt =====
-- The cursor stays on the boundaries of characters.
use tyra.Prelude.{
  ℕ, zero, suc, ◌+◌, ◌-◌, ◌≤◌, ◌<◌, ◌≡◌, refl, sym, ap, subst, ◌∙◌, Bool, true, some, List, [], ◌∷◌,
  ◌++◌, if◌then◌else◌, leb, length, arith, inl, inr, Bool-cases,
}
use tyra.Syntax.Cursor.{
  len_utf8, bytes, slice_to_end, Cursor, next, peek, advance_by, advance, moved, then_loop,
  while_at, eat_while_loop,
}

-- The text before the cursor and the text behind it.
pub record At (c : Cursor) (before after : List ℕ) : Type 0 where
  pub source : c.source ≡ before ++ after
  pub pos : c.pos ≡ bytes before

pub len_utf8_pos : (ch : ℕ) → 1 ≤ len_utf8 ch
unfolding len_utf8
len_utf8_pos ch = ground arith

pub slice_to_end-step :
    (n ch : ℕ) (chs : List ℕ)
    → len_utf8 ch ≤ n
    → slice_to_end n (ch ∷ chs) ≡ slice_to_end (n - len_utf8 ch) chs
unfolding slice_to_end
slice_to_end-step zero ch chs l = absurd (let p = len_utf8_pos ch in omega arith)
slice_to_end-step (suc n) ch chs l =
    let b : leb (len_utf8 ch) (suc n) ≡ true = ground arith in rw b refl

pub slice_to_end-append :
    (before after : List ℕ) → slice_to_end (bytes before) (before ++ after) ≡ some after
unfolding bytes slice_to_end
slice_to_end-append [] after = refl
slice_to_end-append (ch ∷ chs) after =
    let e : len_utf8 ch + bytes chs - len_utf8 ch ≡ bytes chs = omega arith in
    slice_to_end-step (len_utf8 ch + bytes chs) ch (chs ++ after) (omega arith)
    ∙ ap (λ n. slice_to_end n (chs ++ after)) e
    ∙ slice_to_end-append chs after

bytes-snoc : (before : List ℕ) (ch : ℕ) → bytes (before ++ (ch ∷ [])) ≡ bytes before + len_utf8 ch
unfolding bytes
bytes-snoc [] ch = omega arith
bytes-snoc (x ∷ xs) ch = omega (arith, bytes-snoc xs ch)

append-snoc : (xs ys : List ℕ) (x : ℕ) → xs ++ (x ∷ ys) ≡ (xs ++ (x ∷ [])) ++ ys
append-snoc [] ys x = refl
append-snoc (z ∷ xs) ys x = ap (λ l. z ∷ l) (append-snoc xs ys x)

pub slice-At :
    (c : Cursor) (before after : List ℕ)
    → At c before after
    → slice_to_end c.pos c.source ≡ some after
slice-At c before after h = rw (h.source, h.pos) (slice_to_end-append before after)

abbrev pub step : Cursor → ℕ → Cursor
step c ch = record { source = c.source; pos = c.pos + len_utf8 ch }

pub step-At :
    (c : Cursor) (before after : List ℕ) (ch : ℕ)
    → At c before (ch ∷ after)
    → At (step c ch) (before ++ (ch ∷ [])) after
step-At c before after ch h = record {
  source = h.source ∙ append-snoc before after ch;
  pos = rw h.pos (sym (bytes-snoc before ch));
}

-- On a boundary `advance` gives the next character and goes to the boundary behind it.
pub advance-At :
    (c : Cursor) (before after : List ℕ) (ch : ℕ)
    → At c before (ch ∷ after)
    → (advance c ≡ some (some ch, step c ch)) × At (step c ch) (before ++ (ch ∷ [])) after
unfolding advance advance_by peek next
advance-At c before after ch h =
    (rw (slice-At c before (ch ∷ after) h) refl, step-At c before after ch h)

-- The longest prefix that passes, and what follows it.
unfoldable pub span_of : (ℕ → Bool) → List ℕ → List ℕ × List ℕ
span_of p [] = ([], [])
span_of p (ch ∷ chs) =
    let rest = span_of p chs in if p ch then (ch ∷ rest.0, rest.1) else ([], ch ∷ chs)

-- Where `eat_while` stops: behind the longest prefix of the text ahead whose characters all pass.
pub record Eaten (p : ℕ → Bool) (fuel : ℕ) (c : Cursor) (before after : List ℕ) : Type 0 where
  pub stop : Cursor
  pub result : eat_while_loop fuel p c ≡ some stop
  pub stands : At stop (before ++ (span_of p after).0) (span_of p after).1

pub append_nil : (xs : List ℕ) → xs ++ [] ≡ xs
append_nil [] = refl
append_nil (x ∷ xs) = ap (λ l. x ∷ l) (append_nil xs)

-- On a boundary the loop of `eat_while` ends within one round more than there are characters ahead,
-- behind the longest prefix of them that passes, on a boundary.
pub eat_while_loop-Eaten :
    (p : ℕ → Bool) (fuel : ℕ) (c : Cursor) (before after : List ℕ)
    → At c before after
    → length after < fuel
    → Eaten p fuel c before after
unfolding eat_while_loop while_at peek next span_of advance advance_by moved then_loop
eat_while_loop-Eaten p zero c before after h l = absurd (omega arith)
eat_while_loop-Eaten p (suc fuel) c before [] h l = record {
  stop = c;
  result = rw (slice-At c before [] h) refl;
  stands = rw append_nil h;
}
eat_while_loop-Eaten p (suc fuel) c before (ch ∷ chs) h l = elim (Bool-cases (p ch)) [
  | inr n ↦ record {
    stop = c;
    result = rw (slice-At c before (ch ∷ chs) h, n) refl;
    stands = rw (n, append_nil) h;
  }
  | inl y ↦
      let r =
        eat_while_loop-Eaten p fuel (step c ch) (before ++ (ch ∷ [])) chs
          (step-At c before chs ch h) (omega arith) in
      record {
        stop = r.stop;
        result = rw (slice-At c before (ch ∷ chs) h, y, slice-At c before (ch ∷ chs) h) r.result;
        stands = rw y (
            subst (λ l. At r.stop l (span_of p chs).1)
              (sym (append-snoc before (span_of p chs).0 ch)) r.stands);
      }
]
