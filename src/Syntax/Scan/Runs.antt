-- ===== src/Syntax/Scan/Runs.antt =====
-- Scans that do not panic: from the boundary of a character they come to one, forward.
use tyra.Prelude.{
  ℕ, ◌^◌, ◌≤◌, ◌<◌, ◌≡◌, refl, sym, ap, ◌∙◌, subst, Bool, true, false, Option, some, List, [], ◌∷◌,
  ◌++◌, if◌then◌else◌, length, length-append, arith, nat_eq,
}
use tyra.Syntax.Cursor.{bytes}
use tyra.Syntax.Cursor.Boundary.{At, step, append_nil}
use tyra.Syntax.Cursor.Slices.{append_assoc}
use tyra.Syntax.Scan.{Lexer, Scan, return, then_scan, ◌>>=◌}

-- The text before and behind the cursor, in a source whose offsets are a `u32`.
pub record On (before after : List ℕ) (s : Lexer) : Type 0 where
  pub at : At s.cursor before after
  pub small : bytes (before ++ after) < 2 ^ 32

-- How far a scan went: by `least` characters or more.
pub record Went {A : Type 0} (least : ℕ) (before after : List ℕ) (r : Option (A × Lexer))
    : Type 0 where
  pub value : A
  pub lexer : Lexer
  pub more : List ℕ
  pub rest : List ℕ
  pub result : r ≡ some (value, lexer)
  pub split : more ++ rest ≡ after
  pub far : least ≤ length more
  pub on : On (before ++ more) rest lexer

-- From a boundary behind `base`, with at most `n` characters ahead, the scan comes to a boundary.
unfoldable pub Runs : {A : Type 0} → ℕ → List ℕ → Scan A → Type 0
Runs n base m =
    (gone after : List ℕ) (s : Lexer)
    → On (base ++ gone) after s
    → length after ≤ n
    → Went 0 (base ++ gone) after (m s)

-- From a boundary behind `base` with the character `ch` and at most `n` more ahead, the scan comes to a
-- later boundary.
unfoldable pub Moves : {A : Type 0} → ℕ → List ℕ → ℕ → Scan A → Type 0
Moves n base ch m =
    (gone chs : List ℕ) (s : Lexer)
    → On (base ++ gone) (ch ∷ chs) s
    → length chs ≤ n
    → Went 1 (base ++ gone) (ch ∷ chs) (m s)

pub lower :
    {A : Type 0} {i : ℕ} {before after : List ℕ} {r : Option (A × Lexer)}
    → Went i before after r
    → Went 0 before after r
lower w = record {
  value = w.value;
  lexer = w.lexer;
  more = w.more;
  rest = w.rest;
  result = w.result;
  split = w.split;
  far = omega arith;
  on = w.on;
}

abbrev pub behind : Lexer → ℕ → Lexer
behind s ch = record { cursor = step s.cursor ch; report = s.report }

-- A scan over one character.
pub one_ahead :
    {A : Type 0} {before chs : List ℕ} {ch : ℕ} {r : Option (A × Lexer)} (a : A) (s : Lexer)
    → At s.cursor (before ++ (ch ∷ [])) chs
    → bytes (before ++ (ch ∷ chs)) < 2 ^ 32
    → r ≡ some (a, s)
    → Went 1 before (ch ∷ chs) r
one_ahead {before} {chs} {ch} a s at small q = record {
  value = a;
  lexer = s;
  more = ch ∷ [];
  rest = chs;
  result = q;
  split = refl;
  far = omega arith;
  on = record {
    at = at;
    small = subst (λ l. bytes l < 2 ^ 32) (sym (append_assoc before (ch ∷ []) chs)) small;
  };
}

-- A scan that stays where it is.
pub stays :
    {A : Type 0} {before after : List ℕ} {r : Option (A × Lexer)} {s : Lexer} (a : A)
    → r ≡ some (a, s)
    → On before after s
    → Went 0 before after r
stays {before} {after} {s} a q on = record {
  value = a;
  lexer = s;
  more = [];
  rest = after;
  result = q;
  split = refl;
  far = omega arith;
  on = subst (λ l. On l after s) (sym (append_nil before)) on;
}

module _ {A : Type 0} (n : ℕ) (base : List ℕ) where
  pub return-Runs : (a : A) → Runs n base (return a)
  unfolding Runs Moves ◌>>=◌ return
  return-Runs a gone after s on l = stays a refl on

  pub Runs-weaken : (k : ℕ) (m : Scan A) → n ≤ k → Runs k base m → Runs n base m
  unfolding Runs Moves ◌>>=◌ return
  Runs-weaken k m b r gone after s on l = r gone after s on (omega arith)

  pub Runs-if :
      (b : Bool) (x y : Scan A) → Runs n base x → Runs n base y → Runs n base (if b then x else y)
  unfolding Runs Moves ◌>>=◌ return
  Runs-if true x y p q = p
  Runs-if false x y p q = q

-- A scan behind a scan.
pub Went-behind :
    {A B : Type 0} {i : ℕ} {before after : List ℕ} {r : Option (A × Lexer)} (k : A → Scan B)
    (w : Went i before after r)
    → Went 0 (before ++ w.more) w.rest (k w.value w.lexer)
    → Went i before after (then_scan k r)
Went-behind {before} k w v = record {
  value = v.value;
  lexer = v.lexer;
  more = w.more ++ v.more;
  rest = v.rest;
  result = ap (then_scan k) w.result ∙ v.result;
  far = let f = w.far in omega (arith, f, length-append w.more v.more);
  split = append_assoc w.more v.more v.rest ∙ ap (λ l. w.more ++ l) v.split ∙ w.split;
  on = subst (λ l. On l v.rest v.lexer) (append_assoc before w.more v.more) v.on;
}
