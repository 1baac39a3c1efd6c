-- ===== src/Syntax/Scan/Ahead.antt =====
-- Steps over a character that is known.
use tyra.Prelude.{
  ℕ, ◌^◌, ◌<◌, ◌≡◌, refl, sym, ap, subst, Bool, true, some, List, [], ◌∷◌, ◌++◌, nat_eq, beq_refl,
}
use tyra.Syntax.Cursor
use tyra.Syntax.Cursor.{bytes, advance_by, eat_at, eaten, moved, next}
use tyra.Syntax.Cursor.Boundary.{At, slice-At, advance-At, span_of}
use tyra.Syntax.Cursor.Slices.{append_assoc, eat_while-Taken}
use tyra.Syntax.Scan.{Lexer, peek, advance, eat, eat_while}
use tyra.Syntax.Scan.Runs.{On, behind}

module _ (before after : List ℕ) (c : ℕ) (s : Lexer) (on : On before (c ∷ after) s) where
  pub peek-ahead : peek s ≡ some (some c, s)
  unfolding peek Cursor.peek next
  peek-ahead = rw (slice-At s.cursor before (c ∷ after) on.at) refl

  pub advance-ahead : advance s ≡ some (some c, behind s c)
  unfolding advance Cursor.advance advance_by Cursor.peek next
  advance-ahead = rw (slice-At s.cursor before (c ∷ after) on.at) refl

  pub eat-ahead : eat c s ≡ some (true, behind s c)
  unfolding eat Cursor.eat eat_at eaten moved Cursor.advance advance_by Cursor.peek next
  eat-ahead = let q = slice-At s.cursor before (c ∷ after) on.at in rw (q, beq_refl c, q) refl

  pub behind-On : On (before ++ (c ∷ [])) after (behind s c)
  behind-On = record {
    at = (advance-At s.cursor before after c on.at).1;
    small = subst (λ l. bytes l < 2 ^ 32) (sym (append_assoc before (c ∷ []) after)) on.small;
  }

-- Where `eat_while` stops, in front of what does not pass.
pub record Passed (p : ℕ → Bool) (before taken rest : List ℕ) (s : Lexer) : Type 0 where
  pub stop : Lexer
  pub result : eat_while p s ≡ some (taken, stop)
  pub on : On (before ++ taken) rest stop
  pub same : stop.report ≡ s.report

pub eat_while-Passed :
    (p : ℕ → Bool) (before taken rest : List ℕ) (s : Lexer)
    → On before (taken ++ rest) s
    → span_of p (taken ++ rest) ≡ (taken, rest)
    → Passed p before taken rest s
unfolding eat_while
eat_while-Passed p before taken rest s on q =
    let t = eat_while-Taken p s.cursor before (taken ++ rest) on.at in
    let a = ap (λ x. x.0) q in
    let b = ap (λ x. x.1) q in
    record {
      stop = record { cursor = t.stop; report = s.report };
      result = rw (t.result, a) refl;
      on = record {
        at = subst (λ x. At t.stop (before ++ x.0) x.1) q t.stands;
        small = subst (λ l. bytes l < 2 ^ 32) (sym (append_assoc before taken rest)) on.small;
      };
      same = refl;
    }
