-- ===== src/Syntax/Scan/Steps.antt =====
-- What the lexer does with its cursor and its report keeps to the boundaries of characters.
use tyra.Prelude.{
  ℕ, ◌^◌, ◌≤◌, ◌<◌, ◌≡◌, refl, sym, ap, ◌∙◌, subst, Bool, true, false, Option, none, some, List, [],
  ◌∷◌, ◌++◌, String, length, arith, ◌==◌, nat_eq, Bool-cases, inl, inr,
}
use tyra.Syntax.Cursor
use tyra.Syntax.Cursor.{Cursor, bytes, second, advance_by, eat_at, eaten, moved, next}
use tyra.Syntax.Cursor.Boundary.{slice-At, advance-At, span_of}
use tyra.Syntax.Cursor.Slices.{append_assoc, slice_from-At, span_of-append, eat_while-Taken}
use tyra.Syntax.Scan.{
  Lexer, return, ◌>>=◌, look, pos_u32, pos, peek, peek_next, at_eof, slice_from, advance, eat,
  eat_while, complain,
}
use tyra.Syntax.Scan.Runs.{On, Went, Runs, Moves, lower, behind, one_ahead, stays}

module _ {A : Type 0} (n : ℕ) (base : List ℕ) where
  Runs-look :
      (f : Cursor → Option A)
      → ((before after : List ℕ) (s : Lexer) → On before after s → (a : A) × (f s.cursor ≡ some a))
      → Runs n base (look f)
  unfolding Runs Moves ◌>>=◌ return
  Runs-look f h gone after s on l =
      let (a, q) = h (base ++ gone) after s on in stays a (rw q refl) on

next-some : (l : List ℕ) → (o : Option ℕ) × (next (some l) ≡ some o)
unfolding next
next-some [] = (none, refl)
next-some (x ∷ l) = (some x, refl)

second-some : (l : List ℕ) → (o : Option ℕ) × (second (some l) ≡ some o)
unfolding second
second-some [] = (none, refl)
second-some (x ∷ l) = next-some l

pub peek_next-some :
    (before after : List ℕ) (s : Lexer)
    → On before after s
    → (o : Option ℕ) × (Cursor.peek_next s.cursor ≡ some o)
unfolding Cursor.peek_next
peek_next-some before after s on =
    let (o, q) = second-some after in (o, ap second (slice-At s.cursor before after on.at) ∙ q)

module _ (n : ℕ) (base : List ℕ) where
  pub peek-Runs : Runs n base peek
  unfolding peek Cursor.peek Runs Moves ◌>>=◌ return
  peek-Runs = Runs-look n base Cursor.peek (λ before after s on.
      let (o, q) = next-some after in (o, ap next (slice-At s.cursor before after on.at) ∙ q))

  pub peek_next-Runs : Runs n base peek_next
  unfolding peek_next Runs Moves ◌>>=◌ return
  peek_next-Runs = Runs-look n base Cursor.peek_next peek_next-some

  pub pos-Runs : Runs n base pos
  unfolding pos Runs Moves ◌>>=◌ return
  pos-Runs =
      Runs-look n base (λ c. some (pos_u32 c)) (λ before after s on. (pos_u32 s.cursor, refl))

  pub at_eof-Runs : Runs n base at_eof
  unfolding at_eof Runs Moves ◌>>=◌ return
  at_eof-Runs =
      Runs-look n base (λ c. some (Cursor.is_eof c))
        (λ before after s on. (Cursor.is_eof s.cursor, refl))

  -- From the base on the slice is there.
  pub slice_from-Runs : Runs n base (slice_from (bytes base))
  unfolding slice_from Runs Moves ◌>>=◌ return
  slice_from-Runs gone after s on l =
      stays gone (rw (slice_from-At s.cursor base gone after on.at) refl) on

  pub advance-Moves : (ch : ℕ) → Moves n base ch advance
  unfolding advance Cursor.advance advance_by Cursor.peek next Runs Moves ◌>>=◌ return
  advance-Moves ch gone chs s on l =
      one_ahead (some ch) (behind s ch) (advance-At s.cursor (base ++ gone) chs ch on.at).1 on.small
        (rw (slice-At s.cursor (base ++ gone) (ch ∷ chs) on.at) refl)

  pub advance-Runs : Runs n base advance
  unfolding advance Cursor.advance advance_by Cursor.peek next Runs Moves ◌>>=◌ return
  advance-Runs gone [] s on l = stays none (rw (slice-At s.cursor (base ++ gone) [] on.at) refl) on
  advance-Runs gone (ch ∷ chs) s on l = lower (advance-Moves ch gone chs s on (omega arith))

  pub complain-Runs :
      (id : ℕ) (message code : String) (start stop : ℕ) (label : String)
      → Runs n base (complain id message code start stop label)
  unfolding complain Runs Moves ◌>>=◌ return
  complain-Runs id message code start stop label gone after s on l =
      stays tt refl
        (record { at = record { source = on.at.source; pos = on.at.pos }; small = on.small })

  taken-Went :
      (p : ℕ → Bool) (i : ℕ) (before after : List ℕ) (s : Lexer)
      → On before after s
      → i ≤ length (span_of p after).0
      → Went i before after (eat_while p s)
  unfolding eat_while
  taken-Went p i before after s on f =
      let t = eat_while-Taken p s.cursor before after on.at in
      let taken = (span_of p after).0 in
      let left = (span_of p after).1 in
      let same : before ++ after ≡ (before ++ taken) ++ left =
        ap (λ l. before ++ l) (sym (span_of-append p after))
        ∙ sym (append_assoc before taken left) in
      record {
        value = taken;
        lexer = record { cursor = t.stop; report = s.report };
        more = taken;
        rest = left;
        result = rw t.result refl;
        split = span_of-append p after;
        far = f;
        on = record { at = t.stands; small = subst (λ l. bytes l < 2 ^ 32) same on.small };
      }

  pub eat_while-Runs : (p : ℕ → Bool) → Runs n base (eat_while p)
  unfolding Runs Moves ◌>>=◌ return
  eat_while-Runs p gone after s on l = taken-Went p 0 (base ++ gone) after s on (omega arith)

  pub eat_while-Moves : (ch : ℕ) (p : ℕ → Bool) → p ch ≡ true → Moves n base ch (eat_while p)
  unfolding span_of Runs Moves ◌>>=◌ return
  eat_while-Moves ch p y gone chs s on l =
      taken-Went p 1 (base ++ gone) (ch ∷ chs) s on (rw y (omega arith))

  pub eat-Runs : (ch : ℕ) → Runs n base (eat ch)
  unfolding eat Cursor.eat eat_at eaten moved Cursor.advance advance_by Cursor.peek next Runs Moves
      ◌>>=◌ return
  eat-Runs ch gone [] s on l = stays false (rw (slice-At s.cursor (base ++ gone) [] on.at) refl) on
  eat-Runs ch gone (x ∷ chs) s on l = elim (Bool-cases (x == ch)) [
    | inr f ↦ stays false (rw (slice-At s.cursor (base ++ gone) (x ∷ chs) on.at, f) refl) on
    | inl y ↦
        let q = slice-At s.cursor (base ++ gone) (x ∷ chs) on.at in
        lower (
          one_ahead true (behind s x) (advance-At s.cursor (base ++ gone) chs x on.at).1 on.small
            (rw (q, y, q) refl))
  ]
