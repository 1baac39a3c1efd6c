-- ===== src/Syntax/Scan/Behind.antt =====
-- Scans behind scans: what is kept when one follows another.
use tyra.Prelude.{
  ℕ, suc, ◌-◌, ◌%◌, ◌^◌, ◌≤◌, ◌≡◌, refl, sym, ap, ◌∙◌, subst, Bool, true, false, Option, none, some,
  List, [], ◌∷◌, ◌++◌, String, if◌then◌else◌, length, length-append, arith, nat_eq,
}
use native.Mathlib.Nat.{mod-eq_of_lt}
use tyra.Syntax.Cursor
use tyra.Syntax.Cursor.{Cursor, bytes, second, advance_by, eat_at, eaten, moved, next}
use tyra.Syntax.Cursor.Boundary.{slice-At, append_nil}
use tyra.Syntax.Cursor.Slices.{append_assoc, bytes-append}
use tyra.Syntax.Scan.{Lexer, Scan, return, ◌>>=◌, look, pos, peek, peek_next, advance, complain}
use tyra.Syntax.Scan.Runs.{On, Went, Runs, Moves, lower, Went-behind, Runs-weaken, return-Runs}
use tyra.Syntax.Scan.Steps.{advance-Runs, advance-Moves, peek_next-some, complain-Runs}

pub pos-bytes :
    (here after : List ℕ) (s : Lexer) → On here after s → s.cursor.pos % 2 ^ 32 ≡ bytes here
pos-bytes here after s on =
    let b = bytes-append here after in
    let small = on.small in
    let p = on.at.pos in mod-eq_of_lt {n = s.cursor.pos} {m = 2 ^ 32} (omega arith) ∙ p

module _ {A B : Type 0} (n : ℕ) (base : List ℕ) where
  pub Runs-bind :
      (m : Scan A) (k : A → Scan B)
      → Runs n base m
      → ((a : A) → Runs n base (k a))
      → Runs n base (m >>= k)
  unfolding Runs Moves ◌>>=◌ return
  Runs-bind m k r h gone after s on l =
      let w = r gone after s on l in
      let q = ap length w.split in
      let e = append_assoc base gone w.more in
      Went-behind k w (
        subst (λ b. Went 0 b w.rest (k w.value w.lexer)) (sym e)
          (h w.value (gone ++ w.more) w.rest w.lexer (subst (λ b. On b w.rest w.lexer) e w.on)
            (omega (arith, q, length-append w.more w.rest, l))))

module _ {B : Type 0} where
  -- What is read is none at the end only.
  pub Runs-peek_then :
      (n : ℕ) (base : List ℕ) (k : Option ℕ → Scan B)
      → Runs 0 base (k none)
      → ((j : ℕ) → n ≡ suc j → (ch : ℕ) → Runs n base (k (some ch)))
      → Runs n base (peek >>= k)
  unfolding peek Cursor.peek next Runs Moves ◌>>=◌ return
  Runs-peek_then n base k z h gone [] s on l =
      rw (slice-At s.cursor (base ++ gone) [] on.at) (z gone [] s on (omega arith))
  Runs-peek_then n base k z h gone (ch ∷ chs) s on l =
      rw (slice-At s.cursor (base ++ gone) (ch ∷ chs) on.at)
        (h (n - 1) (omega arith) ch gone (ch ∷ chs) s on l)

  -- Where the cursor stands is a base.
  pub Runs-pos_then :
      (n : ℕ) (base : List ℕ) (k : ℕ → Scan B)
      → ((here : List ℕ) → Runs n here (k (bytes here)))
      → Runs n base (pos >>= k)
  unfolding pos Runs Moves ◌>>=◌ return
  Runs-pos_then n base k h gone after s on l =
      let here = base ++ gone in
      let e = append_nil here in
      rw (pos-bytes here after s on) (
        subst (λ b. Went 0 b after (k (bytes here) s)) e
          (h here [] after s (subst (λ b. On b after s) (sym e) on) l))

module _ {A B : Type 0} (n : ℕ) (base : List ℕ) (ch : ℕ) where
  pub Moves-bind :
      (m : Scan A) (k : A → Scan B)
      → Moves n base ch m
      → ((a : A) → Runs n base (k a))
      → Moves n base ch (m >>= k)
  unfolding Runs Moves ◌>>=◌ return
  Moves-bind m k r h gone chs s on l =
      let w = r gone chs s on l in
      let q = ap length w.split in
      let f = w.far in
      let e = append_assoc base gone w.more in
      Went-behind k w (
        subst (λ b. Went 0 b w.rest (k w.value w.lexer)) (sym e)
          (h w.value (gone ++ w.more) w.rest w.lexer (subst (λ b. On b w.rest w.lexer) e w.on)
            (omega (arith, q, length-append w.more w.rest, l, f))))

module _ {B : Type 0} (n : ℕ) (base : List ℕ) where
  -- Behind a character there is one less ahead.
  pub Runs-advance_then :
      (k : Option ℕ → Scan B)
      → ((a : Option ℕ) → Runs n base (k a))
      → Runs (suc n) base (advance >>= k)
  unfolding Runs Moves ◌>>=◌ return
  Runs-advance_then k h gone [] s on l =
      Runs-bind 0 base advance k (advance-Runs 0 base)
        (λ a. Runs-weaken 0 base n (k a) (omega arith) (h a)) gone [] s on (omega arith)
  Runs-advance_then k h gone (ch ∷ chs) s on l =
      lower (Moves-bind n base ch advance k (advance-Moves n base ch) h gone chs s on (omega arith))

  pub Moves-if :
      (ch : ℕ) (b : Bool) (x y : Scan B)
      → (b ≡ true → Moves n base ch x)
      → (b ≡ false → Moves n base ch y)
      → Moves n base ch (if b then x else y)
  unfolding Runs Moves ◌>>=◌ return
  Moves-if ch true x y p q = p refl
  Moves-if ch false x y p q = q refl

  pub Moves-pos_then :
      (ch : ℕ) (k : ℕ → Scan B)
      → ((here : List ℕ) → Moves n here ch (k (bytes here)))
      → Moves n base ch (pos >>= k)
  unfolding pos Runs Moves ◌>>=◌ return
  Moves-pos_then ch k h gone chs s on l =
      let here = base ++ gone in
      let e = append_nil here in
      rw (pos-bytes here (ch ∷ chs) s on) (
        subst (λ b. Went 1 b (ch ∷ chs) (k (bytes here) s)) e
          (h here [] chs s (subst (λ b. On b (ch ∷ chs) s) (sym e) on) l))

  pub Moves-peek_next_then :
      (ch : ℕ) (k : Option ℕ → Scan B)
      → ((a : Option ℕ) → Moves n base ch (k a))
      → Moves n base ch (peek_next >>= k)
  unfolding peek_next Runs Moves ◌>>=◌ return
  Moves-peek_next_then ch k h gone chs s on l =
      let (o, q) = peek_next-some (base ++ gone) (ch ∷ chs) s on in rw q (h o gone chs s on l)

module _ {A : Type 0} (n : ℕ) (base : List ℕ) where
  -- An error is reported, and the scan ends.
  pub complain-return :
      (id : ℕ) (message code : String) (start stop : ℕ) (label : String) (a : A)
      → Runs n base (complain id message code start stop label >>= λ u. return a)
  unfolding Runs Moves ◌>>=◌ return
  complain-return id message code start stop label a =
      Runs-bind n base (complain id message code start stop label) (λ u. return a)
        (complain-Runs n base id message code start stop label) (λ u. return-Runs n base a)

  -- A loop with one round more than there are characters.
  pub rounds_then :
      (k : ℕ → Scan A)
      → ((f m : ℕ) → m ≤ f → Runs m base (k (suc f)))
      → Runs n base (look (λ c. some (suc (length c.source))) >>= k)
  unfolding Runs Moves ◌>>=◌ return
  rounds_then k h gone after s on l =
      let q = ap length on.at.source in
      h (length s.cursor.source) (length after)
        (omega (arith, q, length-append (base ++ gone) after)) gone after s on (omega arith)
