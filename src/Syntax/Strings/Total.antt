-- ===== src/Syntax/Strings/Total.antt =====
-- String literals are scanned without a panic, in as many rounds as there are characters.
use Prim.Native.Char.{Char}
use tyra.Prelude.{
  ℕ, zero, suc, ◌-◌, ◌+◌, ◌≤◌, Bool, true, false, Option, none, some, List, [], ◌∷◌, ◌++◌, arith,
  ◌==◌, nat_eq,
}
use tyra.Prelude.Dict.{get}
use tyra.Syntax.Cursor.{bytes}
use tyra.Syntax.Text.{from_u32}
use tyra.Syntax.Token.{TokenKind, InterpPart, error}
use tyra.Syntax.Scan.{
  Scan, ◌>>=◌, pos, peek, peek_next, slice_from, advance, eat, eat_while, complain,
}
use tyra.Syntax.Scan.Runs.{Runs, Moves, Runs-if, return-Runs}
use tyra.Syntax.Scan.Steps.{
  peek-Runs, peek_next-Runs, pos-Runs, slice_from-Runs, advance-Runs, eat-Runs, eat_while-Runs,
  advance-Moves, complain-Runs,
}
use tyra.Syntax.Scan.Behind.{
  Runs-bind, Runs-advance_then, Runs-peek_then, Runs-pos_then, Moves-bind, complain-return,
  rounds_then,
}
use tyra.Syntax.Literals.{is_hex, hex_digit, digits_value}
use tyra.Syntax.Strings.{
  push_char, escape_closed, escape_digits, escape_opened, scan_unicode_escape, escapes, escape_char,
  escape_at, interp_unclosed, expr_closed, expr_at, expr_loop, Loop, string_unclosed,
  interp_scanned, hash_at, string_at, string_loop, scan_string, raw_unclosed, raw_at, raw_loop,
  scan_raw_string,
}

module _ (id n : ℕ) (base : List ℕ) where
  -- An error at the cursor.
  told_here :
      {A : Type 0} (k : ℕ → Scan A) → ((a : ℕ) → Runs n base (k a)) → Runs n base (pos >>= k)
  told_here k h = Runs-bind n base pos k (pos-Runs n base) h

  push_char-Runs :
      (value : List ℕ) (start code_point : ℕ) (c : Option Char)
      → Runs n base (push_char id value start code_point c)
  unfolding push_char
  push_char-Runs value start code_point (some c) = return-Runs n base _
  push_char-Runs value start code_point none =
      told_here _ (λ stop. complain-return n base id _ _ start stop _ value)

  escape_closed-Runs :
      (value : List ℕ) (start : ℕ) (hex : List ℕ) (b : Bool)
      → Runs n base (escape_closed id value start hex b)
  unfolding escape_closed
  escape_closed-Runs value start hex false =
      told_here _ (λ here. complain-return n base id _ _ here here _ value)
  escape_closed-Runs value start hex true =
      push_char-Runs value start (digits_value 16 hex_digit hex 0)
        (from_u32 (digits_value 16 hex_digit hex 0))

  escape_digits-Runs :
      (value : List ℕ) (start : ℕ) (hex : List ℕ) → Runs n base (escape_digits id value start hex)
  unfolding escape_digits
  escape_digits-Runs value start hex =
      Runs-if n base _ _ _
        (told_here _ (λ stop.
          Runs-bind n base (complain id _ _ start stop _) _
            (complain-Runs n base id _ _ start stop _)
            (λ u.
              Runs-bind n base (eat 125) _ (eat-Runs n base 125) (λ e. return-Runs n base value))))
        (Runs-bind n base (eat 125) _ (eat-Runs n base 125) (escape_closed-Runs value start hex))

  escape_opened-Runs : (value : List ℕ) (b : Bool) → Runs n base (escape_opened id value b)
  unfolding escape_opened
  escape_opened-Runs value false =
      told_here _ (λ here. complain-return n base id _ _ _ here _ value)
  escape_opened-Runs value true = told_here _ (λ start.
      Runs-bind n base (eat_while is_hex) _ (eat_while-Runs n base is_hex)
        (escape_digits-Runs value start))

  scan_unicode_escape-Runs : (value : List ℕ) → Runs n base (scan_unicode_escape id value)
  unfolding scan_unicode_escape
  scan_unicode_escape-Runs value =
      Runs-bind n base (eat 123) _ (eat-Runs n base 123) (escape_opened-Runs value)

  escape_char-Runs :
      (current : List ℕ) (c : ℕ) (v : Option ℕ) → Runs n base (escape_char id current c v)
  unfolding escape_char
  escape_char-Runs current c (some v) =
      Runs-bind n base advance _ (advance-Runs n base) (λ e. return-Runs n base _)
  escape_char-Runs current c none =
      Runs-if n base _ _ _
        (Runs-bind n base advance _ (advance-Runs n base) (λ e. scan_unicode_escape-Runs current))
        (told_here _ (λ here.
          Runs-bind n base advance _ (advance-Runs n base)
            (λ e. told_here _ (λ stop. complain-return n base id _ _ _ stop _ _))))

  escape_at-Runs : (current : List ℕ) (c : Option ℕ) → Runs n base (escape_at id current c)
  unfolding escape_at
  escape_at-Runs current none = return-Runs n base current
  escape_at-Runs current (some c) = escape_char-Runs current c (get c escapes)

  interp_unclosed-Runs : Runs n base (interp_unclosed id)
  unfolding interp_unclosed
  interp_unclosed-Runs = told_here _ (λ here. complain-return n base id _ _ here here _ none)

  string_unclosed-Runs : Runs n base (string_unclosed id)
  unfolding string_unclosed
  string_unclosed-Runs = told_here _ (λ here. complain-return n base id _ _ here here _ error)

  raw_unclosed-Runs : Runs n base (raw_unclosed id)
  unfolding raw_unclosed
  raw_unclosed-Runs = told_here _ (λ here. complain-return n base id _ _ here here _ error)

module _ (id j : ℕ) (base : List ℕ) where
  expr_at-Runs :
      (loop : ℕ → List ℕ → Scan (Option (List ℕ))) (depth : ℕ) (t : List ℕ) (c : ℕ)
      → ((d : ℕ) (l : List ℕ) → Runs j base (loop d l))
      → Runs (suc j) base (expr_at id loop depth t (some c))
  unfolding expr_at expr_closed
  expr_at-Runs loop depth t c h =
      Runs-if (suc j) base (c == 10) _ _ (interp_unclosed-Runs id (suc j) base) (
        Runs-if (suc j) base (c == 123) _ _
          (Runs-advance_then j base _ (λ e. h (depth + 1) (t ++ (123 ∷ []))))
          (Runs-if (suc j) base (c == 125) _ _
            (Runs-advance_then j base _ (λ e.
              Runs-if j base (depth - 1 == 0) _ _ (return-Runs j base (some t))
                (h (depth - 1) (t ++ (125 ∷ [])))))
            (Runs-advance_then j base _ (λ e. h depth (t ++ (c ∷ []))))))

  interp_scanned-Runs :
      (loop : Loop) (parts : List InterpPart) (o : Option (List ℕ))
      → ((l : List ℕ) (ps : List InterpPart) (b : Bool) → Runs j base (loop l ps b))
      → Runs j base (interp_scanned loop parts o)
  unfolding interp_scanned
  interp_scanned-Runs loop parts none h = return-Runs j base error
  interp_scanned-Runs loop parts (some t) h = h _ _ true

  string_at-Runs :
      (f : ℕ) (loop : Loop) (current : List ℕ) (parts : List InterpPart) (interp : Bool) (c : ℕ)
      → Runs j base (expr_loop id f 1 [])
      → ((l : List ℕ) (ps : List InterpPart) (b : Bool) → Runs j base (loop l ps b))
      → Runs (suc j) base (string_at id f loop current parts interp (some c))
  unfolding string_at hash_at
  string_at-Runs f loop current parts interp c x h =
      Runs-if (suc j) base _ _ _ (string_unclosed-Runs id (suc j) base) (
        Runs-if (suc j) base _ _ _ (Runs-advance_then j base _ (λ e. return-Runs j base _)) (
          Runs-if (suc j) base _ _ _
            (Runs-bind (suc j) base peek_next _ (peek_next-Runs (suc j) base) (λ next.
              Runs-if (suc j) base _ _ _
                (Runs-advance_then j base _ (λ e.
                  Runs-bind j base advance _ (advance-Runs j base) (λ b.
                    Runs-bind j base (expr_loop id f 1 []) _ x
                      (λ o. interp_scanned-Runs loop _ o h))))
                (Runs-advance_then j base _ (λ e. h _ _ _))))
            (Runs-if (suc j) base _ _ _
              (Runs-advance_then j base _ (λ e.
                Runs-bind j base (peek >>= escape_at id current) _
                  (Runs-bind j base peek _ (peek-Runs j base) (escape_at-Runs id j base current))
                  (λ l. h l _ _)))
              (Runs-advance_then j base _ (λ e. h _ _ _)))))

  raw_at-Runs :
      (loop : Scan TokenKind) (c : ℕ)
      → Runs j base loop
      → Runs (suc j) base (raw_at id loop (bytes base) (some c))
  unfolding raw_at
  raw_at-Runs loop c h = Runs-if (suc j) base _ _ _ (raw_unclosed-Runs id (suc j) base) (
      Runs-if (suc j) base _ _ _
        (Runs-bind (suc j) base (slice_from (bytes base)) _ (slice_from-Runs (suc j) base)
          (λ t. Runs-advance_then j base _ (λ e. return-Runs j base _)))
        (Runs-advance_then j base _ (λ e. h)))

module _ (id : ℕ) (base : List ℕ) where
  expr_loop-Runs : (f m depth : ℕ) (t : List ℕ) → m ≤ f → Runs m base (expr_loop id (suc f) depth t)
  unfolding expr_loop expr_at
  expr_loop-Runs f zero depth t l =
      Runs-peek_then 0 base _ (interp_unclosed-Runs id 0 base) (λ j q c. absurd (omega arith))
  expr_loop-Runs zero (suc m) depth t l = absurd (omega arith)
  expr_loop-Runs (suc f) (suc m) depth t l =
      Runs-peek_then (suc m) base _ (interp_unclosed-Runs id 0 base) (λ j q c.
        expr_at-Runs id m base (expr_loop id (suc f)) depth t c
          (λ d u. expr_loop-Runs f m d u (omega arith)))

  string_loop-Runs :
      (f m : ℕ) (current : List ℕ) (parts : List InterpPart) (interp : Bool)
      → m ≤ f
      → Runs m base (string_loop id (suc f) current parts interp)
  unfolding string_loop string_at
  string_loop-Runs f zero current parts interp l =
      Runs-peek_then 0 base _ (string_unclosed-Runs id 0 base) (λ j q c. absurd (omega arith))
  string_loop-Runs zero (suc m) current parts interp l = absurd (omega arith)
  string_loop-Runs (suc f) (suc m) current parts interp l =
      Runs-peek_then (suc m) base _ (string_unclosed-Runs id 0 base) (λ j q c.
        string_at-Runs id m base (suc f) (string_loop id (suc f)) current parts interp c
          (expr_loop-Runs f m 1 [] (omega arith))
          (λ u ps b. string_loop-Runs f m u ps b (omega arith)))

  raw_loop-Runs : (f m : ℕ) → m ≤ f → Runs m base (raw_loop id (suc f) (bytes base))
  unfolding raw_loop raw_at
  raw_loop-Runs f zero l =
      Runs-peek_then 0 base _ (raw_unclosed-Runs id 0 base) (λ j q c. absurd (omega arith))
  raw_loop-Runs zero (suc m) l = absurd (omega arith)
  raw_loop-Runs (suc f) (suc m) l =
      Runs-peek_then (suc m) base _ (raw_unclosed-Runs id 0 base) (λ j q c.
        raw_at-Runs id m base (raw_loop id (suc f) (bytes base)) c
          (raw_loop-Runs f m (omega arith)))

pub scan_string-Moves : (id n : ℕ) (base : List ℕ) (ch : ℕ) → Moves n base ch (scan_string id)
unfolding scan_string
scan_string-Moves id n base ch =
    Moves-bind n base ch advance _ (advance-Moves n base ch)
      (λ e. rounds_then n base _ (λ f m l. string_loop-Runs id base f m [] [] false l))

pub scan_raw_string-Runs : (id n : ℕ) (base : List ℕ) → Runs n base (scan_raw_string id)
unfolding scan_raw_string
scan_raw_string-Runs id n base = Runs-bind n base advance _ (advance-Runs n base) (λ e.
    Runs-pos_then n base _ (λ here. rounds_then n here _ (λ f m l. raw_loop-Runs id here f m l)))
