-- ===== src/Syntax/Strings/Rounds.antt =====
-- The rounds of the loop of `scan_string` over a text whose characters are escaped where they must be.
use tyra.Prelude.{
  ℕ, suc, ◌≡◌, refl, sym, ap, subst, false, some, List, [], ◌∷◌, ◌++◌, if◌then◌else◌, ◌==◌, nat_eq,
  nat_beq_iff, Bool-cases, inl, inr,
}
use tyra.Prelude.Dict.{get}
use tyra.Syntax.Cursor.Boundary.{span_of}
use tyra.Syntax.Cursor.Slices.{append_assoc}
use tyra.Syntax.Text.{from_u32}
use tyra.Syntax.Scan.{Lexer, return, ◌>>=◌, pos}
use tyra.Syntax.Scan.Runs.{On, behind}
use tyra.Syntax.Scan.Ahead.{peek-ahead, advance-ahead, eat-ahead, behind-On, eat_while-Passed}
use tyra.Syntax.Literals.{is_hex, digits_value}
use tyra.Syntax.Strings.{
  escapes, escape_char, escape_at, scan_unicode_escape, escape_opened, escape_digits, escape_closed,
  push_char, string_at, string_loop,
}

-- How a character is written in a literal: the hash by its number.
unfoldable pub escaped_char : ℕ → List ℕ
escaped_char c =
    if c == 10
    then 92 ∷ 110 ∷ []
    else if c == 34
    then 92 ∷ 34 ∷ []
    else if c == 92
    then 92 ∷ 92 ∷ []
    else if c == 35
    then 92 ∷ 117 ∷ 123 ∷ 50 ∷ 51 ∷ 125 ∷ []
    else c ∷ []

module _ (id : ℕ) where
  -- A round of the loop that takes `written` for the character `c`.
  pub record Round (f : ℕ) (current : List ℕ) (c : ℕ) (before written after : List ℕ) (s : Lexer)
      : Type 0 where
    pub later : Lexer
    pub turns :
        string_loop id (suc f) current [] false s
        ≡ string_loop id f (current ++ (c ∷ [])) [] false later
    pub on : On (before ++ written) after later
    pub same : later.report ≡ s.report

  -- A character that stands for itself.
  plain-Round :
      (f : ℕ) (current : List ℕ) (c : ℕ) (before after : List ℕ) (s : Lexer)
      → On before (c ∷ after) s
      → (c == 10) ≡ false
      → (c == 34) ≡ false
      → (c == 35) ≡ false
      → (c == 92) ≡ false
      → Round f current c before (c ∷ []) after s
  unfolding string_loop string_at ◌>>=◌
  plain-Round f current c before after s on n1 n2 n3 n4 = record {
    later = behind s c;
    turns =
        rw (peek-ahead before after c s on, n1, n2, n3, n4, advance-ahead before after c s on) refl;
    on = behind-On before after c s on;
    same = refl;
  }

  -- A backslash and one character.
  escape-Round :
      (f : ℕ) (current : List ℕ) (c e : ℕ) (before after : List ℕ) (s : Lexer)
      → On before (92 ∷ e ∷ after) s
      → get e escapes ≡ some c
      → Round f current c before (92 ∷ e ∷ []) after s
  unfolding string_loop string_at escape_at escape_char ◌>>=◌ return
  escape-Round f current c e before after s on q =
      let on' = behind-On before (e ∷ after) 92 s on in
      let s' = behind s 92 in
      record {
        later = behind s' e;
        turns =
            rw
              (
                peek-ahead before (e ∷ after) 92 s on,
                advance-ahead before (e ∷ after) 92 s on,
                peek-ahead _ after e s' on',
                q,
                advance-ahead _ after e s' on',
              )
              refl;
        on =
            subst (λ l. On l after (behind s' e)) (append_assoc before (92 ∷ []) (e ∷ []))
              (behind-On _ after e s' on');
        same = refl;
      }

  -- The hash by its number.
  unicode-Round :
      (f : ℕ) (current before after : List ℕ) (s : Lexer)
      → On before (92 ∷ 117 ∷ 123 ∷ 50 ∷ 51 ∷ 125 ∷ after) s
      → Round f current 35 before (92 ∷ 117 ∷ 123 ∷ 50 ∷ 51 ∷ 125 ∷ []) after s
  unfolding string_loop string_at escape_at escape_char get scan_unicode_escape escape_opened
      escape_digits escape_closed push_char pos digits_value from_u32 span_of ◌>>=◌ return
  unicode-Round f current before after s on0 =
      let on1 = behind-On before _ 92 s on0 in
      let s1 = behind s 92 in
      let on2 = behind-On _ _ 117 s1 on1 in
      let s2 = behind s1 117 in
      let on3 = behind-On _ _ 123 s2 on2 in
      let s3 = behind s2 123 in
      let p = eat_while-Passed is_hex _ (50 ∷ 51 ∷ []) (125 ∷ after) s3 on3 refl in
      let on5 = behind-On _ after 125 p.stop p.on in
      record {
        later = behind p.stop 125;
        turns =
            rw
              (
                peek-ahead before _ 92 s on0,
                advance-ahead before _ 92 s on0,
                peek-ahead _ _ 117 s1 on1,
                advance-ahead _ _ 117 s1 on1,
                eat-ahead _ _ 123 s2 on2,
                p.result,
                eat-ahead _ after 125 p.stop p.on,
              )
              refl;
        on = subst (λ l. On l after (behind p.stop 125)) (simp append_assoc) on5;
        same = p.same;
      }

  pub char-Round :
      (f : ℕ) (current : List ℕ) (c : ℕ) (before after : List ℕ) (s : Lexer)
      → On before (escaped_char c ++ after) s
      → Round f current c before (escaped_char c) after s
  unfolding escaped_char get
  char-Round f current c before after s on = elim (Bool-cases (c == 10)) [
    | inl y ↦
        let q = (nat_beq_iff c 10).0 y in
        rw y (escape-Round f current c 110 before after s (rw y at on) (ap some (sym q)))
    | inr n1 ↦ elim (Bool-cases (c == 34)) [
      | inl y ↦
          let q = (nat_beq_iff c 34).0 y in
          rw (n1, y)
            (escape-Round f current c 34 before after s (rw (n1, y) at on) (ap some (sym q)))
      | inr n2 ↦ elim (Bool-cases (c == 92)) [
        | inl y ↦
            let q = (nat_beq_iff c 92).0 y in
            rw (n1, n2, y)
              (escape-Round f current c 92 before after s (rw (n1, n2, y) at on) (ap some (sym q)))
        | inr n3 ↦ elim (Bool-cases (c == 35)) [
          | inl y ↦
              let q = (nat_beq_iff c 35).0 y in
              rw (n1, n2, n3, y)
                (subst (λ d. Round f current d before (92 ∷ 117 ∷ 123 ∷ 50 ∷ 51 ∷ 125 ∷ []) after s)
                  (sym q) (unicode-Round f current before after s (rw (n1, n2, n3, y) at on)))
          | inr n4 ↦
              rw (n1, n2, n3, n4)
                (plain-Round f current c before after s (rw (n1, n2, n3, n4) at on) n1 n2 n4 n3)
        ]
      ]
    ]
  ]
