-- ===== src/Parser/Source/Nested.antt =====
-- The depth of interpolation: the texts inside interpolated strings have results too.
use mathlib.Core.Option.{some-injective}
use tyra.Prelude.{
  subst, get_elem?, Bool, ℕ, zero, suc, ◌^◌, ◌<◌, ◌≡◌, refl, Option, some, none, List, [], ◌∷◌,
  String, arith, length,
}
use tyra.Diagnostics.Report
use tyra.Diagnostics.Report.{Report}
use tyra.Syntax.Token.{TokenKind, Token, InterpPart, interp_string}
use tyra.Syntax.TokenStream
use tyra.Syntax.TokenStream.{TokenStream}
use tyra.Syntax.Cursor.{bytes}
use tyra.Syntax.Scan.{Lexer}
use tyra.Syntax.Lexer.{tokenize}
use tyra.Syntax.Lexer.Stream.{tokenize-IsValid}
use tyra.Parser.Parse.Runs.{Runs}
use tyra.Parser.Parse.Seen.{Held}
use tyra.Parser.Ast.{Expr, StringPart}
use tyra.Parser.Parts.{Prec}
use tyra.Parser.Prefix.{string_parts, part_of, part_then, parsed_part}
use tyra.Parser.Prefix.Total.{Fine}
use tyra.Parser.Stmt.{parts}
use tyra.Parser.Stmt.Total.{parts-IsTotal}
use tyra.Parser.Source.{codes, value_of, inner_tokens, inner_expr}

module _ (parse_f64 : List ℕ → Option ℕ) where
  -- A predicate of the tokens that the lexer makes of a text, where it makes any.
  abbrev pub Tokenized : (List Token → Type 0) → Option (List Token × Lexer) → Type 0
  Tokenized P none = Unit
  Tokenized P (some (tokens, lexer)) = P tokens

  -- A text of fewer than 2 ^ 32 bytes, whose tokens are as the predicate says.
  abbrev pub TextOf : (List Token → Type 0) → InterpPart → Type 0
  TextOf P (InterpPart.lit text) = Unit
  TextOf P (InterpPart.expr text) =
      (bytes (codes text) < 2 ^ 32) × Tokenized P (tokenize parse_f64 0 (codes text) Report.new)

  abbrev pub TextsOf : (List Token → Type 0) → List InterpPart → Type 0
  TextsOf P [] = Unit
  TextsOf P (p ∷ ps) = TextOf P p × TextsOf P ps

  abbrev pub KindOf : (List Token → Type 0) → TokenKind → Type 0
  KindOf P (interp_string parts) = TextsOf P parts
  KindOf P kind = Unit

  abbrev pub Interpolates : (List Token → Type 0) → List Token → Type 0
  Interpolates P [] = Unit
  Interpolates P (t ∷ ts) = KindOf P t.kind × Interpolates P ts

  -- There are fewer levels of interpolation in the tokens; each text in them has fewer than 2 ^ 32 bytes.
  unfoldable pub Nests : ℕ → List Token → Type 0
  Nests zero tokens = ⊥
  Nests (suc depth) tokens = Interpolates (Nests depth) tokens

  KindOf-held :
      (P : List Token → Type 0) (tokens : List Token) (i : ℕ) (t : Token)
      → Interpolates P tokens
      → get_elem? tokens i ≡ some t
      → KindOf P t.kind
  KindOf-held P [] i t all e = absurd (cc)
  KindOf-held P (x ∷ xs) zero t all e = subst (λ u. KindOf P u.kind) (some-injective _ _ e) all.0
  KindOf-held P (x ∷ xs) (suc i) t all e = KindOf-held P xs i t all.1 e

  module _ (P : List Token → Type 0) (inner : String → Option Expr)
      (total : (text : String)
        → TextOf P (InterpPart.expr text)
        → (e : Expr) × (inner text ≡ some e)) where
    part-total :
        (p : InterpPart) → TextOf P p → (found : StringPart) × (part_of inner p ≡ some found)
    unfolding part_of parsed_part
    part-total (InterpPart.lit text) h = (StringPart.lit text, refl)
    part-total (InterpPart.expr text) h =
        let (e, q) = total text h in (StringPart.expr e, rw q refl)

    parts-total :
        (ps : List InterpPart)
        → TextsOf P ps
        → (found : List StringPart) × (string_parts inner ps ≡ some found)
    unfolding string_parts part_then
    parts-total [] h = ([], refl)
    parts-total (p ∷ ps) h =
        let (x, q) = part-total p h.0 in
        let (xs, r) = parts-total ps h.1 in (x ∷ xs, rw (q, r) refl)

    KindOf-Fine : (kind : TokenKind) → KindOf P kind → Fine inner kind
    unfolding Fine
    KindOf-Fine (interp_string ps) h = parts-total ps h
    KindOf-Fine kind h = tt

    pub Held-Fine :
        (tokens : List Token)
        → Interpolates P tokens
        → (kind : TokenKind) → Held tokens kind
        → Fine inner kind
    Held-Fine tokens all kind held =
        subst (Fine inner) held.is
          (KindOf-Fine held.token.kind (KindOf-held P tokens held.at held.token all held.found))

module _ (parse_f64 : List ℕ → Option ℕ) (is_uppercase : ℕ → Bool) where
  -- A text whose tokens nest less deeply than the depth has a parse.
  pub inner_expr-total :
      (depth : ℕ) (text : String)
      → TextOf parse_f64 (Nests parse_f64 depth) (InterpPart.expr text)
      → (e : Expr) × (inner_expr parse_f64 is_uppercase depth text ≡ some e)
  unfolding inner_expr Nests inner_tokens value_of TokenStream.new Runs
  inner_expr-total zero text h =
      let (tokens, lexer, q, v) = tokenize-IsValid parse_f64 0 (codes text) Report.new h.0 in
      let no : ⊥ = subst (Tokenized parse_f64 (λ ts. ⊥)) q h.1 in elim no [ ]
  inner_expr-total (suc depth) text h =
      let (tokens, lexer, q, v) = tokenize-IsValid parse_f64 0 (codes text) Report.new h.0 in
      let all = subst (Tokenized parse_f64 (Nests parse_f64 (suc depth))) q h.1 in
      let inner = inner_expr parse_f64 is_uppercase depth in
      let fine =
        Held-Fine parse_f64 (Nests parse_f64 depth) inner (inner_expr-total depth) tokens all in
      let total = parts-IsTotal tokens is_uppercase inner fine (suc (length tokens)) in
      let w =
        total.expr_prec-Runs Prec.none (length tokens) (omega arith) (TokenStream.new tokens)
          lexer.report (record { valid = v; same = refl }) (omega arith) in
      (w.value, rw (q, w.result) refl)
