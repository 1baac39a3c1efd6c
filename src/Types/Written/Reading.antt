-- ===== src/Types/Written/Reading.antt =====
-- The types that a program can name: their type expressions, and what is read back.
use mathlib.Core.Path.{ap₂}
use tyra.Prelude.{
  ℕ, ◌≤◌, ◌≡◌, refl, sym, ap, ◌∙◌, false, Option, none, some, [], List, ◌∷◌, String, string_eq,
  ◌==◌, if◌then◌else◌, is_some, Bool-cases, inl, inr,
}
use tyra.Prelude.Dict.{Dict, get, contains_key, contains_key-get}
use tyra.Diagnostics.Report.{Report}
use tyra.Syntax.Token.{TokenKind}
use tyra.Syntax.TokenStream.{TokenStream}
use tyra.Types.Ty.{
  Ty, Tys, nil, cons, int, float, bool, string, rune, bytes, unit, never, named, generic, fn, var,
  error,
}
use tyra.Types.Written.{
  TypeExpr, TypeExprs, type_expr, named_kind, generic_kind, fn_kind, tuple_kind, no_exprs, exprs,
  primitives, or_named, from_type_expr, from_all,
}
use tyra.Parser.Parse.Reads.{Shows, Parses}
use tyra.Parser.TypeExpr.{parse_type}
use tyra.Parser.TypeExpr.Print.{print, size, bare, bare_all, nowhere, Written, AllWritten, Follows}
use tyra.Parser.TypeExpr.RoundTrip.{parse_type-print}

abbrev plain : String → TypeExpr
plain name = type_expr (named_kind name) nowhere

-- The type expression for a type. Inference variables and the type of errors have none.
unfoldable mutual
  pub expr_of : Ty → TypeExpr
  expr_of int = plain "Int"
  expr_of float = plain "Float"
  expr_of bool = plain "Bool"
  expr_of string = plain "String"
  expr_of rune = plain "Rune"
  expr_of bytes = plain "Bytes"
  expr_of unit = plain "Unit"
  expr_of never = plain "Never"
  expr_of (named name) = plain name
  expr_of (generic name args) =
      let parts = all_of args in
      type_expr (if name == "Tuple" then tuple_kind parts else generic_kind name parts) nowhere
  expr_of (fn params ret) = type_expr (fn_kind (all_of params) (expr_of ret)) nowhere
  expr_of (var id) = plain "_"
  expr_of error = plain "_"

  pub all_of : Tys → TypeExprs
  all_of nil = no_exprs
  all_of (cons t ts) = exprs (expr_of t) (all_of ts)

abbrev builtin_names : Dict String (Unit {0})
builtin_names =
    ("Int", tt)
    ∷ ("Float", tt)
    ∷ ("Bool", tt)
    ∷ ("String", tt)
    ∷ ("Rune", tt)
    ∷ ("Bytes", tt)
    ∷ ("Unit", tt)
    ∷ ("Never", tt)
    ∷ []

-- The types with a type expression: a generic type has an argument, a tuple two elements, and no type
-- that the program defines has a builtin type's name.
unfoldable mutual
  pub IsSource : Ty → Type 0
  IsSource (named name) = contains_key name builtin_names ≡ false
  IsSource (generic name nil) = ⊥
  IsSource (generic name (cons t nil)) = ((name == "Tuple") ≡ false) × IsSource t
  IsSource (generic name (cons t (cons u ts))) = IsSource t × (IsSource u × AllSource ts)
  IsSource (fn params ret) = AllSource params × IsSource ret
  IsSource (var id) = ⊥
  IsSource error = ⊥
  IsSource t = Unit

  pub AllSource : Tys → Type 0
  AllSource nil = Unit
  AllSource (cons t ts) = IsSource t × AllSource ts

mutual
  unfolding expr_of IsSource Written

  expr_of-Written : (t : Ty) → IsSource t → Written (expr_of t)
  expr_of-Written int s = tt
  expr_of-Written float s = tt
  expr_of-Written bool s = tt
  expr_of-Written string s = tt
  expr_of-Written rune s = tt
  expr_of-Written bytes s = tt
  expr_of-Written unit s = tt
  expr_of-Written never s = tt
  expr_of-Written (named name) s = tt
  expr_of-Written (generic name nil) s = absurd s
  expr_of-Written (generic name (cons t nil)) s = rw s.0 (expr_of-Written t s.1, tt)
  expr_of-Written (generic name (cons t (cons u ts))) s =
      let all : Written (expr_of t) × (Written (expr_of u) × AllWritten (all_of ts)) =
        (expr_of-Written t s.0, (expr_of-Written u s.1.0, all_of-AllWritten ts s.1.1)) in
      elim (Bool-cases (name == "Tuple")) [ inl y ↦ rw y all | inr n ↦ rw n all ]
  expr_of-Written (fn params ret) s = (all_of-AllWritten params s.0, expr_of-Written ret s.1)
  expr_of-Written (var id) s = absurd s
  expr_of-Written error s = absurd s

  all_of-AllWritten : (ts : Tys) → AllSource ts → AllWritten (all_of ts)
  all_of-AllWritten nil s = tt
  all_of-AllWritten (cons t ts) s = (expr_of-Written t s.0, all_of-AllWritten ts s.1)

none_of : (o : Option Ty) → is_some o ≡ false → o ≡ none
none_of none h = refl
none_of (some t) h = absurd cc

builtin_names-primitives :
    (name : String) → contains_key name primitives ≡ contains_key name builtin_names
unfolding primitives contains_key
builtin_names-primitives name = refl

no_builtin : (name : String) → contains_key name builtin_names ≡ false → get name primitives ≡ none
no_builtin name h =
    let c : is_some (get name primitives) ≡ false =
      sym (contains_key-get name primitives) ∙ builtin_names-primitives name ∙ h in
    none_of (get name primitives) c

mutual
  unfolding from_type_expr expr_of IsSource primitives get or_named

  from-expr_of : (t : Ty) → IsSource t → from_type_expr (expr_of t) ≡ t
  from-expr_of int s = refl
  from-expr_of float s = refl
  from-expr_of bool s = refl
  from-expr_of string s = refl
  from-expr_of rune s = refl
  from-expr_of bytes s = refl
  from-expr_of unit s = refl
  from-expr_of never s = refl
  from-expr_of (named name) s = ap (or_named name) (no_builtin name s)
  from-expr_of (generic name nil) s = absurd s
  from-expr_of (generic name (cons t nil)) s =
      rw s.0 (ap (λ x. generic name (cons x nil)) (from-expr_of t s.1))
  from-expr_of (generic name (cons t (cons u ts))) s =
      let all =
        ap₂ cons (from-expr_of t s.0) (ap₂ cons (from-expr_of u s.1.0) (from-all_of ts s.1.1)) in
      elim (Bool-cases (name == "Tuple")) [
        | inl y ↦ rw y (ap₂ generic (sym ((string_eq.beq_iff name "Tuple").0 y)) all)
        | inr n ↦ rw n (ap (generic name) all)
      ]
  from-expr_of (fn params ret) s = ap₂ fn (from-all_of params s.0) (from-expr_of ret s.1)
  from-expr_of (var id) s = absurd s
  from-expr_of error s = absurd s

  from-all_of : (ts : Tys) → AllSource ts → from_all (all_of ts) ≡ ts
  from-all_of nil s = refl
  from-all_of (cons t ts) s = ap₂ cons (from-expr_of t s.0) (from-all_of ts s.1)

mutual
  unfolding from_type_expr bare

  from-bare : (e : TypeExpr) → from_type_expr (bare e) ≡ from_type_expr e
  from-bare (type_expr (named_kind name) span) = refl
  from-bare (type_expr (generic_kind name args) span) = ap (generic name) (from-bare_all args)
  from-bare (type_expr (fn_kind params ret) span) = ap₂ fn (from-bare_all params) (from-bare ret)
  from-bare (type_expr (tuple_kind elems) span) = ap (generic "Tuple") (from-bare_all elems)

  from-bare_all : (es : TypeExprs) → from_all (bare_all es) ≡ from_all es
  from-bare_all no_exprs = refl
  from-bare_all (exprs e es) = ap₂ cons (from-bare e) (from-bare_all es)

-- For a type that a program can name (no inference variable and no type of errors in it, a generic type
-- has an argument, a tuple two elements, and a defined type no builtin type's name), on a stream that
-- shows the tokens of its type expression in front of a kind that is no newline, `.` or `<`:
-- `parse_type`, with fuel for the size of the expression, has a result, of which `from_type_expr` makes
-- the type again; the stream shows the kinds behind it, and no diagnostic is new.
pub parse_type-expr_of :
    (f : ℕ) (t : Ty) (k : TokenKind) (more : List TokenKind)
    → size (expr_of t) ≤ f
    → IsSource t
    → Follows k
    → (ts : TokenStream) (report : Report) → Shows ts (print (expr_of t) (k ∷ more))
    → Parses (λ u. from_type_expr u ≡ t) (k ∷ more) report (parse_type f ts report)
parse_type-expr_of f t k more l s h ts report e =
    let p = parse_type-print f (expr_of t) k more l (expr_of-Written t s) h ts report e in
    record {
      value = p.value;
      next = p.next;
      result = p.result;
      good =
          sym (from-bare p.value)
          ∙ ap from_type_expr p.good
          ∙ from-bare (expr_of t)
          ∙ from-expr_of t s;
      shows = p.shows;
    }
