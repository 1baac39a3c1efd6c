-- ===== src/Types/Written/Spelling.antt =====
-- The names in messages of the types that the programmer wrote.
use Prim.Native.String.{◌++◌}
use mathlib.Core.Path.{ap₂}
use tyra.Prelude.{ℕ, ◌≡◌, refl, ap, true, Option, none, some, String, string_eq, ◌==◌}
use tyra.Prelude.Dict.{get, all_entries, get-all_entries}
use tyra.Types.Ty.{Ty}
use tyra.Types.Names.{display_name, display_all}
use tyra.Types.Written.{
  TypeExpr, TypeExprs, type_expr, named_kind, generic_kind, fn_kind, tuple_kind, no_exprs, exprs,
  primitives, or_named, from_type_expr, from_all,
}

-- The text of a type expression, a tuple with its elements in angle brackets.
unfoldable mutual
  pub text_of : TypeExpr → String
  text_of (type_expr (named_kind name) span) = name
  text_of (type_expr (generic_kind name args) span) = name ++ ("<" ++ (text_all args ++ ">"))
  text_of (type_expr (fn_kind params ret) span) =
      "fn(" ++ (text_all params ++ (") -> " ++ text_of ret))
  text_of (type_expr (tuple_kind elems) span) = "Tuple" ++ ("<" ++ (text_all elems ++ ">"))

  pub text_all : TypeExprs → String
  text_all no_exprs = ""
  text_all (exprs e no_exprs) = text_of e
  text_all (exprs e (exprs f es)) = text_of e ++ (", " ++ text_all (exprs f es))

module _ (show : ℕ → String) where
  primitive :
      (name : String) (t : Ty) → get name primitives ≡ some t → (display_name show t == name) ≡ true
  unfolding primitives all_entries display_name
  primitive name t e =
      get-all_entries (λ name t. display_name show t == name) name t primitives refl e

  display-or_named :
      (name : String) (o : Option Ty)
      → ((t : Ty) → o ≡ some t → (display_name show t == name) ≡ true)
      → display_name show (or_named name o) ≡ name
  unfolding or_named display_name
  display-or_named name none h = refl
  display-or_named name (some t) h = (string_eq.beq_iff (display_name show t) name).0 (h t refl)

  mutual
    unfolding from_type_expr display_name text_of

    spelled : (e : TypeExpr) → display_name show (from_type_expr e) ≡ text_of e
    spelled (type_expr (named_kind name) span) =
        display-or_named name (get name primitives) (primitive name)
    spelled (type_expr (generic_kind name args) span) =
        ap (λ s. name ++ ("<" ++ (s ++ ">"))) (all_spelled args)
    spelled (type_expr (fn_kind params ret) span) =
        ap₂ (λ s r. "fn(" ++ (s ++ (") -> " ++ r))) (all_spelled params) (spelled ret)
    spelled (type_expr (tuple_kind elems) span) =
        ap (λ s. "Tuple" ++ ("<" ++ (s ++ ">"))) (all_spelled elems)

    all_spelled : (es : TypeExprs) → display_all show (from_all es) ≡ text_all es
    all_spelled no_exprs = refl
    all_spelled (exprs e no_exprs) = spelled e
    all_spelled (exprs e (exprs f es)) =
        ap₂ (λ s r. s ++ (", " ++ r)) (spelled e) (all_spelled (exprs f es))

-- The name in messages of the type that from_type_expr makes of a type expression is the expression's
-- own text, where a tuple is written as Tuple with its elements in angle brackets.
pub display_name-from_type_expr :
    (show : ℕ → String) (e : TypeExpr) → display_name show (from_type_expr e) ≡ text_of e
display_name-from_type_expr show e = spelled show e
