-- ===== src/Types/Written.antt =====
-- compiler/crates/tyra-types/src/ty.rs: `Ty::from_type_expr`, on the type expressions of
-- compiler/crates/tyra-ast/src/types.rs.
pub mod Spelling
pub mod Reading
use tyra.Prelude.{Option, none, some, [], ◌∷◌, String, string_eq}
use tyra.Prelude.Dict.{Dict, get}
use tyra.Diagnostics.Span.{Span}
use tyra.Types.Ty.{
  Ty, Tys, nil, cons, int, float, bool, string, rune, bytes, unit, never, named, generic, fn,
}

-- `TypeExprs` is the `Vec<TypeExpr>` inside an expression.
mutual
  pub data TypeExprKind : Type 0 where
    named_kind : String → TypeExprKind
    generic_kind : String → TypeExprs → TypeExprKind
    fn_kind : TypeExprs → TypeExpr → TypeExprKind
    tuple_kind : TypeExprs → TypeExprKind

  pub data TypeExpr : Type 0 where
    type_expr : TypeExprKind → Span → TypeExpr

  pub data TypeExprs : Type 0 where
    no_exprs : TypeExprs
    exprs : TypeExpr → TypeExprs → TypeExprs

-- The table of the `match` on `name.as_str()`.
unfoldable pub primitives : Dict String Ty
primitives =
    ("Int", int)
    ∷ ("Float", float)
    ∷ ("Bool", bool)
    ∷ ("String", string)
    ∷ ("Rune", rune)
    ∷ ("Bytes", bytes)
    ∷ ("Unit", unit)
    ∷ ("Never", never)
    ∷ []

unfoldable pub or_named : String → Option Ty → Ty
or_named name none = named name
or_named name (some t) = t

unfoldable mutual
  unfolding primitives or_named

  pub from_type_expr : TypeExpr → Ty
  from_type_expr (type_expr (named_kind name) span) = or_named name (get name primitives)
  from_type_expr (type_expr (generic_kind name args) span) = generic name (from_all args)
  from_type_expr (type_expr (fn_kind params ret) span) = fn (from_all params) (from_type_expr ret)
  from_type_expr (type_expr (tuple_kind elems) span) = generic "Tuple" (from_all elems)

  pub from_all : TypeExprs → Tys
  from_all no_exprs = nil
  from_all (exprs e es) = cons (from_type_expr e) (from_all es)
