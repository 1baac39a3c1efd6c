-- ===== src/Tests/Types.antt =====
-- Types of two lists, of which one has a variable.
use mathlib.Core.Option.{some-injective}
use tyra.Prelude.{
  ℕ, ◌≡◌, refl, ap, true, some, none, [], ◌∷◌, nat_eq, ◌==◌, Bool-cases, inl, inr, string_eq,
}
use tyra.Prelude.Dict.{get, insert}
use tyra.Types.Ty.{Ty, nil, cons, int, string, var, generic}
use tyra.Types.Subst.{Substitution, walk, apply, occurs, bind}
use tyra.Types.Subst.Meaning.{inst, Solves, apply-inst}
use tyra.Types.Subst.Acyclic.{IsAcyclic, nil-IsAcyclic}
use tyra.Types.Subst.Total.{Eventually, Ends, apply-Ends}
use tyra.Types.Subst.Settles.{Settles}
use tyra.Types.Unify.{ok, unify, types_compatible}
use tyra.Types.Unify.Compat.{Compat}
use tyra.Types.Unify.Sound.{unify_sound}
use tyra.Types.Unify.Complete.{Keeps, unify_most_general}
use tyra.Types.Unify.Ends.{unify-Settles}
use tyra.Types.Unify.Correct.{unify-IsAcyclic, unify_finds, types_compatible-true}
use tyra.Diagnostics.Span.{Span}
use tyra.Types.Written.{
  TypeExpr, type_expr, named_kind, generic_kind, no_exprs, exprs, from_type_expr,
}
use tyra.Types.Written.Spelling.{text_of, display_name-from_type_expr}
use tyra.Types.Names.{monomorphized_name, display_name}
use tyra.Types.Names.Collisions.{pair, triple, monomorphized_name-nested}

abbrev open_list : Ty
open_list = generic "List" (cons (var 0) nil)

abbrev int_list : Ty
int_list = generic "List" (cons int nil)

abbrev ints : ℕ → Ty
ints v = int

abbrev bound_once : Substitution
bound_once = (0, int) ∷ []

lists_unify : unify 5 open_list int_list [] ≡ some (ok, bound_once)
unfolding unify walk get insert bind occurs
lists_unify = refl

ints-Solves : Solves ints bound_once
unfolding get inst
ints-Solves v t p = elim (Bool-cases (0 == v)) [
  | inl y ↦ let q : some int ≡ some t = (rw y at p) in ap (inst ints) (some-injective _ _ q)
  | inr n ↦ let q : none ≡ some t = (rw n at p) in absurd cc
]

nil-Solves : Solves ints []
unfolding get
nil-Solves v t p = absurd cc

one_meaning : inst ints open_list ≡ inst ints int_list
unfolding inst
one_meaning = refl

unify_sound_example : Solves ints [] × Compat (inst ints open_list) (inst ints int_list)
unify_sound_example = unify_sound ints 5 open_list int_list [] bound_once lists_unify ints-Solves

unify_most_general_example : Keeps ints (unify 5 open_list int_list [])
unify_most_general_example = unify_most_general ints 5 open_list int_list [] nil-Solves one_meaning

unify-Settles_example : Settles (λ f. unify f open_list int_list [])
unify-Settles_example = unify-Settles open_list int_list [] nil-IsAcyclic

unify-IsAcyclic_example : IsAcyclic bound_once
unify-IsAcyclic_example =
    unify-IsAcyclic 5 open_list int_list [] bound_once ok nil-IsAcyclic lists_unify

unify_finds_example :
    (s' : Substitution) × IsAcyclic s'
    × Solves ints s'
    × Eventually (λ f. unify f open_list int_list [] ≡ some (ok, s'))
unify_finds_example = unify_finds ints open_list int_list [] nil-IsAcyclic nil-Solves one_meaning

types_compatible-true_example : Eventually (λ f. types_compatible f open_list int_list ≡ some true)
types_compatible-true_example = types_compatible-true ints open_list int_list one_meaning

apply_once : apply 5 bound_once open_list ≡ some int_list
unfolding apply walk get
apply_once = refl

apply-inst_example : inst ints open_list ≡ inst ints int_list
apply-inst_example = apply-inst ints bound_once ints-Solves 5 open_list int_list apply_once

apply-Ends_example : Eventually (λ f. Ends (apply f bound_once open_list))
apply-Ends_example =
    apply-Ends bound_once open_list
      (unify-IsAcyclic 5 open_list int_list [] bound_once ok nil-IsAcyclic lists_unify)

monomorphized_name-nested_example :
    monomorphized_name (generic "Tuple" (triple (generic "Tuple" (pair int string)) int string))
    ≡ monomorphized_name (generic "Tuple" (pair (generic "Tuple" (triple int string int)) string))
monomorphized_name-nested_example = monomorphized_name-nested int string int string

abbrev here : Span
here = record { source = 0; start = 0; stop = 3 }

-- `List<Int>`.
abbrev written_list : TypeExpr
written_list =
    type_expr (generic_kind "List" (exprs (type_expr (named_kind "Int") here) no_exprs)) here

display_name-from_type_expr_example :
    display_name (λ id. "0") (from_type_expr written_list) ≡ text_of written_list
display_name-from_type_expr_example = display_name-from_type_expr (λ id. "0") written_list

written_list-text : text_of written_list ≡ "List<Int>"
unfolding text_of
written_list-text = refl
