-- ===== src/Tests/Resolve.antt =====
-- A name defined, shadowed in a block, and a prelude name.
use tyra.Prelude.{◌≡◌, refl, true, some, [], ◌∷◌, String, string_eq, ◌==◌, if◌then◌else◌, is_some}
use tyra.Prelude.Dict.{get, insert}
use tyra.Diagnostics.Span.{Span}
use tyra.Resolve.Names.{prelude_functions, prelude_constructors, prelude_types}
use tyra.Resolve.Scope.{
  local, param, ScopeStack, stack, push, define, define_in, lookup, defined_in_current,
  with_prelude,
}
use tyra.Resolve.Scope.Shadow.{lookup-define, defined_in_current-define}
use tyra.Resolve.Scope.Builtins.{Start, with_prelude-lookup}

abbrev here : Span
here = record { source = 0; start = 0; stop = 1 }

abbrev with_x : ScopeStack
with_x = stack ((("x", param here) ∷ []) ∷ [])

defined :
    define "x" (local true here) with_x
    ≡ some (some (param here), stack ((("x", local true here) ∷ []) ∷ []))
unfolding define define_in get insert
defined = refl

lookup-define_example :
    lookup "y" (push (stack ((("x", local true here) ∷ []) ∷ [])))
    ≡ (if ◌==◌ {A = String} "x" "y" then some (local true here) else lookup "y" with_x)
lookup-define_example =
    lookup-define "x" "y" (local true here) with_x (stack ((("x", local true here) ∷ []) ∷ []))
      (some (param here)) defined

defined_in_current-define_example :
    defined_in_current "x" with_x ≡ some (is_some (some (param here)))
defined_in_current-define_example =
    defined_in_current-define "x" (local true here) with_x
      (stack ((("x", local true here) ∷ []) ∷ [])) (some (param here)) defined

with_prelude-lookup_example :
    Start prelude_functions prelude_constructors prelude_types "Some" with_prelude
with_prelude-lookup_example = with_prelude-lookup "Some"
