-- ===== src/Resolve/Scope/Shadow.antt =====
-- Definitions against lookups: an inner definition shadows the outer ones.
use tyra.Prelude.{
  ap, subst, is_some, ◌≡◌, refl, Option, some, List, [], ◌∷◌, String, string_eq, if◌then◌else◌,
  ◌==◌, Bool-cases, inl, inr,
}
use mathlib.Core.Option.{some-injective}
use tyra.Prelude.Dict.{get, insert, get-insert, contains_key-get}
use tyra.Resolve.Scope.{
  Symbol, Scope, ScopeStack, stack, push, define, define_in, lookup, lookup_in, first_in,
  defined_in_current, current_has,
}

lookup_in-insert :
    (name other : String) (symbol : Symbol) (s : Scope) (below : List Scope)
    → lookup_in other (insert name symbol s ∷ below)
      ≡ (if name == other then some symbol else lookup_in other (s ∷ below))
unfolding lookup_in first_in
lookup_in-insert name other symbol s below = elim (Bool-cases (name == other)) [
  | inl y ↦ rw (get-insert, y) refl
  | inr n ↦ rw (get-insert, n) refl
]

lookup_in-define :
    (name other : String) (symbol : Symbol) (scopes : List Scope) (after : ScopeStack)
    (previous : Option Symbol)
    → define_in name symbol scopes ≡ some (previous, after)
    → lookup_in other after.scopes ≡ (if name == other then some symbol else lookup_in other scopes)
unfolding define_in
lookup_in-define name other symbol [] after previous e = absurd cc
lookup_in-define name other symbol (s ∷ below) after previous e =
    let k : (get name s, stack (insert name symbol s ∷ below)) ≡ (previous, after) =
      some-injective _ _ e in
    let q : insert name symbol s ∷ below ≡ after.scopes = ap (λ p. p.1.scopes) k in
    subst
      (λ l.
        lookup_in other l ≡ (if name == other then some symbol else lookup_in other (s ∷ below)))
      q (lookup_in-insert name other symbol s below)

-- Behind a successful definition its name means the symbol and every other name what it meant, in a
-- scope that is entered next as well.
pub lookup-define :
    (name other : String) (symbol : Symbol) (st after : ScopeStack) (previous : Option Symbol)
    → define name symbol st ≡ some (previous, after)
    → lookup other (push after) ≡ (if name == other then some symbol else lookup other st)
unfolding define lookup push lookup_in first_in get
lookup-define name other symbol st after previous e =
    lookup_in-define name other symbol st.scopes after previous e

current_has-define :
    (name : String) (symbol : Symbol) (scopes : List Scope) (after : ScopeStack)
    (previous : Option Symbol)
    → define_in name symbol scopes ≡ some (previous, after)
    → current_has name scopes ≡ some (is_some previous)
unfolding define_in current_has
current_has-define name symbol [] after previous e = absurd cc
current_has-define name symbol (s ∷ below) after previous e =
    let k : (get name s, stack (insert name symbol s ∷ below)) ≡ (previous, after) =
      some-injective _ _ e in
    let q : get name s ≡ previous = ap (λ p. p.0) k in rw (contains_key-get, q) refl

-- `defined_in_current` answers whether `define` on the same stack replaces a previous definition.
pub defined_in_current-define :
    (name : String) (symbol : Symbol) (st after : ScopeStack) (previous : Option Symbol)
    → define name symbol st ≡ some (previous, after)
    → defined_in_current name st ≡ some (is_some previous)
unfolding define defined_in_current
defined_in_current-define name symbol st after previous e =
    current_has-define name symbol st.scopes after previous e
