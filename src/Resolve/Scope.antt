-- ===== src/Resolve/Scope.antt =====
-- compiler/crates/tyra-resolve/src/scope.rs: the stack of lexical scopes. The last scope of the
-- vector, the innermost, stands first in the list. `none` is a panic: `last_mut().unwrap()` on no
-- scope, or the `debug_assert!` of a debug build.
pub mod Builtins
pub mod Shadow
use tyra.Prelude.{
  ℕ, ◌-◌, Bool, true, false, Option, none, some, List, [], ◌∷◌, String, string_eq, length,
}
use tyra.Prelude.Dict.{Dict, get, insert, contains_key}
use tyra.Diagnostics.Span.{Span}
use tyra.Resolve.Names.{prelude_functions, prelude_constructors, prelude_types}

pub data Symbol : Type 0 where
  local : Bool → Span → Symbol
  param : Span → Symbol
  function : Span → Symbol
  type_def : Span → Symbol
  trait_def : Span → Symbol
  import : List String → Span → Symbol
  prelude : String → Symbol

abbrev pub Scope : Type 0
Scope = Dict String Symbol

pub record ScopeStack : Type 0 where
  pub scopes : List Scope

abbrev pub stack : List Scope → ScopeStack
stack s = record { scopes = s }

unfoldable pub new : ScopeStack
new = stack ([] ∷ [])

unfoldable pub push : ScopeStack → ScopeStack
push st = stack ([] ∷ st.scopes)

unfoldable pub pop_scope : List Scope → Option ScopeStack
pop_scope [] = none
pop_scope (s ∷ []) = none
pop_scope (s ∷ t ∷ below) = some (stack (t ∷ below))

unfoldable pub pop : ScopeStack → Option ScopeStack
unfolding pop_scope
pop st = pop_scope st.scopes

-- The previous definition in the innermost scope, and the stack.
unfoldable pub define_in : String → Symbol → List Scope → Option (Option Symbol × ScopeStack)
define_in name symbol [] = none
define_in name symbol (s ∷ below) = some (get name s, stack (insert name symbol s ∷ below))

unfoldable pub define : String → Symbol → ScopeStack → Option (Option Symbol × ScopeStack)
unfolding define_in
define name symbol st = define_in name symbol st.scopes

unfoldable pub first_in : Option Symbol → Option Symbol → Option Symbol
first_in (some symbol) rest = some symbol
first_in none rest = rest

unfoldable pub lookup_in : String → List Scope → Option Symbol
unfolding first_in
lookup_in name [] = none
lookup_in name (s ∷ below) = first_in (get name s) (lookup_in name below)

unfoldable pub lookup : String → ScopeStack → Option Symbol
unfolding lookup_in
lookup name st = lookup_in name st.scopes

unfoldable pub current_has : String → List Scope → Option Bool
current_has name [] = none
current_has name (s ∷ below) = some (contains_key name s)

unfoldable pub defined_in_current : String → ScopeStack → Option Bool
unfolding current_has
defined_in_current name st = current_has name st.scopes

unfoldable pub depth : ScopeStack → ℕ
depth st = length st.scopes - 1

-- One loop of `with_prelude`: `define` for each name, the previous definition dropped.
unfoldable pub define_next :
    (ScopeStack → Option ScopeStack) → Option (Option Symbol × ScopeStack) → Option ScopeStack
define_next next none = none
define_next next (some (previous, st)) = next st

unfoldable pub define_all : List String → ScopeStack → Option ScopeStack
unfolding define define_next
define_all [] st = some st
define_all (name ∷ names) st = define_next (define_all names) (define name (prelude name) st)

unfoldable pub then_define : List String → Option ScopeStack → Option ScopeStack
unfolding define_all
then_define names none = none
then_define names (some st) = define_all names st

unfoldable pub with_prelude : Option ScopeStack
unfolding new then_define
with_prelude =
    then_define prelude_types (then_define prelude_constructors (define_all prelude_functions new))
