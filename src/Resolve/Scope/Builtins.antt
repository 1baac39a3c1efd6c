-- ===== src/Resolve/Scope/Builtins.antt =====
-- The stack that every program starts with.
use text.Mathlib.TextEquality.{eq_iff}
use tyra.Prelude.{
  ◌≡◌, refl, ◌∙◌, Bool, true, false, Option, none, some, List, [], ◌∷◌, String, string_eq,
  if◌then◌else◌, ◌==◌, arith,
}
use tyra.Prelude.Dict.{get, insert, get-insert}
use tyra.Resolve.Names.{prelude_functions, prelude_constructors, prelude_types}
use tyra.Resolve.Scope.{
  Symbol, prelude, Scope, ScopeStack, stack, new, define, define_in, define_next, define_all,
  then_define, with_prelude, lookup, lookup_in, first_in,
}

unfoldable pub listed : String → List String → Bool
listed n [] = false
listed n (m ∷ ms) = if m == n then true else listed n ms

-- The symbol of a prelude name, and what another name has.
abbrev pub among : String → List String → Option Symbol → Option Symbol
among n names other = if listed n names then some (prelude n) else other

among-next :
    (m n : String) (ms : List String) (s : Scope)
    → among n ms (get n (insert m (prelude m) s)) ≡ among n (m ∷ ms) (get n s)
unfolding listed
among-next m n ms s = ground (arith, get-insert m n (prelude m) s, eq_iff m n)

first_in-none : (o : Option Symbol) → first_in o none ≡ o
unfolding first_in
first_in-none none = refl
first_in-none (some symbol) = refl

record Defined (names : List String) (s : Scope) (below : List Scope) : Type 0 where
  pub top : Scope
  pub is : define_all names (stack (s ∷ below)) ≡ some (stack (top ∷ below))
  pub has : (n : String) → get n top ≡ among n names (get n s)

define_all-Defined : (names : List String) (s : Scope) (below : List Scope) → Defined names s below
unfolding define_all define define_in define_next listed
define_all-Defined [] s below = record { top = s; is = refl; has = λ n. refl }
define_all-Defined (m ∷ ms) s below =
    let r = define_all-Defined ms (insert m (prelude m) s) below in
    record { top = r.top; is = r.is; has = λ n. r.has n ∙ among-next m n ms s }

-- What a name means in the stack that the three loops of `with_prelude` build from three lists.
pub record Start (functions constructors types : List String) (n : String)
    (built : Option ScopeStack) : Type 0 where
  pub st : ScopeStack
  pub is : built ≡ some st
  pub meaning : lookup n st ≡ among n types (among n constructors (among n functions none))

start :
    (functions constructors types : List String) (n : String)
    → Start functions constructors types n
        (then_define types (then_define constructors (define_all functions new)))
unfolding then_define new lookup lookup_in first_in get
start functions constructors types n =
    let f = define_all-Defined functions [] [] in
    let c = define_all-Defined constructors f.top [] in
    let t = define_all-Defined types c.top [] in
    record {
      st = stack (t.top ∷ []);
      is = rw (f.is, c.is) t.is;
      meaning = first_in-none (get n t.top) ∙ t.has n ∙ rw (c.has n, f.has n) refl;
    }

-- `with_prelude` succeeds, and in the stack that it builds the names of the three prelude lists, and
-- no others, are defined, each as the prelude symbol of that name.
pub with_prelude-lookup :
    (n : String) → Start prelude_functions prelude_constructors prelude_types n with_prelude
unfolding with_prelude
with_prelude-lookup n = start prelude_functions prelude_constructors prelude_types n
