-- ===== src/Types/Subst.antt =====
-- compiler/crates/tyra-types/src/ty.rs: `Substitution` and the occurs check. The loop of `walk` and
-- the recursions through it take fuel, and `none` says that it ran out.
pub mod Walks
pub mod Meaning
pub mod Size
pub mod Acyclic
pub mod Total
pub mod Measure
pub mod Settles
pub mod Bounds
use tyra.Prelude.{ℕ, zero, suc, Bool, true, false, Option, none, some, if◌then◌else◌, ◌==◌, nat_eq}
use tyra.Prelude.Dict.{Dict, get, insert, contains_key}
use tyra.Types.Ty.{
  Ty, Tys, nil, cons, int, float, bool, string, rune, bytes, unit, never, named, generic, fn, var,
  error,
}

-- The ids of type variables are `u32` values, wrapped as `TyVarId` in the source.
abbrev pub Substitution : Type 0
Substitution = Dict ℕ Ty

infixl 5 ◌>>=◌
abbrev pub ◌>>=◌ {ℓ κ} : {A : Type ℓ} {B : Type κ} → Option A → (A → Option B) → Option B
none >>= k = none
some a >>= k = k a

-- Follow a variable's bindings to a type that is no variable, or to an unbound variable.
unfoldable pub walk : ℕ → Substitution → Ty → Option Ty
unfolding get
walk zero s t = none
walk (suc f) s (var v) = elim (get v s) [ none ↦ some (var v) | some t ↦ walk f s t ]
walk (suc f) s t = some t

unfoldable pub bind : ℕ → Ty → Substitution → Substitution
unfolding insert
bind id t s = insert id t s

unfoldable pub is_bound : ℕ → Substitution → Bool
unfolding contains_key
is_bound id s = contains_key id s

abbrev pub map_tys : (Ty → Option Ty) → Tys → Option Tys
map_tys g nil = some nil
map_tys g (cons t ts) = g t >>= λ u. map_tys g ts >>= λ us. some (cons u us)

-- The `match` of `apply`, on the walked type.
abbrev pub apply_walked : (Ty → Option Ty) → Ty → Option Ty
apply_walked g (generic name args) = map_tys g args >>= λ us. some (generic name us)
apply_walked g (fn params ret) = map_tys g params >>= λ us. g ret >>= λ u. some (fn us u)
apply_walked g t = some t

unfoldable pub apply : ℕ → Substitution → Ty → Option Ty
unfolding walk
apply zero s t = none
apply (suc f) s t = walk f s t >>= apply_walked (apply f s)

-- `a || b`, where `b` is not reached if `a` holds.
abbrev pub or_later : Option Bool → Option Bool → Option Bool
or_later none rest = none
or_later (some true) rest = some true
or_later (some false) rest = rest

abbrev pub any_ty : (Ty → Option Bool) → Tys → Option Bool
any_ty g nil = some false
any_ty g (cons t ts) = let rest = any_ty g ts in or_later (g t) rest

abbrev pub occurs_walked : (Ty → Option Bool) → ℕ → Ty → Option Bool
occurs_walked g id (var other) = some (other == id)
occurs_walked g id (generic name args) = any_ty g args
occurs_walked g id (fn params ret) = or_later (any_ty g params) (g ret)
occurs_walked g id t = some false

-- Does the variable `id` occur in the type, once its variables are followed?
unfoldable pub occurs : ℕ → ℕ → Substitution → Ty → Option Bool
unfolding walk
occurs zero id s t = none
occurs (suc f) id s t = walk f s t >>= occurs_walked (occurs f id s) id
