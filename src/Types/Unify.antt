-- ===== src/Types/Unify.antt =====
-- compiler/crates/tyra-types/src/ty.rs: `unify` and `types_compatible`. The recursion takes fuel,
-- and `none` says that it ran out.
pub mod Steps
pub mod Compat
pub mod Sound
pub mod Complete
pub mod Progress
pub mod Chains
pub mod Ends
pub mod Correct
use tyra.Prelude.{
  ℕ, zero, suc, String, Bool, true, false, Option, none, some, [], if◌then◌else◌, ◌==◌, nat_eq,
  string_eq, ◌&&◌, ◌||◌,
}
use tyra.Types.Ty.{
  Ty, Tys, nil, cons, int, float, bool, string, rune, bytes, unit, never, named, generic, fn, var,
  error, len,
}
use tyra.Types.Subst.{Substitution, ◌>>=◌, walk, bind, occurs}

pub data UnifyError : Type 0 where
  mismatch : Ty → Ty → UnifyError
  occurs_check : ℕ → Ty → UnifyError

-- `Result<(), UnifyError>`.
pub data Verdict : Type 0 where
  ok : Verdict
  err : UnifyError → Verdict

-- What a call returns, with the substitution as it leaves it, on failure too.
abbrev pub Outcome : Type 0
Outcome = Option (Verdict × Substitution)

abbrev pub Unifier : Type 0
Unifier = Ty → Ty → Substitution → Outcome

-- Both `matches!` tests for `Ty::Error` and `Ty::Never`.
abbrev pub is_error : Ty → Bool
is_error error = true
is_error t = false

abbrev pub is_never : Ty → Bool
is_never never = true
is_never t = false

abbrev pub done : Substitution → Outcome
done s = some (ok, s)

abbrev pub fail : UnifyError → Substitution → Outcome
fail e s = some (err e, s)

-- `?`: go on after success alone.
abbrev pub and_then : Outcome → (Substitution → Outcome) → Outcome
and_then none k = none
and_then (some (ok, s)) k = k s
and_then (some (err e, s)) k = some (err e, s)

-- The loop over `a1.iter().zip(a2.iter())`.
unfoldable pub unify_zip : Unifier → Tys → Tys → Substitution → Outcome
unify_zip g (cons x xs) (cons y ys) s = and_then (g x y s) (unify_zip g xs ys)
unify_zip g _ _ s = done s

abbrev pub after_occurs : ℕ → Ty → Substitution → Bool → Outcome
after_occurs id t s true = fail (occurs_check id t) s
after_occurs id t s false = some (ok, bind id t s)

-- Bind a variable, after the occurs check.
unfoldable pub bind_checked : ℕ → ℕ → Ty → Substitution → Outcome
bind_checked f id t s = occurs f id s t >>= after_occurs id t s

-- The `match` on the two walked types.
unfoldable pub unify_walked : Unifier → ℕ → Ty → Ty → Substitution → Outcome
unfolding unify_zip bind_checked
unify_walked g f (var i) (var j) s = if i == j then done s else bind_checked f i (var j) s
unify_walked g f (var i) b s = bind_checked f i b s
unify_walked g f a (var j) s = bind_checked f j a s
unify_walked g f int int s = done s
unify_walked g f float float s = done s
unify_walked g f bool bool s = done s
unify_walked g f string string s = done s
unify_walked g f rune rune s = done s
unify_walked g f bytes bytes s = done s
unify_walked g f unit unit s = done s
unify_walked g f (named n) (named m) s =
    if n == m then done s else fail (mismatch (named n) (named m)) s
unify_walked g f (generic n xs) (generic m ys) s =
    if n == m && len xs == len ys
    then unify_zip g xs ys s
    else fail (mismatch (generic n xs) (generic m ys)) s
unify_walked g f (fn ps r) (fn qs q) s =
    if len ps == len qs
    then and_then (unify_zip g ps qs s) (g r q)
    else fail (mismatch (fn ps r) (fn qs q)) s
unify_walked g f a b s = fail (mismatch a b) s

-- The short circuits on `Error` and `Never`, and then the `match`.
unfoldable pub unify_step : Unifier → ℕ → Ty → Ty → Substitution → Outcome
unfolding unify_walked
unify_step g f a b s =
    if is_error a || is_error b
    then done s
    else if is_never a || is_never b
    then done s
    else unify_walked g f a b s

unfoldable pub unify : ℕ → Unifier
unfolding walk unify_step
unify zero a b s = none
unify (suc f) a b s = walk f s a >>= λ a'. walk f s b >>= λ b'. unify_step (unify f) f a' b' s

abbrev is_ok : Verdict → Bool
is_ok ok = true
is_ok (err e) = false

-- `unify` under a fresh substitution, which is thrown away.
unfoldable pub types_compatible : ℕ → Ty → Ty → Option Bool
unfolding unify
types_compatible f expected actual = unify f expected actual [] >>= λ (v, s). some (is_ok v)
