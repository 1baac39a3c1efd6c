-- ===== src/Types/Unify/Steps.antt =====
-- The branches that one call of `unify` can take, and what a success says of them.
use tyra.Prelude.{ℕ, ◌≡◌, refl, Bool, true, false, none, some, if◌then◌else◌}
use tyra.Types.Ty.{Ty, never, error}
use tyra.Types.Subst.{Substitution}
use tyra.Types.Unify.{
  ok, err, Outcome, Unifier, UnifyError, done, fail, and_then, unify_walked, unify_step, is_error,
  is_never,
}

pub and_then-eq-ok :
    (o : Outcome) (k : Substitution → Outcome) {s' : Substitution}
    → and_then o k ≡ done s'
    → (s : Substitution) × (o ≡ done s) × (k s ≡ done s')
and_then-eq-ok none k e = cc
and_then-eq-ok (some (ok, s)) k e = (s, refl, e)
and_then-eq-ok (some (err x, s)) k e = cc

pub done-injective : {s s' : Substitution} → done s ≡ done s' → s ≡ s'
done-injective e = cc

-- Success of a guarded branch gives the guard.
pub if-eq-done :
    (t : Bool) (x : Outcome) (e : UnifyError) (s s' : Substitution)
    → (if t then x else fail e s) ≡ done s'
    → (t ≡ true) × (x ≡ done s')
if-eq-done true x e s s' h = (refl, h)
if-eq-done false x e s s' h = cc

-- Which branch `unify_step` takes.
pub data StepCase (g : Unifier) (f : ℕ) (a b : Ty) (s : Substitution) : Type 0 where
  left_error : a ≡ error → unify_step g f a b s ≡ done s → StepCase g f a b s
  right_error : b ≡ error → unify_step g f a b s ≡ done s → StepCase g f a b s
  left_never : a ≡ never → unify_step g f a b s ≡ done s → StepCase g f a b s
  right_never : b ≡ never → unify_step g f a b s ≡ done s → StepCase g f a b s
  shapes :
      is_error a ≡ false
      → is_never a ≡ false
      → unify_step g f a b s ≡ unify_walked g f a b s
      → StepCase g f a b s

pub unify_step-cases : (g : Unifier) (f : ℕ) (a b : Ty) (s : Substitution) → StepCase g f a b s
unfolding unify_step
unify_step-cases g f error b s = left_error refl refl
unify_step-cases g f a error s = right_error refl refl
unify_step-cases g f never b s = left_never refl refl
unify_step-cases g f a never s = right_never refl refl
unify_step-cases g f a b s = shapes refl refl refl
