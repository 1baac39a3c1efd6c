-- ===== src/Types/Unify/Chains.antt =====
-- Chains of calls of `unify` settle if their parts do.
use tyra.Prelude.{
  ℕ, ◌+◌, refl, ap, ◌∙◌, subst, Bool, true, false, some, arith, if◌then◌else◌, nat_eq, string_eq,
}
use tyra.Types.Subst.{Substitution}
use tyra.Types.Subst.Settles.{Settles}
use tyra.Types.Unify.{Verdict, ok, err, Outcome, and_then}
use tyra.Types.Unify.Progress.{Progress, Leaves}

pub settled : (r : Verdict × Substitution) → Settles (λ f. some r)
settled r = (r, (0, λ f l. refl))

pub Settles-if :
    (b : Bool) (x y : ℕ → Outcome) → Settles x → Settles y → Settles (λ f. if b then x f else y f)
Settles-if true x y h k = h
Settles-if false x y h k = k

-- A chain settles if its first part does, and what follows its success.
pub Settles-and_then :
    (u : ℕ) (s : Substitution) (x : ℕ → Outcome) (k : ℕ → Substitution → Outcome)
    → Settles x
    → ((f : ℕ) → Leaves (Progress u s) (x f))
    → ((s₁ : Substitution) → Progress u s s₁ → Settles (λ f. k f s₁))
    → Settles (λ f. and_then (x f) (k f))
Settles-and_then u s x k ((ok, s₁), (n, e)) p h =
    let (r, (m, d)) = h s₁ (subst (Leaves (Progress u s)) (e n (omega arith)) (p n)) in
    (r, (n + m, λ f l. ap (λ o. and_then o (k f)) (e f (omega arith)) ∙ d f (omega arith)))
Settles-and_then u s x k ((err c, s₁), (n, e)) p h =
    ((err c, s₁), (n, λ f l. ap (λ o. and_then o (k f)) (e f l)))
