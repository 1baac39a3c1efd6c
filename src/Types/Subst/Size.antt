-- ===== src/Types/Subst/Size.antt =====
-- The occurs check by sizes: a type in which the variable occurs is larger than the variable's
-- assignment, unless it is the variable.
use mathlib.Core.Option.{some-injective}
use tyra.Prelude.{
  ℕ, zero, suc, ◌+◌, ◌≤◌, ◌<◌, ◌≡◌, refl, ap, subst, Bool, true, false, Option, none, some, arith,
  nat_eq, nat_beq_iff, inl, inr, ◌⊎◌,
}
use tyra.Types.Ty.{Ty, Tys, nil, cons, generic, fn, var}
use tyra.Types.Subst.{Substitution, walk, any_ty, occurs_walked, occurs, or_later}
use tyra.Types.Subst.Walks.{Ended, walk-Walks, Ended-Walks}
use tyra.Types.Subst.Meaning.{inst, inst_all, Solves, walk-inst, >>=-eq-some}

unfoldable mutual
  pub size : Ty → ℕ
  size (generic n ts) = suc (size_all ts)
  size (fn ps r) = suc (size_all ps + size r)
  size t = 1

  pub size_all : Tys → ℕ
  size_all nil = 0
  size_all (cons t ts) = size t + size_all ts

pub or_later-eq-true :
    (o r : Option Bool) → or_later o r ≡ some true → (o ≡ some true) ⊎ (r ≡ some true)
or_later-eq-true none r e = cc
or_later-eq-true (some true) r e = inl refl
or_later-eq-true (some false) r e = inr e

module _ (θ : ℕ → Ty) (i : ℕ) (g : Ty → Option Bool)
    (hg : (t : Ty) → g t ≡ some true → size (θ i) ≤ size (inst θ t)) where
  any_ty-size : (ts : Tys) → any_ty g ts ≡ some true → size (θ i) ≤ size_all (inst_all θ ts)
  unfolding inst size
  any_ty-size nil e = cc
  any_ty-size (cons t ts) e = elim (or_later-eq-true (g t) (any_ty g ts) e) [
    | inl p ↦ omega (arith, hg t p)
    | inr q ↦ omega (arith, any_ty-size ts q)
  ]

  occurs_walked-size :
      (w : Ty) → occurs_walked g i w ≡ some true → (w ≡ var i) ⊎ (size (θ i) < size (inst θ w))
  unfolding inst size
  occurs_walked-size (var o) e = inl (ap var ((nat_beq_iff o i).0 (some-injective _ _ e)))
  occurs_walked-size (generic n ts) e = inr (omega (arith, any_ty-size ts e))
  occurs_walked-size (fn ps r) e = elim (or_later-eq-true (any_ty g ps) (g r) e) [
    | inl p ↦ inr (omega (arith, any_ty-size ps p))
    | inr q ↦ inr (omega (arith, hg r q))
  ]
  occurs_walked-size w e = absurd (cc)

module _ (θ : ℕ → Ty) (s : Substitution) (h : Solves θ s) (i : ℕ) where
  occurs-size : (f : ℕ) (t : Ty) → occurs f i s t ≡ some true → size (θ i) ≤ size (inst θ t)
  unfolding occurs inst
  occurs-size zero t e = cc
  occurs-size (suc f) t e =
      let (w, p, q) = >>=-eq-some (walk f s t) _ e in
      elim (occurs_walked-size θ i (occurs f i s) (occurs-size f) w q) [
        | inl v ↦ omega (arith, ap (λ u. size (inst θ u)) v, ap size (walk-inst θ f s t w h p))
        | inr l ↦ omega (arith, ap size (walk-inst θ f s t w h p))
      ]

  -- A variable that occurs in a walked type is that type, or has a smaller assignment.
  pub occurs-size_lt :
      (f : ℕ) (t : Ty)
      → Ended s t
      → occurs f i s t ≡ some true
      → (t ≡ var i) ⊎ (size (θ i) < size (inst θ t))
  unfolding occurs
  occurs-size_lt zero t m e = cc
  occurs-size_lt (suc f) t m e =
      let (w, p, q) = >>=-eq-some (walk f s t) _ e in
      subst (λ u. (u ≡ var i) ⊎ (size (θ i) < size (inst θ u))) (Ended-Walks m (walk-Walks f s t p))
        (occurs_walked-size θ i (occurs f i s) (occurs-size f) w q)
