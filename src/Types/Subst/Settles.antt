-- ===== src/Types/Subst/Settles.antt =====
-- Fuel: from some amount on a run gives one result.
use tyra.Prelude.{
  ℕ, zero, suc, ◌+◌, ◌-◌, ◌≤◌, ◌≡◌, refl, Bool, true, false, Option, none, some, arith, inl, inr,
  nat_eq, Option-cases,
}
use tyra.Prelude.Dict.{get}
use tyra.Types.Ty.{Ty, Tys, nil, cons, int, generic, fn, var}
use tyra.Types.Subst.{Substitution, walk, any_ty, occurs_walked, occurs, or_later}
use tyra.Types.Subst.Walks.{Walks, unbound, follow, stop}
use tyra.Types.Subst.Meaning.{>>=-eq-some}
use tyra.Types.Subst.Acyclic.{Mentions, Grounded, grounded, IsAcyclic}
use tyra.Types.Subst.Total.{Eventually, occurs-Ends, walk_type}

abbrev pub Settles {ℓ} : {A : Type ℓ} → (ℕ → Option A) → Type ℓ
Settles {A} run = (a : A) × Eventually (λ f. run f ≡ some a)

-- A walk settles, at the type where the walk ends.
abbrev pub WalkSettles : Substitution → Ty → Type 0
WalkSettles s t = (u : Ty) × Walks s t u × Eventually (λ f. walk f s t ≡ some u)

unbound_walk :
    (s : Substitution) (v f : ℕ) → get v s ≡ none → 1 ≤ f → walk f s (var v) ≡ some (var v)
unfolding walk
unbound_walk s v zero p l = absurd (omega arith)
unbound_walk s v (suc f) p l = rw (p, walk)

bound_walk :
    (s : Substitution) (v : ℕ) (t u : Ty) (n : ℕ)
    → get v s ≡ some t
    → ((f : ℕ) → n ≤ f → walk f s t ≡ some u)
    → (f : ℕ) → suc n ≤ f
    → walk f s (var v) ≡ some u
unfolding walk
bound_walk s v t u n p e zero l = absurd (omega arith)
bound_walk s v t u n p e (suc f) l = rw (p, walk) (e f (omega arith))

ty-WalkSettles :
    (s : Substitution) (t : Ty) → ((w : ℕ) → Mentions w t → WalkSettles s (var w)) → WalkSettles s t
unfolding Mentions
ty-WalkSettles s (var v) h = h v refl
ty-WalkSettles s int h = (int, stop refl, (1, λ f l. walk_type f s int l refl))
ty-WalkSettles s t h = (t, stop refl, (1, λ f l. walk_type f s t l refl))

var-WalkSettles : (s : Substitution) {v : ℕ} → Grounded s v → WalkSettles s (var v)
var-WalkSettles s {v} (grounded h) = elim (Option-cases (get v s)) [
  | inl p ↦ (var v, unbound p, (1, λ f l. unbound_walk s v f p l))
  | inr (t, p) ↦
      let (u, r, q) = ty-WalkSettles s t (λ w m. var-WalkSettles s (h t w p m)) in
      (u, follow p r, (suc q.0, bound_walk s v t u q.0 p q.1))
]

pub walk_settles : (s : Substitution) (t : Ty) → IsAcyclic s → WalkSettles s t
walk_settles s t ac = ty-WalkSettles s t (λ w m. var-WalkSettles s (ac w))

-- One unit of fuel more does not change the result.
walk_mono : (f : ℕ) (s : Substitution) (t u : Ty) → walk f s t ≡ some u → walk (suc f) s t ≡ some u
unfolding walk
walk_mono zero s t u e = cc
walk_mono (suc f) s (var v) u e = elim (Option-cases (get v s)) [
  | inl p ↦ rw (p, walk) (rw (p, walk) at e)
  | inr (t, p) ↦ rw (p, walk) (walk_mono f s t u (rw (p, walk) at e))
]
walk_mono (suc f) s t u e = e

or_later_mono :
    (o o' r r' : Option Bool) (b : Bool)
    → ((c : Bool) → o ≡ some c → o' ≡ some c)
    → (r ≡ some b → r' ≡ some b)
    → or_later o r ≡ some b
    → or_later o' r' ≡ some b
or_later_mono none o' r r' b h k e = cc
or_later_mono (some true) o' r r' b h k e = rw (h true refl) e
or_later_mono (some false) o' r r' b h k e = rw (h false refl) (k e)

module _ (id : ℕ) (g g' : Ty → Option Bool)
    (h : (t : Ty) (b : Bool) → g t ≡ some b → g' t ≡ some b) where
  any_ty_mono : (ts : Tys) (b : Bool) → any_ty g ts ≡ some b → any_ty g' ts ≡ some b
  any_ty_mono nil b e = e
  any_ty_mono (cons t ts) b e =
      or_later_mono (g t) (g' t) (any_ty g ts) (any_ty g' ts) b (h t) (any_ty_mono ts b) e

  occurs_walked_mono :
      (t : Ty) (b : Bool) → occurs_walked g id t ≡ some b → occurs_walked g' id t ≡ some b
  occurs_walked_mono (generic n ts) b e = any_ty_mono ts b e
  occurs_walked_mono (fn ps r) b e =
      or_later_mono (any_ty g ps) (any_ty g' ps) (g r) (g' r) b (any_ty_mono ps) (h r b) e
  occurs_walked_mono t b e = e

occurs_mono :
    (id : ℕ) (s : Substitution) (f : ℕ) (t : Ty) (b : Bool)
    → occurs f id s t ≡ some b
    → occurs (suc f) id s t ≡ some b
unfolding occurs
occurs_mono id s zero t b e = cc
occurs_mono id s (suc f) t b e =
    let (u, p, q) = >>=-eq-some (walk f s t) _ e in
    rw (walk_mono f s t u p)
      (occurs_walked_mono id (occurs f id s) (occurs (suc f) id s) (occurs_mono id s f) u b q)

-- A result that one more unit keeps is kept by any more.
keeps_on {ℓ} :
    {A : Type ℓ} (run : ℕ → Option A) (a : A)
    → ((f : ℕ) → run f ≡ some a → run (suc f) ≡ some a)
    → (f k m : ℕ) → f + k ≡ m
    → run f ≡ some a
    → run m ≡ some a
keeps_on run a h f zero m p e = let q : f ≡ m = omega arith in rw (← q) e
keeps_on run a h f (suc k) m p e = keeps_on run a h (suc f) k m (omega arith) (h f e)

pub occurs-Settles :
    (id : ℕ) (s : Substitution) (t : Ty) → IsAcyclic s → Settles (λ f. occurs f id s t)
occurs-Settles id s t ac =
    let (n, e) = occurs-Ends id s t ac in
    let (b, p) = e n (omega arith) in
    (
      b,
      (
        n,
        λ f l.
            keeps_on (λ f. occurs f id s t) b (λ f. occurs_mono id s f t b) n (f - n) f
              (omega arith) p,
      ),
    )
