-- ===== src/Types/Unify/Correct.antt =====
-- Completeness, termination and acyclicity of `unify` in one statement.
use tyra.Prelude.{ℕ, ◌≡◌, refl, ◌∙◌, subst, true, some, [], arith, ap}
use tyra.Prelude.Dict.{get}
use tyra.Types.Ty.{Ty}
use tyra.Types.Subst.{Substitution}
use tyra.Types.Subst.Meaning.{inst, Solves}
use tyra.Types.Subst.Acyclic.{IsAcyclic, nil-IsAcyclic}
use tyra.Types.Subst.Total.{Eventually}
use tyra.Types.Unify.{Verdict, ok, err, unify, types_compatible}
use tyra.Types.Unify.Complete.{Keeps, unify_most_general}
use tyra.Types.Unify.Progress.{Progress, Leaves, unify-Progress}
use tyra.Types.Unify.Ends.{limit, start-Inv, left-WithinTy, right-WithinTy, unify-Settles}

-- Whatever `unify` answers, it leaves a substitution without cycles as one without cycles.
pub unify-IsAcyclic :
    (f : ℕ) (a b : Ty) (s s' : Substitution) (v : Verdict)
    → IsAcyclic s
    → unify f a b s ≡ some (v, s')
    → IsAcyclic s'
unify-IsAcyclic f a b s s' v ac e =
    let u = limit a b s in
    let p =
      unify-Progress u f a b s (left-WithinTy a b s) (right-WithinTy a b s) (start-Inv a b s ac) in
    let q = subst (Leaves (Progress u s)) e p in q.inv.acyclic

succeeds :
    (θ : ℕ → Ty) (v : Verdict) (s : Substitution) → Keeps θ (some (v, s)) → (v ≡ ok) × Solves θ s
succeeds θ ok s k = (refl, k)
succeeds θ (err e) s k = absurd k

-- Of two types that some assignment makes equal, where the assignment solves the substitution and the
-- substitution has no cycle, `unify` finds a unifier: from some fuel on it succeeds with one
-- substitution, which has no cycle and which the assignment still solves.
pub unify_finds :
    (θ : ℕ → Ty) (a b : Ty) (s : Substitution)
    → IsAcyclic s
    → Solves θ s
    → inst θ a ≡ inst θ b
    → (s' : Substitution) × IsAcyclic s'
      × Solves θ s'
      × Eventually (λ f. unify f a b s ≡ some (ok, s'))
unify_finds θ a b s ac h e =
    let ((v, s'), (n, run)) = unify-Settles a b s ac in
    let here = run n (omega arith) in
    let (y, k) = succeeds θ v s' (subst (Keeps θ) here (unify_most_general θ n a b s h e)) in
    (s', unify-IsAcyclic n a b s s' v ac here, k, (n, λ f l. run f l ∙ ap (λ w. some (w, s')) y))

-- Types that some assignment makes equal are compatible, from some fuel on.
pub types_compatible-true :
    (θ : ℕ → Ty) (a b : Ty)
    → inst θ a ≡ inst θ b
    → Eventually (λ f. types_compatible f a b ≡ some true)
unfolding types_compatible get
types_compatible-true θ a b e =
    let (s', ac, k, (n, run)) = unify_finds θ a b [] nil-IsAcyclic (λ v t p. absurd cc) e in
    (n, λ f l. rw (run f l) refl)
