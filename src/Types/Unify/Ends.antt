-- ===== src/Types/Unify/Ends.antt =====
-- `unify` ends: under a substitution without cycles, from some fuel on it gives one result.
use tyra.Prelude.{
  ℕ, zero, suc, ◌+◌, ◌-◌, ◌<◌, ◌≡◌, refl, sym, ap, ◌∙◌, subst, true, false, some, arith, ◌==◌,
  nat_eq, string_eq, ◌&&◌, inl, inr, Option-cases,
}
use tyra.Prelude.Dict.{get}
use tyra.Types.Ty.{
  Ty, Tys, nil, cons, int, float, bool, string, rune, bytes, unit, never, named, generic, fn, var,
  error, len,
}
use tyra.Types.Subst.{Substitution, ◌>>=◌, walk, occurs}
use tyra.Types.Subst.Walks.{Walks, unbound, follow, stop, Walks-deterministic}
use tyra.Types.Subst.Acyclic.{Mentions, MentionedIn, Grounded, grounded, IsAcyclic}
use tyra.Types.Subst.Measure.{WithinTy, WithinTys, Walks-WithinTy, free}
use tyra.Types.Subst.Settles.{Settles, walk_settles, occurs-Settles}
use tyra.Types.Unify.{
  ok, done, fail, and_then, unify_zip, after_occurs, bind_checked, unify_walked, unify_step, unify,
}
use tyra.Types.Unify.Progress.{Inv, Progress, unify-Progress, unify_zip-Progress}
use tyra.Types.Unify.Chains.{settled, Settles-if, Settles-and_then}
use tyra.Types.Subst.Bounds.{bound, bound_bindings, Mentions-lt, bound-get}

module _ (u : ℕ) where
  abbrev UnifySettles : Substitution → Ty → Ty → Type 0
  UnifySettles s a b = Settles (λ f. unify f a b s)

  -- All types below the bound settle under the substitution.
  abbrev AllSettle : Substitution → Type 0
  AllSettle s = (a b : Ty) → WithinTy u a → WithinTy u b → UnifySettles s a b

  -- Under a substitution with fewer unbound variables than `s`.
  abbrev Later : Substitution → Type 0
  Later s = (s' : Substitution) → Inv u s' → free u s' < free u s → AllSettle s'

  Progress-lt :
      (s s₁ s₂ : Substitution) → free u s₁ < free u s → Progress u s₁ s₂ → free u s₂ < free u s
  Progress-lt s s₁ s₂ l p = elim p.moved [
    | inl q ↦ subst (λ x. free u x < free u s) (sym q) l
    | inr q ↦ omega arith
  ]

  module _ (s : Substitution) (later : Later s) where
    zip_later :
        (xs ys : Tys) (s₁ : Substitution)
        → Inv u s₁
        → free u s₁ < free u s
        → WithinTys u xs
        → WithinTys u ys
        → Settles (λ f. unify_zip (unify f) xs ys s₁)
    unfolding unify_zip Mentions
    zip_later (cons x xs) (cons y ys) s₁ i l m n =
        let mx : WithinTy u x = λ w k. m w (inl k) in
        let ny : WithinTy u y = λ w k. n w (inl k) in
        Settles-and_then u s₁ (λ f. unify f x y s₁) (λ f. unify_zip (unify f) xs ys)
          (later s₁ i l x y mx ny) (λ f. unify-Progress u f x y s₁ mx ny i)
          (λ s₂ p.
            zip_later xs ys s₂ p.inv (Progress-lt s s₁ s₂ l p) (λ w k. m w (inr k))
              (λ w k. n w (inr k)))
    zip_later nil ys s₁ i l m n = settled (ok, s₁)
    zip_later (cons x xs) nil s₁ i l m n = settled (ok, s₁)

    module _ (inv : Inv u s) where
      -- The type settles against every other, under `s`.
      abbrev Done : Ty → Type 0
      Done a = (b : Ty) → WithinTy u b → UnifySettles s a b

      abbrev AllDone : Tys → Type 0
      AllDone nil = Unit
      AllDone (cons t ts) = Done t × AllDone ts

      zip_now :
          (xs ys : Tys)
          → AllDone xs
          → WithinTys u xs
          → WithinTys u ys
          → Settles (λ f. unify_zip (unify f) xs ys s)
      unfolding unify_zip Mentions
      zip_now (cons x xs) (cons y ys) d m n =
          let mx : WithinTy u x = λ w k. m w (inl k) in
          let ny : WithinTy u y = λ w k. n w (inl k) in
          let rest = zip_now xs ys d.1 (λ w k. m w (inr k)) (λ w k. n w (inr k)) in
          Settles-and_then u s (λ f. unify f x y s) (λ f. unify_zip (unify f) xs ys) (d.0 y ny)
            (λ f. unify-Progress u f x y s mx ny inv)
            (λ s₁ p. elim p.moved [
              | inl q ↦ subst (λ z. Settles (λ f. unify_zip (unify f) xs ys z)) (sym q) rest
              | inr l ↦ zip_later xs ys s₁ p.inv l (λ w k. m w (inr k)) (λ w k. n w (inr k))
            ])
      zip_now nil ys d m n = settled (ok, s)
      zip_now (cons x xs) nil d m n = settled (ok, s)

      bind-Settles : (id : ℕ) (t : Ty) → Settles (λ f. bind_checked f id t s)
      unfolding bind_checked
      bind-Settles id t = go (occurs-Settles id s t inv.acyclic)
        where
          go :
              Settles (λ f. occurs f id s t)
              → Settles (λ f. occurs f id s t >>= after_occurs id t s)
          go (true, (n, e)) = (_, (n, λ f l. ap (λ o. o >>= after_occurs id t s) (e f l)))
          go (false, (n, e)) = (_, (n, λ f l. ap (λ o. o >>= after_occurs id t s) (e f l)))

      -- What is asked of the parts of a walked type.
      abbrev Parts : Ty → Type 0
      Parts (generic n ts) = AllDone ts × WithinTys u ts
      Parts (fn ps r) = AllDone ps × WithinTys u ps × Done r × WithinTy u r
      Parts t = Unit

      walked-Settles :
          (a b : Ty) → Parts a → WithinTy u b → Settles (λ f. unify_walked (unify f) f a b s)
      unfolding unify_walked Mentions
      walked-Settles (var i) (var j) d n =
          Settles-if (i == j) (λ f. done s) (λ f. bind_checked f i (var j) s) (settled (ok, s))
            (bind-Settles i (var j))
      walked-Settles (var i) b d n = bind-Settles i b
      walked-Settles (named x) (named y) d n =
          Settles-if (x == y) (λ f. done s) (λ f. fail _ s) (settled (ok, s)) (settled (_, s))
      walked-Settles (generic x xs) (generic y ys) d n =
          Settles-if (x == y && len xs == len ys) (λ f. unify_zip (unify f) xs ys s) (λ f. fail _ s)
            (zip_now xs ys d.0 d.1 n) (settled (_, s))
      walked-Settles (fn ps r) (fn qs q) d n =
          let m : WithinTys u qs = λ w k. n w (inl k) in
          let m' : WithinTy u q = λ w k. n w (inr k) in
          Settles-if (len ps == len qs) (λ f. and_then (unify_zip (unify f) ps qs s) (unify f r q))
            (λ f. fail _ s)
            (Settles-and_then u s (λ f. unify_zip (unify f) ps qs s) (λ f. unify f r q)
              (zip_now ps qs d.0 d.1 m)
              (λ f. unify_zip-Progress u (unify f) (unify-Progress u f) ps qs s d.1 m inv)
              (λ s₁ p. elim p.moved [
                | inl e ↦ subst (λ z. UnifySettles z r q) (sym e) (d.2 q m')
                | inr l ↦ later s₁ p.inv l r q d.3 m'
              ]))
            (settled (_, s))
      walked-Settles int int d n = settled (ok, s)
      walked-Settles float float d n = settled (ok, s)
      walked-Settles bool bool d n = settled (ok, s)
      walked-Settles string string d n = settled (ok, s)
      walked-Settles rune rune d n = settled (ok, s)
      walked-Settles bytes bytes d n = settled (ok, s)
      walked-Settles unit unit d n = settled (ok, s)
      walked-Settles a (var j) d n = bind-Settles j a
      walked-Settles a b d n = settled (_, s)

      step-Settles :
          (a b : Ty) → Parts a → WithinTy u b → Settles (λ f. unify_step (unify f) f a b s)
      unfolding unify_step
      step-Settles error b d n = settled (ok, s)
      step-Settles a error d n = settled (ok, s)
      step-Settles never b d n = settled (ok, s)
      step-Settles a never d n = settled (ok, s)
      step-Settles a b d n = walked-Settles a b d n

      unify_at :
          (t t' b b' : Ty) (f m : ℕ)
          → suc f ≡ m
          → walk f s t ≡ some t'
          → walk f s b ≡ some b'
          → unify m t b s ≡ unify_step (unify f) f t' b' s
      unfolding unify
      unify_at t t' b b' f zero e p q = absurd (omega arith)
      unify_at t t' b b' f (suc m) e p q =
          let k : m ≡ f = omega arith in
          ap (λ o. unify (suc o) t b s) k
          ∙ ap (λ o. o >>= λ x. walk f s b >>= λ y. unify_step (unify f) f x y s) p
          ∙ ap (λ o. o >>= λ y. unify_step (unify f) f t' y s) q

      -- A type is done once the type that it walks to has its parts done.
      Done-of_Parts : (t t' : Ty) → Walks s t t' → Parts t' → Done t
      Done-of_Parts t t' r d b n =
          let (t'', r', (k, e)) = walk_settles s t inv.acyclic in
          let (b', rb, (k', e')) = walk_settles s b inv.acyclic in
          let (v, (m, g)) =
            step-Settles t'' b' (subst Parts (Walks-deterministic r r') d)
              (Walks-WithinTy u inv.within rb n) in
          (
            v,
            (
              suc (k + k' + m),
              λ f l.
                  unify_at t t'' b b' (f - 1) f (omega arith) (e (f - 1) (omega arith))
                    (e' (f - 1) (omega arith))
                  ∙ g (f - 1) (omega arith),
            ),
          )

      -- By recursion on the type, and through the bindings of its variables.
      mutual
        unfolding Mentions

        ty-Done : (t : Ty) → WithinTy u t → ((w : ℕ) → Mentions w t → Done (var w)) → Done t
        ty-Done (var v) m h = h v refl
        ty-Done (generic n ts) m h =
            Done-of_Parts (generic n ts) (generic n ts) (stop refl) (tys-Done ts m h, m)
        ty-Done (fn ps r) m h =
            let mp : WithinTys u ps = λ w k. m w (inl k) in
            let mr : WithinTy u r = λ w k. m w (inr k) in
            Done-of_Parts (fn ps r) (fn ps r) (stop refl)
              (tys-Done ps mp (λ w k. h w (inl k)), mp, ty-Done r mr (λ w k. h w (inr k)), mr)
        ty-Done int m h = Done-of_Parts int int (stop refl) tt
        ty-Done t m h = Done-of_Parts t t (stop refl) tt

        tys-Done :
            (ts : Tys) → WithinTys u ts → ((w : ℕ) → MentionedIn w ts → Done (var w)) → AllDone ts
        tys-Done nil m h = tt
        tys-Done (cons t ts) m h = (
          ty-Done t (λ w k. m w (inl k)) (λ w k. h w (inl k)),
          tys-Done ts (λ w k. m w (inr k)) (λ w k. h w (inr k)),
        )

      -- A bound variable is done if its binding is: both walk to the same type.
      Done-of_binding : (v : ℕ) (t : Ty) → get v s ≡ some t → Done t → Done (var v)
      Done-of_binding v t p d b n =
          let (x, r, (k, e)) = walk_settles s (var v) inv.acyclic in
          let (y, r', (k', e')) = walk_settles s t inv.acyclic in
          let (b', rb, (k'', e'')) = walk_settles s b inv.acyclic in
          let (o, (m, g)) = d b n in
          let same : y ≡ x = Walks-deterministic (follow p r') r in
          (
            o,
            (
              suc (k + k' + k'' + m),
              λ f l.
                  unify_at (var v) x b b' (f - 1) f (omega arith) (e (f - 1) (omega arith))
                    (e'' (f - 1) (omega arith))
                  ∙ sym (
                      unify_at t x b b' (f - 1) f (omega arith)
                        (e' (f - 1) (omega arith) ∙ ap some same) (e'' (f - 1) (omega arith)))
                  ∙ g f (omega arith),
            ),
          )

      var-Done : {v : ℕ} → Grounded s v → Done (var v)
      var-Done {v} (grounded h) = elim (Option-cases (get v s)) [
        | inl p ↦ Done-of_Parts (var v) (var v) (unbound p) tt
        | inr (t, p) ↦
            Done-of_binding v t p (ty-Done t (inv.within v t p) (λ w m. var-Done (h t w p m)))
      ]

  -- By induction on the number of unbound variables.
  all_settle : (k : ℕ) (s : Substitution) → Inv u s → free u s < k → AllSettle s
  all_settle zero s inv l a b m n = absurd (omega arith)
  all_settle (suc k) s inv l a b m n =
      let later : Later s = λ s' i q. all_settle k s' i (omega arith) in
      ty-Done s later inv a m (λ w k. var-Done s later inv (inv.acyclic w)) b n

-- A bound on the variables of two types and a substitution.
abbrev pub limit : Ty → Ty → Substitution → ℕ
limit a b s = bound a + bound b + bound_bindings s

pub start-Inv : (a b : Ty) (s : Substitution) → IsAcyclic s → Inv (limit a b s) s
start-Inv a b s ac = record {
  acyclic = ac;
  within = λ v t p w m. omega (arith, Mentions-lt w t m, bound-get s v t p);
}

pub left-WithinTy : (a b : Ty) (s : Substitution) → WithinTy (limit a b s) a
left-WithinTy a b s w m = omega (arith, Mentions-lt w a m)

pub right-WithinTy : (a b : Ty) (s : Substitution) → WithinTy (limit a b s) b
right-WithinTy a b s w m = omega (arith, Mentions-lt w b m)

-- Under a substitution without cycles `unify` ends: from some fuel on it gives one result.
pub unify-Settles : (a b : Ty) (s : Substitution) → IsAcyclic s → Settles (λ f. unify f a b s)
unify-Settles a b s ac =
    let u = limit a b s in
    all_settle u (suc (free u s)) s (start-Inv a b s ac) (omega arith) a b (left-WithinTy a b s)
      (right-WithinTy a b s)
