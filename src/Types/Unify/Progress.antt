-- ===== src/Types/Unify/Progress.antt =====
-- What every call of `unify` keeps, also when it fails: the substitution has no cycle, its variables
-- stay below a bound, and a call that changes it has bound a variable.
use tyra.Prelude.{
  ℕ, zero, suc, ◌<◌, ◌≡◌, refl, sym, ◌∙◌, subst, Bool, true, false, Option, none, some, arith,
  if◌then◌else◌, ◌==◌, nat_eq, string_eq, ◌&&◌, inl, inr, ◌⊎◌,
}
use tyra.Types.Ty.{
  Ty, Tys, nil, cons, int, float, bool, string, rune, bytes, unit, named, generic, fn, var, len,
}
use tyra.Types.Subst.{Substitution, ◌>>=◌, walk, bind, occurs}
use tyra.Types.Subst.Walks.{Ended, walk-Walks, Walks-Ended, Ended-var}
use tyra.Types.Subst.Acyclic.{Mentions, IsAcyclic, insert-IsAcyclic}
use tyra.Types.Subst.Measure.{
  WithinTy, WithinTys, Within, Within-insert, Walks-WithinTy, free, free-insert_lt,
}
use tyra.Types.Unify.{
  ok, err, Outcome, Unifier, done, and_then, unify_zip, after_occurs, bind_checked, unify_walked,
  unify_step, unify,
}
use tyra.Types.Unify.Steps.{
  left_error, right_error, left_never, right_never, shapes, unify_step-cases,
}

pub record Inv (u : ℕ) (s : Substitution) : Type 0 where
  pub acyclic : IsAcyclic s
  pub within : Within u s

pub record Progress (u : ℕ) (s s' : Substitution) : Type 0 where
  pub inv : Inv u s'
  pub moved : (s' ≡ s) ⊎ (free u s' < free u s)

abbrev pub Leaves : (Substitution → Type 0) → Outcome → Type 0
Leaves P none = Unit
Leaves P (some (v, s)) = P s

module _ (u : ℕ) where
  kept : {s : Substitution} → Inv u s → Progress u s s
  kept h = record { inv = h; moved = inl refl }

  moved_trans :
      (a b c : Substitution)
      → (b ≡ a) ⊎ (free u b < free u a)
      → (c ≡ b) ⊎ (free u c < free u b)
      → (c ≡ a) ⊎ (free u c < free u a)
  moved_trans a b c (inl p) (inl q) = inl (q ∙ p)
  moved_trans a b c (inl p) (inr q) = inr (subst (λ x. free u c < free u x) p q)
  moved_trans a b c (inr p) (inl q) = inr (subst (λ x. free u x < free u a) (sym q) p)
  moved_trans a b c (inr p) (inr q) = inr (omega arith)

  after : {a b c : Substitution} → Progress u a b → Progress u b c → Progress u a c
  after {a} {b} {c} p q = record { inv = q.inv; moved = moved_trans a b c p.moved q.moved }

  Leaves-after :
      (s s₁ : Substitution) (o : Outcome)
      → Progress u s s₁
      → Leaves (Progress u s₁) o
      → Leaves (Progress u s) o
  Leaves-after s s₁ none p q = tt
  Leaves-after s s₁ (some (v, s₂)) p q = after p q

  Leaves-and_then :
      (s : Substitution) (o : Outcome) (k : Substitution → Outcome)
      → Leaves (Progress u s) o
      → ((s₁ : Substitution) → Inv u s₁ → Leaves (Progress u s₁) (k s₁))
      → Leaves (Progress u s) (and_then o k)
  Leaves-and_then s none k p h = tt
  Leaves-and_then s (some (ok, s₁)) k p h = Leaves-after s s₁ (k s₁) p (h s₁ p.inv)
  Leaves-and_then s (some (err e, s₁)) k p h = p

  abbrev pub Careful : Unifier → Type 0
  Careful g =
      (a b : Ty) (s : Substitution)
      → WithinTy u a
      → WithinTy u b
      → Inv u s
      → Leaves (Progress u s) (g a b s)

  pub unify_zip-Progress :
      (g : Unifier)
      → Careful g
      → (xs ys : Tys) (s : Substitution) → WithinTys u xs
      → WithinTys u ys
      → Inv u s
      → Leaves (Progress u s) (unify_zip g xs ys s)
  unfolding unify_zip Mentions
  unify_zip-Progress g h (cons x xs) (cons y ys) s m n i =
      Leaves-and_then s (g x y s) (unify_zip g xs ys)
        (h x y s (λ w k. m w (inl k)) (λ w k. n w (inl k)) i)
        (λ s₁ i₁. unify_zip-Progress g h xs ys s₁ (λ w k. m w (inr k)) (λ w k. n w (inr k)) i₁)
  unify_zip-Progress g h nil ys s m n i = kept i
  unify_zip-Progress g h xs ys s m n i = kept i

  bind_checked-Progress :
      (f id : ℕ) (t : Ty) (s : Substitution)
      → Ended s (var id)
      → id < u
      → WithinTy u t
      → Inv u s
      → Leaves (Progress u s) (bind_checked f id t s)
  unfolding bind_checked bind
  bind_checked-Progress f id t s e l n i = go (occurs f id s t) refl
    where
      go :
          (o : Option Bool)
          → occurs f id s t ≡ o
          → Leaves (Progress u s) (o >>= after_occurs id t s)
      go none q = tt
      go (some true) q = kept i
      go (some false) q = record {
        inv = record {
          acyclic = insert-IsAcyclic s id t (Ended-var s id e) i.acyclic f q;
          within = Within-insert u id t s i.within n;
        };
        moved = inr (free-insert_lt u id t s l (Ended-var s id e));
      }

  Leaves-if :
      (s : Substitution) (b : Bool) (x y : Outcome)
      → Leaves (Progress u s) x
      → Leaves (Progress u s) y
      → Leaves (Progress u s) (if b then x else y)
  Leaves-if s true x y h k = h
  Leaves-if s false x y h k = k

  module _ (g : Unifier) (f : ℕ) (hg : Careful g) where
    unify_walked-Progress :
        (a b : Ty) (s : Substitution)
        → Ended s a
        → Ended s b
        → WithinTy u a
        → WithinTy u b
        → Inv u s
        → Leaves (Progress u s) (unify_walked g f a b s)
    unfolding unify_walked Mentions
    unify_walked-Progress (var i) (var j) s e d m n h =
        Leaves-if s (i == j) (done s) (bind_checked f i (var j) s) (kept h)
          (bind_checked-Progress f i (var j) s e (m i refl) n h)
    unify_walked-Progress (var i) b s e d m n h = bind_checked-Progress f i b s e (m i refl) n h
    unify_walked-Progress (named x) (named y) s e d m n h =
        Leaves-if s (x == y) (done s) _ (kept h) (kept h)
    unify_walked-Progress (generic x xs) (generic y ys) s e d m n h =
        Leaves-if s (x == y && len xs == len ys) (unify_zip g xs ys s) _
          (unify_zip-Progress g hg xs ys s m n h) (kept h)
    unify_walked-Progress (fn ps r) (fn qs q) s e d m n h =
        Leaves-if s (len ps == len qs) (and_then (unify_zip g ps qs s) (g r q)) _
          (Leaves-and_then s (unify_zip g ps qs s) (g r q)
            (unify_zip-Progress g hg ps qs s (λ w k. m w (inl k)) (λ w k. n w (inl k)) h)
            (λ s₁ i₁. hg r q s₁ (λ w k. m w (inr k)) (λ w k. n w (inr k)) i₁))
          (kept h)
    unify_walked-Progress int int s e d m n h = kept h
    unify_walked-Progress float float s e d m n h = kept h
    unify_walked-Progress bool bool s e d m n h = kept h
    unify_walked-Progress string string s e d m n h = kept h
    unify_walked-Progress rune rune s e d m n h = kept h
    unify_walked-Progress bytes bytes s e d m n h = kept h
    unify_walked-Progress unit unit s e d m n h = kept h
    unify_walked-Progress a (var j) s e d m n h = bind_checked-Progress f j a s d (n j refl) m h
    unify_walked-Progress a b s e d m n h = kept h

    unify_step-Progress :
        (a b : Ty) (s : Substitution)
        → Ended s a
        → Ended s b
        → WithinTy u a
        → WithinTy u b
        → Inv u s
        → Leaves (Progress u s) (unify_step g f a b s)
    unify_step-Progress a b s e d m n h = elim (unify_step-cases g f a b s) [
      | left_error p q ↦ rw q (kept h)
      | right_error p q ↦ rw q (kept h)
      | left_never p q ↦ rw q (kept h)
      | right_never p q ↦ rw q (kept h)
      | shapes c c' q ↦ rw q (unify_walked-Progress a b s e d m n h)
    ]

  Leaves-bind :
      (s : Substitution) (o : Option Ty) (k : Ty → Outcome)
      → ((t : Ty) → o ≡ some t → Leaves (Progress u s) (k t))
      → Leaves (Progress u s) (o >>= k)
  Leaves-bind s none k h = tt
  Leaves-bind s (some t) k h = h t refl

  pub unify-Progress : (f : ℕ) → Careful (unify f)
  unfolding unify
  unify-Progress zero a b s m n h = tt
  unify-Progress (suc f) a b s m n h = Leaves-bind s (walk f s a) _ (λ a' p.
      Leaves-bind s (walk f s b) _ (λ b' q.
        let v = walk-Walks f s a p in
        let w = walk-Walks f s b q in
        unify_step-Progress (unify f) f (unify-Progress f) a' b' s (Walks-Ended v) (Walks-Ended w)
          (Walks-WithinTy u h.within v m) (Walks-WithinTy u h.within w n) h))
