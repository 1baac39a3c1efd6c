-- ===== src/Types/Unify/Complete.antt =====
-- `unify` finds the most general solution: it does not refuse two types that some assignment makes
-- equal, and no such assignment is lost.
use mathlib.Core.Bool.{and-eq-true_iff}
use tyra.Prelude.{
  ℕ, zero, suc, ◌≡◌, refl, sym, ap, ◌∙◌, Bool, true, false, Option, none, some, arith,
  if◌then◌else◌, ◌==◌, nat_eq, string_eq, nat_beq_iff, ◌&&◌, Bool-cases, inl, inr,
}
use text.Mathlib.TextEquality.{eq_iff}
use tyra.Prelude.Dict.{insert, get-insert}
use tyra.Types.Ty.{
  Ty, Tys, nil, cons, int, float, bool, string, rune, bytes, unit, named, generic, fn, var, len,
}
use tyra.Types.Subst.{Substitution, ◌>>=◌, walk, bind, occurs}
use tyra.Types.Subst.Walks.{Ended, walk-Walks, Walks-Ended}
use tyra.Types.Subst.Meaning.{inst, inst_all, Solves, walk-inst}
use tyra.Types.Subst.Size.{size, occurs-size_lt}
use tyra.Types.Unify.{
  ok, err, Outcome, Unifier, done, and_then, unify_zip, after_occurs, bind_checked, unify_walked,
  unify_step, unify, is_error, is_never,
}
use tyra.Types.Unify.Steps.{
  left_error, right_error, left_never, right_never, shapes, unify_step-cases,
}

-- The call succeeded, and the assignment solves the substitution it left.
abbrev pub Keeps : (ℕ → Ty) → Outcome → Type 0
Keeps θ none = Unit
Keeps θ (some (ok, s)) = Solves θ s
Keeps θ (some (err e, s)) = ⊥

abbrev IsComplete : Unifier → (ℕ → Ty) → Type 0
IsComplete g θ =
    (a b : Ty) (s : Substitution) → Solves θ s → inst θ a ≡ inst θ b → Keeps θ (g a b s)

Keeps-and_then :
    (θ : ℕ → Ty) (o : Outcome) (k : Substitution → Outcome)
    → Keeps θ o
    → ((s : Substitution) → Solves θ s → Keeps θ (k s))
    → Keeps θ (and_then o k)
Keeps-and_then θ none k h n = tt
Keeps-and_then θ (some (ok, s)) k h n = n s h
Keeps-and_then θ (some (err e, s)) k h n = h

Keeps-bind :
    (θ : ℕ → Ty) (o : Option Ty) (k : Ty → Outcome)
    → ((t : Ty) → o ≡ some t → Keeps θ (k t))
    → Keeps θ (o >>= k)
Keeps-bind θ none k h = tt
Keeps-bind θ (some t) k h = h t refl

cons-injective : {x y : Ty} {xs ys : Tys} → cons x xs ≡ cons y ys → (x ≡ y) × (xs ≡ ys)
cons-injective e = (cc, cc)

unify_zip-Keeps :
    (g : Unifier) (θ : ℕ → Ty)
    → IsComplete g θ
    → (xs ys : Tys) (s : Substitution) → Solves θ s
    → inst_all θ xs ≡ inst_all θ ys
    → Keeps θ (unify_zip g xs ys s)
unfolding unify_zip inst
unify_zip-Keeps g θ h (cons x xs) (cons y ys) s t e =
    let (p, q) = cons-injective e in
    Keeps-and_then θ (g x y s) (unify_zip g xs ys) (h x y s t p)
      (λ s₁ t₁. unify_zip-Keeps g θ h xs ys s₁ t₁ q)
unify_zip-Keeps g θ h nil ys s t e = t
unify_zip-Keeps g θ h xs ys s t e = t

Solves-insert :
    (θ : ℕ → Ty) (s : Substitution) (i : ℕ) (t : Ty)
    → Solves θ s
    → θ i ≡ inst θ t
    → Solves θ (insert i t s)
Solves-insert θ s i t h p v u q = elim (Bool-cases (i == v)) [
  | inl y ↦
      let r : some t ≡ some u = rw (get-insert i v t s, y) at q in
      ap θ (sym ((nat_beq_iff i v).0 y)) ∙ p ∙ ap (inst θ) (cc)
  | inr n ↦ h v u (rw (get-insert i v t s, n) at q)
]

bind_checked-Keeps :
    (θ : ℕ → Ty) (f i : ℕ) (t : Ty) (s : Substitution)
    → Ended s t
    → ¬ (t ≡ var i)
    → Solves θ s
    → θ i ≡ inst θ t
    → Keeps θ (bind_checked f i t s)
unfolding bind_checked bind
bind_checked-Keeps θ f i t s m n h p = go (occurs f i s t) refl
  where
    go : (o : Option Bool) → occurs f i s t ≡ o → Keeps θ (o >>= after_occurs i t s)
    go none q = tt
    go (some true) q = elim (occurs-size_lt θ s h i f t m q) [
      | inl v ↦ n v
      | inr l ↦ absurd (omega (arith, ap size p))
    ]
    go (some false) q = Solves-insert θ s i t h p

len-inst_all : (θ : ℕ → Ty) (ts : Tys) → len (inst_all θ ts) ≡ len ts
unfolding inst
len-inst_all θ nil = refl
len-inst_all θ (cons t ts) = ap suc (len-inst_all θ ts)

len-eq_of_inst :
    (θ : ℕ → Ty) (xs ys : Tys) → inst_all θ xs ≡ inst_all θ ys → len xs == len ys ≡ true
len-eq_of_inst θ xs ys e =
    (nat_beq_iff (len xs) (len ys)).1 (sym (len-inst_all θ xs) ∙ ap len e ∙ len-inst_all θ ys)

Keeps-if :
    (θ : ℕ → Ty) (b : Bool) (x y : Outcome) → b ≡ true → Keeps θ x → Keeps θ (if b then x else y)
Keeps-if θ true x y e h = h
Keeps-if θ false x y e h = cc

module _ (g : Unifier) (f : ℕ) (θ : ℕ → Ty) (hg : IsComplete g θ) where
  unify_walked-Keeps :
      (a b : Ty) (s : Substitution)
      → Ended s a
      → Ended s b
      → is_error a ≡ false
      → is_never a ≡ false
      → Solves θ s
      → inst θ a ≡ inst θ b
      → Keeps θ (unify_walked g f a b s)
  unfolding unify_walked inst
  unify_walked-Keeps (var i) (var j) s m n c d h e = elim (Bool-cases (i == j)) [
    | inl y ↦ rw y h
    | inr y ↦ rw y (bind_checked-Keeps θ f i (var j) s n (λ p. ground arith) h e)
  ]
  unify_walked-Keeps (var i) b s m n c d h e = bind_checked-Keeps θ f i b s n (λ p. cc) h e
  unify_walked-Keeps int int s m n c d h e = h
  unify_walked-Keeps float float s m n c d h e = h
  unify_walked-Keeps bool bool s m n c d h e = h
  unify_walked-Keeps string string s m n c d h e = h
  unify_walked-Keeps rune rune s m n c d h e = h
  unify_walked-Keeps bytes bytes s m n c d h e = h
  unify_walked-Keeps unit unit s m n c d h e = h
  unify_walked-Keeps (named x) (named y) s m n c d h e =
      Keeps-if θ (x == y) (done s) _ ((eq_iff x y).1 (cc)) h
  unify_walked-Keeps (generic x xs) (generic y ys) s m n c d h e =
      let p : inst_all θ xs ≡ inst_all θ ys = cc in
      Keeps-if θ (x == y && len xs == len ys) (unify_zip g xs ys s) _
        ((and-eq-true_iff (x == y) (len xs == len ys)).1
          ((eq_iff x y).1 (cc), len-eq_of_inst θ xs ys p))
        (unify_zip-Keeps g θ hg xs ys s h p)
  unify_walked-Keeps (fn ps r) (fn qs q) s m n c d h e =
      let p : inst_all θ ps ≡ inst_all θ qs = cc in
      Keeps-if θ (len ps == len qs) (and_then (unify_zip g ps qs s) (g r q)) _
        (len-eq_of_inst θ ps qs p)
        (Keeps-and_then θ (unify_zip g ps qs s) (g r q) (unify_zip-Keeps g θ hg ps qs s h p)
          (λ s₁ h₁. hg r q s₁ h₁ (cc)))
  unify_walked-Keeps a (var j) s m n c d h e = bind_checked-Keeps θ f j a s m (λ p. cc) h (sym e)
  unify_walked-Keeps a b s m n c d h e = cc

  unify_step-Keeps :
      (a b : Ty) (s : Substitution)
      → Ended s a
      → Ended s b
      → Solves θ s
      → inst θ a ≡ inst θ b
      → Keeps θ (unify_step g f a b s)
  unify_step-Keeps a b s m n h e = elim (unify_step-cases g f a b s) [
    | left_error p q ↦ rw q h
    | right_error p q ↦ rw q h
    | left_never p q ↦ rw q h
    | right_never p q ↦ rw q h
    | shapes c d q ↦ rw q (unify_walked-Keeps a b s m n c d h e)
  ]

-- `unify` neither reports a mismatch nor an infinite type for two types that some assignment, which
-- solves the substitution, makes equal; and that assignment solves the substitution it leaves.
pub unify_most_general :
    (θ : ℕ → Ty) (f : ℕ) (a b : Ty) (s : Substitution)
    → Solves θ s
    → inst θ a ≡ inst θ b
    → Keeps θ (unify f a b s)
unfolding unify
unify_most_general θ zero a b s h e = tt
unify_most_general θ (suc f) a b s h e = Keeps-bind θ (walk f s a) _ (λ a' p.
    Keeps-bind θ (walk f s b) _ (λ b' q.
      unify_step-Keeps (unify f) f θ (unify_most_general θ f) a' b' s
        (Walks-Ended (walk-Walks f s a p)) (Walks-Ended (walk-Walks f s b q)) h
        (sym (walk-inst θ f s a a' h p) ∙ e ∙ walk-inst θ f s b b' h q)))
