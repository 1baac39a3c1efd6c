-- ===== src/Types/Unify/Sound.antt =====
-- When `unify` succeeds, its substitution makes the two types compatible, and it still has all the
-- equations that it was given.
use mathlib.Core.Option.{none-ne-some}
use mathlib.Core.Bool.{and-eq-true_iff}
use tyra.Prelude.{
  ℕ, zero, suc, ◌≡◌, refl, sym, ap, ◌∙◌, subst, Bool, true, false, Option, none, some, arith,
  if◌then◌else◌, ◌==◌, nat_eq, string_eq, nat_beq_iff, ◌&&◌, Bool-cases, inl, inr,
}
use text.Mathlib.TextEquality.{eq_iff}
use tyra.Prelude.Dict.{get, insert, get-insert, get-insert_self}
use tyra.Types.Ty.{
  Ty, Tys, nil, cons, int, float, bool, string, rune, bytes, unit, named, generic, fn, var, len,
}
use tyra.Types.Subst.{Substitution, ◌>>=◌, walk, bind, occurs}
use tyra.Types.Subst.Walks.{Ended, walk-Walks, Walks-Ended, Ended-var}
use tyra.Types.Subst.Meaning.{inst, inst_all, Solves, walk-inst, >>=-eq-some}
use tyra.Types.Unify.{
  ok, Unifier, and_then, unify_zip, after_occurs, bind_checked, unify_walked, unify_step, unify,
  mismatch, done,
}
use tyra.Types.Unify.Compat.{Compat, Compats, Compat-subst}
use tyra.Types.Unify.Steps.{
  left_error, right_error, left_never, right_never, shapes, unify_step-cases, if-eq-done,
  and_then-eq-ok, done-injective,
}

-- What a successful call gives, at each assignment that solves the final substitution.
abbrev Good : (ℕ → Ty) → Substitution → Ty → Ty → Type 0
Good θ s a b = Solves θ s × Compat (inst θ a) (inst θ b)

abbrev GoodAll : (ℕ → Ty) → Substitution → Tys → Tys → Type 0
GoodAll θ s xs ys = Solves θ s × Compats (inst_all θ xs) (inst_all θ ys)

abbrev IsSound : Unifier → (ℕ → Ty) → Type 0
IsSound g θ = (a b : Ty) (s s' : Substitution) → g a b s ≡ done s' → Solves θ s' → Good θ s a b

unify_zip-GoodAll :
    (g : Unifier) (θ : ℕ → Ty)
    → IsSound g θ
    → (xs ys : Tys) (s s' : Substitution) → len xs ≡ len ys
    → unify_zip g xs ys s ≡ done s'
    → Solves θ s'
    → GoodAll θ s xs ys
unfolding unify_zip inst
unify_zip-GoodAll g θ h nil nil s s' l e t =
    (subst (Solves θ) (sym (done-injective e)) t, Compats.no_types)
unify_zip-GoodAll g θ h nil (cons y ys) s s' l e t = absurd (omega arith)
unify_zip-GoodAll g θ h (cons x xs) nil s s' l e t = absurd (omega arith)
unify_zip-GoodAll g θ h (cons x xs) (cons y ys) s s' l e t =
    let (s₁, p, e') = and_then-eq-ok (g x y s) _ e in
    let (t₁, c) = unify_zip-GoodAll g θ h xs ys s₁ s' (omega arith) e' t in
    let (t₀, d) = h x y s s₁ p t₁ in (t₀, Compats.more_types d c)

-- Binding an unbound variable keeps the equations, and adds one.
Solves-insert :
    (θ : ℕ → Ty) (s : Substitution) (i : ℕ) (t : Ty)
    → get i s ≡ none
    → Solves θ (insert i t s)
    → Solves θ s × (θ i ≡ inst θ t)
Solves-insert θ s i t p h =
    (λ v u q. h v u (get-insert i v t s ∙ keep v u q), h i t (get-insert_self i t s))
  where
    keep : (v : ℕ) (u : Ty) → get v s ≡ some u → (if i == v then some t else get v s) ≡ some u
    keep v u q = elim (Bool-cases (i == v)) [
      | inl y ↦ absurd (none-ne-some u (sym p ∙ ap (λ w. get w s) ((nat_beq_iff i v).0 y) ∙ q))
      | inr n ↦ rw n q
    ]

bind_checked-Good :
    (θ : ℕ → Ty) (f i : ℕ) (t : Ty) (s s' : Substitution)
    → Ended s (var i)
    → bind_checked f i t s ≡ done s'
    → Solves θ s'
    → Solves θ s × (θ i ≡ inst θ t)
unfolding bind_checked bind
bind_checked-Good θ f i t s s' n e h = go (occurs f i s t) e
  where
    go : (o : Option Bool) → (o >>= after_occurs i t s) ≡ done s' → Solves θ s × (θ i ≡ inst θ t)
    go none q = cc
    go (some true) q = cc
    go (some false) q =
        Solves-insert θ s i t (Ended-var s i n) (subst (Solves θ) (sym (done-injective q)) h)

-- Of a branch that leaves the substitution alone.
kept-Good :
    (θ : ℕ → Ty) (s s' : Substitution) (a b : Ty)
    → Compat (inst θ a) (inst θ b)
    → done s ≡ done s'
    → Solves θ s'
    → Good θ s a b
kept-Good θ s s' a b c e h = (subst (Solves θ) (sym (done-injective e)) h, c)

module _ (g : Unifier) (f : ℕ) (θ : ℕ → Ty) (hg : IsSound g θ) where
  unify_walked-Good :
      (a b : Ty) (s s' : Substitution)
      → Ended s a
      → Ended s b
      → unify_walked g f a b s ≡ done s'
      → Solves θ s'
      → Good θ s a b
  unfolding unify_walked inst
  unify_walked-Good (var i) (var j) s s' m n e h = elim (Bool-cases (i == j)) [
    | inl y ↦
        kept-Good θ s s' (var i) (var j) (Compat.same (ap θ ((nat_beq_iff i j).0 y))) (rw y at e) h
    | inr y ↦
        let (k, q) = bind_checked-Good θ f i (var j) s s' m (rw y at e) h in (k, Compat.same q)
  ]
  unify_walked-Good (var i) b s s' m n e h =
      let (k, q) = bind_checked-Good θ f i b s s' m e h in (k, Compat.same q)
  unify_walked-Good int int s s' m n e h = kept-Good θ s s' int int (Compat.same refl) e h
  unify_walked-Good float float s s' m n e h = kept-Good θ s s' float float (Compat.same refl) e h
  unify_walked-Good bool bool s s' m n e h = kept-Good θ s s' bool bool (Compat.same refl) e h
  unify_walked-Good string string s s' m n e h =
      kept-Good θ s s' string string (Compat.same refl) e h
  unify_walked-Good rune rune s s' m n e h = kept-Good θ s s' rune rune (Compat.same refl) e h
  unify_walked-Good bytes bytes s s' m n e h = kept-Good θ s s' bytes bytes (Compat.same refl) e h
  unify_walked-Good unit unit s s' m n e h = kept-Good θ s s' unit unit (Compat.same refl) e h
  unify_walked-Good (named x) (named y) s s' m n e h =
      let (t, p) = if-eq-done (x == y) (done s) (mismatch (named x) (named y)) s s' e in
      kept-Good θ s s' (named x) (named y) (Compat.same (ap named ((eq_iff x y).0 t))) p h
  unify_walked-Good (generic x xs) (generic y ys) s s' m n e h =
      let (t, p) = if-eq-done (x == y && len xs == len ys) (unify_zip g xs ys s) _ s s' e in
      let (b, d) = (and-eq-true_iff (x == y) (len xs == len ys)).0 t in
      let l = (nat_beq_iff (len xs) (len ys)).0 d in
      let q = (eq_iff x y).0 b in
      let (k, c) = unify_zip-GoodAll g θ hg xs ys s s' l p h in
      (k, Compat-subst refl (ap (λ z. generic z (inst_all θ ys)) q) (Compat.generic_args c))
  unify_walked-Good (fn ps r) (fn qs q) s s' m n e h =
      let (t, p) =
        if-eq-done (len ps == len qs) (and_then (unify_zip g ps qs s) (g r q)) _ s s' e in
      let (s₁, p₁, p₂) = and_then-eq-ok (unify_zip g ps qs s) _ p in
      let (k, c) = hg r q s₁ s' p₂ h in
      let (k', c') =
        unify_zip-GoodAll g θ hg ps qs s s₁ ((nat_beq_iff (len ps) (len qs)).0 t) p₁ k in
      (k', Compat.fn_parts c' c)
  unify_walked-Good a (var j) s s' m n e h =
      let (k, q) = bind_checked-Good θ f j a s s' n e h in (k, Compat.same (sym q))
  unify_walked-Good a b s s' m n e h = absurd (cc)

  unify_step-Good :
      (a b : Ty) (s s' : Substitution)
      → Ended s a
      → Ended s b
      → unify_step g f a b s ≡ done s'
      → Solves θ s'
      → Good θ s a b
  unfolding inst
  unify_step-Good a b s s' m n e h = elim (unify_step-cases g f a b s) [
    | left_error p q ↦ kept-Good θ s s' a b (Compat.left_error (ap (inst θ) p)) (sym q ∙ e) h
    | right_error p q ↦ kept-Good θ s s' a b (Compat.right_error (ap (inst θ) p)) (sym q ∙ e) h
    | left_never p q ↦ kept-Good θ s s' a b (Compat.left_never (ap (inst θ) p)) (sym q ∙ e) h
    | right_never p q ↦ kept-Good θ s s' a b (Compat.right_never (ap (inst θ) p)) (sym q ∙ e) h
    | shapes _ p q ↦ unify_walked-Good a b s s' m n (sym q ∙ e) h
  ]

unify-IsSound : (θ : ℕ → Ty) (f : ℕ) → IsSound (unify f) θ
unfolding unify
unify-IsSound θ zero a b s s' e h = cc
unify-IsSound θ (suc f) a b s s' e h =
    let (a', p, e') = >>=-eq-some (walk f s a) _ e in
    let (b', q, e'') = >>=-eq-some (walk f s b) _ e' in
    let (k, c) =
      unify_step-Good (unify f) f θ (unify-IsSound θ f) a' b' s s'
        (Walks-Ended (walk-Walks f s a p)) (Walks-Ended (walk-Walks f s b q)) e'' h in
    (k, Compat-subst (sym (walk-inst θ f s a a' k p)) (sym (walk-inst θ f s b b' k q)) c)

-- When `unify` succeeds, every assignment that solves the substitution it leaves also solves the
-- one it was given, and makes the two types compatible: equal, but for parts where one side is the
-- error sentinel or `Never`.
pub unify_sound :
    (θ : ℕ → Ty) (f : ℕ) (a b : Ty) (s s' : Substitution)
    → unify f a b s ≡ some (ok, s')
    → Solves θ s'
    → Solves θ s × Compat (inst θ a) (inst θ b)
unify_sound θ f a b s s' e h = unify-IsSound θ f a b s s' e h
