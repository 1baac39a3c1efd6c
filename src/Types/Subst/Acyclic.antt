-- ===== src/Types/Subst/Acyclic.antt =====
-- Substitutions without a cycle: from no variable can its own bindings be followed for ever.
use mathlib.Core.Option.{some-injective, none-ne-some}
use tyra.Prelude.{
  ℕ, zero, suc, ◌≡◌, refl, sym, ap, ◌∙◌, subst, Bool, true, false, Option, none, some, arith, [],
  ◌==◌, nat_eq, nat_beq_iff, inl, inr, ◌⊎◌, Bool-cases,
}
use tyra.Prelude.Dict.{get, insert, get-insert}
use tyra.Types.Ty.{Ty, Tys, nil, cons, generic, fn, var}
use tyra.Types.Subst.{Substitution, walk, any_ty, or_later, occurs_walked, occurs}
use tyra.Types.Subst.Walks.{Walks, unbound, follow, stop, Ended, walk-Walks, Walks-Ended, Ended-var}
use tyra.Types.Subst.Meaning.{>>=-eq-some}

-- The variable stands somewhere in the type.
unfoldable mutual
  pub Mentions : ℕ → Ty → Type 0
  Mentions w (var v) = w ≡ v
  Mentions w (generic n ts) = MentionedIn w ts
  Mentions w (fn ps r) = MentionedIn w ps ⊎ Mentions w r
  Mentions w t = ⊥

  pub MentionedIn : ℕ → Tys → Type 0
  MentionedIn w nil = ⊥
  MentionedIn w (cons t ts) = Mentions w t ⊎ MentionedIn w ts

pub data Grounded (s : Substitution) : ℕ → Type 0 where
  grounded :
      {v : ℕ} → ((t : Ty) (w : ℕ) → get v s ≡ some t → Mentions w t → Grounded s w) → Grounded s v

abbrev pub IsAcyclic : Substitution → Type 0
IsAcyclic s = (v : ℕ) → Grounded s v

pub nil-IsAcyclic : IsAcyclic []
unfolding get
nil-IsAcyclic v = grounded (λ t w p m. absurd (none-ne-some t p))

or_later-eq-false :
    (o r : Option Bool) → or_later o r ≡ some false → (o ≡ some false) × (r ≡ some false)
or_later-eq-false none r e = cc
or_later-eq-false (some true) r e = cc
or_later-eq-false (some false) r e = (refl, e)

-- Binding an unbound variable to a type in which the occurs check does not find it.
module _ (s : Substitution) (i : ℕ) (b : Ty) (free : get i s ≡ none) where
  abbrev AllGrounded : Ty → Type 0
  AllGrounded t = (w : ℕ) → Mentions w t → Grounded (insert i b s) w

  -- Of another variable than `i`, the bindings are as before.
  Grounded-other :
      (v : ℕ)
      → (i == v) ≡ false
      → ((t : Ty) → get v s ≡ some t → AllGrounded t)
      → Grounded (insert i b s) v
  Grounded-other v n h = grounded (λ t w p m. h t (rw (get-insert i v b s, n) at p) w m)

  Walks-AllGrounded : {t u : Ty} → Walks s t u → AllGrounded u → AllGrounded t
  unfolding Mentions
  Walks-AllGrounded (unbound p) h w m = h w m
  Walks-AllGrounded (follow {v} {t} p r) h w m =
      subst (Grounded (insert i b s)) (sym m) (elim (Bool-cases (i == v)) [
        | inl y ↦ absurd (none-ne-some t (sym free ∙ ap (λ z. get z s) ((nat_beq_iff i v).0 y) ∙ p))
        | inr n ↦
            Grounded-other v n
              (λ t' q. subst AllGrounded (some-injective _ _ (sym p ∙ q)) (Walks-AllGrounded r h))
      ])
  Walks-AllGrounded (stop p) h w m = h w m

  AllIn : Tys → Type 0
  AllIn ts = (w : ℕ) → MentionedIn w ts → Grounded (insert i b s) w

  any_ty-AllIn :
      (g : Ty → Option Bool)
      → ((t : Ty) → g t ≡ some false → AllGrounded t)
      → (ts : Tys) → any_ty g ts ≡ some false
      → AllIn ts
  unfolding AllIn Mentions
  any_ty-AllIn g h nil e = λ w m. absurd m
  any_ty-AllIn g h (cons t ts) e =
      let (p, q) = or_later-eq-false (g t) (any_ty g ts) e in
      λ w. elim [ inl m ↦ h t p w m | inr m ↦ any_ty-AllIn g h ts q w m ]

  occurs_walked-AllGrounded :
      (g : Ty → Option Bool)
      → ((t : Ty) → g t ≡ some false → AllGrounded t)
      → (t : Ty) → Ended s t
      → occurs_walked g i t ≡ some false
      → AllGrounded t
  unfolding Mentions AllIn
  occurs_walked-AllGrounded g h (var o) m e = λ w p.
      subst (Grounded (insert i b s)) (sym p) (
        Grounded-other o (ground arith)
          (λ t q. absurd (none-ne-some t (sym (Ended-var s o m) ∙ q))))
  occurs_walked-AllGrounded g h (generic n ts) m e = any_ty-AllIn g h ts e
  occurs_walked-AllGrounded g h (fn ps r) m e =
      let (p, q) = or_later-eq-false (any_ty g ps) (g r) e in
      λ w. elim [ inl k ↦ any_ty-AllIn g h ps p w k | inr k ↦ h r q w k ]
  occurs_walked-AllGrounded g h t m e = λ w p. absurd p

  occurs-AllGrounded : (f : ℕ) (t : Ty) → occurs f i s t ≡ some false → AllGrounded t
  unfolding occurs
  occurs-AllGrounded zero t e = cc
  occurs-AllGrounded (suc f) t e =
      let (u, p, q) = >>=-eq-some (walk f s t) _ e in
      let r = walk-Walks f s t p in
      Walks-AllGrounded r
        (occurs_walked-AllGrounded (occurs f i s) (occurs-AllGrounded f) u (Walks-Ended r) q)

  module _ (old : IsAcyclic s) (f : ℕ) (checked : occurs f i s b ≡ some false) where
    Grounded-insert : {v : ℕ} → Grounded s v → Grounded (insert i b s) v
    Grounded-insert {v} (grounded h) = elim (Bool-cases (i == v)) [
      | inl y ↦ grounded (λ t w p m.
          occurs-AllGrounded f b checked w
            (subst (Mentions w) (some-injective _ _ (sym p ∙ get-insert i v b s ∙ (rw y))) m))
      | inr n ↦ Grounded-other v n (λ t p w m. Grounded-insert (h t w p m))
    ]

    -- The occurs check keeps a substitution without cycles.
    pub insert-IsAcyclic : IsAcyclic (insert i b s)
    insert-IsAcyclic v = Grounded-insert (old v)
