-- ===== src/Types/Subst/Bounds.antt =====
-- A number above all the variables of a type and of a substitution.
use tyra.Prelude.{ℕ, suc, ◌+◌, ◌≤◌, ◌<◌, ◌≡◌, ap, some, arith, nat_eq, string_eq, inl, inr, [], ◌∷◌}
use tyra.Prelude.Dict.{get}
use tyra.Types.Ty.{Ty, Tys, nil, cons, generic, fn, var}
use tyra.Types.Subst.{Substitution}
use tyra.Types.Subst.Acyclic.{Mentions, MentionedIn}

-- A bound above all the variables of a type, and of the bindings of a substitution.
mutual
  pub bound : Ty → ℕ
  bound (var v) = suc v
  bound (generic n ts) = bound_all ts
  bound (fn ps r) = bound_all ps + bound r
  bound t = 0

  pub bound_all : Tys → ℕ
  bound_all nil = 0
  bound_all (cons t ts) = bound t + bound_all ts

mutual
  unfolding bound Mentions

  pub Mentions-lt : (w : ℕ) (t : Ty) → Mentions w t → w < bound t
  Mentions-lt w (var v) m = omega arith
  Mentions-lt w (generic n ts) m = MentionedIn-lt w ts m
  Mentions-lt w (fn ps r) m = elim m [
    | inl k ↦ omega (arith, MentionedIn-lt w ps k)
    | inr k ↦ omega (arith, Mentions-lt w r k)
  ]
  Mentions-lt w t m = absurd m

  MentionedIn-lt : (w : ℕ) (ts : Tys) → MentionedIn w ts → w < bound_all ts
  MentionedIn-lt w nil m = absurd m
  MentionedIn-lt w (cons t ts) m = elim m [
    | inl k ↦ omega (arith, Mentions-lt w t k)
    | inr k ↦ omega (arith, MentionedIn-lt w ts k)
  ]

pub bound_bindings : Substitution → ℕ
bound_bindings [] = 0
bound_bindings ((v, t) ∷ s) = bound t + bound_bindings s

pub bound-get : (s : Substitution) (v : ℕ) (t : Ty) → get v s ≡ some t → bound t ≤ bound_bindings s
unfolding bound_bindings get
bound-get [] v t e = cc
bound-get ((j, w) ∷ s) v t e = ground (arith, bound-get s v t, ap bound)
