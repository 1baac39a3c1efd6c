-- ===== src/Types/Subst/Walks.antt =====
-- The steps of `walk` as a relation, which the proofs about the substitution go by.
use mathlib.Core.Option.{some-injective}
use tyra.Prelude.{
  sym, ap, ◌∙◌, ℕ, zero, suc, ◌≡◌, refl, subst, Bool, true, false, Option, none, some, arith, inl,
  inr, nat_eq, ◌⊎◌,
}
use tyra.Prelude.Dict.{get}
use tyra.Types.Ty.{Ty, int, var}
use tyra.Types.Subst.{Substitution, walk}

abbrev pub is_var : Ty → Bool
is_var (var v) = true
is_var t = false

pub data Walks (s : Substitution) : Ty → Ty → Type 0 where
  unbound : {v : ℕ} → get v s ≡ none → Walks s (var v) (var v)
  follow : {v : ℕ} {t u : Ty} → get v s ≡ some t → Walks s t u → Walks s (var v) u
  stop : {t : Ty} → is_var t ≡ false → Walks s t t

Walks-to : {s : Substitution} {t u w : Ty} → Walks s t u → some u ≡ some w → Walks s t w
Walks-to {s} {t} r e = subst (Walks s t) (cc) r

pub walk-Walks : (f : ℕ) (s : Substitution) (t : Ty) {u : Ty} → walk f s t ≡ some u → Walks s t u
unfolding walk
walk-Walks zero s t e = cc
walk-Walks (suc f) s (var v) e = go (get v s) refl (λ t u. walk-Walks f s t) e
  where
    go :
        (o : Option Ty)
        → get v s ≡ o
        → ((t u : Ty) → walk f s t ≡ some u → Walks s t u)
        → {u : Ty} → (elim o [ none ↦ some (var v) | some t ↦ walk f s t ]) ≡ some u
        → Walks s (var v) u
    go none p ih q = Walks-to (unbound p) q
    go (some t) p ih q = follow p (ih t _ q)
walk-Walks (suc f) s int e = Walks-to (stop refl) e
walk-Walks (suc f) s t e = Walks-to (stop refl) e

-- A walk ends at a type that is no variable, or at an unbound one.
abbrev pub Ended : Substitution → Ty → Type 0
Ended s u = (is_var u ≡ false) ⊎ ((v : ℕ) × (u ≡ var v) × (get v s ≡ none))

pub Walks-Ended : {s : Substitution} {t u : Ty} → Walks s t u → Ended s u
Walks-Ended (unbound {v} p) = inr (v, refl, p)
Walks-Ended (follow p r) = Walks-Ended r
Walks-Ended (stop p) = inl p

-- A walk from where a walk ends stays there.
pub Ended-Walks : {s : Substitution} {t u : Ty} → Ended s t → Walks s t u → u ≡ t
Ended-Walks m (unbound p) = refl
Ended-Walks (inl n) (follow p r) = cc
Ended-Walks (inr (v, n, q)) (follow p r) = ground arith
Ended-Walks m (stop p) = refl

pub Ended-var : (s : Substitution) (i : ℕ) → Ended s (var i) → get i s ≡ none
Ended-var s i (inl p) = cc
Ended-var s i (inr (v, p, q)) = ap (λ w. get w s) (cc) ∙ q

pub Walks-deterministic : {s : Substitution} {t u w : Ty} → Walks s t u → Walks s t w → u ≡ w
Walks-deterministic (unbound p) (unbound q) = refl
Walks-deterministic (unbound p) (follow q r) = cc
Walks-deterministic (unbound p) (stop q) = cc
Walks-deterministic (follow p r) (unbound q) = cc
Walks-deterministic {s} {w = w} (follow p r) (follow q r') =
    Walks-deterministic r (subst (λ x. Walks s x w) (some-injective _ _ (sym q ∙ p)) r')
Walks-deterministic (follow p r) (stop q) = cc
Walks-deterministic (stop p) (unbound q) = cc
Walks-deterministic (stop p) (follow q r) = cc
Walks-deterministic (stop p) (stop q) = refl
