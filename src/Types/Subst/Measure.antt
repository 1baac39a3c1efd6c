-- ===== src/Types/Subst/Measure.antt =====
-- The number of unbound variables below a bound, which each binding makes smaller.
use mathlib.Core.Option.{some-injective}
use tyra.Prelude.{
  ℕ, zero, suc, ◌+◌, ◌≤◌, ◌<◌, ◌≡◌, sym, ap, ◌∙◌, subst, Option, none, some, arith, inl, inr,
  nat_eq, nat_beq_iff, ◌==◌, Bool-cases,
}
use tyra.Prelude.Dict.{get, insert, get-insert, get-insert_self}
use tyra.Types.Ty.{Ty, Tys}
use tyra.Types.Subst.{Substitution}
use tyra.Types.Subst.Walks.{Walks, unbound, follow, stop}
use tyra.Types.Subst.Acyclic.{Mentions, MentionedIn}

abbrev pub WithinTy : ℕ → Ty → Type 0
WithinTy u t = (w : ℕ) → Mentions w t → w < u

abbrev pub WithinTys : ℕ → Tys → Type 0
WithinTys u ts = (w : ℕ) → MentionedIn w ts → w < u

-- All variables of the bound types are below `u`.
abbrev pub Within : ℕ → Substitution → Type 0
Within u s = (v : ℕ) (t : Ty) → get v s ≡ some t → WithinTy u t

pub Walks-WithinTy :
    {s : Substitution} {a b : Ty} (u : ℕ) → Within u s → Walks s a b → WithinTy u a → WithinTy u b
Walks-WithinTy u h (unbound p) k = k
Walks-WithinTy u h (follow {v} {t} p r) k = Walks-WithinTy u h r (h v t p)
Walks-WithinTy u h (stop p) k = k

pub Within-insert :
    (u i : ℕ) (t : Ty) (s : Substitution) → Within u s → WithinTy u t → Within u (insert i t s)
Within-insert u i t s h k v w p = elim (Bool-cases (i == v)) [
  | inl y ↦ subst (WithinTy u) (some-injective _ _ (rw (get-insert i v t s, y) at p)) k
  | inr n ↦ h v w (rw (get-insert i v t s, n) at p)
]

abbrev one_if_none : Option Ty → ℕ
one_if_none none = 1
one_if_none (some t) = 0

pub free : ℕ → Substitution → ℕ
free zero s = 0
free (suc n) s = one_if_none (get n s) + free n s

one-le :
    (i n : ℕ) (t : Ty) (s : Substitution)
    → one_if_none (get n (insert i t s)) ≤ one_if_none (get n s)
one-le i n t s = elim (Bool-cases (i == n)) [
  | inl y ↦ rw (get-insert i n t s, y) (omega arith)
  | inr m ↦ rw (get-insert i n t s, m) (omega arith)
]

free-insert_le : (u i : ℕ) (t : Ty) (s : Substitution) → free u (insert i t s) ≤ free u s
unfolding free
free-insert_le zero i t s = omega arith
free-insert_le (suc n) i t s = omega (arith, free-insert_le n i t s, one-le i n t s)

pub free-insert_lt :
    (u i : ℕ) (t : Ty) (s : Substitution)
    → i < u
    → get i s ≡ none
    → free u (insert i t s) < free u s
unfolding free
free-insert_lt zero i t s l p = absurd (omega arith)
free-insert_lt (suc n) i t s l p = elim (Bool-cases (i == n)) [
  | inl y ↦
      let q : i ≡ n = (nat_beq_iff i n).0 y in
      let a : one_if_none (get n s) ≡ 1 = ap one_if_none (ap (λ k. get k s) (sym q) ∙ p) in
      let b : one_if_none (get n (insert i t s)) ≡ 0 =
        ap one_if_none (ap (λ k. get k (insert i t s)) (sym q) ∙ get-insert_self i t s) in
      omega (arith, free-insert_le n i t s)
  | inr m ↦ omega (arith, free-insert_lt n i t s (ground arith) p, one-le i n t s)
]
