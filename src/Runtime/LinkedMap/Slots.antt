-- ===== src/Runtime/LinkedMap/Slots.antt =====
-- What the slots of an index say of a key: where it is reached, and when a probe has missed it.
use mathlib.Core.Option.{some-injective}
use tyra.Prelude.{
  ℕ, ◌+◌, ◌≤◌, ◌<◌, ◌≡◌, sym, ap, ◌∙◌, subst, some, List, ◌⊎◌, inl, inr, arith, ltb, ltb→lt,
  Bool-cases, get_elem?, set, get_elem?-set_self, get_elem?-set_ne, length, ◌==◌, nat_eq,
  nat_beq_iff,
}
use tyra.Runtime.LinkedMap.{IndexSlot, vacant, taken}
use tyra.Runtime.Probe.Mask.{around}

-- From all numbers below a number to those below the next.
pub below_next {ℓ} :
    (P : ℕ → Type ℓ) (d : ℕ) → ((e : ℕ) → e < d → P e) → P d → (e : ℕ) → e < d + 1 → P e
below_next P d h p e l = elim (Bool-cases (ltb e d)) [
  | inl y ↦ h e (ltb→lt e d y)
  | inr n ↦ let q : d ≡ e = ground arith in subst P q p
]

module _ {ℓ} {K : Type ℓ} (index : List (IndexSlot K)) where
  abbrev pub Holds : ℕ → K → ℕ → Type ℓ
  Holds slot key i = get_elem? index slot ≡ some (taken key i)

  abbrev pub IsVacant : ℕ → Type ℓ
  IsVacant slot = get_elem? index slot ≡ some vacant

  -- A probe from `start` comes to the key's slot and meets no vacant slot before.
  pub record Reach (cap start : ℕ) (key : K) (i : ℕ) : Type ℓ where
    pub steps : ℕ
    pub bound : steps < cap
    pub here : Holds (around cap start steps) key i
    pub passes : (e : ℕ) → e < steps → IsVacant (around cap start e) → ⊥

  -- A probe from `start` met the key nowhere before it stopped, behind a whole turn or at a vacant slot.
  pub record Missed (cap start : ℕ) (key : K) : Type ℓ where
    pub steps : ℕ
    pub bound : steps ≤ cap
    pub nowhere : (e : ℕ) → e < steps → (i : ℕ) → Holds (around cap start e) key i → ⊥
    pub stop : (steps ≡ cap) ⊎ IsVacant (around cap start steps)

  pub Missed-not-Reach :
      (cap start : ℕ) (key : K) (i : ℕ) → Missed cap start key → Reach cap start key i → ⊥
  Missed-not-Reach cap start key i m r = elim (Bool-cases (ltb r.steps m.steps)) [
    | inl y ↦ m.nowhere r.steps (ltb→lt r.steps m.steps y) i r.here
    | inr n ↦ elim m.stop [
      | inl e ↦ let b = r.bound in absurd (ground arith)
      | inr v ↦ elim (Bool-cases (ltb m.steps r.steps)) [
        | inl y ↦ r.passes m.steps (ltb→lt m.steps r.steps y) v
        | inr k ↦
            let e : m.steps ≡ r.steps = ground arith in
            let w = sym v ∙ ap (λ d. get_elem? index (around cap start d)) e ∙ r.here in absurd cc
      ]
    ]
  ]

module _ {ℓ} {K : Type ℓ} where
  -- Which slot a write leaves.
  pub written :
      (index : List (IndexSlot K)) (p q : ℕ) (x s : IndexSlot K)
      → get_elem? (set index p x) q ≡ some s
      → p < length index
      → ((p ≡ q) × (x ≡ s)) ⊎ ((p ≡ q → ⊥) × (get_elem? index q ≡ some s))
  written index p q x s g l = elim (Bool-cases (p == q)) [
    | inl y ↦
        let z = (nat_beq_iff p q).0 y in
        inl (
          z,
          some-injective _ _
              (sym (get_elem?-set_self index p x l) ∙ ap (get_elem? (set index p x)) z ∙ g),
        )
    | inr n ↦
        let f : p ≡ q → ⊥ = λ z. let t = (nat_beq_iff p q).1 z in absurd cc in
        inr (f, sym (get_elem?-set_ne index p q x f) ∙ g)
  ]
