-- ===== src/Prelude/Dict.antt =====
-- `std::collections::HashMap` as the code uses it: an association list with one entry per key.
use mathlib.Core.Path.{◌≡◌, refl, subst}
use mathlib.Core.Logic.{inl, inr}
use mathlib.Core.Bool.{Bool, true, false}
use mathlib.Core.Option.{Option, none, some, some-injective}
use mathlib.Core.List.{List, [], ◌∷◌}
use native.Mathlib.Omega.{arith}
use tyra.Prelude.Tests.{KeyEq, ◌==◌, if◌then◌else◌, is_some, beq_refl, Bool-cases}

abbrev pub Dict {ℓ κ} : Type ℓ → Type κ → Type (ℓ ⊔ κ)
Dict K V = List (K × V)

module _ {ℓ κ} {K : Type ℓ} {V : Type κ} ⦃e : KeyEq K⦄ where
  unfoldable pub get : K → Dict K V → Option V
  get k [] = none
  get k ((j, v) ∷ m) = if j == k then some v else get k m

  unfoldable pub insert : K → V → Dict K V → Dict K V
  insert k v [] = (k, v) ∷ []
  insert k v ((j, w) ∷ m) = if j == k then (k, v) ∷ m else (j, w) ∷ insert k v m

  unfoldable pub contains_key : K → Dict K V → Bool
  contains_key k [] = false
  contains_key k ((j, v) ∷ m) = if j == k then true else contains_key k m

  pub get-insert :
      (k j : K) (v : V) (m : Dict K V) → get j (insert k v m) ≡ (if k == j then some v else get j m)
  unfolding get insert
  get-insert k j v [] = refl
  get-insert k j v ((i, w) ∷ m) =
      ground (arith, e.beq_iff k j, e.beq_iff i k, e.beq_iff i j, get-insert k j v m)

  pub get-insert_self : (k : K) (v : V) (m : Dict K V) → get k (insert k v m) ≡ some v
  get-insert_self k v m = simp (get-insert, beq_refl k)

  pub contains_key-get : (k : K) (m : Dict K V) → contains_key k m ≡ is_some (get k m)
  unfolding get contains_key
  contains_key-get k [] = refl
  contains_key-get k ((j, w) ∷ m) = ground (arith, contains_key-get k m)

  -- Every entry passes the test.
  unfoldable pub all_entries : (K → V → Bool) → Dict K V → Bool
  all_entries t [] = true
  all_entries t ((k, v) ∷ m) = if t k v then all_entries t m else false

  pub get-all_entries :
      (t : K → V → Bool) (k : K) (v : V) (m : Dict K V)
      → all_entries t m ≡ true
      → get k m ≡ some v
      → t k v ≡ true
  unfolding get all_entries
  get-all_entries t k v [] a h = absurd cc
  get-all_entries t k v ((j, w) ∷ m) a h = elim (Bool-cases (t j w)) [
    | inr f ↦ let g : false ≡ true = (rw f at a) in absurd cc
    | inl p ↦ elim (Bool-cases (j == k)) [
      | inl y ↦
          let g : some w ≡ some v = (rw y at h) in
          subst (λ i. t i v ≡ true) ((e.beq_iff j k).0 y)
            (subst (λ u. t j u ≡ true) (some-injective _ _ g) p)
      | inr n ↦ get-all_entries t k v m (rw p at a) (rw n at h)
    ]
  ]
