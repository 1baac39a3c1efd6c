-- ===== src/Runtime/SortedMap/Keys.antt =====
-- Predicates on the keys of an array of entries, and the specification of a lookup.
use mathlib.Core.Option.{some-injective}
use tyra.Prelude.{
  subst, ℕ, zero, suc, ◌≡◌, true, Option, none, some, List, [], ◌∷◌, if◌then◌else◌, get_elem?,
}
use tyra.Runtime.Order.{Comparison, before, same_key}
use tyra.Runtime.SortedMap.{Entry}

module _ {ℓ} {K V : Type ℓ} where
  abbrev pub AllKeys : (K → Type 0) → List (Entry K V) → Type 0
  AllKeys P [] = Unit
  AllKeys P (e ∷ es) = P e.0 × AllKeys P es

  pub AllKeys-map :
      (P Q : K → Type 0)
      → ((k : K) → P k → Q k)
      → (es : List (Entry K V)) → AllKeys P es
      → AllKeys Q es
  AllKeys-map P Q h [] a = tt
  AllKeys-map P Q h (e ∷ es) (p, a) = (h e.0 p, AllKeys-map P Q h es a)

  pub AllKeys-get_elem? :
      (P : K → Type 0) (es : List (Entry K V)) (i : ℕ) (e : Entry K V)
      → AllKeys P es
      → get_elem? es i ≡ some e
      → P e.0
  AllKeys-get_elem? P [] i e a g = cc
  AllKeys-get_elem? P (d ∷ es) zero e a g =
      subst (λ (x : Entry K V). P x.0) (some-injective _ _ g) a.0
  AllKeys-get_elem? P (d ∷ es) (suc i) e a g = AllKeys-get_elem? P es i e a.1 g

module _ {ℓ} {K V : Type ℓ} ⦃o : Comparison K⦄ where
  abbrev pub Below : K → List (Entry K V) → Type 0
  Below key es = AllKeys (λ k. before k key ≡ true) es

  abbrev pub Above : K → List (Entry K V) → Type 0
  Above key es = AllKeys (λ k. before key k ≡ true) es

  -- Strictly ascending keys.
  abbrev pub IsSorted : List (Entry K V) → Type 0
  IsSorted [] = Unit
  IsSorted (e ∷ es) = Above e.0 es × IsSorted es

  -- The specification: the value of the first entry with the key.
  unfoldable pub find : K → List (Entry K V) → Option V
  find key [] = none
  find key ((k, v) ∷ es) = if same_key k key then some v else find key es
