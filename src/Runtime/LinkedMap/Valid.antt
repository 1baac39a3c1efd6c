-- ===== src/Runtime/LinkedMap/Valid.antt =====
-- Valid linked maps: no key stands twice, and the index leads to every entry.
use tyra.Prelude.{
  ℕ, zero, suc, ◌<◌, ◌≡◌, refl, sym, ap, ◌∙◌, none, some, List, [], ◌∷◌, inl, inr, arith,
  Bool-cases, get_elem?, get_elem?-set_ne, get_elem?-bound, set, length, length-set, KeyEq, ◌==◌,
  nat_eq, beq_eq, beq_ne, if◌then◌else◌,
}
use tyra.Prelude.Dict.{Dict, get, insert, get-insert}
use tyra.Runtime.LinkedMap.{Entry, IndexSlot, vacant, taken, deleted, clear_key}
use tyra.Runtime.LinkedMap.Slots.{Holds, Reach, written}
use tyra.Runtime.LinkedMap.Entries.{
  pairs, erase, Distinct, get_elem?-clear_key_self, get_elem?-clear_key_ne,
}
use tyra.Runtime.Probe.{Hashing, home}
use tyra.Runtime.Probe.Mask.{around}

module _ {ℓ} {K V : Type ℓ} ⦃e : KeyEq K⦄ where
  -- A key stands in one pair at most.
  unfoldable pub IsUnique : Dict K V → Type ℓ
  IsUnique [] = Unit
  IsUnique ((k, v) ∷ m) = (get k m ≡ none) × IsUnique m

  pub get-erase : (k j : K) (m : Dict K V) → get j (erase k m) ≡ (if k == j then none else get j m)
  unfolding get erase
  get-erase k j [] = ground arith
  get-erase k j ((i, w) ∷ m) =
      ground (arith, e.beq_iff k j, e.beq_iff i k, e.beq_iff i j, get-erase k j m)

  pub insert-IsUnique : (k : K) (v : V) (m : Dict K V) → IsUnique m → IsUnique (insert k v m)
  unfolding IsUnique insert get
  insert-IsUnique k v [] u = (refl, tt)
  insert-IsUnique k v ((j, w) ∷ m) u = elim (Bool-cases (j == k)) [
    | inl y ↦ rw y (ap (λ x. get x m) (sym ((e.beq_iff j k).0 y)) ∙ u.0, u.1)
    | inr n ↦
        let f = beq_ne k j (λ q. let t = beq_eq j k (sym q) in absurd cc) in
        rw n (get-insert k j v m ∙ rw f u.0, insert-IsUnique k v m u.1)
  ]

  pub erase-IsUnique : (k : K) (m : Dict K V) → IsUnique m → IsUnique (erase k m)
  unfolding IsUnique erase
  erase-IsUnique k [] u = tt
  erase-IsUnique k ((j, w) ∷ m) u = elim (Bool-cases (j == k)) [
    | inl y ↦ rw y (erase-IsUnique k m u.1)
    | inr n ↦
        let f = beq_ne k j (λ q. let t = beq_eq j k (sym q) in absurd cc) in
        rw n (get-erase k j m ∙ rw f u.0, erase-IsUnique k m u.1)
  ]

  get-some :
      (es : List (Entry K V)) (j : ℕ) (k : K) (w : V)
      → get_elem? es j ≡ some (some k, w)
      → get k (pairs es) ≡ none
      → ⊥
  unfolding pairs get
  get-some [] j k w g n = absurd cc
  get-some ((none, x) ∷ es) zero k w g n = absurd cc
  get-some ((some y, x) ∷ es) zero k w g n =
      let q : y ≡ k = cc in let z : some x ≡ none = (rw (beq_eq y k q) at n) in absurd cc
  get-some ((none, x) ∷ es) (suc j) k w g n = get-some es j k w g n
  get-some ((some y, x) ∷ es) (suc j) k w g n = elim (Bool-cases (y == k)) [
    | inl t ↦ let z : some x ≡ none = (rw t at n) in absurd cc
    | inr f ↦ get-some es j k w g (rw f at n)
  ]

  pub IsUnique-Distinct : (es : List (Entry K V)) → IsUnique (pairs es) → Distinct es
  unfolding IsUnique pairs
  IsUnique-Distinct [] u i j k v w p q = absurd cc
  IsUnique-Distinct ((none, x) ∷ es) u zero j k v w p q = absurd cc
  IsUnique-Distinct ((none, x) ∷ es) u (suc i) zero k v w p q = absurd cc
  IsUnique-Distinct ((none, x) ∷ es) u (suc i) (suc j) k v w p q =
      ap suc (IsUnique-Distinct es u i j k v w p q)
  IsUnique-Distinct ((some y, x) ∷ es) u zero zero k v w p q = refl
  IsUnique-Distinct ((some y, x) ∷ es) u zero (suc j) k v w p q =
      let z : y ≡ k = cc in absurd (get-some es j k w q (ap (λ t. get t (pairs es)) (sym z) ∙ u.0))
  IsUnique-Distinct ((some y, x) ∷ es) u (suc i) zero k v w p q =
      let z : y ≡ k = cc in absurd (get-some es i k v p (ap (λ t. get t (pairs es)) (sym z) ∙ u.0))
  IsUnique-Distinct ((some y, x) ∷ es) u (suc i) (suc j) k v w p q =
      ap suc (IsUnique-Distinct es u.1 i j k v w p q)

module _ {ℓ} {K V : Type ℓ} ⦃h : Hashing K⦄ where
  -- The index leads to the first `n` entries, and nowhere else.
  pub record IsIndexed (es : List (Entry K V)) (n : ℕ) (index : List (IndexSlot K)) (cap : ℕ)
      : Type ℓ where
    pub sized : length index ≡ cap
    pub points :
        (p : ℕ) (k : K) (i : ℕ)
        → Holds index p k i
        → (i < n) × (v : V) × (get_elem? es i ≡ some (some k, v))
    pub once : (p q : ℕ) (k j : K) (i : ℕ) → Holds index p k i → Holds index q j i → p ≡ q
    pub reach :
        (i : ℕ) (k : K) (v : V)
        → i < n
        → get_elem? es i ≡ some (some k, v)
        → Reach index cap (home cap k) k i

  -- Marking the slot of an entry keeps the index of the entries without it.
  pub clear-IsIndexed :
      (es : List (Entry K V)) (n : ℕ) (index : List (IndexSlot K)) (cap p : ℕ) (key : K) (i : ℕ)
      → IsIndexed es n index cap
      → Holds index p key i
      → IsIndexed (clear_key es i) n (set index p deleted) cap
  clear-IsIndexed es n index cap p key i x was = record {
    sized = length-set index p deleted ∙ x.sized;
    points = λ q k j g. points q k j (old q k j g);
    once = λ q r k l j g f. x.once q r k l j (old q k j g).1 (old r l j f).1;
    reach = λ j k v l g. reach j k v l g;
  }
    where
      inside : p < length index
      inside = get_elem?-bound index p (taken key i) was

      old :
          (q : ℕ) (k : K) (j : ℕ)
          → Holds (set index p deleted) q k j
          → (p ≡ q → ⊥) × Holds index q k j
      old q k j g = elim (written index p q deleted (taken k j) g inside) [
        | inl (a, b) ↦ absurd cc
        | inr c ↦ c
      ]

      points :
          (q : ℕ) (k : K) (j : ℕ)
          → (p ≡ q → ⊥) × Holds index q k j
          → (j < n) × (v : V) × (get_elem? (clear_key es i) j ≡ some (some k, v))
      points q k j (f, g) =
          let (l, v, a) = x.points q k j g in
          (
            l,
            v,
            get_elem?-clear_key_ne es i j
                  (λ z. f (x.once p q key k j (was ∙ ap (λ t. some (taken key t)) z) g))
                ∙ a,
          )

      reach :
          (j : ℕ) (k : K) (v : V)
          → j < n
          → get_elem? (clear_key es i) j ≡ some (some k, v)
          → Reach (set index p deleted) cap (home cap k) k j
      reach j k v l g =
          let ne : i ≡ j → ⊥ =
            λ z. get_elem?-clear_key_self es i k v (ap (get_elem? (clear_key es i)) z ∙ g) in
          let r = x.reach j k v l (sym (get_elem?-clear_key_ne es i j ne) ∙ g) in
          let away : p ≡ around cap (home cap k) r.steps → ⊥ =
            λ z. let w = sym was ∙ ap (get_elem? index) z ∙ r.here in let t : i ≡ j = cc in ne t in
          record {
            steps = r.steps;
            bound = r.bound;
            here = get_elem?-set_ne index p _ deleted away ∙ r.here;
            passes = λ d b vac. elim (written index p _ deleted vacant vac inside) [
              | inl (a, c) ↦ absurd cc
              | inr c ↦ r.passes d b c.1
            ];
          }
