-- ===== src/Runtime/SortedMap/Edits.antt =====
-- The three edits of a sorted array: a new value, a new entry, an entry less.
use mathlib.Core.Option.{some-injective}
use tyra.Prelude.{
  ℕ, zero, suc, ◌≡◌, refl, ap, subst, Bool, true, false, Option, none, some, List, [], ◌∷◌, ◌++◌,
  if◌then◌else◌, length, get_elem?, take, drop, nat_eq,
}
use tyra.Runtime.Order.{
  Comparison, before, same_key, same_key_iff, same_key-before, same_key-after, same_key_apart,
}
use tyra.Runtime.SortedMap.{Entry, set_val}
use tyra.Runtime.SortedMap.Keys.{AllKeys, AllKeys-get_elem?, Below, Above, IsSorted, find}

module _ {ℓ} {A : Type ℓ} where
  if_twice : (b : Bool) (x y z : A) → (if b then x else z) ≡ (if b then x else if b then y else z)
  if_twice true x y z = refl
  if_twice false x y z = refl

  if_swap :
      (b c : Bool) (x y z : A)
      → (b ≡ true → c ≡ false)
      → (if b then x else if c then y else z) ≡ (if c then y else if b then x else z)
  if_swap true c x y z h = rw (h refl)
  if_swap false c x y z h = refl

  if_absent :
      (b : Bool) (x : Option A) (z : Option A)
      → (b ≡ true → z ≡ none)
      → z ≡ (if b then none else if b then x else z)
  if_absent true x z h = h refl
  if_absent false x z h = refl

module _ {ℓ} {K V : Type ℓ} where
  pub length-set_val : (es : List (Entry K V)) (i : ℕ) (v : V) → length (set_val es i v) ≡ length es
  length-set_val [] i v = refl
  length-set_val (e ∷ es) zero v = refl
  length-set_val (e ∷ es) (suc i) v = ap suc (length-set_val es i v)

  AllKeys-set_val :
      (P : K → Type 0) (es : List (Entry K V)) (i : ℕ) (v : V)
      → AllKeys P es
      → AllKeys P (set_val es i v)
  AllKeys-set_val P [] i v a = a
  AllKeys-set_val P (e ∷ es) zero v a = a
  AllKeys-set_val P (e ∷ es) (suc i) v a = (a.0, AllKeys-set_val P es i v a.1)

  -- With an entry put in, or with one left out, the predicate still holds.
  AllKeys-insert :
      (P : K → Type 0) (es : List (Entry K V)) (i : ℕ) (key : K) (v : V)
      → P key
      → AllKeys P es
      → AllKeys P (take i es ++ (key, v) ∷ drop i es)
  AllKeys-insert P es zero key v p a = (p, a)
  AllKeys-insert P [] (suc i) key v p a = (p, a)
  AllKeys-insert P (e ∷ es) (suc i) key v p a = (a.0, AllKeys-insert P es i key v p a.1)

  AllKeys-erase :
      (P : K → Type 0) (es : List (Entry K V)) (i : ℕ)
      → AllKeys P es
      → AllKeys P (take i es ++ drop (suc i) es)
  AllKeys-erase P [] zero a = a
  AllKeys-erase P [] (suc i) a = a
  AllKeys-erase P (e ∷ es) zero a = a.1
  AllKeys-erase P (e ∷ es) (suc i) a = (a.0, AllKeys-erase P es i a.1)

  pub length-insert :
      (es : List (Entry K V)) (i : ℕ) (e : Entry K V)
      → length (take i es ++ e ∷ drop i es) ≡ suc (length es)
  length-insert es zero e = refl
  length-insert [] (suc i) e = refl
  length-insert (d ∷ es) (suc i) e = ap suc (length-insert es i e)

  pub length-erase :
      (es : List (Entry K V)) (i : ℕ) {e : Entry K V}
      → get_elem? es i ≡ some e
      → suc (length (take i es ++ drop (suc i) es)) ≡ length es
  length-erase [] i g = cc
  length-erase (d ∷ es) zero g = refl
  length-erase (d ∷ es) (suc i) g = ap suc (length-erase es i g)

module _ {ℓ} {K V : Type ℓ} ⦃o : Comparison K⦄ where
  pub IsSorted-set_val :
      (es : List (Entry K V)) (i : ℕ) (v : V) → IsSorted es → IsSorted (set_val es i v)
  IsSorted-set_val [] i v h = h
  IsSorted-set_val (e ∷ es) zero v h = h
  IsSorted-set_val (e ∷ es) (suc i) v h =
      (AllKeys-set_val (λ k. before e.0 k ≡ true) es i v h.0, IsSorted-set_val es i v h.1)

  pub IsSorted-insert :
      (es : List (Entry K V)) (i : ℕ) (key : K) (v : V)
      → IsSorted es
      → Below key (take i es)
      → Above key (drop i es)
      → IsSorted (take i es ++ (key, v) ∷ drop i es)
  IsSorted-insert es zero key v h b a = (a, h)
  IsSorted-insert [] (suc i) key v h b a = (tt, tt)
  IsSorted-insert (e ∷ es) (suc i) key v h b a = (
    AllKeys-insert (λ k. before e.0 k ≡ true) es i key v b.0 h.0,
    IsSorted-insert es i key v h.1 b.1 a,
  )

  pub IsSorted-erase :
      (es : List (Entry K V)) (i : ℕ) → IsSorted es → IsSorted (take i es ++ drop (suc i) es)
  IsSorted-erase [] zero h = h
  IsSorted-erase [] (suc i) h = h
  IsSorted-erase (e ∷ es) zero h = h.1
  IsSorted-erase (e ∷ es) (suc i) h =
      (AllKeys-erase (λ k. before e.0 k ≡ true) es i h.0, IsSorted-erase es i h.1)

  pub find-Above : (key : K) (es : List (Entry K V)) → Above key es → find key es ≡ none
  unfolding find
  find-Above key [] a = refl
  find-Above key (e ∷ es) (p, a) = rw (same_key-after e.0 key p, find) (find-Above key es a)

  -- Entries below the key are passed over.
  pub find-Below :
      (key : K) (es : List (Entry K V)) (i : ℕ)
      → Below key (take i es)
      → find key es ≡ find key (drop i es)
  unfolding find
  find-Below key es zero b = refl
  find-Below key [] (suc i) b = refl
  find-Below key (e ∷ es) (suc i) b =
      rw (same_key-before e.0 key b.0, find) (find-Below key es i b.1)

  find-eq-none_same :
      (e : Entry K V) (j : K) (es : List (Entry K V))
      → Above e.0 es
      → same_key e.0 j ≡ true
      → find j es ≡ none
  find-eq-none_same e j es a c =
      find-Above j es (subst (λ k. Above k es) ((same_key_iff e.0 j).0 c) a)

  pub find-set_val :
      (j : K) (es : List (Entry K V)) (i : ℕ) (v : V) (e : Entry K V)
      → IsSorted es
      → get_elem? es i ≡ some e
      → find j (set_val es i v) ≡ (if same_key e.0 j then some v else find j es)
  unfolding find
  find-set_val j [] i v e h g = cc
  find-set_val j (d ∷ es) zero v e h g =
      subst
        (λ (x : Entry K V).
          find j ((d.0, v) ∷ es) ≡ (if same_key x.0 j then some v else find j (d ∷ es)))
        (some-injective _ _ g) (if_twice (same_key d.0 j) (some v) (some d.1) (find j es))
  find-set_val j (d ∷ es) (suc i) v e h g = rw (find-set_val j es i v e h.1 g) (
      if_swap (same_key d.0 j) (same_key e.0 j) (some d.1) (some v) (find j es)
        (same_key_apart d.0 e.0 j (AllKeys-get_elem? (λ k. before d.0 k ≡ true) es i e h.0 g)))

  pub find-insert :
      (j : K) (es : List (Entry K V)) (i : ℕ) (key : K) (v : V)
      → Below key (take i es)
      → find j (take i es ++ (key, v) ∷ drop i es) ≡ (if same_key key j then some v else find j es)
  unfolding find
  find-insert j es zero key v b = refl
  find-insert j [] (suc i) key v b = refl
  find-insert j (d ∷ es) (suc i) key v b = rw (find-insert j es i key v b.1) (
      if_swap (same_key d.0 j) (same_key key j) (some d.1) (some v) (find j es)
        (same_key_apart d.0 key j b.0))

  pub find-erase :
      (j : K) (es : List (Entry K V)) (i : ℕ) (e : Entry K V)
      → IsSorted es
      → get_elem? es i ≡ some e
      → find j (take i es ++ drop (suc i) es) ≡ (if same_key e.0 j then none else find j es)
  unfolding find
  find-erase j [] i e h g = cc
  find-erase j (d ∷ es) zero e h g =
      subst (λ (x : Entry K V). find j es ≡ (if same_key x.0 j then none else find j (d ∷ es)))
        (some-injective _ _ g)
        (if_absent (same_key d.0 j) (some d.1) (find j es) (find-eq-none_same d j es h.0))
  find-erase j (d ∷ es) (suc i) e h g = rw (find-erase j es i e h.1 g) (
      if_swap (same_key d.0 j) (same_key e.0 j) (some d.1) none (find j es)
        (same_key_apart d.0 e.0 j (AllKeys-get_elem? (λ k. before d.0 k ≡ true) es i e h.0 g)))
