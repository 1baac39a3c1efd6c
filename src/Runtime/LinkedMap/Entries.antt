-- ===== src/Runtime/LinkedMap/Entries.antt =====
-- The entries of a linked map as the ordered list of the live ones.
use tyra.Prelude.{
  ℕ, zero, suc, ◌+◌, ◌<◌, ◌≡◌, ◌≤◌, refl, sym, ap, ◌∙◌, true, false, none, some, List, [], ◌∷◌,
  ◌++◌, inl, inr, arith, Bool-cases, get_elem?, length, KeyEq, ◌==◌, nat_eq, beq_eq, beq_ne,
  if◌then◌else◌,
}
use tyra.Prelude.Dict.{Dict, get, insert}
use tyra.Runtime.LinkedMap.{Entry, compact, new_idx_loop, set_val, clear_key}

module _ {ℓ} {K V : Type ℓ} where
  -- The pairs of the entries whose key is not null, in their order.
  unfoldable pub pairs : List (Entry K V) → Dict K V
  pairs [] = []
  pairs ((none, v) ∷ es) = pairs es
  pairs ((some k, v) ∷ es) = (k, v) ∷ pairs es

  -- A list of pairs as entries.
  unfoldable pub boxed : Dict K V → List (Entry K V)
  boxed [] = []
  boxed ((k, v) ∷ m) = (some k, v) ∷ boxed m

  pub compact-boxed : (es : List (Entry K V)) → compact es ≡ boxed (pairs es)
  unfolding compact pairs boxed
  compact-boxed [] = refl
  compact-boxed ((none, v) ∷ es) = compact-boxed es
  compact-boxed ((some k, v) ∷ es) = ap (λ l. (some k, v) ∷ l) (compact-boxed es)

  pub pairs-boxed : (m : Dict K V) → pairs (boxed m) ≡ m
  unfolding pairs boxed
  pairs-boxed [] = refl
  pairs-boxed ((k, v) ∷ m) = ap (λ l. (k, v) ∷ l) (pairs-boxed m)

  pub length-boxed : (m : Dict K V) → length (boxed m) ≡ length m
  unfolding boxed
  length-boxed [] = refl
  length-boxed ((k, v) ∷ m) = ap suc (length-boxed m)

  pub boxed-append : (m n : Dict K V) → boxed (m ++ n) ≡ boxed m ++ boxed n
  unfolding boxed
  boxed-append [] n = refl
  boxed-append ((k, v) ∷ m) n = ap (λ l. (some k, v) ∷ l) (boxed-append m n)

  -- A key stands in one entry at most.
  abbrev pub Distinct : List (Entry K V) → Type ℓ
  Distinct es =
      (i j : ℕ) (k : K) (v w : V)
      → get_elem? es i ≡ some (some k, v)
      → get_elem? es j ≡ some (some k, w)
      → i ≡ j

  pub Distinct-tail : (e : Entry K V) (es : List (Entry K V)) → Distinct (e ∷ es) → Distinct es
  Distinct-tail e es d i j k v w p q = let s = d (suc i) (suc j) k v w p q in omega arith

  -- How many of the first entries are live.
  abbrev pub live_before : List (Entry K V) → ℕ → ℕ
  live_before [] i = 0
  live_before (e ∷ es) zero = 0
  live_before ((none, v) ∷ es) (suc i) = live_before es i
  live_before ((some k, v) ∷ es) (suc i) = suc (live_before es i)

  new_idx_loop-past :
      (es : List (Entry K V)) (i src dst at : ℕ) → i < src → new_idx_loop es i src dst at ≡ at
  unfolding new_idx_loop
  new_idx_loop-past [] i src dst at l = refl
  new_idx_loop-past ((none, v) ∷ es) i src dst at l =
      new_idx_loop-past es i (src + 1) dst at (omega arith)
  new_idx_loop-past ((some k, v) ∷ es) i src dst at l =
      let n : (src == i) ≡ false = ground arith in
      rw n (new_idx_loop-past es i (src + 1) (dst + 1) at (omega arith))

  pub new_idx_loop-live :
      (es : List (Entry K V)) (i j src dst at : ℕ) (k : K) (v : V)
      → get_elem? es j ≡ some (some k, v)
      → i ≡ src + j
      → new_idx_loop es i src dst at ≡ dst + live_before es j
  unfolding new_idx_loop
  new_idx_loop-live [] i j src dst at k v g e = absurd cc
  new_idx_loop-live ((none, w) ∷ es) i zero src dst at k v g e = absurd cc
  new_idx_loop-live ((some x, w) ∷ es) i zero src dst at k v g e =
      let y : (src == i) ≡ true = ground arith in
      rw y (new_idx_loop-past es i (src + 1) (dst + 1) dst (omega arith) ∙ omega arith)
  new_idx_loop-live ((none, w) ∷ es) i (suc j) src dst at k v g e =
      new_idx_loop-live es i j (src + 1) dst at k v g (omega arith)
  new_idx_loop-live ((some x, w) ∷ es) i (suc j) src dst at k v g e =
      new_idx_loop-live es i j (src + 1) (dst + 1) _ k v g (omega arith) ∙ omega arith

module _ {ℓ} {K V : Type ℓ} ⦃e : KeyEq K⦄ where
  -- The specification of `remove`.
  unfoldable pub erase : K → Dict K V → Dict K V
  erase k [] = []
  erase k ((j, w) ∷ m) = let rest = erase k m in if j == k then rest else (j, w) ∷ rest

  -- The key of the first entry is not the key of a later one.
  head_ne :
      (es : List (Entry K V)) (y k : K) (x w : V) (j : ℕ)
      → Distinct ((some y, x) ∷ es)
      → get_elem? es j ≡ some (some k, w)
      → (y == k) ≡ false
  head_ne es y k x w j d g =
      beq_ne y k
        (λ q. let z = d 0 (suc j) k x w (ap (λ u. some (some u, x)) q) g in absurd (omega arith))

  pub set_val-insert :
      (es : List (Entry K V)) (j : ℕ) (k : K) (v w : V)
      → Distinct es
      → get_elem? es j ≡ some (some k, w)
      → set_val (boxed (pairs es)) (live_before es j) v ≡ boxed (insert k v (pairs es))
  unfolding set_val boxed pairs insert
  set_val-insert [] j k v w d g = absurd cc
  set_val-insert ((none, x) ∷ es) zero k v w d g = absurd cc
  set_val-insert ((some y, x) ∷ es) zero k v w d g =
      let q : y ≡ k = cc in rw (beq_eq y k q) (ap (λ u. (some u, v) ∷ boxed (pairs es)) q)
  set_val-insert ((none, x) ∷ es) (suc j) k v w d g =
      set_val-insert es j k v w (Distinct-tail _ es d) g
  set_val-insert ((some y, x) ∷ es) (suc j) k v w d g =
      rw (head_ne es y k x w j d g)
        (ap (λ l. (some y, x) ∷ l) (set_val-insert es j k v w (Distinct-tail _ es d) g))

  pub get-pairs-some :
      (es : List (Entry K V)) (j : ℕ) (k : K) (w : V)
      → Distinct es
      → get_elem? es j ≡ some (some k, w)
      → get k (pairs es) ≡ some w
  unfolding pairs get
  get-pairs-some [] j k w d g = absurd cc
  get-pairs-some ((none, x) ∷ es) zero k w d g = absurd cc
  get-pairs-some ((some y, x) ∷ es) zero k w d g =
      let q : y ≡ k = cc in let r : x ≡ w = cc in rw (beq_eq y k q) (ap some r)
  get-pairs-some ((none, x) ∷ es) (suc j) k w d g = get-pairs-some es j k w (Distinct-tail _ es d) g
  get-pairs-some ((some y, x) ∷ es) (suc j) k w d g =
      rw (head_ne es y k x w j d g) (get-pairs-some es j k w (Distinct-tail _ es d) g)

  pub get-pairs-none :
      (es : List (Entry K V)) (k : K)
      → ((j : ℕ) (w : V) → get_elem? es j ≡ some (some k, w) → ⊥)
      → get k (pairs es) ≡ none
  unfolding pairs get
  get-pairs-none [] k n = refl
  get-pairs-none ((none, x) ∷ es) k n = get-pairs-none es k (λ j. n (suc j))
  get-pairs-none ((some y, x) ∷ es) k n =
      rw (beq_ne y k (λ q. n 0 x (ap (λ u. some (some u, x)) q)))
        (get-pairs-none es k (λ j. n (suc j)))

  pub insert_absent :
      (k : K) (v : V) (m : Dict K V) → get k m ≡ none → insert k v m ≡ m ++ ((k, v) ∷ [])
  unfolding get insert
  insert_absent k v [] h = refl
  insert_absent k v ((j, w) ∷ m) h = elim (Bool-cases (j == k)) [
    | inl y ↦ let g : some w ≡ none = (rw y at h) in absurd cc
    | inr n ↦ rw n (ap (λ l. (j, w) ∷ l) (insert_absent k v m (rw n at h)))
  ]

  pub length-insert_present :
      (k : K) (v w : V) (m : Dict K V) → get k m ≡ some w → length (insert k v m) ≡ length m
  unfolding get insert
  length-insert_present k v w [] h = absurd cc
  length-insert_present k v w ((j, x) ∷ m) h = elim (Bool-cases (j == k)) [
    | inl y ↦ rw y refl
    | inr n ↦ rw n (ap suc (length-insert_present k v w m (rw n at h)))
  ]

  pub length-insert : (k : K) (v : V) (m : Dict K V) → length (insert k v m) ≤ suc (length m)
  unfolding insert
  length-insert k v [] = omega arith
  length-insert k v ((j, w) ∷ m) =
      let l = length-insert k v m in
      elim (Bool-cases (j == k)) [ inl y ↦ rw y (omega arith) | inr n ↦ rw n (omega arith) ]

  pub length-erase : (k : K) (m : Dict K V) → length (erase k m) ≤ length m
  unfolding erase
  length-erase k [] = omega arith
  length-erase k ((j, w) ∷ m) =
      let l = length-erase k m in
      elim (Bool-cases (j == k)) [ inl y ↦ rw y (omega arith) | inr n ↦ rw n (omega arith) ]

  pub erase_absent : (k : K) (m : Dict K V) → get k m ≡ none → erase k m ≡ m
  unfolding get erase
  erase_absent k [] h = refl
  erase_absent k ((j, w) ∷ m) h = elim (Bool-cases (j == k)) [
    | inl y ↦ let g : some w ≡ none = (rw y at h) in absurd cc
    | inr n ↦ rw n (ap (λ l. (j, w) ∷ l) (erase_absent k m (rw n at h)))
  ]

  pub pairs-clear_key :
      (es : List (Entry K V)) (j : ℕ) (k : K) (w : V)
      → Distinct es
      → get_elem? es j ≡ some (some k, w)
      → pairs (clear_key es j) ≡ erase k (pairs es)
  unfolding pairs clear_key erase
  pairs-clear_key [] j k w d g = absurd cc
  pairs-clear_key ((none, x) ∷ es) zero k w d g = absurd cc
  pairs-clear_key ((some y, x) ∷ es) zero k w d g =
      let q : y ≡ k = cc in
      let n =
        get-pairs-none es k (λ j u h. let z = d 0 (suc j) k w u g h in absurd (omega arith)) in
      rw (beq_eq y k q) (sym (erase_absent k (pairs es) n))
  pairs-clear_key ((none, x) ∷ es) (suc j) k w d g =
      pairs-clear_key es j k w (Distinct-tail _ es d) g
  pairs-clear_key ((some y, x) ∷ es) (suc j) k w d g =
      rw (head_ne es y k x w j d g)
        (ap (λ l. (y, x) ∷ l) (pairs-clear_key es j k w (Distinct-tail _ es d) g))

module _ {ℓ} {K V : Type ℓ} where
  pub length-clear_key : (es : List (Entry K V)) (j : ℕ) → length (clear_key es j) ≡ length es
  unfolding clear_key
  length-clear_key [] j = refl
  length-clear_key ((k, w) ∷ es) zero = refl
  length-clear_key ((k, w) ∷ es) (suc j) = ap suc (length-clear_key es j)

  pub length-pairs-clear_key :
      (es : List (Entry K V)) (j : ℕ) (k : K) (w : V)
      → get_elem? es j ≡ some (some k, w)
      → suc (length (pairs (clear_key es j))) ≡ length (pairs es)
  unfolding pairs clear_key
  length-pairs-clear_key [] j k w g = absurd cc
  length-pairs-clear_key ((none, x) ∷ es) zero k w g = absurd cc
  length-pairs-clear_key ((some y, x) ∷ es) zero k w g = refl
  length-pairs-clear_key ((none, x) ∷ es) (suc j) k w g = length-pairs-clear_key es j k w g
  length-pairs-clear_key ((some y, x) ∷ es) (suc j) k w g =
      ap suc (length-pairs-clear_key es j k w g)

  pub get_elem?-clear_key_self :
      (es : List (Entry K V)) (j : ℕ) (k : K) (w : V)
      → get_elem? (clear_key es j) j ≡ some (some k, w)
      → ⊥
  unfolding clear_key
  get_elem?-clear_key_self [] j k w g = absurd cc
  get_elem?-clear_key_self ((x, y) ∷ es) zero k w g = absurd cc
  get_elem?-clear_key_self ((x, y) ∷ es) (suc j) k w g = get_elem?-clear_key_self es j k w g

  pub get_elem?-clear_key_ne :
      (es : List (Entry K V)) (j i : ℕ)
      → (j ≡ i → ⊥)
      → get_elem? (clear_key es j) i ≡ get_elem? es i
  unfolding clear_key
  get_elem?-clear_key_ne [] j i n = refl
  get_elem?-clear_key_ne ((x, y) ∷ es) zero zero n = absurd (n refl)
  get_elem?-clear_key_ne ((x, y) ∷ es) zero (suc i) n = refl
  get_elem?-clear_key_ne ((x, y) ∷ es) (suc j) zero n = refl
  get_elem?-clear_key_ne ((x, y) ∷ es) (suc j) (suc i) n =
      get_elem?-clear_key_ne es j i (λ q. n (ap suc q))
