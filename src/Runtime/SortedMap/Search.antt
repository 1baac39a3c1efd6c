-- ===== src/Runtime/SortedMap/Search.antt =====
-- The binary search: on a sorted array it ends without a read outside of it, at the key or at the
-- place where the key would stand.
use mathlib.Core.Option.{some-injective}
use tyra.Prelude.{
  ℕ, zero, suc, ◌+◌, ◌-◌, ◌/◌, ◌≤◌, ◌<◌, ◌≡◌, refl, sym, ◌∙◌, subst, true, some, List, [], ◌∷◌,
  arith, length, get_elem?, take, drop, ltb, ltb→lt, inl, inr, Bool-cases, get_elem?-some, ◌==◌,
  nat_eq,
}
use tyra.Runtime.Run.{Run, ok}
use tyra.Runtime.Order.{Comparison, before, after, after-before, eq_of_neither}
use tyra.Runtime.SortedMap.{Entry, Slot, found, absent, search_loop, binary_search}
use tyra.Runtime.SortedMap.Keys.{AllKeys, AllKeys-map, AllKeys-get_elem?, Below, Above, IsSorted}

module _ {ℓ} {K V : Type ℓ} where
  AllKeys-take-suc :
      (P : K → Type 0) (es : List (Entry K V)) (i n : ℕ) (e : Entry K V)
      → get_elem? es i ≡ some e
      → n ≡ suc i
      → AllKeys P (take i es)
      → P e.0
      → AllKeys P (take n es)
  AllKeys-take-suc P es i zero e g m a p = absurd (omega arith)
  AllKeys-take-suc P [] i (suc n) e g m a p = tt
  AllKeys-take-suc P (d ∷ es) zero (suc n) e g m a p =
      let k : n ≡ 0 = omega arith in
      rw k (subst (λ (x : Entry K V). P x.0) (sym (some-injective _ _ g)) p, tt)
  AllKeys-take-suc P (d ∷ es) (suc i) (suc n) e g m (q, a) p =
      (q, AllKeys-take-suc P es i n e g (omega arith) a p)

  AllKeys-drop :
      (P : K → Type 0) (es : List (Entry K V)) (i n : ℕ) (e : Entry K V)
      → get_elem? es i ≡ some e
      → n ≡ suc i
      → AllKeys P (drop n es)
      → P e.0
      → AllKeys P (drop i es)
  AllKeys-drop P es i zero e g m a p = absurd (omega arith)
  AllKeys-drop P [] i (suc n) e g m a p = cc
  AllKeys-drop P (d ∷ es) zero (suc n) e g m a p =
      let k : n ≡ 0 = omega arith in
      (subst (λ (x : Entry K V). P x.0) (sym (some-injective _ _ g)) p, rw k at a)
  AllKeys-drop P (d ∷ es) (suc i) (suc n) e g m a p = AllKeys-drop P es i n e g (omega arith) a p

  drop-all :
      (P : K → Type 0) (es : List (Entry K V)) (n : ℕ) → length es ≤ n → AllKeys P (drop n es)
  drop-all P [] zero l = tt
  drop-all P [] (suc n) l = tt
  drop-all P (e ∷ es) zero l = absurd (omega arith)
  drop-all P (e ∷ es) (suc n) l = drop-all P es n (omega arith)

module _ {ℓ} {K V : Type ℓ} ⦃o : Comparison K⦄ where
  pub Below-take :
      (es : List (Entry K V)) (i : ℕ) (e : Entry K V)
      → IsSorted es
      → get_elem? es i ≡ some e
      → Below e.0 (take i es)
  Below-take [] i e h g = cc
  Below-take (d ∷ es) zero e h g = tt
  Below-take (d ∷ es) (suc i) e h g =
      (AllKeys-get_elem? (λ k. before d.0 k ≡ true) es i e h.0 g, Below-take es i e h.1 g)

  Above-drop :
      (es : List (Entry K V)) (i n : ℕ) (e : Entry K V)
      → IsSorted es
      → get_elem? es i ≡ some e
      → n ≡ suc i
      → Above e.0 (drop n es)
  Above-drop es i zero e h g m = absurd (omega arith)
  Above-drop [] i (suc n) e h g m = tt
  Above-drop (d ∷ es) zero (suc n) e h g m =
      let k : n ≡ 0 = omega arith in
      rw k (subst (λ (x : Entry K V). Above x.0 es) (some-injective _ _ g) h.0)
  Above-drop (d ∷ es) (suc i) (suc n) e h g m = Above-drop es i n e h.1 g (omega arith)

  pub data Located (key : K) (es : List (Entry K V)) : Slot → Type ℓ where
    hit : {i : ℕ} (e : Entry K V) → get_elem? es i ≡ some e → e.0 ≡ key → Located key es (found i)
    miss :
        {i : ℕ}
        → i ≤ length es
        → Below key (take i es)
        → Above key (drop i es)
        → Located key es (absent i)

  abbrev pub Ends : List (Entry K V) → K → Run Slot → Type ℓ
  Ends es key r = (slot : Slot) × (r ≡ ok slot) × Located key es slot

  module _ (es : List (Entry K V)) (key : K) (h : IsSorted es) where
    Below-right :
        (i n : ℕ) (e : Entry K V)
        → get_elem? es i ≡ some e
        → n ≡ suc i
        → before e.0 key ≡ true
        → Below key (take n es)
    Below-right i n e g m less =
        AllKeys-take-suc (λ k. before k key ≡ true) es i n e g m
          (AllKeys-map (λ k. before k e.0 ≡ true) (λ k. before k key ≡ true)
            (λ k p. o.cmp_trans k e.0 key p less) (take i es) (Below-take es i e h g))
          less

    Above-left :
        (i n : ℕ) (e : Entry K V)
        → get_elem? es i ≡ some e
        → n ≡ suc i
        → after e.0 key ≡ true
        → Above key (drop i es)
    Above-left i n e g m more =
        let p = sym (after-before e.0 key) ∙ more in
        AllKeys-drop (λ k. before key k ≡ true) es i n e g m
          (AllKeys-map (λ k. before e.0 k ≡ true) (λ k. before key k ≡ true)
            (λ k q. o.cmp_trans key e.0 k p q) (drop n es) (Above-drop es i n e h g m))
          p

    search_loop-Ends :
        (f lo hi : ℕ)
        → lo ≤ hi
        → hi ≤ length es
        → hi - lo < f
        → Below key (take lo es)
        → Above key (drop hi es)
        → Ends es key (search_loop f es key lo hi)
    unfolding search_loop
    search_loop-Ends zero lo hi l m n b a = absurd (omega arith)
    search_loop-Ends (suc f) lo hi l m n b a = elim (Bool-cases (ltb lo hi)) [
      | inr stop ↦
          let q : hi ≡ lo = ground arith in
          (absent lo, rw stop, Located.miss (omega arith) b (rw q at a))
      | inl go ↦
          let lt = ltb→lt lo hi go in
          let mid = lo + (hi - lo) / 2 in
          let (e, g) = get_elem?-some es mid (omega arith) in
          rw (go, g)
            (elim (Bool-cases (before e.0 key)) [
              | inl less ↦ rw less (
                  search_loop-Ends f (mid + 1) hi (omega arith) m (omega arith)
                    (Below-right mid (mid + 1) e g (omega arith) less) a)
              | inr not_less ↦ rw not_less (elim (Bool-cases (after e.0 key)) [
                | inl more ↦ rw more (
                    search_loop-Ends f lo mid (omega arith) (omega arith) (omega arith) b
                      (Above-left mid (mid + 1) e g (omega arith) more))
                | inr not_more ↦
                    rw not_more
                      (found mid, refl, Located.hit e g (eq_of_neither e.0 key not_less not_more))
              ])
            ])
    ]

    -- The search of a whole sorted array.
    pub binary_search-Ends : Ends es key (binary_search es (length es) key)
    unfolding binary_search
    binary_search-Ends = elim (Bool-cases (length es == 0)) [
      | inl z ↦ rw z (
        absent 0,
        refl,
        Located.miss (omega arith) tt (drop-all (λ k. before key k ≡ true) es 0 (ground arith)),
      )
      | inr n ↦ rw n (
          search_loop-Ends (suc (length es)) 0 (length es) (omega arith) (omega arith) (omega arith)
            tt (drop-all (λ k. before key k ≡ true) es (length es) (omega arith)))
    ]
