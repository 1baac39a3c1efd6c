-- ===== src/Runtime/SortedMap/Traverse.antt =====
-- The traversal of a sorted map.
use tyra.Prelude.{
  ℕ, zero, suc, ◌+◌, ◌≡◌, refl, ◌∙◌, ap, some, List, [], ◌∷◌, arith, length, get_elem?, drop,
  nat_eq,
}
use tyra.Runtime.Run.{ok}
use tyra.Runtime.Order.{Comparison}
use tyra.Runtime.SortedMap.{Entry, SortedMap, for_each, for_each_loop}
use tyra.Runtime.SortedMap.Keys.{IsSorted}
use tyra.Runtime.SortedMap.Lookup.{IsValid}

module _ {ℓ} {A : Type ℓ} where
  get_elem?-drop :
      (xs : List A) (i : ℕ) (e : A) (ys : List A) → drop i xs ≡ e ∷ ys → get_elem? xs i ≡ some e
  get_elem?-drop [] zero e ys d = cc
  get_elem?-drop [] (suc i) e ys d = cc
  get_elem?-drop (x ∷ xs) zero e ys d = cc
  get_elem?-drop (x ∷ xs) (suc i) e ys d = get_elem?-drop xs i e ys d

  drop-next :
      (xs : List A) (i n : ℕ) (e : A) (ys : List A)
      → drop i xs ≡ e ∷ ys
      → n ≡ suc i
      → drop n xs ≡ ys
  drop-next xs i zero e ys d m = absurd (omega arith)
  drop-next [] zero (suc n) e ys d m = cc
  drop-next [] (suc i) (suc n) e ys d m = cc
  drop-next (x ∷ xs) zero (suc n) e ys d m = let k : n ≡ 0 = omega arith in rw k (cc)
  drop-next (x ∷ xs) (suc i) (suc n) e ys d m = drop-next xs i n e ys d (omega arith)

module _ {ℓ} {K V : Type ℓ} ⦃o : Comparison K⦄ where
  -- The specification of a traversal: the calls in the order of the list.
  unfoldable pub fold_entries {κ} : {C : Type κ} → (C → K → V → C) → C → List (Entry K V) → C
  fold_entries call ctx [] = ctx
  fold_entries call ctx (e ∷ es) = fold_entries call (call ctx e.0 e.1) es

  for_each_loop-fold {κ} :
      {C : Type κ} (call : C → K → V → C) (xs ys : List (Entry K V)) (i : ℕ) (ctx : C)
      → drop i xs ≡ ys
      → for_each_loop call xs (length ys) i ctx ≡ ok (fold_entries call ctx ys)
  unfolding for_each_loop fold_entries
  for_each_loop-fold call xs [] i ctx d = refl
  for_each_loop-fold call xs (e ∷ ys) i ctx d = rw (get_elem?-drop xs i e ys d) (
      for_each_loop-fold call xs ys (i + 1) (call ctx e.0 e.1)
        (drop-next xs i (i + 1) e ys d (omega arith)))

  -- On a valid map `for_each` calls back once for each entry, in the order of the array, whose keys
  -- ascend strictly.
  pub for_each_lem {κ} :
      {C : Type κ} (call : C → K → V → C) (m : SortedMap K V) (ctx : C)
      → IsValid m
      → (for_each call (some m) ctx ≡ ok (fold_entries call ctx m.entries)) × IsSorted m.entries
  unfolding for_each
  for_each_lem call m ctx h = (
    ap (λ n. for_each_loop call m.entries n 0 ctx) h.counted
        ∙ for_each_loop-fold call m.entries m.entries 0 ctx refl,
    h.sorted,
  )
