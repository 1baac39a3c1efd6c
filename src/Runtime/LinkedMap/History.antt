-- ===== src/Runtime/LinkedMap/History.antt =====
-- Linked maps behind a history of calls, against the dictionary behind the same history.
use tyra.Prelude.{
  ◌+◌, ◌≤◌, ◌^◌, arith, ◌≡◌, refl, sym, ap, ◌∙◌, subst, some, List, [], ◌∷◌, length, KeyEq, is_some,
}
use tyra.Prelude.Dict
use tyra.Prelude.Dict.{Dict}
use tyra.Runtime.Run.{Run, ok, ◌>>=◌, Ptr}
use tyra.Runtime.LinkedMap.{LinkedMap, insert, remove, get, contains_key, for_each, map_len, new}
use tyra.Runtime.LinkedMap.Entries.{pairs, erase, length-insert, length-erase}
use tyra.Runtime.LinkedMap.Lookup.{IsValid, Refines, new-Refines}
use tyra.Runtime.LinkedMap.Refines.{
  get-pairs, insert-Refines, remove-Refines, map_len-pairs, fold_pairs, for_each-pairs,
}
use tyra.Runtime.Probe.{Hashing}

-- A call that gives a new map.
pub data Change {ℓ} (K V : Type ℓ) : Type ℓ where
  put : K → V → Change K V
  drop_key : K → Change K V

module _ {ℓ} {K V : Type ℓ} ⦃e : KeyEq K⦄ where
  -- The dictionary behind a history.
  unfoldable pub told : List (Change K V) → Dict K V → Dict K V
  told [] d = d
  told (put k v ∷ cs) d = told cs (Dict.insert k v d)
  told (drop_key k ∷ cs) d = told cs (erase k d)

  module _ ⦃h : Hashing K⦄ where
    -- The map behind a history, each call on the map that the one before gave.
    unfoldable pub perform : List (Change K V) → Ptr (LinkedMap K V) → Run (Ptr (LinkedMap K V))
    perform [] m = ok m
    perform (put k v ∷ cs) m = insert m k v >>= perform cs
    perform (drop_key k ∷ cs) m = remove m k >>= perform cs

    next :
        (cs : List (Change K V)) (d : Dict K V) (r : Run (Ptr (LinkedMap K V)))
        → length cs + length d ≤ 2 ^ 62
        → Refines d r
        → ((m : LinkedMap K V)
            → length cs + length (pairs m.entries) ≤ 2 ^ 62
            → IsValid m
            → Refines (told cs (pairs m.entries)) (perform cs (some m)))
        → Refines (told cs d) (r >>= perform cs)
    next cs d r room s more =
        subst (λ t. Refines (told cs d) (t >>= perform cs)) (sym s.result)
          (subst (λ t. Refines (told cs t) (perform cs (some s.map))) s.view
            (more s.map (rw s.view room) s.valid))

    pub perform-Refines :
        (cs : List (Change K V)) (m : LinkedMap K V)
        → length cs + length (pairs m.entries) ≤ 2 ^ 62
        → IsValid m
        → Refines (told cs (pairs m.entries)) (perform cs (some m))
    unfolding told perform
    perform-Refines [] m room valid = record { map = m; valid = valid; view = refl; result = refl }
    perform-Refines (put k v ∷ cs) m room valid =
        let l = length-insert k v (pairs m.entries) in
        next cs _ (insert (some m) k v) (omega arith) (insert-Refines m valid k v (omega arith))
          (perform-Refines cs)
    perform-Refines (drop_key k ∷ cs) m room valid =
        let l = length-erase k (pairs m.entries) in
        next cs _ (remove (some m) k) (omega arith) (remove-Refines m valid k) (perform-Refines cs)

    perform_new-Refines :
        (cs : List (Change K V)) → length cs ≤ 2 ^ 62 → Refines (told cs []) (perform cs new)
    perform_new-Refines cs room = next cs [] (ok new) (omega arith) new-Refines (perform-Refines cs)

    -- Behind any history of at most 2 ^ 62 calls of insert and remove from new on, get, contains_key,
    -- len and for_each answer as the dictionary that keeps the order of insertion, and no call reads
    -- outside of an array or searches without end.
    pub perform-reads {κ} :
        {C : Type κ} (call : C → K → V → C) (cs : List (Change K V)) (key : K) (ctx : C)
        → length cs ≤ 2 ^ 62
        → ((perform cs new >>= λ m. get m key) ≡ ok (Dict.get key (told cs [])))
          × ((perform cs new >>= λ m. contains_key m key)
              ≡ ok (is_some (Dict.get key (told cs []))))
          × ((perform cs new >>= λ m. ok (map_len m)) ≡ ok (length (told cs [])))
          × ((perform cs new >>= λ m. for_each call m ctx) ≡ ok (fold_pairs call (told cs []) ctx))
    unfolding contains_key
    perform-reads call cs key ctx room =
        let s = perform_new-Refines cs room in
        let found = get-pairs s.map s.valid key in
        (
          ap (λ r. r >>= λ m. get m key) s.result ∙ found ∙ ap (λ d. ok (Dict.get key d)) s.view,
          ap (λ r. r >>= λ m. get m key >>= λ v. ok (is_some v)) s.result
              ∙ ap (λ r. r >>= λ v. ok (is_some v)) found
              ∙ ap (λ d. ok (is_some (Dict.get key d))) s.view,
          ap (λ r. r >>= λ m. ok (map_len m)) s.result
              ∙ ap ok (map_len-pairs s.map s.valid)
              ∙ ap (λ d. ok (length d)) s.view,
          ap (λ r. r >>= λ m. for_each call m ctx) s.result
              ∙ for_each-pairs call s.map ctx s.valid
              ∙ ap (λ d. ok (fold_pairs call d ctx)) s.view,
        )
