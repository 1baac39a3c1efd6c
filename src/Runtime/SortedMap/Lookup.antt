-- ===== src/Runtime/SortedMap/Lookup.antt =====
-- Valid sorted maps, and lookups in them.
use mathlib.Core.Option.{some-injective}
use tyra.Prelude.{
  ℕ, zero, suc, ◌≡◌, refl, sym, ◌∙◌, ap, subst, true, none, some, List, [], ◌∷◌, length, get_elem?,
  take, drop, nat_eq,
}
use tyra.Runtime.Run.{ok}
use tyra.Runtime.Order.{Comparison, before, same_key_iff, same_key-before}
use tyra.Runtime.SortedMap.{
  Entry, SortedMap, Slot, found, absent, binary_search, get, value_at, new,
}
use tyra.Runtime.SortedMap.Keys.{AllKeys-get_elem?, Below, Above, IsSorted, find}
use tyra.Runtime.SortedMap.Search.{Located, hit, miss, Ends, binary_search-Ends}
use tyra.Runtime.SortedMap.Edits.{find-Above, find-Below}

module _ {ℓ} {K V : Type ℓ} ⦃o : Comparison K⦄ where
  pub record IsValid (m : SortedMap K V) : Type 0 where
    pub counted : m.len ≡ length m.entries
    pub sorted : IsSorted m.entries

  pub new-IsValid : IsValid new
  unfolding new
  new-IsValid = record { counted = refl; sorted = tt }

  -- The search of a valid map.
  pub search :
      (m : SortedMap K V) (key : K)
      → IsValid m
      → Ends m.entries key (binary_search m.entries m.len key)
  search m key h =
      subst (λ n. Ends m.entries key (binary_search m.entries n key)) (sym h.counted)
        (binary_search-Ends m.entries key h.sorted)

  -- At the key's index stands the value that a lookup finds.
  pub find-hit :
      (es : List (Entry K V)) (key : K) (i : ℕ) (e : Entry K V)
      → IsSorted es
      → get_elem? es i ≡ some e
      → e.0 ≡ key
      → find key es ≡ some e.1
  unfolding find
  find-hit [] key i e h g p = cc
  find-hit (d ∷ es) key zero e h g p =
      let q = ap (λ (x : Entry K V). x.0) (some-injective _ _ g) ∙ p in
      rw (((same_key_iff d.0 key).1 q), find)
        (ap (λ (x : Entry K V). some x.1) (some-injective _ _ g))
  find-hit (d ∷ es) key (suc i) e h g p =
      let b = AllKeys-get_elem? (λ k. before d.0 k ≡ true) es i e h.0 g in
      rw (same_key-before d.0 key (subst (λ k. before d.0 k ≡ true) p b), find)
        (find-hit es key i e h.1 g p)

  pub find-miss :
      (es : List (Entry K V)) (key : K) (i : ℕ)
      → Below key (take i es)
      → Above key (drop i es)
      → find key es ≡ none
  find-miss es key i b a = find-Below key es i b ∙ find-Above key (drop i es) a

  -- `get` never reads outside of the array, and gives what a search from the front would give.
  pub get-find :
      (m : SortedMap K V) (key : K) → IsValid m → get (some m) key ≡ ok (find key m.entries)
  unfolding get
  get-find m key h = let (slot, p, l) = search m key h in rw p (go slot l)
    where
      go : (slot : Slot) → Located key m.entries slot → value_at m slot ≡ ok (find key m.entries)
      go (found i) (hit e g q) = rw g (ap ok (sym (find-hit m.entries key i e h.sorted g q)))
      go (absent i) (miss l b a) = ap ok (sym (find-miss m.entries key i b a))
