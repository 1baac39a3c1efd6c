-- ===== src/Runtime/SortedSet/Laws.antt =====
-- A sorted set behaves as a set of elements.
use tyra.Prelude.{
  is_some, ◌+◌, ◌-◌, ◌≡◌, refl, sym, ◌∙◌, Bool, true, false, Option, none, some, if◌then◌else◌,
}
use tyra.Runtime.Run.{ok, Ptr}
use tyra.Runtime.Order.{Comparison, same_key}
use tyra.Runtime.SortedMap
use tyra.Runtime.SortedMap.{SortedMap}
use tyra.Runtime.SortedMap.Lookup.{IsValid, get-find}
use tyra.Runtime.SortedMap.Keys.{find}
use tyra.Runtime.SortedMap.Laws.{insert_lem, remove_lem}
use tyra.Runtime.SortedSet.{SortedSet, insert, remove, contains, len}

module _ {ℓ} {T : Type ℓ} ⦃o : Comparison T⦄ where
  abbrev pub wrapped : SortedMap T (Unit {ℓ}) → Ptr (SortedSet T)
  wrapped m = some (record { inner = some m })

  -- `contains` reads the answer of the map's lookup.
  contains-get :
      (m : SortedMap T (Unit {ℓ})) (key : T) (v : Option (Unit {ℓ}))
      → SortedMap.get (some m) key ≡ ok v
      → contains (wrapped m) key ≡ ok (is_some v)
  unfolding contains SortedMap.contains_key
  contains-get m key none e = rw e refl
  contains-get m key (some u) e = rw e refl

  contains-find :
      (m : SortedMap T (Unit {ℓ})) (key : T)
      → IsValid m
      → contains (wrapped m) key ≡ ok (is_some (find key m.entries))
  contains-find m key h = contains-get m key (find key m.entries) (get-find m key h)

  answer :
      (m m' : SortedMap T (Unit {ℓ})) (key : T) (b : Bool) (v : Option (Unit {ℓ}))
      → IsValid m
      → SortedMap.get (some m') key ≡ (if b then ok v else SortedMap.get (some m) key)
      → contains (wrapped m') key ≡ (if b then ok (is_some v) else contains (wrapped m) key)
  answer m m' key true v h e = contains-get m' key v e
  answer m m' key false v h e =
      contains-get m' key (find key m.entries) (e ∙ get-find m key h) ∙ sym (contains-find m key h)

  -- Inserting into a valid set ends with a valid set that contains the element, and contains any
  -- other element exactly if it was there; the length that it reports grows by one unless the
  -- element was there.
  pub insert_elem :
      (m : SortedMap T (Unit {ℓ})) (key : T)
      → IsValid m
      → (m' : SortedMap T (Unit {ℓ})) × (insert (wrapped m) key ≡ ok (wrapped m'))
        × IsValid m'
        × ((j : T)
            → contains (wrapped m') j
              ≡ (if same_key key j then ok true else contains (wrapped m) j))
        × (len (wrapped m')
            ≡ (if is_some (find key m.entries) then len (wrapped m) else len (wrapped m) + 1))
  unfolding insert len SortedMap.map_len
  insert_elem m key h =
      let (m', p, v, g, l) = insert_lem m key tt h in
      (m', rw p refl, v, λ j. answer m m' j (same_key key j) (some tt) h (g j), l)

  -- Removing from a valid set ends with a valid set that does not contain the element, and contains
  -- any other element exactly if it was there; the length that it reports shrinks by one if the
  -- element was there.
  pub remove_elem :
      (m : SortedMap T (Unit {ℓ})) (key : T)
      → IsValid m
      → (m' : SortedMap T (Unit {ℓ})) × (remove (wrapped m) key ≡ ok (wrapped m'))
        × IsValid m'
        × ((j : T)
            → contains (wrapped m') j
              ≡ (if same_key key j then ok false else contains (wrapped m) j))
        × (len (wrapped m')
            ≡ (if is_some (find key m.entries) then len (wrapped m) - 1 else len (wrapped m)))
  unfolding remove len SortedMap.map_len
  remove_elem m key h =
      let (m', p, v, g, l) = remove_lem m key h in
      (m', rw p refl, v, λ j. answer m m' j (same_key key j) none h (g j), l)
