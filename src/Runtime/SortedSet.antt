-- ===== src/Runtime/SortedSet.antt =====
-- runtime/src/stdlib_sorted_set.rs: SortedSet<T>, a wrapper over SortedMap whose values are one
-- sentinel that is not null.
pub mod Laws
use tyra.Prelude.{ℕ, Bool, true, false, Option, none, some}
use tyra.Runtime.Order.{Comparison}
use tyra.Runtime.Run.{Run, ok, ◌>>=◌, Ptr}
use tyra.Runtime.SortedMap
use tyra.Runtime.SortedMap.{SortedMap}

pub record SortedSet {ℓ} (T : Type ℓ) : Type ℓ where
  pub inner : Ptr (SortedMap T (Unit {ℓ}))

abbrev wrap {ℓ} : {T : Type ℓ} → Ptr (SortedMap T (Unit {ℓ})) → Run (Ptr (SortedSet T))
wrap m = ok (some (record { inner = m }))

module _ {ℓ} {T : Type ℓ} ⦃o : Comparison T⦄ where
  unfoldable pub new : Run (Ptr (SortedSet T))
  unfolding SortedMap.new
  new = wrap (some SortedMap.new)

  unfoldable pub insert : Ptr (SortedSet T) → T → Run (Ptr (SortedSet T))
  insert none key = ok none
  insert (some s) key = SortedMap.insert s.inner key tt >>= wrap

  unfoldable pub remove : Ptr (SortedSet T) → T → Run (Ptr (SortedSet T))
  remove none key = ok none
  remove (some s) key = SortedMap.remove s.inner key >>= wrap

  unfoldable pub contains : Ptr (SortedSet T) → T → Run Bool
  contains none key = ok false
  contains (some s) key = SortedMap.contains_key s.inner key

  unfoldable pub len : Ptr (SortedSet T) → ℕ
  len none = 0
  len (some s) = SortedMap.map_len s.inner

  -- The adapter of the source drops the value that the map's callback is given.
  unfoldable pub for_each {κ} : {C : Type κ} → (C → T → C) → Ptr (SortedSet T) → C → Run C
  for_each call none ctx = ok ctx
  for_each call (some s) ctx = SortedMap.for_each (λ c key val. call c key) s.inner ctx
