-- ===== src/Runtime/LinkedSet.antt =====
-- runtime/src/stdlib_linked_set.rs: LinkedSet<T>, a wrapper over LinkedMap whose values are one
-- sentinel that is not null.
pub mod History
use tyra.Prelude.{ℕ, Bool, false, Option, none, some, KeyEq}
use tyra.Runtime.Run.{Run, ok, ◌>>=◌, Ptr}
use tyra.Runtime.LinkedMap
use tyra.Runtime.LinkedMap.{LinkedMap}
use tyra.Runtime.Probe.{Hashing}

pub record LinkedSet {ℓ} (T : Type ℓ) : Type ℓ where
  pub inner : Ptr (LinkedMap T (Unit {ℓ}))

module _ {ℓ} {T : Type ℓ} where
  abbrev pub wrap : Ptr (LinkedMap T (Unit {ℓ})) → Run (Ptr (LinkedSet T))
  wrap m = ok (some (record { inner = m }))

  unfoldable pub new : Run (Ptr (LinkedSet T))
  unfolding LinkedMap.new
  new = wrap LinkedMap.new

  unfoldable pub len : Ptr (LinkedSet T) → ℕ
  len none = 0
  len (some s) = LinkedMap.map_len s.inner

  -- The adapter of the source drops the value that the map's callback is given.
  unfoldable pub for_each {κ} : {C : Type κ} → (C → T → C) → Ptr (LinkedSet T) → C → Run C
  for_each call none ctx = ok ctx
  for_each call (some s) ctx = LinkedMap.for_each (λ c key val. call c key) s.inner ctx

module _ {ℓ} {T : Type ℓ} ⦃e : KeyEq T⦄ ⦃h : Hashing T⦄ where
  unfoldable pub insert : Ptr (LinkedSet T) → T → Run (Ptr (LinkedSet T))
  insert none key = ok none
  insert (some s) key = LinkedMap.insert s.inner key tt >>= wrap

  unfoldable pub remove : Ptr (LinkedSet T) → T → Run (Ptr (LinkedSet T))
  remove none key = ok none
  remove (some s) key = LinkedMap.remove s.inner key >>= wrap

  unfoldable pub contains : Ptr (LinkedSet T) → T → Run Bool
  contains none key = ok false
  contains (some s) key = LinkedMap.contains_key s.inner key
