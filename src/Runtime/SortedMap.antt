-- ===== src/Runtime/SortedMap.antt =====
-- runtime/src/stdlib_sorted_map.rs: SortedMap<K,V>, a persistent map over a sorted array. The
-- boxes that keys and values are passed in are their contents here, and `gc_alloc` with the copies
-- into fresh memory are new values.
pub mod Keys
pub mod Search
pub mod Edits
pub mod Lookup
pub mod Laws
pub mod Traverse
use tyra.Prelude.{
  ℕ, zero, suc, ◌+◌, ◌-◌, ◌/◌, Bool, true, false, Option, none, some, List, [], ◌∷◌, ◌++◌, ltb,
  ◌==◌, nat_eq, if◌then◌else◌, length, get_elem?, set, take, drop,
}
use tyra.Runtime.Order.{Comparison, before, after}
use tyra.Runtime.Run.{Run, ok, fault, ◌>>=◌, deref, Ptr}

abbrev pub Entry {ℓ} : Type ℓ → Type ℓ → Type ℓ
Entry K V = K × V

pub record SortedMap {ℓ} (K V : Type ℓ) : Type ℓ where
  pub len : ℕ
  pub entries : List (Entry K V)

-- `Result<usize, usize>`: the index of the key, or the place where it would stand.
pub data Slot : Type 0 where
  found : ℕ → Slot
  absent : ℕ → Slot

-- `(*new_entries.add(idx)).val = val`.
abbrev pub set_val {ℓ} : {K V : Type ℓ} → List (Entry K V) → ℕ → V → List (Entry K V)
set_val [] i v = []
set_val ((k, w) ∷ es) zero v = (k, v) ∷ es
set_val (e ∷ es) (suc i) v = e ∷ set_val es i v

abbrev not_null {ℓ} : {V : Type ℓ} → Ptr V → Run Bool
not_null none = ok false
not_null (some v) = ok true

module _ {ℓ} {K V : Type ℓ} ⦃o : Comparison K⦄ where
  -- The `while lo < hi` loop.
  unfoldable pub search_loop : ℕ → List (Entry K V) → K → ℕ → ℕ → Run Slot
  search_loop zero entries key lo hi = fault
  search_loop (suc f) entries key lo hi =
      let mid = lo + (hi - lo) / 2 in
      let right = search_loop f entries key (mid + 1) hi in
      let left = search_loop f entries key lo mid in
      if ltb lo hi
      then (deref (get_elem? entries mid) >>= λ e.
          if before e.0 key then right else if after e.0 key then left else ok (found mid))
      else ok (absent lo)

  unfoldable pub binary_search : List (Entry K V) → ℕ → K → Run Slot
  unfolding search_loop
  binary_search entries len key =
      if len == 0 then ok (absent 0) else search_loop (suc len) entries key 0 len

  unfoldable pub new : SortedMap K V
  new = record { len = 0; entries = [] }

  abbrev pub insert_at : SortedMap K V → K → V → Slot → SortedMap K V
  insert_at m key val (found idx) = record m { entries = set_val m.entries idx val }
  insert_at m key val (absent idx) = record {
    len = m.len + 1;
    entries = take idx m.entries ++ (key, val) ∷ drop idx m.entries;
  }

  unfoldable pub insert : Ptr (SortedMap K V) → K → V → Run (Ptr (SortedMap K V))
  unfolding binary_search
  insert none key val = ok none
  insert (some m) key val =
      binary_search m.entries m.len key >>= λ slot. ok (some (insert_at m key val slot))

  abbrev pub remove_at : SortedMap K V → Slot → SortedMap K V
  remove_at m (absent idx) = record { len = m.len; entries = m.entries }
  remove_at m (found idx) = record {
    len = m.len - 1;
    entries = if m.len - 1 == 0 then [] else take idx m.entries ++ drop (idx + 1) m.entries;
  }

  unfoldable pub remove : Ptr (SortedMap K V) → K → Run (Ptr (SortedMap K V))
  unfolding binary_search
  remove none key = ok none
  remove (some m) key = binary_search m.entries m.len key >>= λ slot. ok (some (remove_at m slot))

  abbrev pub value_at : SortedMap K V → Slot → Run (Ptr V)
  value_at m (found idx) = deref (get_elem? m.entries idx) >>= λ e. ok (some e.1)
  value_at m (absent idx) = ok none

  unfoldable pub get : Ptr (SortedMap K V) → K → Run (Ptr V)
  unfolding binary_search
  get none key = ok none
  get (some m) key = binary_search m.entries m.len key >>= value_at m

  unfoldable pub contains_key : Ptr (SortedMap K V) → K → Run Bool
  unfolding get
  contains_key m key = get m key >>= not_null

  unfoldable pub map_len : Ptr (SortedMap K V) → ℕ
  map_len none = 0
  map_len (some m) = m.len

  -- The loop `for i in 0..m.len`, with what the callback does to its context as a function.
  unfoldable pub for_each_loop {κ} :
      {C : Type κ} → (C → K → V → C) → List (Entry K V) → ℕ → ℕ → C → Run C
  for_each_loop call entries zero i ctx = ok ctx
  for_each_loop call entries (suc n) i ctx =
      deref (get_elem? entries i) >>= λ e. for_each_loop call entries n (i + 1) (call ctx e.0 e.1)

  unfoldable pub for_each {κ} : {C : Type κ} → (C → K → V → C) → Ptr (SortedMap K V) → C → Run C
  unfolding for_each_loop
  for_each call none ctx = ok ctx
  for_each call (some m) ctx = for_each_loop call m.entries m.len 0 ctx
