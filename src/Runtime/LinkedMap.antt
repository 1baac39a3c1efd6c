-- ===== src/Runtime/LinkedMap.antt =====
-- runtime/src/stdlib_linked_map.rs: LinkedMap<K,V>, a persistent map that keeps the order of insertion:
-- an array of entries, and an open-addressing table from keys to places in it. The boxes that keys and
-- values are passed in are their contents here, and `gc_alloc` with the copies into fresh memory are
-- new values.
pub mod Slots
pub mod Probes
pub mod Lookup
pub mod Build
pub mod Entries
pub mod Valid
pub mod Refines
pub mod History
use tyra.Prelude.{
  ℕ, zero, suc, ◌+◌, ◌-◌, ◌*◌, Bool, true, false, Option, none, some, List, [], ◌∷◌, ◌++◌, ◌==◌,
  nat_eq, KeyEq, if◌then◌else◌, get_elem?, set, is_some,
}
use tyra.Runtime.Run.{Run, ok, fault, ◌>>=◌, deref, Ptr}
use tyra.Runtime.Probe.{Hashing, home, next_slot, next_pow2, twice_usize}

-- The key is null in a tombstone.
abbrev pub Entry {ℓ} : Type ℓ → Type ℓ → Type ℓ
Entry K V = Ptr K × V

-- The values 0, 1 and 2 of `occupied`, with the fields that are read under each.
pub data IndexSlot {ℓ} (K : Type ℓ) : Type ℓ where
  vacant : IndexSlot K
  taken : K → ℕ → IndexSlot K
  deleted : IndexSlot K

pub record LinkedMap {ℓ} (K V : Type ℓ) : Type ℓ where
  pub live : ℕ
  pub entries_cap : ℕ
  pub entries : List (Entry K V)
  pub index : List (IndexSlot K)
  pub idx_cap : ℕ

unfoldable pub zeroed {ℓ} : {K : Type ℓ} → ℕ → List (IndexSlot K)
zeroed zero = []
zeroed (suc n) = vacant ∷ zeroed n

module _ {ℓ} {K : Type ℓ} ⦃e : KeyEq K⦄ where
  -- A round of the loop of `index_lookup`, where `full` is the test `slot == start` behind the step.
  unfoldable pub look_at : IndexSlot K → K → Bool → Run (Option ℕ) → Run (Option ℕ)
  look_at vacant key full rest = ok none
  look_at (taken j i) key full rest =
      if j == key then ok (some i) else if full then ok none else rest
  look_at deleted key full rest = if full then ok none else rest

  unfoldable pub lookup_loop : ℕ → List (IndexSlot K) → ℕ → ℕ → K → ℕ → Run (Option ℕ)
  unfolding look_at
  lookup_loop zero index cap start key slot = fault
  lookup_loop (suc f) index cap start key slot =
      let next = next_slot cap slot in
      let rest = lookup_loop f index cap start key next in
      deref (get_elem? index slot) >>= λ s. look_at s key (next == start) rest

  unfoldable pub index_lookup : ⦃h : Hashing K⦄ → List (IndexSlot K) → ℕ → K → Run (Option ℕ)
  unfolding lookup_loop
  index_lookup index cap key =
      if cap == 0 then ok none else lookup_loop cap index cap (home cap key) key (home cap key)

module _ {ℓ} {K : Type ℓ} where
  -- A round of the loop of `build_index` over the slots.
  unfoldable pub store_at :
      IndexSlot K
      → List (IndexSlot K)
      → ℕ
      → K
      → ℕ
      → Run (List (IndexSlot K))
      → Run (List (IndexSlot K))
  store_at vacant index slot key i rest = ok (set index slot (taken key i))
  store_at other index slot key i rest = rest

  unfoldable pub store_loop : ℕ → List (IndexSlot K) → ℕ → K → ℕ → ℕ → Run (List (IndexSlot K))
  unfolding store_at
  store_loop zero index cap key i slot = fault
  store_loop (suc f) index cap key i slot =
      let rest = store_loop f index cap key i (next_slot cap slot) in
      deref (get_elem? index slot) >>= λ s. store_at s index slot key i rest

  -- A round of the loop of `tyra_linked_map_remove` over the slots.
  unfoldable pub forget_at :
      IndexSlot K → List (IndexSlot K) → ℕ → ℕ → Run (List (IndexSlot K)) → Run (List (IndexSlot K))
  forget_at (taken j i) index slot entry_idx rest =
      if i == entry_idx then ok (set index slot deleted) else rest
  forget_at other index slot entry_idx rest = rest

  unfoldable pub forget_loop : ℕ → List (IndexSlot K) → ℕ → ℕ → ℕ → Run (List (IndexSlot K))
  unfolding forget_at
  forget_loop zero index cap entry_idx slot = fault
  forget_loop (suc f) index cap entry_idx slot =
      let rest = forget_loop f index cap entry_idx (next_slot cap slot) in
      deref (get_elem? index slot) >>= λ s. forget_at s index slot entry_idx rest

module _ {ℓ} {K V : Type ℓ} where
  -- The loops that copy the entries whose key is not null. The new array has the places that `live`
  -- says, which in a valid map are as many as these entries.
  unfoldable pub compact : List (Entry K V) → List (Entry K V)
  compact [] = []
  compact ((none, v) ∷ es) = compact es
  compact ((some k, v) ∷ es) = (some k, v) ∷ compact es

  -- `new_idx` behind the loop over the entries from `src` on.
  unfoldable pub new_idx_loop : List (Entry K V) → ℕ → ℕ → ℕ → ℕ → ℕ
  new_idx_loop [] entry_idx src dst new_idx = new_idx
  new_idx_loop ((none, v) ∷ es) entry_idx src dst new_idx =
      new_idx_loop es entry_idx (src + 1) dst new_idx
  new_idx_loop ((some k, v) ∷ es) entry_idx src dst new_idx =
      new_idx_loop es entry_idx (src + 1) (dst + 1) (if src == entry_idx then dst else new_idx)

  unfoldable pub set_val : List (Entry K V) → ℕ → V → List (Entry K V)
  set_val [] i v = []
  set_val ((k, w) ∷ es) zero v = (k, v) ∷ es
  set_val (e ∷ es) (suc i) v = e ∷ set_val es i v

  unfoldable pub clear_key : List (Entry K V) → ℕ → List (Entry K V)
  clear_key [] i = []
  clear_key ((k, w) ∷ es) zero = (none, w) ∷ es
  clear_key (e ∷ es) (suc i) = e ∷ clear_key es i

module _ {ℓ} {K V : Type ℓ} ⦃h : Hashing K⦄ where
  -- The entries from the `i`th on; a tombstone breaks the debug assertion.
  unfoldable pub build_from :
      List (Entry K V) → ℕ → ℕ → List (IndexSlot K) → Run (List (IndexSlot K))
  unfolding store_loop
  build_from [] cap i index = ok index
  build_from ((none, v) ∷ es) cap i index = fault
  build_from ((some k, v) ∷ es) cap i index =
      store_loop cap index cap k i (home cap k) >>= build_from es cap (i + 1)

  unfoldable pub build_index : List (Entry K V) → ℕ → Run (List (IndexSlot K))
  unfolding build_from zeroed
  build_index entries cap = build_from entries cap 0 (zeroed cap)

  unfoldable pub make_map : ℕ → List (Entry K V) → Run (Ptr (LinkedMap K V))
  unfolding build_index next_pow2
  make_map live entries = next_pow2 (if live == 0 then 8 else twice_usize live) >>= λ cap.
      build_index entries cap >>= λ index. ok (
        some (record {
          live = live;
          entries_cap = live;
          entries = entries;
          index = index;
          idx_cap = cap;
        }))

module _ {ℓ} {K V : Type ℓ} where
  unfoldable pub new : Ptr (LinkedMap K V)
  unfolding zeroed
  new = some (record { live = 0; entries_cap = 0; entries = []; index = zeroed 8; idx_cap = 8 })

  unfoldable pub map_len : Ptr (LinkedMap K V) → ℕ
  map_len none = 0
  map_len (some m) = m.live

  -- The loop `for i in 0..entries_cap`, with what the callback does to its context as a function.
  unfoldable pub visit {κ} : {C : Type κ} → (C → K → V → C) → Entry K V → C → C
  visit call (none, v) ctx = ctx
  visit call (some k, v) ctx = call ctx k v

  unfoldable pub for_each_loop {κ} :
      {C : Type κ} → (C → K → V → C) → List (Entry K V) → ℕ → ℕ → C → Run C
  unfolding visit
  for_each_loop call entries zero i ctx = ok ctx
  for_each_loop call entries (suc n) i ctx =
      deref (get_elem? entries i) >>= λ e. for_each_loop call entries n (i + 1) (visit call e ctx)

  unfoldable pub for_each {κ} : {C : Type κ} → (C → K → V → C) → Ptr (LinkedMap K V) → C → Run C
  unfolding for_each_loop
  for_each call none ctx = ok ctx
  for_each call (some m) ctx = for_each_loop call m.entries m.entries_cap 0 ctx

  unfoldable pub value_at : LinkedMap K V → Option ℕ → Run (Ptr V)
  value_at m none = ok none
  value_at m (some i) = deref (get_elem? m.entries i) >>= λ e. ok (some e.1)

module _ {ℓ} {K V : Type ℓ} ⦃e : KeyEq K⦄ ⦃h : Hashing K⦄ where
  unfoldable pub insert_at : LinkedMap K V → K → V → Option ℕ → Run (Ptr (LinkedMap K V))
  unfolding make_map compact new_idx_loop set_val
  insert_at m key val (some entry_idx) =
      make_map m.live (set_val (compact m.entries) (new_idx_loop m.entries entry_idx 0 0 0) val)
  insert_at m key val none = make_map (m.live + 1) (compact m.entries ++ ((some key, val) ∷ []))

  unfoldable pub insert : Ptr (LinkedMap K V) → K → V → Run (Ptr (LinkedMap K V))
  unfolding index_lookup insert_at
  insert none key val = ok none
  insert (some m) key val = index_lookup m.index m.idx_cap key >>= insert_at m key val

  unfoldable pub remove_at : LinkedMap K V → K → Option ℕ → Run (Ptr (LinkedMap K V))
  unfolding forget_loop clear_key
  remove_at m key none = ok (some m)
  remove_at m key (some entry_idx) =
      forget_loop m.idx_cap m.index m.idx_cap entry_idx (home m.idx_cap key) >>= λ index. ok (
        some (record {
          live = m.live - 1;
          entries_cap = m.entries_cap;
          entries = clear_key m.entries entry_idx;
          index = index;
          idx_cap = m.idx_cap;
        }))

  unfoldable pub remove : Ptr (LinkedMap K V) → K → Run (Ptr (LinkedMap K V))
  unfolding index_lookup remove_at
  remove none key = ok none
  remove (some m) key = index_lookup m.index m.idx_cap key >>= remove_at m key

  unfoldable pub get : Ptr (LinkedMap K V) → K → Run (Ptr V)
  unfolding index_lookup value_at
  get none key = ok none
  get (some m) key = index_lookup m.index m.idx_cap key >>= value_at m

  unfoldable pub contains_key : Ptr (LinkedMap K V) → K → Run Bool
  unfolding get
  contains_key m key = get m key >>= λ v. ok (is_some v)
