-- ===== src/Runtime/LinkedMap/Refines.antt =====
-- Linked maps refine dictionaries that keep the order of insertion.
use tyra.Prelude.{
  ℕ, suc, ◌+◌, ◌-◌, ◌≡◌, ◌≤◌, ◌<◌, ◌^◌, refl, sym, ap, ◌∙◌, subst, none, some, List, [], ◌∷◌, ◌++◌,
  arith, get_elem?, get_elem?-bound, set, length, length-append, KeyEq,
}
use tyra.Prelude.Dict
use tyra.Prelude.Dict.{Dict}
use tyra.Runtime.Run.{Run, ok, ◌>>=◌, Ptr}
use tyra.Runtime.LinkedMap.{
  Entry, IndexSlot, LinkedMap, deleted, compact, new_idx_loop, set_val, clear_key, insert,
  insert_at, remove, remove_at, forget_loop, get, value_at, for_each, for_each_loop, visit, map_len,
  make_map,
}
use tyra.Runtime.LinkedMap.Probes.{forget_loop-Forgotten}
use tyra.Runtime.LinkedMap.Entries.{
  pairs, boxed, compact-boxed, boxed-append, live_before, new_idx_loop-live, erase, set_val-insert,
  get-pairs-some, insert_absent, length-insert, length-insert_present, erase_absent,
  pairs-clear_key, length-clear_key, length-pairs-clear_key,
}
use tyra.Runtime.LinkedMap.Valid.{
  IsUnique, IsIndexed, IsUnique-Distinct, insert-IsUnique, erase-IsUnique, clear-IsIndexed,
}
use tyra.Runtime.LinkedMap.Lookup.{
  IsValid, at, nowhere, index_lookup-Found, Refines, make_map-Refines,
}
use tyra.Runtime.Probe.{Hashing, home}
use tyra.Runtime.Probe.Mask.{around, around-zero, home-bound}

made {ℓ} :
    {K V : Type ℓ} ⦃e : KeyEq K⦄ ⦃h : Hashing K⦄ (d : Dict K V) (n : ℕ) (es : List (Entry K V))
    → n ≡ length d
    → es ≡ boxed d
    → length d ≤ 2 ^ 62
    → IsUnique d
    → Refines d (make_map n es)
made d n es size same small u =
    subst (λ k. Refines d (make_map k es)) (sym size)
      (subst (λ l. Refines d (make_map (length d) l)) (sym same) (make_map-Refines d small u))

module _ {ℓ} {K V : Type ℓ} ⦃e : KeyEq K⦄ ⦃h : Hashing K⦄ (m : LinkedMap K V)
    (valid : IsValid m) where
  -- `get` reads the dictionary that the entries stand for.
  pub get-pairs : (key : K) → get (some m) key ≡ ok (Dict.get key (pairs m.entries))
  unfolding get value_at
  get-pairs key = elim (index_lookup-Found m key valid) [
    | at i v a r ↦ rw r (
        rw a (
          ap ok
            (sym (get-pairs-some m.entries i key v (IsUnique-Distinct m.entries valid.unique) a))))
    | nowhere n r ↦ rw r (ap ok (sym n))
  ]

  insert_at-Refines :
      (key : K) (val : V) (i : ℕ) (v : V)
      → get_elem? m.entries i ≡ some (some key, v)
      → length (pairs m.entries) < 2 ^ 62
      → Refines (Dict.insert key val (pairs m.entries)) (insert_at m key val (some i))
  unfolding insert_at
  insert_at-Refines key val i v a small =
      let distinct = IsUnique-Distinct m.entries valid.unique in
      let old = get-pairs-some m.entries i key v distinct a in
      let d = Dict.insert key val (pairs m.entries) in
      let size : m.live ≡ length d =
        valid.lives ∙ sym (length-insert_present key val v (pairs m.entries) old) in
      let place : new_idx_loop m.entries i 0 0 0 ≡ live_before m.entries i =
        new_idx_loop-live m.entries i i 0 0 0 key v a (omega arith) ∙ omega arith in
      let written : set_val (compact m.entries) (new_idx_loop m.entries i 0 0 0) val ≡ boxed d =
        ap (λ t. set_val t (new_idx_loop m.entries i 0 0 0) val) (compact-boxed m.entries)
        ∙ ap (λ t. set_val (boxed (pairs m.entries)) t val) place
        ∙ set_val-insert m.entries i key val v distinct a in
      made d _ _ size written (omega (arith, small, length-insert key val (pairs m.entries)))
        (insert-IsUnique key val (pairs m.entries) valid.unique)

  append-Refines :
      (key : K) (val : V)
      → Dict.get key (pairs m.entries) ≡ none
      → length (pairs m.entries) < 2 ^ 62
      → Refines (Dict.insert key val (pairs m.entries)) (insert_at m key val none)
  unfolding insert_at boxed
  append-Refines key val absent small =
      let old = pairs m.entries in
      let d = Dict.insert key val old in
      let longer = insert_absent key val old absent in
      let size : m.live + 1 ≡ length d =
        let l = ap length longer in
        omega (arith, l, length-append old ((key, val) ∷ []), valid.lives) in
      let written : compact m.entries ++ ((some key, val) ∷ []) ≡ boxed d =
        ap (λ t. t ++ ((some key, val) ∷ [])) (compact-boxed m.entries)
        ∙ sym (boxed-append old ((key, val) ∷ []))
        ∙ ap boxed (sym longer) in
      made d _ _ size written (omega (arith, small, length-insert key val old))
        (insert-IsUnique key val old valid.unique)

  -- `insert` sets the key's pair in place or adds a pair at the end.
  pub insert-Refines :
      (key : K) (val : V)
      → length (pairs m.entries) < 2 ^ 62
      → Refines (Dict.insert key val (pairs m.entries)) (insert (some m) key val)
  unfolding insert
  insert-Refines key val small = elim (index_lookup-Found m key valid) [
    | at i v a r ↦ rw r (insert_at-Refines key val i v a small)
    | nowhere n r ↦ rw r (append-Refines key val n small)
  ]

  -- The map behind the loop of `remove`.
  abbrev finish : ℕ → List (IndexSlot K) → Run (Ptr (LinkedMap K V))
  finish i index = ok (
      some (record {
        live = m.live - 1;
        entries_cap = m.entries_cap;
        entries = clear_key m.entries i;
        index = index;
        idx_cap = m.idx_cap;
      }))

  remove_at-Refines :
      (key : K) (i : ℕ) (v : V)
      → get_elem? m.entries i ≡ some (some key, v)
      → Refines (erase key (pairs m.entries)) (remove_at m key (some i))
  unfolding remove_at
  remove_at-Refines key i v a =
      let cap = m.idx_cap in
      let start = home cap key in
      let inside = home-bound key valid.power in
      let distinct = IsUnique-Distinct m.entries valid.unique in
      let there = valid.indexed.reach i key v (get_elem?-bound m.entries i _ a) a in
      let f =
        forget_loop-Forgotten m.index cap start valid.power inside valid.indexed.sized i cap 0
          there.steps key (omega arith) (omega arith) there.bound there.here in
      let same = pairs-clear_key m.entries i key v distinct a in
      let size = length-clear_key m.entries i in
      let fewer = length-pairs-clear_key m.entries i key v a in
      record {
        map = record {
          live = m.live - 1;
          entries_cap = m.entries_cap;
          entries = clear_key m.entries i;
          index = set m.index (around cap start f.steps) deleted;
          idx_cap = cap;
        };
        valid = record {
          power = valid.power;
          indexed =
              subst
                (λ n.
                  IsIndexed (clear_key m.entries i) n
                    (set m.index (around cap start f.steps) deleted) cap)
                (sym size)
                (clear-IsIndexed m.entries (length m.entries) m.index cap (around cap start f.steps)
                  f.key i valid.indexed f.was);
          counted = valid.counted ∙ sym size;
          lives = omega (arith, valid.lives, fewer);
          unique = subst IsUnique (sym same) (erase-IsUnique key (pairs m.entries) valid.unique);
        };
        view = same;
        result =
            ap (λ s. forget_loop cap m.index cap i s >>= finish i)
              (sym (around-zero cap start inside))
            ∙ ap (λ t. t >>= finish i) f.result;
      }

  -- `remove` takes the key's pair out.
  pub remove-Refines : (key : K) → Refines (erase key (pairs m.entries)) (remove (some m) key)
  unfolding remove remove_at
  remove-Refines key = elim (index_lookup-Found m key valid) [
    | at i v a r ↦ rw r (remove_at-Refines key i v a)
    | nowhere n r ↦ rw r (record {
      map = m;
      valid = valid;
      view = sym (erase_absent key (pairs m.entries) n);
      result = refl;
    })
  ]

  pub map_len-pairs : map_len (some m) ≡ length (pairs m.entries)
  unfolding map_len
  map_len-pairs = valid.lives

-- The pairs handed to a callback, one behind the other.
unfoldable pub fold_pairs {ℓ κ} : {K V : Type ℓ} {C : Type κ} → (C → K → V → C) → Dict K V → C → C
fold_pairs call [] ctx = ctx
fold_pairs call ((k, v) ∷ d) ctx = fold_pairs call d (call ctx k v)

module _ {ℓ κ} {K V : Type ℓ} {C : Type κ} (call : C → K → V → C) where
  for_each_loop-pairs :
      (es rest : List (Entry K V)) (i : ℕ) (ctx : C)
      → ((j : ℕ) → get_elem? es (i + j) ≡ get_elem? rest j)
      → for_each_loop call es (length rest) i ctx ≡ ok (fold_pairs call (pairs rest) ctx)
  unfolding for_each_loop visit pairs fold_pairs
  for_each_loop-pairs es [] i ctx h = refl
  for_each_loop-pairs es ((none, v) ∷ rest) i ctx h =
      let now : get_elem? es i ≡ some (none, v) = ap (get_elem? es) (omega arith) ∙ h 0 in
      rw now
        (for_each_loop-pairs es rest (i + 1) ctx (λ j. ap (get_elem? es) (omega arith) ∙ h (suc j)))
  for_each_loop-pairs es ((some k, v) ∷ rest) i ctx h =
      let now : get_elem? es i ≡ some (some k, v) = ap (get_elem? es) (omega arith) ∙ h 0 in
      rw now (
        for_each_loop-pairs es rest (i + 1) (call ctx k v)
          (λ j. ap (get_elem? es) (omega arith) ∙ h (suc j)))

  -- `for_each` hands every live pair to the callback once, in the order of insertion.
  pub for_each-pairs :
      ⦃e : KeyEq K⦄ ⦃h : Hashing K⦄ (m : LinkedMap K V) (ctx : C)
      → IsValid m
      → for_each call (some m) ctx ≡ ok (fold_pairs call (pairs m.entries) ctx)
  unfolding for_each
  for_each-pairs m ctx valid =
      ap (λ n. for_each_loop call m.entries n 0 ctx) valid.counted
      ∙ for_each_loop-pairs m.entries m.entries 0 ctx (λ j. ap (get_elem? m.entries) (omega arith))
