-- ===== src/Runtime/SortedMap/Laws.antt =====
-- What the updates of a sorted map promise: they end, they keep the array sorted, and they act on
-- lookups like updates of a finite map.
use tyra.Prelude.{
  is_some, ℕ, suc, ◌+◌, ◌-◌, ◌≡◌, refl, sym, ◌∙◌, ap, subst, Bool, true, false, Option, none, some,
  List, [], ◌∷◌, ◌++◌, arith, if◌then◌else◌, length, get_elem?, take, drop, inl, inr, Bool-cases,
  ◌==◌, nat_eq, nat_beq_iff,
}
use tyra.Runtime.Run.{ok}
use tyra.Runtime.Order.{Comparison, same_key, same_key_iff}
use tyra.Runtime.SortedMap.{
  Entry, SortedMap, Slot, found, absent, set_val, insert, insert_at, remove, remove_at, get,
}
use tyra.Runtime.SortedMap.Keys.{IsSorted, find}
use tyra.Runtime.SortedMap.Search.{Located, hit, miss}
use tyra.Runtime.SortedMap.Edits.{
  length-set_val, length-insert, length-erase, IsSorted-set_val, IsSorted-insert, IsSorted-erase,
  find-set_val, find-insert, find-erase,
}
use tyra.Runtime.SortedMap.Lookup.{IsValid, search, find-hit, find-miss, get-find}

if-ok {ℓ} : {A : Type ℓ} (b : Bool) (x y : A) → ok (if b then x else y) ≡ (if b then ok x else ok y)
if-ok true x y = refl
if-ok false x y = refl

nil_of_length {ℓ} : {A : Type ℓ} (xs : List A) → length xs ≡ 0 → xs ≡ []
nil_of_length [] h = refl
nil_of_length (x ∷ xs) h = absurd (omega arith)

unchanged {ℓ} :
    {A : Type ℓ} (b : Bool) (z : Option A) → (b ≡ true → z ≡ none) → z ≡ (if b then none else z)
unchanged true z h = h refl
unchanged false z h = refl

module _ {ℓ} {K V : Type ℓ} ⦃o : Comparison K⦄ where
  -- What `insert` puts at the slot that the search gave.
  record Inserted (m : SortedMap K V) (key : K) (val : V) (m' : SortedMap K V) : Type ℓ where
    pub valid : IsValid m'
    pub finds :
        (j : K) → find j m'.entries ≡ (if same_key key j then some val else find j m.entries)
    pub grows : m'.len ≡ (if is_some (find key m.entries) then m.len else m.len + 1)

  insert_at-Inserted :
      (m : SortedMap K V) (key : K) (val : V) (slot : Slot)
      → IsValid m
      → Located key m.entries slot
      → Inserted m key val (insert_at m key val slot)
  insert_at-Inserted m key val (found i) h (hit e g q) = record {
    valid = record {
      counted = h.counted ∙ sym (length-set_val m.entries i val);
      sorted = IsSorted-set_val m.entries i val h.sorted;
    };
    finds = λ j.
        subst
          (λ k.
            find j (set_val m.entries i val)
            ≡ (if same_key k j then some val else find j m.entries))
          q (find-set_val j m.entries i val e h.sorted g);
    grows = rw (find-hit m.entries key i e h.sorted g q) refl;
  }
  insert_at-Inserted m key val (absent i) h (miss l b a) = record {
    valid = record {
      counted = omega (arith, h.counted, length-insert m.entries i (key, val));
      sorted = IsSorted-insert m.entries i key val h.sorted b a;
    };
    finds = λ j. find-insert j m.entries i key val b;
    grows = rw (find-miss m.entries key i b a) refl;
  }

  -- On a valid map `insert` ends with a valid map, in which the key has the new value and every
  -- other key has the value it had; the length grows by one exactly if the key was not there.
  pub insert_lem :
      (m : SortedMap K V) (key : K) (val : V)
      → IsValid m
      → (m' : SortedMap K V) × (insert (some m) key val ≡ ok (some m'))
        × IsValid m'
        × ((j : K) → get (some m') j ≡ (if same_key key j then ok (some val) else get (some m) j))
        × (m'.len ≡ (if is_some (find key m.entries) then m.len else m.len + 1))
  unfolding insert
  insert_lem m key val h =
      let (slot, p, l) = search m key h in
      let r = insert_at-Inserted m key val slot h l in
      (
        insert_at m key val slot,
        rw p,
        r.valid,
        λ j.
            get-find _ j r.valid
            ∙ ap ok (r.finds j)
            ∙ if-ok (same_key key j) (some val) (find j m.entries)
            ∙ ap (λ x. if same_key key j then ok (some val) else x) (sym (get-find m j h)),
        r.grows,
      )

  -- The entries without the one at an index, as `remove` copies them.
  pub erased : List (Entry K V) → ℕ → List (Entry K V)
  erased es i = take i es ++ drop (suc i) es

  record Removed (m : SortedMap K V) (key : K) (m' : SortedMap K V) : Type ℓ where
    pub valid : IsValid m'
    pub finds : (j : K) → find j m'.entries ≡ (if same_key key j then none else find j m.entries)
    pub shrinks : m'.len ≡ (if is_some (find key m.entries) then m.len - 1 else m.len)

  remove_at-entries :
      (m : SortedMap K V) (i : ℕ) (e : Entry K V)
      → IsValid m
      → get_elem? m.entries i ≡ some e
      → (remove_at m (found i)).entries ≡ erased m.entries i
  unfolding erased
  remove_at-entries m i e h g = elim (Bool-cases (m.len - 1 == 0)) [
    | inl z ↦ rw z (
        sym (
          nil_of_length (erased m.entries i) (
            omega (arith, (nat_beq_iff (m.len - 1) 0).0 z, h.counted, length-erase m.entries i g))))
    | inr n ↦ rw n (ap (λ k. take i m.entries ++ drop k m.entries) {y = suc i} (omega arith))
  ]

  remove_at-Removed :
      (m : SortedMap K V) (key : K) (slot : Slot)
      → IsValid m
      → Located key m.entries slot
      → Removed m key (remove_at m slot)
  unfolding erased
  remove_at-Removed m key (absent i) h (miss l b a) =
      let n = find-miss m.entries key i b a in
      record {
        valid = h;
        finds = λ j.
            unchanged (same_key key j) (find j m.entries)
              (λ c. subst (λ k. find k m.entries ≡ none) ((same_key_iff key j).0 c) n);
        shrinks = rw n refl;
      }
  remove_at-Removed m key (found i) h (hit e g q) =
      let es = remove_at-entries m i e h g in
      record {
        valid = record {
          counted =
              ap (λ (n : ℕ). n - 1) h.counted
              ∙ omega (arith, length-erase m.entries i g)
              ∙ ap length (sym es);
          sorted = subst IsSorted (sym es) (IsSorted-erase m.entries i h.sorted);
        };
        finds = λ j.
            ap (find j) es
            ∙ subst
                (λ k.
                  find j (erased m.entries i) ≡ (if same_key k j then none else find j m.entries))
                q (find-erase j m.entries i e h.sorted g);
        shrinks = rw (find-hit m.entries key i e h.sorted g q) refl;
      }

  -- On a valid map `remove` ends with a valid map, in which the key has no value and every other key
  -- has the value it had; the length shrinks by one exactly if the key was there.
  pub remove_lem :
      (m : SortedMap K V) (key : K)
      → IsValid m
      → (m' : SortedMap K V) × (remove (some m) key ≡ ok (some m'))
        × IsValid m'
        × ((j : K) → get (some m') j ≡ (if same_key key j then ok none else get (some m) j))
        × (m'.len ≡ (if is_some (find key m.entries) then m.len - 1 else m.len))
  unfolding remove
  remove_lem m key h =
      let (slot, p, l) = search m key h in
      let r = remove_at-Removed m key slot h l in
      (
        remove_at m slot,
        rw p,
        r.valid,
        λ j.
            get-find _ j r.valid
            ∙ ap ok (r.finds j)
            ∙ if-ok (same_key key j) none (find j m.entries)
            ∙ ap (λ x. if same_key key j then ok none else x) (sym (get-find m j h)),
        r.shrinks,
      )
