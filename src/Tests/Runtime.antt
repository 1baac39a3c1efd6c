-- ===== src/Tests/Runtime.antt =====
-- A map and a set over numbers.
use Prim.Native.Nat.{compare, Ordering}
use tyra.Prelude.{
  ℕ, ◌+◌, ◌-◌, ◌≡◌, refl, true, false, some, none, [], ◌∷◌, is_some, if◌then◌else◌, arith,
}
use tyra.Runtime.Run.{ok}
use tyra.Runtime.Order.{ℤ, pos, negsuc, is_neg, is_pos, Comparison, same_key}
use tyra.Runtime.SortedMap.{SortedMap, insert, remove, get, for_each}
use tyra.Runtime.SortedMap.Keys.{IsSorted, find}
use tyra.Runtime.SortedMap.Lookup.{IsValid, get-find}
use tyra.Runtime.SortedMap.Laws.{insert_lem, remove_lem}
use tyra.Runtime.SortedMap.Traverse.{fold_entries, for_each_lem}
use tyra.Runtime.SortedSet.{contains, len}
use tyra.Runtime.SortedSet.Laws.{wrapped, insert_elem, remove_elem}

abbrev nat_cmp : ℕ → ℕ → ℤ
nat_cmp a b = elim (compare a b) [
  | Ordering.lt ↦ negsuc 0
  | Ordering.eq ↦ pos 0
  | Ordering.gt ↦ pos 1
]

cmp_refl : (a : ℕ) → nat_cmp a a ≡ pos 0
cmp_refl a = ground arith

cmp_eq : (a b : ℕ) → nat_cmp a b ≡ pos 0 → a ≡ b
cmp_eq a b h = ground arith

cmp_flip : (a b : ℕ) → is_pos (nat_cmp a b) ≡ is_neg (nat_cmp b a)
cmp_flip a b = ground arith

cmp_trans :
    (a b c : ℕ)
    → is_neg (nat_cmp a b) ≡ true
    → is_neg (nat_cmp b c) ≡ true
    → is_neg (nat_cmp a c) ≡ true
cmp_trans a b c h k = ground arith

instance abbrev nat_comparison : Comparison ℕ
nat_comparison = record {
  cmp = nat_cmp;
  cmp_refl = cmp_refl;
  cmp_eq = cmp_eq;
  cmp_flip = cmp_flip;
  cmp_trans = cmp_trans;
}

abbrev two_entries : SortedMap ℕ ℕ
two_entries = record { len = 2; entries = (1, 10) ∷ (3, 30) ∷ [] }

two_entries-IsValid : IsValid two_entries
two_entries-IsValid = record { counted = refl; sorted = ((refl, tt), (tt, tt)) }

abbrev two_elems : SortedMap ℕ Unit
two_elems = record { len = 2; entries = (1, tt) ∷ (3, tt) ∷ [] }

two_elems-IsValid : IsValid two_elems
two_elems-IsValid = record { counted = refl; sorted = ((refl, tt), (tt, tt)) }

get-find_example : get (some two_entries) 3 ≡ ok (find 3 two_entries.entries)
get-find_example = get-find two_entries 3 two_entries-IsValid

insert_lem_example :
    (m' : SortedMap ℕ ℕ) × (insert (some two_entries) 2 20 ≡ ok (some m'))
    × IsValid m'
    × ((j : ℕ)
        → get (some m') j ≡ (if same_key 2 j then ok (some 20) else get (some two_entries) j))
    × (m'.len
        ≡ (if is_some (find 2 two_entries.entries) then two_entries.len else two_entries.len + 1))
insert_lem_example = insert_lem two_entries 2 20 two_entries-IsValid

remove_lem_example :
    (m' : SortedMap ℕ ℕ) × (remove (some two_entries) 3 ≡ ok (some m'))
    × IsValid m'
    × ((j : ℕ) → get (some m') j ≡ (if same_key 3 j then ok none else get (some two_entries) j))
    × (m'.len
        ≡ (if is_some (find 3 two_entries.entries) then two_entries.len - 1 else two_entries.len))
remove_lem_example = remove_lem two_entries 3 two_entries-IsValid

for_each_lem_example :
    (for_each (λ (c k v : ℕ). c + v) (some two_entries) 0
      ≡ ok (fold_entries (λ (c k v : ℕ). c + v) 0 two_entries.entries))
    × IsSorted two_entries.entries
for_each_lem_example = for_each_lem (λ c k v. c + v) two_entries 0 two_entries-IsValid

insert_elem_example :
    (m' : SortedMap ℕ Unit) × (tyra.Runtime.SortedSet.insert (wrapped two_elems) 2
      ≡ ok (wrapped m'))
    × IsValid m'
    × ((j : ℕ)
        → contains (wrapped m') j
          ≡ (if same_key 2 j then ok true else contains (wrapped two_elems) j))
    × (len (wrapped m') ≡ (
        if is_some (find 2 two_elems.entries)
        then len (wrapped two_elems)
        else len (wrapped two_elems) + 1))
insert_elem_example = insert_elem two_elems 2 two_elems-IsValid

remove_elem_example :
    (m' : SortedMap ℕ Unit) × (tyra.Runtime.SortedSet.remove (wrapped two_elems) 3
      ≡ ok (wrapped m'))
    × IsValid m'
    × ((j : ℕ)
        → contains (wrapped m') j
          ≡ (if same_key 3 j then ok false else contains (wrapped two_elems) j))
    × (len (wrapped m') ≡ (
        if is_some (find 3 two_elems.entries)
        then len (wrapped two_elems) - 1
        else len (wrapped two_elems)))
remove_elem_example = remove_elem two_elems 3 two_elems-IsValid
