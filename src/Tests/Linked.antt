-- ===== src/Tests/Linked.antt =====
-- Linked maps and sets over numbers, whose hashes collide.
use tyra.Prelude.{ℕ, ◌+◌, ◌-◌, ◌^◌, arith, ◌≡◌, refl, some, List, [], ◌∷◌, length, is_some, nat_eq}
use tyra.Prelude.Dict
use tyra.Runtime.Run.{ok, fault, ◌>>=◌}
use tyra.Runtime.LinkedMap.{get, contains_key, map_len, for_each, new, insert, remove}
use tyra.Runtime.LinkedMap.Entries.{erase}
use tyra.Runtime.LinkedMap.History.{Change, put, drop_key, told, perform, perform-reads}
use tyra.Runtime.LinkedMap.Refines.{fold_pairs}
use tyra.Runtime.LinkedSet
use tyra.Runtime.LinkedSet.{LinkedSet}
use tyra.Runtime.LinkedSet.History
use tyra.Runtime.LinkedSet.History.{elem, fold_elems, perform_set-reads}
use tyra.Runtime.Probe.{Hashing, next_pow2_loop}
use tyra.Runtime.Probe.Mask.{Capacity, next_pow2-Capacity, next_pow2_loop-endless}

-- All keys start at the last slot of a small table.
instance abbrev colliding : Hashing ℕ
colliding = record { hash = λ k. 7 }

abbrev changes : List (Change ℕ ℕ)
changes = put 4 40 ∷ put 2 20 ∷ put 9 90 ∷ drop_key 4 ∷ put 2 21 ∷ put 4 41 ∷ []

perform-reads_example :
    ((perform changes new >>= λ m. get m 4) ≡ ok (Dict.get 4 (told changes [])))
    × ((perform changes new >>= λ m. contains_key m 4)
        ≡ ok (is_some (Dict.get 4 (told changes []))))
    × ((perform changes new >>= λ m. ok (map_len m)) ≡ ok (length (told changes [])))
    × ((perform changes new >>= λ m. for_each (λ (c k v : ℕ). c + v) m 0)
        ≡ ok (fold_pairs (λ (c k v : ℕ). c + v) (told changes []) 0))
perform-reads_example = perform-reads (λ c k v. c + v) changes 4 0 (omega arith)

-- The key that was removed and put back comes last, and the one set again keeps its place.
told-changes : told changes [] ≡ (2, 21) ∷ (9, 90) ∷ (4, 41) ∷ []
unfolding told Dict.insert erase
told-changes = refl

get-changes : (perform changes new >>= λ m. get m 9) ≡ ok (some 90)
unfolding perform get new insert remove
get-changes = refl

abbrev set_changes : List (LinkedSet.History.Change ℕ)
set_changes =
    LinkedSet.History.put 4
    ∷ LinkedSet.History.put 2
    ∷ LinkedSet.History.take_out 4
    ∷ LinkedSet.History.put 2
    ∷ []

perform_set-reads_example :
    ((LinkedSet.new >>= LinkedSet.History.perform set_changes >>= λ s. LinkedSet.contains s 4)
      ≡ ok (elem 4 (LinkedSet.History.told set_changes [])))
    × ((LinkedSet.new >>= LinkedSet.History.perform set_changes >>= λ s. ok (LinkedSet.len s))
        ≡ ok (length (LinkedSet.History.told set_changes [])))
    × ((LinkedSet.new >>= LinkedSet.History.perform set_changes >>= λ s.
          LinkedSet.for_each (λ (c k : ℕ). c + k) s 0)
        ≡ ok (fold_elems (λ (c k : ℕ). c + k) (LinkedSet.History.told set_changes []) 0))
perform_set-reads_example = perform_set-reads (λ c k. c + k) set_changes 4 0 (omega arith)

next_pow2-Capacity_example : Capacity 20
next_pow2-Capacity_example = next_pow2-Capacity 20 (omega arith)

next_pow2_loop-endless_example : next_pow2_loop 70 8 (2 ^ 64 - 1) ≡ fault
next_pow2_loop-endless_example = next_pow2_loop-endless (2 ^ 64 - 1) (omega arith) 70
