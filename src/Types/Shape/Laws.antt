-- ===== src/Types/Shape/Laws.antt =====
-- The tests for a shape and the accessors agree.
use tyra.Prelude.{
  ℕ, suc, Bool, true, false, ◌&&◌, ◌≡◌, refl, Option, none, some, String, string_eq, nat_eq,
  if◌then◌else◌, ◌==◌, is_some, arith, Bool-cases, inl, inr,
}
use tyra.Types.Ty.{Ty, Tys, nil, cons, len, generic}
use tyra.Types.Shape.{
  args_of, first, second, both, is_option, is_result, is_list, is_set, is_linked_map, is_linked_set,
  is_sorted_map, is_sorted_set, option_inner, result_ok_type, result_err_type, list_elem, set_elem,
  linked_map_kv, linked_set_elem, sorted_map_kv, sorted_set_elem,
}

abbrev guarded : Bool → ℕ → Tys → Option Tys
guarded b k args = if b && (len args == k) then some args else none

first-guarded :
    (b : Bool) (k : ℕ) (args : Tys)
    → is_some (first (guarded b (suc k) args)) ≡ is_some (guarded b (suc k) args)
unfolding first
first-guarded false k args = refl
first-guarded true k nil = let c : (0 == suc k) ≡ false = ground arith in rw c refl
first-guarded true k (cons a rest) = elim (Bool-cases (suc (len rest) == suc k)) [
  | inl y ↦ rw y refl
  | inr n ↦ rw n refl
]

pairs-guarded :
    (b : Bool) (args : Tys)
    → (is_some (second (guarded b 2 args)) ≡ is_some (guarded b 2 args))
      × (is_some (both (guarded b 2 args)) ≡ is_some (guarded b 2 args))
unfolding second both
pairs-guarded false args = (refl, refl)
pairs-guarded true nil = (refl, refl)
pairs-guarded true (cons a nil) = (refl, refl)
pairs-guarded true (cons a (cons b rest)) = elim (Bool-cases (suc (suc (len rest)) == 2)) [
  | inl y ↦ rw y (refl, refl)
  | inr n ↦ rw n (refl, refl)
]

first-args_of :
    (n : String) (k : ℕ) (t : Ty)
    → is_some (first (args_of n (suc k) t)) ≡ is_some (args_of n (suc k) t)
unfolding args_of first
first-args_of n k t =
    elim t as (λ t. is_some (first (args_of n (suc k) t)) ≡ is_some (args_of n (suc k) t)) [
      | generic name args ↦ first-guarded (name == n) k args
      | _ ↦ refl
    ]

pairs-args_of :
    (n : String) (t : Ty)
    → (is_some (second (args_of n 2 t)) ≡ is_some (args_of n 2 t))
      × (is_some (both (args_of n 2 t)) ≡ is_some (args_of n 2 t))
unfolding args_of second both
pairs-args_of n t =
    elim t
      as (λ t.
        (is_some (second (args_of n 2 t)) ≡ is_some (args_of n 2 t))
        × (is_some (both (args_of n 2 t)) ≡ is_some (args_of n 2 t))) [
          | generic name args ↦ pairs-guarded (name == n) args
          | _ ↦ (refl, refl)
        ]

-- Each accessor of a type's parts answers exactly on the types that the test for the shape accepts:
-- options, results (both accessors), lists, sets, linked and sorted maps and sets.
accessors :
    (t : Ty)
    → (is_some (option_inner t) ≡ is_option t)
      × ((is_some (result_ok_type t) ≡ is_result t)
          × ((is_some (result_err_type t) ≡ is_result t)
              × ((is_some (list_elem t) ≡ is_list t)
                  × ((is_some (set_elem t) ≡ is_set t)
                      × ((is_some (linked_map_kv t) ≡ is_linked_map t)
                          × ((is_some (linked_set_elem t) ≡ is_linked_set t)
                              × ((is_some (sorted_map_kv t) ≡ is_sorted_map t)
                                  × (is_some (sorted_set_elem t) ≡ is_sorted_set t))))))))
unfolding is_option option_inner is_result result_ok_type result_err_type is_list list_elem is_set
    set_elem is_linked_map linked_map_kv is_linked_set linked_set_elem is_sorted_map sorted_map_kv
    is_sorted_set sorted_set_elem
accessors t = (
  first-args_of "Option" 0 t,
  (
    first-args_of "Result" 1 t,
    (
      (pairs-args_of "Result" t).0,
      (
        first-args_of "List" 0 t,
        (
          first-args_of "Set" 0 t,
          (
            (pairs-args_of "LinkedMap" t).1,
            (
              first-args_of "LinkedSet" 0 t,
              ((pairs-args_of "SortedMap" t).1, first-args_of "SortedSet" 0 t),
            ),
          ),
        ),
      ),
    ),
  ),
)
