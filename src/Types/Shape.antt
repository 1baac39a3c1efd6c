-- ===== src/Types/Shape.antt =====
-- compiler/crates/tyra-types/src/ty.rs: the tests for a type's shape and the accessors of its parts.
pub mod Laws
use tyra.Prelude.{
  ℕ, Bool, true, false, ◌&&◌, Option, none, some, String, string_eq, nat_eq, if◌then◌else◌, ◌==◌,
  leb, is_some,
}
use tyra.Types.Ty.{
  Ty, Tys, nil, cons, len, int, float, bool, string, rune, bytes, unit, never, generic, var, error,
}

unfoldable pub is_primitive : Ty → Bool
is_primitive int = true
is_primitive float = true
is_primitive bool = true
is_primitive string = true
is_primitive rune = true
is_primitive bytes = true
is_primitive unit = true
is_primitive never = true
is_primitive t = false

-- `Ty::Generic(name, args) if name == n && args.len() == k`: the arguments.
unfoldable pub args_of : String → ℕ → Ty → Option Tys
args_of n k (generic name args) = if (name == n) && (len args == k) then some args else none
args_of n k t = none

-- `&args[0]` and `&args[1]`.
unfoldable pub first : Option Tys → Option Ty
first (some (cons a rest)) = some a
first other = none

unfoldable pub second : Option Tys → Option Ty
second (some (cons a (cons b rest))) = some b
second other = none

unfoldable pub both : Option Tys → Option (Ty × Ty)
both (some (cons a (cons b rest))) = some (a, b)
both other = none

unfoldable pub is_option : Ty → Bool
is_option t = is_some (args_of "Option" 1 t)

unfoldable pub option_inner : Ty → Option Ty
option_inner t = first (args_of "Option" 1 t)

unfoldable pub is_result : Ty → Bool
is_result t = is_some (args_of "Result" 2 t)

unfoldable pub result_ok_type : Ty → Option Ty
result_ok_type t = first (args_of "Result" 2 t)

unfoldable pub result_err_type : Ty → Option Ty
result_err_type t = second (args_of "Result" 2 t)

unfoldable pub is_list : Ty → Bool
is_list t = is_some (args_of "List" 1 t)

unfoldable pub list_elem : Ty → Option Ty
list_elem t = first (args_of "List" 1 t)

unfoldable pub is_set : Ty → Bool
is_set t = is_some (args_of "Set" 1 t)

unfoldable pub set_elem : Ty → Option Ty
set_elem t = first (args_of "Set" 1 t)

unfoldable pub is_linked_map : Ty → Bool
is_linked_map t = is_some (args_of "LinkedMap" 2 t)

unfoldable pub linked_map_kv : Ty → Option (Ty × Ty)
linked_map_kv t = both (args_of "LinkedMap" 2 t)

unfoldable pub is_linked_set : Ty → Bool
is_linked_set t = is_some (args_of "LinkedSet" 1 t)

unfoldable pub linked_set_elem : Ty → Option Ty
linked_set_elem t = first (args_of "LinkedSet" 1 t)

unfoldable pub is_sorted_map : Ty → Bool
is_sorted_map t = is_some (args_of "SortedMap" 2 t)

unfoldable pub sorted_map_kv : Ty → Option (Ty × Ty)
sorted_map_kv t = both (args_of "SortedMap" 2 t)

unfoldable pub is_sorted_set : Ty → Bool
is_sorted_set t = is_some (args_of "SortedSet" 1 t)

unfoldable pub sorted_set_elem : Ty → Option Ty
sorted_set_elem t = first (args_of "SortedSet" 1 t)

unfoldable pub tuple_elems : Ty → Option Tys
tuple_elems (generic name args) = if (name == "Tuple") && leb 2 (len args) then some args else none
tuple_elems t = none

unfoldable pub is_tuple : Ty → Bool
unfolding tuple_elems
is_tuple t = is_some (tuple_elems t)

unfoldable pub scalar_suffix : Option Ty → Option String
scalar_suffix (some int) = some "Int"
scalar_suffix (some float) = some "Float"
scalar_suffix (some string) = some "Str"
scalar_suffix other = none

unfoldable pub option_interp_suffix : Ty → Option String
option_interp_suffix t = scalar_suffix (option_inner t)

unfoldable mutual
  unfolding option_interp_suffix

  pub is_interp_displayable : Ty → Bool
  is_interp_displayable int = true
  is_interp_displayable float = true
  is_interp_displayable bool = true
  is_interp_displayable string = true
  is_interp_displayable error = true
  is_interp_displayable (var i) = true
  is_interp_displayable (generic name args) =
      let elements = all_displayable args in
      if name == "Tuple" then elements else is_some (option_interp_suffix (generic name args))
  is_interp_displayable t = is_some (option_interp_suffix t)

  pub all_displayable : Tys → Bool
  all_displayable nil = true
  all_displayable (cons t ts) = is_interp_displayable t && all_displayable ts
