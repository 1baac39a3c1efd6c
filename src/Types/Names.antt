-- ===== src/Types/Names.antt =====
-- compiler/crates/tyra-types/src/ty.rs: the names of types in generated code and in messages.
pub mod Collisions
use Prim.Native.String.{◌++◌}
use tyra.Prelude.{ℕ, String}
use tyra.Types.Ty.{
  Ty, Tys, nil, cons, int, float, bool, string, rune, bytes, unit, never, named, generic, fn, var,
  error,
}

-- `mono_args` is `arg_names.join("__")`.
unfoldable mutual
  pub monomorphized_name : Ty → String
  monomorphized_name (generic name args) = name ++ ("__" ++ mono_args args)
  monomorphized_name int = "Int"
  monomorphized_name float = "Float"
  monomorphized_name bool = "Bool"
  monomorphized_name string = "String"
  monomorphized_name rune = "Rune"
  monomorphized_name bytes = "Bytes"
  monomorphized_name unit = "Unit"
  monomorphized_name never = "Never"
  monomorphized_name (named name) = name
  monomorphized_name t = "Unknown"

  pub mono_args : Tys → String
  mono_args nil = ""
  mono_args (cons t nil) = monomorphized_name t
  mono_args (cons t (cons u ts)) = monomorphized_name t ++ ("__" ++ mono_args (cons u ts))

-- `show` is the standard library's formatting of a `u32`.
unfoldable mutual
  pub display_name : (ℕ → String) → Ty → String
  display_name show int = "Int"
  display_name show float = "Float"
  display_name show bool = "Bool"
  display_name show string = "String"
  display_name show rune = "Rune"
  display_name show bytes = "Bytes"
  display_name show unit = "Unit"
  display_name show never = "Never"
  display_name show (named name) = name
  display_name show (generic name args) = name ++ ("<" ++ (display_all show args ++ ">"))
  display_name show (fn params ret) =
      "fn(" ++ (display_all show params ++ (") -> " ++ display_name show ret))
  display_name show (var id) = "?" ++ show id
  display_name show error = "<error>"

  pub display_all : (ℕ → String) → Tys → String
  display_all show nil = ""
  display_all show (cons t nil) = display_name show t
  display_all show (cons t (cons u ts)) =
      display_name show t ++ (", " ++ display_all show (cons u ts))
