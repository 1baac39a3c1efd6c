-- ===== src/Types/Ty.antt =====
-- compiler/crates/tyra-types/src/ty.rs: `Ty`, its predicates and its names.
use tyra.Prelude.{ℕ, suc, String}

-- `Tys` is the `Vec<Ty>` inside a generic type or a function type.
mutual
  pub data Ty : Type 0 where
    int float bool string rune bytes unit never : Ty
    named : String → Ty
    generic : String → Tys → Ty
    fn : Tys → Ty → Ty
    var : ℕ → Ty
    error : Ty

  pub data Tys : Type 0 where
    nil : Tys
    cons : Ty → Tys → Tys

-- `args.len()`.
abbrev pub len : Tys → ℕ
len nil = 0
len (cons t ts) = suc (len ts)
