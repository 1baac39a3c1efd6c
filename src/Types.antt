-- ===== src/Types.antt =====
-- compiler/crates/tyra-types/src/ty.rs: the types of the checker and their unification.
pub mod Ty
pub mod Shape
pub mod Names
pub mod Subst
pub mod Unify
pub mod Written
