-- ===== src/Resolve.antt =====
-- compiler/crates/tyra-resolve: name resolution.
pub mod Names
pub mod Scope
