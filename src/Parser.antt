-- ===== src/Parser.antt =====
-- compiler/crates/tyra-parser: the grammar over the token stream.
pub mod Parse
pub mod Commas
pub mod TypeExpr
pub mod Ast
pub mod Pattern
pub mod Parts
pub mod Param
pub mod Postfix
pub mod Prefix
pub mod Control
pub mod Expr
pub mod Stmt
pub mod Decl
pub mod Item
pub mod Source
