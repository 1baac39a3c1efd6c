-- ===== src/Syntax.antt =====
-- compiler/crates/tyra-lexer and compiler/crates/tyra-parser: tokens and the parser's cursor.
pub mod Token
pub mod Cursor
pub mod Text
pub mod Scan
pub mod Literals
pub mod Strings
pub mod Lexer
pub mod KindName
pub mod TokenStream
