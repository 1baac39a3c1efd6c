-- ===== src/Tests.antt =====
-- Runs of the models at concrete inputs, and the theorems applied to them.
mod Types
mod Runtime
mod Diagnostics
mod Syntax
mod Resolve
mod Linked
mod Lexing
mod Parsing
