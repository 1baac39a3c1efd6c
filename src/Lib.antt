-- ===== src/Lib.antt =====
-- The Tyra toolchain: a compiler from Tyra source to an intermediate language, with an interpreter and
-- an LLVM back end, a runtime library and tools. The compiler is a pipeline of crates under
-- compiler/crates: the lexer makes tokens, the parser reads them through a cursor, the resolver
-- binds names in a stack of scopes, the type checker infers types by unification, and every pass
-- reports diagnostics with spans of the source files. Compiled programs call the runtime under
-- runtime/src.
--
-- What models what:
-- - Diagnostics/Span: compiler/crates/tyra-diagnostics/src/span.rs, `Span` with `new`, `len`,
--   `is_empty` and `merge`. The debug assertions are hypotheses of the theorems.
-- - Diagnostics/Source: compiler/crates/tyra-diagnostics/src/source.rs, `SourceFile::new` and
--   `line_col`, and `SourceMap::offset_at` on a file. The content is its list of bytes, and the casts
--   to `u32` are written out.
-- - Diagnostics/SourceMap: the same file, the registry of source files.
-- - Diagnostics/Report: diagnostic.rs and report.rs of the same crate, `Diagnostic` and
--   `Report::add` with its set of keys already reported.
-- - Syntax/Token: compiler/crates/tyra-lexer/src/token.rs, the token kinds and the keyword table.
-- - Syntax/Cursor: compiler/crates/tyra-lexer/src/cursor.rs, the lexer's cursor over the characters of
--   the source.
-- - Syntax/Lexer: compiler/crates/tyra-lexer/src/lexer.rs, `tokenize` and `scan_token`;
--   Syntax/Literals has `scan_ident` and `scan_number`, Syntax/Strings `scan_string`,
--   `scan_unicode_escape` and `scan_raw_string`, and Syntax/Scan the state that these functions are
--   handed, the cursor and the report, as a monad. Syntax/Text makes texts of the numbers of
--   characters. `str::parse::<f64>` is a parameter.
-- - Syntax/KindName and Syntax/TokenStream: compiler/crates/tyra-parser/src/token_stream.rs, the
--   names of tokens and the cursor of the parser. A stream is valid when it ends with `eof`, which
--   the lexer appends.
-- - Parser: the grammar of compiler/crates/tyra-parser/src. Parser/Parse has what its functions are
--   handed, the stream and the report, as a monad; Parser/Ast the syntax trees of
--   compiler/crates/tyra-ast/src/types.rs; Parser/TypeExpr and Parser/Pattern are type_expr.rs and
--   pattern.rs; Parser/Postfix, Parser/Prefix and Parser/Expr are expr.rs, and Parser/Commas its
--   `parse_comma_separated`, which stands for the loops of that kind in the other files as well;
--   Parser/Control and Parser/Stmt are stmt.rs; Parser/Param and Parser/Decl are decl.rs; Parser/Item
--   and Parser/Source are lib.rs. Parser/Parts holds the calls that expressions, bodies and `if`s make
--   of each other. `char::is_uppercase` is a parameter. Parser/TypeExpr/Print has the tokens that a
--   type expression is written with, and Parser/TypeExpr/RoundTrip runs the parser on them.
-- - Resolve/Names and Resolve/Scope: compiler/crates/tyra-resolve/src/scope.rs, the prelude lists and
--   the stack of scopes.
-- - Types/Ty, Types/Shape and Types/Names: compiler/crates/tyra-types/src/ty.rs, the types, the tests
--   for their shapes with the accessors, and their names in generated code and in messages.
-- - Types/Written: the same file, `from_type_expr`, on type expressions of
--   compiler/crates/tyra-ast/src/types.rs. Types/Written/Reading has the type expressions for types,
--   and Types/Written/Spelling their text.
-- - Types/Subst and Types/Unify: the same file, `Substitution` with `walk`, `bind`, `apply` and
--   `is_bound`, `occurs`, `unify` and `types_compatible`.
-- - Runtime/SortedMap and Runtime/SortedSet: runtime/src/stdlib_sorted_map.rs and
--   runtime/src/stdlib_sorted_set.rs, persistent collections over a sorted array. Runtime/Order is
--   the comparison callback that the compiler emits, with the laws of a linear order, and
--   Runtime/Run the runs that may read outside of an array.
-- - Runtime/LinkedMap and Runtime/LinkedSet: runtime/src/stdlib_linked_map.rs and
--   runtime/src/stdlib_linked_set.rs, persistent collections that keep the order of insertion in an
--   array of entries, with an open-addressing table into it. Runtime/Probe has the hash callback, the
--   capacities and the slots, with `bit_and` for the mask.
-- - Prelude has the shared names, lists over native numbers, and `HashMap` as an association list.
-- - Tests has runs at concrete inputs.
--
-- How they interact: scopes, tokens and diagnostics carry spans; the token stream reads the tokens of
-- the lexer, and both report through `Report::add`; `parse` runs the lexer and then the grammar, and a
-- string's interpolated text is lexed and parsed on its own; a set of the runtime holds a map;
-- unification walks the substitution that it extends.
--
-- Fuel: `walk`, `apply`, `occurs` and `unify` take fuel, and `none` says that it ran out. Under a
-- substitution without cycles each of them has a fuel from which on it gives one result. The loop of
-- `binary_search` has one round more than there are entries, and `fault` would say that this is too
-- little. The loops over the slots of a linked map have one round for each slot, and `next_pow2` has
-- one more than its argument, which is enough where its loop ends at all. `skip_newlines` takes one round more than there are tokens ahead, and the
-- loop of `eat_while` one more than there are characters, and so do the loops of the lexer. The functions
-- of the grammar take one fuel for the depth of their recursion and the rounds of their loops, which is
-- enough when it exceeds the number of tokens ahead: `parse` gives one more than there are tokens. The
-- depth of interpolation inside interpolation is a fuel of its own.
--
-- Bounds: offsets are natural numbers with the casts to `u32` written out; the counters of a report and
-- the bracket depth wrap as a `u32`, and the capacities of a linked map as a `usize` of 64 bits. The
-- lengths of a map count elements in memory, and the depth of the braces in an interpolation counts
-- characters: they have no bound here.
--
-- Not modelled: the walk of the resolver, the type checker over the syntax tree, the intermediate
-- language, the interpreter and code generation; rendering of reports; the runtime's Map and Set and
-- its foreign functions; the tools. Pointers to boxed keys and values are their contents, and
-- allocation does not fail.
pub mod Prelude
pub mod Diagnostics
pub mod Parser
pub mod Resolve
pub mod Runtime
pub mod Syntax
pub mod Tests
pub mod Types
