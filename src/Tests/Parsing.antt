-- ===== src/Tests/Parsing.antt =====
-- The parser at concrete sources.
use tyra.Prelude.{
  ℕ, ◌^◌, ◌<◌, ◌≤◌, ◌≡◌, refl, map, String, Bool, false, Option, none, List, [], ◌∷◌, arith,
}
use tyra.Diagnostics.Report
use tyra.Prelude.Dict
use tyra.Syntax.Cursor
use tyra.Syntax.Cursor.{bytes}
use tyra.Syntax.Scan
use tyra.Syntax.Token.{
  keyword, keywords, TokenKind, Token, discriminant, eof, l_paren, r_paren, kw_fn, ident, comma,
  arrow, lt, gt,
}
use tyra.Syntax.TokenStream.{TokenStream, matches, is_newline}
use tyra.Types.Written.{
  TypeExpr, type_expr, no_exprs, exprs, named_kind, generic_kind, fn_kind, tuple_kind,
  from_type_expr,
}
use tyra.Types.Ty.{Ty, nil, cons, int, generic, fn, named as named_type}
use tyra.Types.Written.Reading.{expr_of, IsSource, AllSource, parse_type-expr_of}
use tyra.Parser.Parse.Reads.{Shows, Parses}
use tyra.Parser.TypeExpr.{parse_type}
use tyra.Parser.TypeExpr.Print.{print, size, bare, nowhere, Written, AllWritten, Follows}
use tyra.Parser.TypeExpr.RoundTrip.{parse_type-print}
use tyra.Syntax.Lexer.{tokenize}
use tyra.Parser.Source.{parse}
use tyra.Parser.Source.Nested.{Tokenized, Nests}
use tyra.Parser.Source.Total.{Parsed, parse-Parsed}

abbrev no_floats : List ℕ → Option ℕ
no_floats digits = none

-- `f("#{a}")`.
abbrev program : List ℕ
program = 102 ∷ 40 ∷ 34 ∷ 35 ∷ 123 ∷ 97 ∷ 125 ∷ 34 ∷ 41 ∷ []

abbrev never : ℕ → Bool
never c = false

program-small : bytes program < 2 ^ 32
unfolding bytes
program-small = omega arith

program-Nests : Tokenized no_floats (Nests no_floats 2) (tokenize no_floats 0 program Report.new)
unfolding tokenize Nests bytes Scan.◌>>=◌ Cursor.is_eof Cursor.peek Cursor.next Cursor.slice_to_end
    Cursor.peek_next Cursor.second Cursor.eat_while Cursor.while_at Cursor.then_loop Cursor.moved
    Cursor.advance Cursor.advance_by Scan.return Report.new keyword keywords Dict.get
program-Nests = omega arith

parse-Parsed_example : Parsed no_floats never (parse no_floats never 1 0 program Report.new)
parse-Parsed_example =
    parse-Parsed no_floats never 1 0 program Report.new program-small program-Nests

-- `fn(A, List<B>) -> (C, D)`.
abbrev named : String → TypeExpr
named name = type_expr (named_kind name) nowhere

abbrev list_of_b : TypeExpr
list_of_b = type_expr (generic_kind "List" (exprs (named "B") no_exprs)) nowhere

abbrev pair : TypeExpr
pair = type_expr (tuple_kind (exprs (named "C") (exprs (named "D") no_exprs))) nowhere

abbrev mapping : TypeExpr
mapping = type_expr (fn_kind (exprs (named "A") (exprs list_of_b no_exprs)) pair) nowhere

abbrev with_span : TokenKind → Token
with_span kind = record { kind = kind; span = nowhere }

abbrev mapping_tokens : TokenStream
mapping_tokens = record {
  tokens = map with_span (
      kw_fn
      ∷ l_paren
      ∷ ident "A"
      ∷ comma
      ∷ ident "List"
      ∷ lt
      ∷ ident "B"
      ∷ gt
      ∷ r_paren
      ∷ arrow
      ∷ l_paren
      ∷ ident "C"
      ∷ comma
      ∷ ident "D"
      ∷ r_paren
      ∷ eof
      ∷ []);
  pos = 0;
  bracket_depth = 0;
}

mapping-size : size mapping ≤ 20
unfolding size
mapping-size = omega arith

mapping-Written : Written mapping
unfolding Written AllWritten
mapping-Written = ((tt, ((tt, tt), tt)), (tt, (tt, tt)))

eof-Follows : Follows eof
unfolding matches discriminant is_newline
eof-Follows = (refl, refl, refl)

mapping-Shows : Shows mapping_tokens (print mapping (eof ∷ []))
unfolding print
mapping-Shows = refl

parse_type-print_example :
    Parses
      (λ u. bare u ≡ bare mapping)
      (eof ∷ [])
      Report.new
      (parse_type 20 mapping_tokens Report.new)
parse_type-print_example =
    parse_type-print 20 mapping eof [] mapping-size mapping-Written eof-Follows mapping_tokens
      Report.new mapping-Shows

-- `fn(Int, List<B>) -> (C, D)`.
abbrev mapping_type : Ty
mapping_type =
    fn (cons int (cons (generic "List" (cons (named_type "B") nil)) nil))
      (generic "Tuple" (cons (named_type "C") (cons (named_type "D") nil)))

abbrev type_tokens : TokenStream
type_tokens = record {
  tokens = map with_span (
      kw_fn
      ∷ l_paren
      ∷ ident "Int"
      ∷ comma
      ∷ ident "List"
      ∷ lt
      ∷ ident "B"
      ∷ gt
      ∷ r_paren
      ∷ arrow
      ∷ l_paren
      ∷ ident "C"
      ∷ comma
      ∷ ident "D"
      ∷ r_paren
      ∷ eof
      ∷ []);
  pos = 0;
  bracket_depth = 0;
}

mapping_type-size : size (expr_of mapping_type) ≤ 20
unfolding size expr_of
mapping_type-size = omega arith

mapping_type-IsSource : IsSource mapping_type
unfolding IsSource AllSource Dict.contains_key
mapping_type-IsSource = ((tt, ((refl, refl), tt)), (refl, (refl, tt)))

mapping_type-Shows : Shows type_tokens (print (expr_of mapping_type) (eof ∷ []))
unfolding print expr_of
mapping_type-Shows = refl

parse_type-expr_of_example :
    Parses
      (λ u. from_type_expr u ≡ mapping_type)
      (eof ∷ [])
      Report.new
      (parse_type 20 type_tokens Report.new)
parse_type-expr_of_example =
    parse_type-expr_of 20 mapping_type eof [] mapping_type-size mapping_type-IsSource eof-Follows
      type_tokens Report.new mapping_type-Shows
