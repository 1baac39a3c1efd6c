-- ===== src/Parser/Pattern.antt =====
-- compiler/crates/tyra-parser/src/pattern.rs: the patterns of match arms. `is_uppercase` is the
-- `char::is_uppercase` of the standard library.
pub mod Total
use Prim.Native.Char.{code}
use Prim.Native.String.{◌++◌ as append}
use tyra.Prelude.{
  ℕ, zero, suc, ◌-◌, ◌%◌, ◌^◌, Bool, true, false, Option, none, some, List, [], ◌∷◌, ◌++◌, String,
  length, ltb, if◌then◌else◌, ◌==◌, string_eq,
}
use tyra.Diagnostics.Span.{Span, merge}
use tyra.Syntax.Token.{
  TokenKind, Token, int, minus, float, string, kw_true, kw_false, ident, l_paren, r_paren, colon,
  comma,
}
use tyra.Syntax.TokenStream.{field_name}
use tyra.Syntax.KindName.{kind_name}
use tyra.Parser.Parse.{
  Parse, return, stuck, ◌>>=◌, peek_span, peek, check, more_before, advance, eat, expect, complain,
}
use tyra.Parser.Commas.{parse_comma_separated}
use tyra.Parser.Ast.{
  PatternKind, Pattern, pattern_of, PatternField, pattern_field, PatternFields, no_fields, fields,
  Patterns, no_patterns, patterns,
}

abbrev pub pattern_vec : List Pattern → Patterns
pattern_vec [] = no_patterns
pattern_vec (p ∷ ps) = patterns p (pattern_vec ps)

abbrev pub field_vec : List PatternField → PatternFields
field_vec [] = no_fields
field_vec (p ∷ ps) = fields p (field_vec ps)

abbrev pub pattern_span : Pattern → Span
pattern_span (pattern_of kind span) = span

-- `-n` of an `i64`.
unfoldable pub negated : ℕ → ℕ
negated n = (2 ^ 64 - n) % 2 ^ 64

-- The arms that take one token.
unfoldable pub one_token : PatternKind → Span → Parse Pattern
unfolding advance
one_token kind start = advance >>= λ token. return (pattern_of kind start)

unfoldable pub negative_at : Span → TokenKind → Parse Pattern
unfolding advance complain merge negated
negative_at start (int n) = advance >>= λ token.
    return (pattern_of (PatternKind.int_lit (negated n)) (merge start token.span))
negative_at start kind =
    complain "expected integer after `-` in pattern" "E0105" start "expected integer" >>= λ u.
    return (pattern_of PatternKind.wildcard start)

unfoldable pub negative : Span → Parse Pattern
unfolding advance peek negative_at
negative start = advance >>= λ sign. peek >>= negative_at start

unfoldable pub two_or_more : List Pattern → Span → Parse Unit
unfolding complain
two_or_more elems start =
    if ltb (length elems) 2
    then complain "tuple pattern requires 2 or more elements" "E0316" start "tuple pattern here"
    else return tt

unfoldable pub no_pattern : Span → Parse Pattern
unfolding advance complain kind_name
no_pattern start = advance >>= λ token.
    complain (append "expected pattern, found " (kind_name token.kind)) "E0106" token.span
      "expected pattern"
    >>= λ u. return (pattern_of PatternKind.wildcard start)

module _ (is_uppercase : ℕ → Bool) where
  -- `name.chars().next().is_some_and(|c| c.is_uppercase())`.
  unfoldable pub is_pascal_case : String → Bool
  is_pascal_case String.[] = false
  is_pascal_case (String.◌∷◌ c s) = is_uppercase (code c)

  -- A name with nothing behind it.
  unfoldable pub plain_name : String → Span → Pattern
  unfolding is_pascal_case
  plain_name name start =
      if is_pascal_case name
      then pattern_of (PatternKind.constructor name no_fields) start
      else pattern_of (PatternKind.ident name) start

  -- The parser for the parts is `parse_pattern` with less fuel.
  module _ (part : Parse Pattern) where
    unfoldable pub field_behind :
        (List PatternField → Parse (List PatternField))
        → List PatternField
        → Bool
        → Parse (List PatternField)
    field_behind loop done true = loop done
    field_behind loop done false = return done

    -- Behind `name(`, with the parser for the fields.
    unfoldable pub nested_fields : Parse (List PatternField) → String → Span → Parse Pattern
    unfolding advance peek_span expect merge
    nested_fields inner name start = advance >>= λ paren. inner >>= λ found. peek_span >>= λ stop.
        expect r_paren >>= λ close.
        return (pattern_of (PatternKind.constructor name (field_vec found)) (merge start stop))

    unfoldable pub constructor_at : Parse (List PatternField) → String → Span → Bool → Parse Pattern
    unfolding nested_fields
    constructor_at inner name start true = nested_fields inner name start
    constructor_at inner name start false =
        return (pattern_of (PatternKind.constructor name no_fields) start)

    -- The shorthand `name`.
    unfoldable pub shorthand : Parse (List PatternField) → String → Span → Bool → Parse Pattern
    unfolding check constructor_at
    shorthand inner name start true = check l_paren >>= constructor_at inner name start
    shorthand inner name start false = return (pattern_of (PatternKind.ident name) start)

    unfoldable pub explicit_at :
        Parse (List PatternField) → String → Span → Bool → Parse PatternField
    unfolding advance merge shorthand is_pascal_case
    explicit_at inner name start true = advance >>= λ sign.
        part >>= λ pattern. return (pattern_field name pattern (merge start (pattern_span pattern)))
    explicit_at inner name start false =
        shorthand inner name start (is_pascal_case name) >>= λ pattern.
        return (pattern_field name pattern start)

    unfoldable pub field_of : Parse (List PatternField) → Span → Option String → Parse PatternField
    unfolding advance check explicit_at
    field_of inner start (some name) =
        advance >>= λ token. check colon >>= explicit_at inner name start
    field_of inner start none =
        part >>= λ pattern. return (pattern_field "" pattern (pattern_span pattern))

    unfoldable pub field_at :
        (List PatternField → Parse (List PatternField))
        → List PatternField
        → Bool
        → Parse (List PatternField)
    unfolding peek_span peek field_of field_name eat field_behind
    field_at loop done false = return done
    field_at loop done true = peek_span >>= λ start. peek >>= λ kind.
        field_of (loop []) start (field_name kind) >>= λ field.
        eat comma >>= field_behind loop (done ++ (field ∷ []))

    -- The rounds of the loop and the depth of its recursion are on fuel.
    unfoldable pub parse_pattern_fields : ℕ → List PatternField → Parse (List PatternField)
    unfolding more_before field_at
    parse_pattern_fields zero done = stuck
    parse_pattern_fields (suc f) done =
        more_before r_paren >>= field_at (parse_pattern_fields f) done

    unfoldable pub name_at : ℕ → String → Span → Bool → Parse Pattern
    unfolding nested_fields parse_pattern_fields plain_name
    name_at f name start true = nested_fields (parse_pattern_fields f []) name start
    name_at f name start false = return (plain_name name start)

    -- The two arms for an identifier, the first one for `_`.
    unfoldable pub ident_at : ℕ → String → Span → Bool → Parse Pattern
    unfolding one_token advance check name_at
    ident_at f name start true = one_token PatternKind.wildcard start
    ident_at f name start false = advance >>= λ token. check l_paren >>= name_at f name start

    unfoldable pub tuple_pattern : ℕ → Span → Parse Pattern
    unfolding advance parse_comma_separated peek_span expect two_or_more merge
    tuple_pattern f start = advance >>= λ paren.
        parse_comma_separated r_paren part f [] >>= λ elems. peek_span >>= λ stop.
        expect r_paren >>= λ close. two_or_more elems start >>= λ u.
        return (pattern_of (PatternKind.tuple (pattern_vec elems)) (merge start stop))

    -- The match of `parse_pattern`.
    unfoldable pub pattern_at : ℕ → Span → TokenKind → Parse Pattern
    unfolding ident_at one_token negative tuple_pattern no_pattern
    pattern_at f start (ident name) = ident_at f name start (name == "_")
    pattern_at f start (int n) = one_token (PatternKind.int_lit n) start
    pattern_at f start minus = negative start
    pattern_at f start (float n) = one_token (PatternKind.float_lit n) start
    pattern_at f start (string s) = one_token (PatternKind.string_lit s) start
    pattern_at f start kw_true = one_token (PatternKind.bool_lit true) start
    pattern_at f start kw_false = one_token (PatternKind.bool_lit false) start
    pattern_at f start l_paren = tuple_pattern f start
    pattern_at f start kind = no_pattern start

  -- The depth of the recursion and the rounds of its loops are on fuel.
  unfoldable pub parse_pattern : ℕ → Parse Pattern
  unfolding peek_span peek pattern_at
  parse_pattern zero = stuck
  parse_pattern (suc f) = peek_span >>= λ start. peek >>= pattern_at (parse_pattern f) f start
