-- ===== src/Parser/Decl/Types.antt =====
-- compiler/crates/tyra-parser/src/decl.rs: the definitions of types.
use tyra.Prelude.{ℕ, zero, suc, Bool, true, false, ◌||◌, List, [], ◌∷◌, ◌++◌, String}
use tyra.Diagnostics.Span.{Span, merge}
use tyra.Syntax.Token.{TokenKind, l_paren, r_paren, colon, eq, pipe, kw_end, kw_mut, eof}
use tyra.Parser.Parse.{
  Parse, return, stuck, ◌>>=◌, peek_span, peek, peek_past_newlines, check, advance, eat, expect,
  expect_ident, expect_ident_or_field_keyword, skip_newlines, expect_newline_or_eof,
}
use tyra.Parser.Commas.{parse_comma_separated}
use tyra.Parser.TypeExpr.{parse_type, parse_type_params, span_of}
use tyra.Parser.Ast.{
  FieldDef, Variant, TypeDefKind, alias, adt, TypeParam, ValueDef, DataDef, TypeDef,
}
use tyra.Parser.Decl.{name_of}

unfoldable pub is_pipe : TokenKind → Bool
is_pipe pipe = true
is_pipe kind = false

-- `End | Eof`.
unfoldable pub ends_fields : TokenKind → Bool
ends_fields kw_end = true
ends_fields eof = true
ends_fields kind = false

abbrev pub value_def : Bool → String → List TypeParam → List FieldDef → Span → ValueDef
value_def is_export name type_params fields span = record {
  name = name;
  type_params = type_params;
  fields = fields;
  is_export = is_export;
  span = span;
}

abbrev pub data_def : Bool → String → List TypeParam → List FieldDef → Span → DataDef
data_def is_export name type_params fields span = record {
  name = name;
  type_params = type_params;
  fields = fields;
  is_export = is_export;
  span = span;
}

module _ (fuel : ℕ) where
  -- A name, a colon and a type.
  unfoldable pub field_of : Span → Bool → Parse FieldDef
  unfolding expect_ident_or_field_keyword expect parse_type merge
  field_of start is_mut = expect_ident_or_field_keyword >>= λ name. expect colon >>= λ sign.
      parse_type fuel >>= λ annotation. return (record {
        name = name_of name;
        type_annotation = annotation;
        is_mut = is_mut;
        span = merge start (span_of annotation);
      })

  unfoldable pub field_def : Parse FieldDef
  unfolding peek_span eat field_of
  field_def = peek_span >>= λ start. eat kw_mut >>= field_of start

  unfoldable pub fields_at :
      (List FieldDef → Parse (List FieldDef)) → List FieldDef → Bool → Parse (List FieldDef)
  unfolding field_def expect_newline_or_eof skip_newlines
  fields_at loop done true = return done
  fields_at loop done false = field_def >>= λ field.
      expect_newline_or_eof >>= λ u. skip_newlines >>= λ v. loop (done ++ (field ∷ []))

  -- The loop of `parse_field_defs`, on fuel.
  unfoldable pub fields_loop : ℕ → List FieldDef → Parse (List FieldDef)
  unfolding peek ends_fields fields_at
  fields_loop zero done = stuck
  fields_loop (suc f) done = peek >>= λ kind. fields_at (fields_loop f) done (ends_fields kind)

  unfoldable pub parse_field_defs : Parse (List FieldDef)
  unfolding skip_newlines fields_loop
  parse_field_defs = skip_newlines >>= λ u. fields_loop fuel []

  -- The name and the fields of a `value` or `data` definition, from its keyword on.
  unfoldable pub struct_def :
      {A : Type 0} → (String → List TypeParam → List FieldDef → Span → A) → Parse A
  unfolding advance expect_ident parse_type_params expect_newline_or_eof parse_field_defs expect
      peek_span merge
  struct_def make = advance >>= λ keyword. expect_ident >>= λ name.
      parse_type_params fuel >>= λ type_params. expect_newline_or_eof >>= λ u.
      parse_field_defs >>= λ fields. expect kw_end >>= λ close. peek_span >>= λ stop.
      return (make (name_of name) type_params fields (merge keyword.span stop))

  unfoldable pub parse_value_def : Bool → Parse ValueDef
  unfolding struct_def
  parse_value_def is_export = struct_def (value_def is_export)

  unfoldable pub parse_data_def : Bool → Parse DataDef
  unfolding struct_def
  parse_data_def is_export = struct_def (data_def is_export)

  -- A field of a variant.
  unfoldable pub variant_field : Parse FieldDef
  unfolding peek_span field_of
  variant_field = peek_span >>= λ start. field_of start false

  unfoldable pub variant_at : Bool → Parse (List FieldDef)
  unfolding advance parse_comma_separated variant_field expect
  variant_at true = advance >>= λ paren.
      parse_comma_separated r_paren variant_field fuel [] >>= λ fields.
      expect r_paren >>= λ close. return fields
  variant_at false = return []

  unfoldable pub parse_variant : Parse Variant
  unfolding peek_span expect_ident check variant_at merge
  parse_variant = peek_span >>= λ start. expect_ident >>= λ name.
      check l_paren >>= variant_at >>= λ fields. peek_span >>= λ stop.
      return (record { name = name_of name; fields = fields; span = merge start stop })

  unfoldable pub variants_at :
      (List Variant → Parse (List Variant)) → List Variant → Bool → Parse (List Variant)
  unfolding parse_variant skip_newlines
  variants_at loop done true = parse_variant >>= λ v. skip_newlines >>= λ u. loop (done ++ (v ∷ []))
  variants_at loop done false = return done

  -- The loop over variants, on fuel.
  unfoldable pub variants_loop : ℕ → List Variant → Parse (List Variant)
  unfolding eat variants_at
  variants_loop zero done = stuck
  variants_loop (suc f) done = eat pipe >>= variants_at (variants_loop f) done

  unfoldable pub kind_at : Bool → Parse TypeDefKind
  unfolding skip_newlines variants_loop parse_type
  kind_at true = skip_newlines >>= λ u. variants_loop fuel [] >>= λ variants. return (adt variants)
  kind_at false = parse_type fuel >>= λ aliased. return (alias aliased)

  unfoldable pub parse_type_def : Bool → Parse TypeDef
  unfolding advance expect_ident parse_type_params expect check peek_past_newlines is_pipe kind_at
      peek_span merge
  parse_type_def is_export = advance >>= λ keyword. expect_ident >>= λ name.
      parse_type_params fuel >>= λ type_params. expect eq >>= λ sign. check pipe >>= λ here.
      peek_past_newlines >>= λ behind. kind_at (here || is_pipe behind) >>= λ kind.
      peek_span >>= λ stop. return (record {
        name = name_of name;
        type_params = type_params;
        kind = kind;
        is_export = is_export;
        span = merge keyword.span stop;
      })
