-- ===== src/Parser/Decl/Total.antt =====
-- Definitions of types have a result on every stream that ends with `eof`: the fuel is enough.
use tyra.Prelude.{
  ℕ, suc, zero, ◌<◌, refl, Bool, true, false, ◌||◌, none, List, [], ◌∷◌, ◌++◌, String, arith,
}
use tyra.Diagnostics.Span.{Span}
use tyra.Syntax.Token.{
  Token, discriminant, l_paren, r_paren, comma, colon, eq, pipe, kw_end, kw_mut,
}
use tyra.Syntax.TokenStream.{matches}
use tyra.Parser.Parse.Runs.{Runs, Moves, return-Runs, Runs-bind, Moves-bind, Moves-behind}
use tyra.Parser.Parse.Steps.{advance-Runs, expect-Runs, expect_ident-Runs}
use tyra.Parser.Parse.Behind.{
  advance_then-total, eat-Runs, Runs-peek_span_then, Moves-peek_span_then, Runs-peek_then,
  Moves-advance_then, Runs-check_then, Runs-eat_then, Runs-checked_then, peek_past_newlines-Runs,
}
use tyra.Parser.Parse.Newlines.{
  skip_newlines-Runs, expect_newline_or_eof-Runs, expect_ident_or_field_keyword-Runs,
}
use tyra.Parser.Parse.Seen.{Runs-peek_test_then}
use tyra.Parser.Commas.{parse_comma_separated-Runs}
use tyra.Parser.TypeExpr.Total.{parse_type-Runs, parse_type-Moves}
use tyra.Parser.TypeExpr.Params.{parse_type_params-Runs}
use tyra.Parser.Param.{is_ident}
use tyra.Parser.Param.Total.{parse_params-Runs, return_type-Runs}
use tyra.Parser.Ast.{FieldDef, Variant, TypeParam}
use tyra.Parser.Decl.{comma_at, self_at, parse_fn_header, parse_fn_signature}
use tyra.Parser.Decl.Types.{
  value_def, data_def, is_pipe, ends_fields, field_of, field_def, fields_at, fields_loop,
  parse_field_defs, struct_def, parse_value_def, parse_data_def, variant_field, variant_at,
  parse_variant, variants_at, variants_loop, kind_at, parse_type_def,
}

module _ (tokens : List Token) (f : ℕ) where
  self_at-Runs : (n : ℕ) (b : Bool) → Runs tokens n (self_at f b)
  unfolding self_at comma_at matches discriminant
  self_at-Runs n true = Runs-bind tokens n _ _ (advance-Runs tokens n) (λ token.
      Runs-bind tokens n _ _
        (Runs-check_then tokens n comma _ refl (return-Runs tokens n tt)
          (λ j q. Moves-advance_then tokens j _ (λ sign. return-Runs tokens j tt)))
        (λ u. return-Runs tokens n _))
  self_at-Runs n false = return-Runs tokens n none

  module _ (n : ℕ) (l : n < f) where
    pub header-total : Runs tokens n (parse_fn_header f) × Moves tokens n (parse_fn_header f)
    unfolding parse_fn_header
    header-total = advance_then-total tokens n _ (λ keyword.
        Runs-bind tokens n _ _ (expect_ident-Runs tokens n) (λ name.
          Runs-bind tokens n _ _ (parse_type_params-Runs tokens f n l) (λ type_params.
            Runs-bind tokens n _ _ (expect-Runs tokens n l_paren) (λ paren.
              Runs-peek_then tokens n _ (λ kind.
                Runs-bind tokens n _ _ (self_at-Runs n (is_ident "self" kind)) (λ self_param.
                  Runs-bind tokens n _ _ (parse_params-Runs tokens f n l) (λ params.
                    Runs-bind tokens n _ _ (expect-Runs tokens n r_paren) (λ close.
                      Runs-bind tokens n _ _ (return_type-Runs tokens f n l)
                        (λ result. return-Runs tokens n _)))))))))

    pub parse_fn_signature-Moves : Moves tokens n (parse_fn_signature f)
    unfolding parse_fn_signature
    parse_fn_signature-Moves = Moves-bind tokens n _ _ header-total.1 (λ header.
        Runs-bind tokens n _ _ (expect_newline_or_eof-Runs tokens n)
          (λ u. Runs-peek_span_then tokens n _ (λ stop. return-Runs tokens n _)))

    field_of-Runs : (start : Span) (is_mut : Bool) → Runs tokens n (field_of f start is_mut)
    unfolding field_of
    field_of-Runs start is_mut =
        Runs-bind tokens n _ _ (expect_ident_or_field_keyword-Runs tokens n) (λ name.
          Runs-bind tokens n _ _ (expect-Runs tokens n colon) (λ sign.
            Runs-bind tokens n _ _ (parse_type-Runs tokens f n l)
              (λ annotation. return-Runs tokens n _)))

  -- The type at the end of a field moves.
  field_of-Moves :
      (n : ℕ)
      → suc n < f
      → (start : Span) (is_mut : Bool) → Moves tokens n (field_of f start is_mut)
  unfolding field_of
  field_of-Moves n l start is_mut =
      Moves-behind tokens n _ _ (expect_ident_or_field_keyword-Runs tokens (suc n))
        (λ name. Runs-bind tokens n _ _ (expect-Runs tokens n colon) (λ sign.
          Runs-bind tokens n _ _ (parse_type-Runs tokens f n (omega arith))
            (λ annotation. return-Runs tokens n _)))
        (λ name.
          Moves-behind tokens n _ _ (expect-Runs tokens (suc n) colon)
            (λ sign.
              Runs-bind tokens n _ _ (parse_type-Runs tokens f n (omega arith))
                (λ annotation. return-Runs tokens n _))
            (λ sign.
              Moves-bind tokens n _ _ (parse_type-Moves tokens f n l)
                (λ annotation. return-Runs tokens n _)))

  field_def-Moves : (n : ℕ) → suc n < f → Moves tokens n (field_def f)
  unfolding field_def
  field_def-Moves n l = Moves-peek_span_then tokens n _ (λ start.
      Moves-behind tokens n _ _ (eat-Runs tokens (suc n) kw_mut)
        (field_of-Runs n (omega arith) start) (field_of-Moves n l start))

  fields_loop-Runs :
      (g n : ℕ) (done : List FieldDef) → n < g → n < f → Runs tokens n (fields_loop f g done)
  unfolding fields_loop fields_at ends_fields
  fields_loop-Runs zero n done l small = absurd (omega arith)
  fields_loop-Runs (suc g) n done l small =
      Runs-peek_test_then tokens n ends_fields (fields_at f (fields_loop f g) done) refl
        (return-Runs tokens n done)
        (λ j q. Moves-bind tokens j _ _ (field_def-Moves j (omega arith)) (λ field.
          Runs-bind tokens j _ _ (expect_newline_or_eof-Runs tokens j) (λ u.
            Runs-bind tokens j _ _ (skip_newlines-Runs tokens j)
              (λ v. fields_loop-Runs g j (done ++ (field ∷ [])) (omega arith) (omega arith)))))

  module _ (n : ℕ) (l : n < f) where
    struct_def-Runs :
        {A : Type 0} (make : String → List TypeParam → List FieldDef → Span → A)
        → Runs tokens n (struct_def f make)
    unfolding struct_def parse_field_defs
    struct_def-Runs make = Runs-bind tokens n _ _ (advance-Runs tokens n) (λ keyword.
        Runs-bind tokens n _ _ (expect_ident-Runs tokens n) (λ name.
          Runs-bind tokens n _ _ (parse_type_params-Runs tokens f n l) (λ type_params.
            Runs-bind tokens n _ _ (expect_newline_or_eof-Runs tokens n) (λ u.
              Runs-bind tokens n _ _
                (Runs-bind tokens n _ _ (skip_newlines-Runs tokens n)
                  (λ v. fields_loop-Runs f n [] l l))
                (λ fields.
                  Runs-bind tokens n _ _ (expect-Runs tokens n kw_end)
                    (λ close. Runs-peek_span_then tokens n _ (λ stop. return-Runs tokens n _)))))))

    pub parse_value_def-Runs : (is_export : Bool) → Runs tokens n (parse_value_def f is_export)
    unfolding parse_value_def
    parse_value_def-Runs is_export = struct_def-Runs (value_def is_export)

    pub parse_data_def-Runs : (is_export : Bool) → Runs tokens n (parse_data_def f is_export)
    unfolding parse_data_def
    parse_data_def-Runs is_export = struct_def-Runs (data_def is_export)

  variant_field-Moves : (n : ℕ) → suc n < f → Moves tokens n (variant_field f)
  unfolding variant_field
  variant_field-Moves n l =
      Moves-peek_span_then tokens n _ (λ start. field_of-Moves n l start false)

  parse_variant-Runs : (n : ℕ) → n < f → Runs tokens n (parse_variant f)
  unfolding parse_variant variant_at matches discriminant
  parse_variant-Runs n l = Runs-peek_span_then tokens n _ (λ start.
      Runs-bind tokens n _ _ (expect_ident-Runs tokens n) (λ name.
        Runs-bind tokens n _ _
          (Runs-check_then tokens n l_paren _ refl (return-Runs tokens n []) (λ j q.
            Moves-advance_then tokens j _ (λ paren.
              Runs-bind tokens j _ _
                (parse_comma_separated-Runs tokens r_paren (variant_field f) f variant_field-Moves f
                  j [] (omega arith) (omega arith))
                (λ fields.
                  Runs-bind tokens j _ _ (expect-Runs tokens j r_paren)
                    (λ close. return-Runs tokens j fields)))))
          (λ fields. Runs-peek_span_then tokens n _ (λ stop. return-Runs tokens n _))))

  variants_loop-Runs :
      (g n : ℕ) (done : List Variant) → n < g → n < f → Runs tokens n (variants_loop f g done)
  unfolding variants_loop variants_at matches discriminant
  variants_loop-Runs zero n done l small = absurd (omega arith)
  variants_loop-Runs (suc g) n done l small =
      Runs-eat_then tokens n pipe _ refl (return-Runs tokens n done) (λ j q.
        Runs-bind tokens j _ _ (parse_variant-Runs j (omega arith)) (λ v.
          Runs-bind tokens j _ _ (skip_newlines-Runs tokens j)
            (λ u. variants_loop-Runs g j (done ++ (v ∷ [])) (omega arith) (omega arith))))

  module _ (n : ℕ) (l : n < f) where
    kind_at-Runs : (b : Bool) → Runs tokens n (kind_at f b)
    unfolding kind_at
    kind_at-Runs true = Runs-bind tokens n _ _ (skip_newlines-Runs tokens n) (λ u.
        Runs-bind tokens n _ _ (variants_loop-Runs f n [] l l) (λ variants. return-Runs tokens n _))
    kind_at-Runs false =
        Runs-bind tokens n _ _ (parse_type-Runs tokens f n l) (λ aliased. return-Runs tokens n _)

    pub parse_type_def-Runs : (is_export : Bool) → Runs tokens n (parse_type_def f is_export)
    unfolding parse_type_def
    parse_type_def-Runs is_export = Runs-bind tokens n _ _ (advance-Runs tokens n) (λ keyword.
        Runs-bind tokens n _ _ (expect_ident-Runs tokens n) (λ name.
          Runs-bind tokens n _ _ (parse_type_params-Runs tokens f n l) (λ type_params.
            Runs-bind tokens n _ _ (expect-Runs tokens n eq) (λ sign.
              Runs-checked_then tokens n pipe _ (λ here.
                Runs-bind tokens n _ _ (peek_past_newlines-Runs tokens n) (λ behind.
                  Runs-bind tokens n _ _ (kind_at-Runs (here || is_pipe behind))
                    (λ kind. Runs-peek_span_then tokens n _ (λ stop. return-Runs tokens n _))))))))
