-- ===== src/Parser/Decl/Methods.antt =====
-- Functions, traits, implementations, imports and tests have a result on every stream that ends with
-- `eof`: the fuel is enough.
use tyra.Prelude.{
  ℕ, suc, zero, ◌<◌, refl, Bool, true, false, none, List, [], ◌∷◌, ◌++◌, String, arith,
}
use tyra.Syntax.Token.{TokenKind, Token, discriminant, string, lt, gt, dot, kw_end, kw_fn, kw_for}
use tyra.Syntax.TokenStream.{matches}
use tyra.Parser.Parse.{Parse, return, ◌>>=◌, check, expect, peek_span, expect_newline_or_eof}
use tyra.Parser.Parse.Runs.{Runs, Moves, return-Runs, Runs-bind, Moves-bind}
use tyra.Parser.Parse.Steps.{advance-Runs, expect-Runs, expect_ident-Runs, complain-Runs}
use tyra.Parser.Parse.Behind.{
  Runs-peek_span_then, Runs-peek_then, Moves-advance_then, Runs-check_then, Runs-eat_then,
}
use tyra.Parser.Parse.Newlines.{skip_newlines-Runs, expect_newline_or_eof-Runs}
use tyra.Parser.TypeExpr.{parse_type}
use tyra.Parser.TypeExpr.Total.{parse_type-Runs, parse_type-Moves, args_loop-Runs}
use tyra.Parser.TypeExpr.Params.{parse_type_params-Runs}
use tyra.Parser.Param.{is_ident}
use tyra.Parser.Ast.{Stmt, FnDef}
use tyra.Parser.Decl.{
  FnHeader, fn_of, parse_fn_signature, methods_at, methods_loop, parse_trait_def, trait_args_at,
  path_at, path_loop, alias_at, parse_import, test_name, panics_at, parse_fn_def, parse_impl_def,
  parse_test_def,
}
use tyra.Parser.Decl.Total.{header-total, parse_fn_signature-Moves}

module _ (tokens : List Token) (f : ℕ) where
  methods_loop-Runs :
      (method : Parse FnDef)
      → ((n : ℕ) → n < f → Moves tokens n method)
      → (g n : ℕ) (done : List FnDef) → n < g
      → n < f
      → Runs tokens n (methods_loop f method g done)
  unfolding methods_loop methods_at matches discriminant
  methods_loop-Runs method moving zero n done l small = absurd (omega arith)
  methods_loop-Runs method moving (suc g) n done l small =
      Runs-check_then tokens n kw_fn _ refl (return-Runs tokens n done) (λ j q.
        Moves-bind tokens j method _ (moving j (omega arith)) (λ m.
          Runs-bind tokens j _ _ (skip_newlines-Runs tokens j) (λ u.
            methods_loop-Runs method moving g j (done ++ (m ∷ [])) (omega arith) (omega arith))))

  path_loop-Runs : (g n : ℕ) (path : List String) → n < g → Runs tokens n (path_loop f g path)
  unfolding path_loop path_at matches discriminant
  path_loop-Runs zero n path l = absurd (omega arith)
  path_loop-Runs (suc g) n path l =
      Runs-eat_then tokens n dot _ refl (return-Runs tokens n path) (λ j q.
        Runs-bind tokens j _ _ (expect_ident-Runs tokens j)
          (λ name. path_loop-Runs g j _ (omega arith)))

  alias_at-Runs : (n : ℕ) (b : Bool) → Runs tokens n (alias_at f b)
  unfolding alias_at
  alias_at-Runs n true = Runs-bind tokens n _ _ (advance-Runs tokens n) (λ keyword.
      Runs-bind tokens n _ _ (expect_ident-Runs tokens n) (λ name. return-Runs tokens n _))
  alias_at-Runs n false = return-Runs tokens n none

  module _ (n : ℕ) (l : n < f) where
    pub parse_trait_def-Runs : (is_export : Bool) → Runs tokens n (parse_trait_def f is_export)
    unfolding parse_trait_def
    parse_trait_def-Runs is_export = Runs-bind tokens n _ _ (advance-Runs tokens n) (λ keyword.
        Runs-bind tokens n _ _ (expect_ident-Runs tokens n) (λ name.
          Runs-bind tokens n _ _ (parse_type_params-Runs tokens f n l) (λ type_params.
            Runs-bind tokens n _ _ (expect_newline_or_eof-Runs tokens n) (λ u.
              Runs-bind tokens n _ _ (skip_newlines-Runs tokens n) (λ v.
                Runs-bind tokens n _ _
                  (methods_loop-Runs (parse_fn_signature f) (parse_fn_signature-Moves tokens f) f n
                    [] l l)
                  (λ methods.
                    Runs-bind tokens n _ _ (expect-Runs tokens n kw_end) (λ close.
                      Runs-peek_span_then tokens n _ (λ stop. return-Runs tokens n _))))))))

    pub parse_import-Runs : Runs tokens n (parse_import f)
    unfolding parse_import
    parse_import-Runs = Runs-bind tokens n _ _ (advance-Runs tokens n) (λ keyword.
        Runs-bind tokens n _ _ (expect_ident-Runs tokens n) (λ first.
          Runs-bind tokens n _ _ (path_loop-Runs f n _ l) (λ path.
            Runs-peek_then tokens n _ (λ kind.
              Runs-bind tokens n _ _ (alias_at-Runs n (is_ident "as" kind)) (λ alias.
                Runs-peek_span_then tokens n _ (λ stop.
                  Runs-bind tokens n _ _ (expect_newline_or_eof-Runs tokens n)
                    (λ u. return-Runs tokens n _)))))))

  trait_args-Runs : (n : ℕ) → n < f → Runs tokens n (check lt >>= trait_args_at f)
  unfolding trait_args_at matches discriminant
  trait_args-Runs n l = Runs-check_then tokens n lt _ refl (return-Runs tokens n []) (λ j q.
      Moves-advance_then tokens j _ (λ angle.
        Runs-bind tokens j _ _ (parse_type-Runs tokens f j (omega arith)) (λ t.
          Runs-bind tokens j _ _
            (args_loop-Runs tokens f (parse_type f) (parse_type-Runs tokens f)
              (parse_type-Moves tokens f) f j (t ∷ []) (omega arith) (omega arith))
            (λ args.
              Runs-bind tokens j _ _ (expect-Runs tokens j gt)
                (λ close. return-Runs tokens j args)))))

  test_name-Runs : (n : ℕ) (kind : TokenKind) → Runs tokens n (test_name f kind)
  unfolding test_name
  test_name-Runs n (string s) =
      Runs-bind tokens n _ _ (advance-Runs tokens n) (λ token. return-Runs tokens n s)
  test_name-Runs n kind = Runs-peek_span_then tokens n _ (λ span.
      Runs-bind tokens n _ _ (complain-Runs tokens n _ _ span _) (λ u. return-Runs tokens n ""))

  panics_at-Runs : (n : ℕ) (b : Bool) → Runs tokens n (panics_at f b)
  unfolding panics_at
  panics_at-Runs n true =
      Runs-bind tokens n _ _ (advance-Runs tokens n) (λ token. return-Runs tokens n true)
  panics_at-Runs n false = return-Runs tokens n false

  module _ (parse_body : Parse (List Stmt))
      (body-Runs : (n : ℕ) → n < f → Runs tokens n parse_body) where
    behind_header-Runs :
        (is_async is_export : Bool) (n : ℕ)
        → n < f
        → (header : FnHeader)
        → Runs tokens n (
            expect_newline_or_eof >>= λ u. parse_body >>= λ body. expect kw_end >>= λ close.
            peek_span >>= λ stop. return (fn_of f header body is_async is_export stop))
    behind_header-Runs is_async is_export n l header =
        Runs-bind tokens n _ _ (expect_newline_or_eof-Runs tokens n) (λ u.
          Runs-bind tokens n _ _ (body-Runs n l) (λ body.
            Runs-bind tokens n _ _ (expect-Runs tokens n kw_end)
              (λ close. Runs-peek_span_then tokens n _ (λ stop. return-Runs tokens n _))))

    pub parse_fn_def-Moves :
        (is_async is_export : Bool) (n : ℕ)
        → n < f
        → Moves tokens n (parse_fn_def f parse_body is_async is_export)
    unfolding parse_fn_def
    parse_fn_def-Moves is_async is_export n l =
        Moves-bind tokens n _ _ (header-total tokens f n l).1
          (behind_header-Runs is_async is_export n l)

    pub parse_fn_def-Runs :
        (is_async is_export : Bool) (n : ℕ)
        → n < f
        → Runs tokens n (parse_fn_def f parse_body is_async is_export)
    unfolding parse_fn_def
    parse_fn_def-Runs is_async is_export n l =
        Runs-bind tokens n _ _ (header-total tokens f n l).0
          (behind_header-Runs is_async is_export n l)

    module _ (n : ℕ) (l : n < f) where
      pub parse_impl_def-Runs : Runs tokens n (parse_impl_def f parse_body)
      unfolding parse_impl_def
      parse_impl_def-Runs = Runs-bind tokens n _ _ (advance-Runs tokens n) (λ keyword.
          Runs-bind tokens n _ _ (expect_ident-Runs tokens n) (λ name.
            Runs-bind tokens n _ _ (trait_args-Runs n l) (λ args.
              Runs-bind tokens n _ _ (expect-Runs tokens n kw_for) (λ sign.
                Runs-bind tokens n _ _ (parse_type-Runs tokens f n l) (λ target.
                  Runs-bind tokens n _ _ (expect_newline_or_eof-Runs tokens n) (λ u.
                    Runs-bind tokens n _ _ (skip_newlines-Runs tokens n) (λ v.
                      Runs-bind tokens n _ _
                        (methods_loop-Runs (parse_fn_def f parse_body false false)
                          (parse_fn_def-Moves false false) f n [] l l)
                        (λ methods. Runs-bind tokens n _ _ (expect-Runs tokens n kw_end) (λ close.
                          Runs-peek_span_then tokens n _ (λ stop. return-Runs tokens n _))))))))))

      pub parse_test_def-Runs : Runs tokens n (parse_test_def f parse_body)
      unfolding parse_test_def
      parse_test_def-Runs = Runs-peek_span_then tokens n _ (λ start.
          Runs-bind tokens n _ _ (advance-Runs tokens n) (λ keyword.
            Runs-bind tokens n _ _ (Runs-peek_then tokens n _ (test_name-Runs n)) (λ name.
              Runs-peek_then tokens n _ (λ kind.
                Runs-bind tokens n _ _ (panics_at-Runs n (is_ident "panics" kind)) (λ expects_panic.
                  Runs-bind tokens n _ _ (expect_newline_or_eof-Runs tokens n) (λ u.
                    Runs-bind tokens n _ _ (body-Runs n l) (λ body.
                      Runs-peek_span_then tokens n _ (λ stop.
                        Runs-bind tokens n _ _ (expect-Runs tokens n kw_end)
                          (λ close. return-Runs tokens n _)))))))))
