-- ===== src/Parser/Decl.antt =====
-- compiler/crates/tyra-parser/src/decl.rs: functions, traits, implementations,
-- imports and tests. `SelfParam` is its span.
pub mod Types
pub mod Total
pub mod Methods
use tyra.Prelude.{
  ℕ, zero, suc, Bool, true, false, ◌||◌, Option, none, some, List, [], ◌∷◌, ◌++◌, String,
}
use tyra.Diagnostics.Span.{Span, merge}
use tyra.Syntax.Token.{
  TokenKind, Token, string, l_paren, r_paren, comma, colon, eq, lt, gt, pipe, dot, kw_end, kw_mut,
  kw_fn, kw_for, eof,
}
use tyra.Types.Written.{TypeExpr}
use tyra.Parser.Parse.{
  Parse, return, stuck, ◌>>=◌, peek_span, peek, peek_past_newlines, check, more_before, advance,
  eat, expect, expect_ident, expect_ident_or_field_keyword, complain, skip_newlines,
  expect_newline_or_eof,
}
use tyra.Parser.Commas.{parse_comma_separated}
use tyra.Parser.TypeExpr.{parse_type, parse_type_params, args_loop, span_of, or_else}
use tyra.Parser.Param.{is_ident, parse_params, return_type}
use tyra.Parser.Ast.{
  FieldDef, Variant, TypeDefKind, alias, adt, TypeParam, Param, Stmt, FnDef, ValueDef, DataDef,
  TypeDef, TraitDef, ImplDef, ImportDecl, TestDef,
}

pub record FnHeader : Type 0 where
  pub start : Span
  pub name : String
  pub type_params : List TypeParam
  pub self_param : Option Span
  pub params : List Param
  pub return_type : Option TypeExpr

unfoldable pub name_of : Option String → String
name_of = or_else ""

module _ (fuel : ℕ) where
  -- `self`, and a comma behind it.
  unfoldable pub comma_at : Bool → Parse Unit
  unfolding advance
  comma_at true = advance >>= λ sign. return tt
  comma_at false = return tt

  unfoldable pub self_at : Bool → Parse (Option Span)
  unfolding advance check comma_at
  self_at true = advance >>= λ token. check comma >>= comma_at >>= λ u. return (some token.span)
  self_at false = return none

  unfoldable pub parse_fn_header : Parse FnHeader
  unfolding advance expect_ident parse_type_params expect peek is_ident self_at parse_params
      return_type
  parse_fn_header = advance >>= λ keyword. expect_ident >>= λ name.
      parse_type_params fuel >>= λ type_params. expect l_paren >>= λ paren. peek >>= λ kind.
      self_at (is_ident "self" kind) >>= λ self_param. parse_params fuel >>= λ params.
      expect r_paren >>= λ close. return_type fuel >>= λ result. return (record {
        start = keyword.span;
        name = name_of name;
        type_params = type_params;
        self_param = self_param;
        params = params;
        return_type = result;
      })

  unfoldable pub fn_of : FnHeader → List Stmt → Bool → Bool → Span → FnDef
  unfolding merge
  fn_of header body is_async is_export stop = record {
    name = header.name;
    type_params = header.type_params;
    self_param = header.self_param;
    params = header.params;
    return_type = header.return_type;
    body = body;
    is_async = is_async;
    is_export = is_export;
    span = merge header.start stop;
  }

  -- A function without a body.
  unfoldable pub parse_fn_signature : Parse FnDef
  unfolding parse_fn_header expect_newline_or_eof peek_span fn_of
  parse_fn_signature = parse_fn_header >>= λ header.
      expect_newline_or_eof >>= λ u. peek_span >>= λ stop. return (fn_of header [] false false stop)

  -- The loops over methods, on fuel.
  unfoldable pub methods_at :
      Parse FnDef → (List FnDef → Parse (List FnDef)) → List FnDef → Bool → Parse (List FnDef)
  unfolding skip_newlines
  methods_at method loop done true = method >>= λ m. skip_newlines >>= λ u. loop (done ++ (m ∷ []))
  methods_at method loop done false = return done

  unfoldable pub methods_loop : Parse FnDef → ℕ → List FnDef → Parse (List FnDef)
  unfolding check methods_at
  methods_loop method zero done = stuck
  methods_loop method (suc f) done = check kw_fn >>= methods_at method (methods_loop method f) done

  unfoldable pub parse_trait_def : Bool → Parse TraitDef
  unfolding advance expect_ident parse_type_params expect_newline_or_eof skip_newlines methods_loop
      parse_fn_signature expect peek_span merge
  parse_trait_def is_export = advance >>= λ keyword. expect_ident >>= λ name.
      parse_type_params fuel >>= λ type_params. expect_newline_or_eof >>= λ u.
      skip_newlines >>= λ v. methods_loop parse_fn_signature fuel [] >>= λ methods.
      expect kw_end >>= λ close. peek_span >>= λ stop. return (record {
        name = name_of name;
        type_params = type_params;
        methods = methods;
        is_export = is_export;
        span = merge keyword.span stop;
      })

  -- The type arguments of a trait.
  unfoldable pub trait_args_at : Bool → Parse (List TypeExpr)
  unfolding advance parse_type args_loop expect
  trait_args_at true = advance >>= λ angle. parse_type fuel >>= λ t.
      args_loop (parse_type fuel) fuel (t ∷ []) >>= λ args. expect gt >>= λ close. return args
  trait_args_at false = return []

  unfoldable pub path_at :
      (List String → Parse (List String)) → List String → Bool → Parse (List String)
  unfolding expect_ident
  path_at loop path true = expect_ident >>= λ name. loop (path ++ (name_of name ∷ []))
  path_at loop path false = return path

  -- The loop over the path of an import, on fuel.
  unfoldable pub path_loop : ℕ → List String → Parse (List String)
  unfolding eat path_at
  path_loop zero path = stuck
  path_loop (suc f) path = eat dot >>= path_at (path_loop f) path

  unfoldable pub alias_at : Bool → Parse (Option String)
  unfolding advance expect_ident
  alias_at true = advance >>= λ keyword. expect_ident >>= λ name. return (some (name_of name))
  alias_at false = return none

  unfoldable pub parse_import : Parse ImportDecl
  unfolding advance expect_ident path_loop peek is_ident alias_at peek_span expect_newline_or_eof
      merge
  parse_import = advance >>= λ keyword. expect_ident >>= λ first.
      path_loop fuel (name_of first ∷ []) >>= λ path. peek >>= λ kind.
      alias_at (is_ident "as" kind) >>= λ alias. peek_span >>= λ stop.
      expect_newline_or_eof >>= λ u.
      return (record { path = path; alias = alias; span = merge keyword.span stop })

  -- The name of a test.
  unfoldable pub test_name : TokenKind → Parse String
  unfolding advance peek_span complain
  test_name (string s) = advance >>= λ token. return s
  test_name kind = peek_span >>= λ span.
      complain "expected string literal after `test`" "E0100" span "expected string" >>= λ u.
      return ""

  unfoldable pub panics_at : Bool → Parse Bool
  unfolding advance
  panics_at true = advance >>= λ token. return true
  panics_at false = return false

  -- `parse_body` is handed over with the fuel for its recursion.
  module _ (parse_body : Parse (List Stmt)) where
    unfoldable pub parse_fn_def : Bool → Bool → Parse FnDef
    unfolding parse_fn_header expect_newline_or_eof expect peek_span fn_of
    parse_fn_def is_async is_export = parse_fn_header >>= λ header. expect_newline_or_eof >>= λ u.
        parse_body >>= λ body. expect kw_end >>= λ close.
        peek_span >>= λ stop. return (fn_of header body is_async is_export stop)

    unfoldable pub parse_impl_def : Parse ImplDef
    unfolding advance expect_ident check trait_args_at expect parse_type expect_newline_or_eof
        skip_newlines methods_loop parse_fn_def peek_span merge
    parse_impl_def = advance >>= λ keyword. expect_ident >>= λ name.
        check lt >>= trait_args_at >>= λ args. expect kw_for >>= λ sign.
        parse_type fuel >>= λ target. expect_newline_or_eof >>= λ u. skip_newlines >>= λ v.
        methods_loop (parse_fn_def false false) fuel [] >>= λ methods. expect kw_end >>= λ close.
        peek_span >>= λ stop. return (record {
          trait_name = name_of name;
          trait_type_args = args;
          target_type = target;
          methods = methods;
          span = merge keyword.span stop;
        })

    unfoldable pub parse_test_def : Parse TestDef
    unfolding peek_span advance peek test_name panics_at is_ident expect_newline_or_eof expect merge
    parse_test_def = peek_span >>= λ start. advance >>= λ keyword. peek >>= test_name >>= λ name.
        peek >>= λ kind. panics_at (is_ident "panics" kind) >>= λ expects_panic.
        expect_newline_or_eof >>= λ u. parse_body >>= λ body. peek_span >>= λ stop.
        expect kw_end >>= λ close. return (record {
          name = name;
          expects_panic = expects_panic;
          body = body;
          span = merge start stop;
        })
