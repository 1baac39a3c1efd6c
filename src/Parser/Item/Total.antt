-- ===== src/Parser/Item/Total.antt =====
-- An item has a result on every stream that ends with `eof`: the fuel is enough.
use tyra.Prelude.{ℕ, ◌<◌, refl, Bool, true, false, not, ◌&&◌, List, String, string_eq}
use tyra.Diagnostics.Span.{Span}
use tyra.Syntax.Token.{
  TokenKind, Token, kw_export, kw_async, kw_fn, kw_value, kw_data, kw_type, kw_trait, kw_impl,
  kw_import,
}
use tyra.Parser.Parse.{Parse, return}
use tyra.Parser.Parse.Runs.{Runs, stays, return-Runs, Runs-bind}
use tyra.Parser.Parse.Steps.{complain-Runs}
use tyra.Parser.Parse.Behind.{eat-Runs, Runs-peek_span_then, Runs-peek_then, peek_second-Runs}
use tyra.Parser.Parse.Newlines.{skip_newlines-Runs}
use tyra.Parser.Param.{is_ident}
use tyra.Parser.Ast.{Stmt, Item}
use tyra.Parser.Decl.Total.{parse_value_def-Runs, parse_data_def-Runs, parse_type_def-Runs}
use tyra.Parser.Decl.Methods.{
  parse_trait_def-Runs, parse_import-Runs, parse_fn_def-Runs, parse_impl_def-Runs,
  parse_test_def-Runs,
}
use tyra.Parser.Item.{
  is_fn, is_string, complain_if, exported_main, item_of, checked_fn, item_at, test_or_item,
  parse_item,
}

module _ (tokens : List Token) (n : ℕ) (start : Span) where
  complain_if-Runs :
      (b : Bool) (message code label : String)
      → Runs tokens n (complain_if b message code start label)
  unfolding complain_if
  complain_if-Runs true message code label = complain-Runs tokens n message code start label
  complain_if-Runs false message code label = return-Runs tokens n tt

  exported_main-Runs : (b : Bool) → Runs tokens n (exported_main b start)
  unfolding exported_main Runs return
  exported_main-Runs true ts report v l = stays tt _ refl v
  exported_main-Runs false ts report v l = stays tt report refl v

module _ (tokens : List Token) (parse_stmt : Parse Stmt) (parse_body : Parse (List Stmt)) (f n : ℕ)
    (l : n < f) (stmt-Runs : Runs tokens n parse_stmt)
    (body-Runs : (n : ℕ) → n < f → Runs tokens n parse_body) where
  item_of-Runs :
      {A : Type 0} (m : Parse A) (make : A → Item)
      → Runs tokens n m
      → Runs tokens n (item_of parse_stmt parse_body f m make)
  unfolding item_of
  item_of-Runs m make h =
      Runs-bind tokens n m _ h
        (λ d. Runs-bind tokens n _ _ (skip_newlines-Runs tokens n) (λ u. return-Runs tokens n _))

  module _ (start : Span) (is_async is_export : Bool) where
    checked_fn-Runs : Runs tokens n (checked_fn parse_stmt parse_body f start is_async is_export)
    unfolding checked_fn
    checked_fn-Runs =
        Runs-bind tokens n _ _
          (parse_fn_def-Runs tokens f parse_body body-Runs is_async is_export n l)
          (λ func.
            Runs-bind tokens n _ _ (exported_main-Runs tokens n start _)
              (λ u. return-Runs tokens n func))

    item_at-Runs :
        (kind : TokenKind)
        → Runs tokens n (item_at parse_stmt parse_body f start is_async is_export kind)
    unfolding item_at
    item_at-Runs kw_fn = item_of-Runs _ _ checked_fn-Runs
    item_at-Runs kw_value = item_of-Runs _ _ (parse_value_def-Runs tokens f n l is_export)
    item_at-Runs kw_data = item_of-Runs _ _ (parse_data_def-Runs tokens f n l is_export)
    item_at-Runs kw_type = item_of-Runs _ _ (parse_type_def-Runs tokens f n l is_export)
    item_at-Runs kw_trait = item_of-Runs _ _ (parse_trait_def-Runs tokens f n l is_export)
    item_at-Runs kw_impl =
        Runs-bind tokens n _ _ (complain_if-Runs tokens n start is_export _ _ _)
          (λ u. item_of-Runs _ _ (parse_impl_def-Runs tokens f parse_body body-Runs n l))
    item_at-Runs kw_import =
        Runs-bind tokens n _ _ (complain_if-Runs tokens n start is_export _ _ _)
          (λ u. item_of-Runs _ _ (parse_import-Runs tokens f n l))
    item_at-Runs kind =
        Runs-bind tokens n _ _ (complain_if-Runs tokens n start is_export _ _ _)
          (λ u. item_of-Runs _ _ stmt-Runs)

    test_or_item-Runs :
        (kind : TokenKind) (b : Bool)
        → Runs tokens n (test_or_item parse_stmt parse_body f start is_async is_export kind b)
    unfolding test_or_item
    test_or_item-Runs kind true =
        item_of-Runs _ _ (parse_test_def-Runs tokens f parse_body body-Runs n l)
    test_or_item-Runs kind false = item_at-Runs kind

  -- With more fuel than tokens ahead `parse_item` has a result.
  pub parse_item-Runs : Runs tokens n (parse_item parse_stmt parse_body f)
  unfolding parse_item
  parse_item-Runs = Runs-peek_span_then tokens n _ (λ start.
      Runs-bind tokens n _ _ (eat-Runs tokens n kw_export) (λ is_export.
        Runs-bind tokens n _ _ (eat-Runs tokens n kw_async) (λ is_async.
          Runs-peek_then tokens n _ (λ kind.
            Runs-bind tokens n _ _
              (complain_if-Runs tokens n start (is_async && not (is_fn kind)) _ _ _)
              (λ u. Runs-bind tokens n _ _ (peek_second-Runs tokens n) (λ second.
                test_or_item-Runs start is_async is_export kind
                  (not is_export && not is_async && is_ident "test" kind && is_string second)))))))
