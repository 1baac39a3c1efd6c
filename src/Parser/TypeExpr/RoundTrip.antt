-- ===== src/Parser/TypeExpr/RoundTrip.antt =====
-- compiler/crates/tyra-parser/src/type_expr.rs: `parse_type` on the tokens of a type.
pub mod Lists
use tyra.Prelude.{
  ℕ, zero, suc, ◌+◌, ◌≤◌, ◌≡◌, refl, sym, ap, ◌∙◌, subst, Bool, true, false, List, [], ◌∷◌, ◌++◌,
  String, arith, length, ltb,
}
use tyra.Diagnostics.Span.{Span}
use tyra.Syntax.Token.{
  TokenKind, discriminant, eof, l_paren, r_paren, kw_fn, ident, comma, arrow, dot, lt, gt,
}
use tyra.Diagnostics.Report.{Report}
use tyra.Syntax.TokenStream.{TokenStream, matches, is_newline}
use tyra.Types.Written.{
  TypeExpr, TypeExprs, type_expr, no_exprs, exprs, named_kind, generic_kind, fn_kind, tuple_kind,
}
use tyra.Parser.Parse.{Parse, ◌>>=◌, check, more_before, peek, peek_span}
use tyra.Parser.Parse.Reads.{
  Reads, Shows, Parses, Reads-return, Reads-bind, Reads-advance_then, Reads-peek_then,
  Reads-peek_span_then, Reads-check_then, Reads-more_before_then, Reads-none_before_then,
  Reads-eat_then, Reads-uneaten_then, Reads-expect_then,
}
use tyra.Parser.Commas.{item_behind, item_at, parse_comma_separated}
use tyra.Parser.TypeExpr.{
  vec, two_or_more, qualified, arg_at, args_loop, tuple_type, fn_type, generic_at, named_type,
  type_at, parse_type,
}
use tyra.Parser.TypeExpr.Print.{
  print, print_all, print_tail, Written, AllWritten, nowhere, bare, bare_all, size, size_all,
  Follows, Head, comma-Follows, gt-Follows, r_paren-Follows, print_tail-Head, Begins, print-Head,
  size-positive,
}
use tyra.Parser.TypeExpr.RoundTrip.Lists.{
  joined, Collects, args_loop-Reads, part_tail-Reads, list-Reads,
}

two_or_more-Reads :
    (elems : List TypeExpr) (t u : TypeExpr) (ts : TypeExprs) (start : Span) (rest : List TokenKind)
    → Collects [] (exprs t (exprs u ts)) elems
    → Reads rest rest (two_or_more elems start) (λ r. Unit)
unfolding two_or_more joined bare_all
two_or_more-Reads [] t u ts start rest e = absurd (cc)
two_or_more-Reads (a ∷ []) t u ts start rest e = absurd (cc)
two_or_more-Reads (a ∷ b ∷ l) t u ts start rest e =
    let n : ltb (length (a ∷ b ∷ l)) 2 ≡ false = ground arith in rw n (Reads-return rest _ tt tt)

-- No `.` comes behind the name.
last-Reads :
    (name : String) (k : TokenKind) (more : List TokenKind)
    → is_newline k ≡ false
    → matches k dot ≡ false
    → Reads (k ∷ more) (k ∷ more) (check dot >>= qualified name) (λ last. last ≡ name)
unfolding qualified
last-Reads name k more plain n =
    Reads-check_then k more (k ∷ more) _ plain dot _ (rw n (Reads-return (k ∷ more) _ name refl))

module _ (f : ℕ) (part : Parse TypeExpr)
    (reads : (t : TypeExpr) (k : TokenKind) (more : List TokenKind)
      → size t ≤ f
      → Written t
      → Follows k
      → Reads (print t (k ∷ more)) (k ∷ more) part (λ u. bare u ≡ bare t)) where
  tuple-Reads :
      (start : Span) (t u : TypeExpr) (ts : TypeExprs) (more : List TokenKind)
      → size_all (exprs t (exprs u ts)) ≤ f
      → AllWritten (exprs t (exprs u ts))
      → Reads
          (l_paren ∷ print_all (exprs t (exprs u ts)) (r_paren ∷ more))
          more
          (tuple_type part f start)
          (λ v. bare v ≡ type_expr (tuple_kind (bare_all (exprs t (exprs u ts)))) nowhere)
  unfolding tuple_type bare joined is_newline matches discriminant
  tuple-Reads start t u ts more l w = Reads-advance_then l_paren _ more _ refl _ (λ paren.
      Reads-bind _ (r_paren ∷ more) more _ _ (Collects [] (exprs t (exprs u ts))) _
        (list-Reads f part reads (exprs t (exprs u ts)) more l w)
        (λ elems e. Reads-peek_span_then r_paren more more _ refl _ (λ stop.
          Reads-expect_then r_paren more more _ refl r_paren _ refl (λ close.
            Reads-bind more more more _ _ (λ r. Unit) _
              (two_or_more-Reads elems t u ts start more e)
              (λ r q. Reads-return more _ _ (ap (λ x. type_expr (tuple_kind x) nowhere) e))))))

  fn-Reads :
      (start : Span) (params : TypeExprs) (ret : TypeExpr) (k : TokenKind) (more : List TokenKind)
      → size_all params + size ret ≤ f
      → AllWritten params
      → Written ret
      → Follows k
      → Reads
          (kw_fn ∷ l_paren ∷ print_all params (r_paren ∷ arrow ∷ print ret (k ∷ more)))
          (k ∷ more)
          (fn_type part f start)
          (λ v. bare v ≡ type_expr (fn_kind (bare_all params) (bare ret)) nowhere)
  unfolding fn_type bare joined is_newline matches discriminant
  fn-Reads start params ret k more l w v h =
      Reads-advance_then kw_fn _ (k ∷ more) _ refl _ (λ keyword.
        Reads-expect_then l_paren _ (k ∷ more) _ refl l_paren _ refl (λ paren.
          Reads-bind _ (r_paren ∷ arrow ∷ print ret (k ∷ more)) (k ∷ more) _ _ (Collects [] params)
            _ (list-Reads f part reads params (arrow ∷ print ret (k ∷ more)) (omega arith) w)
            (λ ps e. Reads-expect_then r_paren _ (k ∷ more) _ refl r_paren _ refl (λ close.
              Reads-expect_then arrow _ (k ∷ more) _ refl arrow _ refl (λ to.
                Reads-bind _ (k ∷ more) (k ∷ more) _ _ (λ u. bare u ≡ bare ret) _
                  (reads ret k more (omega arith) v h)
                  (λ r q. Reads-return (k ∷ more) _ _ (cc)))))))

  name-Reads :
      (start : Span) (name : String) (k : TokenKind) (more : List TokenKind)
      → Follows k
      → Reads
          (ident name ∷ k ∷ more)
          (k ∷ more)
          (named_type part f start name)
          (λ v. bare v ≡ type_expr (named_kind name) nowhere)
  unfolding named_type generic_at bare is_newline
  name-Reads start name k more h =
      Reads-advance_then (ident name) (k ∷ more) (k ∷ more) _ refl _ (λ first.
        Reads-bind (k ∷ more) (k ∷ more) (k ∷ more) _ _ (λ last. last ≡ name) _
          (last-Reads name k more (h.0) (h.1))
          (λ last e. Reads-check_then k more (k ∷ more) _ (h.0) lt _ (
            rw (h.2) (Reads-return (k ∷ more) _ _ (ap (λ n. type_expr (named_kind n) nowhere) e)))))

  generic-Reads :
      (start : Span) (name : String) (t : TypeExpr) (ts : TypeExprs) (more : List TokenKind)
      → size_all (exprs t ts) ≤ f
      → AllWritten (exprs t ts)
      → Reads
          (ident name ∷ lt ∷ print_all (exprs t ts) (gt ∷ more))
          more
          (named_type part f start name)
          (λ v. bare v ≡ type_expr (generic_kind name (bare_all (exprs t ts))) nowhere)
  unfolding named_type generic_at bare joined bare_all print_all size_all AllWritten is_newline
      matches discriminant
  generic-Reads start name t ts more l w = Reads-advance_then (ident name) _ more _ refl _ (λ first.
      Reads-bind _ (lt ∷ print t (print_tail ts (gt ∷ more))) more _ _ (λ last. last ≡ name) _
        (last-Reads name lt _ refl refl)
        (λ last e. Reads-check_then lt _ more _ refl lt _ (
          Reads-advance_then lt _ more _ refl _ (λ angle.
            Reads-bind _ (print_tail ts (gt ∷ more)) more _ _ (λ u. bare u ≡ bare t) _
              (part_tail-Reads f part reads t ts gt more (omega arith) (w.0) gt-Follows)
              (λ u q.
                Reads-bind _ (gt ∷ more) more _ _ (Collects (u ∷ []) ts) _
                  (args_loop-Reads f part reads f (u ∷ []) ts more (omega arith) (omega arith)
                    (w.1))
                  (λ args c. Reads-peek_span_then gt more more _ refl _ (λ stop.
                    Reads-expect_then gt more more _ refl gt _ refl
                      (λ close. Reads-return more _ _ (cc)))))))))

  type-Reads :
      (t : TypeExpr) (k : TokenKind) (more : List TokenKind)
      → size t ≤ suc f
      → Written t
      → Follows k
      → Reads
          (print t (k ∷ more))
          (k ∷ more)
          (peek_span >>= λ start. peek >>= type_at part f start)
          (λ u. bare u ≡ bare t)
  unfolding print Written size bare AllWritten type_at is_newline
  type-Reads (type_expr (named_kind name) span) k more l w h =
      Reads-peek_span_then (ident name) _ (k ∷ more) _ refl _ (λ start.
        Reads-peek_then (ident name) _ (k ∷ more) _ refl _ (name-Reads start name k more h))
  type-Reads (type_expr (generic_kind name no_exprs) span) k more l w h = absurd w
  type-Reads (type_expr (generic_kind name (exprs t ts)) span) k more l w h =
      Reads-peek_span_then (ident name) _ (k ∷ more) _ refl _ (λ start.
        Reads-peek_then (ident name) _ (k ∷ more) _ refl _
          (generic-Reads start name t ts (k ∷ more) (omega arith) w))
  type-Reads (type_expr (fn_kind params ret) span) k more l w h =
      Reads-peek_span_then kw_fn _ (k ∷ more) _ refl _ (λ start.
        Reads-peek_then kw_fn _ (k ∷ more) _ refl _
          (fn-Reads start params ret k more (omega arith) (w.0) (w.1) h))
  type-Reads (type_expr (tuple_kind no_exprs) span) k more l w h = absurd w
  type-Reads (type_expr (tuple_kind (exprs t no_exprs)) span) k more l w h = absurd w
  type-Reads (type_expr (tuple_kind (exprs t (exprs u ts))) span) k more l w h =
      Reads-peek_span_then l_paren _ (k ∷ more) _ refl _ (λ start.
        Reads-peek_then l_paren _ (k ∷ more) _ refl _
          (tuple-Reads start t u ts (k ∷ more) (omega arith) w))

parse_type-Reads :
    (f : ℕ) (t : TypeExpr) (k : TokenKind) (more : List TokenKind)
    → size t ≤ f
    → Written t
    → Follows k
    → Reads (print t (k ∷ more)) (k ∷ more) (parse_type f) (λ u. bare u ≡ bare t)
unfolding parse_type
parse_type-Reads zero t k more l w h = let p = size-positive t in absurd (omega arith)
parse_type-Reads (suc f) t k more l w h =
    type-Reads f (parse_type f) (parse_type-Reads f) t k more l w h

-- For a type of the forms that a program can write (a generic type has an argument, a tuple has two
-- elements), on a stream that shows its tokens in front of a kind that is no newline, `.` or `<`:
-- `parse_type`, with fuel for the size of the type, has a result. The result is the type up to its
-- spans, the stream shows the kinds behind the type, and no diagnostic is new.
pub parse_type-print :
    (f : ℕ) (t : TypeExpr) (k : TokenKind) (more : List TokenKind)
    → size t ≤ f
    → Written t
    → Follows k
    → (ts : TokenStream) (report : Report) → Shows ts (print t (k ∷ more))
    → Parses (λ u. bare u ≡ bare t) (k ∷ more) report (parse_type f ts report)
unfolding Reads
parse_type-print f t k more l w h = parse_type-Reads f t k more l w h
