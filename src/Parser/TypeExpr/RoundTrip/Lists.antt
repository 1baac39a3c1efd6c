-- ===== src/Parser/TypeExpr/RoundTrip/Lists.antt =====
-- compiler/crates/tyra-parser/src/type_expr.rs: the loops over the types in a list, on the tokens of
-- the types.
use tyra.Prelude.{
  ℕ, zero, suc, ◌≤◌, ◌≡◌, refl, sym, ap, ◌∙◌, subst, Bool, true, List, [], ◌∷◌, ◌++◌, arith,
}
use tyra.Syntax.Token.{TokenKind, discriminant, r_paren, comma, gt}
use tyra.Syntax.TokenStream.{matches, is_newline}
use tyra.Types.Written.{TypeExpr, TypeExprs, no_exprs, exprs}
use tyra.Parser.Parse.{Parse, ◌>>=◌, more_before}
use tyra.Parser.Parse.Reads.{
  Reads, Reads-return, Reads-bind, Reads-more_before_then, Reads-none_before_then, Reads-eat_then,
  Reads-uneaten_then,
}
use tyra.Parser.Commas.{item_behind, item_at, parse_comma_separated}
use tyra.Parser.TypeExpr.{vec, arg_at, args_loop}
use tyra.Parser.TypeExpr.Print.{
  print, print_all, print_tail, Written, AllWritten, bare, bare_all, size, size_all, Follows,
  gt-Follows, r_paren-Follows, print_tail-Head, print-Head,
}

unfoldable pub joined : List TypeExpr → TypeExprs → TypeExprs
joined [] ts = ts
joined (a ∷ acc) ts = exprs a (joined acc ts)

-- The list read so far and the types ahead.
abbrev pub Collects : List TypeExpr → TypeExprs → List TypeExpr → Type 0
Collects acc ts l = bare_all (vec l) ≡ bare_all (joined acc ts)

vec-joined : (acc : List TypeExpr) → Collects acc no_exprs acc
unfolding joined bare_all
vec-joined [] = refl
vec-joined (a ∷ acc) = ap (exprs (bare a)) (vec-joined acc)

joined-append :
    (acc : List TypeExpr) (u t : TypeExpr) (ts : TypeExprs)
    → bare u ≡ bare t
    → bare_all (joined (acc ++ (u ∷ [])) ts) ≡ bare_all (joined acc (exprs t ts))
unfolding joined bare_all
joined-append [] u t ts e = ap (λ x. exprs x (bare_all ts)) e
joined-append (a ∷ acc) u t ts e = ap (exprs (bare a)) (joined-append acc u t ts e)

-- A type in front begins a round of a loop up to `)`.
more-Reads :
    (t : TypeExpr) (rest stop : List TokenKind) {B : Type 0} (k : Bool → Parse B) (ok : B → Type 0)
    → Reads (print t rest) stop (k true) ok
    → Reads (print t rest) stop (more_before r_paren >>= k) ok
more-Reads t rest stop k ok r =
    let head = print-Head t rest in
    subst (λ ks. Reads ks stop (more_before r_paren >>= k) ok) (sym head.is)
      (Reads-more_before_then head.kind head.more stop ok (head.good.0) r_paren k (head.good.1)
        (head.good.2) (subst (λ ks. Reads ks stop (k true) ok) head.is r))

module _ (f : ℕ) (part : Parse TypeExpr)
    (reads : (t : TypeExpr) (k : TokenKind) (more : List TokenKind)
      → size t ≤ f
      → Written t
      → Follows k
      → Reads (print t (k ∷ more)) (k ∷ more) part (λ u. bare u ≡ bare t)) where
  -- A part in front of the tail of a list.
  pub part_tail-Reads :
      (t : TypeExpr) (ts : TypeExprs) (k : TokenKind) (more : List TokenKind)
      → size t ≤ f
      → Written t
      → Follows k
      → Reads
          (print t (print_tail ts (k ∷ more)))
          (print_tail ts (k ∷ more))
          part
          (λ u. bare u ≡ bare t)
  part_tail-Reads t ts k more l w h =
      let head = print_tail-Head ts k more h in
      rw head.is (reads t head.kind head.more l w head.good)

  pub args_loop-Reads :
      (g : ℕ) (acc : List TypeExpr) (ts : TypeExprs) (more : List TokenKind)
      → size_all ts ≤ g
      → size_all ts ≤ suc f
      → AllWritten ts
      → Reads (print_tail ts (gt ∷ more)) (gt ∷ more) (args_loop part g acc) (Collects acc ts)
  unfolding args_loop arg_at print_tail size_all AllWritten matches discriminant is_newline
  args_loop-Reads zero acc no_exprs more l small w = absurd (omega arith)
  args_loop-Reads zero acc (exprs t ts) more l small w = absurd (omega arith)
  args_loop-Reads (suc g) acc no_exprs more l small w =
      Reads-uneaten_then gt more (gt ∷ more) _ refl comma _ refl
        (Reads-return (gt ∷ more) _ acc (vec-joined acc))
  args_loop-Reads (suc g) acc (exprs t ts) more l small w =
      Reads-eat_then comma (print t (print_tail ts (gt ∷ more))) (gt ∷ more) _ refl comma _ refl (
        Reads-bind (print t (print_tail ts (gt ∷ more))) (print_tail ts (gt ∷ more)) (gt ∷ more)
          part _ (λ u. bare u ≡ bare t) _
          (part_tail-Reads t ts gt more (omega arith) w.0 gt-Follows)
          (λ u e.
            subst
              (λ c.
                Reads (print_tail ts (gt ∷ more)) (gt ∷ more) (args_loop part g (acc ++ (u ∷ [])))
                  (λ l. bare_all (vec l) ≡ c))
              (joined-append acc u t ts e)
              (args_loop-Reads g (acc ++ (u ∷ [])) ts more (omega arith) (omega arith) w.1)))

  commas-Reads :
      (g : ℕ) (acc : List TypeExpr) (t : TypeExpr) (ts : TypeExprs) (more : List TokenKind)
      → size_all (exprs t ts) ≤ g
      → size_all (exprs t ts) ≤ suc f
      → AllWritten (exprs t ts)
      → Reads
          (print t (print_tail ts (r_paren ∷ more)))
          (r_paren ∷ more)
          (parse_comma_separated r_paren part g acc)
          (Collects acc (exprs t ts))
  unfolding parse_comma_separated item_at item_behind print_tail size_all AllWritten matches
      discriminant is_newline
  commas-Reads zero acc t ts more l small w = absurd (omega arith)
  commas-Reads (suc g) acc t no_exprs more l small w = more-Reads t _ (r_paren ∷ more) _ _ (
      Reads-bind _ (r_paren ∷ more) (r_paren ∷ more) part _ (λ u. bare u ≡ bare t) _
        (part_tail-Reads t no_exprs r_paren more (omega arith) w.0 r_paren-Follows)
        (λ u e. Reads-uneaten_then r_paren more (r_paren ∷ more) _ refl comma _ refl (
          Reads-return (r_paren ∷ more) _ (acc ++ (u ∷ []))
            (vec-joined (acc ++ (u ∷ [])) ∙ joined-append acc u t no_exprs e))))
  commas-Reads (suc g) acc t (exprs v ts) more l small w = more-Reads t _ (r_paren ∷ more) _ _ (
      Reads-bind _ (print_tail (exprs v ts) (r_paren ∷ more)) (r_paren ∷ more) part _
        (λ u. bare u ≡ bare t) _
        (part_tail-Reads t (exprs v ts) r_paren more (omega arith) w.0 r_paren-Follows)
        (λ u e.
          Reads-eat_then comma (print v (print_tail ts (r_paren ∷ more))) (r_paren ∷ more) _ refl
            comma _ refl
            (subst
              (λ c.
                Reads (print v (print_tail ts (r_paren ∷ more))) (r_paren ∷ more)
                  (parse_comma_separated r_paren part g (acc ++ (u ∷ [])))
                  (λ l. bare_all (vec l) ≡ c))
              (joined-append acc u t (exprs v ts) e)
              (commas-Reads g (acc ++ (u ∷ [])) v ts more (omega arith) (omega arith) w.1))))

  none-Reads :
      (g : ℕ) (more : List TokenKind)
      → size_all no_exprs ≤ g
      → Reads
          (r_paren ∷ more)
          (r_paren ∷ more)
          (parse_comma_separated r_paren part g [])
          (Collects [] no_exprs)
  unfolding parse_comma_separated item_at size_all joined bare_all matches discriminant is_newline
  none-Reads zero more l = absurd (omega arith)
  none-Reads (suc g) more l =
      Reads-none_before_then r_paren more (r_paren ∷ more) _ refl r_paren _ refl
        (Reads-return (r_paren ∷ more) _ [] refl)

  -- A list up to `)`, which may be empty.
  pub list-Reads :
      (ts : TypeExprs) (more : List TokenKind)
      → size_all ts ≤ f
      → AllWritten ts
      → Reads
          (print_all ts (r_paren ∷ more))
          (r_paren ∷ more)
          (parse_comma_separated r_paren part f [])
          (Collects [] ts)
  unfolding print_all
  list-Reads no_exprs more l w = none-Reads f more l
  list-Reads (exprs t ts) more l w = commas-Reads f [] t ts more l (omega arith) w
