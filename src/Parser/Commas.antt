-- ===== src/Parser/Commas.antt =====
-- compiler/crates/tyra-parser/src/expr.rs: `parse_comma_separated`, a loop that the parsers of types,
-- patterns and parameters write out.
use tyra.Prelude.{ℕ, zero, suc, ◌<◌, refl, Bool, true, false, List, [], ◌∷◌, ◌++◌, arith}
use tyra.Syntax.Token.{TokenKind, Token, discriminant, comma}
use tyra.Syntax.TokenStream.{matches}
use tyra.Parser.Parse.{Parse, return, stuck, ◌>>=◌, more_before, eat}
use tyra.Parser.Parse.Runs.{Runs, Moves, return-Runs, Moves-bind}
use tyra.Parser.Parse.Behind.{Runs-eat_then, Runs-more_before_then}

module _ {A : Type 0} (close : TokenKind) (parse_item : Parse A) where
  -- Behind an item: a comma, or the end.
  unfoldable pub item_behind : (List A → Parse (List A)) → List A → Bool → Parse (List A)
  item_behind loop items true = loop items
  item_behind loop items false = return items

  unfoldable pub item_at : (List A → Parse (List A)) → List A → Bool → Parse (List A)
  unfolding eat item_behind
  item_at loop items false = return items
  item_at loop items true =
      parse_item >>= λ item. eat comma >>= item_behind loop (items ++ (item ∷ []))

  -- The rounds are on fuel.
  unfoldable pub parse_comma_separated : ℕ → List A → Parse (List A)
  unfolding more_before item_at
  parse_comma_separated zero items = stuck
  parse_comma_separated (suc f) items =
      more_before close >>= item_at (parse_comma_separated f) items

-- With more fuel than tokens ahead the loop ends, if each item comes closer to the end.
pub parse_comma_separated-Runs :
    (tokens : List Token) {A : Type 0} (close : TokenKind) (parse_item : Parse A) (f : ℕ)
    → ((n : ℕ) → suc n < f → Moves tokens n parse_item)
    → (g n : ℕ) (items : List A) → n < g
    → n < f
    → Runs tokens n (parse_comma_separated close parse_item g items)
unfolding parse_comma_separated item_at item_behind matches discriminant
parse_comma_separated-Runs tokens close parse_item f moving zero n items l small =
    absurd (omega arith)
parse_comma_separated-Runs tokens close parse_item f moving (suc g) n items l small =
    Runs-more_before_then tokens n close _ (return-Runs tokens n items) (λ j q.
      Moves-bind tokens j parse_item _ (moving j (omega arith)) (λ t.
        Runs-eat_then tokens j comma _ refl (return-Runs tokens j _) (λ i p.
          parse_comma_separated-Runs tokens close parse_item f moving g i (items ++ (t ∷ []))
            (omega arith) (omega arith))))
