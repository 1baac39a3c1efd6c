-- ===== src/Syntax/TokenStream/Demands.antt =====
-- What the operations that demand a token do on a stream that ends with `eof`.
use tyra.Prelude.{◌≡◌, refl, true, false, none, some, inl, inr, Bool-cases}
use tyra.Diagnostics.Report.{Report}
use tyra.Syntax.Token.{TokenKind, Token}
use tyra.Syntax.TokenStream.{
  TokenStream, peek, peek_token, kind_of, matches, advanced, check, kind_test, eat, eat_at, eaten,
  expect, expect_at, complain, wanted, unexpected,
}
use tyra.Syntax.TokenStream.Cursor.{IsValid, Advanced, advance-Advanced}

-- The outcomes of `expect`: the token that `advance` gives, of the kind expected and with the report
-- as it was, or no token, the stream as it was and one more call of `Report::add`.
pub data Demanded (expected : TokenKind) (ts : TokenStream) (report : Report) : Type 0 where
  met :
      (a : Advanced ts)
      → matches a.token.kind expected ≡ true
      → expect expected ts report ≡ some (some a.token, (a.next, report))
      → eat ts expected ≡ some (true, a.next)
      → Demanded expected ts report
  missed :
      (t : Token)
      → peek_token ts ≡ some t
      → matches t.kind expected ≡ false
      → expect expected ts report
        ≡ some (
          none,
          (ts, complain (unexpected expected t.kind) "E0100" (wanted expected) t.span report),
        )
      → eat ts expected ≡ some (false, ts)
      → Demanded expected ts report

-- On a stream that ends with `eof`, `expect` and `eat` consume the current token exactly if its kind
-- is the one asked for; otherwise they leave the stream, and `expect` reports E0100 at the token.
pub expect-Demanded :
    (expected : TokenKind) (ts : TokenStream) (report : Report)
    → IsValid ts
    → Demanded expected ts report
unfolding expect expect_at advanced eat eat_at check kind_test peek kind_of eaten
expect-Demanded expected ts report v =
    let a = advance-Advanced ts v in
    elim (Bool-cases (matches a.token.kind expected)) [
      | inl y ↦ met a y (rw (a.peeked, y, a.result) refl) (rw (a.peeked, y, a.result) refl)
      | inr n ↦ missed a.token a.peeked n (rw (a.peeked, n) refl) (rw (a.peeked, n) refl)
    ]
