-- ===== src/Syntax/Text.antt =====
-- `char::from_u32`, and texts of characters that are given by their numbers.
use Prim.Native.Char.{Char, char, IsScalar}
use Prim.Native.Nat.{compare, Ordering}
use Prim.Native.String
use tyra.Prelude.{
  ℕ, ◌≡◌, refl, Bool, true, false, ◌&&◌, Option, none, some, List, [], ◌∷◌, String, ltb, arith,
}

pub low : (n : ℕ) → ltb n 55296 ≡ true → IsScalar n
low n y = let q : compare n 55296 ≡ Ordering.lt = ground arith in rw q tt

pub high : (n : ℕ) → (ltb 57343 n && ltb n 1114112) ≡ true → IsScalar n
high n y =
    let p : compare n 55296 ≡ Ordering.gt = ground arith in
    let q : compare 57343 n ≡ Ordering.lt = ground arith in
    let r : compare n 1114112 ≡ Ordering.lt = ground arith in rw (p, q, r) tt

unfoldable high_char : (n : ℕ) (b : Bool) → (ltb 57343 n && ltb n 1114112) ≡ b → Option Char
high_char n true y = some (char n (high n y))
high_char n false y = none

unfoldable low_char : (n : ℕ) (b : Bool) → ltb n 55296 ≡ b → Option Char
unfolding high_char
low_char n true y = some (char n (low n y))
low_char n false y = high_char n (ltb 57343 n && ltb n 1114112) refl

unfoldable pub from_u32 : ℕ → Option Char
unfolding low_char
from_u32 n = low_char n (ltb n 55296) refl

-- The text of the characters; every number in it is a character's.
unfoldable pub text : List ℕ → String
unfolding from_u32
text [] = String.[]
text (n ∷ ns) = elim (from_u32 n) [ none ↦ text ns | some c ↦ String.◌∷◌ c (text ns) ]

test_text : text (104 ∷ 105 ∷ []) ≡ "hi"
unfolding text
test_text = refl

-- `format!` with one argument between two texts.
abbrev pub format : String → String → String → String
format before value after = String.◌++◌ before (String.◌++◌ value after)
