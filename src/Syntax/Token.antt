-- ===== src/Syntax/Token.antt =====
-- compiler/crates/tyra-lexer/src/token.rs: the tokens. An `i64` or an `f64` literal is its bit pattern.
use tyra.Prelude.{ℕ, Option, List, [], ◌∷◌, String, string_eq}
use tyra.Prelude.Dict.{Dict, get}
use tyra.Diagnostics.Span.{Span}

pub data InterpPart : Type 0 where
  lit : String → InterpPart
  expr : String → InterpPart

pub data TokenKind : Type 0 where
  int : ℕ → TokenKind
  float : ℕ → TokenKind
  string : String → TokenKind
  interp_string : List InterpPart → TokenKind
  raw_string : String → TokenKind
  ident : String → TokenKind
  kw_true kw_false kw_fn kw_data kw_value kw_type kw_trait kw_impl kw_let kw_mut kw_if kw_else :
      TokenKind
  kw_match kw_when kw_for kw_in kw_while kw_break kw_continue kw_return kw_defer kw_async :
      TokenKind
  kw_await kw_spawn kw_import kw_export kw_and kw_or kw_not kw_end plus minus star slash : TokenKind
  percent eq eq_eq bang_eq lt lt_eq gt gt_eq eq_eq_eq arrow dot colon colon_colon question pipe :
      TokenKind
  comma l_paren r_paren l_bracket r_bracket l_brace r_brace newline eof error : TokenKind

pub record Token : Type 0 where
  pub kind : TokenKind
  pub span : Span

-- The table of the `match` of `TokenKind::keyword`.
unfoldable pub keywords : Dict String TokenKind
keywords =
    ("fn", kw_fn)
    ∷ ("data", kw_data)
    ∷ ("value", kw_value)
    ∷ ("type", kw_type)
    ∷ ("trait", kw_trait)
    ∷ ("impl", kw_impl)
    ∷ ("let", kw_let)
    ∷ ("mut", kw_mut)
    ∷ ("if", kw_if)
    ∷ ("else", kw_else)
    ∷ ("match", kw_match)
    ∷ ("when", kw_when)
    ∷ ("for", kw_for)
    ∷ ("in", kw_in)
    ∷ ("while", kw_while)
    ∷ ("break", kw_break)
    ∷ ("continue", kw_continue)
    ∷ ("return", kw_return)
    ∷ ("defer", kw_defer)
    ∷ ("async", kw_async)
    ∷ ("await", kw_await)
    ∷ ("spawn", kw_spawn)
    ∷ ("import", kw_import)
    ∷ ("export", kw_export)
    ∷ ("and", kw_and)
    ∷ ("or", kw_or)
    ∷ ("not", kw_not)
    ∷ ("true", kw_true)
    ∷ ("false", kw_false)
    ∷ ("end", kw_end)
    ∷ []

unfoldable pub keyword : String → Option TokenKind
unfolding keywords
keyword s = get s keywords

-- `std::mem::discriminant`: the constructor's place in the declaration.
unfoldable pub discriminant : TokenKind → ℕ
discriminant (int v) = 0
discriminant (float v) = 1
discriminant (string v) = 2
discriminant (interp_string v) = 3
discriminant (raw_string v) = 4
discriminant kw_true = 5
discriminant kw_false = 6
discriminant (ident v) = 7
discriminant kw_fn = 8
discriminant kw_data = 9
discriminant kw_value = 10
discriminant kw_type = 11
discriminant kw_trait = 12
discriminant kw_impl = 13
discriminant kw_let = 14
discriminant kw_mut = 15
discriminant kw_if = 16
discriminant kw_else = 17
discriminant kw_match = 18
discriminant kw_when = 19
discriminant kw_for = 20
discriminant kw_in = 21
discriminant kw_while = 22
discriminant kw_break = 23
discriminant kw_continue = 24
discriminant kw_return = 25
discriminant kw_defer = 26
discriminant kw_async = 27
discriminant kw_await = 28
discriminant kw_spawn = 29
discriminant kw_import = 30
discriminant kw_export = 31
discriminant kw_and = 32
discriminant kw_or = 33
discriminant kw_not = 34
discriminant kw_end = 35
discriminant plus = 36
discriminant minus = 37
discriminant star = 38
discriminant slash = 39
discriminant percent = 40
discriminant eq = 41
discriminant eq_eq = 42
discriminant bang_eq = 43
discriminant lt = 44
discriminant lt_eq = 45
discriminant gt = 46
discriminant gt_eq = 47
discriminant eq_eq_eq = 48
discriminant arrow = 49
discriminant dot = 50
discriminant colon = 51
discriminant colon_colon = 52
discriminant question = 53
discriminant pipe = 54
discriminant comma = 55
discriminant l_paren = 56
discriminant r_paren = 57
discriminant l_bracket = 58
discriminant r_bracket = 59
discriminant l_brace = 60
discriminant r_brace = 61
discriminant newline = 62
discriminant eof = 63
discriminant error = 64
