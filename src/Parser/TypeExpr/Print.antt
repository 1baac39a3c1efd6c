-- ===== src/Parser/TypeExpr/Print.antt =====
-- The tokens of a type expression of compiler/crates/tyra-ast/src/types.rs, as its source is written.
use tyra.Prelude.{ℕ, suc, ◌+◌, ◌≤◌, ◌≡◌, refl, false, List, ◌∷◌, arith}
use tyra.Diagnostics.Span.{Span}
use tyra.Syntax.Token.{
  TokenKind, discriminant, eof, l_paren, r_paren, kw_fn, ident, comma, arrow, dot, lt, gt,
}
use tyra.Syntax.TokenStream.{matches, is_newline}
use tyra.Types.Written.{
  TypeExpr, TypeExprs, type_expr, no_exprs, exprs, named_kind, generic_kind, fn_kind, tuple_kind,
}

-- The tokens of a type, in front of others; `print_tail` begins with a comma.
unfoldable mutual
  pub print : TypeExpr → List TokenKind → List TokenKind
  print (type_expr (named_kind name) span) rest = ident name ∷ rest
  print (type_expr (generic_kind name args) span) rest =
      ident name ∷ lt ∷ print_all args (gt ∷ rest)
  print (type_expr (fn_kind params ret) span) rest =
      kw_fn ∷ l_paren ∷ print_all params (r_paren ∷ arrow ∷ print ret rest)
  print (type_expr (tuple_kind elems) span) rest = l_paren ∷ print_all elems (r_paren ∷ rest)

  pub print_all : TypeExprs → List TokenKind → List TokenKind
  print_all no_exprs rest = rest
  print_all (exprs t ts) rest = print t (print_tail ts rest)

  pub print_tail : TypeExprs → List TokenKind → List TokenKind
  print_tail no_exprs rest = rest
  print_tail (exprs t ts) rest = comma ∷ print t (print_tail ts rest)

-- A generic type has an argument, and a tuple two elements.
unfoldable mutual
  pub Written : TypeExpr → Type 0
  Written (type_expr (named_kind name) span) = Unit
  Written (type_expr (generic_kind name no_exprs) span) = ⊥
  Written (type_expr (generic_kind name (exprs t ts)) span) = Written t × AllWritten ts
  Written (type_expr (fn_kind params ret) span) = AllWritten params × Written ret
  Written (type_expr (tuple_kind no_exprs) span) = ⊥
  Written (type_expr (tuple_kind (exprs t no_exprs)) span) = ⊥
  Written (type_expr (tuple_kind (exprs t (exprs u ts))) span) =
      Written t × (Written u × AllWritten ts)

  pub AllWritten : TypeExprs → Type 0
  AllWritten no_exprs = Unit
  AllWritten (exprs t ts) = Written t × AllWritten ts

abbrev pub nowhere : Span
nowhere = record { source = 0; start = 0; stop = 0 }

-- The type without its spans.
unfoldable mutual
  pub bare : TypeExpr → TypeExpr
  bare (type_expr (named_kind name) span) = type_expr (named_kind name) nowhere
  bare (type_expr (generic_kind name args) span) =
      type_expr (generic_kind name (bare_all args)) nowhere
  bare (type_expr (fn_kind params ret) span) =
      type_expr (fn_kind (bare_all params) (bare ret)) nowhere
  bare (type_expr (tuple_kind elems) span) = type_expr (tuple_kind (bare_all elems)) nowhere

  pub bare_all : TypeExprs → TypeExprs
  bare_all no_exprs = no_exprs
  bare_all (exprs t ts) = exprs (bare t) (bare_all ts)

-- The fuel for a type: the constructors in it, and the elements of its lists.
unfoldable mutual
  pub size : TypeExpr → ℕ
  size (type_expr (named_kind name) span) = 1
  size (type_expr (generic_kind name args) span) = suc (size_all args)
  size (type_expr (fn_kind params ret) span) = suc (size_all params + size ret)
  size (type_expr (tuple_kind elems) span) = suc (size_all elems)

  pub size_all : TypeExprs → ℕ
  size_all no_exprs = 1
  size_all (exprs t ts) = suc (size t + size_all ts)

-- A kind that goes on no type.
abbrev pub Follows : TokenKind → Type 0
Follows k = (is_newline k ≡ false) × (matches k dot ≡ false) × (matches k lt ≡ false)

-- A list with its kind at the front.
pub record Head (kinds : List TokenKind) (P : TokenKind → Type 0) : Type 0 where
  pub kind : TokenKind
  pub more : List TokenKind
  pub is : kinds ≡ kind ∷ more
  pub good : P kind

pub comma-Follows : Follows comma
unfolding matches discriminant is_newline
comma-Follows = (refl, refl, refl)

pub gt-Follows : Follows gt
unfolding matches discriminant is_newline
gt-Follows = (refl, refl, refl)

pub r_paren-Follows : Follows r_paren
unfolding matches discriminant is_newline
r_paren-Follows = (refl, refl, refl)

pub print_tail-Head :
    (ts : TypeExprs) (k : TokenKind) (more : List TokenKind)
    → Follows k
    → Head (print_tail ts (k ∷ more)) Follows
unfolding print_tail
print_tail-Head no_exprs k more h = record { kind = k; more = more; is = refl; good = h }
print_tail-Head (exprs t ts) k more h = record {
  kind = comma;
  more = _;
  is = refl;
  good = comma-Follows;
}

abbrev pub Begins : TokenKind → Type 0
Begins k = (is_newline k ≡ false) × (matches k r_paren ≡ false) × (matches k eof ≡ false)

pub print-Head : (t : TypeExpr) (rest : List TokenKind) → Head (print t rest) Begins
unfolding print matches discriminant is_newline
print-Head (type_expr (named_kind name) span) rest = record {
  kind = ident name;
  more = _;
  is = refl;
  good = (refl, refl, refl);
}
print-Head (type_expr (generic_kind name args) span) rest = record {
  kind = ident name;
  more = _;
  is = refl;
  good = (refl, refl, refl);
}
print-Head (type_expr (fn_kind params ret) span) rest = record {
  kind = kw_fn;
  more = _;
  is = refl;
  good = (refl, refl, refl);
}
print-Head (type_expr (tuple_kind elems) span) rest = record {
  kind = l_paren;
  more = _;
  is = refl;
  good = (refl, refl, refl);
}

pub size-positive : (t : TypeExpr) → 1 ≤ size t
unfolding size
size-positive (type_expr (named_kind name) span) = omega arith
size-positive (type_expr (generic_kind name args) span) = omega arith
size-positive (type_expr (fn_kind params ret) span) = omega arith
size-positive (type_expr (tuple_kind elems) span) = omega arith
