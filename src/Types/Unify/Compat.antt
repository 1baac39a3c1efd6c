-- ===== src/Types/Unify/Compat.antt =====
-- Compatible types: equal but for parts where one side is the error sentinel or the bottom type,
-- which the checker accepts against anything.
use tyra.Prelude.{String, ◌≡◌, refl, ap, subst}
use mathlib.Core.Path.{ap₂}
use tyra.Types.Ty.{Ty, Tys, nil, cons, never, generic, fn, error}

mutual
  pub data Compat : Ty → Ty → Type 0 where
    same : {a b : Ty} → a ≡ b → Compat a b
    left_error : {a b : Ty} → a ≡ error → Compat a b
    right_error : {a b : Ty} → b ≡ error → Compat a b
    left_never : {a b : Ty} → a ≡ never → Compat a b
    right_never : {a b : Ty} → b ≡ never → Compat a b
    generic_args : {n : String} {xs ys : Tys} → Compats xs ys → Compat (generic n xs) (generic n ys)
    fn_parts : {ps qs : Tys} {r q : Ty} → Compats ps qs → Compat r q → Compat (fn ps r) (fn qs q)

  pub data Compats : Tys → Tys → Type 0 where
    no_types : Compats nil nil
    more_types :
        {x y : Ty} {xs ys : Tys} → Compat x y → Compats xs ys → Compats (cons x xs) (cons y ys)

pub Compat-subst : {a a' b b' : Ty} → a ≡ a' → b ≡ b' → Compat a b → Compat a' b'
Compat-subst {a} {a'} {b} {b'} p q c = subst (λ x. Compat x b') p (subst (λ y. Compat a y) q c)

-- No part of the type is the error sentinel or the bottom type.
unfoldable mutual
  pub IsClean : Ty → Type 0
  IsClean error = ⊥
  IsClean never = ⊥
  IsClean (generic n ts) = AllClean ts
  IsClean (fn ps r) = AllClean ps × IsClean r
  IsClean t = Unit

  pub AllClean : Tys → Type 0
  AllClean nil = Unit
  AllClean (cons t ts) = IsClean t × AllClean ts

not-IsClean-error : {a : Ty} → a ≡ error → ¬ IsClean a
unfolding IsClean
not-IsClean-error p h = subst IsClean p h

not-IsClean-never : {a : Ty} → a ≡ never → ¬ IsClean a
unfolding IsClean
not-IsClean-never p h = subst IsClean p h

-- Without error sentinels and bottom types, compatible types are equal.
mutual
  unfolding IsClean

  Compat-eq : {a b : Ty} → Compat a b → IsClean a → IsClean b → a ≡ b
  Compat-eq (same p) h k = p
  Compat-eq (left_error p) h k = absurd (not-IsClean-error p h)
  Compat-eq (right_error p) h k = absurd (not-IsClean-error p k)
  Compat-eq (left_never p) h k = absurd (not-IsClean-never p h)
  Compat-eq (right_never p) h k = absurd (not-IsClean-never p k)
  Compat-eq (generic_args {n} c) h k = ap (generic n) (Compats-eq c h k)
  Compat-eq (fn_parts c d) h k = ap₂ fn (Compats-eq c h.0 k.0) (Compat-eq d h.1 k.1)

  Compats-eq : {xs ys : Tys} → Compats xs ys → AllClean xs → AllClean ys → xs ≡ ys
  Compats-eq no_types h k = refl
  Compats-eq (more_types c d) h k = ap₂ cons (Compat-eq c h.0 k.0) (Compats-eq d h.1 k.1)

pub eq_of_Compat : {a b : Ty} → Compat a b → IsClean a → IsClean b → a ≡ b
eq_of_Compat c h k = Compat-eq c h k
