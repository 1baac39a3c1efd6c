-- ===== src/Prelude/Tests.antt =====
-- Boolean tests on the native numbers and on texts, the conditional, and case lemmas.
use Prim.Native.Nat.{ℕ, ◌<◌, compare, Ordering}
use Prim.Native.String.{String}
use mathlib.Core.Path.{◌≡◌, refl}
use mathlib.Core.Logic.{◌↔◌, ◌⊎◌, inl, inr}
use mathlib.Core.Bool.{Bool, true, false}
use mathlib.Core.Option.{Option, none, some}
use native.Mathlib.Omega.{arith}
use text.Mathlib.Text.{◌==◌ as text_beq}
use text.Mathlib.TextEquality.{eq_iff}

abbrev pub ltb : ℕ → ℕ → Bool
ltb a b = elim (compare a b) [ Ordering.lt ↦ true | _ ↦ false ]

abbrev pub leb : ℕ → ℕ → Bool
leb a b = elim (compare a b) [ Ordering.gt ↦ false | _ ↦ true ]

abbrev pub nat_beq : ℕ → ℕ → Bool
nat_beq a b = elim (compare a b) [ Ordering.eq ↦ true | _ ↦ false ]

infix 1 if◌then◌else◌
abbrev pub if◌then◌else◌ {ℓ} : {A : Type ℓ} → Bool → A → A → A
if true then x else y = x
if false then x else y = y

abbrev pub is_some {ℓ} : {A : Type ℓ} → Option A → Bool
is_some none = false
is_some (some a) = true

pub ltb→lt : (a b : ℕ) → ltb a b ≡ true → a < b
ltb→lt a b h = ground arith

pub nat_beq_iff : (a b : ℕ) → (nat_beq a b ≡ true) ↔ (a ≡ b)
nat_beq_iff a b = ground arith

pub Bool-cases : (b : Bool) → (b ≡ true) ⊎ (b ≡ false)
Bool-cases true = inl refl
Bool-cases false = inr refl

pub Option-cases {ℓ} : {A : Type ℓ} (o : Option A) → (o ≡ none) ⊎ ((a : A) × (o ≡ some a))
Option-cases none = inl refl
Option-cases (some a) = inr (a, refl)

-- `==` of a key type of the source, with its law.
pub record KeyEq {ℓ} (A : Type ℓ) : Type ℓ where
  pub beq : A → A → Bool
  pub beq_iff : (x y : A) → (beq x y ≡ true) ↔ (x ≡ y)

infix 50 ◌==◌
abbrev pub ◌==◌ {ℓ} : {A : Type ℓ} ⦃e : KeyEq A⦄ → A → A → Bool
◌==◌ ⦃e⦄ = e.beq

pub beq_refl {ℓ} : {A : Type ℓ} ⦃e : KeyEq A⦄ (a : A) → (a == a) ≡ true
beq_refl ⦃e⦄ a = (e.beq_iff a a).1 refl

pub beq_eq {ℓ} : {A : Type ℓ} ⦃e : KeyEq A⦄ (a b : A) → a ≡ b → (a == b) ≡ true
beq_eq ⦃e⦄ a b q = (e.beq_iff a b).1 q

pub beq_ne {ℓ} : {A : Type ℓ} ⦃e : KeyEq A⦄ (a b : A) → (a ≡ b → ⊥) → (a == b) ≡ false
beq_ne ⦃e⦄ a b n = elim (Bool-cases (a == b)) [
  | inl t ↦ absurd (n ((e.beq_iff a b).0 t))
  | inr f ↦ f
]

instance abbrev pub string_eq : KeyEq String
string_eq = record { beq = text_beq; beq_iff = eq_iff }

instance abbrev pub nat_eq : KeyEq ℕ
nat_eq = record { beq = nat_beq; beq_iff = nat_beq_iff }
