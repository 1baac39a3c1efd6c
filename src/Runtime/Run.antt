-- ===== src/Runtime/Run.antt =====
-- Runs of the runtime's unsafe code.
use tyra.Prelude.{Option, none, some}

-- `fault` is a read outside of an array, or a loop that its fuel does not carry to its end.
pub data Run {ℓ} (A : Type ℓ) : Type ℓ where
  ok : A → Run A
  fault : Run A

infixl 5 ◌>>=◌
abbrev pub ◌>>=◌ {ℓ κ} : {A : Type ℓ} {B : Type κ} → Run A → (A → Run B) → Run B
ok a >>= k = k a
fault >>= k = fault

-- The read through a pointer into an array.
abbrev pub deref {ℓ} : {A : Type ℓ} → Option A → Run A
deref none = fault
deref (some a) = ok a

-- A pointer that may be null.
abbrev pub Ptr {ℓ} : Type ℓ → Type ℓ
Ptr A = Option A

pattern abbrev null {ℓ} : {A : Type ℓ} → Option A
null = none
