-- ===== src/Runtime/Order.antt =====
-- The three-way comparison callback that the compiler emits for a key type. The runtime takes it as
-- a function pointer: `fn(a, b) -> i32`, negative for less, zero for equal, positive for greater.
use tyra.Prelude.{subst, ℕ, zero, suc, ◌≡◌, refl, Bool, true, false, not, ◌&&◌, ltb, ◌↔◌, arith}

-- An `i32`; `negsuc n` is -(n + 1).
pub data ℤ : Type 0 where
  pos : ℕ → ℤ
  negsuc : ℕ → ℤ

abbrev pub is_neg : ℤ → Bool
is_neg (pos n) = false
is_neg (negsuc n) = true

abbrev pub is_pos : ℤ → Bool
is_pos (pos n) = ltb 0 n
is_pos (negsuc n) = false

zero_of : (c : ℤ) → is_neg c ≡ false → is_pos c ≡ false → c ≡ pos 0
zero_of (pos zero) h k = refl
zero_of (pos (suc n)) h k = ground arith
zero_of (negsuc n) h k = cc

-- What the runtime relies on: the callback describes a linear order, in which keys that compare as
-- zero are the same key.
pub record Comparison {ℓ} (K : Type ℓ) : Type ℓ where
  pub cmp : K → K → ℤ
  pub cmp_refl : (a : K) → cmp a a ≡ pos 0
  pub cmp_eq : (a b : K) → cmp a b ≡ pos 0 → a ≡ b
  pub cmp_flip : (a b : K) → is_pos (cmp a b) ≡ is_neg (cmp b a)
  pub cmp_trans :
      (a b c : K) → is_neg (cmp a b) ≡ true → is_neg (cmp b c) ≡ true → is_neg (cmp a c) ≡ true

module _ {ℓ} {K : Type ℓ} ⦃o : Comparison K⦄ where
  abbrev pub before : K → K → Bool
  before a b = is_neg (o.cmp a b)

  abbrev pub after : K → K → Bool
  after a b = is_pos (o.cmp a b)

  -- The keys compare as zero.
  abbrev pub same_key : K → K → Bool
  same_key a b = not (before a b) && not (after a b)

  pub after-before : (a b : K) → after a b ≡ before b a
  after-before a b = o.cmp_flip a b

  pub before_irrefl : (a : K) → before a a ≡ false
  before_irrefl a = rw (o.cmp_refl a)

  pub before_asymm : (a b : K) → before a b ≡ true → before b a ≡ false
  before_asymm a b h = ground (arith, o.cmp_trans a b a, before_irrefl a)

  pub eq_of_neither : (a b : K) → before a b ≡ false → after a b ≡ false → a ≡ b
  eq_of_neither a b h k = o.cmp_eq a b (zero_of (o.cmp a b) h k)

  pub same_key_iff : (a b : K) → (same_key a b ≡ true) ↔ (a ≡ b)
  same_key_iff a b = (
    λ h. eq_of_neither a b (ground arith) (ground arith),
    λ e. rw (e, before_irrefl b, after-before b b, before_irrefl b),
  )

  pub same_key-before : (a b : K) → before a b ≡ true → same_key a b ≡ false
  same_key-before a b h = rw h

  pub same_key-after : (a b : K) → before b a ≡ true → same_key a b ≡ false
  same_key-after a b h = rw (before_asymm b a h, after-before a b, h)

  -- Keys that are not the same, by the order between them.
  pub same_key_apart : (a b j : K) → before a b ≡ true → same_key a j ≡ true → same_key b j ≡ false
  same_key_apart a b j h e =
      subst (λ x. same_key b x ≡ false) ((same_key_iff a j).0 e) (same_key-after b a h)
