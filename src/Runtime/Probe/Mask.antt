-- ===== src/Runtime/Probe/Mask.antt =====
-- Masks with a power of two, and the way around a table.
use Prim.Native.Nat.{bit_and, digits, bit_and-bitwise}
use native.Mathlib.Nat.{
  mod-add-div, add-mul-mod_self_left, mod-eq_of_lt, mod_self, mod-lt, mod-one, mul_right_comm,
}
use tyra.Prelude.{
  ℕ, zero, suc, ◌+◌, ◌-◌, ◌*◌, ◌/◌, ◌%◌, ◌^◌, ◌≤◌, ◌<◌, ◌≡◌, refl, sym, ap, ◌∙◌, min, arith, ltb,
  if◌then◌else◌, Bool-cases, ◌⊎◌, inl, inr, ltb→lt, true,
}
use tyra.Runtime.Run.{ok, fault}
use tyra.Runtime.Probe.{Hashing, home, next_slot, next_pow2_loop, next_pow2, twice_usize}

pub data IsPow2 : ℕ → Type 0 where
  one : {n : ℕ} → n ≡ 1 → IsPow2 n
  twice : {n m : ℕ} → IsPow2 n → m ≡ n * 2 → IsPow2 m

pub IsPow2-pos : {n : ℕ} → IsPow2 n → 1 ≤ n
IsPow2-pos (one e) = omega arith
IsPow2-pos (twice p e) = let h = IsPow2-pos p in omega arith

-- `bit_and` by its digits: the definition that the native operation stands for, on fuel.
abbrev conjoin : ℕ → ℕ → ℕ → ℕ
conjoin fuel = digits (λ y. zero) min fuel

conjoin_enough : (n fuel x y : ℕ) → fuel ≤ n → x ≤ fuel → conjoin fuel x y ≡ bit_and x y
conjoin_enough n fuel zero y p q = elim fuel as (λ f. conjoin f 0 y ≡ bit_and 0 y) [
  | zero ↦ sym (bit_and-bitwise 0 y)
  | suc f ↦ sym (bit_and-bitwise 0 y)
]
conjoin_enough n zero (suc x) y p q = absurd (omega arith)
conjoin_enough zero (suc fuel) (suc x) y p q = absurd (omega arith)
conjoin_enough (suc n) (suc fuel) (suc x) y p q =
    let l = conjoin_enough n fuel (suc x / 2) (y / 2) (omega arith) (omega arith) in
    let r = conjoin_enough n x (suc x / 2) (y / 2) (omega arith) (omega arith) in
    omega (arith, l, r, bit_and-bitwise (suc x) y)

bit_and-digit : (x y : ℕ) → bit_and x y ≡ bit_and (x / 2) (y / 2) * 2 + min (x % 2) (y % 2)
bit_and-digit zero y = omega (arith, bit_and-bitwise 0 y, bit_and-bitwise 0 (y / 2))
bit_and-digit (suc x) y = omega (
  arith,
  bit_and-bitwise (suc x) y,
  conjoin_enough x x (suc x / 2) (y / 2) (omega arith) (omega arith),
)

conjoin-zero : (fuel x : ℕ) → conjoin fuel x 0 ≡ 0
conjoin-zero zero x = refl
conjoin-zero (suc fuel) zero = refl
conjoin-zero (suc fuel) (suc x) = omega (arith, conjoin-zero fuel (suc x / 2))

halves : (a n : ℕ) → 1 ≤ n → a % (n * 2) ≡ a / 2 % n * 2 + a % 2
halves a n h =
    let l = mod-lt (a / 2) {m = n} (omega arith) in
    let d = mod-add-div (a / 2) n in
    let x = a / 2 % n * 2 + a % 2 in
    let s : x + n * 2 * (a / 2 / n) ≡ a =
      omega (arith, ap (λ t. t * 2) d, mul_right_comm n 2 (a / 2 / n)) in
    ap (λ t. t % (n * 2)) (sym s)
    ∙ add-mul-mod_self_left x (n * 2) (a / 2 / n)
    ∙ mod-eq_of_lt {n = x} {m = n * 2} (omega arith)

-- A mask of ones takes the remainder.
pub bit_and-mask : {n : ℕ} (a : ℕ) → IsPow2 n → bit_and a (n - 1) ≡ a % n
bit_and-mask {n} a (one e) = rw e (bit_and-bitwise a 0 ∙ conjoin-zero a a ∙ sym (mod-one a))
bit_and-mask a (twice {n} p e) =
    let h = IsPow2-pos p in
    let k : (n * 2 - 1) / 2 ≡ n - 1 = omega arith in
    rw e (
      omega (
        arith,
        bit_and-digit a (n * 2 - 1),
        ap (bit_and (a / 2)) k,
        bit_and-mask (a / 2) p,
        halves a n h,
      ))

-- A probe starts inside the table.
pub home-bound {ℓ} :
    {K : Type ℓ} ⦃h : Hashing K⦄ {cap : ℕ} (key : K) → IsPow2 cap → home cap key < cap
home-bound ⦃h⦄ {cap} key p =
    let l = IsPow2-pos p in
    omega (arith, bit_and-mask (h.hash key) p, mod-lt (h.hash key) {m = cap} (omega arith))

-- The slot at a distance from a slot, around the end of the table.
unfoldable pub around : ℕ → ℕ → ℕ → ℕ
around cap start d = if ltb (start + d) cap then start + d else start + d - cap

pub around-bound : (cap start d : ℕ) → start < cap → d < cap → around cap start d < cap
unfolding around
around-bound cap start d p q = ground arith

pub around-zero : (cap start : ℕ) → start < cap → around cap start 0 ≡ start
unfolding around
around-zero cap start p = ground arith

-- From a table's every slot every slot is reached within one turn.
pub around-reaches :
    (cap start slot : ℕ)
    → start < cap
    → slot < cap
    → (d : ℕ) × (d < cap) × (around cap start d ≡ slot)
unfolding around
around-reaches cap start slot p q = elim (Bool-cases (ltb slot start)) [
  | inl y ↦ (slot + cap - start, ground arith, ground arith)
  | inr n ↦ (slot - start, ground arith, ground arith)
]

next_slot-mod :
    (cap slot : ℕ)
    → IsPow2 cap
    → slot < cap
    → next_slot cap slot ≡ (if ltb (slot + 1) cap then slot + 1 else 0)
next_slot-mod cap slot p l = elim (Bool-cases (ltb (slot + 1) cap)) [
  | inl y ↦
      rw y (
        bit_and-mask (slot + 1) p ∙ mod-eq_of_lt {n = slot + 1} {m = cap} (ltb→lt (slot + 1) cap y))
  | inr n ↦
      let e : slot + 1 ≡ cap = ground arith in
      rw n (bit_and-mask (slot + 1) p ∙ ap (λ t. t % cap) e ∙ mod_self cap)
]

pub next_slot-around :
    (cap start d : ℕ)
    → IsPow2 cap
    → start < cap
    → d < cap
    → next_slot cap (around cap start d)
      ≡ (if ltb (d + 1) cap then around cap start (d + 1) else start)
unfolding around
next_slot-around cap start d p l k =
    next_slot-mod cap (around cap start d) p (around-bound cap start d l k) ∙ ground arith

-- One turn comes back to the start, and fewer steps do not.
pub around_once : (cap start d : ℕ) → start < cap → 0 < d → d < cap → around cap start d ≡ start → ⊥
unfolding around
around_once cap start d p q r e = ground arith

-- A capacity that `next_pow2` gives.
pub record Capacity (n : ℕ) : Type 0 where
  pub cap : ℕ
  pub is : next_pow2 n ≡ ok cap
  pub power : IsPow2 cap
  pub enough : n ≤ cap
  pub least : 8 ≤ cap
  pub tight : (cap ≡ 8) ⊎ (cap < n * 2)

record Doubled (f p n : ℕ) : Type 0 where
  pub cap : ℕ
  pub is : next_pow2_loop f p n ≡ ok cap
  pub power : IsPow2 cap
  pub enough : n ≤ cap
  pub least : p ≤ cap
  pub tight : (cap ≡ p) ⊎ (cap < n * 2)

next_pow2_loop-Doubled : (f p n : ℕ) → IsPow2 p → n ≤ 2 ^ 63 → n < p + f → 1 ≤ f → Doubled f p n
unfolding next_pow2_loop
next_pow2_loop-Doubled zero p n h small l k = absurd (omega arith)
next_pow2_loop-Doubled (suc f) p n h small l k = elim (Bool-cases (ltb p n)) [
  | inl y ↦
      let o = IsPow2-pos h in
      let b = ltb→lt p n y in
      let r = next_pow2_loop-Doubled f (p * 2) n (twice h refl) small (omega arith) (omega arith) in
      let fits : twice_usize p ≡ p * 2 = omega arith in
      record {
        cap = r.cap;
        is = rw (y, fits) r.is;
        power = r.power;
        enough = r.enough;
        least = let x = r.least in omega arith;
        tight = elim r.tight [ inl q ↦ inr (omega arith) | inr q ↦ inr q ];
      }
  | inr x ↦ record {
    cap = p;
    is = rw x refl;
    power = h;
    enough = ground arith;
    least = omega arith;
    tight = inl refl;
  }
]

pub eight : IsPow2 8
eight =
    let p1 : IsPow2 1 = one refl in
    let p2 : IsPow2 2 = twice p1 refl in let p4 : IsPow2 4 = twice p2 refl in twice p4 refl

-- For an n up to 2 ^ 63 next_pow2 ends, with a power of two from 8 on that is n at least, and 8 or
-- less than twice n.
pub next_pow2-Capacity : (n : ℕ) → n ≤ 2 ^ 63 → Capacity n
unfolding next_pow2
next_pow2-Capacity n small =
    let r = next_pow2_loop-Doubled (suc n) 8 n eight small (omega arith) (omega arith) in
    record {
      cap = r.cap;
      is = r.is;
      power = r.power;
      enough = r.enough;
      least = r.least;
      tight = r.tight;
    }

IsPow2-step : {p q : ℕ} → IsPow2 p → IsPow2 q → p < q → p * 2 ≤ q
IsPow2-step (one e) (one g) l = absurd (omega arith)
IsPow2-step (one e) (twice q g) l = omega arith
IsPow2-step (twice p e) (one g) l = let h = IsPow2-pos p in absurd (omega arith)
IsPow2-step (twice p e) (twice q g) l = let h = IsPow2-step p q (omega arith) in omega arith

pow-IsPow2 : (n : ℕ) → IsPow2 (2 ^ n)
pow-IsPow2 zero = one refl
pow-IsPow2 (suc n) = twice (pow-IsPow2 n) (omega arith)

-- What the loop's p is once it may have wrapped: 0, or a power of two that is a `usize`.
abbrev Shifted : ℕ → Type 0
Shifted p = (p ≡ 0) ⊎ (IsPow2 p × (p ≤ 2 ^ 63))

twice_usize-Shifted : (p : ℕ) → Shifted p → Shifted (twice_usize p)
twice_usize-Shifted p (inl z) = inl (rw z refl)
twice_usize-Shifted p (inr (h, l)) = elim (Bool-cases (ltb p (2 ^ 63))) [
  | inl y ↦
      let b = ltb→lt p (2 ^ 63) y in
      let g = IsPow2-step h (pow-IsPow2 63) b in
      let e : twice_usize p ≡ p * 2 = omega arith in inr (rw e (twice h refl, g))
  | inr n ↦ let e : p ≡ 2 ^ 63 = ground arith in inl (rw e refl)
]

shifts : (f p n : ℕ) → 2 ^ 63 < n → Shifted p → next_pow2_loop f p n ≡ fault
unfolding next_pow2_loop
shifts zero p n large s = refl
shifts (suc f) p n large s =
    let b : ltb p n ≡ true = elim s [ inl z ↦ ground arith | inr (h, l) ↦ ground arith ] in
    rw b (shifts f (twice_usize p) n large (twice_usize-Shifted p s))

-- For an n above 2 ^ 63 the loop of next_pow2 from 8 on is not over behind any number of rounds.
pub next_pow2_loop-endless : (n : ℕ) → 2 ^ 63 < n → (f : ℕ) → next_pow2_loop f 8 n ≡ fault
next_pow2_loop-endless n large f = shifts f 8 n large (inr (eight, omega arith))
