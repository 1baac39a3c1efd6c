-- ===== src/Runtime/Probe.antt =====
-- The hash callback, the capacities and the slots of the open-addressing tables of the runtime
-- (runtime/src/stdlib_linked_map.rs). A capacity is a power of two, and a mask takes the remainder.
pub mod Mask
use Prim.Native.Nat.{bit_and}
use tyra.Prelude.{ℕ, zero, suc, ◌+◌, ◌-◌, ◌*◌, ◌%◌, ◌^◌, ltb, if◌then◌else◌}
use tyra.Runtime.Run.{Run, ok, fault}

-- The hash callback that the compiler emits for a key type: `fn(key) -> i64`, read as a `u64`.
pub record Hashing {ℓ} (K : Type ℓ) : Type ℓ where
  pub hash : K → ℕ

-- The slot where a probe for a key starts.
abbrev pub home {ℓ} : {K : Type ℓ} ⦃h : Hashing K⦄ → ℕ → K → ℕ
home ⦃h⦄ cap key = bit_and (h.hash key) (cap - 1)

-- The slot behind a slot, around the end.
abbrev pub next_slot : ℕ → ℕ → ℕ
next_slot cap slot = bit_and (slot + 1) (cap - 1)

-- A `usize` has 64 bits, and a shift drops the bit that leaves it.
abbrev pub twice_usize : ℕ → ℕ
twice_usize n = n * 2 % 2 ^ 64

-- The loop of `next_pow2`, on fuel.
unfoldable pub next_pow2_loop : ℕ → ℕ → ℕ → Run ℕ
next_pow2_loop zero p n = fault
next_pow2_loop (suc f) p n =
    let rest = next_pow2_loop f (twice_usize p) n in if ltb p n then rest else ok p

unfoldable pub next_pow2 : ℕ → Run ℕ
unfolding next_pow2_loop
next_pow2 n = next_pow2_loop (suc n) 8 n
