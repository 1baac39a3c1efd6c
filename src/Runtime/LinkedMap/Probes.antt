-- ===== src/Runtime/LinkedMap/Probes.antt =====
-- The three loops over the slots of an index: for a key, for a vacant slot, for an entry.
use mathlib.Core.Option.{some-injective}
use tyra.Prelude.{
  ℕ, zero, suc, ◌+◌, ◌≤◌, ◌<◌, ◌≡◌, refl, sym, ap, ◌∙◌, subst, Bool, true, false, Option, none,
  some, List, inl, inr, arith, ltb, ltb→lt, Bool-cases, get_elem?, get_elem?-some, set, length,
  KeyEq, ◌==◌, nat_eq, nat_beq_iff, if◌then◌else◌,
}
use tyra.Runtime.Run.{Run, ok}
use tyra.Runtime.LinkedMap.{
  IndexSlot, vacant, taken, deleted, look_at, lookup_loop, store_at, store_loop, forget_at,
  forget_loop,
}
use tyra.Runtime.LinkedMap.Slots.{below_next, Holds, IsVacant, Missed}
use tyra.Runtime.Probe.{next_slot}
use tyra.Runtime.Probe.Mask.{IsPow2, around, around-bound, next_slot-around, around_once}

module _ {ℓ} {K : Type ℓ} (index : List (IndexSlot K)) (cap start : ℕ) (power : IsPow2 cap)
    (inside : start < cap) (sized : length index ≡ cap) where
  slot_of : (d : ℕ) → d < cap → (s : IndexSlot K) × (get_elem? index (around cap start d) ≡ some s)
  slot_of d l =
      let b = around-bound cap start d inside l in
      get_elem?-some index (around cap start d) (omega (arith, sized, b))

  -- The step behind the slot at distance `d`: one further, or back at the start.
  step_on : (d : ℕ) → d + 1 < cap → next_slot cap (around cap start d) ≡ around cap start (d + 1)
  step_on d l =
      let y : ltb (d + 1) cap ≡ true = ground arith in
      next_slot-around cap start d power inside (omega arith) ∙ rw y refl

  step_back : (d : ℕ) → d + 1 ≡ cap → next_slot cap (around cap start d) ≡ start
  step_back d e =
      let y : ltb (d + 1) cap ≡ false = ground arith in
      next_slot-around cap start d power inside (omega arith) ∙ rw y refl

  module _ ⦃e : KeyEq K⦄ (key : K) where
    pub data Looked (r : Run (Option ℕ)) : Type ℓ where
      hit : (i slot : ℕ) → Holds index slot key i → r ≡ ok (some i) → Looked r
      miss : Missed index cap start key → r ≡ ok none → Looked r

    abbrev Unmet : ℕ → Type ℓ
    Unmet d = (i : ℕ) → Holds index (around cap start d) key i → ⊥

    stopped : (d : ℕ) → d + 1 ≡ cap → ((k : ℕ) → k < d + 1 → Unmet k) → Missed index cap start key
    stopped d q prior = record { steps = d + 1; bound = omega arith; nowhere = prior; stop = inl q }

    other_slot :
        (d : ℕ) (s : IndexSlot K)
        → get_elem? index (around cap start d) ≡ some s
        → ((i : ℕ) → s ≡ taken key i → ⊥)
        → Unmet d
    other_slot d s g n i h = n i (some-injective _ _ (sym g ∙ h))

    look_on :
        (d : ℕ) (full : Bool) (rest : Run (Option ℕ)) (r : Run (Option ℕ))
        → r ≡ (if full then ok none else rest)
        → ((k : ℕ) → k < d + 1 → Unmet k)
        → (full ≡ true → d + 1 ≡ cap)
        → (full ≡ false → Looked rest)
        → Looked r
    look_on d true rest r q prior back on = miss (stopped d (back refl) prior) q
    look_on d false rest r q prior back on = subst Looked (sym q) (on refl)

    look_at-Looked :
        (d : ℕ) (s : IndexSlot K) (full : Bool) (rest : Run (Option ℕ))
        → d < cap
        → get_elem? index (around cap start d) ≡ some s
        → ((k : ℕ) → k < d → Unmet k)
        → (full ≡ true → d + 1 ≡ cap)
        → (full ≡ false → ((k : ℕ) → k < d + 1 → Unmet k) → Looked rest)
        → Looked (look_at s key full rest)
    unfolding look_at
    look_at-Looked d vacant full rest l g prior back on =
        miss (record { steps = d; bound = omega arith; nowhere = prior; stop = inr g }) refl
    look_at-Looked d deleted full rest l g prior back on =
        let more = below_next Unmet d prior (other_slot d deleted g (λ i q. cc)) in
        look_on d full rest _ refl more back (λ f. on f more)
    look_at-Looked d (taken j i) full rest l g prior back on = elim (Bool-cases (j == key)) [
      | inl y ↦
          hit i (around cap start d) (g ∙ ap (λ k. some (taken k i)) ((e.beq_iff j key).0 y))
            (rw y refl)
      | inr n ↦
          let more = below_next Unmet d prior (
            other_slot d (taken j i) g
              (λ k q. let p : j ≡ key = cc in let t = (e.beq_iff j key).1 p in absurd cc)) in
          rw n (look_on d full rest _ refl more back (λ f. on f more))
    ]

    -- The search of `index_lookup` ends, and its answer is right.
    pub lookup_loop-Looked :
        (f d : ℕ)
        → d + f ≡ cap
        → d < cap
        → ((k : ℕ) → k < d → Unmet k)
        → Looked (lookup_loop f index cap start key (around cap start d))
    unfolding lookup_loop
    lookup_loop-Looked zero d q l prior = absurd (omega arith)
    lookup_loop-Looked (suc f) d q l prior =
        let (s, g) = slot_of d l in
        let next = next_slot cap (around cap start d) in
        rw g (
          look_at-Looked d s (next == start) (lookup_loop f index cap start key next) l g prior
            (λ t. turned d l ((nat_beq_iff next start).0 t))
            (λ t more. elim (Bool-cases (ltb (d + 1) cap)) [
              | inl y ↦
                  let b = ltb→lt (d + 1) cap y in
                  subst (λ x. Looked (lookup_loop f index cap start key x)) (sym (step_on d b))
                    (lookup_loop-Looked f (d + 1) (omega arith) b more)
              | inr n ↦
                  let back = (nat_beq_iff next start).1 (step_back d (ground arith)) in absurd cc
            ]))
      where
        turned : (d : ℕ) → d < cap → next_slot cap (around cap start d) ≡ start → d + 1 ≡ cap
        turned d l r = elim (Bool-cases (ltb (d + 1) cap)) [
          | inl y ↦
              let b = ltb→lt (d + 1) cap y in
              absurd (around_once cap start (d + 1) inside (omega arith) b (sym (step_on d b) ∙ r))
          | inr n ↦ ground arith
        ]

  -- The loop of `build_index` stores at the first vacant slot.
  module _ (key : K) (i : ℕ) where
    pub record Stored (r : Run (List (IndexSlot K))) : Type ℓ where
      pub steps : ℕ
      pub bound : steps < cap
      pub was : IsVacant index (around cap start steps)
      pub passes : (k : ℕ) → k < steps → IsVacant index (around cap start k) → ⊥
      pub result : r ≡ ok (set index (around cap start steps) (taken key i))

    abbrev NotVacant : ℕ → Type ℓ
    NotVacant d = IsVacant index (around cap start d) → ⊥

    later :
        (d t : ℕ) (s : IndexSlot K) (rest : Run (List (IndexSlot K)))
        → d ≤ t
        → IsVacant index (around cap start t)
        → get_elem? index (around cap start d) ≡ some s
        → ((k : ℕ) → k < d → NotVacant k)
        → (s ≡ vacant → ⊥)
        → (d + 1 ≤ t → ((k : ℕ) → k < d + 1 → NotVacant k) → Stored rest)
        → Stored rest
    later d t s rest l v g prior n on =
        let here : NotVacant d = λ h. n (some-injective _ _ (sym g ∙ h)) in
        elim (Bool-cases (ltb d t)) [
          | inl y ↦ let b = ltb→lt d t y in on (omega arith) (below_next NotVacant d prior here)
          | inr x ↦
              let q : d ≡ t = ground arith in
              absurd (here (ap (λ k. get_elem? index (around cap start k)) q ∙ v))
        ]

    store_at-Stored :
        (d t : ℕ) (s : IndexSlot K) (rest : Run (List (IndexSlot K)))
        → d ≤ t
        → t < cap
        → IsVacant index (around cap start t)
        → get_elem? index (around cap start d) ≡ some s
        → ((k : ℕ) → k < d → NotVacant k)
        → (d + 1 ≤ t → ((k : ℕ) → k < d + 1 → NotVacant k) → Stored rest)
        → Stored (store_at s index (around cap start d) key i rest)
    unfolding store_at
    store_at-Stored d t vacant rest l b v g prior on = record {
      steps = d;
      bound = omega arith;
      was = g;
      passes = prior;
      result = refl;
    }
    store_at-Stored d t (taken j n) rest l b v g prior on =
        later d t (taken j n) rest l v g prior (λ q. cc) on
    store_at-Stored d t deleted rest l b v g prior on =
        later d t deleted rest l v g prior (λ q. cc) on

    pub store_loop-Stored :
        (f d t : ℕ)
        → d + f ≡ cap
        → d ≤ t
        → t < cap
        → IsVacant index (around cap start t)
        → ((k : ℕ) → k < d → NotVacant k)
        → Stored (store_loop f index cap key i (around cap start d))
    unfolding store_loop
    store_loop-Stored zero d t q l b v prior = absurd (omega arith)
    store_loop-Stored (suc f) d t q l b v prior =
        let (s, g) = slot_of d (omega arith) in
        rw g (
          store_at-Stored d t s (store_loop f index cap key i (next_slot cap (around cap start d)))
            l b v g prior
            (λ m more.
              subst (λ x. Stored (store_loop f index cap key i x)) (sym (step_on d (omega arith)))
                (store_loop-Stored f (d + 1) t (omega arith) m b v more)))

  module _ (entry_idx : ℕ) where
    -- The loop of `remove` marks the first slot that refers to the entry.
    pub record Forgotten (r : Run (List (IndexSlot K))) : Type ℓ where
      pub steps : ℕ
      pub bound : steps < cap
      pub key : K
      pub was : Holds index (around cap start steps) key entry_idx
      pub result : r ≡ ok (set index (around cap start steps) deleted)

    forget_on :
        (d t : ℕ) (s : IndexSlot K) (k : K) (rest : Run (List (IndexSlot K)))
        → d ≤ t
        → Holds index (around cap start t) k entry_idx
        → get_elem? index (around cap start d) ≡ some s
        → (s ≡ taken k entry_idx → ⊥)
        → (d + 1 ≤ t → Forgotten rest)
        → Forgotten rest
    forget_on d t s k rest l v g n on = elim (Bool-cases (ltb d t)) [
      | inl y ↦ let b = ltb→lt d t y in on (omega arith)
      | inr x ↦
          let q : d ≡ t = ground arith in
          absurd
            (n (some-injective _ _ (sym g ∙ ap (λ j. get_elem? index (around cap start j)) q ∙ v)))
    ]

    forget_at-Forgotten :
        (d t : ℕ) (s : IndexSlot K) (k : K) (rest : Run (List (IndexSlot K)))
        → d ≤ t
        → t < cap
        → Holds index (around cap start t) k entry_idx
        → get_elem? index (around cap start d) ≡ some s
        → (d + 1 ≤ t → Forgotten rest)
        → Forgotten (forget_at s index (around cap start d) entry_idx rest)
    unfolding forget_at
    forget_at-Forgotten d t vacant k rest l b v g on =
        forget_on d t vacant k rest l v g (λ q. cc) on
    forget_at-Forgotten d t deleted k rest l b v g on =
        forget_on d t deleted k rest l v g (λ q. cc) on
    forget_at-Forgotten d t (taken j i) k rest l b v g on = elim (Bool-cases (i == entry_idx)) [
      | inl y ↦
          let q = (nat_beq_iff i entry_idx).0 y in
          record {
            steps = d;
            bound = omega arith;
            key = j;
            was = g ∙ ap (λ x. some (taken j x)) q;
            result = rw y refl;
          }
      | inr n ↦ rw n (
          forget_on d t (taken j i) k rest l v g
            (λ q. let p : i ≡ entry_idx = cc in let y = (nat_beq_iff i entry_idx).1 p in absurd cc)
            on)
    ]

    pub forget_loop-Forgotten :
        (f d t : ℕ) (k : K)
        → d + f ≡ cap
        → d ≤ t
        → t < cap
        → Holds index (around cap start t) k entry_idx
        → Forgotten (forget_loop f index cap entry_idx (around cap start d))
    unfolding forget_loop
    forget_loop-Forgotten zero d t k q l b v = absurd (omega arith)
    forget_loop-Forgotten (suc f) d t k q l b v =
        let (s, g) = slot_of d (omega arith) in
        rw g (
          forget_at-Forgotten d t s k
            (forget_loop f index cap entry_idx (next_slot cap (around cap start d))) l b v g
            (λ m.
              subst (λ x. Forgotten (forget_loop f index cap entry_idx x))
                (sym (step_on d (omega arith)))
                (forget_loop-Forgotten f (d + 1) t k (omega arith) m b v)))
