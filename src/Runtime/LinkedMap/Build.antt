-- ===== src/Runtime/LinkedMap/Build.antt =====
-- `build_index` gives an index that leads to every entry.
use tyra.Prelude.{
  ℕ, zero, suc, ◌+◌, ◌≤◌, ◌<◌, ◌≡◌, refl, sym, ap, ◌∙◌, subst, some, List, [], ◌∷◌, inl, inr, ◌⊎◌,
  arith, Bool-cases, ltb, ltb→lt, get_elem?, get_elem?-set_self, get_elem?-set_ne, get_elem?-bound,
  set, length, length-set, nat_eq,
}
use tyra.Prelude.Dict.{Dict}
use tyra.Runtime.Run.{Run, ok, ◌>>=◌}
use tyra.Runtime.LinkedMap.{
  Entry, IndexSlot, vacant, taken, deleted, zeroed, store_loop, build_from, build_index,
}
use tyra.Runtime.LinkedMap.Slots.{Holds, IsVacant, Reach, written}
use tyra.Runtime.LinkedMap.Probes.{store_loop-Stored}
use tyra.Runtime.LinkedMap.Entries.{boxed}
use tyra.Runtime.LinkedMap.Valid.{IsIndexed}
use tyra.Runtime.Probe.{Hashing, home}
use tyra.Runtime.Probe.Mask.{IsPow2, around, around-zero, around-reaches, home-bound}

module _ {ℓ} {K : Type ℓ} where
  -- How many slots are vacant.
  unfoldable vacancies : List (IndexSlot K) → ℕ
  vacancies [] = 0
  vacancies (vacant ∷ l) = suc (vacancies l)
  vacancies (taken k i ∷ l) = vacancies l
  vacancies (deleted ∷ l) = vacancies l

  vacancies-zeroed : (l : List (IndexSlot K)) (n : ℕ) → l ≡ zeroed n → vacancies l ≡ n
  unfolding vacancies zeroed
  vacancies-zeroed l zero e = rw e refl
  vacancies-zeroed l (suc n) e = rw e (ap suc (vacancies-zeroed (zeroed n) n refl))

  length-zeroed : (l : List (IndexSlot K)) (n : ℕ) → l ≡ zeroed n → length l ≡ n
  unfolding zeroed
  length-zeroed l zero e = rw e refl
  length-zeroed l (suc n) e = rw e (ap suc (length-zeroed (zeroed n) n refl))

  zeroed-none : (n p : ℕ) (k : K) (i : ℕ) → Holds (zeroed n) p k i → ⊥
  unfolding zeroed
  zeroed-none zero p k i h = absurd cc
  zeroed-none (suc n) zero k i h = absurd cc
  zeroed-none (suc n) (suc p) k i h = zeroed-none n p k i h

  vacancy : (l : List (IndexSlot K)) → 0 < vacancies l → (p : ℕ) × IsVacant l p
  unfolding vacancies
  vacancy [] h = absurd (omega arith)
  vacancy (vacant ∷ l) h = (0, refl)
  vacancy (taken k i ∷ l) h = let (p, v) = vacancy l h in (suc p, v)
  vacancy (deleted ∷ l) h = let (p, v) = vacancy l h in (suc p, v)

  vacancies-set :
      (l : List (IndexSlot K)) (p : ℕ) (k : K) (i : ℕ)
      → IsVacant l p
      → suc (vacancies (set l p (taken k i))) ≡ vacancies l
  unfolding vacancies
  vacancies-set [] p k i v = absurd cc
  vacancies-set (vacant ∷ l) zero k i v = refl
  vacancies-set (taken j n ∷ l) zero k i v = absurd cc
  vacancies-set (deleted ∷ l) zero k i v = absurd cc
  vacancies-set (vacant ∷ l) (suc p) k i v = ap suc (vacancies-set l p k i v)
  vacancies-set (taken j n ∷ l) (suc p) k i v = vacancies-set l p k i v
  vacancies-set (deleted ∷ l) (suc p) k i v = vacancies-set l p k i v

module _ {ℓ} {K V : Type ℓ} ⦃h : Hashing K⦄ (es : List (Entry K V)) (cap : ℕ) where
  -- Storing the next entry at the first vacant slot of its probe.
  store-IsIndexed :
      (n : ℕ) (index : List (IndexSlot K)) (k : K) (v : V) (d : ℕ)
      → IsIndexed es n index cap
      → get_elem? es n ≡ some (some k, v)
      → d < cap
      → IsVacant index (around cap (home cap k) d)
      → ((e : ℕ) → e < d → IsVacant index (around cap (home cap k) e) → ⊥)
      → IsIndexed es (n + 1) (set index (around cap (home cap k) d) (taken k n)) cap
  store-IsIndexed n index k v d x at l was prior = record {
    sized = length-set index p (taken k n) ∙ x.sized;
    points = λ q j i g. elim (old q j i g) [
      | inl (a, b, c) ↦
          (omega arith, v, ap (get_elem? es) (sym c) ∙ at ∙ ap (λ t. some (some t, v)) b)
      | inr c ↦ let (b, w, u) = x.points q j i c in (omega arith, w, u)
    ];
    once = λ q r j m i g f. once q r j m i (old q j i g) (old r m i f);
    reach = λ i j w b g. elim (Bool-cases (ltb i n)) [
      | inl y ↦ kept i j (x.reach i j w (ltb→lt i n y) g)
      | inr z ↦
          let e : n ≡ i = ground arith in
          let t = sym at ∙ ap (get_elem? es) e ∙ g in
          let f : k ≡ j = cc in
          subst (λ t. Reach (set index p (taken k n)) cap (home cap t) t i) f
            (subst (λ t. Reach (set index p (taken k n)) cap (home cap k) k t) e (last))
    ];
  }
    where
      p : ℕ
      p = around cap (home cap k) d

      inside : p < length index
      inside = get_elem?-bound index p vacant was

      old :
          (q : ℕ) (j : K) (i : ℕ)
          → Holds (set index p (taken k n)) q j i
          → ((p ≡ q) × (k ≡ j) × (n ≡ i)) ⊎ Holds index q j i
      old q j i g = elim (written index p q (taken k n) (taken j i) g inside) [
        | inl (a, b) ↦ inl (a, cc, cc)
        | inr c ↦ inr c.1
      ]

      once :
          (q r : ℕ) (j m : K) (i : ℕ)
          → ((p ≡ q) × (k ≡ j) × (n ≡ i)) ⊎ Holds index q j i
          → ((p ≡ r) × (k ≡ m) × (n ≡ i)) ⊎ Holds index r m i
          → q ≡ r
      once q r j m i (inl a) (inl b) = sym a.0 ∙ b.0
      once q r j m i (inl (a, b, c)) (inr g) = let z = (x.points r m i g).0 in absurd (omega arith)
      once q r j m i (inr g) (inl (a, b, c)) = let z = (x.points q j i g).0 in absurd (omega arith)
      once q r j m i (inr g) (inr f) = x.once q r j m i g f

      same_vacant : (q : ℕ) → IsVacant (set index p (taken k n)) q → IsVacant index q
      same_vacant q g = elim (written index p q (taken k n) vacant g inside) [
        | inl (a, c) ↦ absurd cc
        | inr c ↦ c.1
      ]

      last : Reach (set index p (taken k n)) cap (home cap k) k n
      last = record {
        steps = d;
        bound = l;
        here = get_elem?-set_self index p (taken k n) inside;
        passes = λ e b g. prior e b (same_vacant _ g);
      }

      kept :
          (i : ℕ) (j : K)
          → Reach index cap (home cap j) j i
          → Reach (set index p (taken k n)) cap (home cap j) j i
      kept i j r =
          let away : p ≡ around cap (home cap j) r.steps → ⊥ =
            λ z. let w = sym was ∙ ap (get_elem? index) z ∙ r.here in absurd cc in
          record {
            steps = r.steps;
            bound = r.bound;
            here = get_elem?-set_ne index p _ (taken k n) away ∙ r.here;
            passes = λ e b g. r.passes e b (same_vacant _ g);
          }

  -- The outcome of storing entries from the `n`th on.
  pub record Indexed (n : ℕ) (r : Run (List (IndexSlot K))) : Type ℓ where
    pub index : List (IndexSlot K)
    pub indexed : IsIndexed es n index cap
    pub result : r ≡ ok index

  build_from-Indexed :
      (power : IsPow2 cap) (m : Dict K V) (n : ℕ) (index : List (IndexSlot K))
      → IsIndexed es n index cap
      → ((j : ℕ) → get_elem? es (n + j) ≡ get_elem? (boxed m) j)
      → length m ≤ vacancies index
      → Indexed (n + length m) (build_from (boxed m) cap n index)
  unfolding build_from boxed
  build_from-Indexed power [] n index x at room =
      let z : n ≡ n + 0 = omega arith in
      record { index = index; indexed = subst (λ t. IsIndexed es t index cap) z x; result = refl }
  build_from-Indexed power ((k, v) ∷ m) n index x at room =
      let start = home cap k in
      let inside = home-bound k power in
      let (p, vac) = vacancy index (omega arith) in
      let below = get_elem?-bound index p vacant vac in
      let (t, l, e) = around-reaches cap start p inside (omega (arith, x.sized)) in
      let s =
        store_loop-Stored index cap start power inside x.sized k n cap 0 t (omega arith)
          (omega arith) l (ap (get_elem? index) e ∙ vac) (λ d b. absurd (omega arith)) in
      let now : get_elem? es n ≡ some (some k, v) = ap (get_elem? es) (omega arith) ∙ at 0 in
      let y = store-IsIndexed n index k v s.steps x now s.bound s.was s.passes in
      let c = vacancies-set index (around cap start s.steps) k n s.was in
      let r =
        build_from-Indexed power m (n + 1) _ y (λ j. ap (get_elem? es) (omega arith) ∙ at (suc j))
          (omega arith) in
      let z : n + 1 + length m ≡ n + suc (length m) = omega arith in
      let first : store_loop cap index cap k n start
          ≡ ok (set index (around cap start s.steps) (taken k n)) =
        ap (store_loop cap index cap k n) (sym (around-zero cap start inside)) ∙ s.result in
      record {
        index = r.index;
        indexed = subst (λ t. IsIndexed es t r.index cap) z r.indexed;
        result = ap (λ t. t >>= build_from (boxed m) cap (n + 1)) first ∙ r.result;
      }

-- The table with no entry.
pub zeroed-IsIndexed {ℓ} :
    {K V : Type ℓ} ⦃h : Hashing K⦄ (es : List (Entry K V)) (cap : ℕ)
    → IsIndexed es 0 (zeroed cap) cap
zeroed-IsIndexed es cap = record {
  sized = length-zeroed (zeroed cap) cap refl;
  points = λ p k i g. absurd (zeroed-none cap p k i g);
  once = λ p q k j i g. absurd (zeroed-none cap p k i g);
  reach = λ i k v l. absurd (omega arith);
}

pub build_index-Indexed {ℓ} :
    {K V : Type ℓ} ⦃h : Hashing K⦄ (m : Dict K V) (cap : ℕ)
    → IsPow2 cap
    → length m ≤ cap
    → Indexed (boxed m) cap (length m) (build_index (boxed m) cap)
unfolding build_index
build_index-Indexed {K} m cap power room =
    let all : 0 + length m ≡ length m = omega arith in
    let free = vacancies-zeroed {K = K} (zeroed cap) cap refl in
    subst (λ t. Indexed (boxed m) cap t (build_index (boxed m) cap)) all
      (build_from-Indexed (boxed m) cap power m 0 (zeroed cap) (zeroed-IsIndexed (boxed m) cap)
        (λ j. ap (get_elem? (boxed m)) (omega arith)) (omega arith))
