-- ===== src/Runtime/LinkedMap/Lookup.antt =====
-- Valid linked maps, what `index_lookup` finds in one, and the maps that `make_map` builds.
use tyra.Prelude.{
  ℕ, ◌*◌, ◌≤◌, ◌^◌, ◌≡◌, refl, sym, ap, subst, false, Option, none, some, [], arith, get_elem?,
  get_elem?-bound, length, KeyEq, ◌==◌, nat_eq, if◌then◌else◌,
}
use tyra.Prelude.Dict.{Dict, get}
use tyra.Runtime.Run.{Run, ok, Ptr}
use tyra.Runtime.LinkedMap.{LinkedMap, zeroed, index_lookup, lookup_loop, make_map, new}
use tyra.Runtime.LinkedMap.Slots.{Missed-not-Reach}
use tyra.Runtime.LinkedMap.Probes.{hit, miss, lookup_loop-Looked}
use tyra.Runtime.LinkedMap.Entries.{pairs, boxed, pairs-boxed, length-boxed, get-pairs-none}
use tyra.Runtime.LinkedMap.Valid.{IsUnique, IsIndexed}
use tyra.Runtime.LinkedMap.Build.{zeroed-IsIndexed, build_index-Indexed}
use tyra.Runtime.Probe.{Hashing, home, twice_usize}
use tyra.Runtime.Probe.Mask.{IsPow2, IsPow2-pos, around-zero, home-bound, eight, next_pow2-Capacity}

module _ {ℓ} {K V : Type ℓ} ⦃e : KeyEq K⦄ ⦃h : Hashing K⦄ where
  -- The invariant of the maps that the operations return.
  pub record IsValid (m : LinkedMap K V) : Type ℓ where
    pub power : IsPow2 m.idx_cap
    pub indexed : IsIndexed m.entries (length m.entries) m.index m.idx_cap
    pub counted : m.entries_cap ≡ length m.entries
    pub lives : m.live ≡ length (pairs m.entries)
    pub unique : IsUnique (pairs m.entries)

  pub data Found (m : LinkedMap K V) (key : K) (r : Run (Option ℕ)) : Type ℓ where
    at :
        (i : ℕ) (v : V)
        → get_elem? m.entries i ≡ some (some key, v)
        → r ≡ ok (some i)
        → Found m key r
    nowhere : get key (pairs m.entries) ≡ none → r ≡ ok none → Found m key r

  pub index_lookup-Found :
      (m : LinkedMap K V) (key : K) → IsValid m → Found m key (index_lookup m.index m.idx_cap key)
  unfolding index_lookup
  index_lookup-Found m key y =
      let cap = m.idx_cap in
      let start = home cap key in
      let inside = home-bound key y.power in
      let looked =
        lookup_loop-Looked m.index cap start y.power inside y.indexed.sized key cap 0 (omega arith)
          (omega arith) (λ k b. absurd (omega arith)) in
      let some_slot : (cap == 0) ≡ false = (let p = IsPow2-pos y.power in ground arith) in
      rw some_slot (
        subst (λ s. Found m key (lookup_loop cap m.index cap start key s))
          (around-zero cap start inside)
          (elim looked [
            | hit i slot g r ↦ let (l, v, a) = y.indexed.points slot key i g in at i v a r
            | miss g r ↦
                nowhere
                  (get-pairs-none m.entries key (λ j w a.
                    Missed-not-Reach m.index cap start key j g
                      (y.indexed.reach j key w (get_elem?-bound m.entries j _ a) a)))
                  r
          ]))

  -- A valid map that stands for the dictionary.
  pub record Refines (d : Dict K V) (r : Run (Ptr (LinkedMap K V))) : Type ℓ where
    pub map : LinkedMap K V
    pub valid : IsValid map
    pub view : pairs map.entries ≡ d
    pub result : r ≡ ok (some map)

  pub make_map-Refines :
      (d : Dict K V) → length d ≤ 2 ^ 62 → IsUnique d → Refines d (make_map (length d) (boxed d))
  unfolding make_map
  make_map-Refines d small u =
      let n = if length d == 0 then 8 else twice_usize (length d) in
      let fits : twice_usize (length d) ≡ length d * 2 = omega arith in
      let c = next_pow2-Capacity n (ground arith) in
      let room : length d ≤ c.cap = (let g = c.enough in ground arith) in
      let b = build_index-Indexed d c.cap c.power room in
      let size : length d ≡ length (boxed d) = sym (length-boxed d) in
      let same : pairs (boxed d) ≡ d = pairs-boxed d in
      record {
        map = record {
          live = length d;
          entries_cap = length d;
          entries = boxed d;
          index = b.index;
          idx_cap = c.cap;
        };
        valid = record {
          power = c.power;
          indexed = subst (λ t. IsIndexed (boxed d) t b.index c.cap) size b.indexed;
          counted = size;
          lives = ap length (sym same);
          unique = subst IsUnique (sym same) u;
        };
        view = same;
        result = rw c.is (rw b.result refl);
      }

  pub new-Refines : Refines [] (ok new)
  unfolding new pairs IsUnique
  new-Refines = record {
    map = record { live = 0; entries_cap = 0; entries = []; index = zeroed 8; idx_cap = 8 };
    valid = record {
      power = eight;
      indexed = zeroed-IsIndexed [] 8;
      counted = refl;
      lives = refl;
      unique = tt;
    };
    view = refl;
    result = refl;
  }
