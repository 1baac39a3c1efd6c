-- ===== src/Runtime/LinkedSet/History.antt =====
-- Linked sets behind a history of calls, against a list without repetition behind the same history.
use tyra.Prelude.{
  suc, ◌+◌, ◌≤◌, ◌^◌, arith, ◌≡◌, refl, sym, ap, ◌∙◌, subst, Bool, true, false, some, List, [], ◌∷◌,
  length, KeyEq, is_some, ◌==◌, if◌then◌else◌, inl, inr, Bool-cases,
}
use tyra.Prelude.Dict
use tyra.Prelude.Dict.{Dict}
use tyra.Runtime.Run.{Run, ok, ◌>>=◌, Ptr}
use tyra.Runtime.LinkedMap
use tyra.Runtime.LinkedMap.{LinkedMap}
use tyra.Runtime.LinkedMap.Entries.{pairs, erase, length-insert, length-erase}
use tyra.Runtime.LinkedMap.Lookup.{IsValid, Refines, new-Refines}
use tyra.Runtime.LinkedMap.Refines.{
  get-pairs, insert-Refines, remove-Refines, map_len-pairs, fold_pairs, for_each-pairs,
}
use tyra.Runtime.LinkedSet.{LinkedSet, wrap, new, len, for_each, insert, remove, contains}
use tyra.Runtime.Probe.{Hashing}

-- A call that gives a new set.
pub data Change {ℓ} (T : Type ℓ) : Type ℓ where
  put : T → Change T
  take_out : T → Change T

-- The elements handed to a callback, one behind the other.
unfoldable pub fold_elems {ℓ κ} : {T : Type ℓ} {C : Type κ} → (C → T → C) → List T → C → C
fold_elems call [] ctx = ctx
fold_elems call (x ∷ l) ctx = fold_elems call l (call ctx x)

module _ {ℓ} {T : Type ℓ} where
  unfoldable keys : Dict T (Unit {ℓ}) → List T
  keys [] = []
  keys ((k, v) ∷ d) = k ∷ keys d

  fold_pairs-keys {κ} :
      {C : Type κ} (call : C → T → C) (d : Dict T (Unit {ℓ})) (ctx : C)
      → fold_pairs (λ c k v. call c k) d ctx ≡ fold_elems call (keys d) ctx
  unfolding fold_pairs fold_elems keys
  fold_pairs-keys call [] ctx = refl
  fold_pairs-keys call ((k, v) ∷ d) ctx = fold_pairs-keys call d (call ctx k)

  length-keys : (d : Dict T (Unit {ℓ})) → length d ≡ length (keys d)
  unfolding keys
  length-keys [] = refl
  length-keys ((k, v) ∷ d) = ap suc (length-keys d)

module _ {ℓ} {T : Type ℓ} ⦃e : KeyEq T⦄ where
  unfoldable pub elem : T → List T → Bool
  elem k [] = false
  elem k (x ∷ l) = if x == k then true else elem k l

  -- An element that is not there goes to the end.
  unfoldable pub add : T → List T → List T
  add k [] = k ∷ []
  add k (x ∷ l) = let rest = add k l in if x == k then x ∷ l else x ∷ rest

  unfoldable pub without : T → List T → List T
  without k [] = []
  without k (x ∷ l) = let rest = without k l in if x == k then rest else x ∷ rest

  -- The list behind a history.
  unfoldable pub told : List (Change T) → List T → List T
  unfolding add without
  told [] l = l
  told (put k ∷ cs) l = told cs (add k l)
  told (take_out k ∷ cs) l = told cs (without k l)

  keys-insert : (k : T) (d : Dict T (Unit {ℓ})) → keys (Dict.insert k tt d) ≡ add k (keys d)
  unfolding keys Dict.insert add
  keys-insert k [] = refl
  keys-insert k ((j, v) ∷ d) = elim (Bool-cases (j == k)) [
    | inl y ↦ rw y (ap (λ x. x ∷ keys d) (sym ((e.beq_iff j k).0 y)))
    | inr n ↦ rw n (ap (λ l. j ∷ l) (keys-insert k d))
  ]

  keys-erase : (k : T) (d : Dict T (Unit {ℓ})) → keys (erase k d) ≡ without k (keys d)
  unfolding keys erase without
  keys-erase k [] = refl
  keys-erase k ((j, v) ∷ d) = elim (Bool-cases (j == k)) [
    | inl y ↦ rw y (keys-erase k d)
    | inr n ↦ rw n (ap (λ l. j ∷ l) (keys-erase k d))
  ]

  get-elem : (k : T) (d : Dict T (Unit {ℓ})) → is_some (Dict.get k d) ≡ elem k (keys d)
  unfolding keys elem Dict.get
  get-elem k [] = refl
  get-elem k ((j, v) ∷ d) = elim (Bool-cases (j == k)) [
    | inl y ↦ rw y refl
    | inr n ↦ rw n (get-elem k d)
  ]

  module _ ⦃h : Hashing T⦄ where
    -- The set behind a history, each call on the set that the one before gave.
    unfoldable pub perform : List (Change T) → Ptr (LinkedSet T) → Run (Ptr (LinkedSet T))
    perform [] s = ok s
    perform (put k ∷ cs) s = insert s k >>= perform cs
    perform (take_out k ∷ cs) s = remove s k >>= perform cs

    -- A set over a valid map whose keys are the list.
    record Holds (l : List T) (r : Run (Ptr (LinkedSet T))) : Type ℓ where
      pub map : LinkedMap T (Unit {ℓ})
      pub valid : IsValid map
      pub view : keys (pairs map.entries) ≡ l
      pub result : r ≡ ok (some (record { inner = some map }))

    wrap-Holds :
        (d : Dict T (Unit {ℓ})) (l : List T) (r : Run (Ptr (LinkedMap T (Unit {ℓ}))))
        → keys d ≡ l
        → Refines d r
        → Holds l (r >>= wrap)
    wrap-Holds d l r q s = record {
      map = s.map;
      valid = s.valid;
      view = ap keys s.view ∙ q;
      result = ap (λ t. t >>= wrap) s.result;
    }

    next :
        (cs : List (Change T)) (l : List T) (r : Run (Ptr (LinkedSet T)))
        → length cs + length l ≤ 2 ^ 62
        → Holds l r
        → ((m : LinkedMap T (Unit {ℓ}))
            → length cs + length (pairs m.entries) ≤ 2 ^ 62
            → IsValid m
            → Holds
                (told cs (keys (pairs m.entries)))
                (perform cs (some (record { inner = some m }))))
        → Holds (told cs l) (r >>= perform cs)
    next cs l r room s more =
        subst (λ t. Holds (told cs l) (t >>= perform cs)) (sym s.result)
          (subst (λ t. Holds (told cs t) (perform cs (some (record { inner = some s.map })))) s.view
            (more s.map (rw (length-keys (pairs s.map.entries), s.view) room) s.valid))

    perform-Holds :
        (cs : List (Change T)) (m : LinkedMap T (Unit {ℓ}))
        → length cs + length (pairs m.entries) ≤ 2 ^ 62
        → IsValid m
        → Holds (told cs (keys (pairs m.entries))) (perform cs (some (record { inner = some m })))
    unfolding told perform insert remove
    perform-Holds [] m room valid = record { map = m; valid = valid; view = refl; result = refl }
    perform-Holds (put k ∷ cs) m room valid =
        let d = pairs m.entries in
        let l = length-insert k tt d in
        let n = ap length (keys-insert k d) in
        next cs _ _ (omega (arith, room, l, n, length-keys (Dict.insert k tt d)))
          (wrap-Holds _ _ _ (keys-insert k d) (insert-Refines m valid k tt (omega arith)))
          (perform-Holds cs)
    perform-Holds (take_out k ∷ cs) m room valid =
        let d = pairs m.entries in
        let l = length-erase k d in
        let n = ap length (keys-erase k d) in
        next cs _ _ (omega (arith, room, l, n, length-keys (erase k d)))
          (wrap-Holds _ _ _ (keys-erase k (pairs m.entries)) (remove-Refines m valid k))
          (perform-Holds cs)

    perform_new-Holds :
        (cs : List (Change T)) → length cs ≤ 2 ^ 62 → Holds (told cs []) (new >>= perform cs)
    unfolding new keys
    perform_new-Holds cs room =
        next cs [] new (omega arith) (wrap-Holds [] [] (ok LinkedMap.new) refl new-Refines)
          (perform-Holds cs)

    -- Behind any history of at most 2 ^ 62 calls of insert and remove from new on, contains, len and
    -- for_each answer as the list without repetition that keeps the order of insertion, and no call
    -- reads outside of an array or searches without end.
    pub perform_set-reads {κ} :
        {C : Type κ} (call : C → T → C) (cs : List (Change T)) (key : T) (ctx : C)
        → length cs ≤ 2 ^ 62
        → ((new >>= perform cs >>= λ s. contains s key) ≡ ok (elem key (told cs [])))
          × ((new >>= perform cs >>= λ s. ok (len s)) ≡ ok (length (told cs [])))
          × ((new >>= perform cs >>= λ s. for_each call s ctx)
              ≡ ok (fold_elems call (told cs []) ctx))
    unfolding contains len for_each LinkedMap.contains_key
    perform_set-reads call cs key ctx room =
        let s = perform_new-Holds cs room in
        (
          ap (λ r. r >>= λ t. contains t key) s.result
              ∙ ap (λ r. r >>= λ v. ok (is_some v)) (get-pairs s.map s.valid key)
              ∙ ap ok (get-elem key (pairs s.map.entries))
              ∙ ap (λ l. ok (elem key l)) s.view,
          ap (λ r. r >>= λ t. ok (len t)) s.result
              ∙ ap ok (map_len-pairs s.map s.valid ∙ length-keys (pairs s.map.entries))
              ∙ ap (λ l. ok (length l)) s.view,
          ap (λ r. r >>= λ t. for_each call t ctx) s.result
              ∙ for_each-pairs (λ c k v. call c k) s.map ctx s.valid
              ∙ ap ok (fold_pairs-keys call (pairs s.map.entries) ctx)
              ∙ ap (λ l. ok (fold_elems call l ctx)) s.view,
        )
