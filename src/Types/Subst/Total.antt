-- ===== src/Types/Subst/Total.antt =====
-- Under a substitution without cycles, enough fuel lets `apply` and the occurs check end.
use tyra.Prelude.{
  String, ℕ, zero, suc, ◌+◌, ◌≤◌, ◌≡◌, refl, sym, subst, Bool, true, false, Option, none, some,
  arith, Option-cases, inl, inr, nat_eq,
}
use tyra.Prelude.Dict.{get}
use tyra.Types.Ty.{Ty, Tys, nil, cons, int, generic, fn, var}
use tyra.Types.Subst.{
  Substitution, ◌>>=◌, walk, map_tys, apply_walked, apply, any_ty, occurs_walked, occurs, or_later,
}
use tyra.Types.Subst.Walks.{is_var}
use tyra.Types.Subst.Acyclic.{Mentions, MentionedIn, Grounded, grounded, IsAcyclic}

abbrev pub Ends {ℓ} : {B : Type ℓ} → Option B → Type ℓ
Ends {B} o = (b : B) × (o ≡ some b)

abbrev pub AllEnd {ℓ} : {B : Type ℓ} → (Ty → Option B) → Tys → Type ℓ
AllEnd g nil = Unit
AllEnd g (cons t ts) = Ends (g t) × AllEnd g ts

abbrev pub IsLeaf : Ty → Type 0
IsLeaf (generic n ts) = ⊥
IsLeaf (fn ps r) = ⊥
IsLeaf t = Unit

-- All fuels from some bound on.
abbrev pub Eventually {ℓ} : (ℕ → Type ℓ) → Type ℓ
Eventually P = (n : ℕ) × ((f : ℕ) → n ≤ f → P f)

-- A recursion that walks a type and goes on with its parts.
pub record Recursion {ℓ} (B : Type ℓ) (s : Substitution) : Type ℓ where
  pub run : ℕ → Ty → Option B
  pub go_on : (Ty → Option B) → Ty → Option B
  pub run_suc : (f : ℕ) (t : Ty) → run (suc f) t ≡ (walk f s t >>= go_on (run f))
  pub generic_ends :
      (g : Ty → Option B) (n : String) (ts : Tys) → AllEnd g ts → Ends (go_on g (generic n ts))
  pub fn_ends :
      (g : Ty → Option B) (ps : Tys) (r : Ty) → AllEnd g ps → Ends (g r) → Ends (go_on g (fn ps r))
  pub leaf_ends : (g : Ty → Option B) (t : Ty) → IsLeaf t → Ends (go_on g t)

-- A type that is no variable is walked at once.
pub walk_type : (f : ℕ) (s : Substitution) (t : Ty) → 1 ≤ f → is_var t ≡ false → walk f s t ≡ some t
unfolding walk
walk_type zero s t l n = absurd (omega arith)
walk_type (suc f) s (var v) l n = cc
walk_type (suc f) s t l n = refl

module _ {ℓ} {B : Type ℓ} (s : Substitution) (k : Ty → Option B) (f v : ℕ) where
  bound_step : get v s ≡ none → (walk (suc f) s (var v) >>= k) ≡ k (var v)
  unfolding walk
  bound_step p = rw (p, walk)

  follow_step : (t : Ty) → get v s ≡ some t → (walk (suc f) s (var v) >>= k) ≡ (walk f s t >>= k)
  unfolding walk
  follow_step t p = rw (p, walk)

module _ {ℓ} {B : Type ℓ} (s : Substitution) (rec : Recursion B s) where
  open rec use {run, go_on, run_suc, generic_ends, fn_ends, leaf_ends}

  -- The walk and the rest have fuels of their own, so that a step of the walk changes one of them.
  abbrev EndsAt : Ty → ℕ → Type ℓ
  EndsAt t n = (f h : ℕ) → n ≤ f → n ≤ h → Ends (walk f s t >>= go_on (run h))

  run-EndsAt : (t : Ty) (n : ℕ) → EndsAt t n → (f : ℕ) → suc n ≤ f → Ends (run f t)
  run-EndsAt t n e zero l = absurd (omega arith)
  run-EndsAt t n e (suc f) l = subst Ends (sym (run_suc f t)) (e f f (omega arith) (omega arith))

  type-Ends :
      (t : Ty) (f k : ℕ)
      → 1 ≤ f
      → is_var t ≡ false
      → Ends (go_on (run k) t)
      → Ends (walk f s t >>= go_on (run k))
  type-Ends t f k l n e = subst (λ o. Ends (o >>= go_on (run k))) (sym (walk_type f s t l n)) e

  mutual
    unfolding Mentions walk

    ty_ends :
        (t : Ty) → ((w : ℕ) → Mentions w t → (n : ℕ) × EndsAt (var w) n) → (n : ℕ) × EndsAt t n
    ty_ends (var v) h = h v refl
    ty_ends (generic m ts) h =
        let (n, e) = tys_end ts h in
        (
          suc n,
          λ f k l l'.
              type-Ends (generic m ts) f k (omega arith) refl
                (generic_ends (run k) m ts (e k (omega arith))),
        )
    ty_ends (fn ps r) h =
        let (n, e) = tys_end ps (λ w m. h w (inl m)) in
        let (n', e') = ty_ends r (λ w m. h w (inr m)) in
        (
          suc (n + n'),
          λ f k l l'.
              type-Ends (fn ps r) f k (omega arith) refl
                (fn_ends (run k) ps r (e k (omega arith)) (run-EndsAt r n' e' k (omega arith))),
        )
    ty_ends int h = (1, λ f k l l'. type-Ends int f k l refl (leaf_ends (run k) int tt))
    ty_ends t h = (1, λ f k l l'. type-Ends t f k l refl (leaf_ends (run k) t tt))

    tys_end :
        (ts : Tys)
        → ((w : ℕ) → MentionedIn w ts → (n : ℕ) × EndsAt (var w) n)
        → (n : ℕ) × ((k : ℕ) → n ≤ k → AllEnd (run k) ts)
    tys_end nil h = (0, λ k l. tt)
    tys_end (cons t ts) h =
        let (n, e) = ty_ends t (λ w m. h w (inl m)) in
        let (n', e') = tys_end ts (λ w m. h w (inr m)) in
        (suc (n + n'), λ k l. (run-EndsAt t n e k (omega arith), e' k (omega arith)))

  unbound_ends : (v : ℕ) → get v s ≡ none → EndsAt (var v) 1
  unfolding walk
  unbound_ends v p zero k l l' = absurd (omega arith)
  unbound_ends v p (suc f) k l l' =
      subst Ends (sym (bound_step s (go_on (run k)) f v p)) (leaf_ends (run k) (var v) tt)

  bound_ends : (v : ℕ) (t : Ty) (n : ℕ) → get v s ≡ some t → EndsAt t n → EndsAt (var v) (suc n)
  bound_ends v t n p e zero k l l' = absurd (omega arith)
  bound_ends v t n p e (suc f) k l l' =
      subst Ends (sym (follow_step s (go_on (run k)) f v t p)) (e f k (omega arith) (omega arith))

  var_ends : {v : ℕ} → Grounded s v → (n : ℕ) × EndsAt (var v) n
  var_ends {v} (grounded h) = elim (Option-cases (get v s)) [
    | inl p ↦ (1, unbound_ends v p)
    | inr (t, p) ↦
        let (n, e) = ty_ends t (λ w m. var_ends (h t w p m)) in (suc n, bound_ends v t n p e)
  ]

  pub run-Ends : IsAcyclic s → (t : Ty) → Eventually (λ f. Ends (run f t))
  run-Ends ac t =
      let (n, e) = ty_ends t (λ w m. var_ends (ac w)) in (suc n, λ f l. run-EndsAt t n e f l)

map_tys-Ends : (g : Ty → Option Ty) (ts : Tys) → AllEnd g ts → Ends (map_tys g ts)
map_tys-Ends g nil h = (nil, refl)
map_tys-Ends g (cons t ts) ((u, p), h) = let (us, q) = map_tys-Ends g ts h in (cons u us, rw (p, q))

abbrev apply_recursion : (s : Substitution) → Recursion Ty s
unfolding apply
apply_recursion s = record {
  run = λ f. apply f s;
  go_on = apply_walked;
  run_suc = λ f t. refl;
  generic_ends = λ g n ts h. let (us, p) = map_tys-Ends g ts h in (generic n us, rw p);
  fn_ends = λ g ps r h k. let (us, p) = map_tys-Ends g ps h in (fn us k.0, rw (p, k.1));
  leaf_ends = leaf;
}
  where
    leaf : (g : Ty → Option Ty) (t : Ty) → IsLeaf t → Ends (apply_walked g t)
    leaf g (generic n ts) l = absurd l
    leaf g (fn ps r) l = absurd l
    leaf g t l = (t, refl)

-- From some fuel on, `apply` ends.
pub apply-Ends : (s : Substitution) (t : Ty) → IsAcyclic s → Eventually (λ f. Ends (apply f s t))
unfolding apply_recursion
apply-Ends s t ac = run-Ends s (apply_recursion s) ac t

or_later-Ends : (o r : Option Bool) → Ends o → Ends r → Ends (or_later o r)
or_later-Ends none r h k = cc h.1
or_later-Ends (some true) r h k = (true, refl)
or_later-Ends (some false) r h k = k

any_ty-Ends : (g : Ty → Option Bool) (ts : Tys) → AllEnd g ts → Ends (any_ty g ts)
any_ty-Ends g nil h = (false, refl)
any_ty-Ends g (cons t ts) h = or_later-Ends (g t) (any_ty g ts) h.0 (any_ty-Ends g ts h.1)

abbrev occurs_recursion : (id : ℕ) (s : Substitution) → Recursion Bool s
unfolding occurs
occurs_recursion id s = record {
  run = λ f. occurs f id s;
  go_on = λ g. occurs_walked g id;
  run_suc = λ f t. refl;
  generic_ends = λ g n ts h. any_ty-Ends g ts h;
  fn_ends = λ g ps r h k. or_later-Ends (any_ty g ps) (g r) (any_ty-Ends g ps h) k;
  leaf_ends = leaf;
}
  where
    leaf : (g : Ty → Option Bool) (t : Ty) → IsLeaf t → Ends (occurs_walked g id t)
    leaf g (generic n ts) l = absurd l
    leaf g (fn ps r) l = absurd l
    leaf g (var v) l = (_, refl)
    leaf g t l = (false, refl)

-- From some fuel on, the occurs check ends.
pub occurs-Ends :
    (id : ℕ) (s : Substitution) (t : Ty) → IsAcyclic s → Eventually (λ f. Ends (occurs f id s t))
unfolding occurs_recursion
occurs-Ends id s t ac = run-Ends s (occurs_recursion id s) ac t
