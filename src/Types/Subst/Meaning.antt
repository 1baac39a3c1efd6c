-- ===== src/Types/Subst/Meaning.antt =====
-- What a substitution means: the assignments of types to variables that solve its equations.
use mathlib.Core.Path.{ap₂}
use mathlib.Core.Option.{some-injective}
use tyra.Prelude.{subst, ℕ, zero, suc, ◌≡◌, refl, ap, ◌∙◌, Option, none, some, nat_eq}
use tyra.Prelude.Dict.{get}
use tyra.Types.Ty.{Ty, Tys, nil, cons, generic, fn, var}
use tyra.Types.Subst.{Substitution, ◌>>=◌, walk, map_tys, apply_walked, apply}
use tyra.Types.Subst.Walks.{Walks, unbound, follow, stop, walk-Walks}

-- The type with every variable replaced by its assignment.
unfoldable mutual
  pub inst : (ℕ → Ty) → Ty → Ty
  inst θ (var v) = θ v
  inst θ (generic n ts) = generic n (inst_all θ ts)
  inst θ (fn ps r) = fn (inst_all θ ps) (inst θ r)
  inst θ t = t

  pub inst_all : (ℕ → Ty) → Tys → Tys
  inst_all θ nil = nil
  inst_all θ (cons t ts) = cons (inst θ t) (inst_all θ ts)

abbrev pub Solves : (ℕ → Ty) → Substitution → Type 0
Solves θ s = (v : ℕ) (t : Ty) → get v s ≡ some t → θ v ≡ inst θ t

pub Walks-inst :
    {s : Substitution} {t u : Ty} (θ : ℕ → Ty) → Solves θ s → Walks s t u → inst θ t ≡ inst θ u
unfolding inst
Walks-inst θ h (unbound p) = refl
Walks-inst θ h (follow {v} {t} p r) = h v t p ∙ Walks-inst θ h r
Walks-inst θ h (stop p) = refl

-- Walking keeps the meaning of a type.
pub walk-inst :
    (θ : ℕ → Ty) (f : ℕ) (s : Substitution) (t u : Ty)
    → Solves θ s
    → walk f s t ≡ some u
    → inst θ t ≡ inst θ u
walk-inst θ f s t u h e = Walks-inst θ h (walk-Walks f s t e)

-- Of a chain of fallible steps that succeeds.
pub >>=-eq-some {ℓ κ} :
    {A : Type ℓ} {B : Type κ} (o : Option A) (k : A → Option B) {b : B}
    → (o >>= k) ≡ some b
    → (a : A) × (o ≡ some a) × (k a ≡ some b)
>>=-eq-some none k e = cc
>>=-eq-some (some a) k e = (a, refl, e)

pub map_tys-inst :
    (θ : ℕ → Ty) (g : Ty → Option Ty)
    → ((t u : Ty) → g t ≡ some u → inst θ t ≡ inst θ u)
    → (ts us : Tys) → map_tys g ts ≡ some us
    → inst_all θ ts ≡ inst_all θ us
unfolding inst
map_tys-inst θ g h nil us e = ap (inst_all θ) (some-injective _ _ e)
map_tys-inst θ g h (cons t ts) us e =
    let (u, p, e') = >>=-eq-some (g t) _ e in
    let (us', q, e'') = >>=-eq-some (map_tys g ts) _ e' in
    subst (λ w. inst_all θ (cons t ts) ≡ inst_all θ w) (some-injective _ _ e'')
      (ap₂ cons (h t u p) (map_tys-inst θ g h ts us' q))

apply_walked-inst :
    (θ : ℕ → Ty) (g : Ty → Option Ty)
    → ((t u : Ty) → g t ≡ some u → inst θ t ≡ inst θ u)
    → (t u : Ty) → apply_walked g t ≡ some u
    → inst θ t ≡ inst θ u
unfolding inst
apply_walked-inst θ g h (generic n ts) u e =
    let (us, p, e') = >>=-eq-some (map_tys g ts) _ e in
    subst (λ w. inst θ (generic n ts) ≡ inst θ w) (some-injective _ _ e')
      (ap (generic n) (map_tys-inst θ g h ts us p))
apply_walked-inst θ g h (fn ps r) u e =
    let (us, p, e') = >>=-eq-some (map_tys g ps) _ e in
    let (r', q, e'') = >>=-eq-some (g r) _ e' in
    subst (λ w. inst θ (fn ps r) ≡ inst θ w) (some-injective _ _ e'')
      (ap₂ fn (map_tys-inst θ g h ps us p) (h r r' q))
apply_walked-inst θ g h t u e = ap (inst θ) (some-injective _ _ e)

-- `apply` keeps the meaning of a type, under every assignment that solves the substitution.
pub apply-inst :
    (θ : ℕ → Ty) (s : Substitution)
    → Solves θ s
    → (f : ℕ) (t u : Ty) → apply f s t ≡ some u
    → inst θ t ≡ inst θ u
unfolding apply
apply-inst θ s h zero t u e = cc
apply-inst θ s h (suc f) t u e =
    let (w, p, e') = >>=-eq-some (walk f s t) _ e in
    walk-inst θ f s t w h p ∙ apply_walked-inst θ (apply f s) (apply-inst θ s h f) w u e'
