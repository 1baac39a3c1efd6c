-- ===== src/Types/Names/Collisions.antt =====
-- Types that share a name in generated code.
use text.Mathlib.TextLemmas.{append_assoc}
use tyra.Prelude.{◌≡◌, string_eq}
use tyra.Types.Ty.{Ty, Tys, nil, cons, generic}
use tyra.Types.Names.{monomorphized_name}

abbrev pub pair : Ty → Ty → Tys
pair a b = cons a (cons b nil)

abbrev pub triple : Ty → Ty → Ty → Tys
triple a b c = cons a (cons b (cons c nil))

-- The tuple types `((a, b), c, d)` and `((a, b, c), d)` have one name in generated code.
pub monomorphized_name-nested :
    (a b c d : Ty)
    → monomorphized_name (generic "Tuple" (triple (generic "Tuple" (pair a b)) c d))
      ≡ monomorphized_name (generic "Tuple" (pair (generic "Tuple" (triple a b c)) d))
unfolding monomorphized_name
monomorphized_name-nested a b c d = simp append_assoc
