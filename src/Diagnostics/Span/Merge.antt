-- ===== src/Diagnostics/Span/Merge.antt =====
-- The merge of two spans.
use tyra.Prelude.{sym, ◌∙◌, ◌≤◌, ◌≡◌, refl, ◌↔◌, arith}
use tyra.Diagnostics.Span.{Span, len, merge}

pub record IsValid (s : Span) : Type 0 where
  pub ordered : s.start ≤ s.stop

-- The outer span lies in the same file and covers the inner one.
pub record Covers (outer inner : Span) : Type 0 where
  pub source : inner.source ≡ outer.source
  pub from : outer.start ≤ inner.start
  pub to : inner.stop ≤ outer.stop

-- The merge of two valid spans of one file is valid, covers both, is covered by every span that
-- covers both, is as long as each at least, and does not depend on their order.
pub merge_least :
    (a b : Span)
    → IsValid a
    → IsValid b
    → a.source ≡ b.source
    → IsValid (merge a b)
      × Covers (merge a b) a
      × Covers (merge a b) b
      × ((c : Span) → Covers c a × Covers c b ↔ Covers c (merge a b))
      × (len a ≤ len (merge a b))
      × (len b ≤ len (merge a b))
      × (merge a b ≡ merge b a)
unfolding merge len
merge_least a b v w e = (
  record { ordered = omega arith },
  record { source = refl; from = omega arith; to = omega arith },
  record { source = sym e; from = omega arith; to = omega arith },
  λ c. (
    λ (p, q). record { source = p.source; from = omega arith; to = omega arith },
    λ h. (
      record { source = h.source; from = omega arith; to = omega arith },
      record { source = sym e ∙ h.source; from = omega arith; to = omega arith },
    ),
  ),
  omega arith,
  omega arith,
  ground arith,
)
