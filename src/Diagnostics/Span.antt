-- ===== src/Diagnostics/Span.antt =====
-- compiler/crates/tyra-diagnostics/src/span.rs: byte ranges of a source file.
pub mod Merge
use tyra.Prelude.{ℕ, ◌-◌, ◌≤◌, min, max, Bool, ◌==◌, nat_eq}

-- `SourceId` is its index in the source map. The debug assertions are hypotheses of the theorems.
pub record Span : Type 0 where
  pub source : ℕ
  pub start : ℕ
  pub stop : ℕ

unfoldable pub new : ℕ → ℕ → ℕ → Span
new source start stop = record { source = source; start = start; stop = stop }

unfoldable pub len : Span → ℕ
len s = s.stop - s.start

unfoldable pub is_empty : Span → Bool
is_empty s = s.start == s.stop

unfoldable pub merge : Span → Span → Span
merge self other = record {
  source = self.source;
  start = min self.start other.start;
  stop = max self.stop other.stop;
}
