-- ===== src/Diagnostics/Source.antt =====
-- compiler/crates/tyra-diagnostics/src/source.rs: source files and the conversion between byte
-- offsets and lines and columns. The content of a file is its list of bytes; offsets are `u32`.
pub mod Lines
use tyra.Prelude.{
  ℕ, zero, suc, ◌+◌, ◌-◌, ◌%◌, ◌^◌, ◌≤◌, Bool, true, false, Option, none, some, List, [], ◌∷◌, ◌++◌,
  String, if◌then◌else◌, ◌==◌, nat_eq, leb, length, get_elem?,
}

pub record SourceFile : Type 0 where
  pub name : String
  pub content : List ℕ
  pub line_starts : List ℕ

-- The offsets behind the newlines, from the byte at offset `i` on, cast to `u32`.
unfoldable pub newline_ends : ℕ → List ℕ → List ℕ
newline_ends i [] = []
newline_ends i (b ∷ bs) =
    let rest = newline_ends (i + 1) bs in if b == b'\n' then ((i + 1) % 2 ^ 32) ∷ rest else rest

unfoldable pub new : String → List ℕ → SourceFile
unfolding newline_ends
new name content = record {
  name = name;
  content = content;
  line_starts = 0 ∷ newline_ends 0 content;
}

-- `slice::partition_point` for `|&start| start <= offset`: the length of the prefix that passes.
unfoldable pub partition_point : ℕ → List ℕ → ℕ
partition_point offset [] = 0
partition_point offset (start ∷ starts) =
    let rest = partition_point offset starts in if leb start offset then suc rest else 0

-- The line and the column, from the index of the line and `self.line_starts[line_idx]`; `none` is the
-- panic of an index out of range.
unfoldable pub in_line : ℕ → ℕ → Option ℕ → Option (ℕ × ℕ)
in_line line_idx offset none = none
in_line line_idx offset (some line_start) =
    some ((line_idx + 1) % 2 ^ 32, (offset - line_start) + 1)

unfoldable pub line_col : SourceFile → ℕ → Option (ℕ × ℕ)
unfolding partition_point in_line
line_col f offset =
    let line_idx = partition_point offset f.line_starts - 1 in
    in_line line_idx offset (get_elem? f.line_starts line_idx)

unfoldable pub in_file : SourceFile → ℕ → Option ℕ → Option ℕ
in_file f col none = none
in_file f col (some start) =
    let offset = start + col in
    if leb offset (length f.content) then some (offset % 2 ^ 32) else none

unfoldable pub offset_at : SourceFile → ℕ → ℕ → Option ℕ
unfolding in_file
offset_at f line col = in_file f col (get_elem? f.line_starts line)
