-- ===== src/Tests/Diagnostics.antt =====
-- Two lines of text, two spans, and a report.
use tyra.Prelude.{
  ℕ, ◌≤◌, ◌-◌, ◌≡◌, ◌↔◌, refl, List, [], ◌∷◌, some, arith, take, ◌==◌, nat_eq, if◌then◌else◌,
}
use tyra.Diagnostics.Span.{Span, len, merge}
use tyra.Diagnostics.Span.Merge.{IsValid, Covers, merge_least}
use tyra.Diagnostics.Source.{new, newline_ends, partition_point, line_col, in_line, offset_at}
use tyra.Diagnostics.Source.Lines.{position, line_col-new, offset_at-line_col}
use tyra.Diagnostics.SourceMap
use tyra.Diagnostics.SourceMap.{add-files}
use tyra.Diagnostics.Report.{Diagnostic, Report, add, error, with_code, with_label, key_from, Key}
use tyra.Diagnostics.Report.Laws.{IsCounted, new-IsCounted, add-IsCounted, add-repeated}

abbrev early : Span
early = record { source = 0; start = 2; stop = 5 }

abbrev late : Span
late = record { source = 0; start = 4; stop = 9 }

merge_least_example :
    IsValid (merge early late)
    × Covers (merge early late) early
    × Covers (merge early late) late
    × ((c : Span) → Covers c early × Covers c late ↔ Covers c (merge early late))
    × (len early ≤ len (merge early late))
    × (len late ≤ len (merge early late))
    × (merge early late ≡ merge late early)
merge_least_example =
    merge_least early late (record { ordered = omega arith }) (record { ordered = omega arith })
      refl

-- `ab`, a newline, `c`.
abbrev text : List ℕ
text = 97 ∷ 98 ∷ 10 ∷ 99 ∷ []

line_col-new_example : line_col (new "a.ty" text) 3 ≡ some (position (1, 1) (take 3 text))
line_col-new_example = line_col-new "a.ty" text 3 (omega arith) (omega arith)

third : line_col (new "a.ty" text) 3 ≡ some (2, 1)
unfolding line_col new newline_ends partition_point in_line
third = refl

offset_at-line_col_example : offset_at (new "a.ty" text) (2 - 1) (1 - 1) ≡ some 3
offset_at-line_col_example = offset_at-line_col "a.ty" text 3 2 1 (omega arith) (omega arith) third

abbrev coded : Diagnostic
coded =
    with_label (with_code (error "unexpected token") "E0100")
      (record { span = early; message = "here" })

add-IsCounted_example : IsCounted (add coded tyra.Diagnostics.Report.new)
add-IsCounted_example = add-IsCounted coded tyra.Diagnostics.Report.new new-IsCounted

coded-key : key_from coded.labels coded.code ≡ some (early, "E0100")
unfolding key_from with_label with_code error
coded-key = refl

add-repeated_example :
    add coded (add coded tyra.Diagnostics.Report.new) ≡ add coded tyra.Diagnostics.Report.new
add-repeated_example =
    add-repeated (early, "E0100") coded coded tyra.Diagnostics.Report.new coded-key coded-key

abbrev no_files : SourceMap.SourceMap
no_files = record { files = [] }

add-files_example :
    (SourceMap.name (SourceMap.add no_files "b.ty" text).1 0 ≡ (
      if 0 == (SourceMap.add no_files "b.ty" text).0
      then some "b.ty"
      else SourceMap.name no_files 0))
    × (SourceMap.content (SourceMap.add no_files "b.ty" text).1 0 ≡ (
        if 0 == (SourceMap.add no_files "b.ty" text).0
        then some text
        else SourceMap.content no_files 0))
    × (SourceMap.line_col (SourceMap.add no_files "b.ty" text).1 0 3 ≡ (
        if 0 == (SourceMap.add no_files "b.ty" text).0
        then line_col (new "b.ty" text) 3
        else SourceMap.line_col no_files 0 3))
add-files_example = add-files no_files "b.ty" text 0 3 (omega arith)
