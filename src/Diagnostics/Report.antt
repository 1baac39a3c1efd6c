-- ===== src/Diagnostics/Report.antt =====
-- compiler/crates/tyra-diagnostics/src/diagnostic.rs and report.rs: diagnostics, and the report that
-- collects them. The counters are `u32` and wrap, as they do where overflow is not checked.
pub mod Laws
use tyra.Prelude.{
  ℕ, ◌+◌, ◌%◌, ◌^◌, nat_eq, string_eq, Bool, true, false, ◌&&◌, Option, none, some, List, [], ◌∷◌,
  ◌++◌, String, if◌then◌else◌, ◌==◌, ltb,
}
use tyra.Diagnostics.Span.{Span}

pub data Level : Type 0 where
  error_level warning_level note_level : Level

pub record Label : Type 0 where
  pub span : Span
  pub message : String

pub record Diagnostic : Type 0 where
  pub level : Level
  pub code : Option String
  pub message : String
  pub labels : List Label
  pub notes : List String
  pub help : Option String

abbrev pub bare : Level → String → Diagnostic
bare level message = record {
  level = level;
  code = none;
  message = message;
  labels = [];
  notes = [];
  help = none;
}

unfoldable pub error : String → Diagnostic
error message = bare error_level message

unfoldable pub warning : String → Diagnostic
warning message = bare warning_level message

unfoldable pub note : String → Diagnostic
note message = bare note_level message

unfoldable pub with_code : Diagnostic → String → Diagnostic
with_code d code = record {
  level = d.level;
  code = some code;
  message = d.message;
  labels = d.labels;
  notes = d.notes;
  help = d.help;
}

unfoldable pub with_label : Diagnostic → Label → Diagnostic
with_label d label = record {
  level = d.level;
  code = d.code;
  message = d.message;
  labels = d.labels ++ (label ∷ []);
  notes = d.notes;
  help = d.help;
}

unfoldable pub with_note : Diagnostic → String → Diagnostic
with_note d message = record d { notes = d.notes ++ (message ∷ []) }

unfoldable pub with_help : Diagnostic → String → Diagnostic
with_help d message = record d { help = some message }

unfoldable pub as_str : Level → String
as_str error_level = "error"
as_str warning_level = "warning"
as_str note_level = "note"

-- A key of `seen`: the span of the first label, and the code.
abbrev pub Key : Type 0
Key = Span × String

unfoldable pub key_beq : Key → Key → Bool
key_beq (s, c) (t, d) =
    (s.source == t.source) && ((s.start == t.start) && ((s.stop == t.stop) && (c == d)))

unfoldable pub was_seen : Key → List Key → Bool
unfolding key_beq
was_seen k [] = false
was_seen k (j ∷ js) = if key_beq j k then true else was_seen k js

pub record Report : Type 0 where
  pub diagnostics : List Diagnostic
  pub error_count : ℕ
  pub warning_count : ℕ
  pub seen : List Key

unfoldable pub new : Report
new = record { diagnostics = []; error_count = 0; warning_count = 0; seen = [] }

unfoldable pub key_from : List Label → Option String → Option Key
key_from [] code = none
key_from (label ∷ labels) none = none
key_from (label ∷ labels) (some code) = some (label.span, code)

-- `+= 1` on a `u32`.
abbrev pub next_u32 : ℕ → ℕ
next_u32 n = (n + 1) % 2 ^ 32

-- What the match on the level makes of `error_count`.
unfoldable pub count_error : Level → ℕ → ℕ
count_error error_level n = next_u32 n
count_error level n = n

-- What it makes of `warning_count`.
unfoldable pub count_warning : Level → ℕ → ℕ
count_warning warning_level n = next_u32 n
count_warning level n = n

-- The part of `add` behind the test for a repetition.
unfoldable pub push : Diagnostic → List Key → Report → Report
unfolding count_error count_warning
push d seen r = record {
  diagnostics = r.diagnostics ++ (d ∷ []);
  error_count = count_error d.level r.error_count;
  warning_count = count_warning d.level r.warning_count;
  seen = seen;
}

unfoldable pub add_keyed : Option Key → Diagnostic → Report → Report
unfolding push was_seen
add_keyed none d r = push d r.seen r
add_keyed (some k) d r = if was_seen k r.seen then r else push d (k ∷ r.seen) r

unfoldable pub add : Diagnostic → Report → Report
unfolding add_keyed key_from
add d r = add_keyed (key_from d.labels d.code) d r

unfoldable pub has_errors : Report → Bool
has_errors r = ltb 0 r.error_count
