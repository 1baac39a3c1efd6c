-- ===== src/Syntax/Scan.antt =====
-- What the functions of compiler/crates/tyra-lexer/src/lexer.rs share: the cursor and the report that
-- they are handed as `&mut`, and what they do with them. `none` is a panic.
pub mod Runs
pub mod Steps
pub mod Behind
pub mod Ahead
use tyra.Prelude.{ℕ, suc, ◌%◌, ◌^◌, Bool, Option, none, some, List, [], ◌∷◌, String, length}
use tyra.Diagnostics.Span
use tyra.Diagnostics.Report.{Report, error, with_code, with_label, add}
use tyra.Syntax.Cursor
use tyra.Syntax.Cursor.{Cursor}

pub record Lexer : Type 0 where
  pub cursor : Cursor
  pub report : Report

abbrev pub Scan : Type 0 → Type 0
Scan A = Lexer → Option (A × Lexer)

module _ {A : Type 0} where
  unfoldable pub return : A → Scan A
  return a s = some (a, s)

  abbrev pub seen_by : Lexer → Option A → Option (A × Lexer)
  seen_by s none = none
  seen_by s (some a) = some (a, s)

  -- What the cursor shows.
  abbrev pub look : (Cursor → Option A) → Scan A
  look f s = seen_by s (f s.cursor)

  abbrev pub moved_by : Report → Option (A × Cursor) → Option (A × Lexer)
  moved_by r none = none
  moved_by r (some (a, c)) = some (a, record { cursor = c; report = r })

  -- A move of the cursor.
  abbrev pub move : (Cursor → Option (A × Cursor)) → Scan A
  move f s = moved_by s.report (f s.cursor)

module _ {A B : Type 0} where
  abbrev pub then_scan : (A → Scan B) → Option (A × Lexer) → Option (B × Lexer)
  then_scan k none = none
  then_scan k (some (a, s)) = k a s

  infixl 5 ◌>>=◌
  unfoldable pub ◌>>=◌ : Scan A → (A → Scan B) → Scan B
  ◌>>=◌ m k s = then_scan k (m s)

-- The cast in `Cursor::pos`; its debug assertion is a hypothesis of the theorems.
abbrev pub pos_u32 : Cursor → ℕ
pos_u32 c = c.pos % 2 ^ 32

unfoldable pub pos : Scan ℕ
pos = look (λ c. some (pos_u32 c))

unfoldable pub peek : Scan (Option ℕ)
peek = look Cursor.peek

unfoldable pub peek_next : Scan (Option ℕ)
peek_next = look Cursor.peek_next

unfoldable pub at_eof : Scan Bool
at_eof = look (λ c. some (Cursor.is_eof c))

unfoldable pub slice_from : ℕ → Scan (List ℕ)
slice_from start = look (λ c. Cursor.slice_from c start)

unfoldable pub advance : Scan (Option ℕ)
advance = move Cursor.advance

unfoldable pub eat : ℕ → Scan Bool
eat ch = move (λ c. Cursor.eat c ch)

unfoldable pub eat_while : (ℕ → Bool) → Scan (List ℕ)
eat_while p = move (Cursor.eat_while p)

-- `report.add` of an error with a code and one label.
unfoldable pub complain : ℕ → String → String → ℕ → ℕ → String → Scan Unit
complain id message code start stop label s = some (
  tt,
  record {
    cursor = s.cursor;
    report =
        add
          (with_label (with_code (error message) code)
            (record { span = Span.new id start stop; message = label }))
          s.report;
  },
)
