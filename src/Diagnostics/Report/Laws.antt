-- ===== src/Diagnostics/Report/Laws.antt =====
-- Reports: the counters count, and a key is reported once.
use tyra.Prelude.{
  ℕ, ◌+◌, suc, ◌%◌, ◌^◌, String, ◌==◌, if◌then◌else◌, ◌≡◌, refl, true, Option, none, some, List, [],
  ◌∷◌, ◌++◌, arith, nat_eq, string_eq, beq_refl, Bool-cases, inl, inr,
}
use tyra.Diagnostics.Report.{
  error_level, warning_level, note_level, as_str, count_error, count_warning, Diagnostic, Report,
  Key, key_beq, was_seen, key_from, push, add_keyed, add, new,
}

-- How many of the diagnostics are rendered under the name of a level.
unfoldable pub tally : String → List Diagnostic → ℕ
tally level [] = 0
tally level (d ∷ ds) =
    let more = tally level ds in if as_str d.level == level then suc more else more

tally-append :
    (level : String) (ds : List Diagnostic) (d : Diagnostic)
    → tally level (ds ++ (d ∷ [])) ≡ tally level ds + tally level (d ∷ [])
unfolding tally
tally-append level [] d = omega arith
tally-append level (e ∷ ds) d = elim (Bool-cases (as_str e.level == level)) [
  | inl y ↦ rw y (omega (arith, tally-append level ds d))
  | inr n ↦ rw n (tally-append level ds d)
]

-- The counters hold, as `u32`, the numbers of diagnostics that are rendered as errors and as warnings.
pub record IsCounted (r : Report) : Type 0 where
  pub errors : r.error_count ≡ tally "error" r.diagnostics % 2 ^ 32
  pub warnings : r.warning_count ≡ tally "warning" r.diagnostics % 2 ^ 32

count_error-tally :
    (d : Diagnostic) (n c : ℕ)
    → n ≡ c % 2 ^ 32
    → count_error d.level n ≡ (c + tally "error" (d ∷ [])) % 2 ^ 32
unfolding count_error tally as_str
count_error-tally d n c h =
    elim d.level as (λ l. count_error l n ≡ (c + (if as_str l == "error" then 1 else 0)) % 2 ^ 32) [
      | error_level ↦ omega arith
      | warning_level ↦ omega arith
      | note_level ↦ omega arith
    ]

count_warning-tally :
    (d : Diagnostic) (n c : ℕ)
    → n ≡ c % 2 ^ 32
    → count_warning d.level n ≡ (c + tally "warning" (d ∷ [])) % 2 ^ 32
unfolding count_warning tally as_str
count_warning-tally d n c h =
    elim d.level
      as (λ l. count_warning l n ≡ (c + (if as_str l == "warning" then 1 else 0)) % 2 ^ 32) [
        | error_level ↦ omega arith
        | warning_level ↦ omega arith
        | note_level ↦ omega arith
      ]

push-IsCounted :
    (d : Diagnostic) (seen : List Key) (r : Report) → IsCounted r → IsCounted (push d seen r)
unfolding push
push-IsCounted d seen r c = record {
  errors =
      rw tally-append (count_error-tally d r.error_count (tally "error" r.diagnostics) c.errors);
  warnings =
      rw tally-append
        (count_warning-tally d r.warning_count (tally "warning" r.diagnostics) c.warnings);
}

add_keyed-IsCounted :
    (k : Option Key) (d : Diagnostic) (r : Report) → IsCounted r → IsCounted (add_keyed k d r)
unfolding add_keyed
add_keyed-IsCounted none d r c = push-IsCounted d r.seen r c
add_keyed-IsCounted (some k) d r c = elim (Bool-cases (was_seen k r.seen)) [
  | inl y ↦ rw y c
  | inr n ↦ rw n (push-IsCounted d (k ∷ r.seen) r c)
]

pub new-IsCounted : IsCounted new
unfolding new tally
new-IsCounted = record { errors = refl; warnings = refl }

-- Where the counters of a report hold, as `u32`, the numbers of its diagnostics that are rendered as
-- errors and as warnings, they do so behind adding a diagnostic.
pub add-IsCounted : (d : Diagnostic) (r : Report) → IsCounted r → IsCounted (add d r)
unfolding add
add-IsCounted d r c = add_keyed-IsCounted (key_from d.labels d.code) d r c

key_beq_refl : (k : Key) → key_beq k k ≡ true
unfolding key_beq
key_beq_refl (s, c) = rw (beq_refl s.source, beq_refl s.start, beq_refl s.stop, beq_refl c) refl

add_keyed-repeated :
    (k : Key) (d e : Diagnostic) (r : Report)
    → add_keyed (some k) e (add_keyed (some k) d r) ≡ add_keyed (some k) d r
unfolding add_keyed push was_seen
add_keyed-repeated k d e r = elim (Bool-cases (was_seen k r.seen)) [
  | inl y ↦ rw (y, y) refl
  | inr n ↦ rw (n, key_beq_refl k) refl
]

-- Of two diagnostics in a row with the same first span and the same code, the report drops the second.
pub add-repeated :
    (k : Key) (d e : Diagnostic) (r : Report)
    → key_from d.labels d.code ≡ some k
    → key_from e.labels e.code ≡ some k
    → add e (add d r) ≡ add d r
unfolding add
add-repeated k d e r h g = rw (h, g) (add_keyed-repeated k d e r)
