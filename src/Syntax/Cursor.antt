-- ===== src/Syntax/Cursor.antt =====
-- compiler/crates/tyra-lexer/src/cursor.rs: the cursor of the lexer. The source is its list of
-- characters, a character its code point, and a position a byte offset of their UTF-8 encoding.
-- `none` is the panic of a slice outside of the text or off a character's boundary.
pub mod Boundary
pub mod Slices
use mathlib.Core.Option.{map}
use tyra.Prelude.{
  ℕ, zero, suc, ◌+◌, ◌-◌, nat_eq, Bool, true, false, Option, none, some, List, [], ◌∷◌,
  if◌then◌else◌, ◌==◌, ltb, leb, length,
}

-- `char::len_utf8`.
unfoldable pub len_utf8 : ℕ → ℕ
len_utf8 ch = if ltb ch 128 then 1 else if ltb ch 2048 then 2 else if ltb ch 65536 then 3 else 4

-- `str::len`.
unfoldable pub bytes : List ℕ → ℕ
unfolding len_utf8
bytes [] = 0
bytes (ch ∷ chs) = len_utf8 ch + bytes chs

-- `&source[pos..]`.
unfoldable pub slice_to_end : ℕ → List ℕ → Option (List ℕ)
unfolding len_utf8
slice_to_end zero chs = some chs
slice_to_end (suc n) [] = none
slice_to_end (suc n) (ch ∷ chs) =
    let rest = slice_to_end (suc n - len_utf8 ch) chs in
    if leb (len_utf8 ch) (suc n) then rest else none

pub record Cursor : Type 0 where
  pub source : List ℕ
  pub pos : ℕ

unfoldable pub new : List ℕ → Cursor
new source = record { source = source; pos = 0 }

-- `chars().next()`.
unfoldable pub next : Option (List ℕ) → Option (Option ℕ)
next none = none
next (some []) = some none
next (some (ch ∷ chs)) = some (some ch)

unfoldable pub peek : Cursor → Option (Option ℕ)
peek c = next (slice_to_end c.pos c.source)

unfoldable pub second : Option (List ℕ) → Option (Option ℕ)
second none = none
second (some []) = some none
second (some (ch ∷ chs)) = next (some chs)

unfoldable pub peek_next : Cursor → Option (Option ℕ)
peek_next c = second (slice_to_end c.pos c.source)

unfoldable pub advance_by : Cursor → Option (Option ℕ) → Option (Option ℕ × Cursor)
advance_by c none = none
advance_by c (some none) = some (none, c)
advance_by c (some (some ch)) =
    some (some ch, record { source = c.source; pos = c.pos + len_utf8 ch })

unfoldable pub advance : Cursor → Option (Option ℕ × Cursor)
advance c = advance_by c (peek c)

unfoldable pub moved : Option (Option ℕ × Cursor) → Option Cursor
moved none = none
moved (some (ch, c)) = some c

unfoldable pub eaten : Option Cursor → Option (Bool × Cursor)
eaten none = none
eaten (some c) = some (true, c)

unfoldable pub eat_at : Cursor → ℕ → Option (Option ℕ) → Option (Bool × Cursor)
eat_at c ch none = none
eat_at c ch (some none) = some (false, c)
eat_at c ch (some (some found)) = if found == ch then eaten (moved (advance c)) else some (false, c)

unfoldable pub eat : Cursor → ℕ → Option (Bool × Cursor)
eat c ch = eat_at c ch (peek c)

unfoldable pub then_loop : (Cursor → Option Cursor) → Option Cursor → Option Cursor
then_loop loop none = none
then_loop loop (some c) = loop c

-- A round of the loop of `eat_while`.
unfoldable pub while_at :
    (ℕ → Bool) → (Cursor → Option Cursor) → Cursor → Option (Option ℕ) → Option Cursor
while_at p loop c none = none
while_at p loop c (some none) = some c
while_at p loop c (some (some ch)) = if p ch then then_loop loop (moved (advance c)) else some c

-- The loop, on fuel.
unfoldable pub eat_while_loop : ℕ → (ℕ → Bool) → Cursor → Option Cursor
eat_while_loop zero p c = none
eat_while_loop (suc fuel) p c = while_at p (eat_while_loop fuel p) c (peek c)

unfoldable pub is_eof : Cursor → Bool
is_eof c = leb (bytes c.source) c.pos

-- `&text[..n]`.
unfoldable pub slice_to : ℕ → List ℕ → Option (List ℕ)
unfolding len_utf8
slice_to zero chs = some []
slice_to (suc n) [] = none
slice_to (suc n) (ch ∷ chs) =
    let rest = slice_to (suc n - len_utf8 ch) chs in
    if leb (len_utf8 ch) (suc n) then map (λ l. ch ∷ l) rest else none

unfoldable pub slice_ahead : ℕ → Option (List ℕ) → Option (List ℕ)
unfolding slice_to
slice_ahead n none = none
slice_ahead n (some chs) = slice_to n chs

unfoldable pub slice_from : Cursor → ℕ → Option (List ℕ)
unfolding slice_ahead slice_to_end
slice_from c start =
    if ltb c.pos start then none else slice_ahead (c.pos - start) (slice_to_end start c.source)

unfoldable pub with_slice : ℕ → Option Cursor → Option (List ℕ × Cursor)
unfolding slice_from
with_slice start none = none
with_slice start (some c) = map (λ l. (l, c)) (slice_from c start)

-- The loop makes at most one round more than there are characters.
unfoldable pub eat_while : (ℕ → Bool) → Cursor → Option (List ℕ × Cursor)
unfolding with_slice eat_while_loop
eat_while p c = with_slice c.pos (eat_while_loop (suc (length c.source)) p c)
