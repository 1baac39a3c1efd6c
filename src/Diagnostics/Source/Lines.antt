-- ===== src/Diagnostics/Source/Lines.antt =====
-- Lines and columns, against a walk over the bytes that counts newlines.
use mathlib.Core.Option.{some-injective}
use tyra.Prelude.{
  ℕ, zero, suc, ◌+◌, ◌-◌, ◌%◌, ◌^◌, ◌≤◌, ◌<◌, ◌≡◌, refl, sym, ap, ◌∙◌, subst, true, false, some,
  List, [], ◌∷◌, String, if◌then◌else◌, ◌==◌, nat_eq, leb, length, get_elem?, take, arith, inl, inr,
  Bool-cases,
}
use tyra.Diagnostics.Source.{
  SourceFile, new, newline_ends, partition_point, in_line, line_col, in_file, offset_at,
}

-- The line and the column of the byte behind `bs`, where the first byte of `bs` has those given.
pub position : ℕ × ℕ → List ℕ → ℕ × ℕ
position p [] = p
position (l, c) (b ∷ bs) = position (if b == b'\n' then (l + 1, 1) else (l, c + 1)) bs

abbrev Fits : ℕ → List ℕ → Type 0
Fits i bs = i + length bs < 2 ^ 32

-- Every newline ends behind the offset where the search starts.
partition_point-before :
    (o i : ℕ) (bs : List ℕ) → o ≤ i → Fits i bs → partition_point o (newline_ends i bs) ≡ 0
unfolding newline_ends partition_point
partition_point-before o i [] l h = refl
partition_point-before o i (b ∷ bs) l h = elim (Bool-cases (b == b'\n')) [
  | inl y ↦
      let e : (i + 1) % 2 ^ 32 ≡ i + 1 = omega arith in
      let f : leb (i + 1) o ≡ false = ground arith in rw (y, newline_ends, e, f) refl
  | inr n ↦ rw (n, newline_ends) (partition_point-before o (i + 1) bs (omega arith) (omega arith))
]

newline_ends-newline :
    (i b : ℕ) (bs : List ℕ)
    → (b == b'\n') ≡ true
    → Fits i (b ∷ bs)
    → newline_ends i (b ∷ bs) ≡ (i + 1) ∷ newline_ends (i + 1) bs
unfolding newline_ends
newline_ends-newline i b bs y h = let c : (i + 1) % 2 ^ 32 ≡ i + 1 = omega arith in rw (y, c) refl

newline_ends-other :
    (i b : ℕ) (bs : List ℕ)
    → (b == b'\n') ≡ false
    → newline_ends i (b ∷ bs) ≡ newline_ends (i + 1) bs
unfolding newline_ends
newline_ends-other i b bs k = rw k refl

position-newline :
    (l c b : ℕ) (bs : List ℕ)
    → (b == b'\n') ≡ true
    → position (l, c) (b ∷ bs) ≡ position (l + 1, 1) bs
unfolding position
position-newline l c b bs y = rw y refl

position-other :
    (l c b : ℕ) (bs : List ℕ)
    → (b == b'\n') ≡ false
    → position (l, c) (b ∷ bs) ≡ position (l, c + 1) bs
unfolding position
position-other l c b bs k = rw k refl

-- What the search for offset `o` finds, in a line that starts at `d`, with the later `starts`.
record Found (d o : ℕ) (starts : List ℕ) (p : ℕ × ℕ) (l : ℕ) : Type 0 where
  pub start : ℕ
  pub at : get_elem? (d ∷ starts) (partition_point o starts) ≡ some start
  pub behind : start ≤ o
  pub line : p.0 ≡ l + partition_point o starts
  pub column : p.1 ≡ (o - start) + 1

Found-next :
    (d s o l : ℕ) (starts : List ℕ) (p : ℕ × ℕ)
    → leb s o ≡ true
    → Found s o starts p (l + 1)
    → Found d o (s ∷ starts) p l
unfolding partition_point
Found-next d s o l starts p f r = record {
  start = r.start;
  at = rw f r.at;
  behind = r.behind;
  line = rw f (omega (arith, r.line));
  column = r.column;
}

search :
    (d i n o l : ℕ) (bs : List ℕ)
    → d ≤ i
    → i + n ≡ o
    → n ≤ length bs
    → Fits i bs
    → Found d o (newline_ends i bs) (position (l, (i - d) + 1) (take n bs)) l
unfolding position
search d i zero o l bs q e m h =
    let z = partition_point-before o i bs (omega arith) h in
    record {
      start = d;
      at = rw z refl;
      behind = omega arith;
      line = rw z (omega arith);
      column = omega arith;
    }
search d i (suc n) o l [] q e m h = absurd (omega arith)
search d i (suc n) o l (b ∷ bs) q e m h = elim (Bool-cases (b == b'\n')) [
  | inl y ↦
      let f : leb (i + 1) o ≡ true = ground arith in
      let c : (i + 1) - (i + 1) + 1 ≡ 1 = omega arith in
      let r =
        search (i + 1) (i + 1) n o (l + 1) bs (omega arith) (omega arith) (omega arith)
          (omega arith) in
      rw (newline_ends-newline i b bs y h, position-newline l ((i - d) + 1) b (take n bs) y)
        (Found-next d (i + 1) o l (newline_ends (i + 1) bs) (position (l + 1, 1) (take n bs)) f (
          subst
            (λ c.
              Found (i + 1) o (newline_ends (i + 1) bs) (position (l + 1, c) (take n bs)) (l + 1))
            c r))
  | inr k ↦
      let r = search d (i + 1) n o l bs (omega arith) (omega arith) (omega arith) (omega arith) in
      let c : (i + 1) - d + 1 ≡ (i - d) + 1 + 1 = omega arith in
      rw (newline_ends-other i b bs k, position-other l ((i - d) + 1) b (take n bs) k)
        (subst (λ c. Found d o (newline_ends (i + 1) bs) (position (l, c) (take n bs)) l) c r)
]

found :
    (name : String) (content : List ℕ) (offset : ℕ)
    → offset ≤ length content
    → length content < 2 ^ 32
    → Found 0 offset (newline_ends 0 content) (position (1, 1) (take offset content)) 1
found name content offset h w =
    search 0 0 offset offset 1 content (omega arith) (omega arith) h (omega arith)

partition_point-bound : (o i : ℕ) (bs : List ℕ) → partition_point o (newline_ends i bs) ≤ length bs
unfolding partition_point newline_ends
partition_point-bound o i [] = omega arith
partition_point-bound o i (b ∷ bs) = ground (arith, partition_point-bound o (i + 1) bs)

line_col-at :
    (f : SourceFile) (offset start i : ℕ)
    → partition_point offset f.line_starts ≡ suc i
    → get_elem? f.line_starts i ≡ some start
    → i + 1 < 2 ^ 32
    → line_col f offset ≡ some (i + 1, (offset - start) + 1)
unfolding line_col in_line
line_col-at f offset start i p g h =
    let k : suc i - 1 ≡ i = omega arith in
    let m : (i + 1) % 2 ^ 32 ≡ i + 1 = omega arith in rw (p, k, g, m) refl

offset_at-some :
    (f : SourceFile) (line col start offset : ℕ)
    → get_elem? f.line_starts line ≡ some start
    → start + col ≡ offset
    → offset ≤ length f.content
    → offset < 2 ^ 32
    → offset_at f line col ≡ some offset
unfolding offset_at in_file
offset_at-some f line col start offset g e l h =
    let b : leb offset (length f.content) ≡ true = ground arith in
    let m : offset % 2 ^ 32 ≡ offset = omega arith in rw (g, e, b, m) refl

partition_point-zero :
    (o : ℕ) (starts : List ℕ) → partition_point o (0 ∷ starts) ≡ suc (partition_point o starts)
unfolding partition_point
partition_point-zero o starts = let b : leb 0 o ≡ true = ground arith in rw b refl

-- The answer of `line_col`, from what the search finds.
line_col-found :
    (name : String) (content : List ℕ) (offset : ℕ)
    → length content + 1 < 2 ^ 32
    → (r : Found 0 offset (newline_ends 0 content) (position (1, 1) (take offset content)) 1)
    → line_col (new name content) offset
      ≡ some (partition_point offset (newline_ends 0 content) + 1, (offset - r.start) + 1)
unfolding new
line_col-found name content offset w r =
    line_col-at (new name content) offset r.start (partition_point offset (newline_ends 0 content))
      (partition_point-zero offset (newline_ends 0 content)) r.at
      (let b = partition_point-bound offset 0 content in omega arith)

-- A byte offset inside a file of at most 2 ^ 32 - 2 bytes has the line and the column that a walk
-- over the bytes before it counts.
pub line_col-new :
    (name : String) (content : List ℕ) (offset : ℕ)
    → offset ≤ length content
    → length content + 1 < 2 ^ 32
    → line_col (new name content) offset ≡ some (position (1, 1) (take offset content))
line_col-new name content offset h w =
    let r = found name content offset h (omega arith) in
    let i = partition_point offset (newline_ends 0 content) in
    let l : i + 1 ≡ (position (1, 1) (take offset content)).0 = omega (arith, r.line) in
    line_col-found name content offset w r ∙ rw (l, r.column) refl

-- For a file of at most 2 ^ 32 - 2 bytes and an offset inside it, `offset_at` takes what `line_col`
-- gives, counted from zero, back to the offset.
pub offset_at-line_col :
    (name : String) (content : List ℕ) (offset line col : ℕ)
    → offset ≤ length content
    → length content + 1 < 2 ^ 32
    → line_col (new name content) offset ≡ some (line, col)
    → offset_at (new name content) (line - 1) (col - 1) ≡ some offset
unfolding new
offset_at-line_col name content offset line col h w e =
    let r = found name content offset h (omega arith) in
    let i = partition_point offset (newline_ends 0 content) in
    let p = line_col-found name content offset w r in
    let q : (i + 1, (offset - r.start) + 1) ≡ (line, col) = some-injective _ _ (sym p ∙ e) in
    let l : i ≡ line - 1 = omega (arith, ap (λ x. x.0) q) in
    let c : r.start + (col - 1) ≡ offset = omega (arith, ap (λ x. x.1) q, r.behind) in
    offset_at-some (new name content) (line - 1) (col - 1) r.start offset
      (subst (λ j. get_elem? (new name content).line_starts j ≡ some r.start) l r.at) c h
      (omega arith)
