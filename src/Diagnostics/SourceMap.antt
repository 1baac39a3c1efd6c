-- ===== src/Diagnostics/SourceMap.antt =====
-- compiler/crates/tyra-diagnostics/src/source.rs: the registry of source files. `none` is the panic of
-- an index out of range.
use tyra.Prelude.{
  ℕ, zero, suc, ◌%◌, ◌^◌, ◌<◌, ◌≡◌, refl, Option, none, some, List, [], ◌∷◌, ◌++◌, String, length,
  get_elem?, arith, ◌==◌, nat_eq, if◌then◌else◌, Bool-cases, inl, inr,
}
use tyra.Diagnostics.Source
use tyra.Diagnostics.Source.{SourceFile}

pub record SourceMap : Type 0 where
  pub files : List SourceFile

unfoldable pub new : SourceMap
new = record { files = [] }

-- The id of the new file, and the registry.
unfoldable pub add : SourceMap → String → List ℕ → ℕ × SourceMap
add m name content =
    (length m.files % 2 ^ 32, record { files = m.files ++ (Source.new name content ∷ []) })

unfoldable pub name_of : Option SourceFile → Option String
name_of none = none
name_of (some f) = some f.name

unfoldable pub name : SourceMap → ℕ → Option String
name m id = name_of (get_elem? m.files id)

unfoldable pub content_of : Option SourceFile → Option (List ℕ)
content_of none = none
content_of (some f) = some f.content

unfoldable pub content : SourceMap → ℕ → Option (List ℕ)
content m id = content_of (get_elem? m.files id)

unfoldable pub line_col_of : ℕ → Option SourceFile → Option (ℕ × ℕ)
line_col_of offset none = none
line_col_of offset (some f) = Source.line_col f offset

unfoldable pub line_col : SourceMap → ℕ → ℕ → Option (ℕ × ℕ)
line_col m id offset = line_col_of offset (get_elem? m.files id)

get_elem?-append_one {ℓ} :
    {A : Type ℓ} (xs : List A) (x : A) (i : ℕ)
    → get_elem? (xs ++ (x ∷ [])) i ≡ (if i == length xs then some x else get_elem? xs i)
get_elem?-append_one [] x zero = refl
get_elem?-append_one [] x (suc i) = ground arith
get_elem?-append_one (y ∷ xs) x zero = ground arith
get_elem?-append_one (y ∷ xs) x (suc i) = ground (arith, get_elem?-append_one xs x i)

-- In a registry of fewer than 2 ^ 32 files, empty or not: behind `add` the new id, and no other, leads
-- to the new file's name, content and lines, and every other id leads to what it led to, which is
-- nothing (an index out of range) for an id that no file has.
pub add-files :
    (m : SourceMap) (file : String) (text : List ℕ) (id offset : ℕ)
    → length m.files < 2 ^ 32
    → (name (add m file text).1 id ≡ (if id == (add m file text).0 then some file else name m id))
      × (content (add m file text).1 id
          ≡ (if id == (add m file text).0 then some text else content m id))
      × (line_col (add m file text).1 id offset ≡ (
          if id == (add m file text).0
          then Source.line_col (Source.new file text) offset
          else line_col m id offset))
unfolding add name name_of content content_of line_col line_col_of Source.new
add-files m file text id offset h =
    let k : length m.files % 2 ^ 32 ≡ length m.files = omega arith in
    let e = get_elem?-append_one m.files (Source.new file text) id in
    elim (Bool-cases (id == length m.files)) [
      | inl y ↦ rw (e, k, y) (refl, refl, refl)
      | inr n ↦ rw (e, k, n) (refl, refl, refl)
    ]
