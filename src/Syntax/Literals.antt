-- ===== src/Syntax/Literals.antt =====
-- compiler/crates/tyra-lexer/src/lexer.rs: the functions that scan identifiers, numbers and strings.
-- Characters are written by their numbers.
pub mod Total
use tyra.Prelude.{
  ℕ, zero, suc, ◌+◌, ◌-◌, ◌*◌, ◌/◌, ◌%◌, ◌^◌, Bool, true, false, ◌&&◌, ◌||◌, Option, none, some,
  List, [], ◌∷◌, ◌++◌, String, length, ltb, leb, ◌==◌, nat_eq, if◌then◌else◌,
}
use tyra.Prelude.Dict.{Dict, get}
use tyra.Syntax.Cursor.{Cursor}
use tyra.Syntax.Text.{text, from_u32, format}
use tyra.Syntax.Token.{
  TokenKind, InterpPart, lit, expr, int, float, string, interp_string, raw_string, ident, error,
  keyword,
}
use tyra.Syntax.Scan.{
  Scan, return, look, ◌>>=◌, pos, peek, peek_next, slice_from, advance, eat, eat_while, complain,
}

-- A loop whose fuel is not enough.
abbrev pub stuck : {A : Type 0} → Scan A
stuck s = none

-- One round more than there are characters.
abbrev pub rounds : Scan ℕ
rounds = look (λ c. some (suc (length c.source)))

-- `char::is_ascii_digit`.
abbrev pub is_digit : ℕ → Bool
is_digit c = leb 48 c && leb c 57

abbrev pub is_letter : ℕ → Bool
is_letter c = (leb 97 c && leb c 122) || (leb 65 c && leb c 90)

-- `c.is_ascii_alphanumeric() || c == '_'`.
abbrev pub is_word : ℕ → Bool
is_word c = is_letter c || (is_digit c || (c == 95))

-- `char::is_ascii_hexdigit`.
abbrev pub is_hex : ℕ → Bool
is_hex c = is_digit c || ((leb 97 c && leb c 102) || (leb 65 c && leb c 70))

abbrev pub is_char : ℕ → Option ℕ → Bool
is_char c none = false
is_char c (some d) = d == c

abbrev pub passes : (ℕ → Bool) → Option ℕ → Bool
passes p none = false
passes p (some d) = p d

unfoldable pub word : String → Option TokenKind → TokenKind
word name none = ident name
word name (some kind) = kind

unfoldable pub scan_ident : Scan TokenKind
unfolding pos eat_while slice_from text word
scan_ident = pos >>= λ start. eat_while is_word >>= λ eaten.
    slice_from start >>= λ name. return (word (text name) (keyword (text name)))

-- The number that digits write.
unfoldable pub digits_value : ℕ → (ℕ → ℕ) → List ℕ → ℕ → ℕ
digits_value base digit [] acc = acc
digits_value base digit (c ∷ cs) acc = digits_value base digit cs (acc * base + digit c)

abbrev decimal_digit : ℕ → ℕ
decimal_digit c = c - 48

abbrev pub hex_digit : ℕ → ℕ
hex_digit c = if is_digit c then c - 48 else if leb 97 c then c - 87 else c - 55

-- `str::parse::<i64>` on digits.
unfoldable pub parse_i64 : List ℕ → Option ℕ
unfolding digits_value
parse_i64 digits =
    let value = digits_value 10 decimal_digit digits 0 in
    if ltb value (2 ^ 63) then some value else none

-- The digits of `{:04X}`, for numbers of at most six of them.
unfoldable pub hex_digits : ℕ → ℕ → List ℕ
hex_digits zero n = []
hex_digits (suc w) n =
    let d = n % 16 in hex_digits w (n / 16) ++ ((if ltb d 10 then d + 48 else d + 55) ∷ [])

unfoldable pub hex_width : ℕ → ℕ
hex_width n = if ltb n 65536 then 4 else if ltb n 1048576 then 5 else 6

-- `parse_f64` is `str::parse::<f64>`, with the bits of its result.
module _ (parse_f64 : List ℕ → Option ℕ) (id : ℕ) where
  unfoldable pub float_of : ℕ → List ℕ → Option ℕ → Scan TokenKind
  unfolding text complain pos
  float_of start digits (some v) = return (float v)
  float_of start digits none = pos >>= λ stop.
      complain id (format "float literal `" (text digits) "` is out of range") "E0005" start stop
        "value out of range for Float"
      >>= λ u. return error

  unfoldable pub int_of : ℕ → List ℕ → Option ℕ → Scan TokenKind
  unfolding text complain pos
  int_of start digits (some v) = return (int v)
  int_of start digits none = pos >>= λ stop.
      complain id (format "integer literal `" (text digits) "` overflows Int (i64)") "E0005" start
        stop "value too large for Int"
      >>= λ u. return error

  unfoldable pub fraction : ℕ → Scan TokenKind
  unfolding advance eat_while slice_from float_of
  fraction start = advance >>= λ dot. eat_while is_digit >>= λ more.
      slice_from start >>= λ digits. float_of start digits (parse_f64 digits)

  unfoldable pub whole : ℕ → Scan TokenKind
  unfolding slice_from int_of parse_i64
  whole start = slice_from start >>= λ digits. int_of start digits (parse_i64 digits)

  unfoldable pub scan_number : Scan TokenKind
  unfolding pos eat_while peek peek_next fraction whole
  scan_number = pos >>= λ start. eat_while is_digit >>= λ eaten. peek >>= λ ch.
      peek_next >>= λ next.
      if is_char 46 ch && passes is_digit next then fraction start else whole start
