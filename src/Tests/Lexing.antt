-- ===== src/Tests/Lexing.antt =====
-- A run of the lexer.
use tyra.Prelude.{ℕ, ◌^◌, ◌<◌, ◌≡◌, refl, Option, none, some, List, [], ◌∷◌, ◌++◌, arith}
use tyra.Diagnostics.Report
use tyra.Diagnostics.Span
use tyra.Syntax.Cursor.{bytes}
use tyra.Syntax.Scan.{Lexer}
use tyra.Syntax.Token.{Token, eof, string}
use tyra.Syntax.Lexer.{tokenize}
use tyra.Syntax.Scan.Runs.{On}
use tyra.Syntax.Strings.{scan_string}
use tyra.Syntax.Strings.Escaped.{escaped, scan_string-escaped}
use tyra.Syntax.Text.{text}
use tyra.Syntax.Lexer.Stream.{Laid, tokenize-Laid}

-- `fn <= 12 "#{a}b"` behind a raw string and a newline.
abbrev program : List ℕ
program =
    114 ∷ 34 ∷ 97 ∷ 34 ∷ 10 ∷ 102 ∷ 110 ∷ 32 ∷ 60 ∷ 61 ∷ 32 ∷ 49 ∷ 50 ∷ 34 ∷ 35 ∷ 123 ∷ 97 ∷ 125
    ∷ 98 ∷ 34 ∷ []

program-small : bytes program < 2 ^ 32
unfolding bytes
program-small = omega arith

abbrev no_floats : List ℕ → Option ℕ
no_floats digits = none

tokenize-Laid_example :
    (tokens : List Token) × (lexer : Lexer) × (tokenize no_floats 0 program Report.new
      ≡ some (
        tokens ++ (record { kind = eof; span = Span.new 0 (bytes program) (bytes program) } ∷ []),
        lexer,
      ))
    × Laid 0 0 tokens (bytes program)
tokenize-Laid_example = tokenize-Laid no_floats 0 program Report.new program-small

-- Behind an equals sign: the text `#"` and a semicolon.
abbrev hash_quote : List ℕ
hash_quote = 35 ∷ 34 ∷ []

abbrev literal : List ℕ
literal = 34 ∷ 92 ∷ 117 ∷ 123 ∷ 50 ∷ 51 ∷ 125 ∷ 92 ∷ 34 ∷ 34 ∷ 59 ∷ []

abbrev before_literal : Lexer
before_literal = record { cursor = record { source = 61 ∷ literal; pos = 1 }; report = Report.new }

before_literal-On : On (61 ∷ []) (34 ∷ (escaped hash_quote ++ (34 ∷ 59 ∷ []))) before_literal
unfolding escaped bytes
before_literal-On = record { at = record { source = refl; pos = refl }; small = omega arith }

scan_string-escaped_example :
    (later : Lexer) × (scan_string 0 before_literal ≡ some (string (text hash_quote), later))
    × On ((61 ∷ []) ++ (34 ∷ (escaped hash_quote ++ (34 ∷ [])))) (59 ∷ []) later
    × (later.report ≡ before_literal.report)
scan_string-escaped_example =
    scan_string-escaped 0 hash_quote (61 ∷ []) (59 ∷ []) before_literal before_literal-On
