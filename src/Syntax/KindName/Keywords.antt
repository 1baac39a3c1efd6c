-- ===== src/Syntax/KindName/Keywords.antt =====
-- The tables of keywords against each other.
use Prim.Native.String.{◌++◌}
use text.Mathlib.TextEquality.{eq_iff}
use tyra.Prelude.{◌==◌, ◌≡◌, refl, subst, some, String, string_eq}
use tyra.Prelude.Dict.{get, all_entries, get-all_entries}
use tyra.Syntax.Token.{TokenKind, keywords, keyword}
use tyra.Syntax.KindName.{kind_name, keyword_as_ident}
use mathlib.Core.Option.{some-injective}

-- A keyword's token is named in messages by the keyword in backquotes.
pub kind_name-keyword :
    (s : String) (kind : TokenKind) → keyword s ≡ some kind → kind_name kind ≡ "`" ++ (s ++ "`")
unfolding keyword keywords kind_name all_entries
kind_name-keyword s kind h =
    (eq_iff (kind_name kind) ("`" ++ (s ++ "`"))).0
      (get-all_entries (λ s kind. kind_name kind == ("`" ++ (s ++ "`"))) s kind keywords refl h)

keyword_at :
    (s n : String) (kind : TokenKind)
    → keyword s ≡ some kind
    → some s ≡ some n
    → keyword n ≡ some kind
keyword_at s n kind k e = subst (λ n. keyword n ≡ some kind) (some-injective _ _ e) k

-- A token that can stand for a field name does so by its own keyword.
pub keyword-keyword_as_ident :
    (kind : TokenKind) (name : String)
    → keyword_as_ident kind ≡ some name
    → keyword name ≡ some kind
unfolding keyword_as_ident keyword keywords get
keyword-keyword_as_ident kind name h =
    elim kind as (λ kind. keyword_as_ident kind ≡ some name → keyword name ≡ some kind) [
      | TokenKind.kw_value ↦ keyword_at "value" name TokenKind.kw_value refl
      | TokenKind.kw_data ↦ keyword_at "data" name TokenKind.kw_data refl
      | TokenKind.kw_type ↦ keyword_at "type" name TokenKind.kw_type refl
      | TokenKind.kw_trait ↦ keyword_at "trait" name TokenKind.kw_trait refl
      | TokenKind.kw_impl ↦ keyword_at "impl" name TokenKind.kw_impl refl
      | TokenKind.kw_mut ↦ keyword_at "mut" name TokenKind.kw_mut refl
      | TokenKind.kw_async ↦ keyword_at "async" name TokenKind.kw_async refl
      | TokenKind.kw_await ↦ keyword_at "await" name TokenKind.kw_await refl
      | TokenKind.kw_spawn ↦ keyword_at "spawn" name TokenKind.kw_spawn refl
      | TokenKind.kw_import ↦ keyword_at "import" name TokenKind.kw_import refl
      | TokenKind.kw_export ↦ keyword_at "export" name TokenKind.kw_export refl
      | TokenKind.kw_defer ↦ keyword_at "defer" name TokenKind.kw_defer refl
      | _ ↦ λ e. absurd cc
    ]
      h
