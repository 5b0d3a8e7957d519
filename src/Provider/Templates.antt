-- ===== src/Provider/Templates.antt =====
-- The templates of internal/provider/provider.go: templates, selectTemplate and render, with its regular
-- expressions written out. A text that is searched is the list of its bytes.
pub mod Enough
use proxy_mesh.Prelude.{
  ℕ, zero, suc, String, Bool, true, false, not, ◌&&◌, ◌||◌, Option, none, some, List, [], ◌∷◌, ◌++◌,
  ◌==◌, nat_eq, string_eq, if◌then◌else◌, Result, ok, err, ◌>>=◌, leb, length,
}
use proxy_mesh.Prelude.Bytes.{Bytes, bytes_of, text_of}
use proxy_mesh.Prelude.Map.{Map, lookup, values}
use proxy_mesh.Provider.{ValueRule}

abbrev value_of : Option String → String
value_of none = ""
value_of (some s) = s

unfoldable pub templates : ValueRule → List String
templates rule = rule.default ∷ rule.with_state ∷ rule.with_city ∷ values rule.by_country

unfoldable pub select_template : ValueRule → String → String → String → String
select_template rule country state city =
    let value = value_of (lookup country rule.by_country) in
    if not (value == "")
    then value
    else if not (city == "") && not (rule.with_city == "")
    then rule.with_city
    else if not (state == "") && not (rule.with_state == "")
    then rule.with_state
    else rule.default

-- What follows a prefix.
unfoldable pub strip : Bytes → Bytes → Option Bytes
strip [] t = some t
strip (p ∷ ps) [] = none
strip (p ∷ ps) (c ∷ cs) = let rest = strip ps cs in if p == c then rest else none

-- strings.ReplaceAll of a text that is not empty; `n` is at least the length of the text that is searched.
unfoldable pub replace : ℕ → Bytes → Bytes → Bytes → Bytes
replace zero old new t = t
replace (suc n) old new [] = []
replace (suc n) old new (c ∷ cs) = elim (strip old (c ∷ cs)) [
  | some rest ↦ new ++ replace n old new rest
  | none ↦ c ∷ replace n old new cs
]

unfoldable pub replace_all : Bytes → Bytes → Bytes → Bytes
replace_all old new t = replace (length t) old new t

-- The longest start of a text whose bytes pass a test, and the rest.
unfoldable pub span : (ℕ → Bool) → Bytes → Bytes × Bytes
span p [] = ([], [])
span p (c ∷ cs) = let rest = span p cs in if p c then (c ∷ rest.0, rest.1) else ([], c ∷ cs)

abbrev pub some_name : (Bytes × Bytes) → Option (Bytes × Bytes)
some_name ([], rest) = none
some_name (c ∷ cs, rest) = elim (strip (bytes_of "}}") rest) [
  | none ↦ none
  | some after ↦ some (c ∷ cs, after)
]

-- `[A-Za-z0-9_.-]` and `[^{}]`
abbrev pub is_name_byte : ℕ → Bool
is_name_byte c =
    leb 65 c && leb c 90
    || leb 97 c && leb c 122
    || leb 48 c && leb c 57
    || c == 95
    || c == 46
    || c == 45

abbrev is_inner_byte : ℕ → Bool
is_inner_byte c = not (c == 123) && not (c == 125)

abbrev pub within : (ℕ → Bool) → Option Bytes → Option (Bytes × Bytes)
within p none = none
within p (some rest) = some_name (span p rest)

-- A secret expression, or any expression, at the start of a text: what is inside, and what follows.
unfoldable pub match_secret : Bytes → Option (Bytes × Bytes)
match_secret t = within is_name_byte (strip (bytes_of "{{secret.") t)

unfoldable pub match_any : Bytes → Option (Bytes × Bytes)
match_any t = within is_inner_byte (strip (bytes_of "{{") t)

-- The names of the secrets in a template. No match starts inside another one.
unfoldable pub secret_names : Bytes → List Bytes
secret_names [] = []
secret_names (c ∷ cs) =
    let rest = secret_names cs in
    elim (match_secret (c ∷ cs)) [ none ↦ rest | some (name, after) ↦ name ∷ rest ]

unfoldable pub has_expression : Bytes → Bool
has_expression [] = false
has_expression (c ∷ cs) =
    let rest = has_expression cs in elim (match_any (c ∷ cs)) [ none ↦ rest | some found ↦ true ]

pub data RenderError : Type 0 where
  missing_secret unresolved : RenderError

abbrev pub prepend : Bytes → Result RenderError Bytes → Result RenderError Bytes
prepend b (ok out) = ok (b ++ out)
prepend b (err e) = err e

abbrev pub secret_value : Option String → Result RenderError Bytes → Result RenderError Bytes
secret_value none out = err missing_secret
secret_value (some value) out = prepend (bytes_of value) out

-- ReplaceAllStringFunc of the secrets, with `n` at least the length of the text.
unfoldable pub fill_secrets : ℕ → Map String String → Bytes → Result RenderError Bytes
fill_secrets zero secrets t = ok t
fill_secrets (suc n) secrets [] = ok []
fill_secrets (suc n) secrets (c ∷ cs) = elim (match_secret (c ∷ cs)) [
  | none ↦ prepend (c ∷ []) (fill_secrets n secrets cs)
  | some (name, after) ↦ secret_value (lookup (text_of name) secrets) (fill_secrets n secrets after)
]

pub record Vars : Type 0 where
  pub country : String
  pub state : String
  pub city : String
  pub session : String
  pub duration : String

-- The variables, in the order of their names.
unfoldable pub fill_vars : Vars → Bytes → Bytes
fill_vars v t = replace_all (bytes_of "{{state}}") (bytes_of v.state) (
    replace_all (bytes_of "{{session}}") (bytes_of v.session) (
      replace_all (bytes_of "{{duration}}") (bytes_of v.duration) (
        replace_all (bytes_of "{{country}}") (bytes_of v.country)
          (replace_all (bytes_of "{{city}}") (bytes_of v.city) t))))

abbrev resolved : Bytes → Result RenderError String
resolved out = if has_expression out then err unresolved else ok (text_of out)

unfoldable pub render : String → Vars → Map String String → Result RenderError String
render template vars secrets =
    let out = fill_vars vars (bytes_of template) in
    fill_secrets (length out) secrets out >>= resolved
