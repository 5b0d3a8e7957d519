-- ===== src/Api/Auth.antt =====
-- The check of the admin token of internal/control/api.go: auth.
use Prim.Native.Char.{code}
use text.Mathlib.TextEquality.{Char-path}
use proxy_mesh.Prelude.{
  ℕ, String, Bool, true, not, ◌&&◌, ◌||◌, Option, none, some, ◌==◌, string_eq, nat_eq, eq_iff,
  if◌then◌else◌, Result, err, ◌≡◌, ◌≢◌, ◌⊎◌, ◌↔◌, inl, inr, refl, ap, sym, ◌∙◌, arith, Option-cases,
  some-injective, some_if,
}

unfoldable pub strip_prefix : String → String → Option String
strip_prefix String.[] s = some s
strip_prefix (String.◌∷◌ c p) String.[] = none
strip_prefix (String.◌∷◌ c p) (String.◌∷◌ d s) =
    let rest = strip_prefix p s in if code c == code d then rest else none

abbrev or_whole : String → Option String → String
or_whole s none = s
or_whole s (some rest) = rest

-- strings.TrimPrefix
unfoldable pub trim_prefix : String → String → String
trim_prefix s prefix = or_whole s (strip_prefix prefix s)

-- Whether a request with this path and this Authorization header gets to its handler.
unfoldable pub is_authorized : String → String → String → Bool
is_authorized admin_token path header =
    path == "/live" || not (admin_token == "") && trim_prefix header "Bearer " == admin_token

-- auth: the response of the handler, or the status.
unfoldable pub auth : {A : Type 0} → String → String → String → Result ℕ A → Result ℕ A
auth admin_token path header next = if is_authorized admin_token path header then next else err 401

-- One text after another.
abbrev pub followed : String → String → String
followed String.[] t = t
followed (String.◌∷◌ c p) t = String.◌∷◌ c (followed p t)

strip_prefix-followed : (p t : String) → strip_prefix p (followed p t) ≡ some t
unfolding strip_prefix
strip_prefix-followed String.[] t = refl
strip_prefix-followed (String.◌∷◌ c p) t =
    ground (arith, nat_eq.beq_iff (code c) (code c), strip_prefix-followed p t)

followed_of_strip : (p s : String) {t : String} → strip_prefix p s ≡ some t → s ≡ followed p t
unfolding strip_prefix
followed_of_strip String.[] s h = some-injective h
followed_of_strip (String.◌∷◌ c p) String.[] h = absurd (cc)
followed_of_strip (String.◌∷◌ c p) (String.◌∷◌ d s) h =
    let found = some_if (code c == code d) (strip_prefix p s) h in
    let same : code d ≡ code c = ground (arith, found.0) in
    λ i. String.◌∷◌ (Char-path d c same i) (followed_of_strip p s found.1 i)

-- The header is the token after "Bearer ", or the token itself where that does not start so.
abbrev pub Carries : String → String → Type 0
Carries header token =
    (header ≡ followed "Bearer " token)
    ⊎ ((header ≡ token) × (strip_prefix "Bearer " header ≡ none))

trim_prefix-Carries :
    (header token : String) → trim_prefix header "Bearer " ≡ token → Carries header token
unfolding trim_prefix
trim_prefix-Carries header token h = elim (Option-cases (strip_prefix "Bearer " header)) [
  | inl e ↦ inr (sym (ap (or_whole header) e) ∙ h, e)
  | inr (rest, e) ↦ inl (
      followed_of_strip "Bearer " header e
      ∙ ap (followed "Bearer ") (sym (ap (or_whole header) e) ∙ h))
]

Carries-trim_prefix :
    (header token : String) → Carries header token → trim_prefix header "Bearer " ≡ token
unfolding trim_prefix
Carries-trim_prefix header token (inl e) =
    ap (λ s. or_whole s (strip_prefix "Bearer " s)) e
    ∙ ap (or_whole _) (strip_prefix-followed "Bearer " token)
Carries-trim_prefix header token (inr (e, whole)) = ap (or_whole header) whole ∙ e

-- A request is let through if, and only if, its path is /live, or the token of the server is not empty and the
-- header is that token after "Bearer ", or that token alone where the token does not start with "Bearer ".
pub is_authorized-Carries :
    (token path header : String)
    → (is_authorized token path header ≡ true)
      ↔ ((path ≡ "/live") ⊎ ((token ≢ "") × Carries header token))
unfolding is_authorized
is_authorized-Carries token path header = (
  λ h. ground (
    arith,
    eq_iff path "/live",
    eq_iff token "",
    eq_iff (trim_prefix header "Bearer ") token,
    trim_prefix-Carries header token,
  ),
  λ h. ground (
    arith,
    eq_iff path "/live",
    eq_iff token "",
    eq_iff (trim_prefix header "Bearer ") token,
    Carries-trim_prefix header token,
  ),
)
