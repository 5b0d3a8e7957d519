-- ===== src/Provider/Templates/Enough.antt =====
-- The passes of render over a template of internal/provider/provider.go end within its length.
use proxy_mesh.Prelude.{
  ℕ, zero, suc, ◌+◌, ◌≤◌, ◌<◌, String, Bool, Option, none, some, [], ◌∷◌, ◌++◌, ◌==◌, nat_eq,
  string_eq, Result, length, ◌≡◌, refl, ap, sym, ◌∙◌, arith, Option-cases, inl, inr, some-injective,
  some_if,
}
use proxy_mesh.Prelude.Bytes.{Bytes, bytes_of, text_of}
use proxy_mesh.Prelude.Map.{Map, lookup}
use proxy_mesh.Provider.Templates.{
  RenderError, strip, span, replace, replace_all, match_secret, within, some_name, is_name_byte,
  fill_secrets, prepend, secret_value,
}

strip-length :
    (p t : Bytes) {rest : Bytes} → strip p t ≡ some rest → length p + length rest ≡ length t
unfolding strip
strip-length [] t h = let same = ap length (some-injective h) in omega arith
strip-length (b ∷ p) [] h = absurd (cc)
strip-length (b ∷ p) (c ∷ t) h =
    let found = some_if (b == c) (strip p t) h in let size = strip-length p t found.1 in omega arith

span-length : (p : ℕ → Bool) (t : Bytes) → length (span p t).1 ≤ length t
unfolding span
span-length p [] = omega arith
span-length p (c ∷ t) = ground (arith, span-length p t)

-- The name and what follows it, by what follows the brackets.
abbrev named : Bytes → Option Bytes → Option (Bytes × Bytes)
named name none = none
named name (some after) = some (name, after)

some_name-named :
    (c : ℕ) (cs rest : Bytes)
    → some_name (c ∷ cs, rest) ≡ named (c ∷ cs) (strip (bytes_of "}}") rest)
some_name-named c cs rest = elim (Option-cases (strip (bytes_of "}}") rest)) [
  | inl e ↦ rw (e, some_name) refl
  | inr (after, e) ↦ rw (e, some_name) refl
]

named-ok :
    (found : Bytes) (o : Option Bytes) {name after : Bytes}
    → named found o ≡ some (name, after)
    → o ≡ some after
named-ok found none h = absurd (cc)
named-ok found (some rest) h = ap (λ p. some p.1) (some-injective h)

some_name-length :
    (found : Bytes × Bytes) {name after : Bytes}
    → some_name found ≡ some (name, after)
    → length after ≤ length found.1
some_name-length ([], rest) h = absurd (cc)
some_name-length (c ∷ cs, rest) h =
    let after =
      named-ok (c ∷ cs) (strip (bytes_of "}}") rest) (sym (some_name-named c cs rest) ∙ h) in
    let size = strip-length (bytes_of "}}") rest after in omega arith

within-length :
    (p : ℕ → Bool) (o : Option Bytes) {name after : Bytes}
    → within p o ≡ some (name, after)
    → (rest : Bytes) × (o ≡ some rest) × (length after ≤ length rest)
within-length p none h = absurd (cc)
within-length p (some rest) h =
    let short = some_name-length (span p rest) h in
    let spanned = span-length p rest in (rest, refl, omega arith)

match_secret-length :
    (t : Bytes) {name after : Bytes} → match_secret t ≡ some (name, after) → length after < length t
unfolding match_secret bytes_of
match_secret-length t h =
    let opened = within-length is_name_byte (strip (bytes_of "{{secret.") t) h in
    let size = strip-length (bytes_of "{{secret.") t opened.1 in let short = opened.2 in omega arith

-- One step of a loop, by what it finds at the start of the text.
replace-step :
    (n m : ℕ) (old new : Bytes) (c : ℕ) (t : Bytes) (o : Option Bytes)
    → ((s : Bytes) → length s ≤ length t → replace n old new s ≡ replace m old new s)
    → ((rest : Bytes) → o ≡ some rest → length rest ≤ length t)
    → ◌≡◌ {A = Bytes}
        (elim o [ some rest ↦ new ++ replace n old new rest | none ↦ c ∷ replace n old new t ])
        (elim o [ some rest ↦ new ++ replace m old new rest | none ↦ c ∷ replace m old new t ])
replace-step n m old new c t none same shorter = ap (λ out. c ∷ out) (same t (omega arith))
replace-step n m old new c t (some rest) same shorter =
    ap (λ out. new ++ out) (same rest (shorter rest refl))

replace-enough :
    (n m : ℕ) (old : ℕ) (more new t : Bytes)
    → length t ≤ n
    → length t ≤ m
    → replace n (old ∷ more) new t ≡ replace m (old ∷ more) new t
unfolding replace
replace-enough zero zero old more new t h k = refl
replace-enough zero (suc m) old more new [] h k = refl
replace-enough zero (suc m) old more new (c ∷ t) h k = absurd (omega arith)
replace-enough (suc n) zero old more new [] h k = refl
replace-enough (suc n) zero old more new (c ∷ t) h k = absurd (omega arith)
replace-enough (suc n) (suc m) old more new [] h k = refl
replace-enough (suc n) (suc m) old more new (c ∷ t) h k =
    replace-step n m (old ∷ more) new c t (strip (old ∷ more) (c ∷ t))
      (λ s short. replace-enough n m old more new s (omega arith) (omega arith))
      (λ rest e. let size = strip-length (old ∷ more) (c ∷ t) e in omega arith)

fill_secrets-step :
    (n m : ℕ) (secrets : Map String String) (c : ℕ) (t : Bytes) (o : Option (Bytes × Bytes))
    → ((s : Bytes) → length s ≤ length t → fill_secrets n secrets s ≡ fill_secrets m secrets s)
    → ((name rest : Bytes) → o ≡ some (name, rest) → length rest ≤ length t)
    → ◌≡◌ {A = Result RenderError Bytes}
        (elim o [
          | none ↦ prepend (c ∷ []) (fill_secrets n secrets t)
          | some (name, after) ↦
              secret_value (lookup (text_of name) secrets) (fill_secrets n secrets after)
        ])
        (elim o [
          | none ↦ prepend (c ∷ []) (fill_secrets m secrets t)
          | some (name, after) ↦
              secret_value (lookup (text_of name) secrets) (fill_secrets m secrets after)
        ])
fill_secrets-step n m secrets c t none same shorter = ap (prepend (c ∷ [])) (same t (omega arith))
fill_secrets-step n m secrets c t (some (name, after)) same shorter =
    ap (secret_value (lookup (text_of name) secrets)) (same after (shorter name after refl))

fill_secrets-enough :
    (n m : ℕ) (secrets : Map String String) (t : Bytes)
    → length t ≤ n
    → length t ≤ m
    → fill_secrets n secrets t ≡ fill_secrets m secrets t
unfolding fill_secrets
fill_secrets-enough zero zero secrets t h k = refl
fill_secrets-enough zero (suc m) secrets [] h k = refl
fill_secrets-enough zero (suc m) secrets (c ∷ t) h k = absurd (omega arith)
fill_secrets-enough (suc n) zero secrets [] h k = refl
fill_secrets-enough (suc n) zero secrets (c ∷ t) h k = absurd (omega arith)
fill_secrets-enough (suc n) (suc m) secrets [] h k = refl
fill_secrets-enough (suc n) (suc m) secrets (c ∷ t) h k =
    fill_secrets-step n m secrets c t (match_secret (c ∷ t))
      (λ s short. fill_secrets-enough n m secrets s (omega arith) (omega arith))
      (λ name rest e. let size = match_secret-length (c ∷ t) e in omega arith)

-- The two loops over a template are given as many steps as it has bytes. If the text that is replaced is not
-- empty, more steps do not change what they give: neither stops before the end of the text.
pub passes-enough :
    (n : ℕ) (secrets : Map String String) (old : ℕ) (more new t : Bytes)
    → length t ≤ n
    → (replace n (old ∷ more) new t ≡ replace_all (old ∷ more) new t)
      × (fill_secrets n secrets t ≡ fill_secrets (length t) secrets t)
unfolding replace_all
passes-enough n secrets old more new t h = (
  replace-enough n (length t) old more new t h (omega arith),
  fill_secrets-enough n (length t) secrets t h (omega arith),
)
