-- ===== src/Config.antt =====
-- The reading of the environment of internal/config/config.go. os.Getenv is an argument, and so is
-- time.ParseDuration; a variable that is not set reads as the empty text.
use Prim.Native.Char.{code}
use proxy_mesh.Prelude.{
  ℕ, ◌+◌, ◌-◌, ◌*◌, ◌^◌, ℤ, pos, negsuc, leb_ℤ, ◌-ℤ◌, String, Bool, ◌&&◌, Option, none, some, ◌==◌,
  string_eq, nat_eq, if◌then◌else◌, leb,
}
use proxy_mesh.Model.{Time}
use proxy_mesh.Client.{parse_bool}

-- The digits of a number in base 10, after those that have the value `n`.
unfoldable pub digits : ℕ → String → Option ℕ
digits n String.[] = some n
digits n (String.◌∷◌ c s) =
    let rest = digits (10 * n + (code c - 48)) s in
    if leb 48 (code c) && leb (code c) 57 then rest else none

abbrev pub some_digits : String → Option ℕ
some_digits String.[] = none
some_digits (String.◌∷◌ c s) = digits 0 (String.◌∷◌ c s)

abbrev pub signed : (ℕ → ℤ) → Option ℕ → Option ℤ
signed f none = none
signed f (some n) = some (f n)

abbrev pub negated : ℕ → ℤ
negated n = pos 0 -ℤ pos n

-- With an optional sign.
abbrev pub number : String → Option ℤ
number String.[] = none
number (String.◌∷◌ c s) =
    if code c == 45
    then signed negated (some_digits s)
    else if code c == 43
    then signed pos (some_digits s)
    else signed pos (digits 0 (String.◌∷◌ c s))

abbrev pub in_int64 : Option ℤ → Option ℤ
in_int64 none = none
in_int64 (some v) =
    if leb_ℤ (negsuc (2 ^ 63 - 1)) v && leb_ℤ v (pos (2 ^ 63 - 1)) then some v else none

-- strconv.Atoi
unfoldable pub atoi : String → Option ℤ
unfolding digits
atoi s = in_int64 (number s)

abbrev or_fallback : {A : Type 0} → Option A → A → A
or_fallback none fallback = fallback
or_fallback (some v) fallback = v

module _ (getenv : String → String) where
  unfoldable pub config_string : String → String → String
  config_string key fallback = if getenv key == "" then fallback else getenv key

  unfoldable pub config_bool : String → Bool → Bool
  unfolding parse_bool
  config_bool key fallback =
      if getenv key == "" then fallback else or_fallback (parse_bool (getenv key)) fallback

  unfoldable pub config_int : String → ℤ → ℤ
  config_int key fallback = or_fallback (atoi (getenv key)) fallback

  unfoldable pub config_duration : (String → Option Time) → String → Time → Time
  config_duration parse_duration key fallback = or_fallback (parse_duration (getenv key)) fallback
