-- ===== src/Provider/Sessions.antt =====
-- generateSession and weightedString of internal/provider/provider.go. A read of the 16 bytes of a UUID takes two
-- of the random words. strings.ToLower, strings.TrimSpace and fmt.Sprint are parameters; so is Go's float64,
-- with the test of a weight and its number of millionths as a uint64.
use Prim.Native.Nat.{Ordering}
use Prim.Native.String.{compare}
use proxy_mesh.Prelude.{
  ℕ, zero, suc, ◌+◌, ◌-◌, ◌/◌, ◌%◌, ◌^◌, ◌≤◌, ℤ, pos, ◌≤ℤ◌, pos_part, String, Bool, true, false,
  List, [], ◌∷◌, ◌++◌, ◌==◌, nat_eq, string_eq, if◌then◌else◌, Result, ok, err, ◌>>=◌, ltb, length,
  All, ◌≡◌, sym, ◌∙◌, ap, arith, bind-ok, ok-injective, ◌⊎◌, subst,
}
use proxy_mesh.Prelude.Bytes.{Bytes, bytes_of, text_of}
use proxy_mesh.Prelude.Map.{Map}
use proxy_mesh.Postgres.Rows.{order_by}
use proxy_mesh.Provider.{SessionRule}
use proxy_mesh.Provider.Random.{
  RandomError, read_failed, Drawn, crypto_int, crypto_uint, crypto_int-between,
}

pub data SessionError : Type 0 where
  unsupported_type invalid_weights selection_failed : SessionError
  random : RandomError → SessionError

pub record Texts : Type 0 where
  pub lower : String → String
  pub trim : String → String
  pub sprint : ℤ → String

abbrev underscore : ℕ → ℕ
underscore c = if c == 32 then 95 else c

abbrev underscores : Bytes → Bytes
underscores [] = []
underscores (c ∷ cs) = underscore c ∷ underscores cs

unfoldable pub normalize_country : Texts → String → String
normalize_country t s = t.lower (t.trim s)

unfoldable pub normalize_location : Texts → String → String
normalize_location t s = text_of (underscores (bytes_of (t.lower (t.trim s))))

-- The eight bytes of a word, the first one first.
abbrev word_bytes : ℕ → Bytes
word_bytes w =
    w / 256 ^ 7 % 256
    ∷ w / 256 ^ 6 % 256
    ∷ w / 256 ^ 5 % 256
    ∷ w / 256 ^ 4 % 256
    ∷ w / 256 ^ 3 % 256
    ∷ w / 256 ^ 2 % 256
    ∷ w / 256 % 256
    ∷ w % 256
    ∷ []

abbrev hex_digit : ℕ → ℕ
hex_digit n = if ltb n 10 then 48 + n else 87 + n

abbrev hex : Bytes → Bytes
hex [] = []
hex (b ∷ bs) = hex_digit (b / 16) ∷ hex_digit (b % 16) ∷ hex bs

-- The version and the variant: `b[6]&0x0f | 0x40` and `b[8]&0x3f | 0x80`.
abbrev with_version : Bytes → Bytes
with_version (a ∷ b ∷ c ∷ d ∷ e ∷ f ∷ g ∷ h ∷ rest) =
    hex (a ∷ b ∷ c ∷ d ∷ []) ++ 45 ∷ hex (e ∷ f ∷ []) ++ 45 ∷ hex ((64 + g % 16) ∷ h ∷ rest)
with_version _ = []

abbrev with_variant : Bytes → Bytes
with_variant (a ∷ b ∷ rest) = hex ((128 + a % 64) ∷ b ∷ []) ++ 45 ∷ hex rest
with_variant _ = []

unfoldable pub uuid : ℕ → ℕ → Bytes
uuid v w = with_version (word_bytes v) ++ 45 ∷ with_variant (word_bytes w)

-- The byte of "abcdefghijklmnopqrstuvwxyz0123456789" at an index.
abbrev pub alphabet : ℕ → ℕ
alphabet n = if ltb n 26 then 97 + n else 22 + n

abbrev pub drawn : {A : Type 0} → Drawn A → Result SessionError (A × List ℕ)
drawn (ok d) = ok d
drawn (err e) = err (random e)

unfoldable pub alnum : ℕ → List ℕ → Result SessionError (Bytes × List ℕ)
alnum zero words = ok ([], words)
alnum (suc n) words = drawn (crypto_int (pos 0) (pos 35) words) >>= λ d.
    alnum n d.1 >>= λ rest. ok (alphabet (pos_part d.0) ∷ rest.0, rest.1)

abbrev pub two_words : List ℕ → Result SessionError (Bytes × List ℕ)
two_words (v ∷ w ∷ words) = ok (uuid v w, words)
two_words _ = err (random read_failed)

-- The length of an alnum session is not negative: else the code would not allocate the bytes.
unfoldable pub generate_session :
    Texts → SessionRule → List ℕ → Result SessionError (String × List ℕ)
generate_session t rule words =
    if rule.type == "uuid"
    then two_words words >>= (λ s. ok (text_of s.0, s.1))
    else if rule.type == "int"
    then drawn (crypto_int rule.min rule.max words) >>= (λ n. ok (t.sprint n.0, n.1))
    else if rule.type == "alnum"
    then alnum (pos_part rule.length) words >>= (λ s. ok (text_of s.0, s.1))
    else err unsupported_type

-- The order of sort.Strings.
abbrev before : String → String → Bool
before s t = elim (compare s t) [ Ordering.gt ↦ false | _ ↦ true ]

-- What the code does with a float64: `weight <= 0`, and uint64(weight * 1_000_000).
pub record Floats (F : Type 0) : Type 0 where
  pub is_positive : F → Bool
  pub millionths : F → ℕ

module _ {F : Type 0} (f : Floats F) where
  -- The first loop, with the entries of a weight above zero, and their sum as a uint64.
  unfoldable pub positive : Map String F → List (String × ℕ)
  positive [] = []
  positive ((key, w) ∷ m) =
      let rest = positive m in if f.is_positive w then (key, f.millionths w) ∷ rest else rest

  unfoldable pub total : ℕ → List (String × ℕ) → ℕ
  total n [] = n
  total n ((key, w) ∷ m) = total ((n + w) % 2 ^ 64) m

  -- The second loop.
  unfoldable pub pick_state : Texts → ℕ → List (String × ℕ) → Result SessionError String
  pick_state t n [] = err selection_failed
  pick_state t n ((key, w) ∷ m) =
      let rest = pick_state t (n - w) m in if ltb n w then ok (normalize_location t key) else rest

  abbrev and_unread : List ℕ → Result SessionError String → Result SessionError (String × List ℕ)
  and_unread words (ok s) = ok (s, words)
  and_unread words (err e) = err e

  unfoldable pub weighted_string :
      Texts → Map String F → List ℕ → Result SessionError (String × List ℕ)
  weighted_string t weights words =
      let entries = positive weights in
      if total 0 entries == 0
      then err invalid_weights
      else drawn (crypto_uint (total 0 entries) words) >>= λ n.
          and_unread n.1 (pick_state t n.0 (order_by (λ x y. before x.0 y.0) entries))

-- A letter in lower case, or a digit.
abbrev pub IsAlnum : ℕ → Type 0
IsAlnum c = ((97 ≤ c) × (c ≤ 122)) ⊎ ((48 ≤ c) × (c ≤ 57))

drawn-ok : {A : Type 0} (d : Drawn A) {x : A × List ℕ} → drawn d ≡ ok x → d ≡ ok x
drawn-ok (ok d) h = ap ok (ok-injective h)
drawn-ok (err e) h = absurd (cc)

alphabet-IsAlnum : (n : ℤ) → n ≤ℤ pos 35 → IsAlnum (alphabet (pos_part n))
alphabet-IsAlnum n h = ground arith

alnum-draws :
    (n : ℕ) (words : List ℕ) {s : Bytes} {rest : List ℕ}
    → alnum n words ≡ ok (s, rest)
    → (length s ≡ n) × All IsAlnum s
unfolding alnum
alnum-draws zero words h =
    let same = ap (λ x. x.0) (ok-injective h) in (sym (ap length same), subst (All IsAlnum) same tt)
alnum-draws (suc n) words h =
    let draw = bind-ok (drawn (crypto_int (pos 0) (pos 35) words)) _ h in
    let others = bind-ok (alnum n draw.0.1) _ draw.2 in
    let same = ap (λ x. x.0) (ok-injective others.2) in
    let low =
      crypto_int-between 0 35 draw.0.0 words draw.0.1 (omega arith)
        (drawn-ok (crypto_int (pos 0) (pos 35) words) draw.1) in
    let ih = alnum-draws n draw.0.1 others.1 in
    (
      sym (ap length same) ∙ ap suc ih.0,
      subst (All IsAlnum) same (alphabet-IsAlnum draw.0.0 low.1, ih.1),
    )

-- A session of the type alnum is made of letters in lower case and digits, as many as the rule says.
pub generate_session-IsAlnum :
    (t : Texts) (rule : SessionRule) (words : List ℕ) {s : String} {rest : List ℕ}
    → rule.type ≡ "alnum"
    → generate_session t rule words ≡ ok (s, rest)
    → (bytes : Bytes) × (s ≡ text_of bytes)
      × (length bytes ≡ pos_part rule.length)
      × All IsAlnum bytes
unfolding generate_session
generate_session-IsAlnum t rule words {s = s} {rest = rest} a h =
    let bytes =
      bind-ok (alnum (pos_part rule.length) words) _ (
        subst (λ type. generate_session t (record rule { type = type }) words ≡ ok (s, rest)) a
          h) in
    let made = alnum-draws (pos_part rule.length) words bytes.1 in
    (bytes.0.0, sym (ap (λ x. x.0) (ok-injective bytes.2)), made.0, made.1)
