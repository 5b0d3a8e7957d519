-- ===== src/Program/Decimal.antt =====
-- The digits that itoa of apps/gateway/main.go puts, read back by strconv.Atoi.
use Prim.Native.Char.{Char, code}
use proxy_mesh.Prelude.{
  ℕ, zero, suc, ◌+◌, ◌-◌, ◌*◌, ◌/◌, ◌%◌, ◌<◌, String, true, ◌&&◌, some, [], ◌∷◌, ◌==◌, nat_eq, leb,
  if_cases, int_eq, leb_ℤ, beq_ℤ_iff, some-injective, some_if, ◌≢◌, pos, ◌^◌, ◌≡◌, refl, ap, sym,
  ◌∙◌, arith,
}
use proxy_mesh.Prelude.Bytes.{Bytes, text_of, text_of-byte}
use proxy_mesh.Config.{digits, number, signed, in_int64, atoi}
use proxy_mesh.Program.{put_digits, itoa}

-- The numbers with at most `n` digits are those below its value.
abbrev bound : ℕ → ℕ
bound zero = 1
bound (suc n) = 10 * bound n

digits-char :
    (n d : ℕ) (c : Char) (s : String)
    → d < 10
    → code c ≡ 48 + d
    → digits n (String.◌∷◌ c s) ≡ digits (10 * n + d) s
unfolding digits
digits-char n d c s small e =
    if_cases (λ w. w ≡ digits (10 * n + d) s) (leb 48 (code c) && leb (code c) 57) _ _
      (λ yes. ap (λ w. digits w s) (omega arith)) (λ no. absurd (ground arith))

digits-byte :
    (n d : ℕ) (b : Bytes)
    → d < 10
    → digits n (text_of ((48 + d) ∷ b)) ≡ digits (10 * n + d) (text_of b)
digits-byte n d b small =
    let head = text_of-byte (48 + d) b (omega arith) in
    ap (digits n) head.2 ∙ digits-char n d head.0 (text_of b) small head.1

digits-put_digits :
    (n v : ℕ) (b : Bytes)
    → v < bound n
    → digits 0 (text_of (put_digits n v b)) ≡ digits v (text_of b)
unfolding put_digits
digits-put_digits zero v b small = ap (λ w. digits w (text_of b)) (omega arith)
digits-put_digits (suc n) v b small =
    if_cases (λ w. digits 0 (text_of w) ≡ digits v (text_of b)) (v == 0) _ _
      (λ e. ap (λ w. digits w (text_of b)) (ground arith))
      (λ e.
        digits-put_digits n (v / 10) ((48 + v % 10) ∷ b) (omega arith)
        ∙ digits-byte (v / 10) (v % 10) b (omega arith)
        ∙ ap (λ w. digits w (text_of b)) (omega arith))

starts_with_digit :
    (c : Char) (s : String) {v : ℕ}
    → digits 0 (String.◌∷◌ c s) ≡ some v
    → (leb 48 (code c) && leb (code c) 57) ≡ true
unfolding digits
starts_with_digit c s h = (some_if _ (digits (10 * 0 + (code c - 48)) s) h).0

number-digits : (s : String) (v : ℕ) → v ≢ 0 → digits 0 s ≡ some v → number s ≡ some (pos v)
unfolding digits
number-digits String.[] v positive h = absurd (positive (sym (some-injective h)))
number-digits (String.◌∷◌ c s) v positive h =
    let digit = starts_with_digit c s h in
    if_cases (λ w. w ≡ some (pos v)) (code c == 45) _ _ (λ e. absurd (ground arith))
      (λ minus.
        if_cases (λ w. w ≡ some (pos v)) (code c == 43) _ _ (λ e. absurd (ground arith))
          (λ plus. ap (signed pos) h))

itoa-positive : (v : ℕ) → v ≢ 0 → itoa (pos v) ≡ text_of (put_digits 20 v [])
unfolding itoa
itoa-positive v positive =
    if_cases (λ w. w ≡ text_of (put_digits 20 v [])) (pos v == pos 0) _ _
      (λ e. absurd (ground (arith, beq_ℤ_iff (pos v) (pos 0))))
      (λ nonzero.
        if_cases (λ w. w ≡ text_of (put_digits 20 v [])) (leb_ℤ (pos v) (pos 0)) _ _
          (λ e. absurd (ground arith)) (λ above. refl))

-- What itoa makes of an integer of 64 bits that is not negative, strconv.Atoi reads back; so the buffer of 20
-- bytes is large enough.
pub atoi-itoa : (v : ℕ) → v < 2 ^ 63 → atoi (itoa (pos v)) ≡ some (pos v)
unfolding atoi itoa digits text_of
atoi-itoa zero small = refl
atoi-itoa (suc v) small =
    let text = text_of (put_digits 20 (suc v) []) in
    let value : digits 0 text ≡ some (suc v) = digits-put_digits 20 (suc v) [] (omega arith) in
    ap atoi (itoa-positive (suc v) (omega arith))
    ∙ ap in_int64 (number-digits text (suc v) (omega arith) value)
    ∙ ground arith
