-- ===== src/Prelude/Bytes.antt =====
-- Go's conversions between a string and its bytes. The codes of a text stand for its bytes, which they are if
-- the text is ASCII.
use Prim.Native.Nat.{ℕ, zero, suc, ◌≤◌, ◌<◌, compare, Ordering}
use Prim.Native.Char.{Char, code, char, IsLt, IsScalar}
use Prim.Native.String.{String}
use mathlib.Core.Path.{◌≡◌, refl, ap, sym, ◌∙◌}
use mathlib.Core.List.{List, [], ◌∷◌, ◌++◌}
use mathlib.Core.Option.{Option, none, some}
use native.Mathlib.Omega.{arith}
use proxy_mesh.Prelude.Lists.{length}
use proxy_mesh.Prelude.Tests.{some-injective}

abbrev pub Bytes : Type 0
Bytes = List ℕ

-- []byte(s)
unfoldable pub bytes_of : String → Bytes
bytes_of String.[] = []
bytes_of (String.◌∷◌ c s) = code c ∷ bytes_of s

-- A number is a scalar value or not, by its three comparisons, which are `IsScalar` of it.
abbrev Below : Ordering → Ordering → Type 0
Below Ordering.lt p = IsLt p
Below Ordering.eq _ = ⊥
Below Ordering.gt _ = ⊥

abbrev Scalar : Ordering → Ordering → Ordering → Type 0
Scalar Ordering.lt _ _ = Unit
Scalar Ordering.eq o p = Below o p
Scalar Ordering.gt o p = Below o p

abbrev below : (o p : Ordering) → Option (Below o p)
below Ordering.lt Ordering.lt = some tt
below Ordering.lt Ordering.eq = none
below Ordering.lt Ordering.gt = none
below Ordering.eq p = none
below Ordering.gt p = none

abbrev as_scalar : (o p q : Ordering) → Option (Scalar o p q)
as_scalar Ordering.lt p q = some tt
as_scalar Ordering.eq p q = below p q
as_scalar Ordering.gt p q = below p q

abbrev to_char : (n : ℕ) → Option (IsScalar n) → Char
to_char n (some p) = char n p
to_char n none = char 65533 tt

-- string(b), with U+FFFD for what is no character.
unfoldable pub text_of : Bytes → String
text_of [] = String.[]
text_of (n ∷ ns) =
    String.◌∷◌ (to_char n (as_scalar (compare n 55296) (compare 57343 n) (compare n 1114112)))
      (text_of ns)

below_complete : (o p : Ordering) (h : Below o p) → below o p ≡ some h
below_complete Ordering.lt Ordering.lt h = refl
below_complete Ordering.lt Ordering.eq h = absurd h
below_complete Ordering.lt Ordering.gt h = absurd h
below_complete Ordering.eq p h = absurd h
below_complete Ordering.gt p h = absurd h

as_scalar_complete : (o p q : Ordering) (h : Scalar o p q) → as_scalar o p q ≡ some h
as_scalar_complete Ordering.lt p q h = refl
as_scalar_complete Ordering.eq p q h = below_complete p q h
as_scalar_complete Ordering.gt p q h = below_complete p q h

to_char-code :
    (n : ℕ) (h : IsScalar n)
    → to_char n (as_scalar (compare n 55296) (compare 57343 n) (compare n 1114112)) ≡ char n h
to_char-code n h =
    ap (to_char n) (as_scalar_complete (compare n 55296) (compare 57343 n) (compare n 1114112) h)

-- The numbers below the surrogates are characters.
small-IsScalar : (n : ℕ) → n < 55296 → IsScalar n
small-IsScalar n h = ground arith

-- A small number, put at the head of a text, is the code of the first character.
pub text_of-byte :
    (n : ℕ) (ns : Bytes)
    → n < 55296
    → (c : Char) × (code c ≡ n) × (text_of (n ∷ ns) ≡ String.◌∷◌ c (text_of ns))
unfolding text_of
text_of-byte n ns h =
    let scalar = small-IsScalar n h in
    (char n scalar, refl, λ i. String.◌∷◌ (to_char-code n scalar i) (text_of ns))

-- string([]byte(s)) is s.
pub text_of-bytes_of : (s : String) → text_of (bytes_of s) ≡ s
unfolding text_of bytes_of
text_of-bytes_of String.[] = refl
text_of-bytes_of (String.◌∷◌ (char n h) s) =
    λ i. String.◌∷◌ (to_char-code n h i) (text_of-bytes_of s i)

abbrev after_byte : ℕ → Option (Bytes × Bytes) → Option (Bytes × Bytes)
after_byte b none = none
after_byte b (some (read, rest)) = some (b ∷ read, rest)

-- io.ReadFull: the bytes that are read and those that are left, or an error if there are too few.
unfoldable pub read_full : ℕ → Bytes → Option (Bytes × Bytes)
read_full zero bs = some ([], bs)
read_full (suc n) [] = none
read_full (suc n) (b ∷ bs) = after_byte b (read_full n bs)

pub read_full-append : (xs ys : Bytes) → read_full (length xs) (xs ++ ys) ≡ some (xs, ys)
unfolding read_full
read_full-append [] ys = refl
read_full-append (x ∷ xs) ys = rw (read_full-append xs ys) refl

pub read_full-enough :
    (n : ℕ) (bs : Bytes)
    → n ≤ length bs
    → (read : Bytes) × (rest : Bytes) × (read_full n bs ≡ some (read, rest)) × (length read ≡ n)
unfolding read_full
read_full-enough zero bs h = ([], bs, refl, refl)
read_full-enough (suc n) [] h = absurd (omega arith)
read_full-enough (suc n) (b ∷ bs) h =
    let found = read_full-enough n bs (omega arith) in
    (b ∷ found.0, found.1, rw found.2 refl, ap suc found.3)

pub read_full-short : (n : ℕ) (bs : Bytes) → length bs < n → read_full n bs ≡ none
unfolding read_full
read_full-short zero bs h = absurd (omega arith)
read_full-short (suc n) [] h = refl
read_full-short (suc n) (b ∷ bs) h = rw (read_full-short n bs (omega arith)) refl

after_byte-split :
    (b : ℕ) (o : Option (Bytes × Bytes)) {read rest : Bytes}
    → after_byte b o ≡ some (read, rest)
    → (x : Bytes) × (o ≡ some (x, rest)) × (b ∷ x ≡ read)
after_byte-split b none h = absurd (cc)
after_byte-split b (some (x, y)) h =
    let pair = some-injective h in
    (x, ap (λ r. some (x, r)) (ap (λ p. p.1) pair), ap (λ p. p.0) pair)

-- What is read, and what is left, are the bytes there were.
pub read_full-split :
    (n : ℕ) (bs : Bytes) {read rest : Bytes}
    → read_full n bs ≡ some (read, rest)
    → (length read ≡ n) × (read ++ rest ≡ bs)
unfolding read_full
read_full-split zero bs h =
    let pair = some-injective h in
    (sym (ap (λ p. length p.0) pair), sym (ap (λ p. p.0 ++ p.1) pair))
read_full-split (suc n) [] h = absurd (cc)
read_full-split (suc n) (b ∷ bs) {rest = rest} h =
    let after = after_byte-split b (read_full n bs) h in
    let split = read_full-split n bs after.1 in
    (
      sym (ap length after.2) ∙ ap suc split.0,
      sym (ap (λ x. x ++ rest) after.2) ∙ ap (λ x. b ∷ x) split.1,
    )
