-- ===== src/Provider/Random.antt =====
-- The random numbers of internal/provider/provider.go. What crypto/rand gives is an argument, the list of the
-- 64-bit words that its next reads give; a read after the last of them fails.
use native.Mathlib.Nat.{
  mod-lt, mod-eq_of_lt, mul-add-mod_self_left, div-add-mod', mul-add-div, div-eq_of_lt,
  div-lt_iff_lt-mul,
}
use proxy_mesh.Prelude.{
  true, false, Bool, ℕ, ◌+◌, ◌-◌, ◌*◌, ◌/◌, ◌%◌, ◌^◌, ◌<◌, ◌≤◌, ℤ, pos, negsuc, ◌+ℤ◌, ◌-ℤ◌, ◌≤ℤ◌,
  ltb_ℤ, ltb, List, [], ◌∷◌, ◌≡◌, ◌==◌, nat_eq, sub_ℕ, Result, ok, err, arith, if◌then◌else◌, ◌↔◌,
  sym, ap, subst, ◌∙◌, Bool-cases, inl, inr, ok-injective, refl,
}

pub data RandomError : Type 0 where
  invalid_range invalid_limit read_failed : RandomError

-- The words that a call leaves unread come with its result.
abbrev pub Drawn : Type 0 → Type 0
Drawn A = Result RandomError (A × List ℕ)

abbrev pub max_uint64 : ℕ
max_uint64 = 2 ^ 64 - 1

abbrev ceiling : ℕ → ℕ → ℕ
ceiling top limit = top - top % limit

-- The loop of cryptoUint, for the largest word `top`.
unfoldable pub draw_below : ℕ → ℕ → List ℕ → Drawn ℕ
draw_below top limit [] = err read_failed
draw_below top limit (n ∷ ns) =
    let rest = draw_below top limit ns in
    if ltb n (ceiling top limit) then ok (n % limit, ns) else rest

unfoldable pub crypto_uint : ℕ → List ℕ → Drawn ℕ
unfolding draw_below
crypto_uint limit words =
    if limit == 0 then err invalid_limit else draw_below max_uint64 limit words

-- The conversions of int64 to uint64 and back.
abbrev to_uint64 : ℤ → ℕ
to_uint64 (pos n) = n
to_uint64 (negsuc n) = 2 ^ 64 - 1 - n

abbrev to_int64 : ℕ → ℤ
to_int64 n = if ltb n (2 ^ 63) then pos n else sub_ℕ n (2 ^ 64)

abbrev plus : ℤ → ℕ × List ℕ → ℤ × List ℕ
plus min (n, words) = (min +ℤ to_int64 n, words)

abbrev and_plus : ℤ → Drawn ℕ → Drawn ℤ
and_plus min (ok drawn) = ok (plus min drawn)
and_plus min (err e) = err e

-- `max-min` is inside the int64 range where the bounds are not negative, as they are in every call.
unfoldable pub crypto_int : ℤ → ℤ → List ℕ → Drawn ℤ
unfolding crypto_uint
crypto_int min max words =
    if ltb_ℤ max min
    then err invalid_range
    else and_plus min (crypto_uint ((to_uint64 (max -ℤ min) + 1) % 2 ^ 64) words)

ceiling_lem : (top limit : ℕ) → ceiling top limit ≡ top / limit * limit
ceiling_lem top limit = omega (arith, div-add-mod' top limit)

accepts : (q limit k r : ℕ) → r < limit → (k < q) ↔ (limit * k + r < q * limit)
accepts q limit k r h =
    let positive : 0 < limit = omega (arith, h) in
    let quotient : (limit * k + r) / limit ≡ k =
      omega (arith, mul-add-div {m = limit} positive k r, div-eq_of_lt h) in
    subst (λ x. (x < q) ↔ (limit * k + r < q * limit)) quotient
      (div-lt_iff_lt-mul {k = limit} {x = limit * k + r} {y = q} positive)

-- The word limit * k + r gives r if k is less than the quotient of the largest word by the limit, and else it
-- is passed over. So every result below the limit comes from equally many words.
pub crypto_uint-even :
    (limit k r : ℕ) (words : List ℕ)
    → r < limit
    → crypto_uint limit ((limit * k + r) ∷ words)
      ≡ (if ltb k (max_uint64 / limit) then ok (r, words) else crypto_uint limit words)
unfolding crypto_uint draw_below
crypto_uint-even limit k r words h =
    let remainder : (limit * k + r) % limit ≡ r =
      mul-add-mod_self_left limit k r ∙ mod-eq_of_lt h in
    ground
      (arith, h, remainder, ceiling_lem max_uint64 limit, accepts (max_uint64 / limit) limit k r h)

draw_below-lt :
    (top limit n : ℕ) (words rest : List ℕ)
    → 0 < limit
    → draw_below top limit words ≡ ok (n, rest)
    → n < limit
unfolding draw_below
draw_below-lt top limit n [] rest h e = absurd (cc)
draw_below-lt top limit n (w ∷ words) rest h e =
    ground (arith, mod-lt w h, draw_below-lt top limit n words rest h)

-- A result of cryptoUint is below the limit.
pub crypto_uint-lt :
    (limit n : ℕ) (words rest : List ℕ) → crypto_uint limit words ≡ ok (n, rest) → n < limit
unfolding crypto_uint
crypto_uint-lt limit n words rest e = ground (arith, draw_below-lt max_uint64 limit n words rest)

and_plus-between :
    (min max : ℕ) (n : ℤ) (d : Drawn ℕ) (rest : List ℕ)
    → min ≤ max
    → max < 2 ^ 63
    → ((k : ℕ) (left : List ℕ) → d ≡ ok (k, left) → k < max - min + 1)
    → and_plus (pos min) d ≡ ok (n, rest)
    → (pos min ≤ℤ n) × (n ≤ℤ pos max)
unfolding ◌+ℤ◌
and_plus-between min max n (err x) rest le h below e = absurd (cc)
and_plus-between min max n (ok (k, left)) rest le h below e =
    subst (λ x. (pos min ≤ℤ x) × (x ≤ℤ pos max)) (ap (λ d. d.0) (ok-injective e))
      (ground (arith, below k left refl))

range_size :
    (min max : ℕ)
    → min ≤ max
    → max < 2 ^ 63
    → (to_uint64 (pos max -ℤ pos min) + 1) % 2 ^ 64 ≡ max - min + 1
unfolding ◌-ℤ◌
range_size min max le h = ground arith

pub crypto_int_lem :
    (min max : ℕ) (words : List ℕ)
    → min ≤ max
    → max < 2 ^ 63
    → crypto_int (pos min) (pos max) words ≡ and_plus (pos min) (crypto_uint (max - min + 1) words)
unfolding crypto_int
crypto_int_lem min max words le h = rw (sym (range_size min max le h)) (ground arith)

-- With bounds that are not negative and fit in an int64, a result of cryptoInt is inside them.
pub crypto_int-between :
    (min max : ℕ) (n : ℤ) (words rest : List ℕ)
    → max < 2 ^ 63
    → crypto_int (pos min) (pos max) words ≡ ok (n, rest)
    → (pos min ≤ℤ n) × (n ≤ℤ pos max)
unfolding crypto_int
crypto_int-between min max n words rest h e = elim (Bool-cases (ltb max min)) [
  | inl empty ↦ absurd (ground arith)
  | inr le ↦
      let ordered : min ≤ max = ground arith in
      and_plus-between min max n (crypto_uint (max - min + 1) words) rest ordered h
        (λ k left f. crypto_uint-lt (max - min + 1) k words left f)
        (sym (crypto_int_lem min max words ordered h) ∙ e)
]

draw_below-fails :
    (top limit : ℕ) (words : List ℕ) (x : RandomError)
    → draw_below top limit words ≡ err x
    → x ≡ read_failed
unfolding draw_below
draw_below-fails top limit [] x e = cc
draw_below-fails top limit (w ∷ words) x e = ground (arith, draw_below-fails top limit words x)

and_plus-fails : (min : ℤ) (d : Drawn ℕ) (x : RandomError) → and_plus min d ≡ err x → d ≡ err x
and_plus-fails min (ok drawn) x e = absurd (cc)
and_plus-fails min (err y) x e = cc

crypto_uint-fails :
    (limit : ℕ) (words : List ℕ) (x : RandomError)
    → 0 < limit
    → crypto_uint limit words ≡ err x
    → x ≡ read_failed
unfolding crypto_uint
crypto_uint-fails limit words x h e = ground (arith, draw_below-fails max_uint64 limit words x)

-- With such bounds, and if they are in order, cryptoInt fails only by a failed read.
pub crypto_int-fails :
    (min max : ℕ) (words : List ℕ) (x : RandomError)
    → min ≤ max
    → max < 2 ^ 63
    → crypto_int (pos min) (pos max) words ≡ err x
    → x ≡ read_failed
crypto_int-fails min max words x le h e = crypto_uint-fails (max - min + 1) words x (omega arith) (
    and_plus-fails (pos min) (crypto_uint (max - min + 1) words) x
      (sym (crypto_int_lem min max words le h) ∙ e))

from_zero :
    (r : ℕ) (words : List ℕ) → r < 2 ^ 63 → and_plus (pos 0) (ok (r, words)) ≡ ok (pos r, words)
unfolding ◌+ℤ◌
from_zero r words h = ground (arith, h)

and_plus_if :
    (min : ℤ) (b : Bool) (x y : Drawn ℕ)
    → and_plus min (if b then x else y) ≡ (if b then and_plus min x else and_plus min y)
and_plus_if min true x y = refl
and_plus_if min false x y = refl

-- The words that give a number, and those that are passed over.
pub crypto_int-even :
    (max k r : ℕ) (words : List ℕ)
    → r ≤ max
    → max < 2 ^ 63
    → crypto_int (pos 0) (pos max) (((max + 1) * k + r) ∷ words) ≡ (
        if ltb k (max_uint64 / (max + 1))
        then ok (pos r, words)
        else crypto_int (pos 0) (pos max) words)
crypto_int-even max k r words le h =
    let size : max - 0 + 1 ≡ max + 1 = omega arith in
    crypto_int_lem 0 max (((max + 1) * k + r) ∷ words) (omega arith) h
    ∙ ap (λ limit. and_plus (pos 0) (crypto_uint limit (((max + 1) * k + r) ∷ words))) size
    ∙ ap (and_plus (pos 0)) (crypto_uint-even (max + 1) k r words (omega (arith, le)))
    ∙ and_plus_if (pos 0) (ltb k (max_uint64 / (max + 1))) (ok (r, words))
        (crypto_uint (max + 1) words)
    ∙ λ i.
        if ltb k (max_uint64 / (max + 1))
        then from_zero r words (omega (arith, le, h)) i
        else (ap (λ limit. and_plus (pos 0) (crypto_uint limit words)) (sym size)
              ∙ sym (crypto_int_lem 0 max words (omega arith) h))
            i
