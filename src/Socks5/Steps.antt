-- ===== src/Socks5/Steps.antt =====
-- The steps on a connection of internal/proxy/socks5.go: what a step that succeeds has read.
use proxy_mesh.Prelude.{
  Bool, true, false, not, ◌||◌, ℕ, Option, none, some, [], ◌∷◌, ◌++◌, ◌==◌, nat_eq, ok, err,
  if◌then◌else◌, ◌≡◌, refl, ap, ok-injective, arith, length,
}
use proxy_mesh.Prelude.Bytes.{Bytes, read_full, read_full-split}
use proxy_mesh.Socks5.{DialError, Exchange, Step, ◌then◌, write, receive, taken, byte_at, fail}

-- A step that gives a result after another one.
pub then-ok :
    {A B : Type 0} (w : Step A) (f : Exchange → A → Step B) {y : Exchange} {b : B}
    → (w then f) ≡ (y, ok b)
    → (x : Exchange) × (a : A) × (w ≡ (x, ok a)) × (f x a ≡ (y, ok b))
then-ok (x, ok a) f h = (x, a, refl, h)
then-ok (x, err e) f h = absurd (cc (ap (λ w. w.1) h))

pub guard-ok :
    (b : Bool) (e : DialError) (x : Exchange) {y : Exchange} {u : Unit {0}}
    → (if b then fail e x else (x, ok tt)) ≡ (y, ok u)
    → (b ≡ false) × (x ≡ y)
guard-ok true e x h = absurd (cc (ap (λ w. w.1) h))
guard-ok false e x h = (refl, ap (λ w. w.0) h)

pub write-left :
    (b : Bool) (message : Bytes) (x : Exchange) {y : Exchange} {u : Unit {0}}
    → write b message x ≡ (y, ok u)
    → x.left ≡ y.left
unfolding write
write-left true message x h = ap (λ w. w.0.left) h
write-left false message x h = absurd (cc (ap (λ w. w.1) h))

pub taken-split :
    (x : Exchange) (o : Option (Bytes × Bytes)) {y : Exchange} {bytes : Bytes}
    → taken x o ≡ (y, ok bytes)
    → o ≡ some (bytes, y.left)
taken-split x none h = absurd (cc (ap (λ w. w.1) h))
taken-split x (some (read, rest)) h =
    let same = ok-injective (ap (λ w. w.1) h) in λ i. some (same i, (h i).0.left)

pub receive-split :
    (n : ℕ) (x : Exchange) {y : Exchange} {bytes : Bytes}
    → receive n x ≡ (y, ok bytes)
    → (length bytes ≡ n) × (bytes ++ y.left ≡ x.left)
unfolding receive
receive-split n x h = read_full-split n x.left (taken-split x (read_full n x.left) h)

pub one_byte : (bs : Bytes) → length bs ≡ 1 → byte_at 0 bs ∷ [] ≡ bs
one_byte [] h = absurd (omega arith)
one_byte (a ∷ []) h = refl
one_byte (a ∷ b ∷ bs) h = absurd (omega arith)

pub two_bytes : (bs : Bytes) → length bs ≡ 2 → byte_at 0 bs ∷ byte_at 1 bs ∷ [] ≡ bs
two_bytes [] h = absurd (omega arith)
two_bytes (a ∷ []) h = absurd (omega arith)
two_bytes (a ∷ b ∷ []) h = refl
two_bytes (a ∷ b ∷ c ∷ bs) h = absurd (omega arith)

pub four_bytes :
    (bs : Bytes)
    → length bs ≡ 4
    → byte_at 0 bs ∷ byte_at 1 bs ∷ byte_at 2 bs ∷ byte_at 3 bs ∷ [] ≡ bs
four_bytes [] h = absurd (omega arith)
four_bytes (a ∷ []) h = absurd (omega arith)
four_bytes (a ∷ b ∷ []) h = absurd (omega arith)
four_bytes (a ∷ b ∷ c ∷ []) h = absurd (omega arith)
four_bytes (a ∷ b ∷ c ∷ d ∷ []) h = refl
four_bytes (a ∷ b ∷ c ∷ d ∷ e ∷ bs) h = absurd (omega arith)

-- Two bytes that are those a test asks for.
pub both_equal : (a b m n : ℕ) → (not (a == m) || not (b == n)) ≡ false → (a ≡ m) × (b ≡ n)
both_equal a b m n h = ground arith
