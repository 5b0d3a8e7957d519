-- ===== src/Socks5/Bound.antt =====
-- The replies that DialSOCKS5 of internal/proxy/socks5.go checks, and the address that it reads and passes over.
use proxy_mesh.Prelude.{
  if_cases, nat_beq_iff, not, ◌||◌, ℕ, ◌+◌, [], ◌∷◌, ◌++◌, ◌==◌, nat_eq, ok, if◌then◌else◌, ◌≡◌,
  ◌⊎◌, inl, inr, refl, sym, ◌∙◌, ap, ok-injective, arith, length,
}
use proxy_mesh.Prelude.Bytes.{Bytes}
use proxy_mesh.Socks5.{
  Socks5Config, DialError, Exchange, Step, ◌then◌, receive, byte_at, method, address_length, fail,
}
use proxy_mesh.Socks5.Steps.{then-ok, guard-ok, receive-split, one_byte, two_bytes, both_equal}

-- The reply to the user name and the password, if they are sent.
abbrev pub auth_reply : Socks5Config → Bytes
auth_reply c = if not (method c == 2) then [] else 1 ∷ 0 ∷ []

-- The address and the port in a reply, by the type of the address.
abbrev pub IsBound : ℕ → Bytes → Type 0
IsBound t bound =
    ((t ≡ 1) × (length bound ≡ 6))
    ⊎ ((t ≡ 4) × (length bound ≡ 18))
    ⊎ ((t ≡ 3) × ((n : ℕ) × (name : Bytes) × (n ∷ name ≡ bound) × (length name ≡ n + 2)))

-- A reply of two bytes that is checked.
pub reply-ok :
    (e : DialError) (m n : ℕ) (x : Exchange) {y : Exchange} {u : Unit {0}}
    → (receive 2 x then λ z reply.
        if not (byte_at 0 reply == m) || not (byte_at 1 reply == n) then fail e z else (z, ok tt))
      ≡ (y, ok u)
    → m ∷ n ∷ y.left ≡ x.left
reply-ok e m n x {y = y} h =
    let reply = then-ok (receive 2 x) _ h in
    let split = receive-split 2 x reply.2 in
    let guarded =
      guard-ok (not (byte_at 0 reply.1 == m) || not (byte_at 1 reply.1 == n)) e reply.0 reply.3 in
    let bytes = both_equal (byte_at 0 reply.1) (byte_at 1 reply.1) m n guarded.0 in
    let read : m ∷ n ∷ [] ≡ reply.1 =
      (λ i. sym bytes.0 i ∷ sym bytes.1 i ∷ []) ∙ two_bytes reply.1 split.0 in
    ap (λ r. r ++ y.left) read ∙ ap (λ z. reply.1 ++ z.left) (sym guarded.1) ∙ split.1

pub address_length-ok :
    (t : ℕ) (x : Exchange) {y : Exchange} {n : ℕ}
    → address_length t x ≡ (y, ok n)
    → ((t ≡ 1) × (n ≡ 4) × (y.left ≡ x.left))
      ⊎ ((t ≡ 4) × (n ≡ 16) × (y.left ≡ x.left))
      ⊎ ((t ≡ 3) × (n ∷ y.left ≡ x.left))
unfolding address_length
address_length-ok t x {y = y} {n = n} h =
    if_cases Fits (t == 1) _ _ (λ e h. inl ((nat_beq_iff t 1).0 e, (fixed 4 h).0, (fixed 4 h).1))
      (λ e.
        if_cases Fits (t == 4) _ _
          (λ f h. inr (inl ((nat_beq_iff t 4).0 f, (fixed 16 h).0, (fixed 16 h).1)))
          (λ f.
            if_cases Fits (t == 3) _ _ (λ g h. inr (inr ((nat_beq_iff t 3).0 g, counted h)))
              (λ g h. absurd (cc (ap (λ w. w.1) h)))))
      h
  where
    Fits : Step ℕ → Type 0
    Fits w =
        w ≡ (y, ok n)
        → ((t ≡ 1) × (n ≡ 4) × (y.left ≡ x.left))
          ⊎ ((t ≡ 4) × (n ≡ 16) × (y.left ≡ x.left))
          ⊎ ((t ≡ 3) × (n ∷ y.left ≡ x.left))

    fixed : (m : ℕ) → ◌≡◌ {A = Step ℕ} (x, ok m) (y, ok n) → (n ≡ m) × (y.left ≡ x.left)
    fixed m h = (sym (ok-injective (ap (λ w. w.1) h)), sym (ap (λ w. w.0.left) h))

    counted : (receive 1 x then (λ z b. (z, ok (byte_at 0 b)))) ≡ (y, ok n) → n ∷ y.left ≡ x.left
    counted h =
        let read = then-ok (receive 1 x) _ h in
        let split = receive-split 1 x read.2 in
        (λ i. sym (ok-injective (ap (λ w. w.1) read.3)) i ∷ sym (ap (λ w. w.0.left) read.3) i)
        ∙ ap (λ r. r ++ read.0.left) (one_byte read.1 split.0)
        ∙ split.1

-- The address and the port that are read and passed over.
pub IsBound-ok :
    (t : ℕ) (x : Exchange) {y : Exchange} {u : Unit {0}}
    → (address_length t x then λ z n. receive (n + 2) z then λ w discard. (w, ok tt)) ≡ (y, ok u)
    → (bound : Bytes) × (bound ++ y.left ≡ x.left) × IsBound t bound
IsBound-ok t x {y = y} h =
    let size = then-ok (address_length t x) _ h in
    let port = then-ok (receive (size.1 + 2) size.0) _ size.3 in
    let split = receive-split (size.1 + 2) size.0 port.2 in
    let end : port.1 ++ y.left ≡ size.0.left =
      ap (λ z. port.1 ++ z.left) (sym (ap (λ w. w.0) port.3)) ∙ split.1 in
    elim (address_length-ok t x size.2) [
      | inl (e, n, same) ↦ (port.1, end ∙ same, inl (e, omega arith))
      | inr (inl (e, n, same)) ↦ (port.1, end ∙ same, inr (inl (e, omega arith)))
      | inr (inr (e, counted)) ↦ (
        size.1 ∷ port.1,
        ap (λ z. size.1 ∷ z) end ∙ counted,
        inr (inr (e, (size.1, port.1, refl, split.0))),
      )
    ]
