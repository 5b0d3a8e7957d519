-- ===== src/Socks5/Closed.antt =====
-- Which calls of DialSOCKS5 of internal/proxy/socks5.go leave a connection open.
use proxy_mesh.Prelude.{
  if_cases, true, false, not, ◌&&◌, [], ok, err, ◌≡◌, ◌⊎◌, inl, inr, refl, Bool-cases, arith,
}
use proxy_mesh.Prelude.Bytes.{Bytes}
use proxy_mesh.Socks5.{
  Socks5Config, Net, Line, Dialed, DialError, dial_failed, deadline_failed, Step, handshake, finish,
  dial_socks5,
}

-- The connection is open exactly if the call gives one, or only the last change of the deadline has failed.
abbrev pub IsClean : Line → Dialed → Type 0
IsClean line d =
    ((d.closed ≡ true) × ((e : DialError) × (d.result ≡ err e)))
    ⊎ ((d.closed ≡ false) × ((rest : Bytes) × (d.result ≡ ok rest)))
    ⊎ ((line.dials ≡ false) × ((e : DialError) × (d.result ≡ err e)))
    ⊎ ((line.resets_deadline ≡ false) × (d.closed ≡ false) × (d.result ≡ err deadline_failed))

module _ (net : Net) (line : Line) (c : Socks5Config) where
  finish-IsClean : (w : Step (Unit {0})) → IsClean line (finish net line c w)
  finish-IsClean (x, err e) = inl (refl, (e, refl))
  finish-IsClean (x, ok d) = elim (Bool-cases line.resets_deadline) [
    | inl e ↦ inr (inl (refl, (x.left, rw e refl)))
    | inr e ↦ inr (inr (inr (e, refl, rw e refl)))
  ]

  -- A call of DialSOCKS5 that fails has closed its connection, or had none, unless it fails because the
  -- deadline cannot be taken off at the end: then the connection stays open. A call that gives a connection
  -- leaves it open.
  pub dial_socks5-IsClean : (target : Bytes) → IsClean line (dial_socks5 net line c target)
  unfolding dial_socks5
  dial_socks5-IsClean target =
      if_cases (IsClean line) (not line.dials) _ _
        (λ e. inr (inr (inl (ground arith, (dial_failed, refl)))))
        (λ e.
          if_cases (IsClean line) (line.has_deadline && not line.sets_deadline) _ _
            (λ f. inl (refl, (deadline_failed, refl)))
            (λ f.
              finish-IsClean
                (handshake net line c target (record { sent = []; left = line.incoming }))))
