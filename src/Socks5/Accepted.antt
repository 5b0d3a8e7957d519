-- ===== src/Socks5/Accepted.antt =====
-- What the server has answered when DialSOCKS5 of internal/proxy/socks5.go gives a connection.
use proxy_mesh.Prelude.{
  granted_if, if_cases, ltb, not, ◌&&◌, ◌||◌, ℕ, Option, none, some, [], ◌∷◌, ◌++◌, ◌==◌, nat_eq,
  ok, err, ◌≡◌, sym, ◌∙◌, ap, ok-injective, length,
}
use proxy_mesh.Prelude.Bytes.{Bytes}
use proxy_mesh.Socks5.{
  Socks5Config, Net, Line, Dialed, Exchange, Step, write, receive, byte_at, method, negotiate,
  authenticate, make_request, read_reply, handshake, finish, deadline_failed, credentials_rejected,
  auth_message, is_some, checked_port, request_for, with_port, with_target, dial_socks5, greeting,
  method_rejected,
}
use proxy_mesh.Socks5.Steps.{then-ok, write-left, receive-split, four_bytes, both_equal}
use proxy_mesh.Socks5.Bound.{auth_reply, IsBound, reply-ok, IsBound-ok}

module _ (net : Net) (line : Line) (c : Socks5Config) where
  negotiate-ok :
      (x : Exchange) {y : Exchange} {u : Unit {0}}
      → negotiate net line c x ≡ (y, ok u)
      → 5 ∷ method c ∷ y.left ≡ x.left
  unfolding negotiate
  negotiate-ok x h =
      let sent = then-ok (write (line.writes 0) (greeting c) x) _ h in
      reply-ok method_rejected 5 (method c) sent.0 sent.3
      ∙ sym (write-left (line.writes 0) (greeting c) x sent.2)

  authenticate-ok :
      (x : Exchange) {y : Exchange} {u : Unit {0}}
      → authenticate net line c x ≡ (y, ok u)
      → auth_reply c ++ y.left ≡ x.left
  unfolding authenticate
  authenticate-ok x {y = y} {u = u} h =
      if_cases (λ (w : Step (Unit {0})). w ≡ (y, ok u) → auth_reply c ++ y.left ≡ x.left)
        (not (method c == 2)) _ _ (λ e h. rw e (sym (ap (λ w. w.0.left) h)))
        (λ e.
          if_cases (λ (w : Step (Unit {0})). w ≡ (y, ok u) → auth_reply c ++ y.left ≡ x.left)
            (ltb 255 (length c.username) || ltb 255 (length c.password)) _ _
            (λ f h. absurd (cc (ap (λ w. w.1) h)))
            (λ f h.
              let sent = then-ok (write (line.writes 1) (auth_message c) x) _ h in
              rw e (
                reply-ok credentials_rejected 1 0 sent.0 sent.3
                ∙ sym (write-left (line.writes 1) (auth_message c) x sent.2))))
        h

  request_for-ok :
      (host : Bytes) (port : ℕ) (x : Exchange) {y : Exchange} {message : Bytes}
      → request_for net line c host port x ≡ (y, ok message)
      → y.left ≡ x.left
  request_for-ok host port x {y = y} {message = message} h =
      if_cases (λ (w : Step Bytes). w ≡ (y, ok message) → y.left ≡ x.left)
        (not (is_some (net.parse_ip host)) && ltb 255 (length host)) _ _
        (λ e h. absurd (cc (ap (λ w. w.1) h))) (λ e h. sym (ap (λ w. w.0.left) h)) h

  with_port-ok :
      (host : Bytes) (x : Exchange) (port : Option ℕ) {y : Exchange} {message : Bytes}
      → with_port net line c host x port ≡ (y, ok message)
      → y.left ≡ x.left
  with_port-ok host x none h = absurd (cc (ap (λ w. w.1) h))
  with_port-ok host x (some port) h = request_for-ok host port x h

  with_target-ok :
      (x : Exchange) (target : Option (Bytes × Bytes)) {y : Exchange} {message : Bytes}
      → with_target net line c x target ≡ (y, ok message)
      → y.left ≡ x.left
  with_target-ok x none h = absurd (cc (ap (λ w. w.1) h))
  with_target-ok x (some (host, text)) h = with_port-ok host x (checked_port (net.atoi text)) h

  make_request-ok :
      (target : Bytes) (x : Exchange) {y : Exchange} {message : Bytes}
      → make_request net line c target x ≡ (y, ok message)
      → y.left ≡ x.left
  unfolding make_request
  make_request-ok target x h = with_target-ok x (net.split_host_port target) h

  read_reply-ok :
      (x : Exchange) {y : Exchange} {u : Unit {0}}
      → read_reply net line c x ≡ (y, ok u)
      → (reserved : ℕ) × (t : ℕ) × (bound : Bytes) × (5 ∷ 0 ∷ reserved ∷ t ∷ bound ++ y.left
          ≡ x.left)
        × IsBound t bound
  unfolding read_reply
  read_reply-ok x {y = y} {u = u} h =
      let head = then-ok (receive 4 x) _ h in
      if_cases
        (λ (w : Step (Unit {0})).
          w ≡ (y, ok u)
          → (reserved : ℕ) × (t : ℕ) × (bound : Bytes) × (5 ∷ 0 ∷ reserved ∷ t ∷ bound ++ y.left
              ≡ x.left)
            × IsBound t bound)
        (not (byte_at 0 head.1 == 5) || not (byte_at 1 head.1 == 0)) _ _
        (λ e h. absurd (cc (ap (λ w. w.1) h)))
        (λ e h.
          let split = receive-split 4 x head.2 in
          let bytes = both_equal (byte_at 0 head.1) (byte_at 1 head.1) 5 0 e in
          let bound = IsBound-ok (byte_at 3 head.1) head.0 h in
          let read : 5 ∷ 0 ∷ byte_at 2 head.1 ∷ byte_at 3 head.1 ∷ [] ≡ head.1 =
            (λ i. sym bytes.0 i ∷ sym bytes.1 i ∷ byte_at 2 head.1 ∷ byte_at 3 head.1 ∷ [])
            ∙ four_bytes head.1 split.0 in
          (
            byte_at 2 head.1,
            byte_at 3 head.1,
            bound.0,
            ap (λ r. 5 ∷ 0 ∷ byte_at 2 head.1 ∷ byte_at 3 head.1 ∷ r) bound.1
                ∙ ap (λ r. r ++ head.0.left) read
                ∙ split.1,
            bound.2,
          ))
        head.3

  -- What the server has sent when the handshake succeeds: the method that was asked for, the acceptance of
  -- the credentials if there are any, and a reply of success with an address of its type; `rest` follows.
  pub record HasAccepted (incoming rest : Bytes) : Type 0 where
    pub reserved : ℕ
    pub address_type : ℕ
    pub bound : Bytes
    pub replies :
        5 ∷ method c ∷ auth_reply c ++ (5 ∷ 0 ∷ reserved ∷ address_type ∷ bound ++ rest) ≡ incoming
    pub is_bound : IsBound address_type bound

  handshake-HasAccepted :
      (target : Bytes) (x : Exchange) {y : Exchange} {u : Unit {0}}
      → handshake net line c target x ≡ (y, ok u)
      → HasAccepted x.left y.left
  unfolding handshake
  handshake-HasAccepted target x h =
      let negotiated = then-ok (negotiate net line c x) _ h in
      let authenticated = then-ok (authenticate net line c negotiated.0) _ negotiated.3 in
      let made = then-ok (make_request net line c target authenticated.0) _ authenticated.3 in
      let sent = then-ok (write (line.writes 2) made.1 made.0) _ made.3 in
      let replied = read_reply-ok sent.0 sent.3 in
      record {
        reserved = replied.0;
        address_type = replied.1;
        bound = replied.2;
        replies =
            ap (λ r. 5 ∷ method c ∷ auth_reply c ++ r)
              (replied.3
                ∙ sym (write-left (line.writes 2) made.1 made.0 sent.2)
                ∙ make_request-ok target authenticated.0 made.2)
            ∙ ap (λ r. 5 ∷ method c ∷ r) (authenticate-ok negotiated.0 authenticated.2)
            ∙ negotiate-ok x negotiated.2;
        is_bound = replied.4;
      }

  finish-ok :
      (w : Step (Unit {0})) {rest : Bytes}
      → (finish net line c w).result ≡ ok rest
      → (w ≡ (record { sent = w.0.sent; left = rest }, ok tt))
  finish-ok (x, err e) h = absurd (cc)
  finish-ok (x, ok d) h =
      let same = ok-injective (granted_if line.resets_deadline deadline_failed (ok x.left) h).1 in
      λ i. (record { sent = x.sent; left = same i }, ok d)

  -- A call of DialSOCKS5 gives a connection only if the server has taken the method and the credentials and
  -- reports success, and the reader of the connection then has left what follows the reply: no byte of the
  -- target is lost, and none of the replies is left.
  pub dial_socks5-HasAccepted :
      (target : Bytes) {rest : Bytes}
      → (dial_socks5 net line c target).result ≡ ok rest
      → HasAccepted line.incoming rest
  unfolding dial_socks5
  dial_socks5-HasAccepted target {rest = rest} h =
      if_cases (λ (d : Dialed). d.result ≡ ok rest → HasAccepted line.incoming rest)
        (not line.dials) _ _ (λ e h. absurd (cc))
        (λ e.
          if_cases (λ (d : Dialed). d.result ≡ ok rest → HasAccepted line.incoming rest)
            (line.has_deadline && not line.sets_deadline) _ _ (λ f h. absurd (cc))
            (λ f h.
              handshake-HasAccepted target (record { sent = []; left = line.incoming })
                (finish-ok
                  (handshake net line c target (record { sent = []; left = line.incoming })) h)))
        h
