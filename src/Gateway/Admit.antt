-- ===== src/Gateway/Admit.antt =====
-- handleShadowsocks of internal/dataplane/gateway.go, up to the relay, and the readiness of the health
-- handler. What the network does is an argument: the time, whether the wrapped connection exposes its
-- target, the target, and whether the upstream dial of a route to a target succeeds.
use proxy_mesh.Prelude.{
  ℕ, ◌+◌, ◌%◌, ◌^◌, String, Bool, true, false, not, ◌||◌, Option, none, some, ◌≡◌, if◌then◌else◌,
  ltb_ℤ, arith, string_eq,
}
use proxy_mesh.Model.{DeviceRoute, Time}
use proxy_mesh.Table.{by_device}
use proxy_mesh.Connections.{track, untrack}
use proxy_mesh.Connections.Counts.{IsCounted, size}
use proxy_mesh.Gateway.{Gateway, Listener, ready}

pub record Client : Type 0 where
  pub now : Time
  pub exposes_target : Bool
  pub target : Option String
  pub dial : DeviceRoute → String → Bool
  pub cancel : ℕ

pub data Outcome : Type 0 where
  refused : Outcome
  no_target : Outcome
  dial_failed : DeviceRoute → Outcome
  relayed : DeviceRoute → ℕ → Outcome

abbrev is_expired : Option Time → Time → Bool
is_expired none now = false
is_expired (some t) now = ltb_ℤ t now

-- A uint64 counter.
abbrev pub count_up : ℕ → ℕ
count_up n = (n + 1) % 2 ^ 64

-- The connection is tracked, then the upstream is dialled; a failed dial untracks it again.
unfoldable pub dial_upstream : Gateway → Client → DeviceRoute → String → Gateway × Outcome
dial_upstream g c route target =
    let tracked = track g.connections route.device_id c.cancel in
    if c.dial route target
    then (
      record g { connections = tracked.0; connect_ok = count_up g.connect_ok },
      relayed route tracked.1,
    )
    else (
      record g {
        connections = untrack tracked.0 route.device_id tracked.1;
        connect_failed = count_up g.connect_failed;
      },
      dial_failed route,
    )

unfoldable pub handshake : Gateway → Client → DeviceRoute → Gateway × Outcome
unfolding dial_upstream
handshake g c route =
    if not c.exposes_target
    then (record g { connect_failed = count_up g.connect_failed }, no_target)
    else elim c.target [
      | none ↦ (record g { connect_failed = count_up g.connect_failed }, no_target)
      | some target ↦ dial_upstream g c route target
    ]

unfoldable pub handle_shadowsocks : Gateway → Listener → Client → Gateway × Outcome
unfolding handshake
handle_shadowsocks g l c =
    if not (ready g) || not l.active then (g, refused) else elim (by_device g.table l.device_id) [
      | none ↦ (g, refused)
      | some route ↦
          if is_expired route.credential.expires_at c.now then (g, refused) else handshake g c route
    ]

-- The status that GET /ready answers with.
unfoldable pub ready_status : Gateway → ℕ
ready_status g = if ready g then 200 else 503

-- The client names a target, and the upstream of the route reaches it.
abbrev pub Reaches : Client → DeviceRoute → Option String → Type 0
Reaches c r none = ⊥
Reaches c r (some target) = c.dial r target ≡ true

abbrev pub Allowed : Gateway → Listener → Client → Outcome → Type 0
Allowed g l c refused = Unit
Allowed g l c no_target = Unit
Allowed g l c (dial_failed r) = Unit
Allowed g l c (relayed r id) =
    (ready g ≡ true)
    × (l.active ≡ true)
    × (by_device g.table l.device_id ≡ some r)
    × (is_expired r.credential.expires_at c.now ≡ false)
    × Reaches c r c.target

-- A relay is only set up by a gateway that is ready, on an active listener, over the route that the table
-- serves for the listener's device, with a credential that has not expired, and to a target that the
-- upstream of the route reaches.
pub handle_shadowsocks-Allowed :
    (g : Gateway) (l : Listener) (c : Client) → Allowed g l c (handle_shadowsocks g l c).1
unfolding handle_shadowsocks
handle_shadowsocks-Allowed g l c = ground arith

abbrev pub is_relayed : Outcome → Bool
is_relayed refused = false
is_relayed no_target = false
is_relayed (dial_failed r) = false
is_relayed (relayed r id) = true

abbrev pub Counts : Gateway → Gateway × Outcome → Type 0
Counts g (g', o) =
    IsCounted g'.connections
    × (size g'.connections.by_device
        ≡ size g.connections.by_device + (if is_relayed o then 1 else 0))
