-- ===== src/Hub/Sessions.antt =====
-- The sessions of internal/control/hub.go: how a gateway gets ready, and how its session ends.
use proxy_mesh.Prelude.{
  arith, eq_iff, refl, sym, ◌∙◌, ◌≡◌, ◌≢◌, ℕ, ◌+◌, Bool, false, not, ◌||◌, Option, none, some, ◌==◌,
  string_eq, nat_eq, if◌then◌else◌,
}
use proxy_mesh.Prelude.Map.{lookup-insert, lookup, insert, delete}
use proxy_mesh.Model.{Gateway, Time, gateway_ready}
use proxy_mesh.Frame.{Frame, type_register}
use proxy_mesh.Hub.{Hub, Session}

-- Connect: the first frame registers the gateway, and its session takes the place of an older one. The snapshot
-- that is then sent, and the loop that follows it, are not modelled.
unfoldable pub connect : Hub → Frame → Hub × Option Session
connect h first =
    if not (first.type == type_register) || first.gateway_id == ""
    then (h, none)
    else (let s : Session = record { id = first.gateway_id; key = h.next_key; ready = false } in
        (
          record { sessions = insert first.gateway_id s h.sessions; next_key = h.next_key + 1 },
          some s,
        ))

abbrev is_current : Option Session → ℕ → Bool
is_current none key = false
is_current (some s) key = s.key == key

-- What is deferred to the end of Connect.
unfoldable pub disconnect : Hub → Session → Hub
disconnect h s =
    if is_current (lookup s.id h.sessions) s.key
    then record h { sessions = delete s.id h.sessions }
    else h

-- A heartbeat on the stream of a session: the hub, and the row for UpsertGateway.
unfoldable pub receive_heartbeat : Hub → Session → Frame → Time → Hub × Option Gateway
receive_heartbeat h s f now = elim f.heartbeat [
  | none ↦ (h, none)
  | some g ↦ (
    if is_current (lookup s.id h.sessions) s.key
        then record h {
          sessions = insert s.id (record s { ready = g.status == gateway_ready }) h.sessions;
        }
        else h,
    some (record g { id = s.id; last_heartbeat_at = now }),
  )
]

-- The session that Connect makes of a first frame.
abbrev pub session_of : Hub → Frame → Session
session_of h first = record { id = first.gateway_id; key = h.next_key; ready = false }

connect-registered :
    (h : Hub) (first : Frame)
    → first.type ≡ type_register
    → first.gateway_id ≢ ""
    → connect h first ≡ (
      record {
        sessions = insert first.gateway_id (session_of h first) h.sessions;
        next_key = h.next_key + 1;
      },
      some (session_of h first),
    )
unfolding connect
connect-registered h first e n =
    ground (arith, eq_iff first.type type_register, eq_iff first.gateway_id "", e, n)

disconnect-stale :
    (h : Hub) (s : Session) → is_current (lookup s.id h.sessions) s.key ≡ false → disconnect h s ≡ h
unfolding disconnect
disconnect-stale h s e = rw (e, disconnect) refl

-- When a gateway with an id registers again before its older stream has ended, the end of that stream leaves the new
-- session in place, whatever the older session has become.
pub disconnect-connect-connect :
    (h : Hub) (first again : Frame) (ready : Bool)
    → first.type ≡ type_register
    → again.type ≡ type_register
    → first.gateway_id ≢ ""
    → again.gateway_id ≡ first.gateway_id
    → let h' = (connect h first).0 in
      let h″ = (connect h' again).0 in
      disconnect h″ (record (session_of h first) { ready = ready }) ≡ h″
disconnect-connect-connect h first again ready e e' n same =
    let h' : Hub = record {
      sessions = insert first.gateway_id (session_of h first) h.sessions;
      next_key = h.next_key + 1;
    } in
    let n' : again.gateway_id ≢ "" = λ x. n (sym same ∙ x) in
    rw (connect-registered h first e n) (
      rw (connect-registered h' again e' n') (
        disconnect-stale _ (record (session_of h first) { ready = ready })
          (ground (
            arith,
            same,
            eq_iff again.gateway_id first.gateway_id,
            lookup-insert again.gateway_id first.gateway_id (session_of h' again) h'.sessions,
          ))))
