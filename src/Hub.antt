-- ===== src/Hub.antt =====
-- The hub of the control plane: internal/control/hub.go. A session's channels are not part of the state:
-- what a select on them receives, in its order, is the `Traffic` of a broadcast. A broadcast that has no
-- event left to receive is still waiting, and has no result.
pub mod Deploy
pub mod Broadcast
pub mod Sessions
pub mod Fleet
pub mod Agreement
use proxy_mesh.Prelude.{
  ℕ, ◌+◌, String, Bool, true, false, not, ◌&&◌, ◌||◌, Option, none, some, List, [], ◌∷◌, ◌++◌, ◌==◌,
  string_eq, nat_eq, ℤ, Result, ok, err, if◌then◌else◌, is_empty,
}
use proxy_mesh.Prelude.Map.{Map, lookup, values}
use proxy_mesh.Model.{DeviceRoute}
use proxy_mesh.Frame.{Frame, type_prepare, type_activate}

-- `key` tells apart the sessions that a gateway opens one after the other (pointers in the source).
pub record Session : Type 0 where
  pub id : String
  pub key : ℕ
  pub ready : Bool

-- A row of RecordRouteDeployment.
pub record Deployment : Type 0 where
  pub device_id : String
  pub version : ℤ
  pub gateway_id : String
  pub phase : String
  pub success : Bool
  pub message : String

pub record Hub : Type 0 where
  pub sessions : Map String Session
  pub next_key : ℕ

pub data HubError (E : Type 0) : Type 0 where
  no_ready_gateways : HubError E
  rejected : String → String → HubError E
  ack_timeout : String → HubError E
  context_done : HubError E
  disconnected : String → HubError E
  prepare_failed : HubError E → HubError E
  commit_failed : E → HubError E
  not_found : HubError E

-- What the select of a waiting session receives.
pub data Event : Type 0 where
  acked : Frame → Event
  deadline_passed : Event
  context_cancelled : Event
  session_done : Event

-- What happens during one broadcast: for each session, whether the frame gets into its send channel
-- before the context ends, and what is received while waiting for it.
pub record Traffic : Type 0 where
  pub can_send : String → Bool
  pub events : String → List Event

abbrev is_recorded : Frame → Bool
is_recorded f = f.type == type_prepare || f.type == type_activate

abbrev deployment_of : DeviceRoute → Frame → String → Bool → String → Deployment
deployment_of r f id success message = record {
  device_id = r.device_id;
  version = r.version;
  gateway_id = id;
  phase = f.type;
  success = success;
  message = message;
}

-- recordDeployment: the rows that it writes.
unfoldable pub deployments : Frame → String → Bool → String → List Deployment
deployments f id success message = elim f.route [
  | none ↦ []
  | some r ↦ if not (is_recorded f) then [] else deployment_of r f id success message ∷ []
]

-- One broadcast: the sessions that were sent the frame, the rows written, and the result.
pub record Outcome (E : Type 0) : Type 0 where
  pub sent : List String
  pub rows : List Deployment
  pub result : Option (Result (HubError E) (Unit {0}))

-- The loop that sends: the sessions that were sent the frame, and whether that is all of them.
unfoldable pub send_all : List Session → (String → Bool) → List String × Bool
send_all [] can_send = ([], true)
send_all (s ∷ ss) can_send =
    let rest = send_all ss can_send in
    if can_send s.id then (s.id ∷ rest.0, rest.1) else ([], false)

module _ {E : Type 0} where
  -- The loop that waits for one session.
  unfoldable pub wait_session :
      Frame → String → List Event → List Deployment × Option (Result (HubError E) (Unit {0}))
  wait_session f id [] = ([], none)
  wait_session f id (acked ack ∷ events) =
      let rest = wait_session f id events in
      if not (ack.request_id == f.request_id)
      then rest
      else if not (ack.error == "")
      then (deployments f id false ack.error, some (err (rejected id ack.error)))
      else (deployments f id true "", some (ok tt))
  wait_session f id (deadline_passed ∷ events) =
      (deployments f id false "acknowledgement timeout", some (err (ack_timeout id)))
  wait_session f id (context_cancelled ∷ events) = ([], some (err context_done))
  wait_session f id (session_done ∷ events) =
      (deployments f id false "gateway disconnected", some (err (disconnected id)))

  unfoldable pub wait_all :
      Frame
      → List Session
      → (String → List Event)
      → List Deployment × Option (Result (HubError E) (Unit {0}))
  wait_all f [] events = ([], some (ok tt))
  wait_all f (s ∷ ss) events =
      let one = wait_session f s.id (events s.id) in
      let rest = wait_all f ss events in
      elim one.1 [ none ↦ one | some r ↦ elim r [ err e ↦ one | ok _ ↦ (one.0 ++ rest.0, rest.1) ] ]

  unfoldable pub broadcast_and_wait : List Session → Frame → Traffic → Outcome E
  broadcast_and_wait ss f traffic =
      let sending = send_all ss traffic.can_send in
      let waited = wait_all f ss traffic.events in
      if is_empty ss
      then record { sent = []; rows = []; result = some (err no_ready_gateways) }
      else if not sending.1
      then record { sent = sending.0; rows = []; result = some (err context_done) }
      else record { sent = sending.0; rows = waited.0; result = waited.1 }

abbrev pub only_ready : List Session → List Session
only_ready [] = []
only_ready (s ∷ ss) = if s.ready then s ∷ only_ready ss else only_ready ss

unfoldable pub ready_sessions : Hub → List Session
ready_sessions h = only_ready (values h.sessions)
