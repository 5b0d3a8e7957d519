-- ===== src/Hub/Deploy.antt =====
-- DeployRoute, DeployDevice and the other broadcasts of internal/control/hub.go. `W` is the world that the
-- commit of a deployment changes.
use proxy_mesh.Prelude.{
  String, Bool, true, false, Option, none, some, List, [], ◌∷◌, Result, ok, err, if◌then◌else◌,
  is_empty, string_eq,
}
use proxy_mesh.Prelude.Map.{lookup, insert}
use proxy_mesh.Model.{Device, DeviceRoute}
use proxy_mesh.Frame.{
  Frame, zero_frame, type_prepare, type_activate, type_device_prepare, type_device_update,
  type_interrupt, type_set_draining,
}
use proxy_mesh.Hub.{
  Hub, HubError, no_ready_gateways, prepare_failed, commit_failed, not_found, Session, Traffic,
  Outcome, broadcast_and_wait, ready_sessions,
}

-- A deployment in two phases: what was broadcast in each, what the commit left of the world, the result.
pub record Deployed (E W : Type 0) : Type 0 where
  pub world : W
  pub first : Outcome E
  pub second : Outcome E
  pub result : Option (Result (HubError E) (Unit {0}))

abbrev pub silent : {E : Type 0} → Outcome E
silent = record { sent = []; rows = []; result = none }

-- A deployment that waits for ever in its first phase, and one that ends there.
abbrev stopped :
    {E W : Type 0} → W → Outcome E → Option (Result (HubError E) (Unit {0})) → Deployed E W
stopped w first result = record { world = w; first = first; second = silent; result = result }

module _ {E W : Type 0} where
  -- The second broadcast, after the commit.
  unfoldable pub second_phase :
      List Session → Frame → Traffic → Outcome E → W × Result E (Unit {0}) → Deployed E W
  second_phase ss f traffic first (w, err e) = stopped w first (some (err (commit_failed e)))
  second_phase ss f traffic first (w, ok _) =
      let second = broadcast_and_wait ss f traffic in
      record { world = w; first = first; second = second; result = second.result }

  -- What DeployRoute and DeployDevice do under the deployment lock with the sessions that are ready.
  unfoldable pub two_phase :
      List Session
      → Frame
      → Frame
      → Traffic
      → Traffic
      → (W → W × Result E (Unit {0}))
      → W
      → Deployed E W
  unfolding second_phase
  two_phase ss f f' traffic traffic' commit w =
      if is_empty ss
      then stopped w silent (some (err no_ready_gateways))
      else (let first = broadcast_and_wait ss f traffic in
          elim first.result [
            | none ↦ stopped w first none
            | some r ↦ elim r [
              | err e ↦ stopped w first (some (err (prepare_failed e)))
              | ok _ ↦ second_phase ss f' traffic' first (commit w)
            ]
          ])

  unfoldable pub deploy_route :
      Hub
      → DeviceRoute
      → String
      → Traffic
      → Traffic
      → (W → W × Result E (Unit {0}))
      → W
      → Deployed E W
  unfolding two_phase
  deploy_route h r request_id =
      two_phase (ready_sessions h)
        (record zero_frame { type = type_prepare; request_id = request_id; route = some r })
        (record zero_frame { type = type_activate; request_id = request_id; route = some r })

  unfoldable pub deploy_device :
      Hub → Device → String → Traffic → Traffic → (W → W × Result E (Unit {0})) → W → Deployed E W
  unfolding two_phase
  deploy_device h d request_id =
      two_phase (ready_sessions h)
        (record zero_frame { type = type_device_prepare; request_id = request_id; device = some d })
        (record zero_frame { type = type_device_update; request_id = request_id; device = some d })

abbrev bool_text : Bool → String
bool_text true = "true"
bool_text false = "false"

module _ {E : Type 0} where
  unfoldable pub broadcast_device : Hub → Device → String → Traffic → Outcome E
  broadcast_device h d request_id =
      broadcast_and_wait (ready_sessions h)
        (record zero_frame { type = type_device_update; request_id = request_id; device = some d })

  unfoldable pub interrupt : Hub → String → String → Traffic → Outcome E
  interrupt h device_id request_id =
      broadcast_and_wait (ready_sessions h) (record zero_frame {
        type = type_interrupt;
        request_id = request_id;
        device_id = device_id;
      })

  -- SetDraining: the session is not ready any more, whatever the answer is.
  unfoldable pub set_draining : Hub → String → Bool → String → Traffic → Hub × Outcome E
  set_draining h gateway_id draining request_id traffic = elim (lookup gateway_id h.sessions) [
    | none ↦ (h, record { sent = []; rows = []; result = some (err not_found) })
    | some s ↦
        let f = record zero_frame {
          type = type_set_draining;
          request_id = request_id;
          device_id = bool_text draining;
        } in
        (
          record h { sessions = insert gateway_id (record s { ready = false }) h.sessions },
          broadcast_and_wait (s ∷ []) f traffic,
        )
  ]
