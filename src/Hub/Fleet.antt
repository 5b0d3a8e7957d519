-- ===== src/Hub/Fleet.antt =====
-- The hub of internal/control/hub.go with the gateways at the other ends of its streams. Each gateway's
-- control client (internal/dataplane/control_client.go) handles the frame that it is sent, unless the
-- frame is lost, and its acknowledgement reaches the hub, unless that is lost.
use mathlib.Core.Option
use proxy_mesh.Prelude.{
  String, Bool, Option, none, some, List, [], ◌∷◌, ◌==◌, ◌≡◌, refl, string_eq, Result,
  if◌then◌else◌, any, eq_iff, inl, inr, ap, Bool-cases,
}
use proxy_mesh.Prelude.Map.{Map, lookup}
use proxy_mesh.Model.{DeviceRoute}
use proxy_mesh.SsConfig.{SsLibrary}
use proxy_mesh.Frame.{Frame}
use proxy_mesh.Client.{ControlClient, System, HandleError, handle, ack_of}
use proxy_mesh.Client.Phases.{prepare_frame, activate_frame}
use proxy_mesh.Hub.{Hub, Event, acked, deadline_passed, Traffic, ready_sessions, broadcast_and_wait}
use proxy_mesh.Hub.Deploy.{Deployed, deploy_route}

abbrev pub Fleet : Type 0
Fleet = Map String ControlClient

-- What becomes of a frame that is sent to a gateway: it is handled and the acknowledgement arrives in
-- time, it is handled and the acknowledgement does not, or it does not arrive.
pub data Reaction : Type 0 where
  answers : System → Reaction
  unheard : System → Reaction
  lost : Reaction

-- The network during one broadcast.
pub record Network : Type 0 where
  pub can_send : String → Bool
  pub reaction : String → Reaction

module _ (ss : SsLibrary) (error_text : HandleError → String) where
  unfoldable pub react : Frame → Reaction → ControlClient → ControlClient
  react f (answers sys) c = (handle ss sys c f).0
  react f (unheard sys) c = (handle ss sys c f).0
  react f lost c = c

  -- The fleet after a frame was sent to some of its gateways.
  unfoldable pub deliver : Frame → List String → (String → Reaction) → Fleet → Fleet
  deliver f sent reaction [] = []
  deliver f sent reaction ((id, c) ∷ fleet) =
      (id, if any (λ j. j == id) sent then react f (reaction id) c else c)
      ∷ deliver f sent reaction fleet

  -- What the hub receives on the session of a gateway.
  unfoldable pub event_of : Frame → Reaction → Option ControlClient → List Event
  event_of f (answers sys) (some c) = acked (ack_of error_text c f (handle ss sys c f)) ∷ []
  event_of f (answers sys) none = deadline_passed ∷ []
  event_of f (unheard sys) c = deadline_passed ∷ []
  event_of f lost c = deadline_passed ∷ []

  unfoldable pub traffic_of : Frame → Network → Fleet → Traffic
  traffic_of f net fleet = record {
    can_send = net.can_send;
    events = λ id. event_of f (net.reaction id) (lookup id fleet);
  }

  pub lookup-deliver :
      (f : Frame) (sent : List String) (reaction : String → Reaction) (fleet : Fleet) (id : String)
      → lookup id (deliver f sent reaction fleet)
        ≡ Option.map
            (λ c. if any (λ j. j == id) sent then react f (reaction id) c else c)
            (lookup id fleet)
  unfolding lookup deliver
  lookup-deliver f sent reaction [] id = refl
  lookup-deliver f sent reaction ((j, c) ∷ fleet) id = elim (Bool-cases (j == id)) [
    | inl here ↦ rw here (
        ap (λ x. some (if any (λ k. k == x) sent then react f (reaction x) c else c))
          ((eq_iff j id).0 here))
    | inr there ↦ rw there (lookup-deliver f sent reaction fleet id)
  ]

  -- The fleet after the first phase of a route deployment. The type of errors is that of the second one.
  module _ (E : Type 0) (h : Hub) (r : DeviceRoute) (request_id : String) (net : Network)
      (fleet : Fleet) where
    abbrev pub first_traffic : Traffic
    first_traffic = traffic_of (prepare_frame request_id r) net fleet

    abbrev pub prepared_fleet : Fleet
    prepared_fleet =
        let f = prepare_frame request_id r in
        deliver f (broadcast_and_wait {E = E} (ready_sessions h) f first_traffic).sent net.reaction
          fleet

  -- A route deployment over a fleet: the hub's outcome with the world, and the fleet at its end.
  module _ {E W : Type 0} (h : Hub) (r : DeviceRoute) (request_id : String) (net net' : Network)
      (commit : W → W × Result E (Unit {0})) (w : W) (fleet : Fleet) where
    unfoldable pub deploy_to_fleet : Deployed E W
    deploy_to_fleet =
        deploy_route h r request_id (first_traffic E h r request_id net fleet)
          (traffic_of (activate_frame request_id r) net'
            (prepared_fleet E h r request_id net fleet))
          commit w

    unfoldable pub deployed_fleet : Fleet
    unfolding deploy_to_fleet
    deployed_fleet =
        deliver (activate_frame request_id r) deploy_to_fleet.second.sent net'.reaction
          (prepared_fleet E h r request_id net fleet)
