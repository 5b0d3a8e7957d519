-- ===== src/Tests/Clients.antt =====
-- The control client of internal/dataplane/control_client.go, and a fleet of one gateway under the hub of
-- internal/control/hub.go.
use proxy_mesh.Prelude.{
  true, ℕ, suc, pos, String, true, List, [], ◌∷◌, ◌≡◌, ◌⊎◌, refl, ok, Result, differ, string_eq,
  int_eq,
}
use proxy_mesh.Prelude.Map.{lookup, insert, delete}
use proxy_mesh.Model.{device_ingresses, route_ingresses}
use proxy_mesh.Frame.{type_register, Frame}
use proxy_mesh.SsConfig.{validate}
use proxy_mesh.Table.{load, load_active, new_table, snapshot, is_loaded, prepare, activate}
use proxy_mesh.Gateway.{
  ready, new_gateway, reconcile_listeners, prepare_device, prepare_listener, desired_routes,
  add_ingresses, sweep, start_all, start_listener, prepare_ingresses, prepare_ingress,
  validate_route,
}
use proxy_mesh.Client.{
  ControlClient, System, HandleError, handle, handle_snapshot, handle_prepare, handle_activate,
  run_frames,
}
use proxy_mesh.Client.Phases.{prepare_frame, activate_frame}
use proxy_mesh.Client.Consistent.{ServesClaims, run_frames-ServesClaims}
use proxy_mesh.Hub.Sessions.{connect, disconnect, disconnect-connect-connect}
use proxy_mesh.Hub.{Hub, Session, Traffic, acked}
use proxy_mesh.Hub.Fleet.{Fleet, Network, answers, deploy_to_fleet, deployed_fleet}
use proxy_mesh.Hub.Agreement.{served, deploy_to_fleet-aborted}
use proxy_mesh.Tests.Fixtures.{any_ss, phone_route, client, working, snapshot_frame}

abbrev pub frames : List (System × Frame)
frames =
    (working, snapshot_frame)
    ∷ (working, prepare_frame "1" (phone_route (pos 2)))
    ∷ (working, activate_frame "2" (phone_route (pos 2)))
    ∷ []

run_frames-ServesClaims_example : ServesClaims (pos 2000) (run_frames any_ss client frames).gateway
unfolding run_frames handle handle_snapshot handle_prepare handle_activate ready reconcile_listeners
    desired_routes add_ingresses sweep start_all start_listener new_gateway snapshot load
    load_active new_table insert route_ingresses lookup validate delete prepare_listener
    prepare_device prepare_ingresses prepare_ingress validate_route prepare activate is_loaded
    device_ingresses
run_frames-ServesClaims_example = run_frames-ServesClaims any_ss client frames (pos 2000) refl refl

abbrev synced : ControlClient
synced = (handle any_ss working client snapshot_frame).0

abbrev hub : Hub
hub = record { sessions = ("gw", record { id = "gw"; key = 0; ready = true }) ∷ []; next_key = 1 }

abbrev text : HandleError → String
text e = "failed"

abbrev net : Network
net = record { can_send = λ id. true; reaction = λ id. answers working }

abbrev save : ℕ → ℕ × Result String (Unit {0})
save w = (suc w, ok tt)

abbrev fleet : Fleet
fleet = ("gw", synced) ∷ []

deploy_to_fleet-aborted_example :
    (((deploy_to_fleet any_ss text hub (phone_route (pos 1)) "1" net net save 0 fleet).world ≡ 0)
      × (served
            (lookup "gw"
              (deployed_fleet any_ss text hub (phone_route (pos 1)) "1" net net save 0 fleet))
            "phone"
          ≡ served (lookup "gw" fleet) "phone"))
    ⊎ (((deploy_to_fleet any_ss text hub (phone_route (pos 1)) "1" net net save 0 fleet).world
          ≡ (save 0).0)
        × (((save 0).1 ≡ ok tt)
            ⊎ (served
                  (lookup "gw"
                    (deployed_fleet any_ss text hub (phone_route (pos 1)) "1" net net save 0 fleet))
                  "phone"
                ≡ served (lookup "gw" fleet) "phone")))
deploy_to_fleet-aborted_example =
    deploy_to_fleet-aborted any_ss text (λ e. differ "failed" "" refl) hub (phone_route (pos 1)) "1"
      net net save 0 fleet "gw" "phone"

abbrev session : Session
session = record { id = "gw"; key = 0; ready = true }

-- The gateway accepts the frame after an answer to another request, and after it is asked it rejects one.
abbrev traffic : Traffic
traffic = record {
  can_send = λ id. true;
  events = λ id.
      acked (record snapshot_frame { request_id = "other"; error = "failed" })
      ∷ acked (record snapshot_frame { request_id = "1" })
      ∷ [];
}

abbrev prepares_phone : Frame
prepares_phone = prepare_frame "1" (phone_route (pos 2))

abbrev activates_phone : Frame
activates_phone = activate_frame "1" (phone_route (pos 2))

abbrev registers : Frame
registers = record snapshot_frame { type = type_register; gateway_id = "gw" }

disconnect-connect-connect_example :
    disconnect
      (connect (connect hub registers).0 registers).0
      (record { id = "gw"; key = 1; ready = true })
    ≡ (connect (connect hub registers).0 registers).0
disconnect-connect-connect_example =
    disconnect-connect-connect hub registers registers true refl refl (differ "gw" "" refl) refl
