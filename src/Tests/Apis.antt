-- ===== src/Tests/Apis.antt =====
-- The handlers of internal/control/api.go on the store with one device and a fleet of one gateway.
use proxy_mesh.Prelude.{
  false, some, ℕ, pos, ◌+ℤ◌, String, true, [], ◌∷◌, ◌≡◌, refl, arith, differ, string_eq, int_eq,
}
use proxy_mesh.Prelude.Map.{lookup, insert, delete}
use proxy_mesh.Model.{device_ingresses, route_ingresses}
use proxy_mesh.SsConfig.{validate}
use proxy_mesh.Table.{load, load_active, new_table, snapshot, is_loaded, prepare, activate}
use proxy_mesh.Gateway.{
  ready, new_gateway, reconcile_listeners, prepare_device, prepare_listener, desired_routes,
  add_ingresses, sweep, start_all, start_listener, prepare_ingresses, prepare_ingress,
  validate_route,
}
use proxy_mesh.Client.{
  ControlClient, HandleError, handle, handle_snapshot, handle_prepare, handle_activate, ack_of,
}
use proxy_mesh.Hub.{
  ready_sessions, broadcast_and_wait, send_all, wait_all, wait_session, deployments,
}
use proxy_mesh.Hub.Deploy
use proxy_mesh.Hub.Deploy.{two_phase, second_phase}
use proxy_mesh.Hub.Fleet.{
  Fleet, Network, answers, deploy_to_fleet, deliver, react, event_of, traffic_of,
}
use proxy_mesh.Store.{Memory, Held, new_memory, stage_route, activate_route, version_of}
use proxy_mesh.Store
use proxy_mesh.Api.{Api, Deploying, Served, Others, deploy_route, deploy_staged}
use proxy_mesh.Api.Routes.{Agrees, ServedBy, deploy_route-Active, deploy_route-Agrees}
use proxy_mesh.Store.Routes.{activated}
use proxy_mesh.Api.Devices.{CreateDevice, Draws, create_device, create_on_free_port}
use proxy_mesh.Api.Devices.Created.{
  Created, create_device-Created, IsStored, create_on_free_port-succeeds,
}
use proxy_mesh.Tests.Fixtures.{any_ss, phone, phone_route, client, working, snapshot_frame}

abbrev pub one_device : Memory ℕ
one_device = (Store.create_device new_memory phone).0

abbrev synced : ControlClient
synced = (handle any_ss working client snapshot_frame).0

abbrev pub fleet : Fleet
fleet = ("gw", synced) ∷ []

abbrev pub text : HandleError → String
text e = "failed"

abbrev net : Network
net = record { can_send = λ id. true; reaction = λ id. answers working }

abbrev pub deploying : Deploying
deploying = record {
  hub = record {
    sessions = ("gw", record { id = "gw"; key = 0; ready = true }) ∷ [];
    next_key = 1;
  };
  request_id = "1";
  prepare_net = net;
  activate_net = net;
}

-- No other request comes in between.
abbrev pub undisturbed : Others ℕ
undisturbed = record {
  before_device = λ m. m;
  before_stage = λ m. m;
  before_activate = λ m. m;
  before_lock = λ fleet. fleet;
}

deploy_route-Agrees_example :
    (version_of (lookup "phone" one_device.routes) ≡ pos 0)
    × Agrees deploying (phone_route (pos 2)) true (
        deploy_route any_ss text undisturbed one_device fleet deploying
          (phone_route (pos 2))
          true
          (pos 0))
unfolding deploy_route deploy_staged stage_route activate_route Store.create_device deploy_to_fleet
    Deploy.deploy_route two_phase second_phase broadcast_and_wait send_all wait_all wait_session
    ready_sessions traffic_of event_of deliver react deployments handle handle_snapshot
    handle_prepare handle_activate ready reconcile_listeners desired_routes add_ingresses sweep
    start_all start_listener new_gateway snapshot load load_active new_table insert route_ingresses
    lookup validate delete prepare_listener prepare_device prepare_ingresses prepare_ingress
    validate_route prepare activate is_loaded device_ingresses ack_of
deploy_route-Agrees_example =
    deploy_route-Agrees any_ss text (λ e. differ "failed" "" refl) undisturbed one_device fleet
      deploying (phone_route (pos 2)) true (pos 0) refl refl

-- Another request stages a route of the same version between the staging and the activation.
abbrev pub disturbed : Others ℕ
disturbed = record undisturbed {
  before_activate = λ m. (stage_route m (phone_route (pos 2)) false (pos 0)).0;
}

abbrev disturbed_run : Served ℕ
disturbed_run =
    deploy_route any_ss text disturbed one_device fleet deploying (phone_route (pos 2)) true (pos 0)

deploy_route-Active_example :
    (version_of (lookup "phone" one_device.routes) ≡ pos 0)
    × ((h : Held) × (lookup "phone"
            (disturbed.before_activate
              (stage_route one_device (phone_route (pos 2)) true (pos 0)).0).pending
          ≡ some h)
        × (h.route.version ≡ pos 2)
        × (lookup "phone" disturbed_run.store.routes ≡ some (activated h)))
    × ServedBy deploying (phone_route (pos 2)) disturbed_run
unfolding deploy_route deploy_staged stage_route activate_route Store.create_device deploy_to_fleet
    Deploy.deploy_route two_phase second_phase broadcast_and_wait send_all wait_all wait_session
    ready_sessions traffic_of event_of deliver react deployments handle handle_snapshot
    handle_prepare handle_activate ready reconcile_listeners desired_routes add_ingresses sweep
    start_all start_listener new_gateway snapshot load load_active new_table insert route_ingresses
    lookup validate delete prepare_listener prepare_device prepare_ingresses prepare_ingress
    validate_route prepare activate is_loaded device_ingresses ack_of
deploy_route-Active_example =
    deploy_route-Active any_ss text (λ e. differ "failed" "" refl) disturbed one_device fleet
      deploying (phone_route (pos 2)) true (pos 0) refl

abbrev draws : Draws
draws = record { token = "device-1"; password = "generated"; port = λ k. k }

abbrev ports : Api
ports = record { ingress_port_start = pos 50000; ingress_port_end = pos 59999 }

abbrev request : CreateDevice
request = record { id = "tablet"; method = ""; password = ""; listen_port = pos 4000 }

-- The draws of the example stay on the first ports of the range.
abbrev first_ports : Draws
first_ports = record draws { port = λ k. 7 }

create_device-Created_example :
    Created any_ss one_device (create_device any_ss ports first_ports (pos 5) request one_device)
unfolding ◌+ℤ◌
create_device-Created_example =
    create_device-Created any_ss ports first_ports (pos 5) (ground arith) (ground arith)
      (λ k. ground arith) request one_device

create_on_free_port-succeeds_example :
    IsStored new_memory ports draws.port phone
      (create_on_free_port ports draws.port phone 0 63 (new_memory {F = ℕ}))
unfolding Store.create_device lookup
create_on_free_port-succeeds_example =
    create_on_free_port-succeeds ports draws.port phone 0 63 2 new_memory (ground arith) refl
