-- ===== src/Api.antt =====
-- The HTTP handlers of internal/control/api.go on the store in memory and a fleet of gateways. A request is
-- the record of its decoded body; a response is its status. Random tokens, the clock and what
-- becomes of the hub's frames are arguments.
pub mod Routes
pub mod Ranges
pub mod Devices
pub mod Ingresses
pub mod Providers
pub mod Status
pub mod Auth
use proxy_mesh.Prelude.{
  ℕ, ℤ, pos, ◌+ℤ◌, String, Bool, true, false, ◌||◌, ◌&&◌, not, Option, none, some, [], ◌==◌,
  string_eq, int_eq, ltb_ℤ, leb_ℤ, if◌then◌else◌, Result, ok, err,
}
use proxy_mesh.Model.{Device, DeviceRoute, Time, route_pending}
use proxy_mesh.SsConfig.{SsLibrary}
use proxy_mesh.Client.{HandleError}
use proxy_mesh.Hub.{Hub, HubError}
use proxy_mesh.Hub.Fleet.{Fleet, Network, deploy_to_fleet, deployed_fleet}
use proxy_mesh.Store.{
  Memory, StoreError, not_found, conflict, panicked, stage_route, activate_route, get_device,
}

-- The ports that the handlers choose from.
pub record Api : Type 0 where
  pub ingress_port_start : ℤ
  pub ingress_port_end : ℤ

unfoldable pub new_api : Api
new_api = record { ingress_port_start = pos 50000; ingress_port_end = pos 59999 }

unfoldable pub set_ingress_port_range : Api → ℤ → ℤ → Api
set_ingress_port_range a start end =
    if leb_ℤ (pos 1024) start && leb_ℤ start end && leb_ℤ end (pos 65535)
    then record a { ingress_port_start = start; ingress_port_end = end }
    else a

-- writeStoreError. A panic is no error: it is given the status of the other errors.
abbrev pub store_status : StoreError → ℕ
store_status not_found = 404
store_status conflict = 409
store_status panicked = 500

-- The status after a deployment: none while it waits.
abbrev pub deploy_status : {E : Type 0} → Option (Result (HubError E) (Unit {0})) → Option ℕ
deploy_status none = none
deploy_status (some (err e)) = some 503
deploy_status (some (ok _)) = some 200

-- The surroundings of one deployment: the hub, its request id, and the network in its two phases.
pub record Deploying : Type 0 where
  pub hub : Hub
  pub request_id : String
  pub prepare_net : Network
  pub activate_net : Network

-- The state of the system, and the status of a response.
pub record Served (F : Type 0) : Type 0 where
  pub store : Memory F
  pub fleet : Fleet
  pub status : Option ℕ

-- What other requests do to the store and the gateways during one request for a route: between its reads of
-- the store, between the last one and StageRoute, between StageRoute and ActivateRoute, and to the gateways
-- until the hub's lock is taken. What comes between StageRoute and ActivateRoute is put before PREPARE, which
-- reads nothing of the store.
pub record Others (F : Type 0) : Type 0 where
  pub before_device : Memory F → Memory F
  pub before_stage : Memory F → Memory F
  pub before_activate : Memory F → Memory F
  pub before_lock : Fleet → Fleet

pub record PutRoute : Type 0 where
  pub host : String
  pub port : ℤ
  pub username : String
  pub password : String
  pub expires_at : Option Time
  pub expected_version : ℤ

-- The route that putRoute builds for the device.
unfoldable pub route_of : Device → String → PutRoute → String → Time → DeviceRoute
route_of d id req token now = record {
  device_id = id;
  device_username = d.username;
  password_hash = "";
  ingress_port = d.ingress_port;
  ingress_method = d.ingress_method;
  ingress_password = d.ingress_password;
  ingresses = d.ingresses;
  credential = record {
    id = token;
    host = req.host;
    port = req.port;
    username = req.username;
    password = req.password;
    encrypted_password = [];
    expires_at = req.expires_at;
    created_at = now;
    provider_id = "";
    generation_metadata = [];
  };
  version = req.expected_version +ℤ pos 1;
  status = route_pending;
  updated_at = now;
}

module _ {F : Type 0} (ss : SsLibrary) (error_text : HandleError → String) where
  abbrev pub commit_route : DeviceRoute → Memory F → Memory F × Result StoreError (Unit {0})
  commit_route r m = activate_route m r.device_id r.version

  -- The call of the hub's DeployRoute, with the route staged.
  unfoldable pub deploy_staged : Memory F → Fleet → Deploying → DeviceRoute → Served F
  deploy_staged m fleet net r =
      let deployed =
        deploy_to_fleet ss error_text net.hub r net.request_id net.prepare_net net.activate_net
          (commit_route r) m fleet in
      record {
        store = deployed.world;
        fleet =
            deployed_fleet ss error_text net.hub r net.request_id net.prepare_net net.activate_net
              (commit_route r) m fleet;
        status = deploy_status deployed.result;
      }

  -- deployRoute: the route is staged, and activated in the store between the two phases. The staging is outside of
  -- the hub's lock. `shares` says that the route's slice of ingresses is the stored device's. The store at the
  -- end is as the activation leaves it.
  unfoldable pub deploy_route :
      Others F → Memory F → Fleet → Deploying → DeviceRoute → Bool → ℤ → Served F
  unfolding deploy_staged
  deploy_route o m fleet net r shares expected =
      let staged = stage_route (o.before_stage m) r shares expected in
      elim staged.1 [
        | err e ↦ record { store = staged.0; fleet = fleet; status = some (store_status e) }
        | ok _ ↦ deploy_staged (o.before_activate staged.0) (o.before_lock fleet) net r
      ]

  -- putRoute, after the body is decoded.
  unfoldable pub put_route :
      Others F → Memory F → Fleet → Deploying → String → PutRoute → String → Time → Served F
  unfolding deploy_route
  put_route o m fleet net id req token now =
      if req.host == "" || ltb_ℤ req.port (pos 1) || ltb_ℤ (pos 65535) req.port
      then record { store = m; fleet = fleet; status = some 400 }
      else if ltb_ℤ req.expected_version (pos 0)
      then record { store = m; fleet = fleet; status = some 400 }
      else elim (get_device m id) [
        | err e ↦ record { store = m; fleet = fleet; status = some (store_status e) }
        | ok d ↦ deploy_route o m fleet net (route_of d id req token now) true req.expected_version
      ]
