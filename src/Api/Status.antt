-- ===== src/Api/Status.antt =====
-- The handlers of internal/control/api.go that show a device and the gateways, and those that only send a
-- frame: deviceStatus, gateways, interrupt and setGatewayDraining. A map that a response is made of is a record.
pub mod Hidden
use proxy_mesh.Prelude.{
  ℕ, ℤ, pos, ◌||◌, ltb_ℤ, String, Bool, Option, none, some, List, [], ◌∷◌, if◌then◌else◌, Result,
  ok, err, ◌>>=◌,
}
use proxy_mesh.Prelude.Map.{Map}
use proxy_mesh.Model.{DeviceIngress, Device, DeviceRoute, Gateway, Time, device_ingresses}
use proxy_mesh.Config.{atoi}
use proxy_mesh.Hub.{Hub, HubError, Outcome, Traffic}
use proxy_mesh.Hub
use proxy_mesh.Hub.Deploy
use proxy_mesh.Store.{
  Memory, StoreError, not_found, conflict, panicked, get_device, get_route, list_gateways,
}
use proxy_mesh.Api.{store_status}
use proxy_mesh.Api.Providers.{with_status}

pub record IngressView : Type 0 where
  pub listen_port : ℤ
  pub method : String
  pub primary : Bool
  pub created_at : Time

pub record RouteView : Type 0 where
  pub device_id : String
  pub version : ℤ
  pub status : String
  pub provider_id : String
  pub host : String
  pub port : ℤ
  pub username : String
  pub location : Map String String
  pub expires_at : Option Time
  pub updated_at : Time

pub record DeviceView : Type 0 where
  pub device_id : String
  pub username : String
  pub enabled : Bool
  pub ingresses : List IngressView
  pub route : Option RouteView

abbrev pub ingress_views : List DeviceIngress → List IngressView
ingress_views [] = []
ingress_views (i ∷ is) =
    record {
      listen_port = i.port;
      method = i.method;
      primary = i.primary;
      created_at = i.created_at;
    }
    ∷ ingress_views is

unfoldable pub sanitize_ingresses : Device → List IngressView
sanitize_ingresses d = ingress_views (device_ingresses d)

unfoldable pub sanitize_route : DeviceRoute → RouteView
sanitize_route r = record {
  device_id = r.device_id;
  version = r.version;
  status = r.status;
  provider_id = r.credential.provider_id;
  host = r.credential.host;
  port = r.credential.port;
  username = r.credential.username;
  location = r.credential.generation_metadata;
  expires_at = r.credential.expires_at;
  updated_at = r.updated_at;
}

abbrev pub view_of : Device → Option RouteView → DeviceView
view_of d route = record {
  device_id = d.id;
  username = d.username;
  enabled = d.enabled;
  ingresses = sanitize_ingresses d;
  route = route;
}

-- A device without an active route is shown as well.
abbrev pub shown : Device → Result StoreError DeviceRoute → Result ℕ DeviceView
shown d (ok r) = ok (view_of d (some (sanitize_route r)))
shown d (err not_found) = ok (view_of d none)
shown d (err conflict) = err (store_status conflict)
shown d (err panicked) = err (store_status panicked)

-- parsePort
unfoldable pub parse_port : String → Option ℤ
parse_port value = elim (atoi value) [
  | none ↦ none
  | some port ↦ if ltb_ℤ port (pos 1) || ltb_ℤ (pos 65535) port then none else some port
]

-- The status after a broadcast: none while it waits.
abbrev pub sent_status : {E : Type 0} → Option (Result (HubError E) (Unit {0})) → Option ℕ
sent_status none = none
sent_status (some (ok done)) = some 204
sent_status (some (err Hub.not_found)) = some 404
sent_status (some (err e)) = some 503

module _ {F : Type 0} where
  unfoldable pub device_status : Memory F → String → Result ℕ DeviceView
  device_status m id = with_status store_status (get_device m id) >>= λ d. shown d (get_route m id)

  unfoldable pub gateways : Memory F → List Gateway
  gateways m = list_gateways m

  -- interrupt: the status, and what is sent.
  unfoldable pub interrupt :
      {E : Type 0} → Memory F → Hub → String → String → Traffic → Option (Outcome E) × Option ℕ
  interrupt m h id request_id traffic = elim (get_device m id) [
    | err e ↦ (none, some (store_status e))
    | ok d ↦
        let outcome = Deploy.interrupt h id request_id traffic in
        (some outcome, sent_status outcome.result)
  ]

-- setGatewayDraining, after the body is decoded.
unfoldable pub set_gateway_draining :
    {E : Type 0} → Hub → String → Bool → String → Traffic → Hub × Outcome E × Option ℕ
set_gateway_draining h id draining request_id traffic =
    let done = Deploy.set_draining h id draining request_id traffic in
    (done.0, done.1, sent_status done.1.result)
