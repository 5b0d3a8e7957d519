-- ===== src/Model.antt =====
-- The shared records of internal/model/model.go. A time is a number of nanoseconds since Go's zero
-- time, and a nil pointer is `none`.
use proxy_mesh.Prelude.{
  ℤ, pos, String, Bool, true, false, Option, none, List, [], ◌∷◌, ◌==◌, int_eq, if◌then◌else◌, ℕ,
}
use proxy_mesh.Prelude.Map.{Map}

abbrev pub Time : Type 0
Time = ℤ

pub record DeviceIngress : Type 0 where
  pub port : ℤ
  pub method : String
  pub password : String
  pub primary : Bool
  pub created_at : Time

pub record Device : Type 0 where
  pub id : String
  pub username : String
  pub password_hash : String
  pub ingress_port : ℤ
  pub ingress_method : String
  pub ingress_password : String
  pub ingresses : List DeviceIngress
  pub enabled : Bool
  pub created_at : Time
  pub updated_at : Time

pub record ProxyCredential : Type 0 where
  pub id : String
  pub host : String
  pub port : ℤ
  pub username : String
  pub password : String
  pub encrypted_password : List ℕ
  pub expires_at : Option Time
  pub created_at : Time
  pub provider_id : String
  pub generation_metadata : Map String String

pub record DeviceRoute : Type 0 where
  pub device_id : String
  pub device_username : String
  pub password_hash : String
  pub ingress_port : ℤ
  pub ingress_method : String
  pub ingress_password : String
  pub ingresses : List DeviceIngress
  pub credential : ProxyCredential
  pub version : ℤ
  pub status : String
  pub updated_at : Time

pub record Gateway : Type 0 where
  pub id : String
  pub address : String
  pub status : String
  pub applied_version : ℤ
  pub active_connections : ℤ
  pub last_heartbeat_at : Time

-- The zero value of the type.
abbrev pub zero_route : DeviceRoute
zero_route = record {
  device_id = "";
  device_username = "";
  password_hash = "";
  ingress_port = pos 0;
  ingress_method = "";
  ingress_password = "";
  ingresses = [];
  credential = record {
    id = "";
    host = "";
    port = pos 0;
    username = "";
    password = "";
    encrypted_password = [];
    expires_at = none;
    created_at = pos 0;
    provider_id = "";
    generation_metadata = [];
  };
  version = pos 0;
  status = "";
  updated_at = pos 0;
}

abbrev pub zero_device : Device
zero_device = record {
  id = "";
  username = "";
  password_hash = "";
  ingress_port = pos 0;
  ingress_method = "";
  ingress_password = "";
  ingresses = [];
  enabled = false;
  created_at = pos 0;
  updated_at = pos 0;
}

abbrev pub route_pending : String
route_pending = "pending"

abbrev pub route_active : String
route_active = "active"

abbrev pub gateway_ready : String
gateway_ready = "READY"

abbrev pub gateway_syncing : String
gateway_syncing = "SYNCING"

abbrev pub gateway_draining : String
gateway_draining = "DRAINING"

abbrev pub gateway_offline : String
gateway_offline = "OFFLINE"

abbrev pub primary_ingress : ℤ → String → String → Time → DeviceIngress
primary_ingress port method password created_at = record {
  port = port;
  method = method;
  password = password;
  primary = true;
  created_at = created_at;
}

-- The fallback of both methods: the listed ingresses, or the one of the legacy fields.
abbrev pub or_legacy : List DeviceIngress → ℤ → DeviceIngress → List DeviceIngress
or_legacy (i ∷ is) port legacy = i ∷ is
or_legacy [] port legacy = if port == pos 0 then [] else legacy ∷ []

-- Device.EffectiveIngresses
unfoldable pub device_ingresses : Device → List DeviceIngress
device_ingresses d =
    or_legacy d.ingresses d.ingress_port
      (primary_ingress d.ingress_port d.ingress_method d.ingress_password d.created_at)

-- DeviceRoute.EffectiveIngresses
unfoldable pub route_ingresses : DeviceRoute → List DeviceIngress
route_ingresses r =
    or_legacy r.ingresses r.ingress_port
      (primary_ingress r.ingress_port r.ingress_method r.ingress_password r.updated_at)
