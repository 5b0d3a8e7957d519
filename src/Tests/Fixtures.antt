-- ===== src/Tests/Fixtures.antt =====
-- A device with one route and one ingress, the parts of a system around them, and a library for Shadowsocks
-- that takes every password.
use proxy_mesh.Prelude.{ℤ, pos, Bool, true, none, some, [], ◌∷◌, refl}
use proxy_mesh.Model.{Device, DeviceRoute, zero_route, zero_device}
use proxy_mesh.Frame.{Frame, zero_frame, type_snapshot}
use proxy_mesh.Cryptox.{Aead, Opens}
use proxy_mesh.SsConfig.{SsLibrary}
use proxy_mesh.Table.{new_table, load}
use proxy_mesh.Connections.{new_connections}
use proxy_mesh.Gateway.{Gateway, new_gateway}
use proxy_mesh.Client.{ControlClient, System}

abbrev pub any_ss : SsLibrary
any_ss = record { new_server_config = λ m p. true; server_init = λ m p. true }

abbrev pub phone : Device
phone = record zero_device {
  id = "phone";
  username = "phone";
  ingress_port = pos 2000;
  ingress_method = "aes-256-gcm";
  ingress_password = "password";
}

abbrev pub phone_route : ℤ → DeviceRoute
phone_route version = record zero_route {
  device_id = "phone";
  device_username = "phone";
  ingress_port = pos 2000;
  ingress_method = "aes-256-gcm";
  ingress_password = "password";
  version = version;
}

abbrev pub laptop_route : DeviceRoute
laptop_route = record (phone_route (pos 4)) {
  device_id = "laptop";
  device_username = "laptop";
  ingress_port = pos 3000;
}

abbrev pub any_port : ℤ → Bool
any_port port = true

abbrev pub empty_gateway : Gateway
empty_gateway = new_gateway new_table new_connections

-- A gateway whose table is loaded and whose listeners are not started.
abbrev pub loaded_gateway : Gateway
loaded_gateway =
    new_gateway (load (phone_route (pos 1) ∷ laptop_route ∷ []) new_table) new_connections

abbrev pub working : System
working = record { listen = any_port; save = true }

abbrev pub client : ControlClient
client = record { gateway_id = "gw"; address = "10.0.0.1"; gateway = empty_gateway; saved = none }

abbrev pub snapshot_frame : Frame
snapshot_frame = record zero_frame {
  type = type_snapshot;
  routes = phone_route (pos 1) ∷ laptop_route ∷ [];
}

-- A cipher that only puts the nonce in front.
abbrev pub plain_aead : Aead
plain_aead = record {
  nonce_size = 1;
  seal = λ nonce plain. plain;
  open_sealed = λ nonce sealed. some sealed;
}

pub plain_aead-Opens : Opens plain_aead
plain_aead-Opens = record { open_sealed-seal = λ nonce plain. refl }
