-- ===== src/Tests/Programs.antt =====
-- The program of a gateway and its health handler.
use proxy_mesh.Prelude.{
  pos, false, none, some, List, [], ◌∷◌, ◌==◌, string_eq, ok, ◌≡◌, refl, arith, if◌then◌else◌,
}
use proxy_mesh.Prelude.Bytes.{bytes_of, read_full}
use proxy_mesh.Prelude.Json.{Json}
use proxy_mesh.Model.{DeviceRoute}
use proxy_mesh.Config.{config_string, config_bool, atoi}
use proxy_mesh.Cryptox.{Crypto, new, raw_key, decrypt}
use proxy_mesh.Snapshot.{load_snapshot}
use proxy_mesh.Table.{new_table, is_loaded}
use proxy_mesh.Gateway.{ready, new_gateway}
use proxy_mesh.Gateway.Admit.{ready_status}
use proxy_mesh.Gateway.Health.{
  Addresses, drain, undrain, run_health, request_from_loopback, drained-unready,
}
use proxy_mesh.Client.{ControlClient}
use proxy_mesh.Connections.{new_connections}
use proxy_mesh.Client.Consistent.{ServesClaims}
use proxy_mesh.Program.{Machine, itoa, start, start_gateway, hostname}
use proxy_mesh.Program.Decimal.{atoi-itoa}
use proxy_mesh.Program.Started.{start-ServesClaims}
use proxy_mesh.Prelude.Map.{lookup, insert}
use proxy_mesh.Model.{route_ingresses}
use proxy_mesh.SsConfig.{validate}
use proxy_mesh.Table.{load, load_active, snapshot}
use proxy_mesh.Gateway.{
  reconcile_listeners, desired_routes, add_ingresses, sweep, start_all, start_listener,
}
use proxy_mesh.Tests.Fixtures.{any_ss, any_port, plain_aead, client, phone_route}

abbrev crypto : Crypto
crypto = record { base64 = λ s. none; sha256 = λ b. b; new_gcm = λ b. some plain_aead }

abbrev json : Json (List DeviceRoute)
json = record { marshal = λ r. none; unmarshal = λ b. none }

abbrev machine : Machine
machine = record {
  getenv = λ key.
      if key == "ENCRYPTION_KEY"
      then "key"
      else if key == "GATEWAY_ADDRESS"
      then "10.0.0.1"
      else "";
  hostname = "gw";
  disk = record { file = none; temporary = none };
  listen = any_port;
}

start_run : start any_ss crypto json machine ≡ ok client
unfolding start start_gateway new raw_key config_string config_bool hostname load_snapshot is_loaded
    new_gateway new_table bytes_of
start_run = refl

-- The snapshot file of a gateway that has served one route.
abbrev saved_json : Json (List DeviceRoute)
saved_json = record {
  marshal = λ r. some (123 ∷ []);
  unmarshal = λ b. some (phone_route (pos 4) ∷ []);
}

abbrev restarted : Machine
restarted = record machine { disk = record { file = some (7 ∷ 123 ∷ []); temporary = none } }

abbrev restored : ControlClient
restored = record client {
  gateway =
      (reconcile_listeners any_ss any_port
        (new_gateway (load (phone_route (pos 4) ∷ []) new_table) new_connections)).0;
  saved = some (phone_route (pos 4) ∷ []);
}

start-ServesClaims_example :
    (ready restored.gateway ≡ false)
    × (restored.gateway.table ≡ load (phone_route (pos 4) ∷ []) new_table)
    × ServesClaims (pos 2000) restored.gateway
    × (restored.saved ≡ some (phone_route (pos 4) ∷ []))
unfolding start start_gateway new raw_key config_string config_bool hostname load_snapshot is_loaded
    new_gateway new_table bytes_of load reconcile_listeners decrypt read_full desired_routes
    snapshot load_active insert add_ingresses route_ingresses lookup start_all sweep start_listener
    validate
start-ServesClaims_example =
    start-ServesClaims any_ss crypto saved_json restarted (pos 2000) refl refl refl

atoi-itoa_example : atoi (itoa (pos 1080)) ≡ some (pos 1080)
atoi-itoa_example = atoi-itoa 1080 (omega arith)

abbrev addresses : Addresses
addresses = record { split_host = λ s. some s; is_loopback = λ s. s == "127.0.0.1" }

drained-unready_example :
    (ready (run_health addresses client.gateway ((drain, "127.0.0.1") ∷ (undrain, "10.0.0.9") ∷ []))
      ≡ false)
    × (ready_status
          (run_health addresses client.gateway ((drain, "127.0.0.1") ∷ (undrain, "10.0.0.9") ∷ []))
        ≡ 503)
unfolding request_from_loopback
drained-unready_example =
    drained-unready addresses client.gateway "127.0.0.1" ((undrain, "10.0.0.9") ∷ []) refl
      (refl, tt)
