-- ===== src/Program.antt =====
-- The program of a gateway, apps/gateway/main.go: what run does before and after its goroutines, the check of
-- the canary, hostname and itoa. The environment, the snapshot file, what the system answers to net.Listen, and
-- whether a dial succeeds are arguments.
pub mod Started
pub mod Decimal
use proxy_mesh.Prelude.{
  ℕ, zero, suc, ◌+◌, ◌/◌, ◌%◌, ℤ, pos, pos_part, leb_ℤ, String, Bool, true, false, not, Option,
  none, some, List, [], ◌∷◌, ◌==◌, nat_eq, int_eq, string_eq, if◌then◌else◌, Result, ok, err, ◌>>=◌,
}
use proxy_mesh.Prelude.Bytes.{Bytes, text_of}
use proxy_mesh.Prelude.Json.{Json}
use proxy_mesh.Model.{DeviceRoute}
use proxy_mesh.SsConfig.{SsLibrary}
use proxy_mesh.Config.{config_string, config_bool}
use proxy_mesh.Cryptox.{Crypto, CipherError, new}
use proxy_mesh.Snapshot.{Disk, SnapshotError, load_snapshot}
use proxy_mesh.Table.{Table, new_table, load, is_loaded, by_device}
use proxy_mesh.Connections.{new_connections}
use proxy_mesh.Gateway.{
  Gateway, GatewayError, new_gateway, set_draining, set_canary, reconcile_listeners,
  close_listeners,
}
use proxy_mesh.Client.{ControlClient}

pub data StartError : Type 0 where
  no_cipher : CipherError → StartError
  no_listeners : GatewayError → StartError

-- What the program finds when it starts.
pub record Machine : Type 0 where
  pub getenv : String → String
  pub hostname : String
  pub disk : Disk
  pub listen : ℤ → Bool

unfoldable pub hostname : String → String
hostname h = if h == "" then "gateway-unknown" else h

abbrev pub ciphered : {A : Type 0} → Result CipherError A → Result StartError A
ciphered (ok a) = ok a
ciphered (err e) = err (no_cipher e)

abbrev pub listening : Gateway × Result GatewayError (Unit {0}) → Result StartError Gateway
listening (g, ok done) = ok g
listening (g, err e) = err (no_listeners e)

abbrev pub loaded : Result SnapshotError (List DeviceRoute) → Table
loaded (ok routes) = load routes new_table
loaded (err e) = new_table

abbrev pub held : Result SnapshotError (List DeviceRoute) → Option (List DeviceRoute)
held (ok routes) = some routes
held (err e) = none

module _ (ss : SsLibrary) where
  -- The listeners of a snapshot that was loaded are started before the control plane is heard.
  unfoldable pub start_gateway :
      (ℤ → Bool) → Result SnapshotError (List DeviceRoute) → Result StartError Gateway
  start_gateway listen snapshot =
      let g = new_gateway (loaded snapshot) new_connections in
      if is_loaded g.table then listening (reconcile_listeners ss listen g) else ok g

module _ (ss : SsLibrary) (crypto : Crypto) (json : Json (List DeviceRoute)) where
  -- run, up to the start of its goroutines: the client of the control plane, with its gateway.
  unfoldable pub start : Machine → Result StartError ControlClient
  start m =
      ciphered (
        new crypto
          (config_string m.getenv "SNAPSHOT_KEY" (config_string m.getenv "ENCRYPTION_KEY" "")))
      >>= λ a.
          let snapshot = load_snapshot a json m.disk in
          start_gateway ss m.listen snapshot >>= λ g. ok (record {
            gateway_id = config_string m.getenv "GATEWAY_ID" (hostname m.hostname);
            address = config_string m.getenv "GATEWAY_ADDRESS" "";
            gateway = if config_bool m.getenv "REQUIRE_CANARY" false then set_canary g false else g;
            saved = held snapshot;
          })

-- The check of canaryLoop: `dials` is whether DialSOCKS5 reaches the target through a route.
unfoldable pub check_canary : Bool → String → (DeviceRoute → Bool) → Gateway → Gateway
check_canary required device_id dials g =
    if not required then set_canary g true else elim (by_device g.table device_id) [
      | none ↦ set_canary g false
      | some route ↦ set_canary g (dials route)
    ]

-- The end of run, before the server of the health handler is shut down.
unfoldable pub stop : Gateway → Gateway
stop g = close_listeners (set_draining g true)

-- The loop of itoa, from the last digit on; the buffer has room for `n` more.
unfoldable pub put_digits : ℕ → ℕ → Bytes → Bytes
put_digits zero v b = b
put_digits (suc n) v b =
    let rest = put_digits n (v / 10) ((48 + v % 10) ∷ b) in if v == 0 then b else rest

unfoldable pub itoa : ℤ → String
itoa v =
    if v == pos 0
    then "0"
    else if leb_ℤ v (pos 0)
    then ""
    else text_of (put_digits 20 (pos_part v) [])
