-- ===== src/Postgres/RouteRows.antt =====
-- The methods of internal/store/postgres.go on routes: StageRoute, ActivateRoute, GetRoute and
-- ListActiveRoutes.
use proxy_mesh.Prelude.{
  ℕ, suc, ℤ, pos, String, not, Option, none, some, List, [], ◌∷◌, ◌==◌, string_eq, int_eq, nat_eq,
  if◌then◌else◌, Result, ok, err, ◌>>=◌,
}
use proxy_mesh.Prelude.Map.{Map}
use proxy_mesh.Prelude.Bytes.{Bytes}
use proxy_mesh.Model.{
  Time, DeviceRoute, DeviceIngress, ProxyCredential, route_pending, route_active,
}
use proxy_mesh.Postgres.{
  DeviceRow, CredentialRow, RouteRow, Database, Session, Outcome, Failure, conflict, Backend,
  mapped, raw, transact, encrypt_text, decrypt_text, parsed,
}
use proxy_mesh.Postgres.Rows.{first, select, unless, count, order_by, head, max_of, coalesce}
use proxy_mesh.Postgres.Statements.{
  is_device, has_status, is_staged, insert_credential, delete_credential, insert_route, supersede,
  set_active,
}
use proxy_mesh.Postgres.Devices.{found, decrypt_nullable, load_device_ingresses}

-- nullableString
abbrev pub nullable_string : String → Option String
nullable_string value = if value == "" then none else some value

-- `COALESCE(MAX(version) FILTER (WHERE status='active'),0)`
unfoldable pub active_version : String → Database → ℤ
active_version id db =
    coalesce (max_of (λ r. r.version) (select (has_status id route_active) db.device_routes))
      (pos 0)

-- The credentials of the pending routes that are removed, each with a DELETE of its own.
unfoldable pub credential_ids : List RouteRow → List String
credential_ids [] = []
credential_ids (r ∷ rs) = r.credential_id ∷ credential_ids rs

unfoldable pub delete_credentials : Session → ℕ → List String → Database → Result Failure Database
delete_credentials s k [] db = ok db
delete_credentials s k (id ∷ ids) db =
    raw (s.answer k) (delete_credential id db) >>= delete_credentials s (suc k) ids

abbrev pub without_pending : String → Database → Database
without_pending id db = record db {
  device_routes = unless (has_status id route_pending) db.device_routes;
}

-- What the columns keep of the times of a route and of its credential.
abbrev pub kept_time : (Time → Time) → Option Time → Option Time
kept_time keeps none = none
kept_time keeps (some t) = some (keeps t)

abbrev pub kept_route : (Time → Time) → DeviceRoute → DeviceRoute
kept_route keeps r = record r {
  credential = record r.credential {
    expires_at = kept_time keeps r.credential.expires_at;
    created_at = keeps r.credential.created_at;
  };
  updated_at = keeps r.updated_at;
}

abbrev pub credential_row : ProxyCredential → Bytes → Bytes → CredentialRow
credential_row c cipher metadata = record {
  id = c.id;
  host = c.host;
  port = c.port;
  username = c.username;
  password_cipher = cipher;
  expires_at = c.expires_at;
  created_at = c.created_at;
  provider_id = nullable_string c.provider_id;
  generation_metadata = metadata;
}

abbrev pub route_row : DeviceRoute → RouteRow
route_row r = record {
  device_id = r.device_id;
  credential_id = r.credential.id;
  version = r.version;
  status = route_pending;
  updated_at = r.updated_at;
}

pub record Joined : Type 0 where
  pub device : DeviceRow
  pub credential : CredentialRow
  pub route : RouteRow

abbrev pub join_row : RouteRow → Option DeviceRow → Option CredentialRow → List Joined → List Joined
join_row r (some d) (some c) rest = record { device = d; credential = c; route = r } ∷ rest
join_row r (some d) none rest = rest
join_row r none c rest = rest

-- `JOIN devices d ON d.id=r.device_id JOIN proxy_credentials c ON c.id=r.credential_id`, on primary keys.
unfoldable pub join : Database → List RouteRow → List Joined
join db [] = []
join db (r ∷ rs) =
    join_row r (first (is_device r.device_id) db.devices)
      (first (λ c. c.id == r.credential_id) db.proxy_credentials) (join db rs)

abbrev pub scanned_credential : CredentialRow → String → Map String String → ProxyCredential
scanned_credential c password metadata = record {
  id = c.id;
  host = c.host;
  port = c.port;
  username = c.username;
  password = password;
  encrypted_password = [];
  expires_at = c.expires_at;
  created_at = c.created_at;
  provider_id = coalesce c.provider_id "";
  generation_metadata = metadata;
}

abbrev pub scanned_route :
    DeviceRow → String → List DeviceIngress → ProxyCredential → RouteRow → DeviceRoute
scanned_route d password ingresses credential r = record {
  device_id = d.id;
  device_username = d.username;
  password_hash = d.password_hash;
  ingress_port = coalesce d.ingress_port (pos 0);
  ingress_method = d.ingress_method;
  ingress_password = password;
  ingresses = ingresses;
  credential = credential;
  version = r.version;
  status = r.status;
  updated_at = r.updated_at;
}

module _ {F : Type 0} (b : Backend F) where
  -- The transaction of StageRoute. The two inserts are statements 3 and 4, and the deletes follow from 5.
  unfoldable pub stage_body :
      Session → DeviceRoute → ℤ → Bytes → Database → Result Failure (Database × (Unit {0}))
  stage_body s r expected cipher db =
      mapped (s.answer 0) (found (first (is_device r.device_id) db.devices)) >>= λ d.
      raw (s.answer 1) (ok (active_version r.device_id db)) >>= λ current.
      if not (current == expected)
      then err conflict
      else raw (s.answer 2)
          (ok (credential_ids (select (has_status r.device_id route_pending) db.device_routes)))
        >>= λ stale. delete_credentials s 5 stale (without_pending r.device_id db) >>= λ db₁.
            parsed (b.texts.marshal r.credential.generation_metadata) >>= λ metadata.
            raw (s.answer 3) (insert_credential (credential_row r.credential cipher metadata) db₁)
            >>= λ db₂. raw (s.answer 4) (insert_route (route_row r) db₂) >>= λ db₃. ok (db₃, tt)

  unfoldable pub stage_route :
      Session → Database → DeviceRoute → ℤ → Database × Result Failure (Unit {0})
  stage_route s db r expected = elim (encrypt_text b.aead (s.random 0) r.credential.password) [
    | err e ↦ (db, err e)
    | ok cipher ↦ transact s db (stage_body s (kept_route s.keeps r) expected cipher)
  ]

  -- The rows that the second update of ActivateRoute affects are those that are staged before it.
  unfoldable pub activate_body :
      Session → String → ℤ → Database → Result Failure (Database × (Unit {0}))
  activate_body s id version db = raw (s.answer 0) (ok (supersede id s.now db)) >>= λ db₁.
      raw (s.answer 1) (set_active id version s.now db₁) >>= λ db₂.
      if not (count (is_staged id version) db₁.device_routes == 1)
      then err conflict
      else ok (db₂, tt)

  unfoldable pub activate_route :
      Session → Database → String → ℤ → Database × Result Failure (Unit {0})
  activate_route s db id version = transact s db (activate_body s id version)

  -- What getRoute and ListActiveRoutes do with a row of the join.
  unfoldable pub read_route : Outcome → Database → Joined → Result Failure DeviceRoute
  read_route o db j = decrypt_text b.aead j.credential.password_cipher >>= λ password.
      decrypt_nullable b.aead j.device.ingress_password_cipher >>= λ ingress_password.
      parsed (b.texts.unmarshal j.credential.generation_metadata) >>= λ metadata.
      load_device_ingresses b.aead o db j.device.id >>= λ ingresses. ok (
        scanned_route j.device ingress_password ingresses
          (scanned_credential j.credential password metadata) j.route)

  unfoldable pub get_route : Outcome → Outcome → Database → String → Result Failure DeviceRoute
  get_route o next db id =
      mapped o (found (head (join db (select (has_status id route_active) db.device_routes))))
      >>= read_route next db

  unfoldable pub read_routes :
      (ℕ → Outcome) → Database → List Joined → Result Failure (List DeviceRoute)
  read_routes answer db [] = ok []
  read_routes answer db (j ∷ js) = read_route (answer 0) db j >>= λ r.
      read_routes (λ k. answer (suc k)) db js >>= λ rs. ok (r ∷ rs)

  unfoldable pub list_active_routes : (ℕ → Outcome) → Database → Result Failure (List DeviceRoute)
  list_active_routes answer db =
      raw (answer 0) (
        ok (
          order_by (λ j x. b.before j.device.id x.device.id)
            (join db (select (λ r. r.status == route_active) db.device_routes))))
      >>= read_routes (λ k. answer (suc k)) db
