-- ===== src/Postgres/Statements.antt =====
-- The statements of internal/store/postgres.go that change a table, with the constraints of
-- migrations/*.sql: primary keys, unique indexes, checks and references.
use proxy_mesh.Prelude.{
  ℤ, pos, String, Bool, true, false, not, ◌&&◌, ◌||◌, Option, none, some, ◌∷◌, ◌==◌, string_eq,
  int_eq, if◌then◌else◌, Result, ok, err, any, leb, leb_ℤ,
}
use proxy_mesh.Model.{Time, route_pending, route_active}
use proxy_mesh.Postgres.{
  DeviceRow, IngressRow, CredentialRow, RouteRow, Database, SqlError, unique_violation, other_error,
}
use proxy_mesh.Postgres.Rows.{unless, update, count}

abbrev pub port_in_range : ℤ → Bool
port_in_range port = leb_ℤ (pos 1) port && leb_ℤ port (pos 65535)

abbrev pub nullable_in_range : Option ℤ → Bool
nullable_in_range none = true
nullable_in_range (some port) = port_in_range port

-- devices_ingress_port_unique, which no null breaks.
abbrev same_port : Option ℤ → Option ℤ → Bool
same_port (some p) (some q) = p == q
same_port (some p) none = false
same_port none q = false

abbrev pub is_device : String → DeviceRow → Bool
is_device id r = r.id == id

abbrev pub device_clash : DeviceRow → DeviceRow → Bool
device_clash row r =
    r.id == row.id || r.username == row.username || same_port r.ingress_port row.ingress_port

unfoldable pub insert_device : DeviceRow → Database → Result SqlError Database
insert_device row db =
    if not (nullable_in_range row.ingress_port)
    then err other_error
    else if any (device_clash row) db.devices
    then err unique_violation
    else ok (record db { devices = row ∷ db.devices })

-- UNIQUE (port) and one_primary_ingress_per_device.
abbrev pub ingress_clash : IngressRow → IngressRow → Bool
ingress_clash row r =
    r.port == row.port || (r.device_id == row.device_id && r.is_primary && row.is_primary)

unfoldable pub insert_ingress : IngressRow → Database → Result SqlError Database
insert_ingress row db =
    if not (port_in_range row.port)
    then err other_error
    else if any (ingress_clash row) db.device_ingresses
    then err unique_violation
    else if any (is_device row.device_id) db.devices
    then ok (record db { device_ingresses = row ∷ db.device_ingresses })
    else err other_error

abbrev pub touched : Time → DeviceRow → DeviceRow
touched now r = record r { updated_at = now }

-- `UPDATE devices SET updated_at=now() WHERE id=$1`
unfoldable pub touch_device : String → Time → Database → Result SqlError Database
touch_device id now db = ok (record db { devices = update (is_device id) (touched now) db.devices })

-- The new columns of DeleteDeviceIngress.
unfoldable pub set_legacy : String → IngressRow → Time → Database → Result SqlError Database
set_legacy id next now db =
    if not (port_in_range next.port)
    then err other_error
    else if any (λ r. not (is_device id r) && same_port r.ingress_port (some next.port)) db.devices
    then err unique_violation
    else ok (record db {
      devices =
          update (is_device id)
            (λ r. record r {
              ingress_port = some next.port;
              ingress_method = next.method;
              ingress_password_cipher = some next.password_cipher;
              updated_at = now;
            })
            db.devices;
    })

abbrev pub is_ingress : String → ℤ → IngressRow → Bool
is_ingress id port r = r.device_id == id && r.port == port

-- `UPDATE device_ingresses SET is_primary=true WHERE device_id=$1 AND port=$2`
unfoldable pub set_primary : String → ℤ → Database → Result SqlError Database
set_primary id port db =
    if any (λ r. r.device_id == id && not (r.port == port) && r.is_primary) db.device_ingresses
    then err unique_violation
    else ok (record db {
      device_ingresses =
          update (is_ingress id port) (λ r. record r { is_primary = true }) db.device_ingresses;
    })

unfoldable pub delete_credential : String → Database → Result SqlError Database
delete_credential id db =
    if any (λ r. r.credential_id == id) db.device_routes
    then err other_error
    else ok (record db { proxy_credentials = unless (λ c. c.id == id) db.proxy_credentials })

abbrev pub known_provider : Option String → Database → Bool
known_provider none db = true
known_provider (some id) db = any (λ r. r.id == id) db.proxy_providers

unfoldable pub insert_credential : CredentialRow → Database → Result SqlError Database
insert_credential row db =
    if not (port_in_range row.port)
    then err other_error
    else if any (λ r. r.id == row.id) db.proxy_credentials
    then err unique_violation
    else if known_provider row.provider_id db
    then ok (record db { proxy_credentials = row ∷ db.proxy_credentials })
    else err other_error

abbrev pub is_version : String → ℤ → RouteRow → Bool
is_version id version r = r.device_id == id && r.version == version

-- A pending route, which one_active_route_per_device does not concern.
unfoldable pub insert_route : RouteRow → Database → Result SqlError Database
insert_route row db =
    if any (is_version row.device_id row.version) db.device_routes
    then err unique_violation
    else if any (is_device row.device_id) db.devices
        && any (λ c. c.id == row.credential_id) db.proxy_credentials
    then ok (record db { device_routes = row ∷ db.device_routes })
    else err other_error

abbrev pub has_status : String → String → RouteRow → Bool
has_status id status r = r.device_id == id && r.status == status

abbrev pub superseded : Time → RouteRow → RouteRow
superseded now r = record r { status = "superseded"; updated_at = now }

abbrev pub activated : Time → RouteRow → RouteRow
activated now r = record r { status = route_active; updated_at = now }

-- `UPDATE device_routes SET status='superseded',updated_at=now() WHERE device_id=$1 AND status='active'`
unfoldable pub supersede : String → Time → Database → Database
supersede id now db = record db {
  device_routes = update (has_status id route_active) (superseded now) db.device_routes;
}

abbrev pub is_staged : String → ℤ → RouteRow → Bool
is_staged id version r = is_version id version r && r.status == route_pending

-- `UPDATE device_routes SET status='active',… WHERE device_id=$1 AND version=$2 AND status='pending'`, which
-- leaves the device one active route at most.
unfoldable pub set_active : String → ℤ → Time → Database → Result SqlError Database
set_active id version now db =
    let rows = update (is_staged id version) (activated now) db.device_routes in
    if leb (count (has_status id route_active) rows) 1
    then ok (record db { device_routes = rows })
    else err unique_violation
