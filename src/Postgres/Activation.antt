-- ===== src/Postgres/Activation.antt =====
-- A route that StageRoute of internal/store/postgres.go has stored, through ActivateRoute, to GetRoute.
use proxy_mesh.Prelude.{
  ℤ, String, false, Option, none, some, List, [], ◌∷◌, ◌==◌, string_eq, int_eq, nat_eq, ok, any,
  bind-ok, ok-injective, ◌≡◌, refl, sym, ap, eq_iff, arith,
}
use proxy_mesh.Model.{Device, DeviceIngress, DeviceRoute, Time, route_active}
use proxy_mesh.Prelude.Json.{Parses}
use proxy_mesh.Cryptox.{Opens}
use proxy_mesh.Prelude.Bytes.{Bytes}
use proxy_mesh.Postgres.Answers.{mapped-ok}
use proxy_mesh.Postgres.{
  mapped, DeviceRow, CredentialRow, Database, RouteRow, Session, done, Backend,
}
use proxy_mesh.Postgres.Rows.{max_of, first, first-passes, coalesce}
use proxy_mesh.Postgres.Statements.{is_device, is_version, activated, supersede, set_active}
use proxy_mesh.Postgres.RouteRows.{
  kept_route, active_version, stage_route, credential_row, nullable_string, route_row,
  activate_body, activate_route, join, read_route, get_route,
}
use proxy_mesh.Postgres.Devices.{
  found, scanned_device, decrypt_nullable, get_device, load_device_ingresses,
}
use proxy_mesh.Postgres.Staged.{HasStaged, stage_route-HasStaged}
use proxy_mesh.Postgres.Superseded.{
  IsAnswered, later, supersede-route_row, update-route_row, count-active, count-pending,
  select-active,
}

first-credential :
    (r : DeviceRoute) (cipher metadata : Bytes) (rows : List CredentialRow)
    → first (λ c. c.id == r.credential.id) (credential_row r.credential cipher metadata ∷ rows)
      ≡ some (credential_row r.credential cipher metadata)
unfolding first
first-credential r cipher metadata rows = ground (arith, eq_iff r.credential.id r.credential.id)

coalesce-nullable_string : (p : String) → coalesce (nullable_string p) "" ≡ p
coalesce-nullable_string p = ground (arith, eq_iff p "")

found-ok : {A : Type 0} (o : Option A) {a : A} → found o ≡ ok a → o ≡ some a
found-ok none h = absurd (cc)
found-ok (some a) h = ap some (ok-injective h)

-- A route as its device is read, with the credential and the version of the route that was staged.
abbrev pub route_of : Device → DeviceRoute → Time → DeviceRoute
route_of d r now = record {
  device_id = d.id;
  device_username = d.username;
  password_hash = d.password_hash;
  ingress_port = d.ingress_port;
  ingress_method = d.ingress_method;
  ingress_password = d.ingress_password;
  ingresses = d.ingresses;
  credential = record r.credential { encrypted_password = [] };
  version = r.version;
  status = route_active;
  updated_at = now;
}

module _ {F : Type 0} (b : Backend F) where
  activate_body-staged :
      (t : Session) (db : Database) (r : DeviceRoute) (rows : List RouteRow)
      → t.answer 0 ≡ done
      → t.answer 1 ≡ done
      → db.device_routes ≡ route_row r ∷ rows
      → any (is_version r.device_id r.version) rows ≡ false
      → activate_body b t r.device_id r.version db
        ≡ ok (
          record db {
            device_routes = activated t.now (route_row r) ∷ later r.device_id t.now rows;
          },
          tt,
        )
  unfolding activate_body supersede set_active
  activate_body-staged t db r rows answered next h fresh =
      rw
        (
          answered,
          next,
          h,
          supersede-route_row r t.now rows,
          update-route_row r t.now rows fresh,
          count-active r t.now rows,
          count-pending r t.now rows fresh,
        )
        refl

  activate_route-staged :
      (t : Session) (db : Database) (r : DeviceRoute) (rows : List RouteRow)
      → IsAnswered t
      → db.device_routes ≡ route_row r ∷ rows
      → any (is_version r.device_id r.version) rows ≡ false
      → activate_route b t db r.device_id r.version ≡ (
        record db { device_routes = activated t.now (route_row r) ∷ later r.device_id t.now rows },
        ok tt,
      )
  unfolding activate_route
  activate_route-staged t db r rows a h fresh =
      rw
        (
          activate_body-staged t db r rows (a.answered 0) (a.answered 1) h fresh,
          a.begun,
          a.committed,
        )
        refl

  -- What GetDevice has read when it succeeds.
  read_device-ok :
      (db : Database) (id : String) (d : Device)
      → get_device b.aead done done db id ≡ ok d
      → (row : DeviceRow) × (password : String) × (ingresses : List DeviceIngress) × (first
            (is_device id)
            db.devices
          ≡ some row)
        × (decrypt_nullable b.aead row.ingress_password_cipher ≡ ok password)
        × (load_device_ingresses b.aead done db id ≡ ok ingresses)
        × (scanned_device row password ingresses ≡ d)
  unfolding get_device
  read_device-ok db id d h =
      let row = bind-ok (mapped done (found (first (is_device id) db.devices))) _ h in
      let password = bind-ok (decrypt_nullable b.aead row.0.ingress_password_cipher) _ row.2 in
      let ingresses = bind-ok (load_device_ingresses b.aead done db id) _ password.2 in
      (
        row.0,
        password.0,
        ingresses.0,
        found-ok (first (is_device id) db.devices) (mapped-ok done _ row.1),
        password.1,
        ingresses.1,
        ok-injective ingresses.2,
      )

  get_route-staged :
      (t : Session) (db db' : Database) (r : DeviceRoute) (expected : ℤ) (d : Device)
      → (staged : HasStaged b db db' r expected) → get_device b.aead done done db r.device_id ≡ ok d
      → get_route b done done
          (record db' {
            device_routes = activated t.now (route_row r) ∷ later r.device_id t.now staged.others;
          })
          r.device_id
        ≡ ok (route_of d r t.now)
  unfolding get_route join read_route load_device_ingresses
  get_route-staged t db db' r expected d staged h =
      let device = read_device-ok db r.device_id d h in
      let same : (device.0).id ≡ r.device_id = ground (
        arith,
        eq_iff (device.0).id r.device_id,
        first-passes (is_device r.device_id) db.devices device.3,
      ) in
      rw
        (
          select-active r t.now staged.others,
          staged.credential,
          staged.devices,
          device.3,
          first-credential r staged.cipher staged.metadata staged.credentials,
          staged.password,
          device.4,
          staged.parsed,
          staged.ingresses,
          same,
          device.5,
          coalesce-nullable_string r.credential.provider_id,
          sym device.6,
          same,
        )
        refl

  -- If StageRoute succeeds, and the server answers all statements of the two calls that follow, then
  -- ActivateRoute of the staged version succeeds, and GetRoute gives the staged route, active, with the device
  -- as GetDevice gives it; of the times of its credential it gives what the columns keep. Open undoes Seal, JSON is read back, and the device can be read.
  pub get_route-activate-stage :
      (s t : Session) (db : Database) (r : DeviceRoute) (expected : ℤ) (d : Device) {db' : Database}
      → Opens b.aead
      → Parses b.texts r.credential.generation_metadata
      → stage_route b s db r expected ≡ (db', ok tt)
      → IsAnswered t
      → get_device b.aead done done db r.device_id ≡ ok d
      → let after = activate_route b t db' r.device_id r.version in
        (after.1 ≡ ok tt)
        × (get_route b done done after.0 r.device_id ≡ ok (route_of d (kept_route s.keeps r) t.now))
  get_route-activate-stage s t db r expected d {db' = db'} o p h a g =
      let staged = stage_route-HasStaged b s db r expected o p h in
      let run =
        activate_route-staged t db' (kept_route s.keeps r) staged.others a staged.routes
          staged.fresh in
      rw run (refl, get_route-staged t db db' (kept_route s.keeps r) expected d staged g)

  -- StageRoute succeeds only if the version that it expects is that of the active route, and 0 if there is
  -- none. If ActivateRoute of the staged version follows, with all its statements answered, then that version
  -- is the active one.
  pub active_version-activate-stage :
      (s t : Session) (db : Database) (r : DeviceRoute) (expected : ℤ) {db' : Database}
      → Opens b.aead
      → Parses b.texts r.credential.generation_metadata
      → stage_route b s db r expected ≡ (db', ok tt)
      → IsAnswered t
      → (active_version r.device_id db ≡ expected)
        × (active_version r.device_id (activate_route b t db' r.device_id r.version).0 ≡ r.version)
  unfolding active_version max_of
  active_version-activate-stage s t db r expected {db' = db'} o p h a =
      let staged = stage_route-HasStaged b s db r expected o p h in
      (
        staged.current,
        rw
            (
              activate_route-staged t db' (kept_route s.keeps r) staged.others a staged.routes
                  staged.fresh,
              select-active (kept_route s.keeps r) t.now staged.others,
            )
            refl,
      )
