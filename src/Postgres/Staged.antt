-- ===== src/Postgres/Staged.antt =====
-- What StageRoute of internal/store/postgres.go leaves in the tables when it succeeds.
use proxy_mesh.Prelude.{
  ℕ, suc, ℤ, String, Bool, true, false, not, some, List, [], ◌∷◌, ◌==◌, string_eq, int_eq, ok, err,
  any, ◌≡◌, refl, sym, ◌∙◌, ap, bind-ok, refused_if, granted_if, ok-injective, Result-cases, inl,
  inr, beq_ℤ_iff,
}
use proxy_mesh.Prelude.Bytes.{Bytes}
use proxy_mesh.Model.{DeviceRoute, route_pending}
use proxy_mesh.Prelude.Json.{Parses}
use proxy_mesh.Cryptox.{Opens}
use proxy_mesh.Postgres.{
  Database, CredentialRow, RouteRow, Session, Failure, Backend, unique_violation, other_error,
  conflict, raw, mapped, transact, encrypt_text, decrypt_text, parsed,
}
use proxy_mesh.Postgres.Rows.{first, select}
use proxy_mesh.Postgres.Statements.{
  port_in_range, known_provider, is_device, has_status, is_version, insert_credential, insert_route,
  delete_credential,
}
use proxy_mesh.Postgres.Devices.{found}
use proxy_mesh.Postgres.RouteRows.{
  active_version, credential_ids, delete_credentials, without_pending, credential_row, route_row,
  kept_route, stage_body, stage_route,
}
use proxy_mesh.Postgres.Answers.{raw-ok, parsed-ok, transact-ok, decrypt_text-encrypt_text}

-- The route is the one row of its version, pending, over a credential row that holds its credential.
pub record HasStaged {F : Type 0} (b : Backend F) (db db' : Database) (r : DeviceRoute)
    (expected : ℤ) : Type 0 where
  pub current : active_version r.device_id db ≡ expected
  pub others : List RouteRow
  pub credentials : List CredentialRow
  pub cipher : Bytes
  pub metadata : Bytes
  pub routes : db'.device_routes ≡ route_row r ∷ others
  pub fresh : any (is_version r.device_id r.version) others ≡ false
  pub credential : db'.proxy_credentials ≡ credential_row r.credential cipher metadata ∷ credentials
  pub devices : db'.devices ≡ db.devices
  pub ingresses : db'.device_ingresses ≡ db.device_ingresses
  pub password : decrypt_text b.aead cipher ≡ ok r.credential.password
  pub parsed : b.texts.unmarshal metadata ≡ some r.credential.generation_metadata

not-false : (b : Bool) → not b ≡ false → b ≡ true
not-false true h = refl
not-false false h = absurd (cc)

insert_route-ok :
    (row : RouteRow) (db : Database) {db' : Database}
    → insert_route row db ≡ ok db'
    → (any (is_version row.device_id row.version) db.device_routes ≡ false)
      × (record db { device_routes = row ∷ db.device_routes } ≡ db')
unfolding insert_route
insert_route-ok row db h =
    let fresh = refused_if _ _ _ h in (fresh.0, ok-injective (granted_if _ _ _ fresh.1).1)

insert_credential-ok :
    (row : CredentialRow) (db : Database) {db' : Database}
    → insert_credential row db ≡ ok db'
    → record db { proxy_credentials = row ∷ db.proxy_credentials } ≡ db'
unfolding insert_credential
insert_credential-ok row db h =
    let in_range = refused_if (not (port_in_range row.port)) other_error _ h in
    let unique =
      refused_if (any (λ r. r.id == row.id) db.proxy_credentials) unique_violation _ in_range.1 in
    let known = granted_if (known_provider row.provider_id db) other_error _ unique.1 in
    ok-injective known.1

delete_credential-ok :
    (id : String) (db : Database) {db' : Database}
    → delete_credential id db ≡ ok db'
    → (db'.devices ≡ db.devices) × (db'.device_ingresses ≡ db.device_ingresses)
unfolding delete_credential
delete_credential-ok id db h =
    let e = ok-injective (refused_if _ _ _ h).1 in
    (sym (ap (λ d. d.devices) e), sym (ap (λ d. d.device_ingresses) e))

delete_credentials-ok :
    (s : Session) (k : ℕ) (ids : List String) (db : Database) {db' : Database}
    → delete_credentials s k ids db ≡ ok db'
    → (db'.devices ≡ db.devices) × (db'.device_ingresses ≡ db.device_ingresses)
unfolding delete_credentials
delete_credentials-ok s k [] db h =
    let e = ok-injective h in (sym (ap (λ d. d.devices) e), sym (ap (λ d. d.device_ingresses) e))
delete_credentials-ok s k (id ∷ ids) db h =
    let step = bind-ok _ (delete_credentials s (suc k) ids) h in
    let here = delete_credential-ok id db (raw-ok (s.answer k) _ step.1) in
    let rest = delete_credentials-ok s (suc k) ids step.0 step.2 in
    (rest.0 ∙ here.0, rest.1 ∙ here.1)

module _ {F : Type 0} (b : Backend F) where
  -- The two inserts, into tables that have kept the devices and their ingresses.
  inserted-HasStaged :
      (r : DeviceRoute) (expected : ℤ) (cipher metadata : Bytes) (db db₁ db₂ : Database)
      {db' : Database}
      → active_version r.device_id db ≡ expected
      → db₁.devices ≡ db.devices
      → db₁.device_ingresses ≡ db.device_ingresses
      → decrypt_text b.aead cipher ≡ ok r.credential.password
      → b.texts.unmarshal metadata ≡ some r.credential.generation_metadata
      → insert_credential (credential_row r.credential cipher metadata) db₁ ≡ ok db₂
      → insert_route (route_row r) db₂ ≡ ok db'
      → HasStaged b db db' r expected
  inserted-HasStaged r expected cipher metadata db db₁ db₂ current devices ingresses password parsed
        c h =
      let added = insert_credential-ok (credential_row r.credential cipher metadata) db₁ c in
      let inserted = insert_route-ok (route_row r) db₂ h in
      record {
        current = current;
        others = db₂.device_routes;
        credentials = db₁.proxy_credentials;
        cipher = cipher;
        metadata = metadata;
        routes = sym (ap (λ d. d.device_routes) inserted.1);
        fresh = inserted.0;
        credential =
            sym (ap (λ d. d.proxy_credentials) inserted.1)
            ∙ sym (ap (λ d. d.proxy_credentials) added);
        devices = sym (ap (λ d. d.devices) inserted.1) ∙ sym (ap (λ d. d.devices) added) ∙ devices;
        ingresses =
            sym (ap (λ d. d.device_ingresses) inserted.1)
            ∙ sym (ap (λ d. d.device_ingresses) added)
            ∙ ingresses;
        password = password;
        parsed = parsed;
      }

  stage_body-ok :
      (s : Session) (r : DeviceRoute) (expected : ℤ) (cipher : Bytes) (db : Database)
      {db' : Database}
      → Parses b.texts r.credential.generation_metadata
      → decrypt_text b.aead cipher ≡ ok r.credential.password
      → stage_body b s r expected cipher db ≡ ok (db', tt)
      → HasStaged b db db' r expected
  unfolding stage_body
  stage_body-ok s r expected cipher db p opens h =
      let device =
        bind-ok (mapped (s.answer 0) (found (first (is_device r.device_id) db.devices))) _ h in
      let version = bind-ok (raw (s.answer 1) (ok (active_version r.device_id db))) _ device.2 in
      let expects = refused_if (not (version.0 == expected)) conflict _ version.2 in
      let current : active_version r.device_id db ≡ expected =
        ok-injective (raw-ok (s.answer 1) (ok (active_version r.device_id db)) version.1)
        ∙ (beq_ℤ_iff version.0 expected).0 (not-false _ expects.0) in
      let stale =
        bind-ok
          (raw (s.answer 2)
            (ok (credential_ids (select (has_status r.device_id route_pending) db.device_routes))))
          _ expects.1 in
      let deleted =
        bind-ok (delete_credentials s 5 stale.0 (without_pending r.device_id db)) _ stale.2 in
      let json = bind-ok (parsed (b.texts.marshal r.credential.generation_metadata)) _ deleted.2 in
      let credential =
        bind-ok
          (raw (s.answer 3)
            (insert_credential (credential_row r.credential cipher json.0) deleted.0))
          _ json.2 in
      let route =
        bind-ok (raw (s.answer 4) (insert_route (route_row r) credential.0)) _ credential.2 in
      let kept = delete_credentials-ok s 5 stale.0 (without_pending r.device_id db) deleted.1 in
      inserted-HasStaged r expected cipher json.0 db deleted.0 credential.0 current kept.0 kept.1
        opens (p.unmarshal-marshal (parsed-ok _ json.1)) (raw-ok (s.answer 3) _ credential.1)
        (raw-ok (s.answer 4) _ route.1
          ∙ ap ok (ap (λ (w : Database × (Unit {0})). w.0) (ok-injective route.2)))

  stage_route-encrypted :
      (s : Session) (db : Database) (r : DeviceRoute) (expected : ℤ) {cipher : Bytes}
      → encrypt_text b.aead (s.random 0) r.credential.password ≡ ok cipher
      → stage_route b s db r expected
        ≡ transact s db (stage_body b s (kept_route s.keeps r) expected cipher)
  unfolding stage_route
  stage_route-encrypted s db r expected e = rw (e, stage_route) refl

  stage_route-refused :
      (s : Session) (db : Database) (r : DeviceRoute) (expected : ℤ) {x : Failure}
      → encrypt_text b.aead (s.random 0) r.credential.password ≡ err x
      → stage_route b s db r expected ≡ (db, err x)
  unfolding stage_route
  stage_route-refused s db r expected e = rw (e, stage_route) refl

  -- A successful StageRoute leaves the route staged, with what the columns keep of its times.
  pub stage_route-HasStaged :
      (s : Session) (db : Database) (r : DeviceRoute) (expected : ℤ) {db' : Database}
      → Opens b.aead
      → Parses b.texts r.credential.generation_metadata
      → stage_route b s db r expected ≡ (db', ok tt)
      → HasStaged b db db' (kept_route s.keeps r) expected
  stage_route-HasStaged s db r expected o p h =
      elim (Result-cases (encrypt_text b.aead (s.random 0) r.credential.password)) [
        | inl (cipher, e) ↦
            stage_body-ok s (kept_route s.keeps r) expected cipher db p
              (decrypt_text-encrypt_text b.aead (s.random 0) r.credential.password o e)
              (transact-ok s db (stage_body b s (kept_route s.keeps r) expected cipher)
                (sym (stage_route-encrypted s db r expected e) ∙ h))
        | inr (x, e) ↦ absurd (cc (ap (λ w. w.1) (sym (stage_route-refused s db r expected e) ∙ h)))
      ]
