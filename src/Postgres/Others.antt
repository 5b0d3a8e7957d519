-- ===== src/Postgres/Others.antt =====
-- The methods of internal/store/postgres.go on providers, gateways, deployments and the audit.
use proxy_mesh.Prelude.{
  ℕ, suc, ℤ, pos, ◌-ℤ◌, ltb_ℤ, leb_ℤ, String, Bool, ◌&&◌, Option, List, [], ◌∷◌, ◌==◌, string_eq,
  int_eq, if◌then◌else◌, Result, ok, err, ◌>>=◌, any,
}
use proxy_mesh.Prelude.Bytes.{Bytes}
use proxy_mesh.Model.{Gateway, Time, gateway_offline}
use proxy_mesh.Provider.{Definition}
use proxy_mesh.Cryptox.{encrypt, decrypt}
use proxy_mesh.Postgres.{
  ProviderRow, DeploymentRow, Database, Session, Outcome, SqlError, other_error, Failure, from_sql,
  Backend, mapped, raw, auto, ciphered, parsed,
}
use proxy_mesh.Postgres.Rows.{first, update, order_by}
use proxy_mesh.Postgres.Devices.{found}

-- `INSERT … ON CONFLICT … DO UPDATE SET …`
unfoldable pub upsert : {R : Type 0} → (R → Bool) → R → List R → List R
upsert same row rows = if any same rows then update same (λ r. row) rows else row ∷ rows

abbrev pub is_provider : String → ProviderRow → Bool
is_provider id r = r.id == id

unfoldable pub put_provider : ProviderRow → Database → Result SqlError Database
put_provider row db =
    if leb_ℤ (pos 0) row.weight && leb_ℤ row.weight (pos 10000)
    then ok (record db { proxy_providers = upsert (is_provider row.id) row db.proxy_providers })
    else err other_error

abbrev pub provider_row : {F : Type 0} → Definition F → Bytes → Bytes → ProviderRow
provider_row d config secrets = record {
  id = d.id;
  enabled = d.enabled;
  weight = d.weight;
  config = config;
  secrets_cipher = secrets;
}

-- `CASE WHEN last_heartbeat_at < now() - interval '15 seconds' THEN 'OFFLINE' ELSE status END`
abbrev pub seen_at : Time → Gateway → Gateway
seen_at now g =
    if ltb_ℤ g.last_heartbeat_at (now -ℤ pos 15000000000)
    then record g { status = gateway_offline }
    else g

unfoldable pub seen : Time → List Gateway → List Gateway
seen now [] = []
seen now (g ∷ gs) = seen_at now g ∷ seen now gs

module _ {F : Type 0} (b : Backend F) where
  abbrev pub provider_columns : Session → Definition F → Result Failure ProviderRow
  provider_columns s d = parsed (b.config.marshal d.config) >>= λ config.
      parsed (b.texts.marshal d.secrets) >>= λ secrets.
      ciphered (encrypt b.aead (s.random 0) secrets) >>= λ cipher. ok (provider_row d config cipher)

  unfoldable pub upsert_provider :
      Session → Database → Definition F → Database × Result Failure (Unit {0})
  upsert_provider s db d = elim (provider_columns s d) [
    | err e ↦ (db, err e)
    | ok row ↦ auto from_sql (s.answer 0) db (put_provider row db)
  ]

  unfoldable pub get_provider : Outcome → Database → String → Result Failure (Definition F)
  get_provider o db id = mapped o (found (first (is_provider id) db.proxy_providers)) >>= λ r.
      parsed (b.config.unmarshal r.config) >>= λ config.
      ciphered (decrypt b.aead r.secrets_cipher) >>= λ plain.
      parsed (b.texts.unmarshal plain) >>= λ secrets. ok (record {
        id = r.id;
        enabled = r.enabled;
        weight = r.weight;
        config = config;
        secrets = secrets;
      })

  unfoldable pub get_providers :
      (ℕ → Outcome) → Database → List ProviderRow → Result Failure (List (Definition F))
  get_providers answer db [] = ok []
  get_providers answer db (r ∷ rs) = get_provider (answer 0) db r.id >>= λ d.
      get_providers (λ k. answer (suc k)) db rs >>= λ ds. ok (d ∷ ds)

  unfoldable pub list_providers : (ℕ → Outcome) → Database → Result Failure (List (Definition F))
  list_providers answer db =
      raw (answer 0) (ok (order_by (λ r x. b.before r.id x.id) db.proxy_providers))
      >>= get_providers (λ k. answer (suc k)) db

  unfoldable pub list_gateways : Session → Database → Result Failure (List Gateway)
  list_gateways s db =
      raw (s.answer 0) (ok (seen s.now (order_by (λ g x. b.before g.id x.id) db.gateways)))

abbrev pub is_gateway : String → Gateway → Bool
is_gateway id g = g.id == id

abbrev kept_gateway : (Time → Time) → Gateway → Gateway
kept_gateway keeps g = record g { last_heartbeat_at = keeps g.last_heartbeat_at }

unfoldable pub upsert_gateway : Session → Database → Gateway → Database × Result Failure (Unit {0})
upsert_gateway s db g =
    auto from_sql (s.answer 0) db
      (ok (record db { gateways = upsert (is_gateway g.id) (kept_gateway s.keeps g) db.gateways }))

-- `details` is the JSON of the details, if they can be marshalled.
unfoldable pub append_audit :
    Session
    → Database
    → String
    → String
    → String
    → Option Bytes
    → Database × Result Failure (Unit {0})
append_audit s db actor action resource details = elim (parsed details) [
  | err e ↦ (db, err e)
  | ok raw_details ↦ auto from_sql (s.answer 0) db (
      ok (record db {
        audit_events =
            record { actor = actor; action = action; resource = resource; details = raw_details }
            ∷ db.audit_events;
      }))
]

abbrev pub same_phase : DeploymentRow → DeploymentRow → Bool
same_phase row r =
    r.device_id == row.device_id
    && r.route_version == row.route_version
    && r.gateway_id == row.gateway_id
    && r.phase == row.phase

unfoldable pub record_route_deployment :
    Session
    → Database
    → String
    → ℤ
    → String
    → String
    → Bool
    → String
    → Database × Result Failure (Unit {0})
record_route_deployment s db device_id version gateway_id phase success message =
    let row : DeploymentRow = record {
      device_id = device_id;
      route_version = version;
      gateway_id = gateway_id;
      phase = phase;
      success = success;
      error = message;
      acknowledged_at = s.now;
    } in
    auto from_sql (s.answer 0) db
      (ok (record db { route_deployments = upsert (same_phase row) row db.route_deployments }))
