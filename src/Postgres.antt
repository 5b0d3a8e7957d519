-- ===== src/Postgres.antt =====
-- The store in PostgreSQL: internal/store/postgres.go over the tables of migrations/*.sql. A table is the list
-- of its rows; a statement is a function of the tables that refuses what the constraints of the migrations
-- forbid. Whether the server answers each statement and commit is an argument.
pub mod Rows
pub mod Statements
pub mod Devices
pub mod RouteRows
pub mod Answers
pub mod Staged
pub mod Provided
pub mod Created
pub mod Superseded
pub mod Activation
pub mod Others
use proxy_mesh.Prelude.{
  ℕ, ℤ, String, Bool, true, false, Option, none, some, List, [], if◌then◌else◌, Result, ok, err,
}
use proxy_mesh.Prelude.Map.{Map}
use proxy_mesh.Prelude.Bytes.{Bytes, bytes_of, text_of}
use proxy_mesh.Prelude.Json.{Json}
use proxy_mesh.Cryptox.{Aead, CipherError, encrypt, decrypt}
use proxy_mesh.Model.{Time, Gateway}
use proxy_mesh.Provider.{Config}

pub record DeviceRow : Type 0 where
  pub id : String
  pub username : String
  pub password_hash : String
  pub ingress_port : Option ℤ
  pub ingress_method : String
  pub ingress_password_cipher : Option Bytes
  pub enabled : Bool
  pub created_at : Time
  pub updated_at : Time

pub record IngressRow : Type 0 where
  pub device_id : String
  pub port : ℤ
  pub method : String
  pub password_cipher : Bytes
  pub is_primary : Bool
  pub created_at : Time

pub record CredentialRow : Type 0 where
  pub id : String
  pub host : String
  pub port : ℤ
  pub username : String
  pub password_cipher : Bytes
  pub expires_at : Option Time
  pub created_at : Time
  pub provider_id : Option String
  pub generation_metadata : Bytes

pub record RouteRow : Type 0 where
  pub device_id : String
  pub credential_id : String
  pub version : ℤ
  pub status : String
  pub updated_at : Time

pub record ProviderRow : Type 0 where
  pub id : String
  pub enabled : Bool
  pub weight : ℤ
  pub config : Bytes
  pub secrets_cipher : Bytes

pub record DeploymentRow : Type 0 where
  pub device_id : String
  pub route_version : ℤ
  pub gateway_id : String
  pub phase : String
  pub success : Bool
  pub error : String
  pub acknowledged_at : Time

pub record AuditRow : Type 0 where
  pub actor : String
  pub action : String
  pub resource : String
  pub details : Bytes

pub record Database : Type 0 where
  pub devices : List DeviceRow
  pub device_ingresses : List IngressRow
  pub proxy_credentials : List CredentialRow
  pub device_routes : List RouteRow
  pub proxy_providers : List ProviderRow
  pub gateways : List Gateway
  pub route_deployments : List DeploymentRow
  pub audit_events : List AuditRow

abbrev pub empty_database : Database
empty_database = record {
  devices = [];
  device_ingresses = [];
  proxy_credentials = [];
  device_routes = [];
  proxy_providers = [];
  gateways = [];
  route_deployments = [];
  audit_events = [];
}

-- pgx.ErrNoRows, the code 23505, and every other error.
pub data SqlError : Type 0 where
  no_rows unique_violation other_error : SqlError

-- The errors of the methods: ErrNotFound, ErrConflict, and those that are passed on.
pub data Failure : Type 0 where
  not_found conflict malformed : Failure
  from_sql : SqlError → Failure
  from_cipher : CipherError → Failure

unfoldable pub map_err : SqlError → Failure
map_err no_rows = not_found
map_err unique_violation = conflict
map_err other_error = from_sql other_error

-- The server carries a request out and answers, or refuses it, or carries it out and the answer is lost.
pub data Outcome : Type 0 where
  done refused unanswered : Outcome

-- What one call of a method meets: whether Begin succeeds, what the server does with the k-th statement and
-- with the commit, the bytes that the k-th encryption can read, now(), and what a column of type timestamptz, which
-- counts microseconds, keeps of a time of the program, which counts nanoseconds.
pub record Session : Type 0 where
  pub begins : Bool
  pub answer : ℕ → Outcome
  pub commit : Outcome
  pub random : ℕ → Bytes
  pub now : Time
  pub keeps : Time → Time

-- The cipher, the order of texts in the database, and the encoding of the two kinds of JSON.
pub record Backend (F : Type 0) : Type 0 where
  pub aead : Aead
  pub before : String → String → Bool
  pub texts : Json (Map String String)
  pub config : Json (Config F)

-- A statement whose error goes through mapErr, and one whose error is returned as it is.
abbrev pub mapped : {A : Type 0} → Outcome → Result SqlError A → Result Failure A
mapped done (ok a) = ok a
mapped done (err e) = err (map_err e)
mapped refused r = err (map_err other_error)
mapped unanswered r = err (map_err other_error)

abbrev pub raw : {A : Type 0} → Outcome → Result SqlError A → Result Failure A
raw done (ok a) = ok a
raw done (err e) = err (from_sql e)
raw refused r = err (from_sql other_error)
raw unanswered r = err (from_sql other_error)

-- A statement outside a transaction, with what becomes of its error.
abbrev pub auto :
    (SqlError → Failure)
    → Outcome
    → Database
    → Result SqlError Database
    → Database × Result Failure (Unit {0})
auto f done db (ok db') = (db', ok tt)
auto f done db (err e) = (db, err (f e))
auto f refused db r = (db, err (f other_error))
auto f unanswered db (ok db') = (db', err (f other_error))
auto f unanswered db (err e) = (db, err (f other_error))

abbrev pub committed :
    {A : Type 0} → Outcome → Database → Result Failure (Database × A) → Database × Result Failure A
committed o db (err e) = (db, err e)
committed done db (ok (db', a)) = (db', ok a)
committed refused db (ok (db', a)) = (db, err (from_sql other_error))
committed unanswered db (ok (db', a)) = (db', err (from_sql other_error))

-- Begin, the body, Commit, with the Rollback that is deferred.
abbrev pub transact :
    {A : Type 0}
    → Session
    → Database
    → (Database → Result Failure (Database × A))
    → Database × Result Failure A
transact s db body =
    if s.begins then committed s.commit db (body db) else (db, err (from_sql other_error))

abbrev pub ciphered : {A : Type 0} → Result CipherError A → Result Failure A
ciphered (ok a) = ok a
ciphered (err e) = err (from_cipher e)

abbrev pub parsed : {A : Type 0} → Option A → Result Failure A
parsed none = err malformed
parsed (some a) = ok a

unfoldable pub encrypt_text : Aead → Bytes → String → Result Failure Bytes
encrypt_text a random s = ciphered (encrypt a random (bytes_of s))

abbrev pub as_text : Result CipherError Bytes → Result Failure String
as_text (ok b) = ok (text_of b)
as_text (err e) = err (from_cipher e)

unfoldable pub decrypt_text : Aead → Bytes → Result Failure String
decrypt_text a value = as_text (decrypt a value)
