-- ===== src/Tests/Databases.antt =====
-- The store of internal/store/postgres.go with one device, and a cipher that only puts the nonce in front.
use proxy_mesh.Prelude.{
  ℕ, pos, pos_part, ◌/◌, ◌*◌, String, true, Option, none, some, [], ◌∷◌, ◌≡◌, refl, ok, nat_eq,
  string_eq, arith,
}
use proxy_mesh.Prelude.Map.{Map}
use proxy_mesh.Prelude.Bytes.{Bytes, read_full}
use proxy_mesh.Model.{
  Device, Time, DeviceRoute, zero_route, zero_device, primary_ingress, device_ingresses,
}
use proxy_mesh.Prelude.Json.{Parses}
use proxy_mesh.Cryptox.{encrypt}
use proxy_mesh.Provider.{Config, Definition}
use proxy_mesh.Tests.Fixtures.{plain_aead, plain_aead-Opens}
use proxy_mesh.Postgres.{Database, empty_database, Session, done, encrypt_text, Backend}
use proxy_mesh.Postgres.Devices.{
  encrypt_legacy, create_body, insert_ingresses, create_device, get_device,
}
use proxy_mesh.Postgres.Statements.{insert_device, insert_ingress, insert_credential, insert_route}
use proxy_mesh.Postgres.Rows.{first, max_of, select, unless}
use proxy_mesh.Postgres.RouteRows.{
  delete_credentials, credential_ids, active_version, kept_route, stage_body, stage_route,
  activate_route, get_route,
}
use proxy_mesh.Postgres.Others.{put_provider, upsert_provider, get_provider}
use proxy_mesh.Postgres.Superseded.{IsAnswered}
use proxy_mesh.Postgres.Activation.{route_of, get_route-activate-stage}
use proxy_mesh.Postgres.Created.{get_device-create_device}
use proxy_mesh.Postgres.Provided.{get_provider-upsert_provider}

abbrev empty_config : Config ℕ
empty_config = record {
  protocol = "socks5";
  host = record { default = ""; with_state = ""; with_city = ""; by_country = [] };
  port = record { default = pos 1080; by_country = [] };
  username = record { default = ""; with_state = ""; with_city = ""; by_country = [] };
  password = record { default = ""; with_state = ""; with_city = ""; by_country = [] };
  country_aliases = [];
  state_fallback_weights = [];
  state_fallback_by_country = [];
  session = record { type = ""; min = pos 0; max = pos 0; length = pos 0 };
  session_minutes = pos 10;
  route_ttl_minutes = pos 60;
}

abbrev only_empty : Map String String → Option Bytes
only_empty [] = some []
only_empty (x ∷ m) = none

abbrev backend : Backend ℕ
backend = record {
  aead = plain_aead;
  before = λ s t. true;
  texts = record { marshal = only_empty; unmarshal = λ b. some [] };
  config = record { marshal = λ c. some (123 ∷ []); unmarshal = λ b. some empty_config };
}

abbrev texts-Parses : Parses backend.texts []
texts-Parses = record { unmarshal-marshal = λ h. refl }

config-Parses : Parses backend.config empty_config
config-Parses = record { unmarshal-marshal = λ h. refl }

-- A time in nanoseconds, in whole microseconds.
abbrev microseconds : Time → Time
microseconds t = pos (pos_part t / 1000 * 1000)

abbrev answered : Session
answered = record {
  begins = true;
  answer = λ k. done;
  commit = done;
  random = λ k. 7 ∷ [];
  now = pos 100;
  keeps = microseconds;
}

answered-IsAnswered : IsAnswered answered
answered-IsAnswered = record { begun = refl; answered = λ k. refl; committed = refl }

abbrev phone : Device
phone = record zero_device {
  id = "phone";
  username = "phone";
  ingress_port = pos 2000;
  ingress_method = "aes-256-gcm";
  ingress_password = "password";
  created_at = pos 5001234;
}

abbrev with_phone : Database
with_phone = (create_device plain_aead answered empty_database phone).0

abbrev phone_read : Device
phone_read = record phone {
  ingresses = primary_ingress (pos 2000) "aes-256-gcm" "password" (pos 5001000) ∷ [];
  created_at = pos 5001000;
}

get_device-create_device_example :
    get_device plain_aead done done with_phone "phone" ≡ ok phone_read
unfolding create_device device_ingresses encrypt_legacy encrypt_text encrypt read_full create_body
    insert_device insert_ingresses insert_ingress
get_device-create_device_example =
    get_device-create_device plain_aead answered empty_database phone
      (primary_ingress (pos 2000) "aes-256-gcm" "password" (pos 5001234)) plain_aead-Opens
      (omega arith) refl refl refl

abbrev route : DeviceRoute
route = record zero_route {
  device_id = "phone";
  credential = record zero_route.credential {
    id = "proxy";
    host = "upstream";
    port = pos 1080;
    password = "secret";
    created_at = pos 6001234;
  };
  version = pos 1;
}

-- The tables with the route staged.
abbrev staged : Database
staged = (stage_route backend answered with_phone route (pos 0)).0

staged_run : stage_route backend answered with_phone route (pos 0) ≡ (staged, ok tt)
unfolding create_device device_ingresses encrypt_legacy encrypt_text encrypt read_full create_body
    insert_device insert_ingresses insert_ingress stage_route stage_body first active_version max_of
    select delete_credentials credential_ids insert_credential insert_route unless
staged_run = refl

get_route-activate-stage_example :
    ((activate_route backend answered staged "phone" (pos 1)).1 ≡ ok tt)
    × (get_route backend done done
          (activate_route backend answered staged "phone" (pos 1)).0
          "phone"
        ≡ ok (route_of phone_read (kept_route microseconds route) (pos 100)))
get_route-activate-stage_example =
    get_route-activate-stage backend answered answered with_phone route (pos 0) phone_read
      plain_aead-Opens texts-Parses staged_run answered-IsAnswered get_device-create_device_example

abbrev definition : Definition ℕ
definition = record {
  id = "provider";
  enabled = true;
  weight = pos 10;
  config = empty_config;
  secrets = [];
}

get_provider-upsert_provider_example :
    get_provider backend done (upsert_provider backend answered with_phone definition).0 "provider"
    ≡ ok definition
unfolding upsert_provider put_provider encrypt read_full
get_provider-upsert_provider_example =
    get_provider-upsert_provider backend answered with_phone definition plain_aead-Opens
      texts-Parses config-Parses refl
