-- ===== src/Tests/Generators.antt =====
-- The generation of an endpoint of internal/provider/provider.go, with texts in lower case.
use proxy_mesh.Prelude.{
  ◌-ℤ◌, ◌+ℤ◌, ℕ, pos, String, true, [], ◌∷◌, ◌==◌, string_eq, ok, ◌≡◌, ◌≢◌, refl,
}
use proxy_mesh.Prelude.Bytes.{bytes_of, text_of}
use proxy_mesh.Provider.{Definition, Request, Endpoint, ValueRule, SessionRule}
use proxy_mesh.Provider.Random.{crypto_int, crypto_uint, draw_below}
use proxy_mesh.Prelude.Map.{lookup}
use proxy_mesh.Provider.Ports.{validate_port_rule, validate_ranges, select_port}
use proxy_mesh.Provider.Templates.{
  replace_all, templates, secret_names, select_template, fill_vars, replace_all, replace, strip,
  fill_secrets, match_secret, match_any, has_expression, span, Vars, render,
}
use proxy_mesh.Provider.Sessions.{
  alnum, normalize_country, normalize_location, Texts, Floats, generate_session,
}
use proxy_mesh.Provider.Generate.{
  is_valid_id, contains, choose_state, fill_endpoint, validate_definition, resolve_country,
  generate,
}
use proxy_mesh.Provider.Generated.{HasPort, generate-HasPort}

abbrev pub texts : Texts
texts = record { lower = λ s. s; trim = λ s. s; sprint = λ n. "10" }

abbrev pub floats : Floats ℕ
floats = record { is_positive = λ w. true; millionths = λ w. w }

abbrev rule_of : String → ValueRule
rule_of s = record { default = s; with_state = ""; with_city = ""; by_country = [] }

abbrev two_letters : SessionRule
two_letters = record { type = "alnum"; min = pos 0; max = pos 0; length = pos 2 }

abbrev pub definition : Definition ℕ
definition = record {
  id = "provider";
  enabled = true;
  weight = pos 10;
  config = record {
    protocol = "socks5";
    host = rule_of "upstream";
    port = record { default = pos 1080; by_country = [] };
    username = rule_of "{{city}}";
    password = rule_of "{{secret.k}}";
    country_aliases = [];
    state_fallback_weights = [];
    state_fallback_by_country = [];
    session = two_letters;
    session_minutes = pos 10;
    route_ttl_minutes = pos 60;
  };
  secrets = ("k", "s") ∷ [];
}

abbrev vars : Vars
vars = record { country = "de"; state = ""; city = "{{secret.k}}"; session = "ab"; duration = "10" }

session_run : generate_session texts two_letters (0 ∷ 1 ∷ []) ≡ ok ("ab", [])
unfolding generate_session alnum crypto_int crypto_uint draw_below ◌-ℤ◌ ◌+ℤ◌ text_of
session_run = refl

-- The city of a request is taken for an expression, and the secret is filled in.
secret_in_city : render "{{city}}" vars definition.secrets ≡ ok "s"
unfolding render fill_vars replace_all replace strip fill_secrets match_secret match_any
    has_expression span bytes_of text_of lookup
secret_in_city = refl

abbrev request : Request
request = record { country = "de"; state = ""; city = "berlin" }

abbrev endpoint : Endpoint
endpoint = record {
  provider_id = "provider";
  protocol = "socks5";
  host = "upstream";
  port = pos 1080;
  username = "berlin";
  password = "s";
  country = "de";
  state = "";
  city = "berlin";
  session_id = "ab";
}

generate_run :
    generate texts (λ s t. s == t) floats definition request (0 ∷ 1 ∷ []) ≡ ok (endpoint, [])
unfolding generate validate_definition is_valid_id templates contains secret_names
    validate_port_rule validate_ranges resolve_country normalize_country choose_state
    normalize_location fill_endpoint select_template select_port generate_session alnum crypto_int
    crypto_uint draw_below ◌-ℤ◌ ◌+ℤ◌ text_of render fill_vars replace_all replace strip fill_secrets
    match_secret match_any has_expression span bytes_of lookup
generate_run = refl

generate-HasPort_example :
    (validate_definition texts (λ s t. s == t) definition ≡ ok tt)
    × (◌≢◌ {A = String} "de" "")
    × HasPort definition "de" endpoint
unfolding resolve_country normalize_country lookup
generate-HasPort_example =
    generate-HasPort texts (λ s t. s == t) floats definition request (0 ∷ 1 ∷ []) generate_run
