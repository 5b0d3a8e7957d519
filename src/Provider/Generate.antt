-- ===== src/Provider/Generate.antt =====
-- Validate and Generate of internal/provider/provider.go.
use proxy_mesh.Prelude.{
  ℕ, pos, ltb_ℤ, leb_ℤ, leb, String, Bool, true, false, not, ◌&&◌, ◌||◌, Option, none, some, List,
  [], ◌∷◌, ◌++◌, ◌==◌, nat_eq, int_eq, string_eq, if◌then◌else◌, Result, ok, err, ◌>>=◌, is_empty,
  length, any,
}
use proxy_mesh.Prelude.Bytes.{Bytes, bytes_of, text_of}
use proxy_mesh.Prelude.Map.{Map, lookup}
use proxy_mesh.Provider.{ValueRule, SessionRule, Definition, Request, Endpoint}
use proxy_mesh.Provider.Ports.{RuleError, PortError, validate_port_rule, select_port}
use proxy_mesh.Provider.Templates.{
  RenderError, Vars, templates, select_template, strip, secret_names, render,
}
use proxy_mesh.Provider.Sessions.{
  Texts, Floats, SessionError, generate_session, weighted_string, normalize_country,
  normalize_location,
}

pub data GenerateError : Type 0 where
  invalid_id invalid_weight invalid_protocol missing_host plain_password : GenerateError
  missing_secret invalid_session invalid_minutes missing_country : GenerateError
  rule_error : RuleError → GenerateError
  session_error : SessionError → GenerateError
  render_error : RenderError → GenerateError
  port_error : PortError → GenerateError

abbrev lower_or_digit : ℕ → Bool
lower_or_digit c = leb 97 c && leb c 122 || leb 48 c && leb c 57

abbrev all_id_bytes : Bytes → Bool
all_id_bytes [] = true
all_id_bytes (c ∷ cs) = (lower_or_digit c || c == 46 || c == 95 || c == 45) && all_id_bytes cs

-- `^[a-z0-9][a-z0-9._-]{0,63}$`
abbrev matches_id : Bytes → Bool
matches_id [] = false
matches_id (c ∷ cs) = lower_or_digit c && all_id_bytes cs && leb (length cs) 63

unfoldable pub is_valid_id : String → Bool
is_valid_id s = matches_id (bytes_of s)

-- strings.Contains
unfoldable pub contains : Bytes → Bytes → Bool
contains part [] = is_empty part
contains part (c ∷ cs) =
    let rest = contains part cs in elim (strip part (c ∷ cs)) [ none ↦ rest | some after ↦ true ]

abbrev pub is_secretless : String → Bool
is_secretless t = not (t == "") && not (contains (bytes_of "{{secret.") (bytes_of t))

abbrev is_absent : Option String → Bool
is_absent none = true
is_absent (some s) = false

abbrev pub lacks : Map String String → String → Bool
lacks secrets t =
    any (λ name. is_absent (lookup (text_of name) secrets)) (secret_names (bytes_of t))

abbrev pub ruled : {A : Type 0} → Result RuleError A → Result GenerateError A
ruled (ok a) = ok a
ruled (err e) = err (rule_error e)

abbrev bad_session : SessionRule → Bool
bad_session r =
    not (r.type == "uuid" || r.type == "int" || r.type == "alnum")
    || r.type == "int" && (ltb_ℤ r.min (pos 0) || leb_ℤ r.max r.min)
    || r.type == "alnum" && (ltb_ℤ r.length (pos 1) || ltb_ℤ (pos 128) r.length)

abbrev pub sessioned : {A : Type 0} → Result SessionError A → Result GenerateError A
sessioned (ok a) = ok a
sessioned (err e) = err (session_error e)

abbrev rendered : {A : Type 0} → Result RenderError A → Result GenerateError A
rendered (ok a) = ok a
rendered (err e) = err (render_error e)

abbrev pub ported : {A : Type 0} → Result PortError A → Result GenerateError A
ported (ok a) = ok a
ported (err e) = err (port_error e)

-- A missing key of a map of texts reads as the empty text, and of a map of maps as the empty map.
abbrev value_of : Option String → String
value_of none = ""
value_of (some s) = s

abbrev entries_of : {A : Type 0} → Option (List A) → List A
entries_of none = []
entries_of (some m) = m

module _ {F : Type 0} (t : Texts) (equal_fold : String → String → Bool) where
  unfoldable pub validate_definition : Definition F → Result GenerateError (Unit {0})
  validate_definition d =
      if not (is_valid_id d.id)
      then err invalid_id
      else if ltb_ℤ d.weight (pos 0) || ltb_ℤ (pos 10000) d.weight
      then err invalid_weight
      else if not (equal_fold d.config.protocol "socks5")
      then err invalid_protocol
      else if d.config.host.default == "" && is_empty d.config.host.by_country
      then err missing_host
      else if any is_secretless (templates d.config.password)
      then err plain_password
      else if any (lacks d.secrets)
          (templates d.config.host ++ templates d.config.username ++ templates d.config.password)
      then err missing_secret
      else ruled (validate_port_rule d.config.port) >>= λ done.
          if bad_session d.config.session
          then err invalid_session
          else if ltb_ℤ d.config.session_minutes (pos 0) || ltb_ℤ d.config.route_ttl_minutes (pos 0)
          then err invalid_minutes
          else ok tt

  -- The country of a request, or the one that it is an alias of.
  unfoldable pub resolve_country : Definition F → String → String
  resolve_country d requested =
      let country = normalize_country t requested in
      let alias_ = value_of (lookup country d.config.country_aliases) in
      if alias_ == "" then country else normalize_country t alias_

  abbrev state_weights : Definition F → String → Map String F
  state_weights d country =
      let weights = entries_of (lookup country d.config.state_fallback_by_country) in
      if is_empty weights then d.config.state_fallback_weights else weights

  module _ (f : Floats F) where
    unfoldable pub choose_state :
        Definition F → String → String → List ℕ → Result SessionError (String × List ℕ)
    choose_state d country state words =
        if state == "" && not (is_empty (state_weights d country))
        then weighted_string f t (state_weights d country) words
        else ok (state, words)

    abbrev pub part : ValueRule → Definition F → Vars → Result GenerateError String
    part rule d v = rendered (render (select_template rule v.country v.state v.city) v d.secrets)

    unfoldable pub fill_endpoint :
        Definition F → Vars → List ℕ → Result GenerateError (Endpoint × List ℕ)
    fill_endpoint d v words = part d.config.host d v >>= λ host.
        part d.config.username d v >>= λ username. part d.config.password d v >>= λ password.
        ported (select_port d.config.port v.country words) >>= λ port. ok (
          record {
            provider_id = d.id;
            protocol = "socks5";
            host = host;
            port = port.0;
            username = username;
            password = password;
            country = v.country;
            state = v.state;
            city = v.city;
            session_id = v.session;
          },
          port.1,
        )

    unfoldable pub generate :
        Definition F → Request → List ℕ → Result GenerateError (Endpoint × List ℕ)
    generate d req words = validate_definition d >>= λ valid.
        if resolve_country d req.country == ""
        then err missing_country
        else sessioned
            (choose_state d (resolve_country d req.country) (normalize_location t req.state) words)
          >>= λ state. sessioned (generate_session t d.config.session state.1) >>= λ session.
              fill_endpoint d
                (record {
                  country = resolve_country d req.country;
                  state = state.0;
                  city = normalize_location t req.city;
                  session = session.0;
                  duration = t.sprint d.config.session_minutes;
                })
                session.1
