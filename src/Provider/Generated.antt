-- ===== src/Provider/Generated.antt =====
-- What Generate of internal/provider/provider.go gives when it succeeds.
use proxy_mesh.Prelude.{
  ℕ, pos, ltb_ℤ, String, Bool, not, ◌&&◌, ◌||◌, List, ◌++◌, ◌==◌, string_eq, Result, ok, err, any,
  is_empty, ◌≡◌, ◌≢◌, refl, sym, ◌∙◌, ap, subst, bind-ok, refused_if, differ, ok-injective,
}
use proxy_mesh.Prelude.Map.{lookup}
use proxy_mesh.Provider.{Definition, Request, Endpoint}
use proxy_mesh.Provider.Ports.{
  RuleError, PortError, validate_port_rule, select_port, Selects, Allows, select_port-Selects,
  IsPort,
}
use proxy_mesh.Provider.Templates.{Vars, templates}
use proxy_mesh.Provider.Sessions.{Texts, Floats, normalize_location, generate_session}
use proxy_mesh.Provider.Generate.{
  invalid_id, invalid_weight, invalid_protocol, missing_host, plain_password, missing_secret,
  missing_country, is_valid_id, is_secretless, lacks, ruled, ported, part, sessioned,
  validate_definition, resolve_country, choose_state, fill_endpoint, generate,
}

ruled-ok : {A : Type 0} (r : Result RuleError A) {a : A} → ruled r ≡ ok a → r ≡ ok a
ruled-ok (ok a) h = ap ok (ok-injective h)
ruled-ok (err e) h = absurd (cc)

ported-ok : {A : Type 0} (r : Result PortError A) {a : A} → ported r ≡ ok a → r ≡ ok a
ported-ok (ok a) h = ap ok (ok-injective h)
ported-ok (err e) h = absurd (cc)

-- The parts of an endpoint that its variables and its definition settle.
abbrev pub HasPort : {F : Type 0} → Definition F → String → Endpoint → Type 0
HasPort d country e =
    (e.provider_id ≡ d.id)
    × (e.country ≡ country)
    × IsPort e.port
    × Allows d.config.port (lookup country d.config.port.by_country) e.port

module _ {F : Type 0} (t : Texts) (equal_fold : String → String → Bool) where
  -- A definition that is accepted has a valid rule for its ports.
  validate_definition-ports :
      (d : Definition F)
      → validate_definition t equal_fold d ≡ ok tt
      → validate_port_rule d.config.port ≡ ok tt
  unfolding validate_definition
  validate_definition-ports d h =
      let id = refused_if (not (is_valid_id d.id)) invalid_id _ h in
      let weight =
        refused_if (ltb_ℤ d.weight (pos 0) || ltb_ℤ (pos 10000) d.weight) invalid_weight _ id.1 in
      let protocol =
        refused_if (not (equal_fold d.config.protocol "socks5")) invalid_protocol _ weight.1 in
      let host =
        refused_if (d.config.host.default == "" && is_empty d.config.host.by_country) missing_host _
          protocol.1 in
      let plain =
        refused_if (any is_secretless (templates d.config.password)) plain_password _ host.1 in
      let secrets =
        refused_if
          (any (lacks d.secrets)
            (templates d.config.host ++ templates d.config.username ++ templates d.config.password))
          missing_secret _ plain.1 in
      let ports = bind-ok (ruled (validate_port_rule d.config.port)) _ secrets.1 in
      ruled-ok (validate_port_rule d.config.port) ports.1

  module _ (f : Floats F) where
    fill_endpoint-HasPort :
        (d : Definition F) (v : Vars) (words : List ℕ) {e : Endpoint} {rest : List ℕ}
        → validate_port_rule d.config.port ≡ ok tt
        → fill_endpoint t equal_fold f d v words ≡ ok (e, rest)
        → HasPort d v.country e
    unfolding fill_endpoint
    fill_endpoint-HasPort d v words valid h =
        let host = bind-ok (part t equal_fold f d.config.host d v) _ h in
        let username = bind-ok (part t equal_fold f d.config.username d v) _ host.2 in
        let password = bind-ok (part t equal_fold f d.config.password d v) _ username.2 in
        let port = bind-ok (ported (select_port d.config.port v.country words)) _ password.2 in
        let selects : Selects d.config.port v.country (ok port.0) =
          subst (Selects d.config.port v.country)
            (ported-ok (select_port d.config.port v.country words) port.1)
            (select_port-Selects d.config.port v.country words valid) in
        subst (λ w. HasPort d v.country w.0) (ok-injective port.2)
          (refl, refl, selects.0, selects.1)

    -- If Generate gives an endpoint, the definition is accepted by Validate, the endpoint names it and the
    -- country that the request resolves to, which is not empty, and its port is from 1 to 65535, in the
    -- country's range or the default.
    pub generate-HasPort :
        (d : Definition F) (req : Request) (words : List ℕ) {e : Endpoint} {rest : List ℕ}
        → generate t equal_fold f d req words ≡ ok (e, rest)
        → (validate_definition t equal_fold d ≡ ok tt)
          × (e.country ≢ "")
          × HasPort d (resolve_country t equal_fold d req.country) e
    unfolding generate
    generate-HasPort d req words h =
        let valid = bind-ok (validate_definition t equal_fold d) _ h in
        let country =
          refused_if (resolve_country t equal_fold d req.country == "") missing_country _ valid.2 in
        let state =
          bind-ok
            (sessioned (
              choose_state t equal_fold f d (resolve_country t equal_fold d req.country)
                (normalize_location t req.state) words))
            _ country.1 in
        let session =
          bind-ok (sessioned (generate_session t d.config.session state.0.1)) _ state.2 in
        let filled =
          fill_endpoint-HasPort d _ session.0.1 (validate_definition-ports d valid.1) session.2 in
        (valid.1, λ same. differ _ "" country.0 (sym filled.1 ∙ same), filled)
