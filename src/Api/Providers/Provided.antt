-- ===== src/Api/Providers/Provided.antt =====
-- What a route from a provider of internal/control/api.go is made of, and what follows from a 200.
use proxy_mesh.Prelude.{
  ℕ, pos, ◌≤ℤ◌, ltb_ℤ, String, string_eq, ◌==◌, ◌>>=◌, Bool, true, false, not, some, List, Result,
  ok, err, ◌≡◌, ◌≢◌, refl, sym, ◌∙◌, ap, subst, some-injective, arith, if_cases, bind-ok,
  ok-injective, Result-cases, inl, inr,
}
use proxy_mesh.Prelude.Map.{lookup}
use proxy_mesh.Model.{Device, DeviceRoute, Time}
use proxy_mesh.SsConfig.{SsLibrary}
use proxy_mesh.Client.{HandleError}
use proxy_mesh.Hub.Fleet.{Fleet}
use proxy_mesh.Store.{
  Memory, Held, stage_route, StoreError, not_found, conflict, panicked, get_provider, get_device,
  version_of,
}
use proxy_mesh.Provider.{Definition, Endpoint}
use proxy_mesh.Provider.Ports.{IsPort}
use proxy_mesh.Provider.Sessions.{Texts, Floats}
use proxy_mesh.Provider.Generate.{generate, validate_definition}
use proxy_mesh.Provider.Generated.{generate-HasPort}
use proxy_mesh.Api.{Deploying, Others, store_status, deploy_route}
use proxy_mesh.Api.Routes.{ServedBy, deploy_route-Active}
use proxy_mesh.Store.Routes.{activated}
use proxy_mesh.Api.Providers.{
  FromProvider, with_status, require, choose_provider, provided_route, route_from_provider,
  put_route_from_provider,
}

-- The route is that of the chosen provider, which is enabled and has a valid definition, for the stored device, over an endpoint
-- with a port.
pub record IsProvided {F : Type 0} (t : Texts) (equal_fold : String → String → Bool) (o : Others F)
    (m : Memory F) (id : String) (req : FromProvider) (words : List ℕ) (token : String) (now : Time)
    (r : DeviceRoute) : Type 0 where
  pub device : Device
  pub definition : Definition F
  pub endpoint : Endpoint
  pub rest : List ℕ
  pub stored : get_device (o.before_device m) id ≡ ok device
  pub chosen : choose_provider m req.provider_id words ≡ ok (definition, rest)
  pub enabled : definition.enabled ≡ true
  pub valid : validate_definition t equal_fold definition ≡ ok tt
  pub port : IsPort endpoint.port
  pub country : endpoint.country ≢ ""
  pub built : r ≡ provided_route device definition endpoint req.expected_version token now
  pub version : pos 0 ≤ℤ req.expected_version

with_status-ok :
    {E A : Type 0} (f : E → ℕ) (r : Result E A) {a : A} → with_status f r ≡ ok a → r ≡ ok a
with_status-ok f (ok a) h = ap ok (ok-injective h)
with_status-ok f (err e) h = absurd (cc)

abbrev err_or : {A : Type 0} → ℕ → Result ℕ A → ℕ
err_or n (ok a) = n
err_or n (err e) = e

require-ok : (b : Bool) (status : ℕ) {u : Unit {0}} → require b status ≡ ok u → b ≡ true
require-ok true status h = refl
require-ok false status h = absurd (cc)

-- An error is never answered with 200.
abbrev Refuses : {A : Type 0} → Result ℕ A → Type 0
Refuses r = (status : ℕ) → r ≡ err status → status ≢ 200

bind-Refuses :
    {A B : Type 0} (r : Result ℕ A) (k : A → Result ℕ B)
    → Refuses r
    → ((a : A) → Refuses (k a))
    → Refuses (r >>= k)
bind-Refuses (ok a) k first then status h = then a status h
bind-Refuses (err e) k first then status h = first status (cc)

require-Refuses : (b : Bool) (code : ℕ) → code ≢ 200 → Refuses (require b code)
require-Refuses true code other status h = absurd (cc)
require-Refuses false code other status h = λ same. other (ap (err_or 200) h ∙ same)

with_status-Refuses :
    {E A : Type 0} (f : E → ℕ) (r : Result E A) → ((e : E) → f e ≢ 200) → Refuses (with_status f r)
with_status-Refuses f (ok a) other status h = absurd (cc)
with_status-Refuses f (err e) other status h = λ same. other e (ap (err_or 200) h ∙ same)

other_store_status : (e : StoreError) → store_status e ≢ 200
other_store_status not_found = λ h. omega arith
other_store_status conflict = λ h. omega arith
other_store_status panicked = λ h. omega arith

module _ {F : Type 0} (t : Texts) (equal_fold : String → String → Bool) (f : Floats F) where
  route_from_provider-IsProvided :
      (o : Others F) (m : Memory F) (id : String) (req : FromProvider) (words : List ℕ)
      (token : String) (now : Time) {r : DeviceRoute}
      → route_from_provider t equal_fold f o m id req words token now ≡ ok r
      → IsProvided t equal_fold o m id req words token now r
  unfolding route_from_provider
  route_from_provider-IsProvided o m id req words token now h =
      let p = bind-ok (choose_provider m req.provider_id words) _ h in
      let checked = bind-ok (require (not (ltb_ℤ req.expected_version (pos 0))) 400) _ p.2 in
      let enabled = bind-ok (require p.0.0.enabled 409) _ checked.2 in
      let e =
        bind-ok
          (with_status (λ e. 400)
            (generate t equal_fold f p.0.0
              (record { country = req.country; state = req.state; city = req.city }) p.0.1))
          _ enabled.2 in
      let d = bind-ok (with_status store_status (get_device (o.before_device m) id)) _ e.2 in
      let made = generate-HasPort t equal_fold f p.0.0 _ p.0.1 (with_status-ok (λ e. 400) _ e.1) in
      let nonnegative : not (ltb_ℤ req.expected_version (pos 0)) ≡ true =
        require-ok _ 400 checked.1 in
      record {
        device = d.0;
        definition = p.0.0;
        endpoint = e.0.0;
        rest = p.0.1;
        chosen = p.1;
        stored = with_status-ok store_status (get_device (o.before_device m) id) d.1;
        enabled = require-ok p.0.0.enabled 409 enabled.1;
        valid = made.0;
        port = made.2.2;
        country = made.1;
        built = sym (ok-injective d.2);
        version = ground arith;
      }

  choose_provider-Refuses :
      (m : Memory F) (id : String) (words : List ℕ) → Refuses (choose_provider m id words)
  unfolding choose_provider
  choose_provider-Refuses m id words =
      if_cases Refuses (id == "") _ _ (λ e. with_status-Refuses (λ e. 409) _ (λ e h. omega arith))
        (λ e.
          bind-Refuses _ _ (with_status-Refuses store_status (get_provider m id) other_store_status)
            (λ a status h. absurd (cc)))

  route_from_provider-Refuses :
      (o : Others F) (m : Memory F) (id : String) (req : FromProvider) (words : List ℕ)
      (token : String) (now : Time)
      → Refuses (route_from_provider t equal_fold f o m id req words token now)
  unfolding route_from_provider
  route_from_provider-Refuses o m id req words token now =
      bind-Refuses (choose_provider m req.provider_id words) _
        (choose_provider-Refuses m req.provider_id words)
        (λ p.
          bind-Refuses (require (not (ltb_ℤ req.expected_version (pos 0))) 400) _
            (require-Refuses _ 400 (λ h. omega arith))
            (λ checked.
              bind-Refuses (require p.0.enabled 409) _ (require-Refuses _ 409 (λ h. omega arith))
                (λ enabled.
                  bind-Refuses _ _
                    (with_status-Refuses (λ e. 400)
                      (generate t equal_fold f p.0
                        (record { country = req.country; state = req.state; city = req.city }) p.1)
                      (λ e h. omega arith))
                    (λ e.
                      bind-Refuses _ _
                        (with_status-Refuses store_status (get_device (o.before_device m) id)
                          other_store_status)
                        (λ d status h. absurd (cc))))))

  module _ (ss : SsLibrary) (error_text : HandleError → String)
      (texts : (e : HandleError) → error_text e ≢ "") where
    put_route_from_provider-ok :
        (o : Others F) (m : Memory F) (fleet : Fleet) (net : Deploying) (id : String)
        (req : FromProvider) (words : List ℕ) (token : String) (now : Time) {r : DeviceRoute}
        → route_from_provider t equal_fold f o m id req words token now ≡ ok r
        → put_route_from_provider t equal_fold f ss error_text o m fleet net id req words token now
          ≡ deploy_route ss error_text o (o.before_device m) fleet net r true req.expected_version
    unfolding put_route_from_provider
    put_route_from_provider-ok o m fleet net id req words token now e =
        rw (e, put_route_from_provider)

    put_route_from_provider-err :
        (o : Others F) (m : Memory F) (fleet : Fleet) (net : Deploying) (id : String)
        (req : FromProvider) (words : List ℕ) (token : String) (now : Time) {status : ℕ}
        → route_from_provider t equal_fold f o m id req words token now ≡ err status
        → (put_route_from_provider t equal_fold f ss error_text o m fleet net id req words token
            now).status
          ≡ some status
    unfolding put_route_from_provider
    put_route_from_provider-err o m fleet net id req words token now e =
        rw (e, put_route_from_provider)

    -- If the text of a handler's error is never empty, and a request for a route from a provider is answered
    -- with 200, then, whatever other requests have done in between, a route was built of the stored device and
    -- of the chosen provider, which is enabled and has a valid definition, over an endpoint with a port from 1 to
    -- 65535 and a country; the version that was expected was that of the active route when the new one was
    -- staged; the route that was pending when the store was to activate it has the version after it, and is the
    -- active one in the store; and the new route is the active one on every gateway that was ready.
    pub put_route_from_provider-Active :
        (o : Others F) (m : Memory F) (fleet : Fleet) (net : Deploying) (id : String)
        (req : FromProvider) (words : List ℕ) (token : String) (now : Time)
        → (put_route_from_provider t equal_fold f ss error_text o m fleet net id req words token
            now).status
          ≡ some 200
        → (r : DeviceRoute) × IsProvided t equal_fold o m id req words token now r
          × (version_of (lookup r.device_id (o.before_stage (o.before_device m)).routes)
              ≡ req.expected_version)
          × ((h : Held) × (lookup r.device_id
                  (o.before_activate
                    (stage_route
                      (o.before_stage (o.before_device m))
                      r
                      true
                      req.expected_version).0).pending
                ≡ some h)
              × (h.route.version ≡ r.version)
              × (lookup r.device_id
                    (put_route_from_provider t equal_fold f ss error_text o m fleet net id req words
                      token now).store.routes
                  ≡ some (activated h)))
          × ServedBy net r (
              put_route_from_provider t equal_fold f ss error_text o m fleet net id req words token
                now)
    put_route_from_provider-Active o m fleet net id req words token now h =
        elim (Result-cases (route_from_provider t equal_fold f o m id req words token now)) [
          | inl (r, e) ↦
              let same = put_route_from_provider-ok o m fleet net id req words token now e in
              let (current, (held, pending, version, active), everywhere) =
                deploy_route-Active ss error_text texts o (o.before_device m) fleet net r true
                  req.expected_version (ap (λ w. w.status) (sym same) ∙ h) in
              (
                r,
                route_from_provider-IsProvided o m id req words token now e,
                current,
                (held, pending, version, ap (λ w. lookup r.device_id w.store.routes) same ∙ active),
                subst (ServedBy net r) (sym same) everywhere,
              )
          | inr (status, e) ↦ absurd (
              route_from_provider-Refuses o m id req words token now status e (
                some-injective
                  (sym (put_route_from_provider-err o m fleet net id req words token now e) ∙ h)))
        ]
