-- ===== src/Api/Providers.antt =====
-- The handlers of internal/control/api.go on providers: putProvider, providers and putRouteFromProvider. A
-- response to a list is the list of its items. The random words are an argument.
pub mod Provided
use Prim.Native.Nat.{Ordering}
use Prim.Native.String.{compare}
use proxy_mesh.Prelude.{
  ℕ, ◌*◌, ℤ, pos, pos_part, ◌+ℤ◌, ltb_ℤ, String, Bool, true, false, not, Option, none, some, List,
  [], ◌∷◌, ◌==◌, string_eq, if◌then◌else◌, Result, ok, err, ◌>>=◌, is_empty,
}
use proxy_mesh.Prelude.Map.{Map}
use proxy_mesh.Model.{Device, DeviceRoute, Time, route_pending}
use proxy_mesh.SsConfig.{SsLibrary}
use proxy_mesh.Client.{HandleError}
use proxy_mesh.Hub.Fleet.{Fleet}
use proxy_mesh.Store.{Memory, StoreError, get_provider, list_providers, upsert_provider, get_device}
use proxy_mesh.Postgres.Rows.{order_by}
use proxy_mesh.Provider.{Config, Definition, Request, Endpoint}
use proxy_mesh.Provider.Weights.{SelectError, select_weighted}
use proxy_mesh.Provider.Sessions.{Texts, Floats}
use proxy_mesh.Provider.Generate.{GenerateError, validate_definition, generate}
use proxy_mesh.Api.{Deploying, Served, Others, store_status, deploy_route}

pub record PutProvider (F : Type 0) : Type 0 where
  pub enabled : Bool
  pub weight : ℤ
  pub config : Config F
  pub secrets : Map String String

-- A provider as a response shows it: the names of its secrets, in order, and not their values.
pub record ProviderView (F : Type 0) : Type 0 where
  pub id : String
  pub enabled : Bool
  pub weight : ℤ
  pub config : Config F
  pub secret_keys : List String

pub record FromProvider : Type 0 where
  pub provider_id : String
  pub country : String
  pub state : String
  pub city : String
  pub expected_version : ℤ

abbrev precedes : String → String → Bool
precedes s t = elim (compare s t) [ Ordering.gt ↦ false | _ ↦ true ]

unfoldable pub keys : Map String String → List String
keys [] = []
keys ((k, v) ∷ m) = k ∷ keys m

-- A step that fails gives the status of the response.
abbrev pub with_status : {E A : Type 0} → (E → ℕ) → Result E A → Result ℕ A
with_status f (ok a) = ok a
with_status f (err e) = err (f e)

abbrev pub require : Bool → ℕ → Result ℕ (Unit {0})
require true status = ok tt
require false status = err status

module _ {F : Type 0} where
  unfoldable pub sanitize_provider : Definition F → ProviderView F
  sanitize_provider d = record {
    id = d.id;
    enabled = d.enabled;
    weight = d.weight;
    config = d.config;
    secret_keys = order_by precedes (keys d.secrets);
  }

  abbrev pub views : List (Definition F) → List (ProviderView F)
  views [] = []
  views (d ∷ ds) = sanitize_provider d ∷ views ds

  unfoldable pub providers : Memory F → List (ProviderView F)
  providers m = views (list_providers m)

  abbrev kept_secrets : Map String String → Result StoreError (Definition F) → Map String String
  kept_secrets given (ok current) = current.secrets
  kept_secrets given (err e) = given

  -- The definition of a request: without secrets it keeps those of the stored one.
  unfoldable pub requested : Memory F → String → PutProvider F → Definition F
  requested m id req = record {
    id = id;
    enabled = req.enabled;
    weight = req.weight;
    config = req.config;
    secrets =
        if is_empty req.secrets then kept_secrets req.secrets (get_provider m id) else req.secrets;
  }

  -- putProvider, after the body is decoded: the store, and the status of an error or the response.
  unfoldable pub put_provider :
      Texts
      → (String → String → Bool)
      → Memory F
      → String
      → PutProvider F
      → Memory F × Result ℕ (ProviderView F)
  put_provider t equal_fold m id req =
      elim (validate_definition t equal_fold (requested m id req)) [
        | err e ↦ (m, err 400)
        | ok valid ↦
            (upsert_provider m (requested m id req), ok (sanitize_provider (requested m id req)))
      ]

  -- The provider that is named, or one that is drawn.
  unfoldable pub choose_provider : Memory F → String → List ℕ → Result ℕ (Definition F × List ℕ)
  choose_provider m id words =
      if id == ""
      then with_status (λ e. 409) (select_weighted (list_providers m) words)
      else (with_status store_status (get_provider m id) >>= λ d. ok (d, words))

abbrev expiry : ℤ → Time → Option Time
expiry minutes now =
    if ltb_ℤ (pos 0) minutes then some (now +ℤ pos (pos_part minutes * 60000000000)) else none

-- The route that is built of the device, the provider and its endpoint.
unfoldable pub provided_route :
    {F : Type 0} → Device → Definition F → Endpoint → ℤ → String → Time → DeviceRoute
provided_route d definition e expected token now = record {
  device_id = d.id;
  device_username = d.username;
  password_hash = "";
  ingress_port = d.ingress_port;
  ingress_method = d.ingress_method;
  ingress_password = d.ingress_password;
  ingresses = d.ingresses;
  credential = record {
    id = token;
    host = e.host;
    port = e.port;
    username = e.username;
    password = e.password;
    encrypted_password = [];
    expires_at = expiry definition.config.route_ttl_minutes now;
    created_at = now;
    provider_id = definition.id;
    generation_metadata = ("country", e.country) ∷ ("state", e.state) ∷ ("city", e.city) ∷ [];
  };
  version = expected +ℤ pos 1;
  status = route_pending;
  updated_at = now;
}

module _ {F : Type 0} (t : Texts) (equal_fold : String → String → Bool) (f : Floats F) where
  -- putRouteFromProvider up to deployRoute: the route, or the status of an error. The provider is read of the
  -- store at the start, and the device after what other requests may have done.
  unfoldable pub route_from_provider :
      Others F → Memory F → String → FromProvider → List ℕ → String → Time → Result ℕ DeviceRoute
  route_from_provider o m id req words token now = choose_provider m req.provider_id words >>= λ p.
      require (not (ltb_ℤ req.expected_version (pos 0))) 400 >>= λ checked.
      require p.0.enabled 409 >>= λ enabled.
      with_status (λ e. 400)
        (generate t equal_fold f p.0
          (record { country = req.country; state = req.state; city = req.city }) p.1)
      >>= λ e. with_status store_status (get_device (o.before_device m) id) >>= λ d.
          ok (provided_route d p.0 e.0 req.expected_version token now)

  unfoldable pub put_route_from_provider :
      SsLibrary
      → (HandleError → String)
      → Others F
      → Memory F
      → Fleet
      → Deploying
      → String
      → FromProvider
      → List ℕ
      → String
      → Time
      → Served F
  put_route_from_provider ss error_text o m fleet net id req words token now =
      elim (route_from_provider o m id req words token now) [
        | err status ↦ record { store = m; fleet = fleet; status = some status }
        | ok r ↦
            deploy_route ss error_text o (o.before_device m) fleet net r true req.expected_version
      ]
