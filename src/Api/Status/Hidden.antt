-- ===== src/Api/Status/Hidden.antt =====
-- What the responses of internal/control/api.go to a status or a list of providers depend on.
use proxy_mesh.Prelude.{
  String, Option, none, some, List, [], ◌∷◌, string_eq, int_eq, ℤ, pos, ◌==◌, if◌then◌else◌,
  if_cases, Option-cases, inl, inr, ℕ, ◌∙◌, Result, ok, err, ◌≡◌, refl, ap, sym, arith,
}
use proxy_mesh.Prelude.Map.{Map, lookup, values}
use proxy_mesh.Model.{
  DeviceIngress, Device, DeviceRoute, device_ingresses, or_legacy, primary_ingress,
}
use proxy_mesh.Provider.{Definition}
use proxy_mesh.Store.{Memory, Held, StoreError, not_found, get_device, get_route, list_providers}
use proxy_mesh.Api.Providers.{views, keys, providers, sanitize_provider}
use proxy_mesh.Api.{store_status}
use proxy_mesh.Api.Status.{
  RouteView, DeviceView, view_of, shown, ingress_views, sanitize_ingresses, sanitize_route,
  device_status,
}

abbrev hide_ingresses : List DeviceIngress → List DeviceIngress
hide_ingresses [] = []
hide_ingresses (i ∷ is) = record i { password = "" } ∷ hide_ingresses is

-- Without passwords.
abbrev hide_device : Device → Device
hide_device d = record d {
  password_hash = "";
  ingress_password = "";
  ingresses = hide_ingresses d.ingresses;
}

abbrev hide_held : Held → Held
hide_held h = record h {
  route = record h.route {
    password_hash = "";
    ingress_password = "";
    ingresses = hide_ingresses h.route.ingresses;
    credential = record h.route.credential { password = ""; encrypted_password = [] };
  };
}

abbrev found_route : Option Held → Result StoreError DeviceRoute
found_route none = err not_found
found_route (some h) = ok h.route

abbrev hide_secrets : Map String String → Map String String
hide_secrets [] = []
hide_secrets ((k, v) ∷ m) = (k, "") ∷ hide_secrets m

abbrev hide_definition : {F : Type 0} → Definition F → Definition F
hide_definition d = record d { secrets = hide_secrets d.secrets }

abbrev over : {V : Type 0} → (V → V) → Map String V → Map String V
over f [] = []
over f ((k, v) ∷ m) = (k, f v) ∷ over f m

-- The store with every password and the value of every secret taken out.
abbrev pub hide : {F : Type 0} → Memory F → Memory F
hide m = record m {
  devices = over hide_device m.devices;
  routes = over hide_held m.routes;
  pending = over hide_held m.pending;
  providers = over hide_definition m.providers;
}

abbrev option_map : {A B : Type 0} → (A → B) → Option A → Option B
option_map f none = none
option_map f (some a) = some (f a)

lookup-over :
    {V : Type 0} (f : V → V) (k : String) (m : Map String V)
    → lookup k (over f m) ≡ option_map f (lookup k m)
unfolding lookup
lookup-over f k [] = refl
lookup-over f k ((j, v) ∷ m) = ground (arith, lookup-over f k m)

ingress_views-hide :
    (is : List DeviceIngress) → ingress_views (hide_ingresses is) ≡ ingress_views is
ingress_views-hide [] = refl
ingress_views-hide (i ∷ is) = rw (ingress_views-hide is) refl

keys-hide : (m : Map String String) → keys (hide_secrets m) ≡ keys m
unfolding keys
keys-hide [] = refl
keys-hide ((k, v) ∷ m) = ap (λ ks. k ∷ ks) (keys-hide m)

legacy-hide :
    (is : List DeviceIngress) (port : ℤ) (legacy : DeviceIngress)
    → ingress_views (or_legacy (hide_ingresses is) port (record legacy { password = "" }))
      ≡ ingress_views (or_legacy is port legacy)
legacy-hide [] port legacy =
    if_cases
      (λ is.
        ingress_views (if port == pos 0 then [] else record legacy { password = "" } ∷ [])
        ≡ ingress_views is)
      (port == pos 0) _ _ (λ e. rw e refl) (λ e. rw e refl)
legacy-hide (i ∷ is) port legacy = rw (ingress_views-hide is) refl

sanitize_ingresses-hide : (d : Device) → sanitize_ingresses (hide_device d) ≡ sanitize_ingresses d
unfolding sanitize_ingresses device_ingresses
sanitize_ingresses-hide d =
    legacy-hide d.ingresses d.ingress_port
      (primary_ingress d.ingress_port d.ingress_method d.ingress_password d.created_at)

view-hide :
    (d : Device) (route : Option RouteView) → view_of (hide_device d) route ≡ view_of d route
view-hide d route = rw (sanitize_ingresses-hide d) refl

shown-hide :
    (d : Device) (h : Option Held)
    → shown (hide_device d) (found_route (option_map hide_held h)) ≡ shown d (found_route h)
unfolding sanitize_route
shown-hide d none = ap ok (view-hide d none)
shown-hide d (some h) = ap ok (view-hide d (some (sanitize_route h.route)))

views-hide :
    {F : Type 0} (m : Map String (Definition F))
    → views (values (over hide_definition m)) ≡ views (values m)
unfolding sanitize_provider
views-hide [] = refl
views-hide ((k, d) ∷ m) = rw (views-hide m, keys-hide d.secrets) refl

abbrev status_of : Option Device → Option Held → Result ℕ DeviceView
status_of none h = err (store_status not_found)
status_of (some d) h = shown d (found_route h)

status_of-hide :
    (d : Option Device) (h : Option Held)
    → status_of (option_map hide_device d) (option_map hide_held h) ≡ status_of d h
status_of-hide none h = refl
status_of-hide (some d) h = shown-hide d h

module _ {F : Type 0} where
  get_route-found : (m : Memory F) (id : String) → get_route m id ≡ found_route (lookup id m.routes)
  unfolding get_route
  get_route-found m id = elim (Option-cases (lookup id m.routes)) [
    | inl e ↦ rw (e, get_route) refl
    | inr (h, e) ↦ rw (e, get_route) refl
  ]

  device_status-found :
      (m : Memory F) (id : String)
      → device_status m id ≡ status_of (lookup id m.devices) (lookup id m.routes)
  unfolding device_status get_device
  device_status-found m id = elim (Option-cases (lookup id m.devices)) [
    | inl e ↦ rw (e, device_status, get_device) refl
    | inr (d, e) ↦ rw (e, device_status, get_device) (ap (shown d) (get_route-found m id))
  ]

  -- The responses to a device's status and to the list of providers do not depend on the passwords and password
  -- hashes of devices, ingresses and routes, nor on the values of the secrets of the stored providers. Nothing is said
  -- of a route's host and username, into which a template may have put a secret; these are shown.
  pub responses-hide :
      (m : Memory F) (id : String)
      → (device_status (hide m) id ≡ device_status m id) × (providers (hide m) ≡ providers m)
  unfolding providers list_providers
  responses-hide m id = (
    device_status-found (hide m) id
        ∙ ap (λ d. status_of d (lookup id (over hide_held m.routes)))
            (lookup-over hide_device id m.devices)
        ∙ ap (status_of (option_map hide_device (lookup id m.devices)))
            (lookup-over hide_held id m.routes)
        ∙ status_of-hide (lookup id m.devices) (lookup id m.routes)
        ∙ sym (device_status-found m id),
    views-hide m.providers,
  )
