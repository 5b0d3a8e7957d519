-- ===== src/Tests/Provided.antt =====
-- A route from a provider, on the store with one device, its first route and one provider and a fleet of one gateway.
use proxy_mesh.Prelude.{
  String, false, some, ◌≢◌, ◌↔◌, ◌⊎◌, [], differ, int_eq, pos, refl, string_eq, true, ℕ, ◌+ℤ◌, ◌-ℤ◌,
  ◌==◌, ◌∷◌, ◌≡◌,
}
use proxy_mesh.Prelude.Map.{delete, insert, lookup}
use proxy_mesh.Model.{DeviceRoute, device_ingresses, route_ingresses}
use proxy_mesh.SsConfig.{validate}
use proxy_mesh.Table.{activate, is_loaded, load, load_active, new_table, prepare, snapshot}
use proxy_mesh.Gateway.{
  add_ingresses, desired_routes, new_gateway, prepare_device, prepare_ingress, prepare_ingresses,
  prepare_listener, ready, reconcile_listeners, start_all, start_listener, sweep, validate_route,
}
use proxy_mesh.Client.{ack_of, handle, handle_activate, handle_prepare, handle_snapshot}
use proxy_mesh.Hub.{
  broadcast_and_wait, deployments, ready_sessions, send_all, wait_all, wait_session,
}
use proxy_mesh.Hub.Deploy
use proxy_mesh.Hub.Deploy.{second_phase, two_phase}
use proxy_mesh.Hub.Fleet.{deliver, deploy_to_fleet, event_of, react, traffic_of}
use proxy_mesh.Store
use proxy_mesh.Store.{
  Memory, Held, activate_route, get_device, get_provider, new_memory, stage_route, upsert_provider,
  version_of,
}
use proxy_mesh.Api.{Others, Served, deploy_route, deploy_staged}
use proxy_mesh.Api.Routes.{ServedBy}
use proxy_mesh.Store.Routes.{activated}
use proxy_mesh.Tests.Fixtures.{any_ss, phone_route}
use proxy_mesh.Prelude.Bytes.{bytes_of, text_of}
use proxy_mesh.Provider.Random.{crypto_int, crypto_uint, draw_below}
use proxy_mesh.Provider.Ports.{select_port, validate_port_rule, validate_ranges}
use proxy_mesh.Provider.Templates.{
  fill_secrets, fill_vars, has_expression, match_any, match_secret, render, replace, replace_all,
  secret_names, select_template, span, strip, templates,
}
use proxy_mesh.Provider.Sessions.{alnum, generate_session, normalize_country, normalize_location}
use proxy_mesh.Provider.Generate.{
  choose_state, contains, fill_endpoint, generate, is_valid_id, resolve_country,
  validate_definition,
}
use proxy_mesh.Api.Auth.{is_authorized, Carries, is_authorized-Carries}
use proxy_mesh.Api.Status.{device_status}
use proxy_mesh.Api.Status.Hidden.{hide, responses-hide}
use proxy_mesh.Api.Providers.{
  providers, FromProvider, choose_provider, provided_route, put_route_from_provider,
  route_from_provider,
}
use proxy_mesh.Api.Providers.Provided.{IsProvided, put_route_from_provider-Active}
use proxy_mesh.Tests.Generators.{definition, floats, texts}
use proxy_mesh.Tests.Apis.{deploying, fleet, one_device, text, undisturbed}

abbrev shop : Memory ℕ
shop =
    upsert_provider
      (activate_route (stage_route one_device (phone_route (pos 1)) true (pos 0)).0 "phone"
        (pos 1)).0
      definition

abbrev from_provider : FromProvider
from_provider = record {
  provider_id = "provider";
  country = "de";
  state = "";
  city = "berlin";
  expected_version = pos 1;
}

-- Another request stages a route of the same version between the staging and the activation.
abbrev disturbed : Others ℕ
disturbed = record undisturbed {
  before_activate = λ m. (stage_route m (phone_route (pos 2)) false (pos 1)).0;
}

abbrev provided : Served ℕ
provided =
    put_route_from_provider texts (λ s t. s == t) floats any_ss text disturbed shop fleet deploying
      "phone" from_provider (0 ∷ 1 ∷ []) "token" (pos 7)

put_route_from_provider-Active_example :
    (r : DeviceRoute) × IsProvided texts
      (λ s t. s == t)
      disturbed
      shop
      "phone"
      from_provider
      (0 ∷ 1 ∷ [])
      "token"
      (pos 7)
      r
    × (version_of (lookup r.device_id shop.routes) ≡ pos 1)
    × ((h : Held) × (lookup r.device_id
            (disturbed.before_activate (stage_route shop r true (pos 1)).0).pending
          ≡ some h)
        × (h.route.version ≡ r.version)
        × (lookup r.device_id provided.store.routes ≡ some (activated h)))
    × ServedBy deploying r provided
unfolding generate validate_definition is_valid_id templates contains secret_names
    validate_port_rule validate_ranges resolve_country normalize_country choose_state
    normalize_location fill_endpoint select_template select_port generate_session alnum crypto_int
    crypto_uint draw_below ◌-ℤ◌ ◌+ℤ◌ text_of render fill_vars replace_all replace strip fill_secrets
    match_secret match_any has_expression span bytes_of lookup deploy_route deploy_staged
    stage_route activate_route Store.create_device deploy_to_fleet Deploy.deploy_route two_phase
    second_phase broadcast_and_wait send_all wait_all wait_session ready_sessions traffic_of
    event_of deliver react deployments handle handle_snapshot handle_prepare handle_activate ready
    reconcile_listeners desired_routes add_ingresses sweep start_all start_listener new_gateway
    snapshot load load_active new_table insert route_ingresses validate delete prepare_listener
    prepare_device prepare_ingresses prepare_ingress validate_route prepare activate is_loaded
    device_ingresses ack_of put_route_from_provider route_from_provider choose_provider
    upsert_provider get_provider get_device provided_route
put_route_from_provider-Active_example =
    put_route_from_provider-Active texts (λ s t. s == t) floats any_ss text
      (λ e. differ "failed" "" refl) disturbed shop fleet deploying "phone" from_provider
      (0 ∷ 1 ∷ []) "token" (pos 7) refl

responses-hide_example :
    (device_status (hide shop) "phone" ≡ device_status shop "phone")
    × (providers (hide shop) ≡ providers shop)
responses-hide_example = responses-hide shop "phone"

is_authorized-Carries_example : (is_authorized "secret" "/v1/gateways" "Bearer secret" ≡ true) ↔ (
    (◌≡◌ {A = String} "/v1/gateways" "/live")
    ⊎ ((◌≢◌ {A = String} "secret" "") × Carries "Bearer secret" "secret"))
is_authorized-Carries_example = is_authorized-Carries "secret" "/v1/gateways" "Bearer secret"
