-- ===== src/Tests/Gateways.antt =====
-- The gateway of internal/dataplane/gateway.go and its connections on two routes.
use proxy_mesh.Prelude.{
  ℤ, pos, Bool, true, false, some, ◌≡◌, refl, inr, ok, differ, string_eq, int_eq, nat_eq,
}
use proxy_mesh.Prelude.Map.{AllEntries-lookup, lookup, insert, delete}
use proxy_mesh.Model.{route_ingresses}
use proxy_mesh.SsConfig.{IsValid, validate, validate-IsValid}
use proxy_mesh.Table.{load, load_active, new_table, snapshot}
use proxy_mesh.Gateway.{
  Gateway, Listener, new_gateway, set_control_synced, reconcile_listeners, prepare_device,
  desired_routes, add_ingresses, sweep, start_all, start_listener,
}
use proxy_mesh.Gateway.Claims.{claims, claims_of}
use proxy_mesh.Gateway.Reconcile.{Reconciled, reconcile_listeners-Reconciled}
use proxy_mesh.Gateway.Usable.{Startable, reconcile_listeners-succeeds}
use proxy_mesh.Gateway.Again.{reconcile_listeners-again}
use proxy_mesh.Gateway.Prepare.{Reserved, prepare_device-Reserved}
use proxy_mesh.Gateway.Admit.{
  Client, Allowed, Counts, handle_shadowsocks, handle_shadowsocks-Allowed,
}
use proxy_mesh.Tests.Fixtures.{any_ss, any_port, phone, loaded_gateway}

reconcile_listeners-Reconciled_example :
    Reconciled any_ss any_port loaded_gateway
      (pos 2000)
      (reconcile_listeners any_ss any_port loaded_gateway)
reconcile_listeners-Reconciled_example =
    reconcile_listeners-Reconciled any_ss any_port loaded_gateway (pos 2000)

phone-IsValid : IsValid any_ss "aes-256-gcm" "password"
unfolding validate
phone-IsValid = validate-IsValid any_ss "aes-256-gcm" "password" refl

reconcile_listeners-succeeds_example :
    (reconcile_listeners any_ss any_port loaded_gateway).1 ≡ ok tt
unfolding new_gateway snapshot load load_active new_table insert claims claims_of route_ingresses
    lookup
reconcile_listeners-succeeds_example =
    reconcile_listeners-succeeds any_ss any_port loaded_gateway
      (record {
        complete = (
          (differ "aes-256-gcm" "" refl, differ "password" "" refl),
          ((differ "aes-256-gcm" "" refl, differ "password" "" refl), tt),
        );
        distinct = (refl, (refl, tt));
      })
      (λ p l h. inr (
        AllEntries-lookup (Startable any_ss any_port) p l (claims (snapshot loaded_gateway.table))
          ((phone-IsValid, refl, refl), ((phone-IsValid, refl, refl), tt)) h))

reconciled : (reconcile_listeners any_ss any_port loaded_gateway).1 ≡ ok tt
unfolding reconcile_listeners desired_routes add_ingresses sweep start_all start_listener
    new_gateway snapshot load load_active new_table insert route_ingresses lookup validate delete
reconciled = refl

no_port : ℤ → Bool
no_port p = false

reconcile_listeners-again_example :
    ((reconcile_listeners any_ss no_port (reconcile_listeners any_ss any_port loaded_gateway).0).1
      ≡ ok tt)
    × (lookup
          (pos 2000)
          (reconcile_listeners any_ss no_port
            (reconcile_listeners any_ss any_port loaded_gateway).0).0.listeners
        ≡ lookup (pos 2000) (reconcile_listeners any_ss any_port loaded_gateway).0.listeners)
reconcile_listeners-again_example =
    reconcile_listeners-again any_ss any_port loaded_gateway no_port (pos 2000) reconciled

prepare_device-Reserved_example :
    Reserved "phone"
      (lookup (pos 2000) loaded_gateway.listeners)
      (lookup (pos 2000) (prepare_device any_ss any_port loaded_gateway phone).0.listeners)
prepare_device-Reserved_example =
    prepare_device-Reserved any_ss any_port phone loaded_gateway (pos 2000)

abbrev synced_gateway : Gateway
synced_gateway = set_control_synced loaded_gateway true

abbrev phone_listener : Listener
phone_listener = record {
  device_id = "phone";
  method = "aes-256-gcm";
  password = "password";
  active = true;
}

abbrev visitor : Client
visitor = record {
  now = pos 0;
  exposes_target = true;
  target = some "example.org:443";
  dial = λ r target. true;
  cancel = 7;
}

handle_shadowsocks-Allowed_example :
    Allowed synced_gateway phone_listener visitor
      (handle_shadowsocks synced_gateway phone_listener visitor).1
handle_shadowsocks-Allowed_example =
    handle_shadowsocks-Allowed synced_gateway phone_listener visitor
