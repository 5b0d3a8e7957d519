-- ===== src/Program/Started.antt =====
-- A gateway that has just been started by apps/gateway/main.go.
use proxy_mesh.Prelude.{
  ℤ, Bool, false, some, subst, int_eq, List, [], if_both, Result, ok, err, ◌≡◌, refl, ap, sym, ◌∙◌,
  bind-ok, ok-injective, if_cases, Result-cases, inl, inr, arith,
}
use proxy_mesh.Prelude.Json.{Json}
use proxy_mesh.Model.{DeviceRoute}
use proxy_mesh.SsConfig.{SsLibrary}
use proxy_mesh.Config.{config_string, config_bool}
use proxy_mesh.Cryptox.{Aead, Crypto, new}
use proxy_mesh.Snapshot.{SnapshotError, load_snapshot}
use proxy_mesh.Table.{snapshot, is_loaded, load, new_table}
use proxy_mesh.Gateway.Reconcile.{lookup-reconcile_listeners}
use proxy_mesh.Gateway.Again.{table-reconcile_listeners}
use proxy_mesh.Connections.{new_connections}
use proxy_mesh.Gateway.{
  Gateway, GatewayError, new_gateway, reconcile_listeners, desired_routes, ready,
}
use proxy_mesh.Client.{ControlClient}
use proxy_mesh.Client.Consistent.{ServesClaims, active_only-claims}
use proxy_mesh.Program.{Machine, loaded, held, ciphered, listening, start_gateway, start}

listening-unsynced :
    (r : Gateway × Result GatewayError (Unit {0})) {g : Gateway}
    → r.0.control_synced ≡ false
    → listening r ≡ ok g
    → g.control_synced ≡ false
listening-unsynced (g, ok done) off h = ap (λ w. w.control_synced) (sym (ok-injective h)) ∙ off
listening-unsynced (g, err e) off h = absurd (cc)

listening-ok :
    (r : Gateway × Result GatewayError (Unit {0})) {g : Gateway}
    → listening r ≡ ok g
    → (r.1 ≡ ok tt) × (r.0 ≡ g)
listening-ok (g, ok _) h = (refl, ok-injective h)
listening-ok (g, err e) h = absurd (cc)

module _ (ss : SsLibrary) where
  reconcile_listeners-synced :
      (listen : ℤ → Bool) (g : Gateway)
      → (reconcile_listeners ss listen g).0.control_synced ≡ g.control_synced
  unfolding reconcile_listeners
  reconcile_listeners-synced listen g = elim (Result-cases (desired_routes (snapshot g.table) [])) [
    | inl (desired, e) ↦ rw (e, reconcile_listeners) refl
    | inr (error, e) ↦ rw (e, reconcile_listeners) refl
  ]

  start_gateway-unsynced :
      (listen : ℤ → Bool) (found : Result SnapshotError (List DeviceRoute)) {g : Gateway}
      → start_gateway ss listen found ≡ ok g
      → g.control_synced ≡ false
  unfolding start_gateway new_gateway
  start_gateway-unsynced listen found {g = g} h =
      let before = new_gateway (loaded found) new_connections in
      if_both (λ r. r ≡ ok g → g.control_synced ≡ false) (is_loaded before.table)
        (listening (reconcile_listeners ss listen before)) (ok before)
        (listening-unsynced (reconcile_listeners ss listen before)
          (reconcile_listeners-synced listen before))
        (λ same. ap (λ w. w.control_synced) (sym (ok-injective same))) h

  -- A gateway that starts with routes has started the listeners that they claim.
  start_gateway-serves :
      (listen : ℤ → Bool) (port : ℤ) (routes : List DeviceRoute) {g : Gateway}
      → start_gateway ss listen (ok routes) ≡ ok g
      → (g.table ≡ load routes new_table) × ServesClaims port g
  unfolding start_gateway new_gateway is_loaded load
  start_gateway-serves listen port routes {g = g} h =
      let before = new_gateway (loaded (ok routes)) new_connections in
      let (done, same) = listening-ok (reconcile_listeners ss listen before) h in
      (
        ap (λ w. w.table) (sym same) ∙ table-reconcile_listeners ss listen before,
        subst (ServesClaims port) same (
            rw
              (
                table-reconcile_listeners ss listen before,
                lookup-reconcile_listeners ss listen before port done,
              )
              (active_only-claims (snapshot before.table) port)),
      )

  module _ (crypto : Crypto) (json : Json (List DeviceRoute)) where
    start-unsynced :
        (m : Machine) {c : ControlClient}
        → start ss crypto json m ≡ ok c
        → c.gateway.control_synced ≡ false
    unfolding start
    start-unsynced m h =
        let key =
          config_string m.getenv "SNAPSHOT_KEY" (config_string m.getenv "ENCRYPTION_KEY" "") in
        let a = bind-ok (ciphered (new crypto key)) _ h in
        let g = bind-ok (start_gateway ss m.listen (load_snapshot a.0 json m.disk)) _ a.2 in
        let off = start_gateway-unsynced m.listen (load_snapshot a.0 json m.disk) g.1 in
        ap (λ w. w.gateway.control_synced) (sym (ok-injective g.2))
        ∙ if_cases (λ (w : Gateway). w.control_synced ≡ false)
            (config_bool m.getenv "REQUIRE_CANARY" false) _ _ (λ e. off) (λ e. off)

    -- A gateway that has started with a snapshot file that can be read is not ready, its table is the one that the
    -- routes of the file load, and at every port it has exactly the active listener that those routes claim.
    pub start-ServesClaims :
        (m : Machine) (port : ℤ) {a : Aead} {routes : List DeviceRoute} {c : ControlClient}
        → new crypto
            (config_string m.getenv "SNAPSHOT_KEY" (config_string m.getenv "ENCRYPTION_KEY" ""))
          ≡ ok a
        → load_snapshot a json m.disk ≡ ok routes
        → start ss crypto json m ≡ ok c
        → (ready c.gateway ≡ false)
          × (c.gateway.table ≡ load routes new_table)
          × ServesClaims port c.gateway
          × (c.saved ≡ some routes)
    unfolding start ready
    start-ServesClaims m port {a = a} {routes = routes} {c = c} key read h =
        let opened =
          bind-ok
            (ciphered (
              new crypto (
                config_string m.getenv "SNAPSHOT_KEY"
                  (config_string m.getenv "ENCRYPTION_KEY" ""))))
            _ h in
        let same : opened.0 ≡ a = ok-injective (sym opened.1 ∙ ap ciphered key) in
        let found : load_snapshot opened.0 json m.disk ≡ ok routes =
          ap (λ w. load_snapshot w json m.disk) same ∙ read in
        let g =
          bind-ok (start_gateway ss m.listen (load_snapshot opened.0 json m.disk)) _ opened.2 in
        let (table, serves) =
          start_gateway-serves m.listen port routes
            (subst (λ r. start_gateway ss m.listen r ≡ ok g.0) found g.1) in
        (
          ground (arith, start-unsynced m h),
          ap (λ w. w.gateway.table) (sym (ok-injective g.2))
              ∙ if_cases (λ (w : Gateway). w.table ≡ load routes new_table)
                  (config_bool m.getenv "REQUIRE_CANARY" false) _ _ (λ e. table) (λ e. table),
          subst (λ (w : ControlClient). ServesClaims port w.gateway) (ok-injective g.2)
              (if_cases (λ (w : Gateway). ServesClaims port w)
                (config_bool m.getenv "REQUIRE_CANARY" false) _ _ (λ e. serves) (λ e. serves)),
          ap (λ w. w.saved) (sym (ok-injective g.2)) ∙ ap held found,
        )
