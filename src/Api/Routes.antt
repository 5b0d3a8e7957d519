-- ===== src/Api/Routes.antt =====
-- The route requests of internal/control/api.go: what the store and the gateways agree on after them.
use proxy_mesh.Prelude.{
  ℕ, ℤ, String, Bool, none, some, Option, Result, ◌≡◌, ◌≢◌, ok, err, arith, All, string_eq, inl,
  inr, refl, ◌∙◌, sym, ap, subst, some-injective,
}
use proxy_mesh.Prelude.Map.{lookup, lookup-insert}
use proxy_mesh.Model.{DeviceRoute, route_active}
use proxy_mesh.SsConfig.{SsLibrary}
use proxy_mesh.Client.{HandleError}
use proxy_mesh.Hub.{ready_sessions, HubError}
use proxy_mesh.Hub.Fleet.{Fleet, deploy_to_fleet}
use proxy_mesh.Hub.Agreement.{served, deploy_to_fleet-agrees}
use proxy_mesh.Store.{Memory, Held, conflict, stage_route, version_of}
use proxy_mesh.Store.Routes.{
  activated, stage_route-expected, then_of-same, activate_route-ok, stage_route-staged,
}
use proxy_mesh.Api.{
  deploy_status, deploy_staged, commit_route, Deploying, Served, Others, deploy_route,
}

other_status : ¬ (◌≡◌ {A = Option ℕ} (some 409) (some 200))
other_status h = ground arith

committed_of_status :
    {E : Type 0} (x : Option (Result (HubError E) (Unit {0})))
    → deploy_status x ≡ some 200
    → x ≡ some (ok tt)
committed_of_status none h = absurd (cc)
committed_of_status (some (err e)) h = absurd (ground arith)
committed_of_status (some (ok _)) h = refl

-- The route is the active one on every gateway that was ready.
abbrev pub ServedBy : {F : Type 0} → Deploying → DeviceRoute → Served F → Type 0
ServedBy net r x =
    All (λ s. served (lookup s.id x.fleet) r.device_id ≡ some (record r { status = route_active }))
      (ready_sessions net.hub)

-- The route is the active one in the store, and on every gateway that was ready.
abbrev pub Agrees : {F : Type 0} → Deploying → DeviceRoute → Bool → Served F → Type 0
Agrees net r shares x =
    (lookup r.device_id x.store.routes ≡ some (activated (record { route = r; shares = shares })))
    × ServedBy net r x

module _ {F : Type 0} (ss : SsLibrary) (error_text : HandleError → String)
    (texts : (e : HandleError) → error_text e ≢ "") where
  deploy_staged-agrees :
      (m : Memory F) (fleet : Fleet) (net : Deploying) (r : DeviceRoute)
      → (deploy_staged ss error_text m fleet net r).status ≡ some 200
      → ((commit_route ss error_text r m).1 ≡ ok tt)
        × ((deploy_staged ss error_text m fleet net r).store ≡ (commit_route ss error_text r m).0)
        × All
            (λ s.
              served (lookup s.id (deploy_staged ss error_text m fleet net r).fleet) r.device_id
              ≡ some (record r { status = route_active }))
            (ready_sessions net.hub)
  unfolding deploy_staged
  deploy_staged-agrees m fleet net r h =
      deploy_to_fleet-agrees ss error_text texts net.hub r net.request_id net.prepare_net
        net.activate_net (commit_route ss error_text r) m fleet
        (committed_of_status
          (deploy_to_fleet ss error_text net.hub r net.request_id net.prepare_net net.activate_net
            (commit_route ss error_text r) m fleet).result
          h)

  module _ (o : Others F) (m : Memory F) (fleet : Fleet) (net : Deploying) (r : DeviceRoute)
      (shares : Bool) (expected : ℤ) where
    deploy_route-stale :
        stage_route (o.before_stage m) r shares expected ≡ (o.before_stage m, err conflict)
        → (deploy_route ss error_text o m fleet net r shares expected).status ≡ some 409
    unfolding deploy_route
    deploy_route-stale e = rw (e, deploy_route) refl

    deploy_route-staged :
        (stage_route (o.before_stage m) r shares expected).1 ≡ ok tt
        → deploy_route ss error_text o m fleet net r shares expected
          ≡ deploy_staged ss error_text
              (o.before_activate (stage_route (o.before_stage m) r shares expected).0)
              (o.before_lock fleet)
              net
              r
    unfolding deploy_route
    deploy_route-staged e = rw (e, deploy_route) refl

    -- If the text of a handler's error is never empty, and a route request is answered with 200, then, whatever other
    -- requests have done in between, the version that it expected was that of the active route when it was staged;
    -- the route that was pending when the store was to activate it has its version, and is the active one in the
    -- store; and the route of the request is the active one on every gateway that was ready.
    pub deploy_route-Active :
        (deploy_route ss error_text o m fleet net r shares expected).status ≡ some 200
        → (version_of (lookup r.device_id (o.before_stage m).routes) ≡ expected)
          × ((h : Held) × (lookup r.device_id
                  (o.before_activate (stage_route (o.before_stage m) r shares expected).0).pending
                ≡ some h)
              × (h.route.version ≡ r.version)
              × (lookup r.device_id
                    (deploy_route ss error_text o m fleet net r shares expected).store.routes
                  ≡ some (activated h)))
          × ServedBy net r (deploy_route ss error_text o m fleet net r shares expected)
    deploy_route-Active h = elim (stage_route-expected (o.before_stage m) r shares expected) [
      | inr stale ↦ absurd (other_status (sym (deploy_route-stale stale) ∙ h))
      | inl (current, e) ↦
          let m' = o.before_activate (stage_route (o.before_stage m) r shares expected).0 in
          let same = deploy_route-staged e in
          let (committed, world, everywhere) =
            deploy_staged-agrees m' (o.before_lock fleet) net r
              (ap (λ x. x.status) (sym same) ∙ h) in
          let (held, pending, version, active) =
            activate_route-ok m' r.device_id r.version committed in
          (
            current,
            (
              held,
              pending,
              version,
              ap (λ (x : Served F). lookup r.device_id x.store.routes) same
                  ∙ ap (λ w. lookup r.device_id w.routes) world
                  ∙ active,
            ),
            subst (ServedBy net r) (sym same) everywhere,
          )
    ]

    staged_pending :
        version_of (lookup r.device_id (o.before_stage m).routes) ≡ expected
        → lookup r.device_id (stage_route (o.before_stage m) r shares expected).0.pending
          ≡ some (record { route = r; shares = shares })
    staged_pending h = rw (stage_route-staged (o.before_stage m) r shares expected h) (
        lookup-insert r.device_id r.device_id (record { route = r; shares = shares })
          (o.before_stage m).pending
        ∙ then_of-same _ _ r.device_id)

    -- If the text of a handler's error is never empty, a route request is answered with 200, and no other request
    -- has touched the pending route of the device between its staging and its activation, then the version that it
    -- expected was that of the active route when it was staged, and the store and every gateway that was ready
    -- agree: the route of the request is the active one.
    pub deploy_route-Agrees :
        (deploy_route ss error_text o m fleet net r shares expected).status ≡ some 200
        → lookup r.device_id
            (o.before_activate (stage_route (o.before_stage m) r shares expected).0).pending
          ≡ lookup r.device_id (stage_route (o.before_stage m) r shares expected).0.pending
        → (version_of (lookup r.device_id (o.before_stage m).routes) ≡ expected)
          × Agrees net r shares (deploy_route ss error_text o m fleet net r shares expected)
    deploy_route-Agrees h untouched =
        let (current, (held, pending, version, active), everywhere) = deploy_route-Active h in
        let own = some-injective (sym pending ∙ untouched ∙ staged_pending current) in
        (current, (active ∙ ap (λ w. some (activated w)) own, everywhere))
