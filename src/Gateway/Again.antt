-- ===== src/Gateway/Again.antt =====
-- A second ReconcileListeners of internal/dataplane/gateway.go finds nothing to do.
use proxy_mesh.Prelude.{ℤ, Bool, some, ◌≡◌, ok, arith, Result-cases, inl, inr, int_eq, [], sym, ◌∙◌}
use proxy_mesh.Prelude.Map.{Map, lookup}
use proxy_mesh.Model.{DeviceRoute}
use proxy_mesh.SsConfig.{SsLibrary}
use proxy_mesh.Table.{snapshot}
use proxy_mesh.Gateway.{Gateway, Listener, desired_routes, reconcile_listeners}
use proxy_mesh.Gateway.Claims.{claims, Wants, desired_routes-Wants}
use proxy_mesh.Gateway.Reconcile.{lookup-reconcile_listeners}
use proxy_mesh.Gateway.Usable.{Served, succeeds_of_Wants}

module _ (ss : SsLibrary) (listen : ℤ → Bool) (g : Gateway) where
  desired_of_success :
      (reconcile_listeners ss listen g).1 ≡ ok tt
      → (d : Map ℤ DeviceRoute) × (desired_routes (snapshot g.table) [] ≡ ok d)
  unfolding reconcile_listeners
  desired_of_success h = elim (Result-cases (desired_routes (snapshot g.table) [])) [
    | inl r ↦ r
    | inr (f, e) ↦ absurd (ground arith)
  ]

  pub table-reconcile_listeners : (reconcile_listeners ss listen g).0.table ≡ g.table
  unfolding reconcile_listeners
  table-reconcile_listeners = ground arith

  Served-of_claim :
      (d : Map ℤ DeviceRoute) (p : ℤ) (l : Listener)
      → Wants d (claims (snapshot g.table))
      → lookup p (claims (snapshot g.table)) ≡ some l
      → Served (some l) l
  Served-of_claim d p l w h = ground (arith, w.wanted p)

  -- After a reconciliation without an error, another one needs nothing of the system: it returns no error
  -- whatever ports the system refuses, and leaves each port the listener that it had.
  pub reconcile_listeners-again :
      (listen' : ℤ → Bool) (p : ℤ)
      → (reconcile_listeners ss listen g).1 ≡ ok tt
      → ((reconcile_listeners ss listen' (reconcile_listeners ss listen g).0).1 ≡ ok tt)
        × (lookup p (reconcile_listeners ss listen' (reconcile_listeners ss listen g).0).0.listeners
            ≡ lookup p (reconcile_listeners ss listen g).0.listeners)
  reconcile_listeners-again listen' p h =
      let g' = (reconcile_listeners ss listen g).0 in
      let (d, e) = desired_of_success h in
      let w = desired_routes-Wants (snapshot g.table) d e in
      let same : g'.table ≡ g.table = table-reconcile_listeners in
      let done : (reconcile_listeners ss listen' g').1 ≡ ok tt =
        succeeds_of_Wants ss listen' g' d (rw same w) (rw same e) (λ q l found.
          let claim : lookup q (claims (snapshot g.table)) ≡ some l = rw same at found in
          inl (
            rw (lookup-reconcile_listeners ss listen g q h, claim)
              (Served-of_claim d q l w claim))) in
      (
        done,
        lookup-reconcile_listeners ss listen' g' p done
            ∙ rw same (sym (lookup-reconcile_listeners ss listen g p h)),
      )
