-- ===== src/Store/Routes.antt =====
-- The versions of the routes in the store of internal/store/memory.go.
use proxy_mesh.Prelude.{
  Result, Option-cases, Bool-cases, inl, inr, sym, ◌⊎◌, err, ℤ, String, Bool, none, some, ◌==◌, ◌≡◌,
  refl, string_eq, int_eq, beq_ℤ_iff, eq_iff, if◌then◌else◌, ok, arith, subst, ◌∙◌,
}
use proxy_mesh.Prelude.Map.{lookup, insert, delete, lookup-insert, lookup-delete, delete-insert}
use proxy_mesh.Model.{DeviceRoute, route_active}
use proxy_mesh.Store.{conflict, StoreError, Memory, Held, version_of, stage_route, activate_route}

abbrev pub activated : Held → Held
activated h = record h { route = record h.route { status = route_active } }

pub then_of-same : {A : Type 0} (x y : A) (id : String) → (if id == id then x else y) ≡ x
then_of-same x y id = ground (arith, eq_iff id id)

not_activated : ¬ (◌≡◌ {A = Result StoreError (Unit {0})} (err conflict) (ok tt))
not_activated h = cc

module _ {F : Type 0} where
  pub stage_route-staged :
      (m : Memory F) (r : DeviceRoute) (shares : Bool) (expected : ℤ)
      → version_of (lookup r.device_id m.routes) ≡ expected
      → stage_route m r shares expected ≡ (
        record m { pending = insert r.device_id (record { route = r; shares = shares }) m.pending },
        ok tt,
      )
  unfolding stage_route
  stage_route-staged m r shares expected h =
      ground (arith, beq_ℤ_iff (version_of (lookup r.device_id m.routes)) expected)

  activate_route-activated :
      (m : Memory F) (id : String) (h : Held)
      → lookup id m.pending ≡ some h
      → activate_route m id h.route.version ≡ (
        record m { routes = insert id (activated h) m.routes; pending = delete id m.pending },
        ok tt,
      )
  unfolding activate_route
  activate_route-activated m id h e =
      rw (e, activate_route) (ground (arith, beq_ℤ_iff h.route.version h.route.version))

  -- A successful activation has made the pending route of that version the active one.
  pub activate_route-ok :
      (m : Memory F) (id : String) (version : ℤ)
      → (activate_route m id version).1 ≡ ok tt
      → (h : Held) × (lookup id m.pending ≡ some h)
        × (h.route.version ≡ version)
        × (lookup id (activate_route m id version).0.routes ≡ some (activated h))
  unfolding activate_route
  activate_route-ok m id version done = elim (Option-cases (lookup id m.pending)) [
    | inl e ↦
        let refused : (activate_route m id version).1 ≡ err conflict =
          rw (e, activate_route) refl in
        absurd (not_activated (sym refused ∙ done))
    | inr (h, e) ↦ elim (Bool-cases (h.route.version == version)) [
      | inl same ↦ (
        h,
        e,
        (beq_ℤ_iff h.route.version version).0 same,
        rw (e, activate_route, same)
            (lookup-insert id id (activated h) m.routes
              ∙ then_of-same (some (activated h)) (lookup id m.routes) id),
      )
      | inr other ↦
          let refused : (activate_route m id version).1 ≡ err conflict =
            rw (e, activate_route, other) refl in
          absurd (not_activated (sym refused ∙ done))
    ]
  ]

  -- After a route is staged and activated under its version, and whatever was pending before, it is the
  -- device's active route, it is no longer pending, and no other device's routes have changed. The staging
  -- takes the version of the route in the store as the expected one.
  pub activate-stage :
      (m : Memory F) (r : DeviceRoute) (shares : Bool) (expected : ℤ) (j : String)
      → version_of (lookup r.device_id m.routes) ≡ expected
      → let m' = (stage_route m r shares expected).0 in
        let m″ = (activate_route m' r.device_id r.version).0 in
        ((activate_route m' r.device_id r.version).1 ≡ ok tt)
        × (lookup j m″.routes ≡ (
            if r.device_id == j
            then some (activated (record { route = r; shares = shares }))
            else lookup j m.routes))
        × (lookup j m″.pending ≡ (if r.device_id == j then none else lookup j m.pending))
  activate-stage m r shares expected j h =
      let held : Held = record { route = r; shares = shares } in
      let m' : Memory F = record m { pending = insert r.device_id held m.pending } in
      rw (stage_route-staged m r shares expected h) (
        rw
          (activate_route-activated m' r.device_id held (
            ground (
              arith,
              lookup-insert r.device_id r.device_id held m.pending,
              eq_iff r.device_id r.device_id,
            )))
          (
            refl,
            lookup-insert r.device_id j (activated held) m.routes,
            rw (delete-insert r.device_id held m.pending) (lookup-delete r.device_id j m.pending),
          ))

  -- Two routes of one device with the same version, staged one after the other over the same active route:
  -- the activation of that version makes the second one active, whichever of the two calls makes it.
  pub activate-stage-stage :
      (m : Memory F) (r s : DeviceRoute) (r_shares s_shares : Bool) (expected : ℤ)
      → version_of (lookup r.device_id m.routes) ≡ expected
      → s.device_id ≡ r.device_id
      → s.version ≡ r.version
      → let m₁ = (stage_route m r r_shares expected).0 in
        let m₂ = (stage_route m₁ s s_shares expected).0 in
        lookup r.device_id (activate_route m₂ r.device_id r.version).0.routes
        ≡ some (activated (record { route = s; shares = s_shares }))
  activate-stage-stage m r s r_shares s_shares expected h same version =
      let m₁ = (stage_route m r r_shares expected).0 in
      let m₂ = (stage_route m₁ s s_shares expected).0 in
      let current : version_of (lookup s.device_id m₁.routes) ≡ expected =
        rw same (rw (stage_route-staged m r r_shares expected h) h) in
      subst
        (λ id.
          lookup id (activate_route m₂ id r.version).0.routes
          ≡ some (activated (record { route = s; shares = s_shares })))
        same
        (subst
          (λ v.
            lookup s.device_id (activate_route m₂ s.device_id v).0.routes
            ≡ some (activated (record { route = s; shares = s_shares })))
          version
          ((activate-stage m₁ s s_shares expected s.device_id current).1
            ∙ then_of-same _ _ s.device_id))

  -- A route is staged only over the version that it expects; else the store stays as it is.
  pub stage_route-expected :
      (m : Memory F) (r : DeviceRoute) (shares : Bool) (expected : ℤ)
      → ((version_of (lookup r.device_id m.routes) ≡ expected)
          × ((stage_route m r shares expected).1 ≡ ok tt))
        ⊎ (stage_route m r shares expected ≡ (m, err conflict))
  unfolding stage_route
  stage_route-expected m r shares expected =
      ground (arith, beq_ℤ_iff (version_of (lookup r.device_id m.routes)) expected)
