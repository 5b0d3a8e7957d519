-- ===== src/Client/Consistent.antt =====
-- What a synchronised gateway listens on, whatever frames it handles (internal/dataplane/control_client.go).
use proxy_mesh.Prelude.{
  ℤ, String, Bool, true, false, Option, none, some, List, [], ◌∷◌, ◌≡◌, refl, ok, arith,
  Result-cases, Bool-cases, inl, inr, if◌then◌else◌, string_eq, int_eq,
}
use proxy_mesh.Prelude.Map.{lookup}
use proxy_mesh.Model.{Device, DeviceIngress, DeviceRoute, route_ingresses}
use proxy_mesh.SsConfig.{SsLibrary}
use proxy_mesh.Frame.{Frame}
use proxy_mesh.Table
use proxy_mesh.Table.{snapshot}
use proxy_mesh.Table.Phases.{activate_error}
use proxy_mesh.Gateway.{
  Gateway, Listener, ready, reconcile_listeners, prepare_device, prepare_listener,
}
use proxy_mesh.Gateway.Claims.{claims, claims_of, lookup-append}
use proxy_mesh.Gateway.Reconcile.{lookup-reconcile_listeners}
use proxy_mesh.Gateway.Again.{table-reconcile_listeners}
use proxy_mesh.Gateway.Prepare.{Reserved, prepare_device-Reserved}
use proxy_mesh.Client.{
  ControlClient, System, Handled, handle, handle_snapshot, handle_prepare, handle_activate,
  handle_device_update, handle_device_prepare, reconcile_and_save, run_frames, parse_bool,
  with_table, handle_set_draining, table_prepare, handle_cases, with_route, with_device,
}

-- The listener, if it is active.
abbrev pub active_only : Option Listener → Option Listener
active_only none = none
active_only (some l) = if l.active then some l else none

-- At the port the gateway has an active listener exactly if the routes that it serves claim one, and then
-- with the claimed device, method and password.
abbrev pub ServesClaims : ℤ → Gateway → Type 0
ServesClaims p g = active_only (lookup p g.listeners) ≡ lookup p (claims (snapshot g.table))

abbrev ServesClaimsIf : Bool → ℤ → Gateway → Type 0
ServesClaimsIf true p g = ServesClaims p g
ServesClaimsIf false p g = Unit

-- Once the gateway is synchronised with the control plane, it serves the claims.
abbrev pub IsConsistent : ℤ → Gateway → Type 0
IsConsistent p g = ServesClaimsIf g.control_synced p g

active_only-claims_of :
    (r : DeviceRoute) (is : List DeviceIngress) (p : ℤ)
    → active_only (lookup p (claims_of r is)) ≡ lookup p (claims_of r is)
unfolding lookup claims_of
active_only-claims_of r [] p = refl
active_only-claims_of r (i ∷ is) p = ground (arith, active_only-claims_of r is p)

pub active_only-claims :
    (rs : List DeviceRoute) (p : ℤ) → active_only (lookup p (claims rs)) ≡ lookup p (claims rs)
unfolding lookup claims
active_only-claims [] p = refl
active_only-claims (r ∷ rs) p = ground (
  arith,
  lookup-append p (claims_of r (route_ingresses r)) (claims rs),
  active_only-claims_of r (route_ingresses r) p,
  active_only-claims rs p,
)

active_only-Reserved :
    (id : String) (a b : Option Listener) → Reserved id a b → active_only b ≡ active_only a
active_only-Reserved id none none h = refl
active_only-Reserved id none (some l) h = ground arith
active_only-Reserved id (some l) b h = rw h

module _ (ss : SsLibrary) (sys : System) (p : ℤ) where
  -- Listeners that are reserved for a device change no active one.
  prepare_device-IsConsistent :
      (g : Gateway) (d : Device)
      → IsConsistent p g
      → IsConsistent p (prepare_device ss sys.listen g d).0
  unfolding prepare_device
  prepare_device-IsConsistent g d v =
      let same =
        active_only-Reserved d.id (lookup p g.listeners)
          (lookup p (prepare_device ss sys.listen g d).0.listeners)
          (prepare_device-Reserved ss sys.listen d g p) in
      ground (arith, v, same)

  table_prepare-ServesClaims :
      (g : Gateway) (r : DeviceRoute)
      → ServesClaims p g
      → ServesClaims p (record g { table = (Table.prepare g.table r).0 })
  unfolding Table.prepare snapshot
  table_prepare-ServesClaims g r v = ground (arith, v)

  reconcile_listeners-ServesClaims :
      (g : Gateway)
      → (reconcile_listeners ss sys.listen g).1 ≡ ok tt
      → ServesClaims p (reconcile_listeners ss sys.listen g).0
  reconcile_listeners-ServesClaims g h =
      let rs = snapshot g.table in
      let there = lookup-reconcile_listeners ss sys.listen g p h in
      rw (table-reconcile_listeners ss sys.listen g, there) (active_only-claims rs p)

  reconcile_and_save-IsConsistent :
      (c : ControlClient) → IsConsistent p (reconcile_and_save ss sys c).0.gateway
  reconcile_and_save-IsConsistent c =
      elim (Result-cases (reconcile_listeners ss sys.listen c.gateway).1) [
        | inl (_, e) ↦ ground (arith, e, reconcile_listeners-ServesClaims c.gateway e)
        | inr (f, e) ↦ rw e tt
      ]

  handle_snapshot-IsConsistent :
      (c : ControlClient) (routes : List DeviceRoute)
      → IsConsistent p (handle_snapshot ss sys c routes).0.gateway
  unfolding handle_snapshot
  handle_snapshot-IsConsistent c routes =
      let g = record c.gateway { table = Table.load routes c.gateway.table } in
      elim (Bool-cases sys.save) [
        | inl saved ↦ elim (Result-cases (reconcile_listeners ss sys.listen g).1) [
          | inl (_, e) ↦ rw (saved, e) (reconcile_listeners-ServesClaims g e)
          | inr (f, e) ↦ rw (saved, e) tt
        ]
        | inr unsaved ↦ rw unsaved tt
      ]

  table_prepare-IsConsistent :
      (c : ControlClient) (r : DeviceRoute)
      → IsConsistent p c.gateway
      → IsConsistent p (table_prepare ss sys c r).0.gateway
  table_prepare-IsConsistent c r v = elim (Result-cases (Table.prepare c.gateway.table r).1) [
    | inl (_, e) ↦ ground (arith, e, v, table_prepare-ServesClaims c.gateway r)
    | inr (f, e) ↦ rw (e, table_prepare) tt
  ]

  prepare_listener-IsConsistent :
      (g : Gateway) (r : DeviceRoute)
      → IsConsistent p g
      → IsConsistent p (prepare_listener ss sys.listen g r).0
  unfolding prepare_listener
  prepare_listener-IsConsistent g r v = prepare_device-IsConsistent g _ v

  handle_prepare-IsConsistent :
      (c : ControlClient) (r : DeviceRoute)
      → IsConsistent p c.gateway
      → IsConsistent p (handle_prepare ss sys c r).0.gateway
  unfolding handle_prepare
  handle_prepare-IsConsistent c r v =
      let held = prepare_listener ss sys.listen c.gateway r in
      let kept = prepare_listener-IsConsistent c.gateway r v in
      elim (Result-cases held.1) [
        | inl (_, e) ↦
            rw (e, handle_prepare)
              (table_prepare-IsConsistent (record c { gateway = held.0 }) r kept)
        | inr (f, e) ↦ rw (e, handle_prepare) kept
      ]

  handle_activate-IsConsistent :
      (c : ControlClient) (r : DeviceRoute)
      → IsConsistent p c.gateway
      → IsConsistent p (handle_activate ss sys c r).0.gateway
  unfolding handle_activate
  handle_activate-IsConsistent c r v =
      let activated = Table.activate c.gateway.table r in
      elim (Result-cases activated.1) [
        | inl (_, e) ↦
            rw (e, handle_activate) (reconcile_and_save-IsConsistent (with_table c activated.0))
        | inr (f, e) ↦ rw (e, handle_activate) (rw (activate_error c.gateway.table r f e) v)
      ]

  handle_device_update-IsConsistent :
      (c : ControlClient) (d : Device) → IsConsistent p (handle_device_update ss sys c d).0.gateway
  unfolding handle_device_update
  handle_device_update-IsConsistent c d =
      reconcile_and_save-IsConsistent (with_table c (Table.update_device c.gateway.table d))

  handle_device_prepare-IsConsistent :
      (c : ControlClient) (d : Device)
      → IsConsistent p c.gateway
      → IsConsistent p (handle_device_prepare ss sys c d).0.gateway
  unfolding handle_device_prepare
  handle_device_prepare-IsConsistent c d v =
      let held = prepare_device ss sys.listen c.gateway d in
      let kept = prepare_device-IsConsistent c.gateway d v in
      elim (Result-cases held.1) [
        | inl (_, e) ↦ rw (e, handle_device_prepare) kept
        | inr (f, e) ↦ rw (e, handle_device_prepare) kept
      ]

  handle_set_draining-IsConsistent :
      (c : ControlClient) (b : Option Bool)
      → IsConsistent p c.gateway
      → IsConsistent p (handle_set_draining ss sys c b).0.gateway
  handle_set_draining-IsConsistent c none v = v
  handle_set_draining-IsConsistent c (some b) v = ground (arith, v)

  with_route-IsConsistent :
      (c : ControlClient) (r : Option DeviceRoute) (rest : DeviceRoute → Handled)
      → IsConsistent p c.gateway
      → ((r : DeviceRoute) → IsConsistent p (rest r).0.gateway)
      → IsConsistent p (with_route ss sys c r rest).0.gateway
  with_route-IsConsistent c none rest v h = v
  with_route-IsConsistent c (some r) rest v h = h r

  with_device-IsConsistent :
      (c : ControlClient) (d : Option Device) (rest : Device → Handled)
      → IsConsistent p c.gateway
      → ((d : Device) → IsConsistent p (rest d).0.gateway)
      → IsConsistent p (with_device ss sys c d rest).0.gateway
  with_device-IsConsistent c none rest v h = v
  with_device-IsConsistent c (some d) rest v h = h d

  -- No frame breaks the invariant, whatever the system does and whether or not the handler fails.
  pub handle-IsConsistent :
      (c : ControlClient) (f : Frame)
      → IsConsistent p c.gateway
      → IsConsistent p (handle ss sys c f).0.gateway
  handle-IsConsistent c f v =
      handle_cases (λ h. IsConsistent p h.0.gateway) ss sys c f
        (handle_snapshot-IsConsistent c f.routes)
        (with_route-IsConsistent c f.route (handle_prepare ss sys c) v
          (λ r. handle_prepare-IsConsistent c r v))
        (with_route-IsConsistent c f.route (handle_activate ss sys c) v
          (λ r. handle_activate-IsConsistent c r v))
        (with_device-IsConsistent c f.device (handle_device_update ss sys c) v
          (handle_device_update-IsConsistent c))
        (with_device-IsConsistent c f.device (handle_device_prepare ss sys c) v
          (λ d. handle_device_prepare-IsConsistent c d v))
        v (handle_set_draining-IsConsistent c (parse_bool f.device_id) v) v

run_frames-IsConsistent :
    (ss : SsLibrary) (c : ControlClient) (fs : List (System × Frame)) (p : ℤ)
    → IsConsistent p c.gateway
    → IsConsistent p (run_frames ss c fs).gateway
unfolding run_frames
run_frames-IsConsistent ss c [] p v = v
run_frames-IsConsistent ss c ((sys, f) ∷ fs) p v =
    run_frames-IsConsistent ss (handle ss sys c f).0 fs p (handle-IsConsistent ss sys p c f v)

serves_of_ready : (g : Gateway) (p : ℤ) → IsConsistent p g → ready g ≡ true → ServesClaims p g
unfolding ready
serves_of_ready g p v h = ground (arith, v)

-- A gateway starts out of step with the control plane. Whatever frames it then handles, with or without
-- errors, and whatever the system does: whenever it reports ready, its active listeners are at every port
-- exactly those that the served routes claim, with the claimed device, method and password.
pub run_frames-ServesClaims :
    (ss : SsLibrary) (c : ControlClient) (fs : List (System × Frame)) (p : ℤ)
    → c.gateway.control_synced ≡ false
    → ready (run_frames ss c fs).gateway ≡ true
    → ServesClaims p (run_frames ss c fs).gateway
run_frames-ServesClaims ss c fs p h =
    serves_of_ready (run_frames ss c fs).gateway p (run_frames-IsConsistent ss c fs p (rw h tt))
