-- ===== src/Gateway/Reconcile.antt =====
-- ReconcileListeners of internal/dataplane/gateway.go: what listeners it leaves.
use proxy_mesh.Prelude.{
  ℤ, Bool, true, none, some, [], ◌∷◌, ◌==◌, ◌≡◌, ◌⊎◌, refl, string_eq, int_eq, beq_ℤ_iff, eq_iff,
  if◌then◌else◌, Result, ok, err, arith, Result-cases, Option-cases, Bool-cases, inl, inr,
}
use proxy_mesh.Prelude.Map.{
  Map, lookup, delete, lookup-insert, lookup-delete, Distinct, AllEntries, AllEntries-delete,
  Distinct-delete,
}
use proxy_mesh.Model.{DeviceRoute}
use proxy_mesh.SsConfig.{SsLibrary}
use proxy_mesh.Table.{snapshot}
use proxy_mesh.Gateway.{
  Gateway, Listener, GatewayError, desired_routes, sweep, serves, start_listener, start_all,
  reconcile_listeners,
}
use proxy_mesh.Gateway.Claims.{
  listener_of, claims, or_else, wanted, AtPort, Wants, desired_routes-Wants,
}

-- At each port, the loop over the listeners either keeps the wanted listener and wants no other, or
-- keeps none and wants what was wanted before.
abbrev pub Swept : ℤ → Map ℤ DeviceRoute → Map ℤ Listener × Map ℤ DeviceRoute → Type 0
Swept p d (kept, rest) =
    ((lookup p kept ≡ none) × (lookup p rest ≡ lookup p d))
    ⊎ ((lookup p kept ≡ wanted p d) × (lookup p rest ≡ none))

serves-wanted :
    (l : Listener) (p : ℤ) (d : Map ℤ DeviceRoute)
    → serves l (lookup p d) ≡ true
    → wanted p d ≡ some (record l { active = true })
serves-wanted l p d h = elim (Option-cases (lookup p d)) [
  | inl e ↦ absurd (ground arith)
  | inr (r, e) ↦ ground (
    arith,
    eq_iff l.device_id r.device_id,
    eq_iff l.method r.ingress_method,
    eq_iff l.password r.ingress_password,
  )
]

pub sweep-Swept : (ls : Map ℤ Listener) (d : Map ℤ DeviceRoute) (p : ℤ) → Swept p d (sweep ls d)
unfolding sweep lookup
sweep-Swept [] d p = inl (refl, refl)
sweep-Swept ((q, l) ∷ ls) d p = elim (Bool-cases (serves l (lookup q d))) [
  | inl keep ↦ rw keep (
      ground (
        arith,
        sweep-Swept ls (delete q d) p,
        lookup-delete q p d,
        beq_ℤ_iff q p,
        serves-wanted l q d keep,
      ))
  | inr drop ↦ rw drop (sweep-Swept ls d p)
]

pub sweep-rest :
    (ls : Map ℤ Listener) (d : Map ℤ DeviceRoute)
    → AllEntries AtPort d
    → Distinct d
    → AllEntries AtPort (sweep ls d).1 × Distinct (sweep ls d).1
unfolding sweep
sweep-rest [] d a u = (a, u)
sweep-rest ((q, l) ∷ ls) d a u = elim (Bool-cases (serves l (lookup q d))) [
  | inl keep ↦
      rw keep (sweep-rest ls (delete q d) (AllEntries-delete AtPort q d a) (Distinct-delete q d u))
  | inr drop ↦ rw drop (sweep-rest ls d a u)
]

module _ (ss : SsLibrary) (listen : ℤ → Bool) where
  -- A listener that is started stands at its port with its flag, and the others stay; if it cannot be
  -- started, all stay.
  abbrev pub Started :
      DeviceRoute
      → Bool
      → Map ℤ Listener
      → ℤ
      → Map ℤ Listener × Result GatewayError (Unit {0})
      → Type 0
  Started r active ls p (ls', ok _) = lookup p ls' ≡ (
      if r.ingress_port == p
      then some (record (listener_of r) { active = active })
      else lookup p ls)
  Started r active ls p (ls', err e) = ls' ≡ ls

  pub start_listener-Started :
      (r : DeviceRoute) (active : Bool) (ls : Map ℤ Listener) (p : ℤ)
      → Started r active ls p (start_listener ss listen r active ls)
  unfolding start_listener
  start_listener-Started r active ls p =
      ground (arith, lookup-insert r.ingress_port p (record (listener_of r) { active = active }) ls)

  -- The loop that starts the wanted listeners: without an error they all stand; else each port has its old
  -- listener or the wanted one.
  abbrev AllStarted :
      Map ℤ DeviceRoute
      → Map ℤ Listener
      → ℤ
      → Map ℤ Listener × Result GatewayError (Unit {0})
      → Type 0
  AllStarted d ls p (ls', ok _) = lookup p ls' ≡ or_else (wanted p d) (lookup p ls)
  AllStarted d ls p (ls', err e) =
      (lookup p ls' ≡ lookup p ls) ⊎ (lookup p ls' ≡ or_else (wanted p d) (lookup p ls))

  start_all-AllStarted :
      (d : Map ℤ DeviceRoute) (ls : Map ℤ Listener) (p : ℤ)
      → AllEntries AtPort d
      → Distinct d
      → AllStarted d ls p (start_all ss listen d ls)
  unfolding start_all lookup
  start_all-AllStarted [] ls p a u = refl
  start_all-AllStarted ((q, r) ∷ d) ls p a u = ground (
    arith,
    a,
    u,
    start_listener-Started r true ls p,
    start_all-AllStarted d (start_listener ss listen r true ls).0 p a.1 u.1,
    beq_ℤ_iff q p,
  )

  -- What a call of ReconcileListeners leaves at a port. Without an error it is the listener that the
  -- routes claim there, if any. With an error either the gateway is as before, since two routes claim one
  -- port or an ingress is incomplete, or there is no listener or the claimed one.
  abbrev pub Reconciled : Gateway → ℤ → Gateway × Result GatewayError (Unit {0}) → Type 0
  Reconciled g p (g', ok _) = lookup p g'.listeners ≡ lookup p (claims (snapshot g.table))
  Reconciled g p (g', err e) =
      ((g' ≡ g) × (desired_routes (snapshot g.table) [] ≡ err e))
      ⊎ (lookup p g'.listeners ≡ none)
      ⊎ (lookup p g'.listeners ≡ lookup p (claims (snapshot g.table)))

  Reconciled-of_Wants :
      (g : Gateway) (d : Map ℤ DeviceRoute) (p : ℤ)
      → Wants d (claims (snapshot g.table))
      → desired_routes (snapshot g.table) [] ≡ ok d
      → Reconciled g p (reconcile_listeners ss listen g)
  unfolding reconcile_listeners
  Reconciled-of_Wants g d p w e =
      let swept = sweep g.listeners d in
      let (at_port, distinct) = sweep-rest g.listeners d w.at_port w.distinct in
      rw (e, reconcile_listeners)
        (ground (
          arith,
          w.wanted p,
          sweep-Swept g.listeners d p,
          start_all-AllStarted swept.1 swept.0 p at_port distinct,
        ))

  -- After any call of ReconcileListeners no port has a listener with a device, method or password that no
  -- route claims, unless the routes are unusable and nothing changed; after a call without an error each
  -- port has exactly the listener that is claimed.
  pub reconcile_listeners-Reconciled :
      (g : Gateway) (p : ℤ) → Reconciled g p (reconcile_listeners ss listen g)
  unfolding reconcile_listeners
  reconcile_listeners-Reconciled g p = elim (Result-cases (desired_routes (snapshot g.table) [])) [
    | inl (d, e) ↦ Reconciled-of_Wants g d p (desired_routes-Wants (snapshot g.table) d e) e
    | inr (f, e) ↦ rw (e, reconcile_listeners) (inl (refl, e))
  ]

  claimed_of_ok :
      (g : Gateway) (p : ℤ) (r : Gateway × Result GatewayError (Unit {0}))
      → r.1 ≡ ok tt
      → Reconciled g p r
      → lookup p r.0.listeners ≡ lookup p (claims (snapshot g.table))
  claimed_of_ok g p (g', ok _) h c = c
  claimed_of_ok g p (g', err e) h c = absurd (cc)

  pub lookup-reconcile_listeners :
      (g : Gateway) (p : ℤ)
      → (reconcile_listeners ss listen g).1 ≡ ok tt
      → lookup p (reconcile_listeners ss listen g).0.listeners
        ≡ lookup p (claims (snapshot g.table))
  lookup-reconcile_listeners g p h =
      claimed_of_ok g p (reconcile_listeners ss listen g) h (reconcile_listeners-Reconciled g p)
