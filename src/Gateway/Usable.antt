-- ===== src/Gateway/Usable.antt =====
-- When ReconcileListeners of internal/dataplane/gateway.go succeeds.
use proxy_mesh.Prelude.{
  ℤ, Bool, true, Option, none, some, [], ◌∷◌, ◌≡◌, ◌⊎◌, refl, string_eq, int_eq, beq_ℤ_iff, eq_iff,
  ok, arith, Option-cases, Bool-cases, inl, inr,
}
use proxy_mesh.Prelude.Map.{
  Map, lookup, delete, lookup-delete, AllEntries, entries_of_lookup, AllEntries-lookup,
}
use proxy_mesh.Model.{DeviceRoute}
use proxy_mesh.SsConfig.{SsLibrary, IsValid, validate_of-IsValid}
use proxy_mesh.Table.{snapshot}
use proxy_mesh.Gateway.{
  Gateway, Listener, desired_routes, sweep, serves, start_listener, start_all, reconcile_listeners,
}
use proxy_mesh.Gateway.Reconcile.{sweep-Swept, sweep-rest}
use proxy_mesh.Gateway.Claims.{listener_of, claims, AtPort, Wants, desired_routes-Wants}
use proxy_mesh.Gateway.Desired.{IsUsable, desired_routes-succeeds, Fresh-nil}

-- A listener that the server library takes and whose port the system gives.
abbrev pub Startable : SsLibrary → (ℤ → Bool) → ℤ → Listener → Type 0
Startable ss listen p l =
    IsValid ss l.method l.password × (ss.server_init l.method l.password ≡ true) × (listen p ≡ true)

module _ (ss : SsLibrary) (listen : ℤ → Bool) where
  start_listener-succeeds :
      (r : DeviceRoute) (active : Bool) (ls : Map ℤ Listener)
      → Startable ss listen r.ingress_port (listener_of r)
      → (start_listener ss listen r active ls).1 ≡ ok tt
  unfolding start_listener
  start_listener-succeeds r active ls (valid, init, bound) =
      rw (validate_of-IsValid ss r.ingress_method r.ingress_password valid, start_listener)
        (ground (arith, valid.accepted, init, bound))

  start_all-succeeds :
      (d : Map ℤ DeviceRoute) (ls : Map ℤ Listener)
      → AllEntries (λ p r. Startable ss listen r.ingress_port (listener_of r)) d
      → (start_all ss listen d ls).1 ≡ ok tt
  unfolding start_all
  start_all-succeeds [] ls a = refl
  start_all-succeeds ((p, r) ∷ d) ls a =
      rw (start_listener-succeeds r true ls a.0, start_all)
        (start_all-succeeds d (start_listener ss listen r true ls).0 a.1)

-- The listener at the port is the claimed one, apart from its flag.
abbrev pub Served : Option Listener → Listener → Type 0
Served none l = ⊥
Served (some k) l = record k { active = true } ≡ l

serves_of_Served :
    (k : Listener) (r : DeviceRoute)
    → record k { active = true } ≡ listener_of r
    → serves k (some r) ≡ true
serves_of_Served k r h = ground (
  arith,
  eq_iff k.device_id r.device_id,
  eq_iff k.method r.ingress_method,
  eq_iff k.password r.ingress_password,
)

-- The loop over the listeners wants no listener at a port that has the wanted one.
sweep-served :
    (ls : Map ℤ Listener) (d : Map ℤ DeviceRoute) (p : ℤ) (k : Listener)
    → lookup p ls ≡ some k
    → serves k (lookup p d) ≡ true
    → lookup p (sweep ls d).1 ≡ none
unfolding sweep lookup
sweep-served [] d p k h s = absurd (ground arith)
sweep-served ((q, l) ∷ ls) d p k h s = elim (Bool-cases (serves l (lookup q d))) [
  | inl keep ↦ rw keep (
      ground (
        arith,
        sweep-Swept ls (delete q d) p,
        sweep-served ls (delete q d) p k,
        lookup-delete q p d,
        beq_ℤ_iff q p,
      ))
  | inr drop ↦ rw drop (ground (arith, beq_ℤ_iff q p, sweep-served ls d p k))
]

module _ (ss : SsLibrary) (listen : ℤ → Bool) (g : Gateway) where
  -- A claimed listener is there already, or it can be started.
  abbrev pub Available : ℤ → Listener → Type 0
  Available p l = Served (lookup p g.listeners) l ⊎ Startable ss listen p l

  unserved_of_rest :
      (d : Map ℤ DeviceRoute) (p : ℤ) (r : DeviceRoute)
      → lookup p (sweep g.listeners d).1 ≡ some r
      → (lookup p d ≡ some r) × ¬ Served (lookup p g.listeners) (listener_of r)
  unserved_of_rest d p r h =
      let here : lookup p d ≡ some r = ground (arith, sweep-Swept g.listeners d p) in
      (
        here,
        λ s. elim (Option-cases (lookup p g.listeners)) [
          | inl e ↦ absurd (rw e at s)
          | inr (k, e) ↦
              let again =
                sweep-served g.listeners d p k e (rw here (serves_of_Served k r (rw e at s))) in
              cc (again, h)
        ],
      )

  pub succeeds_of_Wants :
      (d : Map ℤ DeviceRoute)
      → Wants d (claims (snapshot g.table))
      → desired_routes (snapshot g.table) [] ≡ ok d
      → ((p : ℤ) (l : Listener) → lookup p (claims (snapshot g.table)) ≡ some l → Available p l)
      → (reconcile_listeners ss listen g).1 ≡ ok tt
  unfolding reconcile_listeners
  succeeds_of_Wants d w e a =
      let swept = sweep g.listeners d in
      let (at_port, distinct) = sweep-rest g.listeners d w.at_port w.distinct in
      rw (e, reconcile_listeners)
        (start_all-succeeds ss listen swept.1 swept.0 (
          entries_of_lookup (λ p r. Startable ss listen r.ingress_port (listener_of r)) swept.1
            distinct
            λ p r found.
              let (here, unserved) = unserved_of_rest d p r found in
              let at : r.ingress_port ≡ p = AllEntries-lookup AtPort p r d w.at_port here in
              rw at (elim (a p (listener_of r) (ground (arith, w.wanted p, here))) [
                | inl s ↦ absurd (unserved s)
                | inr s ↦ s
              ])))

  -- If the table's routes are usable, and each listener that they claim is there already or can be started,
  -- then ReconcileListeners returns no error.
  pub reconcile_listeners-succeeds :
      IsUsable (snapshot g.table)
      → ((p : ℤ) (l : Listener) → lookup p (claims (snapshot g.table)) ≡ some l → Available p l)
      → (reconcile_listeners ss listen g).1 ≡ ok tt
  reconcile_listeners-succeeds u a =
      let rs = snapshot g.table in
      let (d, e) = desired_routes-succeeds rs [] u.complete u.distinct (Fresh-nil (claims rs)) in
      succeeds_of_Wants d (desired_routes-Wants rs d e) e a
