-- ===== src/Table/Reads.antt =====
-- Load, Snapshot and MaxVersion of internal/dataplane/table.go.
use proxy_mesh.Prelude.{
  ℤ, pos, ◌≤ℤ◌, Option-cases, inl, inr, Option, none, some, String, List, [], ◌∷◌, ◌==◌, ◌≡◌, ◌⊎◌,
  refl, eq_iff, int_eq, string_eq, arith, if◌then◌else◌, ◌∙◌, ltb_ℤ, any, true, All, beq_ℤ_iff,
}
use proxy_mesh.Prelude.Map.{
  Map, lookup, insert, values, lookup-insert, AllEntries, AllEntries-insert, AllEntries-delete,
  Distinct, Distinct-insert, AllEntries-lookup,
}
use proxy_mesh.Model.{Device, DeviceRoute, route_active}
use proxy_mesh.Table.{
  Table, Call, prepares, activates, updates, prepare, activate, update_device, by_device, step, run,
  load, load_active, with_device, snapshot, max_from, max_version,
}

-- The last route of the device in a list.
unfoldable pub last_route : String → List DeviceRoute → Option DeviceRoute
last_route id [] = none
last_route id (r ∷ rs) = elim (last_route id rs) [
  | some later ↦ some later
  | none ↦ if r.device_id == id then some r else none
]

abbrev or_else : Option DeviceRoute → Option DeviceRoute → Option DeviceRoute
or_else (some r) s = some r
or_else none s = s

lookup-load_active :
    (rs : List DeviceRoute) (m : Map String DeviceRoute) (id : String)
    → lookup id (load_active rs m) ≡ or_else (last_route id rs) (lookup id m)
unfolding load_active last_route
lookup-load_active [] m id = refl
lookup-load_active (r ∷ rs) m id =
    ground
      (arith, lookup-load_active rs (insert r.device_id r m) id, lookup-insert r.device_id id r m)

-- A load forgets the table before it: it serves, for each device, the last of its routes in the list, and
-- stages no route.
pub by_device-load :
    (rs : List DeviceRoute) (t : Table) (id : String)
    → (by_device (load rs t) id ≡ last_route id rs) × (lookup id (load rs t).pending ≡ none)
unfolding by_device load lookup
by_device-load rs t id = (ground (arith, lookup-load_active rs [] id), refl)

abbrev Keyed : String → DeviceRoute → Type 0
Keyed k r = r.device_id ≡ k

-- Each map holds a device once, under the id that its route has.
pub record IsKeyed (t : Table) : Type 0 where
  pub active : AllEntries Keyed t.active
  pub pending : AllEntries Keyed t.pending
  pub distinct : Distinct t.active

last_route-values :
    (m : Map String DeviceRoute) (id : String)
    → AllEntries Keyed m
    → Distinct m
    → last_route id (values m) ≡ lookup id m
unfolding last_route lookup
last_route-values [] id a d = refl
last_route-values ((k, r) ∷ m) id a d =
    ground (arith, eq_iff r.device_id id, eq_iff k id, last_route-values m id a.1 d.1)

by_device-load-snapshot :
    (t u : Table) (id : String) → IsKeyed t → by_device (load (snapshot t) u) id ≡ by_device t id
unfolding snapshot by_device
by_device-load-snapshot t u id v =
    (by_device-load (values t.active) u id).0 ∙ last_route-values t.active id v.active v.distinct

load_active-Keyed :
    (rs : List DeviceRoute) (m : Map String DeviceRoute)
    → AllEntries Keyed m
    → Distinct m
    → AllEntries Keyed (load_active rs m) × Distinct (load_active rs m)
unfolding load_active
load_active-Keyed [] m a d = (a, d)
load_active-Keyed (r ∷ rs) m a d =
    load_active-Keyed rs (insert r.device_id r m) (AllEntries-insert Keyed r.device_id r m refl a)
      (Distinct-insert r.device_id r m d)

load-IsKeyed : (rs : List DeviceRoute) (t : Table) → IsKeyed (load rs t)
unfolding load
load-IsKeyed rs t =
    let (a, d) = load_active-Keyed rs [] tt tt in record { active = a; pending = tt; distinct = d }

prepare-IsKeyed : (t : Table) (r : DeviceRoute) → IsKeyed t → IsKeyed (prepare t r).0
unfolding prepare
prepare-IsKeyed t r v = record {
  active = ground (arith, v.active);
  pending = ground (arith, v.pending, AllEntries-insert Keyed r.device_id r t.pending);
  distinct = ground (arith, v.distinct);
}

activate-IsKeyed : (t : Table) (r : DeviceRoute) → IsKeyed t → IsKeyed (activate t r).0
unfolding activate
activate-IsKeyed t r v = elim (Option-cases (lookup r.device_id t.pending)) [
  | inl e ↦ rw (e, activate) v
  | inr (p, e) ↦
      let own = AllEntries-lookup Keyed r.device_id p t.pending v.pending e in
      let q = record p { status = route_active } in
      rw (e, activate)
        (record {
          active = ground (arith, v.active, own, AllEntries-insert Keyed r.device_id q t.active);
          pending = ground (arith, v.pending, AllEntries-delete Keyed r.device_id t.pending);
          distinct = ground (arith, v.distinct, Distinct-insert r.device_id q t.active);
        })
]

update_device-IsKeyed : (t : Table) (d : Device) → IsKeyed t → IsKeyed (update_device t d)
unfolding update_device
update_device-IsKeyed t d v = elim (Option-cases (lookup d.id t.active)) [
  | inl e ↦ rw (e, update_device) v
  | inr (r, e) ↦
      let own = AllEntries-lookup Keyed d.id r t.active v.active e in
      rw (e, update_device)
        (record {
          active = AllEntries-insert Keyed d.id (with_device d r) t.active own v.active;
          pending = v.pending;
          distinct = Distinct-insert d.id (with_device d r) t.active v.distinct;
        })
]

step-IsKeyed : (t : Table) (c : Call) → IsKeyed t → IsKeyed (step t c)
unfolding step
step-IsKeyed t (prepares r) v = prepare-IsKeyed t r v
step-IsKeyed t (activates r) v = activate-IsKeyed t r v
step-IsKeyed t (updates d) v = update_device-IsKeyed t d v

run-IsKeyed : (t : Table) (cs : List Call) → IsKeyed t → IsKeyed (run t cs)
unfolding run
run-IsKeyed t [] v = v
run-IsKeyed t (c ∷ cs) v = run-IsKeyed (step t c) cs (step-IsKeyed t c v)

-- After a load and any calls, a snapshot of the table that is loaded into any other table serves the
-- same route for every device.
pub by_device-load-snapshot-run :
    (rs : List DeviceRoute) (t u : Table) (cs : List Call) (id : String)
    → by_device (load (snapshot (run (load rs t) cs)) u) id ≡ by_device (run (load rs t) cs) id
by_device-load-snapshot-run rs t u cs id =
    by_device-load-snapshot (run (load rs t) cs) u id
      (run-IsKeyed (load rs t) cs (load-IsKeyed rs t))

abbrev pub HasVersion : ℤ → List DeviceRoute → Type 0
HasVersion v rs = any (λ r. r.version == v) rs ≡ true

-- `x` bounds `m` and the versions, and is one of them.
abbrev Best : ℤ → ℤ → List DeviceRoute → Type 0
Best m x rs = (m ≤ℤ x) × All (λ r. r.version ≤ℤ x) rs × ((x ≡ m) ⊎ HasVersion x rs)

Best-cons :
    (m x : ℤ) (r : DeviceRoute) (rs : List DeviceRoute)
    → Best (if ltb_ℤ m r.version then r.version else m) x rs
    → Best m x (r ∷ rs)
Best-cons m x r rs (low, all, at) =
    (ground arith, (ground arith, all), ground (arith, beq_ℤ_iff r.version x))

max_from-Best : (m : ℤ) (rs : List DeviceRoute) → Best m (max_from m rs) rs
unfolding max_from
max_from-Best m [] = (omega arith, tt, inl refl)
max_from-Best m (r ∷ rs) =
    let m' = (if ltb_ℤ m r.version then r.version else m) in
    Best-cons m (max_from m' rs) r rs (max_from-Best m' rs)

-- MaxVersion is the least bound of the active versions that is not negative: no served route has a
-- greater version, and it is 0 or the version of a served route.
pub max_version-bounds :
    (t : Table)
    → (pos 0 ≤ℤ max_version t)
      × All (λ r. r.version ≤ℤ max_version t) (snapshot t)
      × ((max_version t ≡ pos 0) ⊎ HasVersion (max_version t) (snapshot t))
unfolding max_version snapshot
max_version-bounds t = max_from-Best (pos 0) (values t.active)
