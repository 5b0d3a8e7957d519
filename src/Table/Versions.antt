-- ===== src/Table/Versions.antt =====
-- The versions of the active routes of internal/dataplane/table.go.
use proxy_mesh.Prelude.{
  Option-cases, inl, inr, ◌≤ℤ◌, ◌<ℤ◌, String, Option, none, some, List, [], ◌∷◌, eq_iff, string_eq,
  arith,
}
use proxy_mesh.Prelude.Map.{lookup, lookup-insert, lookup-delete}
use proxy_mesh.Model.{Device, DeviceRoute, route_active}
use proxy_mesh.Table.{
  Table, Call, prepares, activates, updates, load, prepare, activate, update_device, by_device,
  step, run, with_device,
}

-- A pending route is newer than the active one of its device.
abbrev pub Newer : Option DeviceRoute → Option DeviceRoute → Type 0
Newer (some a) (some p) = a.version <ℤ p.version
Newer (some a) none = Unit
Newer none p = Unit

abbrev pub PendingNewer : String → Table → Type 0
PendingNewer id t = Newer (lookup id t.active) (lookup id t.pending)

-- The first table of the two serves a route of the device at most as new as the second.
abbrev pub NoNewer : Option DeviceRoute → Option DeviceRoute → Type 0
NoNewer none b = Unit
NoNewer (some a) none = ⊥
NoNewer (some a) (some b) = a.version ≤ℤ b.version

NoNewer-refl : (a : Option DeviceRoute) → NoNewer a a
NoNewer-refl none = tt
NoNewer-refl (some a) = omega arith

NoNewer-trans : (a b c : Option DeviceRoute) → NoNewer a b → NoNewer b c → NoNewer a c
NoNewer-trans none b c h k = tt
NoNewer-trans (some a) none c h k = absurd h
NoNewer-trans (some a) (some b) none h k = absurd k
NoNewer-trans (some a) (some b) (some c) h k = omega arith

pub load-PendingNewer :
    (routes : List DeviceRoute) (t : Table) (id : String) → PendingNewer id (load routes t)
unfolding load lookup
load-PendingNewer routes t id = ground arith

prepare-PendingNewer :
    (t : Table) (r : DeviceRoute) (id : String)
    → PendingNewer id t
    → PendingNewer id (prepare t r).0
unfolding prepare
prepare-PendingNewer t r id h =
    ground (arith, eq_iff r.device_id id, lookup-insert r.device_id id r t.pending)

activate-PendingNewer :
    (t : Table) (r : DeviceRoute) (id : String)
    → PendingNewer id t
    → PendingNewer id (activate t r).0
unfolding activate
activate-PendingNewer t r id h = elim (Option-cases (lookup r.device_id t.pending)) [
  | inl e ↦ rw (e, activate) h
  | inr (p, e) ↦
      rw (e, activate)
        (ground (
          arith,
          eq_iff r.device_id id,
          lookup-insert r.device_id id (record p { status = route_active }) t.active,
          lookup-delete r.device_id id t.pending,
        ))
]

update_device-PendingNewer :
    (t : Table) (d : Device) (id : String) → PendingNewer id t → PendingNewer id (update_device t d)
unfolding update_device
update_device-PendingNewer t d id h = elim (Option-cases (lookup d.id t.active)) [
  | inl e ↦ rw (e, update_device) h
  | inr (r, e) ↦
      rw (e, update_device)
        (ground (arith, eq_iff d.id id, lookup-insert d.id id (with_device d r) t.active))
]

prepare-NoNewer :
    (t : Table) (r : DeviceRoute) (id : String)
    → NoNewer (lookup id t.active) (lookup id (prepare t r).0.active)
unfolding prepare
prepare-NoNewer t r id = ground (arith, NoNewer-refl (lookup id t.active))

activate-NoNewer :
    (t : Table) (r : DeviceRoute) (id : String)
    → PendingNewer id t
    → NoNewer (lookup id t.active) (lookup id (activate t r).0.active)
unfolding activate
activate-NoNewer t r id h = elim (Option-cases (lookup r.device_id t.pending)) [
  | inl e ↦ rw (e, activate) (NoNewer-refl (lookup id t.active))
  | inr (p, e) ↦
      rw (e, activate)
        (ground (
          arith,
          eq_iff r.device_id id,
          NoNewer-refl (lookup id t.active),
          lookup-insert r.device_id id (record p { status = route_active }) t.active,
        ))
]

update_device-NoNewer :
    (t : Table) (d : Device) (id : String)
    → NoNewer (lookup id t.active) (lookup id (update_device t d).active)
unfolding update_device
update_device-NoNewer t d id = elim (Option-cases (lookup d.id t.active)) [
  | inl e ↦ rw (e, update_device) (NoNewer-refl (lookup id t.active))
  | inr (r, e) ↦
      rw (e, update_device)
        (ground (
          arith,
          eq_iff d.id id,
          NoNewer-refl (lookup id t.active),
          lookup-insert d.id id (with_device d r) t.active,
        ))
]

step-PendingNewer :
    (t : Table) (c : Call) (id : String) → PendingNewer id t → PendingNewer id (step t c)
unfolding step
step-PendingNewer t (prepares r) id h = prepare-PendingNewer t r id h
step-PendingNewer t (activates r) id h = activate-PendingNewer t r id h
step-PendingNewer t (updates d) id h = update_device-PendingNewer t d id h

step-NoNewer :
    (t : Table) (c : Call) (id : String)
    → PendingNewer id t
    → NoNewer (lookup id t.active) (lookup id (step t c).active)
unfolding step
step-NoNewer t (prepares r) id h = prepare-NoNewer t r id
step-NoNewer t (activates r) id h = activate-NoNewer t r id h
step-NoNewer t (updates d) id h = update_device-NoNewer t d id

-- Whatever calls a table with newer pending routes gets, it keeps that invariant.
pub run-PendingNewer :
    (t : Table) (cs : List Call) (id : String) → PendingNewer id t → PendingNewer id (run t cs)
unfolding run
run-PendingNewer t [] id h = h
run-PendingNewer t (c ∷ cs) id h = run-PendingNewer (step t c) cs id (step-PendingNewer t c id h)

-- If the pending route of a device is newer than its active one (as it is after every Load), then until the next
-- Load no sequence of calls of Prepare, Activate and UpdateDevice takes the active route of that device away or
-- replaces it by an older version.
pub run-NoNewer :
    (t : Table) (cs : List Call) (id : String)
    → PendingNewer id t
    → NoNewer (by_device t id) (by_device (run t cs) id)
unfolding run by_device
run-NoNewer t [] id h = NoNewer-refl (lookup id t.active)
run-NoNewer t (c ∷ cs) id h =
    NoNewer-trans (lookup id t.active) (lookup id (step t c).active)
      (lookup id (run (step t c) cs).active) (step-NoNewer t c id h)
      (run-NoNewer (step t c) cs id (step-PendingNewer t c id h))
