-- ===== src/Table/Phases.antt =====
-- The two phases of a route update in internal/dataplane/table.go.
use proxy_mesh.Prelude.{
  some, String, List, [], ◌∷◌, ◌≡◌, ◌≢◌, refl, eq_iff, int_eq, string_eq, arith, ◌∙◌, ok, err,
  beq_ℤ_iff, All,
}
use proxy_mesh.Prelude.Map.{lookup, lookup-insert, lookup-delete}
use proxy_mesh.Model.{DeviceRoute, route_active}
use proxy_mesh.Table.{
  Table, TableError, Call, prepares, activates, updates, prepare, activate, update_device,
  by_device, step, run,
}

-- The call stages or serves no route of the device.
abbrev pub Avoids : String → Call → Type 0
Avoids id (prepares r) = r.device_id ≢ id
Avoids id (activates r) = r.device_id ≢ id
Avoids id (updates d) = Unit

pub by_device-prepare :
    (t : Table) (r : DeviceRoute) (id : String) → by_device (prepare t r).0 id ≡ by_device t id
unfolding prepare by_device
by_device-prepare t r id = ground arith

pub prepare_staged :
    (t : Table) (r : DeviceRoute)
    → (prepare t r).1 ≡ ok tt
    → lookup r.device_id (prepare t r).0.pending ≡ some r
unfolding prepare
prepare_staged t r h =
    ground
      (arith, eq_iff r.device_id r.device_id, lookup-insert r.device_id r.device_id r t.pending)

step-staged :
    (t : Table) (c : Call) (id : String)
    → Avoids id c
    → lookup id (step t c).pending ≡ lookup id t.pending
unfolding step prepare activate update_device
step-staged t (prepares r) id h =
    ground (arith, eq_iff r.device_id id, lookup-insert r.device_id id r t.pending)
step-staged t (activates r) id h =
    ground (arith, eq_iff r.device_id id, lookup-delete r.device_id id t.pending)
step-staged t (updates d) id h = ground arith

run-staged :
    (t : Table) (cs : List Call) (id : String)
    → All (Avoids id) cs
    → lookup id (run t cs).pending ≡ lookup id t.pending
unfolding run
run-staged t [] id h = refl
run-staged t (c ∷ cs) id h = run-staged (step t c) cs id h.1 ∙ step-staged t c id h.0

pub activate_staged :
    (t : Table) (r : DeviceRoute) (p : DeviceRoute)
    → lookup r.device_id t.pending ≡ some p
    → p.version ≡ r.version
    → ((activate t r).1 ≡ ok tt)
      × (by_device (activate t r).0 r.device_id ≡ some (record p { status = route_active }))
unfolding activate by_device
activate_staged t r p e v =
    rw (e, activate)
      (
        ground (arith, beq_ℤ_iff p.version r.version),
        ground (
          arith,
          beq_ℤ_iff p.version r.version,
          eq_iff r.device_id r.device_id,
          lookup-insert r.device_id r.device_id (record p { status = route_active }) t.active,
        ),
      )

-- A route that was prepared is activated, whatever calls for other devices and device updates come
-- between the two phases: Activate succeeds, and the table serves the prepared route as active.
pub activate-run-prepare :
    (t : Table) (r : DeviceRoute) (cs : List Call)
    → (prepare t r).1 ≡ ok tt
    → All (Avoids r.device_id) cs
    → ((activate (run (prepare t r).0 cs) r).1 ≡ ok tt)
      × (by_device (activate (run (prepare t r).0 cs) r).0 r.device_id
          ≡ some (record r { status = route_active }))
activate-run-prepare t r cs h a =
    activate_staged (run (prepare t r).0 cs) r r
      (run-staged (prepare t r).0 cs r.device_id a ∙ prepare_staged t r h) refl

pub activate_error :
    (t : Table) (r : DeviceRoute) (e : TableError) → (activate t r).1 ≡ err e → (activate t r).0 ≡ t
unfolding activate
activate_error t r e h = ground arith
