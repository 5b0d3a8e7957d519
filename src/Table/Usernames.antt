-- ===== src/Table/Usernames.antt =====
-- The index by username of internal/dataplane/table.go.
use proxy_mesh.Prelude.{
  Option-cases, inl, inr, Option, none, some, String, List, [], ◌∷◌, ◌≡◌, refl, eq_iff, int_eq,
  string_eq, arith, All,
}
use proxy_mesh.Prelude.Map.{
  Map, lookup, insert, delete, lookup-insert, lookup-delete, AllEntries, AllEntries-insert,
  AllEntries-delete, AllEntries-lookup,
}
use proxy_mesh.Model.{Device, DeviceRoute, route_active}
use proxy_mesh.Table.{
  Table, Call, prepares, activates, updates, prepare, activate, update_device, by_device,
  by_username, step, run, load, load_active, load_usernames, with_device,
}

-- The control plane gives a device its id as its username (createDevice of internal/control/api.go).
abbrev OwnName : String → DeviceRoute → Type 0
OwnName k r = (r.device_id ≡ k) × (r.device_username ≡ k)

abbrev pub NamesItself : DeviceRoute → Type 0
NamesItself r = r.device_username ≡ r.device_id

abbrev pub CallNamesItself : Call → Type 0
CallNamesItself (prepares r) = NamesItself r
CallNamesItself (activates r) = Unit
CallNamesItself (updates d) = d.username ≡ d.id

abbrev own_entry : String → Option DeviceRoute → Option String
own_entry u none = none
own_entry u (some r) = some u

pub record IsIndexed (t : Table) : Type 0 where
  pub active : AllEntries OwnName t.active
  pub pending : AllEntries OwnName t.pending
  pub index : (u : String) → lookup u t.by_username ≡ own_entry u (lookup u t.active)

load_loop-index :
    (rs : List DeviceRoute) (m : Map String DeviceRoute) (n : Map String String) (u : String)
    → All NamesItself rs
    → ((u : String) → lookup u n ≡ own_entry u (lookup u m))
    → lookup u (load_usernames rs n) ≡ own_entry u (lookup u (load_active rs m))
unfolding load_usernames load_active
load_loop-index [] m n u a h = h u
load_loop-index (r ∷ rs) m n u a h =
    load_loop-index rs (insert r.device_id r m) (insert r.device_username r.device_id n) u a.1 λ v.
      ground (
        arith,
        h v,
        eq_iff r.device_id v,
        eq_iff r.device_username v,
        lookup-insert r.device_id v r m,
        lookup-insert r.device_username v r.device_id n,
      )

load_active-own :
    (rs : List DeviceRoute) (m : Map String DeviceRoute)
    → All NamesItself rs
    → AllEntries OwnName m
    → AllEntries OwnName (load_active rs m)
unfolding load_active
load_active-own [] m a h = h
load_active-own (r ∷ rs) m a h =
    load_active-own rs (insert r.device_id r m) a.1
      (AllEntries-insert OwnName r.device_id r m (refl, a.0) h)

pub load-IsIndexed :
    (rs : List DeviceRoute) (t : Table) → All NamesItself rs → IsIndexed (load rs t)
unfolding load
load-IsIndexed rs t a = record {
  active = load_active-own rs [] a tt;
  pending = tt;
  index = λ u. load_loop-index rs [] [] u a (λ v. unfold lookup in refl);
}

prepare-IsIndexed :
    (t : Table) (r : DeviceRoute) → NamesItself r → IsIndexed t → IsIndexed (prepare t r).0
unfolding prepare
prepare-IsIndexed t r n v = record {
  active = ground (arith, v.active);
  pending = ground (arith, v.pending, AllEntries-insert OwnName r.device_id r t.pending);
  index = λ u. ground (arith, v.index u);
}

activate-IsIndexed : (t : Table) (r : DeviceRoute) → IsIndexed t → IsIndexed (activate t r).0
unfolding activate
activate-IsIndexed t r v = elim (Option-cases (lookup r.device_id t.pending)) [
  | inl e ↦ rw (e, activate) v
  | inr (p, e) ↦
      let own = AllEntries-lookup OwnName r.device_id p t.pending v.pending e in
      let q = record p { status = route_active } in
      rw (e, activate)
        (record {
          active = ground (arith, v.active, own, AllEntries-insert OwnName r.device_id q t.active);
          pending = ground (arith, v.pending, AllEntries-delete OwnName r.device_id t.pending);
          index = λ u. ground (
            arith,
            v.index u,
            own,
            lookup-insert r.device_id u q t.active,
            lookup-insert p.device_username u p.device_id t.by_username,
            eq_iff r.device_id u,
            eq_iff p.device_username u,
          );
        })
]

update_device-IsIndexed :
    (t : Table) (d : Device) → d.username ≡ d.id → IsIndexed t → IsIndexed (update_device t d)
unfolding update_device
update_device-IsIndexed t d n v = elim (Option-cases (lookup d.id t.active)) [
  | inl e ↦ rw (e, update_device) v
  | inr (r, e) ↦
      let own = AllEntries-lookup OwnName d.id r t.active v.active e in
      let q = with_device d r in
      rw (e, update_device)
        (record {
          active = AllEntries-insert OwnName d.id q t.active (own.0, n) v.active;
          pending = v.pending;
          index = λ u. ground (
            arith,
            v.index u,
            own,
            lookup-insert d.id u q t.active,
            lookup-insert d.username u d.id (delete r.device_username t.by_username),
            lookup-delete r.device_username u t.by_username,
            eq_iff d.id u,
            eq_iff d.username u,
            eq_iff r.device_username u,
          );
        })
]

step-IsIndexed : (t : Table) (c : Call) → CallNamesItself c → IsIndexed t → IsIndexed (step t c)
unfolding step
step-IsIndexed t (prepares r) n v = prepare-IsIndexed t r n v
step-IsIndexed t (activates r) n v = activate-IsIndexed t r v
step-IsIndexed t (updates d) n v = update_device-IsIndexed t d n v

run-IsIndexed :
    (t : Table) (cs : List Call) → All CallNamesItself cs → IsIndexed t → IsIndexed (run t cs)
unfolding run
run-IsIndexed t [] n v = v
run-IsIndexed t (c ∷ cs) n v = run-IsIndexed (step t c) cs n.1 (step-IsIndexed t c n.0 v)

by_username_of_indexed : (t : Table) (u : String) → IsIndexed t → by_username t u ≡ by_device t u
unfolding by_username by_device
by_username_of_indexed t u v = ground (arith, v.index u)

-- If every loaded route, every prepared route and every updated device has its id as its username, then
-- after a load and any calls a lookup by username gives the same route as a lookup by device.
pub by_username-run-load :
    (rs : List DeviceRoute) (t : Table) (cs : List Call) (u : String)
    → All NamesItself rs
    → All CallNamesItself cs
    → by_username (run (load rs t) cs) u ≡ by_device (run (load rs t) cs) u
by_username-run-load rs t cs u a n =
    by_username_of_indexed (run (load rs t) cs) u
      (run-IsIndexed (load rs t) cs n (load-IsIndexed rs t a))
