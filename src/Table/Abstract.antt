-- ===== src/Table/Abstract.antt =====
-- The abstract view of internal/dataplane/table.go: which route is served and which one is staged for
-- each device, with the maps and their order forgotten.
use mathlib.Core.Option
use mathlib.Core.Path.{fun_ext}
use proxy_mesh.Prelude.{
  Option-cases, inl, inr, Option, none, some, String, List, [], ◌∷◌, ◌==◌, ◌≡◌, refl, eq_iff,
  int_eq, string_eq, arith, ltb_ℤ, Bool, true, if◌then◌else◌, ◌∙◌, ap,
}
use proxy_mesh.Prelude.Map.{lookup, lookup-insert, lookup-delete}
use proxy_mesh.Model.{Device, DeviceRoute, route_active}
use proxy_mesh.Table.{
  Table, Call, prepares, activates, updates, prepare, activate, update_device, step, run,
  with_device,
}

pub record Routes : Type 0 where
  pub served : String → Option DeviceRoute
  pub staged : String → Option DeviceRoute

abbrev pub view : Table → Routes
view t = record { served = λ id. lookup id t.active; staged = λ id. lookup id t.pending }

abbrev update :
    (String → Option DeviceRoute) → String → Option DeviceRoute → String → Option DeviceRoute
update f k v j = if k == j then v else f j

-- The served route with the credentials of the device: what tells it apart as a route, its upstream and its
-- version stay.
abbrev credited : Device → DeviceRoute → DeviceRoute
credited d r = record {
  device_id = r.device_id;
  device_username = d.username;
  password_hash = d.password_hash;
  ingress_port = d.ingress_port;
  ingress_method = d.ingress_method;
  ingress_password = d.ingress_password;
  ingresses = d.ingresses;
  credential = r.credential;
  version = r.version;
  status = r.status;
  updated_at = r.updated_at;
}

-- A route may be staged if none is served, or one of a smaller version.
abbrev supersedes : DeviceRoute → Option DeviceRoute → Bool
supersedes r none = true
supersedes r (some current) = ltb_ℤ current.version r.version

-- What a call promises: to stage a newer route, to serve the staged one of the same version, and to
-- give the served one the device's credentials.
unfoldable pub spec_step : Routes → Call → Routes
spec_step s (prepares r) =
    if supersedes r (s.served r.device_id)
    then record s { staged = update s.staged r.device_id (some r) }
    else s
spec_step s (activates r) = elim (s.staged r.device_id) [
  | none ↦ s
  | some p ↦
      if p.version == r.version
      then record {
        served = update s.served r.device_id (some (record p { status = route_active }));
        staged = update s.staged r.device_id none;
      }
      else s
]
spec_step s (updates d) = record s {
  served = update s.served d.id (Option.map (credited d) (s.served d.id));
}

unfoldable pub spec_run : Routes → List Call → Routes
spec_run s [] = s
spec_run s (c ∷ cs) = spec_run (spec_step s c) cs

Routes-ext :
    (a b : Routes)
    → ((id : String) → a.served id ≡ b.served id)
    → ((id : String) → a.staged id ≡ b.staged id)
    → a ≡ b
Routes-ext a b h k = λ i. record { served = fun_ext h i; staged = fun_ext k i }

view-prepare :
    (t : Table) (r : DeviceRoute) → view (prepare t r).0 ≡ spec_step (view t) (prepares r)
unfolding prepare spec_step
view-prepare t r =
    Routes-ext _ _ (λ id. ground arith)
      (λ id. ground (arith, lookup-insert r.device_id id r t.pending))

view-activate :
    (t : Table) (r : DeviceRoute) → view (activate t r).0 ≡ spec_step (view t) (activates r)
unfolding activate spec_step
view-activate t r = elim (Option-cases (lookup r.device_id t.pending)) [
  | inl e ↦ rw (e, activate, spec_step)
  | inr (p, e) ↦
      rw (e, activate, spec_step)
        (Routes-ext _ _
          (λ id.
            ground
              (arith, lookup-insert r.device_id id (record p { status = route_active }) t.active))
          (λ id. ground (arith, lookup-delete r.device_id id t.pending)))
]

view-update_device :
    (t : Table) (d : Device) → view (update_device t d) ≡ spec_step (view t) (updates d)
unfolding update_device spec_step
view-update_device t d = elim (Option-cases (lookup d.id t.active)) [
  | inl e ↦
      rw (e, update_device, spec_step)
        (Routes-ext _ _ (λ id. ground (arith, eq_iff d.id id)) (λ id. refl))
  | inr (r, e) ↦
      rw (e, update_device, spec_step)
        (Routes-ext _ _ (λ id. ground (arith, lookup-insert d.id id (with_device d r) t.active))
          (λ id. refl))
]

pub view-step : (t : Table) (c : Call) → view (step t c) ≡ spec_step (view t) c
unfolding step
view-step t (prepares r) = view-prepare t r
view-step t (activates r) = view-activate t r
view-step t (updates d) = view-update_device t d

-- Whatever the calls of Prepare, Activate and UpdateDevice are, the table serves and stages, for every
-- device, the routes that the specification does.
pub view-run : (t : Table) (cs : List Call) → view (run t cs) ≡ spec_run (view t) cs
unfolding run spec_run
view-run t [] = refl
view-run t (c ∷ cs) = view-run (step t c) cs ∙ ap (λ s. spec_run s cs) (view-step t c)
