-- ===== src/Client/Phases.antt =====
-- The two phases of a route update in a gateway: the prepare and activate frames of
-- internal/dataplane/control_client.go.
use proxy_mesh.Prelude.{String, some, ◌≡◌, refl, ok, arith, Result-cases, inl, inr, string_eq}
use proxy_mesh.Prelude.Map.{lookup}
use proxy_mesh.Model.{DeviceRoute, route_active}
use proxy_mesh.SsConfig.{SsLibrary}
use proxy_mesh.Frame.{Frame, zero_frame, type_prepare, type_activate}
use proxy_mesh.Table
use proxy_mesh.Table.{by_device}
use proxy_mesh.Table.Phases.{by_device-prepare, prepare_staged, activate_staged}
use proxy_mesh.Gateway.{prepare_device, prepare_listener}
use proxy_mesh.Gateway.Again.{table-reconcile_listeners}
use proxy_mesh.Client.{
  ControlClient, System, handle, handle_prepare, handle_activate, reconcile_and_save, table_prepare,
  with_table,
}

abbrev pub prepare_frame : String → DeviceRoute → Frame
prepare_frame request_id r = record zero_frame {
  type = type_prepare;
  request_id = request_id;
  route = some r;
}

abbrev pub activate_frame : String → DeviceRoute → Frame
activate_frame request_id r = record zero_frame {
  type = type_activate;
  request_id = request_id;
  route = some r;
}

module _ (ss : SsLibrary) (sys : System) (c : ControlClient) (r : DeviceRoute) where
  pub handle-prepare_frame :
      (request_id : String)
      → handle ss sys c (prepare_frame request_id r) ≡ handle_prepare ss sys c r
  unfolding handle
  handle-prepare_frame request_id = refl

  pub handle-activate_frame :
      (request_id : String)
      → handle ss sys c (activate_frame request_id r) ≡ handle_activate ss sys c r
  unfolding handle
  handle-activate_frame request_id = refl

  table-prepare_listener : (prepare_listener ss sys.listen c.gateway r).0.table ≡ c.gateway.table
  unfolding prepare_listener prepare_device
  table-prepare_listener = refl

  table-table_prepare :
      (c : ControlClient)
      → ((table_prepare ss sys c r).0.gateway.table ≡ (Table.prepare c.gateway.table r).0)
        × ((table_prepare ss sys c r).1 ≡ ok tt → (Table.prepare c.gateway.table r).1 ≡ ok tt)
  table-table_prepare c = elim (Result-cases (Table.prepare c.gateway.table r).1) [
    | inl (_, e) ↦ (ground (arith, e), λ h. e)
    | inr (f, e) ↦ (ground (arith, e), λ h. absurd (ground (arith, e, h)))
  ]

  -- A prepare frame changes no served route, whether or not it fails; if it does not fail, its route is
  -- staged.
  pub by_device-handle_prepare :
      (id : String)
      → by_device (handle_prepare ss sys c r).0.gateway.table id ≡ by_device c.gateway.table id
  unfolding handle_prepare
  by_device-handle_prepare id =
      let held = prepare_listener ss sys.listen c.gateway r in
      let c' = record c { gateway = held.0 } in
      elim (Result-cases held.1) [
        | inl (_, e) ↦
            rw (e, handle_prepare)
              (rw ((table-table_prepare c').0, by_device-prepare, table-prepare_listener))
        | inr (f, e) ↦ rw (e, handle_prepare) (rw table-prepare_listener)
      ]

  pub handle_prepare-staged :
      (handle_prepare ss sys c r).1 ≡ ok tt
      → lookup r.device_id (handle_prepare ss sys c r).0.gateway.table.pending ≡ some r
  unfolding handle_prepare
  handle_prepare-staged h =
      let held = prepare_listener ss sys.listen c.gateway r in
      let c' = record c { gateway = held.0 } in
      elim (Result-cases held.1) [
        | inl (_, e) ↦
            let (same, success) = table-table_prepare c' in
            rw (e, handle_prepare)
              (rw same (prepare_staged held.0.table r (success (rw (e, handle_prepare) at h))))
        | inr (f, e) ↦ absurd (ground (arith, e, h))
      ]

  table-reconcile_and_save :
      (c : ControlClient) → (reconcile_and_save ss sys c).0.gateway.table ≡ c.gateway.table
  table-reconcile_and_save c = ground (arith, table-reconcile_listeners ss sys.listen c.gateway)

  -- An activate frame for a staged route serves that route as active, also if the listeners or the snapshot
  -- fail afterwards.
  pub by_device-handle_activate :
      lookup r.device_id c.gateway.table.pending ≡ some r
      → by_device (handle_activate ss sys c r).0.gateway.table r.device_id
        ≡ some (record r { status = route_active })
  unfolding handle_activate
  by_device-handle_activate staged =
      let (e, served) = activate_staged c.gateway.table r r staged refl in
      let t = (Table.activate c.gateway.table r).0 in
      rw (e, handle_activate) (rw (table-reconcile_and_save (with_table c t)) served)
