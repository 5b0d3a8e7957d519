-- ===== src/Tests/Tables.antt =====
-- The table of internal/dataplane/table.go on a few routes.
use proxy_mesh.Prelude.{pos, some, string_eq, List, [], ◌∷◌, ◌≡◌, refl, ok, differ}
use proxy_mesh.Prelude.Map.{lookup, insert}
use proxy_mesh.Model.{DeviceRoute, route_active}
use proxy_mesh.Table.{
  Table, Call, prepares, activates, updates, new_table, load, run, step, prepare, activate,
  by_device, load_active,
}
use proxy_mesh.Table.Abstract.{view, view-run, spec_run}
use proxy_mesh.Table.Versions.{NoNewer, run-NoNewer}
use proxy_mesh.Table.Phases.{activate-run-prepare}
use proxy_mesh.Tests.Fixtures.{phone, phone_route, laptop_route}

abbrev two_routes : List DeviceRoute
two_routes = phone_route (pos 1) ∷ laptop_route ∷ []

abbrev loaded : Table
loaded = load two_routes new_table

abbrev calls : List Call
calls = prepares (phone_route (pos 2)) ∷ updates phone ∷ activates (phone_route (pos 2)) ∷ []

run-calls :
    by_device (run loaded calls) "phone"
    ≡ some (record (phone_route (pos 2)) { status = route_active })
unfolding by_device run step prepare activate load load_active new_table lookup insert
run-calls = refl

view-run_example : view (run loaded calls) ≡ spec_run (view loaded) calls
view-run_example = view-run loaded calls

run-NoNewer_example : NoNewer (by_device loaded "phone") (by_device (run loaded calls) "phone")
unfolding load load_active new_table lookup insert
run-NoNewer_example = run-NoNewer loaded calls "phone" tt

activate-run-prepare_example :
    ((activate
        (run (prepare loaded (phone_route (pos 2))).0 (prepares laptop_route ∷ updates phone ∷ []))
        (phone_route (pos 2))).1
      ≡ ok tt)
    × (by_device
          (activate
            (run
              (prepare loaded (phone_route (pos 2))).0
              (prepares laptop_route ∷ updates phone ∷ []))
            (phone_route (pos 2))).0
          "phone"
        ≡ some (record (phone_route (pos 2)) { status = route_active }))
unfolding prepare load load_active new_table lookup insert
activate-run-prepare_example =
    activate-run-prepare loaded (phone_route (pos 2)) (prepares laptop_route ∷ updates phone ∷ [])
      refl (differ "laptop" "phone" refl, (tt, tt))
