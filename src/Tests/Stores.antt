-- ===== src/Tests/Stores.antt =====
-- The store of internal/store/memory.go with one device.
use proxy_mesh.Prelude.{
  arith, ℕ, pos, true, false, [], ◌∷◌, some, ◌≡◌, ◌≢◌, refl, err, string_eq, int_eq,
}
use proxy_mesh.Model.{Device, device_ingresses, DeviceIngress, primary_ingress}
use proxy_mesh.Store.{
  activate_route, Memory, panicked, new_memory, create_device, add_device_ingress,
  delete_device_ingress, stage_route,
}
use proxy_mesh.Store.Ports.{HasUniquePorts}
use proxy_mesh.Store.Primary.{ArePrimed}
use proxy_mesh.Store.Reachable.{
  Reachable, initially, after_create, after_add, after_write, Reachable-HasUniquePorts,
  Reachable-ArePrimed, delete_device_ingress-total,
}
use proxy_mesh.Api.Ingresses.{write_shared}
use proxy_mesh.Prelude.Map.{insert, lookup}
use proxy_mesh.Store.Routes.{activated, activate-stage-stage}
use proxy_mesh.Tests.Fixtures.{phone, phone_route}

abbrev one_device : Memory ℕ
one_device = (create_device new_memory phone).0

abbrev second_ingress : DeviceIngress
second_ingress = primary_ingress (pos 2001) "aes-256-gcm" "password" (pos 5)

abbrev two_ingresses : Memory ℕ
two_ingresses = (add_device_ingress one_device "phone" second_ingress (pos 5)).0

two_ingresses-Reachable : Reachable two_ingresses
two_ingresses-Reachable =
    after_add "phone" second_ingress (pos 5) (after_create phone refl (λ h. ground arith) initially)

Reachable-HasUniquePorts_example : HasUniquePorts two_ingresses
Reachable-HasUniquePorts_example = Reachable-HasUniquePorts two_ingresses two_ingresses-Reachable

delete_device_ingress-total_example :
    (delete_device_ingress two_ingresses "phone" (pos 2000) (pos 6)).1 ≢ err panicked
delete_device_ingress-total_example =
    delete_device_ingress-total two_ingresses "phone" (pos 2000) (pos 6) two_ingresses-Reachable

abbrev one_phone : Device
one_phone = record phone {
  ingresses =
      record (primary_ingress (pos 2000) "aes-256-gcm" "password" (pos 0)) {
        created_at = phone.created_at;
      }
      ∷ record second_ingress { primary = false }
      ∷ [];
  updated_at = pos 5;
}

abbrev staged : Memory ℕ
staged = (stage_route one_device (phone_route (pos 1)) true (pos 0)).0

-- A rotation has written the list of the stored device, and its deployment has failed.
abbrev written : Memory ℕ
written = write_shared "phone" "rotated" one_phone two_ingresses

Reachable-ArePrimed_example : ArePrimed written
unfolding create_device add_device_ingress device_ingresses insert lookup
Reachable-ArePrimed_example =
    Reachable-ArePrimed written
      (after_write "phone" "rotated" one_phone refl two_ingresses-Reachable)

activate-stage-stage_example :
    lookup "phone"
      (activate_route
        (stage_route staged (record (phone_route (pos 1)) { updated_at = pos 9 }) true (pos 0)).0
        "phone"
        (pos 1)).0.routes
    ≡ some (
        activated
          (record { route = record (phone_route (pos 1)) { updated_at = pos 9 }; shares = true }))
unfolding create_device lookup
activate-stage-stage_example =
    activate-stage-stage one_device (phone_route (pos 1))
      (record (phone_route (pos 1)) { updated_at = pos 9 }) true true (pos 0) refl refl refl
