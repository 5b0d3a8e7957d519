-- ===== src/Store/Reachable.antt =====
-- The states of the store of internal/store/memory.go, as the calls of its methods, and the write of
-- rotateCredential of internal/control/api.go to the array of a stored device, reach them from NewMemory.
use proxy_mesh.Prelude.{
  ◌≡◌, ◌≢◌, ℤ, pos, subst, sym, String, Bool, some, [], err, string_eq, int_eq, arith,
}
use proxy_mesh.Model.{Device, DeviceIngress, DeviceRoute, Gateway, Time}
use proxy_mesh.Provider.{Definition}
use proxy_mesh.Store.{
  Memory, panicked, new_memory, create_device, update_device_credential, add_device_ingress,
  delete_device_ingress, write_primary, stage_route, activate_route, upsert_gateway,
  upsert_provider,
}
use proxy_mesh.Store.Primary.{
  ArePrimed, create_device-ArePrimed, update_device_credential-ArePrimed,
  add_device_ingress-ArePrimed, delete_device_ingress-ArePrimed,
}
use proxy_mesh.Store.Primed.{IsPrimed, written-IsPrimed}
use proxy_mesh.Api.Ingresses.{write_shared}
use proxy_mesh.Prelude.Map.{Map, lookup, AllEntries, AllEntries-insert, AllEntries-lookup}
use proxy_mesh.Store.Ports.{
  HasUniquePorts, create_device-ports, update_device_credential-ports, add_device_ingress-ports,
  delete_device_ingress-ports, delete_device_ingress-returns,
}
use proxy_mesh.Store.Counted.{count_all, count_all-insert, count-written}

-- A device is created with a port and without a list of ingresses, as createDevice of internal/control/api.go does.
pub data Reachable {F : Type 0} : Memory F → Type 0 where
  initially : Reachable new_memory
  after_create :
      {m : Memory F} (d : Device)
      → d.ingresses ≡ []
      → d.ingress_port ≢ pos 0
      → Reachable m
      → Reachable (create_device m d).0
  after_rotate :
      {m : Memory F} (id password : String) (now : Time)
      → Reachable m
      → Reachable (update_device_credential m id password now).0
  after_write :
      {m : Memory F} (id password : String) (d : Device)
      → lookup id m.devices ≡ some d
      → Reachable m
      → Reachable (write_shared id password d m)
  after_add :
      {m : Memory F} (id : String) (i : DeviceIngress) (now : Time)
      → Reachable m
      → Reachable (add_device_ingress m id i now).0
  after_delete :
      {m : Memory F} (id : String) (port : ℤ) (now : Time)
      → Reachable m
      → Reachable (delete_device_ingress m id port now).0
  after_stage :
      {m : Memory F} (r : DeviceRoute) (shares : Bool) (expected : ℤ)
      → Reachable m
      → Reachable (stage_route m r shares expected).0
  after_activate :
      {m : Memory F} (id : String) (version : ℤ)
      → Reachable m
      → Reachable (activate_route m id version).0
  after_gateway : {m : Memory F} (g : Gateway) → Reachable m → Reachable (upsert_gateway m g)
  after_provider : {m : Memory F} (d : Definition F) → Reachable m → Reachable (upsert_provider m d)

abbrev AllPrimed : Map String Device → Type 0
AllPrimed devices = AllEntries (λ id d. IsPrimed d) devices

module _ {F : Type 0} where
  write_shared-ports :
      (m : Memory F) (id password : String) (d : Device)
      → lookup id m.devices ≡ some d
      → HasUniquePorts m
      → HasUniquePorts (write_shared id password d m)
  unfolding write_shared
  write_shared-ports m id password d e u p =
      let d' : Device = record d { ingresses = write_primary password d.ingresses } in
      ground (arith, e, u p, count_all-insert p id d' m.devices, count-written p password d)

  write_shared-ArePrimed :
      (m : Memory F) (id password : String) (d : Device)
      → lookup id m.devices ≡ some d
      → ArePrimed m
      → ArePrimed (write_shared id password d m)
  unfolding write_shared
  write_shared-ArePrimed m id password d e a =
      AllEntries-insert (λ id d. IsPrimed d) id
        (record d { ingresses = write_primary password d.ingresses }) m.devices
        (written-IsPrimed password d (AllEntries-lookup (λ id d. IsPrimed d) id d m.devices a e)) a

  stage_route-devices :
      (m : Memory F) (r : DeviceRoute) (shares : Bool) (expected : ℤ)
      → (stage_route m r shares expected).0.devices ≡ m.devices
  unfolding stage_route
  stage_route-devices m r shares expected = ground arith

  activate_route-devices :
      (m : Memory F) (id : String) (version : ℤ)
      → (activate_route m id version).0.devices ≡ m.devices
  unfolding activate_route
  activate_route-devices m id version = ground arith

  -- On every reachable store no two ingresses, of one device or of two, have the same port.
  pub Reachable-HasUniquePorts : (m : Memory F) → Reachable m → HasUniquePorts m
  unfolding count_all upsert_gateway upsert_provider
  Reachable-HasUniquePorts _ initially = λ p. omega arith
  Reachable-HasUniquePorts _ (after_create {m = m} d e h r) =
      create_device-ports m d e (Reachable-HasUniquePorts m r)
  Reachable-HasUniquePorts _ (after_rotate {m = m} id password now r) =
      update_device_credential-ports m id password now (Reachable-HasUniquePorts m r)
  Reachable-HasUniquePorts _ (after_write {m = m} id password d e r) =
      write_shared-ports m id password d e (Reachable-HasUniquePorts m r)
  Reachable-HasUniquePorts _ (after_add {m = m} id i now r) =
      add_device_ingress-ports m id i now (Reachable-HasUniquePorts m r)
  Reachable-HasUniquePorts _ (after_delete {m = m} id port now r) =
      delete_device_ingress-ports m id port now (Reachable-HasUniquePorts m r)
  Reachable-HasUniquePorts _ (after_stage {m = m} route shares expected r) =
      λ p. rw (stage_route-devices m route shares expected) (Reachable-HasUniquePorts m r p)
  Reachable-HasUniquePorts _ (after_activate {m = m} id version r) =
      λ p. rw (activate_route-devices m id version) (Reachable-HasUniquePorts m r p)
  Reachable-HasUniquePorts _ (after_gateway {m = m} g r) = Reachable-HasUniquePorts m r
  Reachable-HasUniquePorts _ (after_provider {m = m} d r) = Reachable-HasUniquePorts m r

  -- On every reachable store DeleteDeviceIngress takes no item of an empty slice: when it promotes the first
  -- ingress that is left, there is one.
  pub delete_device_ingress-total :
      (m : Memory F) (id : String) (port : ℤ) (now : Time)
      → Reachable m
      → (delete_device_ingress m id port now).1 ≢ err panicked
  delete_device_ingress-total m id port now r =
      delete_device_ingress-returns m id port now (Reachable-HasUniquePorts m r)

  -- On every reachable store each device has exactly one primary ingress, and its legacy fields are the port
  -- and the method of that one.
  pub Reachable-ArePrimed : (m : Memory F) → Reachable m → ArePrimed m
  unfolding upsert_gateway upsert_provider
  Reachable-ArePrimed _ initially = tt
  Reachable-ArePrimed _ (after_create {m = m} d e h r) =
      create_device-ArePrimed m d e h (Reachable-ArePrimed m r)
  Reachable-ArePrimed _ (after_rotate {m = m} id password now r) =
      update_device_credential-ArePrimed m id password now (Reachable-ArePrimed m r)
  Reachable-ArePrimed _ (after_write {m = m} id password d e r) =
      write_shared-ArePrimed m id password d e (Reachable-ArePrimed m r)
  Reachable-ArePrimed _ (after_add {m = m} id i now r) =
      add_device_ingress-ArePrimed m id i now (Reachable-ArePrimed m r)
  Reachable-ArePrimed _ (after_delete {m = m} id port now r) =
      delete_device_ingress-ArePrimed m id port now (Reachable-HasUniquePorts m r)
        (Reachable-ArePrimed m r)
  Reachable-ArePrimed _ (after_stage {m = m} route shares expected r) =
      subst AllPrimed (sym (stage_route-devices m route shares expected)) (Reachable-ArePrimed m r)
  Reachable-ArePrimed _ (after_activate {m = m} id version r) =
      subst AllPrimed (sym (activate_route-devices m id version)) (Reachable-ArePrimed m r)
  Reachable-ArePrimed _ (after_gateway {m = m} g r) = Reachable-ArePrimed m r
  Reachable-ArePrimed _ (after_provider {m = m} d r) = Reachable-ArePrimed m r
