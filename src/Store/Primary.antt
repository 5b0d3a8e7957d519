-- ===== src/Store/Primary.antt =====
-- The primary ingress of a device in the store of internal/store/memory.go, and the legacy fields that repeat it.
use proxy_mesh.Prelude.{
  ◌≤◌, ℤ, pos, String, [], ◌≡◌, ◌≢◌, refl, string_eq, int_eq, Result, ok, err, leb, length, arith,
  Option-cases, Bool-cases, inl, inr,
}
use proxy_mesh.Prelude.Map.{lookup, AllEntries, AllEntries-insert, AllEntries-lookup}
use proxy_mesh.Model.{Device, DeviceIngress, Time, device_ingresses}
use proxy_mesh.Store.{
  Memory, StoreError, without_port, removed_flag, promote, create_device, update_device_credential,
  add_device_ingress, delete_device_ingress, store_promoted, rotated_device, extended_device,
  with_ingresses,
}
use proxy_mesh.Store.Ports.{HasUniquePorts, some_left}
use proxy_mesh.Store.Counted.{count, count-le-all}
use proxy_mesh.Store.Primed.{
  IsPrimed, with_ingresses-IsPrimed, rotated-IsPrimed, extended-IsPrimed, promote-IsPrimed,
}

module _ {F : Type 0} where
  abbrev pub ArePrimed : Memory F → Type 0
  ArePrimed m = AllEntries (λ id d. IsPrimed d) m.devices

  pub create_device-ArePrimed :
      (m : Memory F) (d : Device)
      → d.ingresses ≡ []
      → d.ingress_port ≢ pos 0
      → ArePrimed m
      → ArePrimed (create_device m d).0
  unfolding create_device
  create_device-ArePrimed m d e h a = ground (
    arith,
    AllEntries-insert (λ id d. IsPrimed d) d.id (with_ingresses d) m.devices
        (with_ingresses-IsPrimed d e h) a,
  )

  pub update_device_credential-ArePrimed :
      (m : Memory F) (id password : String) (now : Time)
      → ArePrimed m
      → ArePrimed (update_device_credential m id password now).0
  unfolding update_device_credential
  update_device_credential-ArePrimed m id password now a =
      elim (Option-cases (lookup id m.devices)) [
        | inl e ↦ rw (e, update_device_credential) a
        | inr (d, e) ↦
            let d' = rotated_device password now d in
            rw (e, update_device_credential)
              (AllEntries-insert (λ id d. IsPrimed d) id d' m.devices
                (rotated-IsPrimed password now d
                  (AllEntries-lookup (λ id d. IsPrimed d) id d m.devices a e))
                a)
      ]

  pub add_device_ingress-ArePrimed :
      (m : Memory F) (id : String) (i : DeviceIngress) (now : Time)
      → ArePrimed m
      → ArePrimed (add_device_ingress m id i now).0
  unfolding add_device_ingress
  add_device_ingress-ArePrimed m id i now a = elim (Option-cases (lookup id m.devices)) [
    | inl e ↦ rw (e, add_device_ingress) a
    | inr (d, e) ↦
        let d' = extended_device i now d in
        rw (e, add_device_ingress)
          (ground (
            arith,
            a,
            AllEntries-insert (λ id d. IsPrimed d) id d' m.devices
                (extended-IsPrimed i now d
                  (AllEntries-lookup (λ id d. IsPrimed d) id d m.devices a e))
                a,
          ))
  ]

  store_promoted-ArePrimed :
      (m : Memory F) (id : String) (now : Time) (r : Result StoreError Device)
      → ((d : Device) → r ≡ ok d → IsPrimed (record d { updated_at = now }))
      → ArePrimed m
      → ArePrimed (store_promoted m id now r).0
  store_promoted-ArePrimed m id now (err x) h a = a
  store_promoted-ArePrimed m id now (ok d) h a =
      AllEntries-insert (λ id d. IsPrimed d) id (record d { updated_at = now }) m.devices (h d refl)
        a

  pub delete_device_ingress-ArePrimed :
      (m : Memory F) (id : String) (port : ℤ) (now : Time)
      → HasUniquePorts m
      → ArePrimed m
      → ArePrimed (delete_device_ingress m id port now).0
  unfolding delete_device_ingress
  delete_device_ingress-ArePrimed m id port now u a = elim (Option-cases (lookup id m.devices)) [
    | inl e ↦ rw (e, delete_device_ingress) a
    | inr (d, e) ↦
        let is = device_ingresses d in
        elim (Bool-cases (leb (length is) 1)) [
          | inl few ↦ rw (e, delete_device_ingress, few) a
          | inr many ↦ elim (Option-cases (removed_flag port is)) [
            | inl f ↦ rw (e, delete_device_ingress, many, f) a
            | inr (flag, f) ↦
                let once : count port is ≤ 1 =
                  omega (arith, u port, count-le-all port id d m.devices e) in
                rw (e, delete_device_ingress, many, f)
                  (store_promoted-ArePrimed m id now (promote flag d (without_port port is))
                    (λ d' p.
                      promote-IsPrimed port flag now d d'
                        (AllEntries-lookup (λ id d. IsPrimed d) id d m.devices a e) once f
                        (some_left m id d port u e many) p)
                    a)
          ]
        ]
  ]
