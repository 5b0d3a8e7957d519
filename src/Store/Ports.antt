-- ===== src/Store/Ports.antt =====
-- No two ingresses in the store of internal/store/memory.go have the same port.
use proxy_mesh.Prelude.{
  ◌≤◌, ℤ, String, Bool, true, false, some, List, [], ◌∷◌, ◌≡◌, ◌≢◌, string_eq, int_eq, beq_ℤ_iff,
  eq_iff, err, is_empty, leb, length, arith, Option-cases, Result-cases, Bool-cases, inl, inr,
}
use proxy_mesh.Prelude.Map.{lookup}
use proxy_mesh.Model.{Device, DeviceIngress, Time, device_ingresses}
use proxy_mesh.Store.{
  Memory, panicked, without_port, removed_flag, promote, create_device, update_device_credential,
  add_device_ingress, delete_device_ingress, store_promoted, rotated_device, extended_device,
}
use proxy_mesh.Store.Counted.{
  count, count_all, count_all-insert, count_all-untaken, count-without_port-le, count-rotated,
  count-extended, without_port-nonempty, count-promote, count_in-of, count-le-all,
}

module _ {F : Type 0} where
  abbrev pub HasUniquePorts : Memory F → Type 0
  HasUniquePorts m = (p : ℤ) → count_all p m.devices ≤ 1

  pub create_device-ports :
      (m : Memory F) (d : Device)
      → d.ingresses ≡ []
      → HasUniquePorts m
      → HasUniquePorts (create_device m d).0
  unfolding create_device device_ingresses count
  create_device-ports m d e u p = ground (
    arith,
    e,
    u p,
    eq_iff d.id d.id,
    count_all-insert p d.id d m.devices,
    count_all-insert p d.id (record d { ingresses = device_ingresses d }) m.devices,
    count_all-untaken d.ingress_port m.devices,
    beq_ℤ_iff d.ingress_port p,
  )

  pub update_device_credential-ports :
      (m : Memory F) (id password : String) (now : Time)
      → HasUniquePorts m
      → HasUniquePorts (update_device_credential m id password now).0
  unfolding update_device_credential
  update_device_credential-ports m id password now u p = elim (Option-cases (lookup id m.devices)) [
    | inl e ↦ rw (e, update_device_credential) (u p)
    | inr (d, e) ↦
        let d' = rotated_device password now d in
        rw (e, update_device_credential)
          (ground
            (arith, e, u p, count_all-insert p id d' m.devices, count-rotated p password now d))
  ]

  pub add_device_ingress-ports :
      (m : Memory F) (id : String) (i : DeviceIngress) (now : Time)
      → HasUniquePorts m
      → HasUniquePorts (add_device_ingress m id i now).0
  unfolding add_device_ingress
  add_device_ingress-ports m id i now u p = elim (Option-cases (lookup id m.devices)) [
    | inl e ↦ rw (e, add_device_ingress) (u p)
    | inr (d, e) ↦
        let d' = extended_device i now d in
        rw (e, add_device_ingress)
          (ground (
            arith,
            e,
            u p,
            beq_ℤ_iff i.port p,
            count_all-insert p id d' m.devices,
            count-extended p i now d,
            count_all-untaken i.port m.devices,
          ))
  ]

  pub some_left :
      (m : Memory F) (id : String) (d : Device) (port : ℤ)
      → HasUniquePorts m
      → lookup id m.devices ≡ some d
      → leb (length (device_ingresses d)) 1 ≡ false
      → is_empty (without_port port (device_ingresses d)) ≡ false
  some_left m id d port u e many =
      without_port-nonempty port (device_ingresses d) (ground arith)
        (omega (arith, u port, count-le-all port id d m.devices e))

  store_promoted-ports :
      (m : Memory F) (id : String) (now : Time) (d : Device) (flag : Bool)
      (out : List DeviceIngress)
      → HasUniquePorts m
      → lookup id m.devices ≡ some d
      → is_empty out ≡ false
      → ((p : ℤ) → count p out ≤ count p (device_ingresses d))
      → HasUniquePorts (store_promoted m id now (promote flag d out)).0
  store_promoted-ports m id now d flag out u e h le p = elim (Result-cases (promote flag d out)) [
    | inr (x, f) ↦ rw f (u p)
    | inl (d', f) ↦ rw f (
        omega (
          arith,
          u p,
          le p,
          count-promote flag d d' now out p h f,
          count_in-of p id d m e,
          count_all-insert p id (record d' { updated_at = now }) m.devices,
        ))
  ]

  store_promoted-returns :
      (m : Memory F) (id : String) (now : Time) (d : Device) (flag : Bool)
      (out : List DeviceIngress)
      → is_empty out ≡ false
      → (store_promoted m id now (promote flag d out)).1 ≢ err panicked
  unfolding promote
  store_promoted-returns m id now d true [] h = absurd (cc)
  store_promoted-returns m id now d true (i ∷ is) h = λ c. cc
  store_promoted-returns m id now d false out h = λ c. cc

  pub delete_device_ingress-ports :
      (m : Memory F) (id : String) (port : ℤ) (now : Time)
      → HasUniquePorts m
      → HasUniquePorts (delete_device_ingress m id port now).0
  unfolding delete_device_ingress
  delete_device_ingress-ports m id port now u p = elim (Option-cases (lookup id m.devices)) [
    | inl e ↦ rw (e, delete_device_ingress) (u p)
    | inr (d, e) ↦
        let is = device_ingresses d in
        elim (Bool-cases (leb (length is) 1)) [
          | inl few ↦ rw (e, delete_device_ingress, few) (u p)
          | inr many ↦ elim (Option-cases (removed_flag port is)) [
            | inl f ↦ rw (e, delete_device_ingress, many, f) (u p)
            | inr (flag, f) ↦
                rw (e, delete_device_ingress, many, f)
                  (store_promoted-ports m id now d flag (without_port port is) u e
                    (some_left m id d port u e many) (λ q. count-without_port-le q port is) p)
          ]
        ]
  ]

  -- With a port held once at most, an ingress is left whenever one is removed.
  pub delete_device_ingress-returns :
      (m : Memory F) (id : String) (port : ℤ) (now : Time)
      → HasUniquePorts m
      → (delete_device_ingress m id port now).1 ≢ err panicked
  unfolding delete_device_ingress
  delete_device_ingress-returns m id port now u = elim (Option-cases (lookup id m.devices)) [
    | inl e ↦ rw (e, delete_device_ingress) (λ h. cc)
    | inr (d, e) ↦
        let is = device_ingresses d in
        elim (Bool-cases (leb (length is) 1)) [
          | inl few ↦ rw (e, delete_device_ingress, few) (λ h. cc)
          | inr many ↦ elim (Option-cases (removed_flag port is)) [
            | inl f ↦ rw (e, delete_device_ingress, many, f) (λ h. cc)
            | inr (flag, f) ↦
                rw (e, delete_device_ingress, many, f)
                  (store_promoted-returns m id now d flag (without_port port is)
                    (some_left m id d port u e many))
          ]
        ]
  ]
