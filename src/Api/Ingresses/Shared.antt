-- ===== src/Api/Ingresses/Shared.antt =====
-- The devices that rotateCredential and deleteIngress of internal/control/api.go propose to the gateways, against
-- those that the store of internal/store/memory.go keeps.
use mathlib.Core.List.{append-nil, append_assoc}
use proxy_mesh.Prelude.{
  ℤ, String, Bool, some, [], string_eq, int_eq, Result, ok, err, ◌≡◌, inl, inr, refl, sym, ◌∙◌,
  arith, eq_iff, leb, length, Bool-cases, Option-cases, ℕ, true, false, Option, none, List, ◌∷◌,
  ◌++◌, ◌==◌, if◌then◌else◌, ap,
}
use proxy_mesh.Prelude.Map.{lookup, lookup-insert}
use proxy_mesh.Model.{Device, DeviceIngress, Time, device_ingresses}
use proxy_mesh.SsConfig.{generate_password}
use proxy_mesh.Hub.{ready_sessions}
use proxy_mesh.Hub.Deploy.{deploy_device, two_phase}
use proxy_mesh.Store.{
  Memory, StoreError, conflict, not_found, panicked, store_promoted, get_device,
  delete_device_ingress, write_primary, without_port, removed_flag, promote,
}
use proxy_mesh.Api.Ingresses.{
  scan, proposal, proposed_deletion, Deploying, rotate_credential, write_shared, deploy,
}

-- What the flags of the loop are, by what the store finds.
abbrev flags : Option Bool → Bool → Bool → Bool × Bool
flags none removed primary = (removed, primary)
flags (some flag) removed primary = (true, flag)

scan-without_port :
    (port : ℤ) (is out : List DeviceIngress) (removed primary : Bool)
    → scan port is (out, removed, primary) ≡ (
      out ++ without_port port is,
      (flags (removed_flag port is) removed primary).0,
      (flags (removed_flag port is) removed primary).1,
    )
unfolding scan without_port removed_flag
scan-without_port port [] out removed primary = λ i. (sym (append-nil out) i, removed, primary)
scan-without_port port (j ∷ is) out removed primary = elim (Bool-cases (j.port == port)) [
  | inl here ↦ elim (Option-cases (removed_flag port is)) [
    | inl f ↦ rw (f, here) (scan-without_port port is out true j.primary ∙ rw f refl)
    | inr (flag, f) ↦ rw (f, here) (scan-without_port port is out true j.primary ∙ rw f refl)
  ]
  | inr other ↦
      let assoc = append_assoc out (j ∷ []) (without_port port is) in
      elim (Option-cases (removed_flag port is)) [
        | inl f ↦
            rw (f, other)
              (scan-without_port port is (out ++ j ∷ []) removed primary
                ∙ rw f (ap (λ w. (w, removed, primary)) assoc))
        | inr (flag, f) ↦
            rw (f, other)
              (scan-without_port port is (out ++ j ∷ []) removed primary
                ∙ rw f (ap (λ w. (w, true, flag)) assoc))
      ]
]

-- What a response says of an error of the store: a panic ends the request without one.
abbrev pub status_of : StoreError → Option ℕ
status_of not_found = some 404
status_of conflict = some 409
status_of panicked = none

-- The device that was proposed is stored, but for its time, or both are refused for the same reason.
abbrev pub Matches : Time → Result (Option ℕ) Device → Result StoreError Device → Type 0
Matches now (ok proposed) r = r ≡ ok (record proposed { updated_at = now })
Matches now (err status) r = (e : StoreError) × (r ≡ err e) × (status_of e ≡ status)

-- Each primary ingress with the password, and every other one as it was.
abbrev pub Rewritten : String → List DeviceIngress → List DeviceIngress → Type 0
Rewritten password [] [] = Unit
Rewritten password [] (j ∷ js) = ⊥
Rewritten password (i ∷ is) [] = ⊥
Rewritten password (i ∷ is) (j ∷ js) =
    (j.port ≡ i.port)
    × (j.method ≡ i.method)
    × (j.primary ≡ i.primary)
    × (j.password ≡ (if i.primary then password else i.password))
    × Rewritten password is js

write_primary-Rewritten :
    (password : String) (is : List DeviceIngress)
    → Rewritten password is (write_primary password is)
unfolding write_primary
write_primary-Rewritten password [] = tt
write_primary-Rewritten password (i ∷ is) = ground (arith, write_primary-Rewritten password is)

module _ {F : Type 0} where
  promote-Matches :
      (m : Memory F) (id : String) (now : Time) (d : Device) (flag : Bool)
      (out : List DeviceIngress)
      → Matches now (proposal d (out, true, flag)) (store_promoted m id now (promote flag d out)).1
  unfolding promote
  promote-Matches m id now d false out = refl
  promote-Matches m id now d true [] = (panicked, refl, refl)
  promote-Matches m id now d true (i ∷ is) = refl

  -- The deletion that deleteIngress proposes to the gateways is the one that DeleteDeviceIngress makes of the
  -- same device: the stored device is the proposed one but for its time, and if there is none to propose, the
  -- store refuses for the reason that the response gives.
  pub delete_device_ingress-proposed :
      (m : Memory F) (id : String) (port : ℤ) (now : Time) (d : Device)
      → lookup id m.devices ≡ some d
      → Matches now (proposed_deletion port d) (delete_device_ingress m id port now).1
  unfolding delete_device_ingress proposed_deletion
  delete_device_ingress-proposed m id port now d e =
      let is = device_ingresses d in
      let scanned = scan-without_port port is [] false false in
      elim (Bool-cases (leb (length is) 1)) [
        | inl few ↦ rw (e, delete_device_ingress, few, proposed_deletion) (conflict, refl, refl)
        | inr many ↦ elim (Option-cases (removed_flag port is)) [
          | inl f ↦
              rw (e, delete_device_ingress, many, f, proposed_deletion)
                (rw scanned (rw f (not_found, refl, refl)))
          | inr (flag, f) ↦
              rw (e, delete_device_ingress, many, f, proposed_deletion)
                (rw scanned (rw f (promote-Matches m id now d flag (without_port port is))))
        ]
      ]

  -- If no gateway is ready, a request to rotate the credential of a device fails, and yet the stored device has
  -- the new password in each primary ingress, while its own password is the old one.
  pub rotate_credential-shared :
      (net : Deploying) (id random password : String) (now : Time) (m : Memory F) (d : Device)
      → lookup id m.devices ≡ some d
      → generate_password d.ingress_method random ≡ ok password
      → ready_sessions net.hub ≡ []
      → ((rotate_credential net id random now m).1 ≡ some 503)
        × ((stored : Device) × (lookup id (rotate_credential net id random now m).0.devices
              ≡ some stored)
            × (stored.ingress_password ≡ d.ingress_password)
            × Rewritten password d.ingresses stored.ingresses)
  unfolding rotate_credential get_device write_shared deploy deploy_device two_phase
  rotate_credential-shared net id random password now m d e g none_ready =
      rw (e, rotate_credential, g, none_ready)
        (
          refl,
          (
            record d { ingresses = write_primary password d.ingresses },
            lookup-insert id id (record d { ingresses = write_primary password d.ingresses })
                  m.devices
                ∙ ground (arith, eq_iff id id),
            refl,
            write_primary-Rewritten password d.ingresses,
          ),
        )
