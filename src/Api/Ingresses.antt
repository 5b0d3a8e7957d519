-- ===== src/Api/Ingresses.antt =====
-- rotateCredential, addIngress and deleteIngress of internal/control/api.go on the store in memory. What the hub
-- receives in the two phases of a deployment is an argument, as are random texts, draws and the clock.
pub mod Proposed
pub mod Shared
use proxy_mesh.Prelude.{
  ℕ, ℤ, pos, ◌+ℤ◌, String, Bool, true, false, ◌||◌, ◌&&◌, not, Option, none, some, List, [], ◌∷◌,
  ◌++◌, ◌==◌, string_eq, int_eq, ltb_ℤ, leb, length, if◌then◌else◌, Result, ok, err,
}
use proxy_mesh.Prelude.Map.{insert}
use proxy_mesh.Model.{Device, DeviceIngress, Time, device_ingresses}
use proxy_mesh.SsConfig.{SsLibrary, SsError, validate, generate_password, blake3_aes_128_gcm}
use proxy_mesh.Hub.{Hub, HubError, Traffic}
use proxy_mesh.Hub.Deploy.{Deployed, deploy_device}
use proxy_mesh.Store.{
  Memory, Held, StoreError, get_device, update_device_credential, add_device_ingress,
  delete_device_ingress, adjust, write_primary, without_port, removed_flag, promote, has_port,
}
use proxy_mesh.Api.{Api, store_status}

-- A device deployment: the hub, the request id, and what is received in its two phases, by the device that is
-- sent.
pub record Deploying : Type 0 where
  pub hub : Hub
  pub request_id : String
  pub first : Device → Traffic
  pub second : Device → Traffic

pub record AddIngress : Type 0 where
  pub method : String
  pub password : String
  pub listen_port : ℤ

-- The device that rotateCredential proposes, which has the password in the primary ingresses.
abbrev pub rotated : String → Device → Device
rotated password d = record d {
  ingress_password = password;
  ingresses = write_primary password d.ingresses;
}

abbrev pub extended : DeviceIngress → Device → Device
extended i d = record d { ingresses = device_ingresses d ++ i ∷ [] }

-- The status of a response: the given one after a deployment without an error, none while it waits.
abbrev pub after_deploy : {E : Type 0} → ℕ → Option (Result (HubError E) (Unit {0})) → Option ℕ
after_deploy success none = none
after_deploy success (some (err e)) = some 503
after_deploy success (some (ok _)) = some success

abbrev share_write : String → Held → Held
share_write password h =
    if h.shares
    then record h {
      route = record h.route { ingresses = write_primary password h.route.ingresses };
    }
    else h

abbrev given_port : Api → ℕ → ℤ → ℤ
given_port a draw port = if port == pos 0 then a.ingress_port_start +ℤ pos draw else port

abbrev pub password_or : String → String → String → Result SsError String
password_or given method random = if given == "" then generate_password method random else ok given

abbrev method_or : String → String
method_or given = if given == "" then blake3_aes_128_gcm else given

-- The error of a method of the store, without its device.
abbrev pub done : Result StoreError Device → Result StoreError (Unit {0})
done (ok d) = ok tt
done (err e) = err e

-- The loop of deleteIngress: the ingresses that are left, whether one was removed, and whether the last one that was
-- removed is primary.
unfoldable pub scan :
    ℤ → List DeviceIngress → List DeviceIngress × Bool × Bool → List DeviceIngress × Bool × Bool
scan port [] found = found
scan port (i ∷ is) (out, removed, primary) =
    let here = scan port is (out, true, i.primary) in
    let other = scan port is (out ++ i ∷ [], removed, primary) in
    if i.port == port then here else other

-- The device after the loop, or the status; an index out of range ends the request without a response.
abbrev pub proposal : Device → List DeviceIngress × Bool × Bool → Result (Option ℕ) Device
proposal d (out, false, primary) = err (some 404)
proposal d (out, true, false) = ok (record d { ingresses = out })
proposal d ([], true, true) = err none
proposal d (i ∷ is, true, true) = ok (record d {
  ingresses = record i { primary = true } ∷ is;
  ingress_port = i.port;
  ingress_method = i.method;
  ingress_password = i.password;
})

-- The device that deleteIngress proposes to the gateways.
unfoldable pub proposed_deletion : ℤ → Device → Result (Option ℕ) Device
proposed_deletion port d =
    let is = device_ingresses d in
    if leb (length is) 1 then err (some 409) else proposal d (scan port is ([], false, false))

module _ {F : Type 0} where
  abbrev pub commit_device :
      (Memory F → Memory F × Result StoreError Device)
      → Memory F
      → Memory F × Result StoreError (Unit {0})
  commit_device change w = ((change w).0, done (change w).1)

  -- The call of the hub's DeployDevice with a method of the store as its commit.
  unfoldable pub deploy :
      Deploying
      → Device
      → (Memory F → Memory F × Result StoreError Device)
      → ℕ
      → Memory F
      → Memory F × Option ℕ
  deploy net proposed change success m =
      let deployed =
        deploy_device net.hub proposed net.request_id (net.first proposed) (net.second proposed)
          (commit_device change) m in
      (deployed.world, after_deploy success deployed.result)

  -- The loop of rotateCredential writes to the array of the stored device, before the deployment.
  unfoldable pub write_shared : String → String → Device → Memory F → Memory F
  write_shared id password d m = record m {
    devices = insert id (record d { ingresses = write_primary password d.ingresses }) m.devices;
    routes = adjust id (share_write password) m.routes;
    pending = adjust id (share_write password) m.pending;
  }

  unfoldable pub rotate_credential :
      Deploying → String → String → Time → Memory F → Memory F × Option ℕ
  rotate_credential net id random now m = elim (get_device m id) [
    | err e ↦ (m, some (store_status e))
    | ok d ↦ elim (generate_password d.ingress_method random) [
      | err e ↦ (m, some 500)
      | ok password ↦
          deploy net (rotated password d) (λ w. update_device_credential w id password now) 200
            (write_shared id password d m)
    ]
  ]

  unfoldable pub add_ingress :
      SsLibrary
      → Api
      → Deploying
      → String
      → AddIngress
      → String
      → ℕ
      → Time
      → Memory F
      → Memory F × Option ℕ
  add_ingress ss a net id req random draw now m = elim (get_device m id) [
    | err e ↦ (m, some (store_status e))
    | ok d ↦ elim (password_or req.password (method_or req.method) random) [
      | err e ↦ (m, some 400)
      | ok password ↦ elim (validate ss (method_or req.method) password) [
        | err e ↦ (m, some 400)
        | ok _ ↦
            let port = given_port a draw req.listen_port in
            let i : DeviceIngress = record {
              port = port;
              method = method_or req.method;
              password = password;
              primary = false;
              created_at = now;
            } in
            if ltb_ℤ port (pos 1024) || ltb_ℤ (pos 65535) port
            then (m, some 400)
            else if has_port port d
            then (m, some 409)
            else deploy net (extended i d) (λ w. add_device_ingress w id i now) 201 m
      ]
    ]
  ]

  -- deleteIngress, with the port that parsePort has read.
  unfoldable pub delete_ingress :
      Deploying → String → Option ℤ → Time → Memory F → Memory F × Option ℕ
  delete_ingress net id none now m = (m, some 400)
  delete_ingress net id (some port) now m = elim (get_device m id) [
    | err e ↦ (m, some (store_status e))
    | ok d ↦ elim (proposed_deletion port d) [
      | err status ↦ (m, status)
      | ok proposed ↦ deploy net proposed (λ w. delete_device_ingress w id port now) 204 m
    ]
  ]
