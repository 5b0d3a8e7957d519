-- ===== src/Api/Ingresses/Proposed.antt =====
-- What a successful request of internal/control/api.go that changes a device leaves in the store, and which gateways
-- have acknowledged the device that it sends.
use proxy_mesh.Prelude.Map.{lookup}
use proxy_mesh.Prelude.{
  ◌++◌, ◌∷◌, [], ℕ, String, false, Option, none, some, string_eq, int_eq, Result, ok, err, ◌≡◌, ◌≢◌,
  ◌⊎◌, refl, arith, All,
}
use proxy_mesh.Model.{Device, DeviceIngress, Time, device_ingresses}
use proxy_mesh.SsConfig.{SsLibrary, IsValid}
use proxy_mesh.Frame.{zero_frame, type_device_prepare, type_device_update}
use proxy_mesh.Hub.{HubError, ready_sessions}
use proxy_mesh.Hub.Deploy.{deploy_device}
use proxy_mesh.Hub.Broadcast.{Accepts, two_phase-ok}
use proxy_mesh.Store.{
  Memory, StoreError, add_device_ingress, extended_device, has_port, extended_device,
}
use proxy_mesh.Api.{Api}
use proxy_mesh.Api.Devices.{IsIngressPort}
use proxy_mesh.Api.Ingresses.{
  Deploying, AddIngress, deploy, done, commit_device, after_deploy, method_or, given_port,
}

-- Every session that was ready has acknowledged both frames of the device without an error.
abbrev pub Acknowledged : Deploying → Device → Type 0
Acknowledged net d =
    All (λ s. Accepts net.request_id ((net.first d).events s.id)) (ready_sessions net.hub)
    × All (λ s. Accepts net.request_id ((net.second d).events s.id)) (ready_sessions net.hub)

done_ok : (r : Result StoreError Device) → done r ≡ ok tt → (d : Device) × (r ≡ ok d)
done_ok (ok d) h = (d, refl)
done_ok (err e) h = absurd (cc)

status_ok :
    {E : Type 0} (success : ℕ) (x : Option (Result (HubError E) (Unit {0})))
    → success ≢ 503
    → after_deploy success x ≡ some success
    → x ≡ some (ok tt)
status_ok success none n h = absurd (cc)
status_ok success (some (ok u)) n h = refl
status_ok success (some (err e)) n h = absurd (ground (arith, n, h))

module _ {F : Type 0} where
  -- A deployment with the status of success has changed the store, and each ready gateway knows the device.
  pub deploy-Acknowledged :
      (net : Deploying) (proposed : Device)
      (change : Memory F → Memory F × Result StoreError Device) (success : ℕ) (m : Memory F)
      → success ≢ 503
      → (deploy net proposed change success m).1 ≡ some success
      → ((d : Device) × ((change m).1 ≡ ok d))
        × ((deploy net proposed change success m).0 ≡ (change m).0)
        × Acknowledged net proposed
  unfolding deploy deploy_device
  deploy-Acknowledged net proposed change success m n h =
      let (committed, world, accepts, accepts', sent, sent') =
        two_phase-ok (ready_sessions net.hub)
          (record zero_frame {
            type = type_device_prepare;
            request_id = net.request_id;
            device = some proposed;
          })
          (record zero_frame {
            type = type_device_update;
            request_id = net.request_id;
            device = some proposed;
          })
          (net.first proposed) (net.second proposed) (commit_device change) m
          (status_ok success
            (deploy_device net.hub proposed net.request_id (net.first proposed)
              (net.second proposed) (commit_device change) m).result
            n h) in
      (done_ok (change m).1 committed, world, (accepts, accepts'))

  -- What a request that adds an ingress to the device has done, if it is answered with 201.
  abbrev pub Added :
      SsLibrary
      → Api
      → Deploying
      → String
      → AddIngress
      → ℕ
      → Time
      → Memory F
      → Memory F × Option ℕ
      → Type 0
  Added ss a net id req draw now m (m', status) =
      (status ≢ some 201)
      ⊎ ((i : DeviceIngress) × (d : Device) × (d' : Device) × (lookup id m.devices ≡ some d)
          × (i.method ≡ method_or req.method)
          × (i.port ≡ given_port a draw req.listen_port)
          × (req.password ≢ "" → i.password ≡ req.password)
          × IsValid ss i.method i.password
          × IsIngressPort i.port
          × (has_port i.port d ≡ false)
          × (d'.ingresses ≡ device_ingresses d ++ i ∷ [])
          × (add_device_ingress m id i now ≡ (m', ok d'))
          × Acknowledged net (record d' { updated_at = d.updated_at }))

  module _ (ss : SsLibrary) (a : Api) (net : Deploying) (id : String) (req : AddIngress)
      (random : String) (draw : ℕ) (now : Time) (m : Memory F) where
    -- The ingress that the request asks for.
    abbrev asked : String → DeviceIngress
    asked password = record {
      port = given_port a draw req.listen_port;
      method = method_or req.method;
      password = password;
      primary = false;
      created_at = now;
    }
