-- ===== src/Tests/Ingresses.antt =====
-- The requests of internal/control/api.go that change a device, on the store with one device.
use proxy_mesh.Prelude.{
  ℕ, pos, true, false, some, [], ◌∷◌, ◌==◌, ◌≡◌, refl, string_eq, int_eq, nat_eq, length,
  if◌then◌else◌,
}
use proxy_mesh.Prelude.Map.{lookup, insert}
use proxy_mesh.Model.{Device, DeviceIngress, primary_ingress, device_ingresses}
use proxy_mesh.Frame.{zero_frame, type_ack}
use proxy_mesh.SsConfig.{generate_password, validate}
use proxy_mesh.Hub.{
  Traffic, acked, ready_sessions, broadcast_and_wait, send_all, wait_all, wait_session, deployments,
}
use proxy_mesh.Hub.Deploy.{deploy_device, two_phase, second_phase}
use proxy_mesh.Store.{
  Memory, new_memory, create_device, add_device_ingress, delete_device_ingress, get_device,
}
use proxy_mesh.Api.{new_api}
use proxy_mesh.Api.Ingresses.{
  Deploying, AddIngress, add_ingress, rotate_credential, deploy, proposed_deletion,
}
use proxy_mesh.Api.Ingresses.Shared.{
  Matches, Rewritten, delete_device_ingress-proposed, rotate_credential-shared,
}
use proxy_mesh.Tests.Fixtures.{any_ss, phone}

abbrev one_device : Memory ℕ
one_device = (create_device new_memory phone).0

abbrev first_ingress : DeviceIngress
first_ingress = primary_ingress (pos 2000) "aes-256-gcm" "password" (pos 0)

abbrev second_ingress : DeviceIngress
second_ingress = record (primary_ingress (pos 2001) "aes-256-gcm" "password" (pos 5)) {
  primary = false;
}

abbrev stored_phone : Device
stored_phone = record phone { ingresses = first_ingress ∷ [] }

abbrev phone_of_two : Device
phone_of_two = record phone { ingresses = first_ingress ∷ second_ingress ∷ []; updated_at = pos 5 }

abbrev two_ingresses : Memory ℕ
two_ingresses = (add_device_ingress one_device "phone" second_ingress (pos 5)).0

abbrev silent : Device → Traffic
silent d = record { can_send = λ id. true; events = λ id. [] }

abbrev nobody : Deploying
nobody = record {
  hub = record { sessions = []; next_key = 0 };
  request_id = "1";
  first = silent;
  second = silent;
}

-- A gateway that takes every device with two ingresses.
abbrev answers : Device → Traffic
answers d = record {
  can_send = λ id. true;
  events = λ id.
      if length d.ingresses == 2
      then acked (record zero_frame { type = type_ack; request_id = "1" }) ∷ []
      else [];
}

abbrev one_gateway : Deploying
one_gateway = record {
  hub = record {
    sessions = ("gw", record { id = "gw"; key = 0; ready = true }) ∷ [];
    next_key = 1;
  };
  request_id = "1";
  first = answers;
  second = answers;
}

abbrev any_ingress : AddIngress
any_ingress = record { method = "aes-256-gcm"; password = "password"; listen_port = pos 2001 }

-- The request of the example is answered with 201.
added_run :
    (add_ingress any_ss new_api one_gateway "phone" any_ingress "" 3 (pos 5) one_device).1
    ≡ some 201
unfolding add_ingress get_device create_device deploy deploy_device two_phase second_phase
    broadcast_and_wait send_all wait_all wait_session ready_sessions deployments add_device_ingress
    validate device_ingresses lookup insert
added_run = refl

delete_device_ingress-proposed_example :
    Matches
      (pos 6)
      (proposed_deletion (pos 2000) phone_of_two)
      (delete_device_ingress two_ingresses "phone" (pos 2000) (pos 6)).1
unfolding create_device add_device_ingress device_ingresses lookup insert
delete_device_ingress-proposed_example =
    delete_device_ingress-proposed two_ingresses "phone" (pos 2000) (pos 6) phone_of_two refl

rotate_credential-shared_example :
    ((rotate_credential nobody "phone" "generated" (pos 6) one_device).1 ≡ some 503)
    × ((stored : Device) × (lookup "phone"
            (rotate_credential nobody "phone" "generated" (pos 6) one_device).0.devices
          ≡ some stored)
        × (stored.ingress_password ≡ stored_phone.ingress_password)
        × Rewritten "generated" stored_phone.ingresses stored.ingresses)
unfolding create_device device_ingresses lookup insert generate_password ready_sessions
rotate_credential-shared_example =
    rotate_credential-shared nobody "phone" "generated" "generated" (pos 6) one_device stored_phone
      refl refl refl
