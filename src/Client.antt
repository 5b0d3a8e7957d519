-- ===== src/Client.antt =====
-- The control client of a gateway: internal/dataplane/control_client.go. What the system does while a
-- frame is handled is an argument: which ports it gives, and whether the snapshot file is written.
pub mod Phases
pub mod Consistent
pub mod Stream
use proxy_mesh.Prelude.{
  ℤ, String, Bool, true, false, Option, none, some, List, [], ◌∷◌, ◌==◌, ◌||◌, string_eq,
  if◌then◌else◌, Result, ok, err, if_both,
}
use proxy_mesh.Model.{Device, DeviceRoute, Time, gateway_syncing, gateway_draining, gateway_ready}
use proxy_mesh.Model
use proxy_mesh.SsConfig.{SsLibrary}
use proxy_mesh.Frame.{
  Frame, zero_frame, type_snapshot, type_prepare, type_activate, type_device_update,
  type_device_prepare, type_interrupt, type_set_draining, type_ack, type_heartbeat,
}
use proxy_mesh.Table
use proxy_mesh.Table.{TableError}
use proxy_mesh.Gateway.{
  Gateway, GatewayError, set_control_synced, set_draining, ready, reconcile_listeners,
  prepare_device, prepare_listener,
}

-- The client shares its table with the gateway. `saved` is what the snapshot file holds, if there is one.
pub record ControlClient : Type 0 where
  pub gateway_id : String
  pub address : String
  pub gateway : Gateway
  pub saved : Option (List DeviceRoute)

pub record System : Type 0 where
  pub listen : ℤ → Bool
  pub save : Bool

pub data HandleError : Type 0 where
  missing_route : HandleError
  missing_device : HandleError
  unknown_frame : HandleError
  invalid_bool : HandleError
  save_failed : HandleError
  table_error : TableError → HandleError
  gateway_error : GatewayError → HandleError

abbrev pub Handled : Type 0
Handled = ControlClient × Result HandleError (Unit {0})

-- strconv.ParseBool
unfoldable pub parse_bool : String → Option Bool
parse_bool s =
    if s == "1" || s == "t" || s == "T" || s == "true" || s == "TRUE" || s == "True"
    then some true
    else if s == "0" || s == "f" || s == "F" || s == "false" || s == "FALSE" || s == "False"
    then some false
    else none

abbrev pub unsynced : ControlClient → ControlClient
unsynced c = record c { gateway = set_control_synced c.gateway false }

-- `if err := c.Gateway.ReconcileListeners(); err != nil { SetControlSynced(false); return err }`, then the
-- rest of the handler.
abbrev pub after_reconcile :
    ControlClient → Gateway × Result GatewayError (Unit {0}) → (ControlClient → Handled) → Handled
after_reconcile c (g, err e) rest = (unsynced (record c { gateway = g }), err (gateway_error e))
after_reconcile c (g, ok _) rest = rest (record c { gateway = g })

-- `if err := SaveSnapshot(…); err != nil { SetControlSynced(false); return err }`, then the rest. A failed
-- write leaves the file as it was, since the new one is renamed into place.
abbrev pub after_save :
    Bool → List DeviceRoute → ControlClient → (ControlClient → Handled) → Handled
after_save false routes c rest = (unsynced c, err save_failed)
after_save true routes c rest = rest (record c { saved = some routes })

abbrev pub with_table : ControlClient → Table.Table → ControlClient
with_table c t = record c { gateway = record c.gateway { table = t } }

abbrev pub done : ControlClient → Handled
done c = (c, ok tt)

module _ (ss : SsLibrary) (sys : System) where
  unfoldable pub handle_snapshot : ControlClient → List DeviceRoute → Handled
  handle_snapshot c routes = after_save sys.save routes c λ c₁.
      let c₂ = with_table c₁ (Table.load routes c₁.gateway.table) in
      after_reconcile c₂ (reconcile_listeners ss sys.listen c₂.gateway)
        λ c₃. done (record c₃ { gateway = set_control_synced c₃.gateway true })

  -- The call of Table.Prepare, once the listener is there.
  abbrev pub table_prepare : ControlClient → DeviceRoute → Handled
  table_prepare c r =
      let prepared = Table.prepare c.gateway.table r in
      elim prepared.1 [
        | err e ↦ (unsynced (with_table c prepared.0), err (table_error e))
        | ok _ ↦ done (with_table c prepared.0)
      ]

  unfoldable pub handle_prepare : ControlClient → DeviceRoute → Handled
  handle_prepare c r =
      let held = prepare_listener ss sys.listen c.gateway r in
      elim held.1 [
        | err e ↦ (record c { gateway = held.0 }, err (gateway_error e))
        | ok _ ↦ table_prepare (record c { gateway = held.0 }) r
      ]

  -- The end of two handlers: reconcile the listeners, and save what the table serves.
  abbrev pub reconcile_and_save : ControlClient → Handled
  reconcile_and_save c =
      after_reconcile c (reconcile_listeners ss sys.listen c.gateway)
        λ c'. after_save sys.save (Table.snapshot c'.gateway.table) c' done

  unfoldable pub handle_activate : ControlClient → DeviceRoute → Handled
  handle_activate c r =
      let activated = Table.activate c.gateway.table r in
      elim activated.1 [
        | err e ↦ (with_table c activated.0, err (table_error e))
        | ok _ ↦ reconcile_and_save (with_table c activated.0)
      ]

  unfoldable pub handle_device_update : ControlClient → Device → Handled
  handle_device_update c d =
      reconcile_and_save (with_table c (Table.update_device c.gateway.table d))

  unfoldable pub handle_device_prepare : ControlClient → Device → Handled
  handle_device_prepare c d =
      let held = prepare_device ss sys.listen c.gateway d in
      elim held.1 [
        | err e ↦ (record c { gateway = held.0 }, err (gateway_error e))
        | ok _ ↦ done (record c { gateway = held.0 })
      ]

  abbrev pub handle_set_draining : ControlClient → Option Bool → Handled
  handle_set_draining c none = (c, err invalid_bool)
  handle_set_draining c (some v) = done (record c { gateway = set_draining c.gateway v })

  abbrev pub with_route : ControlClient → Option DeviceRoute → (DeviceRoute → Handled) → Handled
  with_route c none rest = (c, err missing_route)
  with_route c (some r) rest = rest r

  abbrev pub with_device : ControlClient → Option Device → (Device → Handled) → Handled
  with_device c none rest = (c, err missing_device)
  with_device c (some d) rest = rest d

  -- An interrupt cancels the contexts of the device's connections; the state changes when they end.
  unfoldable pub handle : ControlClient → Frame → Handled
  unfolding parse_bool
  handle c f =
      if f.type == type_snapshot
      then handle_snapshot c f.routes
      else if f.type == type_prepare
      then with_route c f.route (handle_prepare c)
      else if f.type == type_activate
      then with_route c f.route (handle_activate c)
      else if f.type == type_device_update
      then with_device c f.device (handle_device_update c)
      else if f.type == type_device_prepare
      then with_device c f.device (handle_device_prepare c)
      else if f.type == type_interrupt
      then done c
      else if f.type == type_set_draining
      then handle_set_draining c (parse_bool f.device_id)
      else (c, err unknown_frame)

-- What a gateway gets on its stream, each frame with what the system does meanwhile.
unfoldable pub run_frames : SsLibrary → ControlClient → List (System × Frame) → ControlClient
run_frames ss c [] = c
run_frames ss c ((sys, f) ∷ fs) = run_frames ss (handle ss sys c f).0 fs

-- The text of an error is not modelled: `error_text` gives it.
unfoldable pub ack_of : (HandleError → String) → ControlClient → Frame → Handled → Frame
ack_of error_text c f h = elim h.1 [
  | ok _ ↦ record zero_frame {
    type = type_ack;
    gateway_id = c.gateway_id;
    request_id = f.request_id;
  }
  | err e ↦ record zero_frame {
    type = type_ack;
    gateway_id = c.gateway_id;
    request_id = f.request_id;
    error = error_text e;
  }
]

unfoldable pub heartbeat_status : Gateway → String
heartbeat_status g =
    if g.draining then gateway_draining else if ready g then gateway_ready else gateway_syncing

unfoldable pub heartbeat_frame : ControlClient → Time → Frame
unfolding heartbeat_status
heartbeat_frame c now = record zero_frame {
  type = type_heartbeat;
  gateway_id = c.gateway_id;
  heartbeat = some (record {
    id = c.gateway_id;
    address = c.address;
    status = heartbeat_status c.gateway;
    applied_version = Table.max_version c.gateway.table;
    active_connections = c.gateway.connections.total;
    last_heartbeat_at = now;
  });
}

-- What holds of the outcome of each kind of frame holds of the outcome of any frame.
pub handle_cases {ℓ} :
    (P : Handled → Type ℓ) (ss : SsLibrary) (sys : System) (c : ControlClient) (f : Frame)
    → P (handle_snapshot ss sys c f.routes)
    → P (with_route ss sys c f.route (handle_prepare ss sys c))
    → P (with_route ss sys c f.route (handle_activate ss sys c))
    → P (with_device ss sys c f.device (handle_device_update ss sys c))
    → P (with_device ss sys c f.device (handle_device_prepare ss sys c))
    → P (done c)
    → P (handle_set_draining ss sys c (parse_bool f.device_id))
    → P (c, err unknown_frame)
    → P (handle ss sys c f)
unfolding handle
handle_cases P ss sys c f a b d e g h i j = if_both P (f.type == type_snapshot) _ _ a (
    if_both P (f.type == type_prepare) _ _ b (
      if_both P (f.type == type_activate) _ _ d (
        if_both P (f.type == type_device_update) _ _ e (
          if_both P (f.type == type_device_prepare) _ _ g (
            if_both P (f.type == type_interrupt) _ _ h
              (if_both P (f.type == type_set_draining) _ _ i j))))))
