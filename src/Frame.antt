-- ===== src/Frame.antt =====
-- The frames between the control plane and a gateway: internal/controlrpc/control.go. A nil pointer is
-- `none`, and an empty text or list stands for an omitted field.
use proxy_mesh.Prelude.{String, Option, none, List, []}
use proxy_mesh.Model.{Device, DeviceRoute, Gateway}

pub record Frame : Type 0 where
  pub type : String
  pub gateway_id : String
  pub request_id : String
  pub route : Option DeviceRoute
  pub routes : List DeviceRoute
  pub device : Option Device
  pub heartbeat : Option Gateway
  pub device_id : String
  pub error : String

abbrev pub zero_frame : Frame
zero_frame = record {
  type = "";
  gateway_id = "";
  request_id = "";
  route = none;
  routes = [];
  device = none;
  heartbeat = none;
  device_id = "";
  error = "";
}

abbrev pub type_register : String
type_register = "register"

abbrev pub type_snapshot : String
type_snapshot = "snapshot"

abbrev pub type_prepare : String
type_prepare = "prepare"

abbrev pub type_activate : String
type_activate = "activate"

abbrev pub type_ack : String
type_ack = "ack"

abbrev pub type_heartbeat : String
type_heartbeat = "heartbeat"

abbrev pub type_device_prepare : String
type_device_prepare = "device_prepare"

abbrev pub type_device_update : String
type_device_update = "device_update"

abbrev pub type_interrupt : String
type_interrupt = "interrupt"

abbrev pub type_set_draining : String
type_set_draining = "set_draining"
