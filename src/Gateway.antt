-- ===== src/Gateway.antt =====
-- The gateway of internal/dataplane/gateway.go: its flags and its Shadowsocks listeners. The listeners'
-- sockets and servers are not part of the state. What the system answers to net.Listen during one call
-- is an argument of the call, a function of the port.
pub mod Claims
pub mod Reconcile
pub mod Desired
pub mod Usable
pub mod Again
pub mod Prepare
pub mod Admit
pub mod Health
use proxy_mesh.Prelude.{
  ℕ, ◌+◌, ◌%◌, ◌^◌, ℤ, pos, String, Bool, true, false, not, ◌&&◌, ◌||◌, Option, none, some, List,
  [], ◌∷◌, ◌==◌, string_eq, int_eq, if◌then◌else◌, ltb_ℤ, Result, ok, err, ◌>>=◌, ◌>>◌,
}
use proxy_mesh.Prelude.Map.{Map, lookup, insert, delete}
use proxy_mesh.Model.{
  Device, DeviceIngress, DeviceRoute, Time, device_ingresses, route_ingresses, zero_route,
  zero_device,
}
use proxy_mesh.SsConfig.{SsLibrary, SsError, server_failed, validate, invalid_password}
use proxy_mesh.Table.{Table, snapshot, is_loaded, by_device}
use proxy_mesh.Connections.{Connections}

pub record Listener : Type 0 where
  pub device_id : String
  pub method : String
  pub password : String
  pub active : Bool

pub record Gateway : Type 0 where
  pub table : Table
  pub connections : Connections
  pub draining : Bool
  pub canary_ok : Bool
  pub control_synced : Bool
  pub listeners : Map ℤ Listener
  pub connect_ok : ℕ
  pub connect_failed : ℕ

pub data GatewayError : Type 0 where
  incomplete_ingress : GatewayError
  duplicate_port : GatewayError
  port_reserved : GatewayError
  invalid_port : GatewayError
  missing_password : GatewayError
  credentials : SsError → GatewayError
  listen_failed : GatewayError

unfoldable pub new_gateway : Table → Connections → Gateway
new_gateway t c = record {
  table = t;
  connections = c;
  draining = false;
  canary_ok = true;
  control_synced = false;
  listeners = [];
  connect_ok = 0;
  connect_failed = 0;
}

abbrev pub set_draining : Gateway → Bool → Gateway
set_draining g v = record g { draining = v }

abbrev pub set_canary : Gateway → Bool → Gateway
set_canary g v = record g { canary_ok = v }

abbrev pub set_control_synced : Gateway → Bool → Gateway
set_control_synced g v = record g { control_synced = v }

unfoldable pub ready : Gateway → Bool
unfolding is_loaded
ready g = is_loaded g.table && g.control_synced && not g.draining && g.canary_ok

-- The route of one listener: the route with the credentials of the ingress.
abbrev pub with_ingress : DeviceRoute → DeviceIngress → DeviceRoute
with_ingress r i = record r {
  ingress_port = i.port;
  ingress_method = i.method;
  ingress_password = i.password;
}

abbrev pub has_port : Map ℤ DeviceRoute → ℤ → Bool
has_port m port = elim (lookup port m) [ none ↦ false | some r ↦ true ]

-- The two loops at the head of ReconcileListeners.
unfoldable pub add_ingresses :
    DeviceRoute → List DeviceIngress → Map ℤ DeviceRoute → Result GatewayError (Map ℤ DeviceRoute)
add_ingresses r [] desired = ok desired
add_ingresses r (i ∷ is) desired =
    let rest = add_ingresses r is (insert i.port (with_ingress r i) desired) in
    if i.method == "" || i.password == ""
    then err incomplete_ingress
    else if has_port desired i.port
    then err duplicate_port
    else rest

unfoldable pub desired_routes :
    List DeviceRoute → Map ℤ DeviceRoute → Result GatewayError (Map ℤ DeviceRoute)
desired_routes [] desired = ok desired
desired_routes (r ∷ rs) desired =
    add_ingresses r (route_ingresses r) desired >>= λ more. desired_routes rs more

abbrev pub serves : Listener → Option DeviceRoute → Bool
serves l none = false
serves l (some r) =
    l.device_id == r.device_id && l.method == r.ingress_method && l.password == r.ingress_password

-- The loop over the listeners: those that stay, now active, and the routes that still want a listener.
unfoldable pub sweep : Map ℤ Listener → Map ℤ DeviceRoute → Map ℤ Listener × Map ℤ DeviceRoute
sweep [] desired = ([], desired)
sweep ((port, l) ∷ ls) desired =
    let keep = serves l (lookup port desired) in
    let (kept, rest) = sweep ls (if keep then delete port desired else desired) in
    (if keep then (port, record l { active = true }) ∷ kept else kept, rest)

module _ (ss : SsLibrary) where
  unfoldable pub validate_route : DeviceRoute → Result GatewayError (Unit {0})
  validate_route r =
      if ltb_ℤ r.ingress_port (pos 1) || ltb_ℤ (pos 65535) r.ingress_port
      then err invalid_port
      else if r.ingress_password == ""
      then err missing_password
      else elim (validate ss r.ingress_method r.ingress_password) [
        | err e ↦ err (credentials e)
        | ok _ ↦ ok tt
      ]

module _ (ss : SsLibrary) (listen : ℤ → Bool) where
  unfoldable pub start_listener :
      DeviceRoute → Bool → Map ℤ Listener → Map ℤ Listener × Result GatewayError (Unit {0})
  start_listener r active ls = elim (validate ss r.ingress_method r.ingress_password) [
    | err e ↦ (ls, err (credentials e))
    | ok _ ↦
        if not (ss.new_server_config r.ingress_method r.ingress_password)
        then (ls, err (credentials invalid_password))
        else if not (ss.server_init r.ingress_method r.ingress_password)
        then (ls, err (credentials server_failed))
        else if not (listen r.ingress_port)
        then (ls, err listen_failed)
        else (
          insert r.ingress_port
              (record {
                device_id = r.device_id;
                method = r.ingress_method;
                password = r.ingress_password;
                active = active;
              })
              ls,
          ok tt,
        )
  ]

  -- The loop that starts the missing listeners; the first error ends it.
  unfoldable pub start_all :
      Map ℤ DeviceRoute → Map ℤ Listener → Map ℤ Listener × Result GatewayError (Unit {0})
  start_all [] ls = (ls, ok tt)
  start_all ((port, r) ∷ rs) ls =
      let started = start_listener r true ls in
      let rest = start_all rs started.0 in
      elim started.1 [ err e ↦ (started.0, err e) | ok _ ↦ rest ]

  unfoldable pub reconcile_listeners : Gateway → Gateway × Result GatewayError (Unit {0})
  reconcile_listeners g = elim (desired_routes (snapshot g.table) []) [
    | err e ↦ (g, err e)
    | ok desired ↦
        let swept = sweep g.listeners desired in
        let started = start_all swept.1 swept.0 in (record g { listeners = started.0 }, started.1)
  ]

  -- One round of the loop of PrepareDevice.
  unfoldable pub prepare_ingress :
      Device → DeviceIngress → Map ℤ Listener → Map ℤ Listener × Result GatewayError (Unit {0})
  prepare_ingress d i ls =
      let route = with_ingress (record zero_route { device_id = d.id }) i in
      elim (lookup i.port ls) [
        | some current ↦
            if not (current.device_id == d.id)
            then (ls, err port_reserved)
            else (ls, validate_route ss route)
        | none ↦ elim (validate_route ss route) [
          | err e ↦ (ls, err e)
          | ok _ ↦ start_listener route false ls
        ]
      ]

  unfoldable pub prepare_ingresses :
      Device → List DeviceIngress → Map ℤ Listener → Map ℤ Listener × Result GatewayError (Unit {0})
  prepare_ingresses d [] ls = (ls, ok tt)
  prepare_ingresses d (i ∷ is) ls =
      let prepared = prepare_ingress d i ls in
      let rest = prepare_ingresses d is prepared.0 in
      elim prepared.1 [ err e ↦ (prepared.0, err e) | ok _ ↦ rest ]

  unfoldable pub prepare_device : Gateway → Device → Gateway × Result GatewayError (Unit {0})
  prepare_device g d =
      let prepared = prepare_ingresses d (device_ingresses d) g.listeners in
      (record g { listeners = prepared.0 }, prepared.1)

  unfoldable pub prepare_listener : Gateway → DeviceRoute → Gateway × Result GatewayError (Unit {0})
  prepare_listener g r = prepare_device g (record zero_device {
    id = r.device_id;
    ingress_port = r.ingress_port;
    ingress_method = r.ingress_method;
    ingress_password = r.ingress_password;
    ingresses = r.ingresses;
  })

-- CloseListeners
unfoldable pub close_listeners : Gateway → Gateway
close_listeners g = record g { listeners = [] }
