-- ===== src/Store.antt =====
-- The store in memory: internal/store/memory.go, with the errors of internal/store/store.go. Each method
-- runs under the store's lock. A slice is a value, but for one thing: the array that a stored route shares
-- with its device, which UpdateDeviceCredential writes in place. `shares` says that a route does.
pub mod Counted
pub mod Ports
pub mod Primed
pub mod Primary
pub mod Reachable
pub mod Routes
use proxy_mesh.Prelude.{
  ℕ, ℤ, pos, String, Bool, true, false, not, ◌&&◌, ◌||◌, Option, none, some, List, [], ◌∷◌, ◌++◌,
  ◌==◌, string_eq, int_eq, if◌then◌else◌, Result, ok, err, any, is_empty, leb, length,
}
use proxy_mesh.Prelude.Map.{Map, lookup, insert, delete, values}
use proxy_mesh.Model.{
  Device, DeviceIngress, DeviceRoute, Gateway, Time, device_ingresses, route_active,
}
use proxy_mesh.Provider.{Definition}

-- `panicked` is an index out of range.
pub data StoreError : Type 0 where
  not_found conflict panicked : StoreError

-- A route in the store, and whether its slice of ingresses is the array that its device holds.
pub record Held : Type 0 where
  pub route : DeviceRoute
  pub shares : Bool

pub record Memory (F : Type 0) : Type 0 where
  pub devices : Map String Device
  pub routes : Map String Held
  pub pending : Map String Held
  pub gateways : Map String Gateway
  pub providers : Map String (Definition F)

abbrev pub new_memory : {F : Type 0} → Memory F
new_memory = record { devices = []; routes = []; pending = []; gateways = []; providers = [] }

-- Whether an ingress of the device, or of any device, has the port.
abbrev pub has_port : ℤ → Device → Bool
has_port port d = any (λ i. i.port == port) (device_ingresses d)

abbrev pub port_taken : ℤ → Map String Device → Bool
port_taken port devices = any (has_port port) (values devices)

-- `if r, ok := m[id]; ok { …; m[id] = r }`
unfoldable pub adjust : String → (Held → Held) → Map String Held → Map String Held
adjust id change m = elim (lookup id m) [ none ↦ m | some h ↦ insert id (change h) m ]

-- The loop of UpdateDeviceCredential over the device's ingresses.
unfoldable pub write_primary : String → List DeviceIngress → List DeviceIngress
write_primary password [] = []
write_primary password (i ∷ is) =
    (if i.primary then record i { password = password } else i) ∷ write_primary password is

-- The loop of DeleteDeviceIngress: what is left, and the `primary` flag of the last ingress removed.
unfoldable pub without_port : ℤ → List DeviceIngress → List DeviceIngress
without_port port [] = []
without_port port (i ∷ is) =
    if i.port == port then without_port port is else i ∷ without_port port is

unfoldable pub removed_flag : ℤ → List DeviceIngress → Option Bool
removed_flag port [] = none
removed_flag port (i ∷ is) = elim (removed_flag port is) [
  | some later ↦ some later
  | none ↦ if i.port == port then some i.primary else none
]

-- The device whose ingresses are those that are left, the first of them made primary if the primary one was
-- removed.
unfoldable pub promote : Bool → Device → List DeviceIngress → Result StoreError Device
promote false d out = ok (record d { ingresses = out })
promote true d [] = err panicked
promote true d (i ∷ is) = ok (record d {
  ingresses = record i { primary = true } ∷ is;
  ingress_port = i.port;
  ingress_method = i.method;
  ingress_password = i.password;
})

abbrev is_some : {A : Type 0} → Option A → Bool
is_some none = false
is_some (some a) = true

abbrev pub with_ingresses : Device → Device
with_ingresses d =
    if is_empty d.ingresses && not (d.ingress_port == pos 0)
    then record d { ingresses = device_ingresses d }
    else d

abbrev pub rotated_device : String → Time → Device → Device
rotated_device password now d = record d {
  ingress_password = password;
  ingresses = write_primary password d.ingresses;
  updated_at = now;
}

-- The write to the device's array shows in a route that shares it.
abbrev pub rotated_route : String → Held → Held
rotated_route password h = record h {
  route = record h.route {
    ingress_password = password;
    ingresses = if h.shares then write_primary password h.route.ingresses else h.route.ingresses;
  };
}

abbrev pub listing : List DeviceIngress → Held → Held
listing ingresses h = record { route = record h.route { ingresses = ingresses }; shares = false }

abbrev pub extended_device : DeviceIngress → Time → Device → Device
extended_device ingress now d = record d {
  ingresses = device_ingresses d ++ record ingress { primary = false } ∷ [];
  updated_at = now;
}

abbrev pub mirroring : Device → Held → Held
mirroring d h = record {
  route = record h.route {
    ingress_port = d.ingress_port;
    ingress_method = d.ingress_method;
    ingress_password = d.ingress_password;
    ingresses = d.ingresses;
  };
  shares = false;
}

-- A missing route reads as the zero value.
abbrev pub version_of : Option Held → ℤ
version_of none = pos 0
version_of (some h) = h.route.version

abbrev routes_of : List Held → List DeviceRoute
routes_of [] = []
routes_of (h ∷ hs) = h.route ∷ routes_of hs

module _ {F : Type 0} where
  unfoldable pub upsert_provider : Memory F → Definition F → Memory F
  upsert_provider m d = record m { providers = insert d.id d m.providers }

  unfoldable pub get_provider : Memory F → String → Result StoreError (Definition F)
  get_provider m id = elim (lookup id m.providers) [ none ↦ err not_found | some d ↦ ok d ]

  unfoldable pub list_providers : Memory F → List (Definition F)
  list_providers m = values m.providers

  unfoldable pub create_device : Memory F → Device → Memory F × Result StoreError (Unit {0})
  create_device m d =
      if is_some (lookup d.id m.devices)
      then (m, err conflict)
      else if port_taken d.ingress_port m.devices
      then (m, err conflict)
      else (record m { devices = insert d.id (with_ingresses d) m.devices }, ok tt)

  unfoldable pub get_device : Memory F → String → Result StoreError Device
  get_device m id = elim (lookup id m.devices) [ none ↦ err not_found | some d ↦ ok d ]

  unfoldable pub update_device_credential :
      Memory F → String → String → Time → Memory F × Result StoreError Device
  update_device_credential m id password now = elim (lookup id m.devices) [
    | none ↦ (m, err not_found)
    | some d ↦
        let d' = rotated_device password now d in
        (
          record m {
            devices = insert id d' m.devices;
            routes = adjust id (rotated_route password) m.routes;
            pending = adjust id (rotated_route password) m.pending;
          },
          ok d',
        )
  ]

  unfoldable pub add_device_ingress :
      Memory F → String → DeviceIngress → Time → Memory F × Result StoreError Device
  add_device_ingress m id ingress now = elim (lookup id m.devices) [
    | none ↦ (m, err not_found)
    | some d ↦
        let d' = extended_device ingress now d in
        if port_taken ingress.port m.devices then (m, err conflict) else (
          record m {
            devices = insert id d' m.devices;
            routes = adjust id (listing d'.ingresses) m.routes;
            pending = adjust id (listing d'.ingresses) m.pending;
          },
          ok d',
        )
  ]

  -- The end of DeleteDeviceIngress, with the device that `promote` gives.
  abbrev pub store_promoted :
      Memory F → String → Time → Result StoreError Device → Memory F × Result StoreError Device
  store_promoted m id now (err e) = (m, err e)
  store_promoted m id now (ok d) =
      let d' = record d { updated_at = now } in
      (
        record m {
          devices = insert id d' m.devices;
          routes = adjust id (mirroring d') m.routes;
          pending = adjust id (mirroring d') m.pending;
        },
        ok d',
      )

  unfoldable pub delete_device_ingress :
      Memory F → String → ℤ → Time → Memory F × Result StoreError Device
  delete_device_ingress m id port now = elim (lookup id m.devices) [
    | none ↦ (m, err not_found)
    | some d ↦
        let ingresses = device_ingresses d in
        if leb (length ingresses) 1 then (m, err conflict) else elim (removed_flag port ingresses) [
          | none ↦ (m, err not_found)
          | some flag ↦ store_promoted m id now (promote flag d (without_port port ingresses))
        ]
  ]

  -- `shares`: the slice of ingresses in the route is the one that the device holds.
  unfoldable pub stage_route :
      Memory F → DeviceRoute → Bool → ℤ → Memory F × Result StoreError (Unit {0})
  stage_route m r shares expected =
      if not (version_of (lookup r.device_id m.routes) == expected) then (m, err conflict) else (
        record m { pending = insert r.device_id (record { route = r; shares = shares }) m.pending },
        ok tt,
      )

  unfoldable pub activate_route : Memory F → String → ℤ → Memory F × Result StoreError (Unit {0})
  activate_route m id version = elim (lookup id m.pending) [
    | none ↦ (m, err conflict)
    | some h ↦ if not (h.route.version == version) then (m, err conflict) else (
      record m {
        routes = insert id (record h { route = record h.route { status = route_active } }) m.routes;
        pending = delete id m.pending;
      },
      ok tt,
    )
  ]

  unfoldable pub get_route : Memory F → String → Result StoreError DeviceRoute
  get_route m id = elim (lookup id m.routes) [ none ↦ err not_found | some h ↦ ok h.route ]

  unfoldable pub list_active_routes : Memory F → List DeviceRoute
  list_active_routes m = routes_of (values m.routes)

  unfoldable pub upsert_gateway : Memory F → Gateway → Memory F
  upsert_gateway m g = record m { gateways = insert g.id g m.gateways }

  unfoldable pub list_gateways : Memory F → List Gateway
  list_gateways m = values m.gateways
