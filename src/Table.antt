-- ===== src/Table.antt =====
-- The route table of a gateway: internal/dataplane/table.go. Each method runs under the table's lock,
-- so it is one function from the table to the table.
pub mod Versions
pub mod Phases
pub mod Usernames
pub mod Reads
pub mod Abstract
use proxy_mesh.Prelude.{
  ℤ, pos, String, Bool, true, false, Option, none, some, List, [], ◌∷◌, ◌==◌, string_eq,
  if◌then◌else◌, ltb_ℤ, leb_ℤ, Result, ok, err, not, int_eq,
}
use proxy_mesh.Prelude.Map.{Map, lookup, insert, delete, values}
use proxy_mesh.Model.{Device, DeviceRoute, route_active}

pub record Table : Type 0 where
  pub active : Map String DeviceRoute
  pub by_username : Map String String
  pub pending : Map String DeviceRoute
  pub loaded : Bool

pub data TableError : Type 0 where
  not_newer not_prepared : TableError

unfoldable pub new_table : Table
new_table = record { active = []; by_username = []; pending = []; loaded = false }

-- The loop of Load over the routes that are left.
unfoldable pub load_active : List DeviceRoute → Map String DeviceRoute → Map String DeviceRoute
load_active [] m = m
load_active (r ∷ rs) m = load_active rs (insert r.device_id r m)

unfoldable pub load_usernames : List DeviceRoute → Map String String → Map String String
load_usernames [] m = m
load_usernames (r ∷ rs) m = load_usernames rs (insert r.device_username r.device_id m)

unfoldable pub load : List DeviceRoute → Table → Table
load routes t = record t {
  active = load_active routes [];
  by_username = load_usernames routes [];
  pending = [];
  loaded = true;
}

abbrev is_stale : Option DeviceRoute → DeviceRoute → Bool
is_stale none r = false
is_stale (some current) r = leb_ℤ r.version current.version

unfoldable pub prepare : Table → DeviceRoute → Table × Result TableError (Unit {0})
prepare t r =
    if is_stale (lookup r.device_id t.active) r
    then (t, err not_newer)
    else (record t { pending = insert r.device_id r t.pending }, ok tt)

-- The map writes of Activate, for the pending route that it found under the key.
abbrev put_active : Table → String → DeviceRoute → Table
put_active t key route = record t {
  active = insert key (record route { status = route_active }) t.active;
  by_username = insert route.device_username route.device_id t.by_username;
  pending = delete key t.pending;
}

unfoldable pub activate : Table → DeviceRoute → Table × Result TableError (Unit {0})
activate t r = elim (lookup r.device_id t.pending) [
  | none ↦ (t, err not_prepared)
  | some p ↦
      if not (p.version == r.version)
      then (t, err not_prepared)
      else (put_active t r.device_id p, ok tt)
]

-- The route with the credentials of the device, as UpdateDevice writes them.
abbrev pub with_device : Device → DeviceRoute → DeviceRoute
with_device d r = record r {
  device_username = d.username;
  password_hash = d.password_hash;
  ingress_port = d.ingress_port;
  ingress_method = d.ingress_method;
  ingress_password = d.ingress_password;
  ingresses = d.ingresses;
}

unfoldable pub update_device : Table → Device → Table
update_device t d = elim (lookup d.id t.active) [
  | none ↦ t
  | some r ↦ record t {
    active = insert d.id (with_device d r) t.active;
    by_username = insert d.username d.id (delete r.device_username t.by_username);
  }
]

unfoldable pub by_device : Table → String → Option DeviceRoute
by_device t id = lookup id t.active

unfoldable pub by_username : Table → String → Option DeviceRoute
by_username t username = elim (lookup username t.by_username) [
  | none ↦ none
  | some id ↦ lookup id t.active
]

unfoldable pub snapshot : Table → List DeviceRoute
snapshot t = values t.active

unfoldable pub is_loaded : Table → Bool
is_loaded t = t.loaded

-- The loop of MaxVersion, with the greatest version so far.
unfoldable pub max_from : ℤ → List DeviceRoute → ℤ
max_from m [] = m
max_from m (r ∷ rs) = max_from (if ltb_ℤ m r.version then r.version else m) rs

unfoldable pub max_version : Table → ℤ
unfolding max_from
max_version t = max_from (pos 0) (values t.active)

-- A call that changes the table between two calls of Load; an error of a call leaves the table to the next one.
pub data Call : Type 0 where
  prepares : DeviceRoute → Call
  activates : DeviceRoute → Call
  updates : Device → Call

unfoldable pub step : Table → Call → Table
unfolding prepare activate update_device
step t (prepares r) = (prepare t r).0
step t (activates r) = (activate t r).0
step t (updates d) = update_device t d

unfoldable pub run : Table → List Call → Table
unfolding step
run t [] = t
run t (c ∷ cs) = run (step t c) cs
