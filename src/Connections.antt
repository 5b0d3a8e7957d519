-- ===== src/Connections.antt =====
-- The tracked connections of internal/dataplane/connections.go. A cancel function is the number of the
-- connection that it cancels; what `Interrupt` returns besides is the list of those that it calls.
pub mod Counts
pub mod Untrack
use proxy_mesh.Prelude.{
  ℕ, ◌+◌, ◌-◌, ◌%◌, ◌^◌, String, Bool, true, false, Option, none, some, List, [], ◌∷◌, ◌==◌,
  string_eq, nat_eq, if◌then◌else◌, ℤ, pos, negsuc, ◌+ℤ◌, length, is_empty,
}
use proxy_mesh.Prelude.Map.{Map, lookup, insert, delete, values}

pub record Connections : Type 0 where
  pub next : ℕ
  pub by_device : Map String (Map ℕ ℕ)
  pub total : ℤ

unfoldable pub new_connections : Connections
new_connections = record { next = 0; by_device = []; total = pos 0 }

-- The inner map of a device; a nil map reads as an empty one.
abbrev pub items_of : Option (Map ℕ ℕ) → Map ℕ ℕ
items_of none = []
items_of (some m) = m

-- Track: the new state, and the id that the untrack function keeps. `next` is a uint64.
unfoldable pub track : Connections → String → ℕ → Connections × ℕ
track c device cancel =
    let id = (c.next + 1) % 2 ^ 64 in
    (
      record {
        next = id;
        by_device =
            insert device (insert id cancel (items_of (lookup device c.by_device))) c.by_device;
        total = c.total +ℤ pos 1;
      },
      id,
    )

abbrev pub is_some : Option ℕ → Bool
is_some none = false
is_some (some n) = true

-- The untrack function: what is left of the device's connections is `rest`.
abbrev drop_empty : String → Map ℕ ℕ → Map String (Map ℕ ℕ) → Map String (Map ℕ ℕ)
drop_empty device rest m = if is_empty rest then delete device m else m

unfoldable pub untrack : Connections → String → ℕ → Connections
untrack c device id =
    let items = items_of (lookup device c.by_device) in
    if is_some (lookup id items)
    then (let rest = delete id items in
        record c {
          by_device = drop_empty device rest (insert device rest c.by_device);
          total = c.total +ℤ negsuc 0;
        })
    else record c { by_device = drop_empty device items c.by_device }

-- Interrupt: the cancel functions called, and their number.
unfoldable pub interrupt : Connections → String → List ℕ × ℕ
interrupt c device =
    let items = items_of (lookup device c.by_device) in (values items, length items)
