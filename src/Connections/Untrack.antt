-- ===== src/Connections/Untrack.antt =====
-- The untrack function of internal/dataplane/connections.go against the connections that are tracked.
use proxy_mesh.Prelude.{
  ℕ, ◌+◌, ◌%◌, ◌^◌, ◌≤◌, String, Bool, true, false, none, some, ◌≡◌, string_eq, nat_eq,
  if◌then◌else◌, ◌+ℤ◌, is_empty, arith, eq_iff, Option-cases, inl, inr, Bool-cases,
}
use proxy_mesh.Prelude.Map.{
  Map, lookup, insert, delete, lookup-insert, lookup-delete, Distinct-insert, Distinct-delete,
  delete-insert, AllEntries-insert, AllEntries-delete, AllEntries-lookup,
}
use proxy_mesh.Connections.{Connections, items_of, is_some, track, untrack}
use proxy_mesh.Connections.Counts.{
  delete_absent, length-delete, size, size-insert, size-delete, AreTracked, IsCounted,
  items_tracked,
}

abbrev pub is_tracked : Connections → String → ℕ → Bool
is_tracked c device id = is_some (lookup id (items_of (lookup device c.by_device)))

-- A connection that is not tracked any more: nothing changes.
untrack_gone :
    (c : Connections) (device : String) (id : ℕ)
    → IsCounted c
    → lookup id (items_of (lookup device c.by_device)) ≡ none
    → untrack c device id ≡ c
unfolding untrack
untrack_gone c device id v h = elim (Option-cases (lookup device c.by_device)) [
  | inl e ↦ ground (arith, e, delete_absent device c.by_device)
  | inr (items, e) ↦
      let t = AllEntries-lookup (λ d m. AreTracked c.next m) device items c.by_device v.tracked e in
      ground (arith, e, h, t.some_left)
]

module _ (c : Connections) (device : String) (id k : ℕ) (v : IsCounted c) where
  abbrev rest_of : Map ℕ ℕ
  rest_of = delete id (items_of (lookup device c.by_device))

  abbrev rest_map : Map String (Map ℕ ℕ)
  rest_map = insert device rest_of c.by_device

  size-rest_map :
      lookup id (items_of (lookup device c.by_device)) ≡ some k
      → size rest_map + 1 ≡ size c.by_device
  size-rest_map h =
      let items = items_of (lookup device c.by_device) in
      omega (
        arith,
        size-insert device rest_of c.by_device,
        length-delete id k items (items_tracked c device v).0 h,
      )

  -- The last connection of the device.
  untrack_last :
      lookup id (items_of (lookup device c.by_device)) ≡ some k
      → is_empty rest_of ≡ true
      → IsCounted (untrack c device id)
        × (size (untrack c device id).by_device + 1 ≡ size c.by_device)
  unfolding untrack ◌+ℤ◌
  untrack_last h last =
      let smaller : size (delete device rest_map) + 1 ≡ size c.by_device = ground (
        arith,
        size-rest_map h,
        last,
        size-delete device rest_map (Distinct-insert device rest_of c.by_device v.distinct),
        lookup-insert device device rest_of c.by_device,
        eq_iff device device,
      ) in
      rw (h, last)
        (
          record {
            counted = ground (arith, v.counted, smaller);
            distinct =
                Distinct-delete device rest_map
                  (Distinct-insert device rest_of c.by_device v.distinct);
            tracked =
                rw (delete-insert device rest_of c.by_device)
                  (AllEntries-delete (λ d m. AreTracked c.next m) device c.by_device v.tracked);
          },
          smaller,
        )

  -- Other connections of the device are left.
  untrack_other :
      lookup id (items_of (lookup device c.by_device)) ≡ some k
      → is_empty rest_of ≡ false
      → IsCounted (untrack c device id)
        × (size (untrack c device id).by_device + 1 ≡ size c.by_device)
  unfolding untrack ◌+ℤ◌
  untrack_other h left =
      let (distinct, bounded) = items_tracked c device v in
      let items = items_of (lookup device c.by_device) in
      let entry : AreTracked c.next rest_of = record {
        distinct = Distinct-delete id items distinct;
        bounded = AllEntries-delete (λ j l. j ≤ c.next) id items bounded;
        some_left = left;
      } in
      rw (h, left)
        (
          record {
            counted = ground (arith, v.counted, size-rest_map h);
            distinct = Distinct-insert device rest_of c.by_device v.distinct;
            tracked =
                AllEntries-insert (λ d m. AreTracked c.next m) device rest_of c.by_device entry
                  v.tracked;
          },
          size-rest_map h,
        )

untrack_absent :
    (c : Connections) (device : String) (id : ℕ)
    → lookup id (items_of (lookup device (untrack c device id).by_device)) ≡ none
unfolding untrack lookup
untrack_absent c device id =
    let items = items_of (lookup device c.by_device) in
    let rest = delete id items in
    elim (Option-cases (lookup id items)) [
      | inl e ↦ ground (arith, e, lookup-delete device device c.by_device, eq_iff device device)
      | inr (k, e) ↦ ground (
        arith,
        e,
        eq_iff device device,
        lookup-delete id id items,
        lookup-insert device device rest c.by_device,
        lookup-delete device device (insert device rest c.by_device),
      )
    ]

untrack-IsCounted-tracked :
    (c : Connections) (device : String) (id : ℕ)
    → IsCounted c
    → IsCounted (untrack c device id)
      × (size (untrack c device id).by_device + (if is_tracked c device id then 1 else 0)
          ≡ size c.by_device)
untrack-IsCounted-tracked c device id v =
    let items = items_of (lookup device c.by_device) in
    elim (Option-cases (lookup id items)) [
      | inl e ↦ rw (untrack_gone c device id v e, e) (v, omega arith)
      | inr (k, e) ↦ elim (Bool-cases (is_empty (delete id items))) [
        | inl last ↦ rw e (untrack_last c device id k v e last)
        | inr left ↦ rw e (untrack_other c device id k v e left)
      ]
    ]

-- The untrack function of a connection keeps the count right: it takes off one if the connection is still
-- tracked, and nothing if not. A second call of it changes nothing.
pub untrack-IsCounted :
    (c : Connections) (device : String) (id : ℕ)
    → IsCounted c
    → IsCounted (untrack c device id)
      × (size (untrack c device id).by_device + (if is_tracked c device id then 1 else 0)
          ≡ size c.by_device)
      × (untrack (untrack c device id) device id ≡ untrack c device id)
untrack-IsCounted c device id v =
    let (counted, fewer) = untrack-IsCounted-tracked c device id v in
    (
      counted,
      fewer,
      untrack_gone (untrack c device id) device id counted (untrack_absent c device id),
    )

pub is_tracked-track :
    (c : Connections) (device : String) (k : ℕ)
    → is_tracked (track c device k).0 device (track c device k).1 ≡ true
unfolding track
is_tracked-track c device k =
    let id = (c.next + 1) % 2 ^ 64 in
    let items = items_of (lookup device c.by_device) in
    ground (
      arith,
      lookup-insert device device (insert id k items) c.by_device,
      lookup-insert id id k items,
      eq_iff device device,
    )
