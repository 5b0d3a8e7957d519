-- ===== src/Connections/Counts.antt =====
-- The counter of internal/dataplane/connections.go against the connections that are tracked.
use proxy_mesh.Prelude.{
  ℕ, ◌+◌, ◌%◌, ◌^◌, ◌<◌, ◌≤◌, String, false, none, some, [], ◌∷◌, Eq, ◌≡◌, refl, string_eq, nat_eq,
  pos, ◌+ℤ◌, length, is_empty, arith, eq_iff, Option-cases, inl, inr,
}
use proxy_mesh.Prelude.Map.{
  Map, lookup, insert, delete, Distinct, Distinct-insert, AllEntries, AllEntries-insert,
  AllEntries-lookup, AllEntries-map,
}
use proxy_mesh.Connections.{Connections, new_connections, items_of, track}

module _ {K V : Type 0} ⦃e : Eq K⦄ where
  pub length-insert :
      (k : K) (v : V) (m : Map K V) → lookup k m ≡ none → length (insert k v m) ≡ length m + 1
  unfolding lookup insert
  length-insert k v [] h = omega arith
  length-insert k v ((j, w) ∷ m) h = ground (arith, length-insert k v m)

  pub delete_absent : (k : K) (m : Map K V) → lookup k m ≡ none → delete k m ≡ m
  unfolding lookup delete
  delete_absent k [] h = refl
  delete_absent k ((j, w) ∷ m) h = ground (arith, delete_absent k m)

  pub length-delete :
      (k : K) (v : V) (m : Map K V)
      → Distinct m
      → lookup k m ≡ some v
      → length (delete k m) + 1 ≡ length m
  unfolding lookup delete
  length-delete k v [] d h = absurd (cc)
  length-delete k v ((j, w) ∷ m) d h =
      ground (arith, d.0, e.beq_iff j k, delete_absent k m, length-delete k v m d.1)

-- The number of tracked connections.
unfoldable pub size : Map String (Map ℕ ℕ) → ℕ
size [] = 0
size ((device, items) ∷ m) = length items + size m

pub size-insert :
    (k : String) (items : Map ℕ ℕ) (m : Map String (Map ℕ ℕ))
    → size (insert k items m) + length (items_of (lookup k m)) ≡ size m + length items
unfolding size insert lookup
size-insert k items [] = omega arith
size-insert k items ((j, old) ∷ m) = ground (arith, size-insert k items m)

pub size-delete :
    (k : String) (m : Map String (Map ℕ ℕ))
    → Distinct m
    → size (delete k m) + length (items_of (lookup k m)) ≡ size m
unfolding size delete lookup
size-delete k [] d = omega arith
size-delete k ((j, old) ∷ m) d =
    ground (arith, d.0, eq_iff j k, delete_absent k m, size-delete k m d.1)

-- A device's connections: their ids are distinct and not greater than the last one given, and there is
-- one at least.
pub record AreTracked (next : ℕ) (items : Map ℕ ℕ) : Type 0 where
  pub distinct : Distinct items
  pub bounded : AllEntries (λ id c. id ≤ next) items
  pub some_left : is_empty items ≡ false

pub record IsCounted (c : Connections) : Type 0 where
  pub counted : c.total ≡ pos (size c.by_device)
  pub distinct : Distinct c.by_device
  pub tracked : AllEntries (λ device items. AreTracked c.next items) c.by_device

pub new_connections-IsCounted : IsCounted new_connections
unfolding new_connections size
new_connections-IsCounted = record { counted = refl; distinct = tt; tracked = tt }

pub lookup_above :
    (n id : ℕ) (items : Map ℕ ℕ) → AllEntries (λ j c. j ≤ n) items → n < id → lookup id items ≡ none
unfolding lookup
lookup_above n id [] a h = refl
lookup_above n id ((j, c) ∷ items) a h = ground (arith, a.0, lookup_above n id items a.1 h)

-- What the invariant says of the connections of one device, which may be none.
pub items_tracked :
    (c : Connections) (device : String)
    → IsCounted c
    → Distinct (items_of (lookup device c.by_device))
      × AllEntries (λ id k. id ≤ c.next) (items_of (lookup device c.by_device))
items_tracked c device v = elim (Option-cases (lookup device c.by_device)) [
  | inl e ↦ rw e (tt, tt)
  | inr (items, e) ↦
      let t = AllEntries-lookup (λ d m. AreTracked c.next m) device items c.by_device v.tracked e in
      rw e (t.distinct, t.bounded)
]

pub insert_nonempty : (id k : ℕ) (items : Map ℕ ℕ) → is_empty (insert id k items) ≡ false
unfolding insert
insert_nonempty id k [] = refl
insert_nonempty id k ((j, l) ∷ items) = ground arith

pub AreTracked-mono : (n m : ℕ) (items : Map ℕ ℕ) → n ≤ m → AreTracked n items → AreTracked m items
AreTracked-mono n m items h t = record {
  distinct = t.distinct;
  bounded =
      AllEntries-map (λ id k. id ≤ n) (λ id k. id ≤ m) items (λ id k p. omega arith) t.bounded;
  some_left = t.some_left;
}

-- A connection that is tracked gets an id that the device has not in use, and is counted; the ids do not
-- wrap before 2^64 connections.
pub track-IsCounted :
    (c : Connections) (device : String) (k : ℕ)
    → c.next + 1 < 2 ^ 64
    → IsCounted c
    → IsCounted (track c device k).0
      × (size (track c device k).0.by_device ≡ size c.by_device + 1)
      × (lookup (track c device k).1 (items_of (lookup device c.by_device)) ≡ none)
unfolding track ◌+ℤ◌
track-IsCounted c device k h v =
    let id = (c.next + 1) % 2 ^ 64 in
    let same : id ≡ c.next + 1 = omega arith in
    let items = items_of (lookup device c.by_device) in
    let (distinct, bounded) = items_tracked c device v in
    let fresh : lookup id items ≡ none = lookup_above c.next id items bounded (omega arith) in
    let grown : size (insert device (insert id k items) c.by_device) ≡ size c.by_device + 1 =
      omega (
        arith,
        size-insert device (insert id k items) c.by_device,
        length-insert id k items fresh,
      ) in
    let entry : AreTracked id (insert id k items) = record {
      distinct = Distinct-insert id k items distinct;
      bounded =
          AllEntries-insert (λ j l. j ≤ id) id k items (omega arith)
            (AllEntries-map (λ j l. j ≤ c.next) (λ j l. j ≤ id) items (λ j l p. omega arith)
              bounded);
      some_left = insert_nonempty id k items;
    } in
    (
      record {
        counted = ground (arith, v.counted, grown);
        distinct = Distinct-insert device (insert id k items) c.by_device v.distinct;
        tracked =
            AllEntries-insert (λ d m. AreTracked id m) device (insert id k items) c.by_device entry
              (AllEntries-map (λ d m. AreTracked c.next m) (λ d m. AreTracked id m) c.by_device
                (λ d m t. AreTracked-mono c.next id m (omega arith) t) v.tracked);
      },
      grown,
      fresh,
    )

-- Whether the device has a connection with the id.
