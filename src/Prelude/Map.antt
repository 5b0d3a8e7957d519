-- ===== src/Prelude/Map.antt =====
-- Go maps as association lists. The order of the list stands for the order in which `range` visits
-- the entries; an assignment to a key that is there keeps its place.
use mathlib.Core.Path.{◌≡◌, refl}
use mathlib.Core.Option.{Option, none, some}
use mathlib.Core.List.{List, [], ◌∷◌}
use native.Mathlib.Omega.{arith}
use proxy_mesh.Prelude.Tests.{Eq, ◌==◌, if◌then◌else◌}

abbrev pub Map : Type 0 → Type 0 → Type 0
Map K V = List (K × V)

module _ {V : Type 0} where
  abbrev pub values : {K : Type 0} → Map K V → List V
  values [] = []
  values ((k, v) ∷ m) = v ∷ values m

  abbrev pub AllEntries : {K : Type 0} → (K → V → Type 0) → Map K V → Type 0
  AllEntries P [] = Unit
  AllEntries P ((k, v) ∷ m) = P k v × AllEntries P m

module _ {K V : Type 0} ⦃e : Eq K⦄ where
  unfoldable pub lookup : K → Map K V → Option V
  lookup k [] = none
  lookup k ((j, v) ∷ m) = if j == k then some v else lookup k m

  unfoldable pub insert : K → V → Map K V → Map K V
  insert k v [] = (k, v) ∷ []
  insert k v ((j, w) ∷ m) = if j == k then (k, v) ∷ m else (j, w) ∷ insert k v m

  unfoldable pub delete : K → Map K V → Map K V
  delete k [] = []
  delete k ((j, w) ∷ m) = let rest = delete k m in if j == k then rest else (j, w) ∷ rest

  pub lookup-insert :
      (key other : K) (new : V) (m : Map K V)
      → lookup other (insert key new m) ≡ (if key == other then some new else lookup other m)
  unfolding lookup insert
  lookup-insert key other new [] = refl
  lookup-insert key other new ((i, old) ∷ m) = ground (
    arith,
    lookup-insert key other new m,
    e.beq_iff i key,
    e.beq_iff i other,
    e.beq_iff key other,
  )

  pub lookup-delete :
      (k j : K) (m : Map K V) → lookup j (delete k m) ≡ (if k == j then none else lookup j m)
  unfolding lookup delete
  lookup-delete k j [] = ground arith
  lookup-delete k j ((i, w) ∷ m) =
      ground (arith, e.beq_iff k j, e.beq_iff i k, e.beq_iff i j, lookup-delete k j m)

  pub delete-insert : (k : K) (v : V) (m : Map K V) → delete k (insert k v m) ≡ delete k m
  unfolding insert delete
  delete-insert k v [] = ground (arith, e.beq_iff k k)
  delete-insert k v ((j, w) ∷ m) = ground (arith, e.beq_iff k k, delete-insert k v m)

  pub AllEntries-insert :
      (P : K → V → Type 0) (k : K) (v : V) (m : Map K V)
      → P k v
      → AllEntries P m
      → AllEntries P (insert k v m)
  unfolding insert
  AllEntries-insert P k v [] h a = (h, tt)
  AllEntries-insert P k v ((j, w) ∷ m) h a = ground (arith, AllEntries-insert P k v m h a.1)

  pub AllEntries-delete :
      (P : K → V → Type 0) (k : K) (m : Map K V) → AllEntries P m → AllEntries P (delete k m)
  unfolding delete
  AllEntries-delete P k [] a = tt
  AllEntries-delete P k ((j, w) ∷ m) a = ground (arith, AllEntries-delete P k m a.1)

  pub AllEntries-lookup :
      (P : K → V → Type 0) (k : K) (v : V) (m : Map K V)
      → AllEntries P m
      → lookup k m ≡ some v
      → P k v
  unfolding lookup
  AllEntries-lookup P k v [] a h = absurd (cc)
  AllEntries-lookup P k v ((j, w) ∷ m) a h =
      ground (arith, e.beq_iff j k, AllEntries-lookup P k v m a.1)

  -- No key stands twice, which holds of every map that is built by the functions above.
  abbrev pub Distinct : Map K V → Type 0
  Distinct [] = Unit
  Distinct ((k, v) ∷ m) = (lookup k m ≡ none) × Distinct m

  pub Distinct-insert : (k : K) (v : V) (m : Map K V) → Distinct m → Distinct (insert k v m)
  unfolding insert lookup
  Distinct-insert k v [] d = (refl, tt)
  Distinct-insert k v ((j, w) ∷ m) d =
      ground (arith, e.beq_iff j k, e.beq_iff k j, lookup-insert k j v m, Distinct-insert k v m d.1)

  pub Distinct-delete : (k : K) (m : Map K V) → Distinct m → Distinct (delete k m)
  unfolding delete
  Distinct-delete k [] d = tt
  Distinct-delete k ((j, w) ∷ m) d =
      ground (arith, e.beq_iff k j, lookup-delete k j m, Distinct-delete k m d.1)

  -- What holds of every value that a lookup gives holds of every entry, if no key stands twice.
  pub lookup-here : (k : K) (v : V) (m : Map K V) → lookup k ((k, v) ∷ m) ≡ some v
  unfolding lookup
  lookup-here k v m = ground (arith, e.beq_iff k k)

  pub entries_of_lookup :
      (P : K → V → Type 0) (m : Map K V)
      → Distinct m
      → ((k : K) (v : V) → lookup k m ≡ some v → P k v)
      → AllEntries P m
  unfolding lookup
  entries_of_lookup P [] d h = tt
  entries_of_lookup P ((k, v) ∷ m) d h = (
    h k v (lookup-here k v m),
    entries_of_lookup P m d.1 (λ j w found. h j w (ground (arith, e.beq_iff k j, d.0))),
  )

pub AllEntries-map :
    {K V : Type 0} (P Q : K → V → Type 0) (m : Map K V)
    → ((k : K) (v : V) → P k v → Q k v)
    → AllEntries P m
    → AllEntries Q m
AllEntries-map P Q [] f a = tt
AllEntries-map P Q ((k, v) ∷ m) f a = (f k v a.0, AllEntries-map P Q m f a.1)
