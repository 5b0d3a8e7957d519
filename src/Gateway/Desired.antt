-- ===== src/Gateway/Desired.antt =====
-- The routes that ReconcileListeners of internal/dataplane/gateway.go wants: when they can be listed without an error.
use proxy_mesh.Prelude.{
  ℤ, none, List, [], ◌∷◌, ◌++◌, ◌≡◌, ◌≢◌, refl, string_eq, int_eq, beq_ℤ_iff, eq_iff, ok, arith,
}
use proxy_mesh.Prelude.Map.{Map, lookup, insert, lookup-insert, Distinct, AllEntries}
use proxy_mesh.Model.{DeviceIngress, DeviceRoute, route_ingresses}
use proxy_mesh.Gateway.{Listener, add_ingresses, desired_routes, with_ingress}
use proxy_mesh.Gateway.Claims.{
  claims_of, claims, or_else, wanted, lookup-append, add_ingresses-wanted,
}

abbrev pub Complete : ℤ → Listener → Type 0
Complete p l = (l.method ≢ "") × (l.password ≢ "")

-- The routes claim no port twice, and every claim has a method and a password.
pub record IsUsable (rs : List DeviceRoute) : Type 0 where
  pub complete : AllEntries Complete (claims rs)
  pub distinct : Distinct (claims rs)

abbrev pub Fresh : Map ℤ DeviceRoute → Map ℤ Listener → Type 0
Fresh m c = AllEntries (λ p l. lookup p m ≡ none) c

pub Fresh-insert :
    (p : ℤ) (r : DeviceRoute) (m : Map ℤ DeviceRoute) (c : Map ℤ Listener)
    → lookup p c ≡ none
    → Fresh m c
    → Fresh (insert p r m) c
unfolding lookup
Fresh-insert p r m [] h f = tt
Fresh-insert p r m ((q, l) ∷ c) h f = (
  ground (arith, f, lookup-insert p q r m, beq_ℤ_iff p q, beq_ℤ_iff q p),
  Fresh-insert p r m c (ground arith) f.1,
)

pub add_ingresses-succeeds :
    (r : DeviceRoute) (is : List DeviceIngress) (m : Map ℤ DeviceRoute)
    → AllEntries Complete (claims_of r is)
    → Distinct (claims_of r is)
    → Fresh m (claims_of r is)
    → (d : Map ℤ DeviceRoute) × (add_ingresses r is m ≡ ok d)
unfolding add_ingresses claims_of
add_ingresses-succeeds r [] m c u f = (m, refl)
add_ingresses-succeeds r (i ∷ is) m c u f =
    let m' = insert i.port (with_ingress r i) m in
    let (d, e) =
      add_ingresses-succeeds r is m' c.1 u.1
        (Fresh-insert i.port (with_ingress r i) m (claims_of r is) u.0 f.1) in
    (d, ground (arith, c.0, f.0, eq_iff i.method "", eq_iff i.password ""))

abbrev pub Apart : Map ℤ Listener → Map ℤ Listener → Type 0
Apart c c' = AllEntries (λ p l. lookup p c ≡ none) c'

pub Apart-nil : (c : Map ℤ Listener) → Apart [] c
unfolding lookup
Apart-nil [] = tt
Apart-nil ((p, l) ∷ c) = (refl, Apart-nil c)

pub Apart-cons :
    (q : ℤ) (k : Listener) (c c' : Map ℤ Listener)
    → lookup q c' ≡ none
    → Apart c c'
    → Apart ((q, k) ∷ c) c'
unfolding lookup
Apart-cons q k c [] h a = tt
Apart-cons q k c ((p, l) ∷ c') h a =
    (ground (arith, a.0, beq_ℤ_iff p q, beq_ℤ_iff q p), Apart-cons q k c c' (ground arith) a.1)

pub Distinct-append :
    (c c' : Map ℤ Listener) → Distinct (c ++ c') → Distinct c × Distinct c' × Apart c c'
Distinct-append [] c' h = (tt, h, Apart-nil c')
Distinct-append ((q, k) ∷ c) c' h =
    let (u, u', a) = Distinct-append c c' h.1 in
    (
      (ground (arith, h.0, lookup-append q c c'), u),
      u',
      Apart-cons q k c c' (ground (arith, h.0, lookup-append q c c')) a,
    )

pub AllEntries-append :
    (P : ℤ → Listener → Type 0) (c c' : Map ℤ Listener)
    → AllEntries P (c ++ c')
    → AllEntries P c × AllEntries P c'
AllEntries-append P [] c' h = (tt, h)
AllEntries-append P ((q, k) ∷ c) c' h = let (a, b) = AllEntries-append P c c' h.1 in ((h.0, a), b)

pub Fresh-after :
    (m d : Map ℤ DeviceRoute) (c c' : Map ℤ Listener)
    → ((p : ℤ) → wanted p d ≡ or_else (wanted p m) (lookup p c))
    → Fresh m c'
    → Apart c c'
    → Fresh d c'
Fresh-after m d c [] w f a = tt
Fresh-after m d c ((p, l) ∷ c') w f a =
    (ground (arith, w p, f.0, a.0), Fresh-after m d c c' w f.1 a.1)

pub desired_routes-succeeds :
    (rs : List DeviceRoute) (m : Map ℤ DeviceRoute)
    → AllEntries Complete (claims rs)
    → Distinct (claims rs)
    → Fresh m (claims rs)
    → (d : Map ℤ DeviceRoute) × (desired_routes rs m ≡ ok d)
unfolding desired_routes claims
desired_routes-succeeds [] m a u f = (m, refl)
desired_routes-succeeds (r ∷ rs) m a u f =
    let is = route_ingresses r in
    let c = claims_of r is in
    let (complete, complete') = AllEntries-append Complete c (claims rs) a in
    let (fresh, fresh') = AllEntries-append (λ p l. lookup p m ≡ none) c (claims rs) f in
    let (distinct, distinct', apart) = Distinct-append c (claims rs) u in
    let (m', e) = add_ingresses-succeeds r is m complete distinct fresh in
    let (d, e') =
      desired_routes-succeeds rs m' complete' distinct'
        (Fresh-after m m' c (claims rs) (λ p. add_ingresses-wanted r is m m' p e) fresh' apart) in
    (d, rw e e')

pub Fresh-nil : (c : Map ℤ Listener) → Fresh [] c
unfolding lookup
Fresh-nil [] = tt
Fresh-nil ((p, l) ∷ c) = (refl, Fresh-nil c)
