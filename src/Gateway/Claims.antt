-- ===== src/Gateway/Claims.antt =====
-- What the routes of a table ask of the listeners of internal/dataplane/gateway.go: one listener for each
-- ingress of each route, and the map that ReconcileListeners builds of them.
use mathlib.Core.Option
use proxy_mesh.Prelude.{
  ℤ, true, Option, none, some, List, [], ◌∷◌, ◌++◌, ◌==◌, ◌≡◌, refl, string_eq, int_eq, beq_ℤ_iff,
  if◌then◌else◌, ok, arith, ◌∙◌, Result-cases, inl, inr, subst,
}
use proxy_mesh.Prelude.Map.{
  Map, lookup, insert, lookup-insert, Distinct, Distinct-insert, AllEntries, AllEntries-insert,
}
use proxy_mesh.Model.{DeviceIngress, DeviceRoute, route_ingresses}
use proxy_mesh.Gateway.{Listener, add_ingresses, desired_routes, with_ingress}

-- The active listener for a route and for an ingress of it.
abbrev pub listener_of : DeviceRoute → Listener
listener_of r = record {
  device_id = r.device_id;
  method = r.ingress_method;
  password = r.ingress_password;
  active = true;
}

unfoldable pub claims_of : DeviceRoute → List DeviceIngress → Map ℤ Listener
claims_of r [] = []
claims_of r (i ∷ is) = (i.port, listener_of (with_ingress r i)) ∷ claims_of r is

-- All listeners that the routes ask for, by port.
unfoldable pub claims : List DeviceRoute → Map ℤ Listener
claims [] = []
claims (r ∷ rs) = claims_of r (route_ingresses r) ++ claims rs

abbrev pub or_else {ℓ} : {A : Type ℓ} → Option A → Option A → Option A
or_else (some a) b = some a
or_else none b = b

pub lookup-append :
    (p : ℤ) (m n : Map ℤ Listener) → lookup p (m ++ n) ≡ or_else (lookup p m) (lookup p n)
unfolding lookup
lookup-append p [] n = refl
lookup-append p ((q, l) ∷ m) n = ground (arith, lookup-append p m n)

-- The listener that the map of routes asks for at a port.
abbrev pub wanted : ℤ → Map ℤ DeviceRoute → Option Listener
wanted p m = Option.map listener_of (lookup p m)

wanted-insert :
    (p : ℤ) (r : DeviceRoute) (i : DeviceIngress) (m : Map ℤ DeviceRoute)
    → wanted p (insert i.port (with_ingress r i) m)
      ≡ (if i.port == p then some (listener_of (with_ingress r i)) else wanted p m)
wanted-insert p r i m = ground (arith, lookup-insert i.port p (with_ingress r i) m)

pub add_ingresses-wanted :
    (r : DeviceRoute) (is : List DeviceIngress) (m d : Map ℤ DeviceRoute) (p : ℤ)
    → add_ingresses r is m ≡ ok d
    → wanted p d ≡ or_else (wanted p m) (lookup p (claims_of r is))
unfolding add_ingresses claims_of lookup
add_ingresses-wanted r [] m d p h = ground arith
add_ingresses-wanted r (i ∷ is) m d p h =
    let m' = insert i.port (with_ingress r i) m in
    add_ingresses-wanted r is m' d p (ground arith)
    ∙ ground (arith, beq_ℤ_iff i.port p, wanted-insert p r i m)

desired_routes-wanted :
    (rs : List DeviceRoute) (m d : Map ℤ DeviceRoute) (p : ℤ)
    → desired_routes rs m ≡ ok d
    → wanted p d ≡ or_else (wanted p m) (lookup p (claims rs))
unfolding desired_routes claims lookup
desired_routes-wanted [] m d p h = ground arith
desired_routes-wanted (r ∷ rs) m d p h =
    elim (Result-cases (add_ingresses r (route_ingresses r) m)) [
      | inl (m', e) ↦ ground (
        arith,
        add_ingresses-wanted r (route_ingresses r) m m' p e,
        desired_routes-wanted rs m' d p (rw (e, desired_routes) at h),
        lookup-append p (claims_of r (route_ingresses r)) (claims rs),
      )
      | inr (f, e) ↦ absurd (ground arith)
    ]

-- The routes of the map are stored under the port that they have.
abbrev pub AtPort : ℤ → DeviceRoute → Type 0
AtPort p r = r.ingress_port ≡ p

add_ingresses-AtPort :
    (r : DeviceRoute) (is : List DeviceIngress) (m d : Map ℤ DeviceRoute)
    → add_ingresses r is m ≡ ok d
    → AllEntries AtPort m
    → AllEntries AtPort d
unfolding add_ingresses
add_ingresses-AtPort r [] m d h a = subst (AllEntries AtPort) (ground arith) a
add_ingresses-AtPort r (i ∷ is) m d h a =
    add_ingresses-AtPort r is (insert i.port (with_ingress r i) m) d (ground arith)
      (AllEntries-insert AtPort i.port (with_ingress r i) m refl a)

desired_routes-AtPort :
    (rs : List DeviceRoute) (m d : Map ℤ DeviceRoute)
    → desired_routes rs m ≡ ok d
    → AllEntries AtPort m
    → AllEntries AtPort d
unfolding desired_routes
desired_routes-AtPort [] m d h a = subst (AllEntries AtPort) (ground arith) a
desired_routes-AtPort (r ∷ rs) m d h a =
    elim (Result-cases (add_ingresses r (route_ingresses r) m)) [
      | inl (m', e) ↦
          desired_routes-AtPort rs m' d (rw (e, desired_routes) at h)
            (add_ingresses-AtPort r (route_ingresses r) m m' e a)
      | inr (f, e) ↦ absurd (ground arith)
    ]

add_ingresses-Distinct :
    (r : DeviceRoute) (is : List DeviceIngress) (m d : Map ℤ DeviceRoute)
    → add_ingresses r is m ≡ ok d
    → Distinct m
    → Distinct d
unfolding add_ingresses
add_ingresses-Distinct r [] m d h a = subst (λ (x : Map ℤ DeviceRoute). Distinct x) (ground arith) a
add_ingresses-Distinct r (i ∷ is) m d h a =
    add_ingresses-Distinct r is (insert i.port (with_ingress r i) m) d (ground arith)
      (Distinct-insert i.port (with_ingress r i) m a)

desired_routes-Distinct :
    (rs : List DeviceRoute) (m d : Map ℤ DeviceRoute)
    → desired_routes rs m ≡ ok d
    → Distinct m
    → Distinct d
unfolding desired_routes
desired_routes-Distinct [] m d h a = subst (λ (x : Map ℤ DeviceRoute). Distinct x) (ground arith) a
desired_routes-Distinct (r ∷ rs) m d h a =
    elim (Result-cases (add_ingresses r (route_ingresses r) m)) [
      | inl (m', e) ↦
          desired_routes-Distinct rs m' d (rw (e, desired_routes) at h)
            (add_ingresses-Distinct r (route_ingresses r) m m' e a)
      | inr (f, e) ↦ absurd (ground arith)
    ]

-- What the routes of a table want, once the map of them is built: at each port the listener that they
-- claim, no port twice.
pub record Wants (d : Map ℤ DeviceRoute) (c : Map ℤ Listener) : Type 0 where
  pub wanted : (p : ℤ) → Option.map listener_of (lookup p d) ≡ lookup p c
  pub at_port : AllEntries AtPort d
  pub distinct : Distinct d

pub desired_routes-Wants :
    (rs : List DeviceRoute) (d : Map ℤ DeviceRoute)
    → desired_routes rs [] ≡ ok d
    → Wants d (claims rs)
desired_routes-Wants rs d h = record {
  wanted = λ p. unfold lookup in desired_routes-wanted rs [] d p h;
  at_port = desired_routes-AtPort rs [] d h tt;
  distinct = desired_routes-Distinct rs [] d h tt;
}
