-- ===== src/Gateway/Prepare.antt =====
-- PrepareDevice and PrepareListener of internal/dataplane/gateway.go.
use proxy_mesh.Prelude.{
  ℤ, String, Bool, false, Option, none, some, List, [], ◌∷◌, ◌≡◌, refl, string_eq, int_eq,
  beq_ℤ_iff, eq_iff, ok, arith, Result-cases, Option-cases, inl, inr, subst, All,
}
use proxy_mesh.Prelude.Map.{Map, lookup}
use proxy_mesh.Model.{Device, DeviceIngress, device_ingresses, zero_route}
use proxy_mesh.SsConfig.{SsLibrary}
use proxy_mesh.Gateway.{
  Gateway, Listener, prepare_ingress, prepare_ingresses, prepare_device, with_ingress,
}
use proxy_mesh.Gateway.Reconcile.{start_listener-Started}

-- A listener stays as it is; where there is none, at most an inactive one of the device is added.
abbrev pub Reserved : String → Option Listener → Option Listener → Type 0
Reserved id (some l) after = after ≡ some l
Reserved id none none = Unit
Reserved id none (some l) = (l.device_id ≡ id) × (l.active ≡ false)

Reserved-refl : (id : String) (a : Option Listener) → Reserved id a a
Reserved-refl id none = tt
Reserved-refl id (some l) = refl

Reserved-trans :
    (id : String) (a b c : Option Listener) → Reserved id a b → Reserved id b c → Reserved id a c
Reserved-trans id (some a) b c h k = ground arith
Reserved-trans id none none c h k = k
Reserved-trans id none (some b) c h k = ground arith

abbrev pub HeldBy : String → Option Listener → Type 0
HeldBy id none = ⊥
HeldBy id (some l) = l.device_id ≡ id

module _ (ss : SsLibrary) (listen : ℤ → Bool) (d : Device) where
  prepare_ingress-Reserved :
      (i : DeviceIngress) (ls : Map ℤ Listener) (p : ℤ)
      → Reserved d.id (lookup p ls) (lookup p (prepare_ingress ss listen d i ls).0)
  unfolding prepare_ingress
  prepare_ingress-Reserved i ls p = ground (
    arith,
    beq_ℤ_iff i.port p,
    start_listener-Started ss listen (with_ingress (record zero_route { device_id = d.id }) i) false
        ls p,
  )

  prepare_ingress-HeldBy :
      (i : DeviceIngress) (ls : Map ℤ Listener)
      → (prepare_ingress ss listen d i ls).1 ≡ ok tt
      → HeldBy d.id (lookup i.port (prepare_ingress ss listen d i ls).0)
  unfolding prepare_ingress
  prepare_ingress-HeldBy i ls h =
      let route = with_ingress (record zero_route { device_id = d.id }) i in
      let started = start_listener-Started ss listen route false ls i.port in
      elim (Option-cases (lookup i.port ls)) [
        | inl e ↦ ground (arith, e, beq_ℤ_iff i.port i.port, started)
        | inr (l, e) ↦ ground (arith, e, eq_iff l.device_id d.id)
      ]

  HeldBy-of_Reserved : (a b : Option Listener) → HeldBy d.id a → Reserved d.id a b → HeldBy d.id b
  HeldBy-of_Reserved none b h k = absurd h
  HeldBy-of_Reserved (some l) b h k = rw k h

  prepare_ingresses-Reserved :
      (is : List DeviceIngress) (ls : Map ℤ Listener) (p : ℤ)
      → Reserved d.id (lookup p ls) (lookup p (prepare_ingresses ss listen d is ls).0)
  unfolding prepare_ingresses
  prepare_ingresses-Reserved [] ls p = Reserved-refl d.id (lookup p ls)
  prepare_ingresses-Reserved (i ∷ is) ls p =
      let ls' = (prepare_ingress ss listen d i ls).0 in
      let first = prepare_ingress-Reserved i ls p in
      let rest =
        Reserved-trans d.id (lookup p ls) (lookup p ls')
          (lookup p (prepare_ingresses ss listen d is ls').0) first
          (prepare_ingresses-Reserved is ls' p) in
      ground (arith, first, rest)

  prepare_ingresses-HeldBy :
      (is : List DeviceIngress) (ls : Map ℤ Listener)
      → (prepare_ingresses ss listen d is ls).1 ≡ ok tt
      → All (λ i. HeldBy d.id (lookup i.port (prepare_ingresses ss listen d is ls).0)) is
  unfolding prepare_ingresses
  prepare_ingresses-HeldBy [] ls h = tt
  prepare_ingresses-HeldBy (i ∷ is) ls h =
      elim (Result-cases (prepare_ingress ss listen d i ls).1) [
        | inl (_, e) ↦
            let ls' = (prepare_ingress ss listen d i ls).0 in
            let after = (prepare_ingresses ss listen d is ls').0 in
            let same : after ≡ (prepare_ingresses ss listen d (i ∷ is) ls).0 =
              rw (e, prepare_ingresses) in
            subst (λ m. All (λ j. HeldBy d.id (lookup j.port m)) (i ∷ is)) same
              (
                HeldBy-of_Reserved (lookup i.port ls') (lookup i.port after)
                    (prepare_ingress-HeldBy i ls e) (prepare_ingresses-Reserved is ls' i.port),
                prepare_ingresses-HeldBy is ls' (rw (e, prepare_ingresses) at h),
              )
        | inr (f, e) ↦ absurd (ground arith)
      ]

  -- PrepareDevice changes and closes no listener, also if it fails: at a port with a listener it stays, and
  -- at any other port there is afterwards none or an inactive one of the device.
  pub prepare_device-Reserved :
      (g : Gateway) (p : ℤ)
      → Reserved d.id (lookup p g.listeners) (lookup p (prepare_device ss listen g d).0.listeners)
  unfolding prepare_device
  prepare_device-Reserved g p = prepare_ingresses-Reserved (device_ingresses d) g.listeners p

  -- If PrepareDevice returns no error, then every effective ingress of the device has its port held by a
  -- listener of the device.
  pub prepare_device-HeldBy :
      (g : Gateway)
      → (prepare_device ss listen g d).1 ≡ ok tt
      → All
          (λ i. HeldBy d.id (lookup i.port (prepare_device ss listen g d).0.listeners))
          (device_ingresses d)
  unfolding prepare_device
  prepare_device-HeldBy g h = prepare_ingresses-HeldBy (device_ingresses d) g.listeners h
