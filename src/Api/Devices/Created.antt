-- ===== src/Api/Devices/Created.antt =====
-- What createDevice of internal/control/api.go stores, and what its responses say.
use proxy_mesh.Prelude.{
  ℕ, zero, suc, ◌+◌, ◌≤◌, ℤ, pos, ◌+ℤ◌, ◌≤ℤ◌, String, true, false, none, some, ◌==◌, string_eq,
  int_eq, nat_eq, Result, ok, err, ◌≡◌, ◌≢◌, ◌⊎◌, inl, inr, refl, subst, ap, sym, ◌∙◌, Result-cases,
  Bool-cases, Option-cases, beq_ℤ_iff, arith,
}
use proxy_mesh.Model.{Device, Time}
use proxy_mesh.SsConfig.{SsLibrary, IsValid, validate-IsValid, validate, legacy_aes_256_gcm}
use proxy_mesh.Prelude.Map.{lookup, insert}
use proxy_mesh.Store.{Memory, StoreError, port_taken, with_ingresses}
use proxy_mesh.Store
use proxy_mesh.Api.{Api, store_status}
use proxy_mesh.Api.Devices.{
  CreateDevice, Draws, valid_device_id, on_port, create_on_free_port, create_on_port, Response,
  created_response, or_default, password_of, new_device, create_validated, create_device,
  IsIngressPort, is_bad_port, create_on_port_given,
}

good_port : (p : ℤ) → is_bad_port p ≡ false → (p ≡ pos 0) ⊎ IsIngressPort p
good_port p h = ground (arith, beq_ℤ_iff p (pos 0))

drawn_port :
    (start end : ℤ) (n : ℕ)
    → pos 1024 ≤ℤ start
    → end ≤ℤ pos 65535
    → start +ℤ pos n ≤ℤ end
    → IsIngressPort (start +ℤ pos n)
unfolding ◌+ℤ◌
drawn_port start end n low high inside = ground (arith, low, high, inside)

bad_request : ¬ (◌≡◌ {A = ℕ} 400 201)
bad_request h = ground arith

other_status : ¬ (◌≡◌ {A = ℕ} 409 201)
other_status h = ground arith

not_stored : ¬ (◌≡◌ {A = Result StoreError (Unit {0})} (err Store.conflict) (ok tt))
not_stored h = cc

module _ {F : Type 0} where
  create_device-split :
      (m : Memory F) (d : Device)
      → ((Store.create_device m d).1 ≡ ok tt) ⊎ (Store.create_device m d ≡ (m, err Store.conflict))
  unfolding Store.create_device
  create_device-split m d = ground arith

  create_device-conflict :
      (m : Memory F) (d : Device)
      → ((m' : Memory F) × (Store.create_device m d ≡ (m', ok tt)))
        ⊎ (Store.create_device m d ≡ (m, err Store.conflict))
  create_device-conflict m d = elim (create_device-split m d) [
    | inl e ↦ inl ((Store.create_device m d).0, λ i. ((Store.create_device m d).0, e i))
    | inr e ↦ inr e
  ]

  -- Either some attempt stored the device with its port, or the store is as before and each port was refused.
  abbrev Attempts :
      Memory F → Api → (ℕ → ℕ) → Device → Memory F × Device × Result StoreError (Unit {0}) → Type 0
  Attempts m a draws d (m', d', err e) = (m' ≡ m) × (e ≡ Store.conflict)
  Attempts m a draws d (m', d', ok _) =
      (Store.create_device m d' ≡ (m', ok tt)) × ((k : ℕ) × (d' ≡ on_port a draws k d))

  create_on_free_port-Attempts :
      (a : Api) (draws : ℕ → ℕ) (d : Device) (k left : ℕ) (m : Memory F)
      → Attempts m a draws d (create_on_free_port a draws d k left m)
  unfolding create_on_free_port
  create_on_free_port-Attempts a draws d k zero m =
      elim (create_device-conflict m (on_port a draws k d)) [
        | inl (m', e) ↦ rw (e, create_on_free_port) (e, (k, refl))
        | inr e ↦ rw (e, create_on_free_port) (refl, refl)
      ]
  create_on_free_port-Attempts a draws d k (suc left) m =
      elim (create_device-conflict m (on_port a draws k d)) [
        | inl (m', e) ↦ rw (e, create_on_free_port) (e, (k, refl))
        | inr e ↦
            rw (e, create_on_free_port) (create_on_free_port-Attempts a draws d (k + 1) left m)
      ]

  -- A device that has been stored with one of the ports that are drawn.
  abbrev pub IsStored :
      Memory F → Api → (ℕ → ℕ) → Device → Memory F × Device × Result StoreError (Unit {0}) → Type 0
  IsStored m a draws d (m', d', r) =
      (r ≡ ok tt)
      × ((k : ℕ) × (d' ≡ on_port a draws k d))
      × (lookup d.id m.devices ≡ none)
      × (port_taken d'.ingress_port m.devices ≡ false)
      × (m' ≡ record m { devices = insert d.id (with_ingresses d') m.devices })

  create_device-stored :
      (m : Memory F) (d : Device)
      → (Store.create_device m d).1 ≡ ok tt
      → (lookup d.id m.devices ≡ none)
        × (port_taken d.ingress_port m.devices ≡ false)
        × ((Store.create_device m d).0
            ≡ record m { devices = insert d.id (with_ingresses d) m.devices })
  unfolding Store.create_device
  create_device-stored m d h = elim (Option-cases (lookup d.id m.devices)) [
    | inr (x, e) ↦
        let refused : (Store.create_device m d).1 ≡ err Store.conflict =
          rw (e, Store.create_device) refl in
        absurd (not_stored (sym refused ∙ h))
    | inl e ↦ elim (Bool-cases (port_taken d.ingress_port m.devices)) [
      | inl taken ↦
          let refused : (Store.create_device m d).1 ≡ err Store.conflict =
            rw (e, Store.create_device, taken) refl in
          absurd (not_stored (sym refused ∙ h))
      | inr free ↦ (e, free, rw (e, Store.create_device, free) refl)
    ]
  ]

  IsStored-here :
      (a : Api) (draws : ℕ → ℕ) (d : Device) (k : ℕ) (m : Memory F)
      → (Store.create_device m (on_port a draws k d)).1 ≡ ok tt
      → IsStored m a draws d
          ((Store.create_device m (on_port a draws k d)).0, on_port a draws k d, ok tt)
  IsStored-here a draws d k m h =
      let stored = create_device-stored m (on_port a draws k d) h in
      (refl, (k, refl), stored.0, stored.1, stored.2)

  -- If one of the ports that are drawn, at most `left` attempts after the first one, is free for the device,
  -- the loop succeeds: the id was free, the port is one that was drawn and was free, and the store has changed by that
  -- device alone.
  pub create_on_free_port-succeeds :
      (a : Api) (draws : ℕ → ℕ) (d : Device) (k left j : ℕ) (m : Memory F)
      → j ≤ left
      → (Store.create_device m (on_port a draws (k + j) d)).1 ≡ ok tt
      → IsStored m a draws d (create_on_free_port a draws d k left m)
  unfolding create_on_free_port
  create_on_free_port-succeeds a draws d k zero zero m le h =
      let first : (Store.create_device m (on_port a draws k d)).1 ≡ ok tt =
        subst (λ n. (Store.create_device m (on_port a draws n d)).1 ≡ ok tt) (omega arith) h in
      let stored = IsStored-here a draws d k m first in
      (first, stored.1, stored.2, stored.3, stored.4)
  create_on_free_port-succeeds a draws d k zero (suc j) m le h = absurd (omega (arith, le))
  create_on_free_port-succeeds a draws d k (suc left) zero m le h =
      let first : (Store.create_device m (on_port a draws k d)).1 ≡ ok tt =
        subst (λ n. (Store.create_device m (on_port a draws n d)).1 ≡ ok tt) (omega arith) h in
      rw (first, create_on_free_port) (IsStored-here a draws d k m first)
  create_on_free_port-succeeds a draws d k (suc left) (suc j) m le h =
      elim (create_device-conflict m (on_port a draws k d)) [
        | inl (m', e) ↦
            let first = ap (λ w. w.1) e in
            rw (first, create_on_free_port) (IsStored-here a draws d k m first)
        | inr e ↦
            rw (e, create_on_free_port)
              (create_on_free_port-succeeds a draws d (k + 1) left j m (omega (arith, le)) (
                subst (λ n. (Store.create_device m (on_port a draws n d)).1 ≡ ok tt) (omega arith)
                  h))
      ]

  -- What a response says: the device of a 201 is valid and has been stored as it stands; any other
  -- response leaves the store as it was.
  abbrev pub Created : SsLibrary → Memory F → Response F → Type 0
  Created ss m (m', status, none) = (m' ≡ m) × (status ≢ 201)
  Created ss m (m', status, some d) =
      (status ≡ 201)
      × (valid_device_id d.id ≡ true)
      × IsValid ss d.ingress_method d.ingress_password
      × IsIngressPort d.ingress_port
      × (Store.create_device m d ≡ (m', ok tt))

  module _ (ss : SsLibrary) (a : Api) (draws : Draws) (now : Time)
      (low : pos 1024 ≤ℤ a.ingress_port_start) (high : a.ingress_port_end ≤ℤ pos 65535)
      (inside : (k : ℕ) → a.ingress_port_start +ℤ pos (draws.port k) ≤ℤ a.ingress_port_end) where
    given_port-Created :
        (d : Device) (m : Memory F)
        → valid_device_id d.id ≡ true
        → IsValid ss d.ingress_method d.ingress_password
        → IsIngressPort d.ingress_port
        → Created ss m (created_response (create_on_port_given d m))
    given_port-Created d m v w h = elim (create_device-conflict m d) [
      | inl (m', e) ↦ rw e (refl, v, w, h, e)
      | inr e ↦ rw e (refl, other_status)
    ]

    free_port-Created :
        (id method password : String) (m : Memory F)
        (r : Memory F × Device × Result StoreError (Unit {0}))
        → valid_device_id id ≡ true
        → IsValid ss method password
        → Attempts m a draws.port (new_device id method password now) r
        → Created ss m (created_response r)
    free_port-Created id method password m (m', d, err e) v w h =
        (h.0, λ s. other_status (ap store_status (sym h.1) ∙ s))
    free_port-Created id method password m (m', d, ok u) v w h =
        let (stored, (k, here)) = h in
        subst (λ x. Store.create_device m x ≡ (m', ok tt) → Created ss m (m', 201, some x))
          (sym here)
          (λ q. (
            refl,
            v,
            w,
            drawn_port a.ingress_port_start a.ingress_port_end (draws.port k) low high (inside k),
            q,
          ))
          stored

    create_on_port-Created :
        (id method password : String) (listen_port : ℤ) (left : ℕ) (m : Memory F)
        → valid_device_id id ≡ true
        → IsValid ss method password
        → (listen_port ≡ pos 0) ⊎ IsIngressPort listen_port
        → Created ss m (
            created_response
              (create_on_port a draws.port (new_device id method password now) listen_port left m))
    unfolding create_on_port
    create_on_port-Created id method password listen_port left m v w (inl h) =
        rw (h, create_on_port)
          (free_port-Created id method password m
            (create_on_free_port a draws.port (new_device id method password now) 0 left m) v w
            (create_on_free_port-Attempts a draws.port (new_device id method password now) 0 left
              m))
    create_on_port-Created id method password listen_port left m v w (inr h) =
        elim (Bool-cases (listen_port == pos 0)) [
          | inl none_given ↦ absurd (ground (arith, h, beq_ℤ_iff listen_port (pos 0)))
          | inr other ↦
              rw (other, create_on_port)
                (given_port-Created
                  (record (new_device id method password now) { ingress_port = listen_port }) m v w
                  h)
        ]

    create_validated-Created :
        (id method password : String) (listen_port : ℤ) (m : Memory F)
        → valid_device_id id ≡ true
        → Created ss m (create_validated ss a draws now id method password listen_port m)
    unfolding create_validated
    create_validated-Created id method password listen_port m v =
        elim (Result-cases (validate ss method password)) [
          | inr (x, e) ↦ rw (e, create_validated) (refl, bad_request)
          | inl (u, e) ↦ elim (Bool-cases (is_bad_port listen_port)) [
            | inl bad ↦ rw (e, create_validated, bad) (refl, bad_request)
            | inr good ↦
                rw (e, create_validated, good)
                  (create_on_port-Created id method password listen_port 63 m v
                    (validate-IsValid ss method password e) (good_port listen_port good))
          ]
        ]

    -- If the range of ports of the API is inside 1024 to 65535 and the draws stay inside it, a 201 to a request
    -- means that the device has a valid id, a valid method and password and a port from 1024 to 65535, and
    -- that the store has taken it as a new device; any other status leaves the store as it was.
    pub create_device-Created :
        (req : CreateDevice) (m : Memory F) → Created ss m (create_device ss a draws now req m)
    unfolding create_device
    create_device-Created req m =
        let id = or_default req.id draws.token in
        let method = or_default req.method legacy_aes_256_gcm in
        elim (Bool-cases (valid_device_id id)) [
          | inr bad ↦ rw (bad, create_device) (refl, bad_request)
          | inl valid ↦ elim (Result-cases (password_of req method draws.password)) [
            | inr (x, e) ↦ rw (valid, create_device, e) (refl, bad_request)
            | inl (password, e) ↦
                rw (valid, create_device, e)
                  (create_validated-Created id method password req.listen_port m valid)
          ]
        ]
