-- ===== src/Gateway/Health.antt =====
-- The health handler of internal/dataplane/gateway.go: its requests, and what becomes of a gateway that is
-- drained. net.SplitHostPort and whether an address is that of the loopback are arguments; a response is
-- its status.
use proxy_mesh.Prelude.{
  ℕ, ℤ, String, Bool, true, false, Option, none, some, List, [], ◌∷◌, ◌≡◌, refl, if◌then◌else◌,
  if_both, arith,
}
use proxy_mesh.Gateway.{Gateway, ready, set_draining}
use proxy_mesh.Gateway.Admit.{ready_status}

pub data HealthCall : Type 0 where
  live_call ready_call metrics_call drain undrain : HealthCall

-- The numbers that GET /metrics prints, in their order.
pub record Metrics : Type 0 where
  pub gateway_ready : ℕ
  pub active_connections : ℤ
  pub connect_success : ℕ
  pub connect_failure : ℕ

unfoldable pub metrics : Gateway → Metrics
metrics g = record {
  gateway_ready = if ready g then 1 else 0;
  active_connections = g.connections.total;
  connect_success = g.connect_ok;
  connect_failure = g.connect_failed;
}

-- How a remote address is read.
pub record Addresses : Type 0 where
  pub split_host : String → Option String
  pub is_loopback : String → Bool

unready_while_draining :
    (g : Gateway) → g.draining ≡ true → (ready g ≡ false) × (ready_status g ≡ 503)
unfolding ready ready_status
unready_while_draining g h = (ground (arith, h), ground (arith, h))

module _ (a : Addresses) where
  unfoldable pub request_from_loopback : String → Bool
  request_from_loopback remote = elim (a.split_host remote) [
    | none ↦ false
    | some host ↦ a.is_loopback host
  ]

  abbrev set_if_local : Gateway → String → Bool → Gateway × ℕ
  set_if_local g remote v =
      if request_from_loopback remote then (set_draining g v, 204) else (g, 403)

  -- HealthHandler: the gateway and the status.
  unfoldable pub handle_health : Gateway → HealthCall → String → Gateway × ℕ
  handle_health g live_call remote = (g, 200)
  handle_health g ready_call remote = (g, ready_status g)
  handle_health g metrics_call remote = (g, 200)
  handle_health g drain remote = set_if_local g remote true
  handle_health g undrain remote = set_if_local g remote false

  unfoldable pub run_health : Gateway → List (HealthCall × String) → Gateway
  run_health g [] = g
  run_health g ((call, remote) ∷ calls) = run_health (handle_health g call remote).0 calls

  -- No call undoes the draining: POST /undrain comes from elsewhere only.
  abbrev pub KeepsDraining : List (HealthCall × String) → Type 0
  KeepsDraining [] = Unit
  KeepsDraining ((undrain, remote) ∷ calls) =
      (request_from_loopback remote ≡ false) × KeepsDraining calls
  KeepsDraining ((live_call, remote) ∷ calls) = KeepsDraining calls
  KeepsDraining ((ready_call, remote) ∷ calls) = KeepsDraining calls
  KeepsDraining ((metrics_call, remote) ∷ calls) = KeepsDraining calls
  KeepsDraining ((drain, remote) ∷ calls) = KeepsDraining calls

  drain_if_local :
      (g : Gateway) (remote : String)
      → g.draining ≡ true
      → (set_if_local g remote true).0.draining ≡ true
  drain_if_local g remote h =
      if_both (λ (w : Gateway × ℕ). w.0.draining ≡ true) (request_from_loopback remote) _ _ refl h

  run_health-draining :
      (g : Gateway) (calls : List (HealthCall × String))
      → g.draining ≡ true
      → KeepsDraining calls
      → (run_health g calls).draining ≡ true
  unfolding run_health handle_health
  run_health-draining g [] h k = h
  run_health-draining g ((live_call, remote) ∷ calls) h k = run_health-draining g calls h k
  run_health-draining g ((ready_call, remote) ∷ calls) h k = run_health-draining g calls h k
  run_health-draining g ((metrics_call, remote) ∷ calls) h k = run_health-draining g calls h k
  run_health-draining g ((drain, remote) ∷ calls) h k =
      run_health-draining (set_if_local g remote true).0 calls (drain_if_local g remote h) k
  run_health-draining g ((undrain, remote) ∷ calls) h (distant, k) =
      run_health-draining (set_if_local g remote false).0 calls (rw distant h) k

  -- Once POST /drain has come from the loopback, whatever requests follow, as long as no POST /undrain comes from
  -- the loopback, the gateway is not ready and GET /ready answers with 503.
  pub drained-unready :
      (g : Gateway) (remote : String) (calls : List (HealthCall × String))
      → request_from_loopback remote ≡ true
      → KeepsDraining calls
      → (ready (run_health g ((drain, remote) ∷ calls)) ≡ false)
        × (ready_status (run_health g ((drain, remote) ∷ calls)) ≡ 503)
  unfolding run_health handle_health
  drained-unready g remote calls near k =
      unready_while_draining (run_health (set_if_local g remote true).0 calls)
        (run_health-draining (set_if_local g remote true).0 calls (rw near refl) k)
