-- ===== src/Hub/Broadcast.antt =====
-- What a broadcast of internal/control/hub.go has reached when it returns.
use proxy_mesh.Prelude.{
  String, Bool, true, false, some, List, [], ◌∷◌, ◌==◌, ◌≡◌, ◌⊎◌, refl, string_eq, Result, ok,
  if◌then◌else◌, is_empty, arith, eq_iff, All, All-map, any,
}
use proxy_mesh.Frame.{Frame}
use proxy_mesh.Hub.{
  Session, Event, acked, deadline_passed, context_cancelled, session_done, Traffic, wait_session,
  wait_all, send_all, broadcast_and_wait,
}
use proxy_mesh.Hub.Deploy.{two_phase}

-- The first answer to the request among the events is an acknowledgement without an error, and nothing
-- ended the wait before it.
abbrev pub Accepts : String → List Event → Type 0
Accepts request [] = ⊥
Accepts request (acked ack ∷ events) =
    if ack.request_id == request then ack.error ≡ "" else Accepts request events
Accepts request (deadline_passed ∷ events) = ⊥
Accepts request (context_cancelled ∷ events) = ⊥
Accepts request (session_done ∷ events) = ⊥

module _ {E : Type 0} where
  wait_session-Accepts :
      (f : Frame) (id : String) (events : List Event)
      → (wait_session {E = E} f id events).1 ≡ some (ok tt)
      → Accepts f.request_id events
  unfolding wait_session
  wait_session-Accepts f id [] h = cc
  wait_session-Accepts f id (acked ack ∷ events) h = ground (
    arith,
    eq_iff ack.request_id f.request_id,
    eq_iff ack.error "",
    wait_session-Accepts f id events,
  )
  wait_session-Accepts f id (deadline_passed ∷ events) h = cc
  wait_session-Accepts f id (context_cancelled ∷ events) h = cc
  wait_session-Accepts f id (session_done ∷ events) h = cc

  wait_all-Accepts :
      (f : Frame) (ss : List Session) (events : String → List Event)
      → (wait_all {E = E} f ss events).1 ≡ some (ok tt)
      → All (λ s. Accepts f.request_id (events s.id)) ss
  unfolding wait_all
  wait_all-Accepts f [] events h = tt
  wait_all-Accepts f (s ∷ ss) events h =
      ground (arith, wait_session-Accepts f s.id (events s.id), wait_all-Accepts f ss events)

abbrev pub ids : List Session → List String
ids [] = []
ids (s ∷ ss) = s.id ∷ ids ss

pub any-ids : (ss : List Session) → All (λ s. any (λ j. j == s.id) (ids ss) ≡ true) ss
any-ids [] = tt
any-ids (s ∷ ss) = (
  ground (arith, eq_iff s.id s.id),
  All-map (λ t. any (λ j. j == t.id) (ids ss) ≡ true)
      (λ t. any (λ j. j == t.id) (ids (s ∷ ss)) ≡ true) ss (λ t h. ground (arith, h)) (any-ids ss),
)

send_all-ids :
    (ss : List Session) (can_send : String → Bool)
    → (send_all ss can_send).1 ≡ true
    → (send_all ss can_send).0 ≡ ids ss
unfolding send_all
send_all-ids [] can_send h = refl
send_all-ids (s ∷ ss) can_send h = ground (arith, send_all-ids ss can_send)

module _ {E : Type 0} where
  -- A broadcast succeeds only if there is a session, each of them was sent the frame, and each has
  -- acknowledged it without an error.
  pub broadcast_and_wait-Accepts :
      (ss : List Session) (f : Frame) (t : Traffic)
      → (broadcast_and_wait {E = E} ss f t).result ≡ some (ok tt)
      → (is_empty ss ≡ false)
        × ((broadcast_and_wait {E = E} ss f t).sent ≡ ids ss)
        × All (λ s. Accepts f.request_id (t.events s.id)) ss
  unfolding broadcast_and_wait
  broadcast_and_wait-Accepts ss f t h = (
    ground arith,
    ground (arith, send_all-ids ss t.can_send),
    wait_all-Accepts {E = E} f ss t.events (ground arith),
  )

module _ {E W : Type 0} (ss : List Session) (f f' : Frame) (t t' : Traffic)
    (commit : W → W × Result E (Unit {0})) (w : W) where
  -- A deployment commits only if every session has acknowledged the first frame without an error; else the
  -- world stays as it is and no session is sent the second frame. The second frame is sent only after a
  -- commit without an error.
  pub two_phase-commit :
      ((two_phase ss f f' t t' commit w).world ≡ w)
        × ((two_phase ss f f' t t' commit w).second.sent ≡ [])
      ⊎ (is_empty ss ≡ false)
        × All (λ s. Accepts f.request_id (t.events s.id)) ss
        × ((two_phase ss f f' t t' commit w).world ≡ (commit w).0)
        × (((commit w).1 ≡ ok tt) ⊎ ((two_phase ss f f' t t' commit w).second.sent ≡ []))
  unfolding two_phase
  two_phase-commit = ground (arith, broadcast_and_wait-Accepts {E = E} ss f t)

  -- A deployment returns no error only if it has committed without one, and every session was sent both
  -- frames and has acknowledged them without an error.
  pub two_phase-ok :
      (two_phase ss f f' t t' commit w).result ≡ some (ok tt)
      → ((commit w).1 ≡ ok tt)
        × ((two_phase ss f f' t t' commit w).world ≡ (commit w).0)
        × All (λ s. Accepts f.request_id (t.events s.id)) ss
        × All (λ s. Accepts f'.request_id (t'.events s.id)) ss
        × ((broadcast_and_wait {E = E} ss f t).sent ≡ ids ss)
        × ((two_phase ss f f' t t' commit w).second.sent ≡ ids ss)
  unfolding two_phase
  two_phase-ok h = ground (
    arith,
    broadcast_and_wait-Accepts {E = E} ss f t,
    broadcast_and_wait-Accepts {E = E} ss f' t',
  )
