-- ===== src/Client/Stream.antt =====
-- The stream of a gateway to the control plane: connect and Run of internal/dataplane/control_client.go. What
-- the select of a loop takes, one thing after the other, is a list of events. The frames that are put on the
-- channel `out` are listed in order; `register` is sent before the loop. A time is a number of nanoseconds.
use proxy_mesh.Prelude.{
  ℕ, zero, suc, ◌*◌, String, Bool, true, false, Option, none, some, List, [], ◌∷◌, ◌==◌, string_eq,
  if◌then◌else◌, ok, err, ltb, ◌≡◌, refl, ◌∙◌, ap, Bool-cases, inl, inr,
}
use proxy_mesh.Model.{Time}
use proxy_mesh.SsConfig.{SsLibrary}
use proxy_mesh.Frame.{Frame, zero_frame, type_register, type_ack}
use proxy_mesh.Client.{ControlClient, System, HandleError, Handled, handle, ack_of, heartbeat_frame}

-- A frame, with what the system does while it is handled, a tick, the end of receiving (by io.EOF or by an
-- error) or of sending, and the end of the context.
pub data Event : Type 0 where
  received : System → Frame → Event
  tick : Time → Event
  receiving_ended : Bool → Event
  sending_failed : Event
  cancelled : Event

pub data End : Type 0 where
  not_opened finished receive_failed send_failed context_done : End

-- The client, the frames sent, and how the stream has ended, if it has.
abbrev pub Streamed : Type 0
Streamed = ControlClient × List Frame × Option End

abbrev sending : Frame → Streamed → Streamed
sending f (c, out, end) = (c, f ∷ out, end)

abbrev pub register_frame : ControlClient → Frame
register_frame c = record zero_frame { type = type_register; gateway_id = c.gateway_id }

-- One attempt of Run: whether the stream opens, the events of its loop, and whether the context is done at the
-- select that follows.
pub record Attempt : Type 0 where
  pub opens : Bool
  pub events : List Event
  pub done : Bool

abbrev pub second : ℕ
second = 1000000000

abbrev pub next_backoff : ℕ → ℕ
next_backoff backoff = if ltb backoff (30 * second) then backoff * 2 else backoff

-- The request and the error of each acknowledgement.
unfoldable pub acknowledgements : List Frame → List (String × String)
acknowledgements [] = []
acknowledgements (f ∷ fs) =
    let rest = acknowledgements fs in
    if f.type == type_ack then (f.request_id, f.error) ∷ rest else rest

-- The wait after so many attempts: it is doubled from one second up to 32.
abbrev pub delay : ℕ → ℕ
delay zero = second
delay (suc zero) = 2 * second
delay (suc (suc zero)) = 4 * second
delay (suc (suc (suc zero))) = 8 * second
delay (suc (suc (suc (suc zero)))) = 16 * second
delay (suc (suc (suc (suc (suc k))))) = 32 * second

next_backoff-delay : (k : ℕ) → next_backoff (delay k) ≡ delay (suc k)
next_backoff-delay zero = refl
next_backoff-delay (suc zero) = refl
next_backoff-delay (suc (suc zero)) = refl
next_backoff-delay (suc (suc (suc zero))) = refl
next_backoff-delay (suc (suc (suc (suc zero)))) = refl
next_backoff-delay (suc (suc (suc (suc (suc k))))) = refl

abbrev pub delays : ℕ → ℕ → List ℕ
delays k zero = []
delays k (suc n) = delay k ∷ delays (suc k) n

-- The attempts before the one after which the context is done.
unfoldable pub until_done : List Attempt → ℕ
until_done [] = 0
until_done (a ∷ more) = let rest = until_done more in if a.done then 0 else suc rest

module _ (ss : SsLibrary) (error_text : HandleError → String) where
  -- The loop of connect.
  unfoldable pub serve : ControlClient → List Event → Streamed
  serve c [] = (c, [], none)
  serve c (received sys f ∷ es) =
      sending (ack_of error_text c f (handle ss sys c f)) (serve (handle ss sys c f).0 es)
  serve c (tick now ∷ es) = sending (heartbeat_frame c now) (serve c es)
  serve c (receiving_ended true ∷ es) = (c, [], some finished)
  serve c (receiving_ended false ∷ es) = (c, [], some receive_failed)
  serve c (sending_failed ∷ es) = (c, [], some send_failed)
  serve c (cancelled ∷ es) = (c, [], some context_done)

  unfoldable pub connect : ControlClient → Bool → List Event → Streamed
  connect c false es = (c, [], some not_opened)
  connect c true es = sending (register_frame c) (serve c es)

  -- Run: the client that is left, and the waits between the attempts.
  unfoldable pub run : ControlClient → ℕ → List Attempt → ControlClient × List ℕ
  run c backoff [] = (c, [])
  run c backoff (a ∷ more) =
      let after = (connect c a.opens a.events).0 in
      let rest = run after (next_backoff backoff) more in
      if a.done then (after, []) else (rest.0, backoff ∷ rest.1)

  -- What the handler has returned for the frames that are received before the stream ends.
  abbrev outcome : Frame → Handled → String × String
  outcome f (c, ok _) = (f.request_id, "")
  outcome f (c, err e) = (f.request_id, error_text e)

  unfoldable pub outcomes : ControlClient → List Event → List (String × String)
  outcomes c [] = []
  outcomes c (received sys f ∷ es) =
      outcome f (handle ss sys c f) ∷ outcomes (handle ss sys c f).0 es
  outcomes c (tick now ∷ es) = outcomes c es
  outcomes c (receiving_ended b ∷ es) = []
  outcomes c (sending_failed ∷ es) = []
  outcomes c (cancelled ∷ es) = []

  acknowledgements-ack_of :
      (c : ControlClient) (f : Frame) (h : Handled) (out : List Frame)
      → acknowledgements (ack_of error_text c f h ∷ out) ≡ outcome f h ∷ acknowledgements out
  unfolding acknowledgements ack_of
  acknowledgements-ack_of c f (d, ok x) out = refl
  acknowledgements-ack_of c f (d, err e) out = refl

  -- Every frame that is received gets one acknowledgement, in the order of the frames, with its request id and
  -- the error of its handler, and no other acknowledgement is sent.
  pub acknowledgements-serve :
      (c : ControlClient) (es : List Event) → acknowledgements (serve c es).1 ≡ outcomes c es
  unfolding serve outcomes acknowledgements heartbeat_frame
  acknowledgements-serve c [] = refl
  acknowledgements-serve c (received sys f ∷ es) =
      acknowledgements-ack_of c f (handle ss sys c f) (serve (handle ss sys c f).0 es).1
      ∙ ap (λ r. outcome f (handle ss sys c f) ∷ r)
          (acknowledgements-serve (handle ss sys c f).0 es)
  acknowledgements-serve c (tick now ∷ es) = acknowledgements-serve c es
  acknowledgements-serve c (receiving_ended true ∷ es) = refl
  acknowledgements-serve c (receiving_ended false ∷ es) = refl
  acknowledgements-serve c (sending_failed ∷ es) = refl
  acknowledgements-serve c (cancelled ∷ es) = refl

  waits_lem :
      (c : ControlClient) (k : ℕ) (more : List Attempt)
      → (run c (delay k) more).1 ≡ delays k (until_done more)
  unfolding run until_done
  waits_lem c k [] = refl
  waits_lem c k (a ∷ more) = elim (Bool-cases a.done) [
    | inl e ↦ rw e refl
    | inr e ↦
        rw (e, next_backoff-delay k)
          (ap (λ r. delay k ∷ r) (waits_lem (connect c a.opens a.events).0 (suc k) more))
  ]

  -- Run waits after every attempt until the context is done: one second after the first, twice as long each
  -- time, and from the sixth on 32 seconds.
  pub run-waits :
      (c : ControlClient) (more : List Attempt) → (run c second more).1 ≡ delays 0 (until_done more)
  run-waits c more = waits_lem c 0 more
