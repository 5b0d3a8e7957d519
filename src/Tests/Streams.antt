-- ===== src/Tests/Streams.antt =====
-- A stream of internal/dataplane/control_client.go with a snapshot, a tick and an unknown frame.
use proxy_mesh.Prelude.{pos, String, true, false, List, [], ◌∷◌, ◌≡◌}
use proxy_mesh.Frame.{zero_frame}
use proxy_mesh.Client.{HandleError}
use proxy_mesh.Client.Stream.{
  Event, received, tick, receiving_ended, Attempt, second, serve, outcomes, acknowledgements, run,
  acknowledgements-serve, run-waits, delays, until_done,
}
use proxy_mesh.Tests.Fixtures.{any_ss, working, client, snapshot_frame}

abbrev text : HandleError → String
text e = "failed"

abbrev events : List Event
events =
    received working snapshot_frame
    ∷ tick (pos 5)
    ∷ received working (record zero_frame { type = "other"; request_id = "2" })
    ∷ receiving_ended true
    ∷ []

acknowledgements-serve_example :
    acknowledgements (serve any_ss text client events).1 ≡ outcomes any_ss text client events
acknowledgements-serve_example = acknowledgements-serve any_ss text client events

abbrev attempt : Attempt
attempt = record { opens = true; events = events; done = false }

abbrev last_attempt : Attempt
last_attempt = record { opens = false; events = []; done = true }

run-waits_example :
    (run any_ss text client second (attempt ∷ attempt ∷ last_attempt ∷ [])).1 ≡ delays 0 2
unfolding until_done
run-waits_example = run-waits any_ss text client (attempt ∷ attempt ∷ last_attempt ∷ [])
