-- ===== src/Hub/Agreement.antt =====
-- What a route deployment of internal/control/hub.go has done to the gateways when it returns.
use proxy_mesh.Prelude.{
  String, true, Option, none, some, List, [], ◌==◌, ◌≡◌, ◌≢◌, ◌⊎◌, refl, string_eq, Result, ok,
  arith, any, eq_iff, All, All-map₃, Option-cases, inl, inr, Result-cases, ◌∙◌,
}
use proxy_mesh.Prelude.Map.{lookup}
use proxy_mesh.Model.{DeviceRoute, route_active}
use proxy_mesh.SsConfig.{SsLibrary}
use proxy_mesh.Frame.{Frame}
use proxy_mesh.Table.{by_device}
use proxy_mesh.Client.{ControlClient, System, HandleError, handle, handle_prepare, ack_of}
use proxy_mesh.Client.Phases.{
  prepare_frame, activate_frame, handle-prepare_frame, handle-activate_frame,
  by_device-handle_prepare, handle_prepare-staged, by_device-handle_activate,
}
use proxy_mesh.Hub.{Hub, Traffic, ready_sessions, broadcast_and_wait}
use proxy_mesh.Hub.Deploy.{Deployed, deploy_route}
use proxy_mesh.Hub.Broadcast.{Accepts, ids, any-ids, two_phase-commit, two_phase-ok}
use proxy_mesh.Hub.Fleet.{
  Fleet, Reaction, answers, unheard, lost, Network, first_traffic, react, deliver, event_of,
  traffic_of, lookup-deliver, prepared_fleet, deploy_to_fleet, deployed_fleet,
}

-- The route that a gateway of the fleet serves for a device.
abbrev pub served : Option ControlClient → String → Option DeviceRoute
served none id = none
served (some c) id = by_device c.gateway.table id

module _ (ss : SsLibrary) (error_text : HandleError → String)
    (texts : (e : HandleError) → error_text e ≢ "") where
  react-prepare-served :
      (r : DeviceRoute) (request_id : String) (x : Reaction) (c : ControlClient) (id : String)
      → by_device (react ss error_text (prepare_frame request_id r) x c).gateway.table id
        ≡ by_device c.gateway.table id
  unfolding react
  react-prepare-served r request_id (answers sys) c id =
      rw (handle-prepare_frame ss sys c r request_id, react)
        (by_device-handle_prepare ss sys c r id)
  react-prepare-served r request_id (unheard sys) c id =
      rw (handle-prepare_frame ss sys c r request_id, react)
        (by_device-handle_prepare ss sys c r id)
  react-prepare-served r request_id lost c id = refl

  -- What an accepted answer says of the gateway that gave it.
  accepted :
      (f : Frame) (x : Reaction) (c : Option ControlClient)
      → Accepts f.request_id (event_of ss error_text f x c)
      → (sys : System) × (k : ControlClient) × (x ≡ answers sys)
        × (c ≡ some k)
        × ((handle ss sys k f).1 ≡ ok tt)
  unfolding event_of ack_of
  accepted f (answers sys) (some k) h = (
    sys,
    k,
    refl,
    refl,
    elim (Result-cases (handle ss sys k f).1) [
      | inl (_, e) ↦ e
      | inr (e, ne) ↦ absurd (ground (arith, ne, h, texts e, eq_iff f.request_id f.request_id))
    ],
  )
  accepted f (answers sys) none h = absurd h
  accepted f (unheard sys) c h = absurd h
  accepted f lost c h = absurd h

  served-prepare :
      (r : DeviceRoute) (request_id : String) (sent : List String) (reaction : String → Reaction)
      (fleet : Fleet) (g id : String)
      → served
          (lookup g (deliver ss error_text (prepare_frame request_id r) sent reaction fleet))
          id
        ≡ served (lookup g fleet) id
  served-prepare r request_id sent reaction fleet g id =
      let f = prepare_frame request_id r in
      rw (lookup-deliver ss error_text f sent reaction fleet g)
        (elim (Option-cases (lookup g fleet)) [
          | inl e ↦ rw e
          | inr (c, e) ↦ ground (arith, e, react-prepare-served r request_id (reaction g) c id)
        ])

  not_sent :
      (f : Frame) (reaction : String → Reaction) (fleet : Fleet) (g id : String)
      → served (lookup g (deliver ss error_text f [] reaction fleet)) id
        ≡ served (lookup g fleet) id
  not_sent f reaction fleet g id =
      rw (lookup-deliver ss error_text f [] reaction fleet g) (ground arith)

  -- A gateway that accepted a frame has handled it.
  lookup-deliver_accepted :
      (f : Frame) (sent : List String) (reaction : String → Reaction) (fleet : Fleet) (g : String)
      → any (λ j. j == g) sent ≡ true
      → Accepts f.request_id (event_of ss error_text f (reaction g) (lookup g fleet))
      → (sys : System) × (k : ControlClient) × (lookup g fleet ≡ some k)
        × ((handle ss sys k f).1 ≡ ok tt)
        × (lookup g (deliver ss error_text f sent reaction fleet) ≡ some (handle ss sys k f).0)
  unfolding react
  lookup-deliver_accepted f sent reaction fleet g among h =
      let (sys, k, x, c, e) = accepted f (reaction g) (lookup g fleet) h in
      (sys, k, c, e, rw (lookup-deliver ss error_text f sent reaction fleet g) (rw (c, among, x)))

  -- A gateway that accepts both frames serves the route at the end.
  served_of_accepted :
      (r : DeviceRoute) (request_id : String) (sent sent' : List String)
      (reaction reaction' : String → Reaction) (fleet : Fleet) (g : String)
      → any (λ j. j == g) sent ≡ true
      → any (λ j. j == g) sent' ≡ true
      → Accepts request_id
          (event_of ss error_text (prepare_frame request_id r) (reaction g) (lookup g fleet))
      → Accepts request_id (
          event_of ss error_text
            (activate_frame request_id r)
            (reaction' g)
            (lookup g (deliver ss error_text (prepare_frame request_id r) sent reaction fleet)))
      → served
          (lookup g (
            deliver ss error_text
              (activate_frame request_id r)
              sent'
              reaction'
              (deliver ss error_text (prepare_frame request_id r) sent reaction fleet)))
          r.device_id
        ≡ some (record r { status = route_active })
  served_of_accepted r request_id sent sent' reaction reaction' fleet g among among' h h' =
      let f = prepare_frame request_id r in
      let f' = activate_frame request_id r in
      let (sys, k, there, e, after) = lookup-deliver_accepted f sent reaction fleet g among h in
      let mid = deliver ss error_text f sent reaction fleet in
      let (sys', k', there', e', after') =
        lookup-deliver_accepted f' sent' reaction' mid g among' h' in
      let same : k' ≡ (handle_prepare ss sys k r).0 =
        cc (there', after, handle-prepare_frame ss sys k r request_id) in
      let staged =
        handle_prepare-staged ss sys k r (rw (handle-prepare_frame ss sys k r request_id) at e) in
      rw after' (
        rw (handle-activate_frame ss sys' k' r request_id)
          (by_device-handle_activate ss sys' k' r (rw same staged)))

  module _ {E W : Type 0} (h : Hub) (r : DeviceRoute) (request_id : String) (net net' : Network)
      (commit : W → W × Result E (Unit {0})) (w : W) (fleet : Fleet) where
    abbrev outcome : Deployed E W
    outcome = deploy_to_fleet ss error_text h r request_id net net' commit w fleet

    abbrev final : Fleet
    final = deployed_fleet ss error_text h r request_id net net' commit w fleet

    served-final_unsent :
        (g id : String)
        → outcome.second.sent ≡ []
        → served (lookup g final) id ≡ served (lookup g fleet) id
    unfolding deployed_fleet
    served-final_unsent g id e =
        let f = prepare_frame request_id r in
        let first =
          broadcast_and_wait {E = E} (ready_sessions h) f
            (first_traffic ss error_text E h r request_id net fleet) in
        rw (e, deployed_fleet)
          (not_sent (activate_frame request_id r) net'.reaction
              (prepared_fleet ss error_text E h r request_id net fleet) g id
            ∙ served-prepare r request_id first.sent net.reaction fleet g id)

    abbrev second_traffic : Traffic
    second_traffic =
        traffic_of ss error_text (activate_frame request_id r) net'
          (prepared_fleet ss error_text E h r request_id net fleet)

    outcome-commit :
        ((outcome.world ≡ w) × (outcome.second.sent ≡ []))
        ⊎ ((outcome.world ≡ (commit w).0) × (((commit w).1 ≡ ok tt) ⊎ (outcome.second.sent ≡ [])))
    unfolding deploy_to_fleet deploy_route
    outcome-commit =
        elim (two_phase-commit (ready_sessions h) (prepare_frame request_id r)
          (activate_frame request_id r) (first_traffic ss error_text E h r request_id net fleet)
          second_traffic commit w) [
            | inl a ↦ inl a
            | inr (some_session, accepts, world, rest) ↦ inr (world, rest)
          ]

    -- A route deployment that does not commit, or whose commit fails, changes no route that any gateway
    -- serves: the world is as it was, or as the failed commit left it.
    pub deploy_to_fleet-aborted :
        (g id : String)
        → ((outcome.world ≡ w) × (served (lookup g final) id ≡ served (lookup g fleet) id))
          ⊎ ((outcome.world ≡ (commit w).0)
              × (((commit w).1 ≡ ok tt)
                  ⊎ (served (lookup g final) id ≡ served (lookup g fleet) id)))
    deploy_to_fleet-aborted g id = elim outcome-commit [
      | inl (world, unsent) ↦ inl (world, served-final_unsent g id unsent)
      | inr (world, inl committed) ↦ inr (world, inl committed)
      | inr (world, inr unsent) ↦ inr (world, inr (served-final_unsent g id unsent))
    ]

    -- If the text of a handler's error is never empty, a route deployment returns no error only if its commit
    -- succeeded, and then every gateway that was ready at its start serves the new route for the device,
    -- as active.
    pub deploy_to_fleet-agrees :
        outcome.result ≡ some (ok tt)
        → ((commit w).1 ≡ ok tt)
          × (outcome.world ≡ (commit w).0)
          × All
              (λ s.
                served (lookup s.id final) r.device_id ≡ some (record r { status = route_active }))
              (ready_sessions h)
    unfolding deploy_to_fleet deploy_route deployed_fleet traffic_of
    deploy_to_fleet-agrees e =
        let (committed, world, accepts, accepts', sent, sent') =
          two_phase-ok (ready_sessions h) (prepare_frame request_id r) (activate_frame request_id r)
            (first_traffic ss error_text E h r request_id net fleet) second_traffic commit w e in
        let members = any-ids (ready_sessions h) in
        let first = first_traffic ss error_text E h r request_id net fleet in
        (
          committed,
          world,
          All-map₃ (λ s. any (λ j. j == s.id) (ids (ready_sessions h)) ≡ true)
              (λ s. Accepts request_id (first.events s.id))
              (λ s. Accepts request_id (second_traffic.events s.id))
              (λ s.
                served (lookup s.id final) r.device_id ≡ some (record r { status = route_active }))
              (ready_sessions h)
              (λ s among accept accept'.
                served_of_accepted r request_id _ _ net.reaction net'.reaction fleet s.id
                  (rw sent among) (rw sent' among) accept accept')
              members accepts accepts',
        )
