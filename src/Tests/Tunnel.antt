-- ===== src/Tests/Tunnel.antt =====
-- The theorems on the tunnel at concrete routes, requests and calls.
use telegent.Tunnel.HostSession.{
  SessionEvent, beats_time, loops, poll_answers, wakes, beat_fails, settles, stops, other_error,
  happen_all, new_session,
}
use telegent.Tunnel.HostSession.Bounded.{IsBounded, happen_all-IsBounded}
use telegent.Tunnel.Forwarding.{
  ForwardApi, ForwardOptions, IncomingRequest, chunk, ends, forward_to_host,
}
use telegent.Tunnel.Forwarding.Bounds.{IsWithin, forward_to_host-IsWithin}
use telegent.Base.{
  Text, codes, text_eq, ok, err, ◌≤◌, ◌≡◌, refl, true, false, none, some, List, [], ◌∷◌, ◌++◌,
  arith,
}
use telegent.Base.Maps.{lookup}
use telegent.Tests.{
  request, node, config, relay_options, team, lab, response, new, calls, route, in_flight, hub,
  broker, asks,
}
use telegent.Tunnel.Protocol.{active, closed, RouteMetadata, RouteStatus}
use telegent.Tunnel.Protocol
use telegent.Tunnel.Limits.{broker_limits, new_guards, counts_of, enter}
use telegent.Tunnel.Limits.Rates.{admitted, admitted-window}
use telegent.Tunnel.Limits.Concurrency.{
  counts-Reach, Tracked, here, next, enters, open_waits, after_enter,
}
use telegent.Tunnel.Relay.{queue_of, claim, close_route}
use telegent.Tunnel.Relay
use telegent.Tunnel.Relay.Settlement.{IsSound}
use telegent.Tunnel.Relay.Claims.{Claimed, claim-Claimed}
use telegent.Tunnel.Relay.Closing.{lookup-close_route, settled-close_route}
use telegent.Tunnel.Broker.{refuse, find_route, find_by_connection, slug_pattern}
use telegent.Tunnel.Operations.{
  register, new_route, heartbeat, beat, resolve, respond_relay, check_registration,
}
use telegent.Tunnel.Operations.Continuity.{AllFollow}
use telegent.Tunnel.Operations.Exclusive.{register_held, register_free}
use telegent.Tunnel.Operations.Lifetime.{heartbeat_lifetime, is_ok, resolve-resolution, status_of}
use telegent.Tunnel.Operations.Responses.{respond_relay_crosses_routes}
use telegent.Tunnel.Calls.{run, beats, claims, Call}
use telegent.Tunnel.Calls.Lifecycle.{run-AllFollow}
use telegent.Tunnel.Calls.Soundness.{run-IsSound, minted_in}

run-IsSound_example : IsSound (minted_in calls []) (run node calls new).relay
unfolding text_eq
run-IsSound_example =
    run-IsSound node calls config broker_limits relay_options (refl, (refl, (refl, tt)))

claim-Claimed_example :
    let h = (run node calls new).relay in
    Claimed 5000 team h (queue_of h team) (claim 5000 h team)
    × (queue_of (Relay.enqueue 5000 (codes "q9") h team (request (codes "q9") team)) team
        ≡ queue_of h team ++ codes "q9" ∷ [])
unfolding text_eq
claim-Claimed_example =
    let both =
      claim-Claimed (minted_in calls []) (run node calls new).relay
        (run-IsSound node calls config broker_limits relay_options (refl, (refl, (refl, tt)))) 5000
        team in
    (both.0, both.1 5000 (codes "q9") team (request (codes "q9") team))

abbrev later_calls : List Call
later_calls = beats 2000 (codes "r1") (codes "c1") ∷ claims 3000 (codes "r1") (codes "c1") ∷ []

run-AllFollow_example : AllFollow broker.routes (run node later_calls broker).routes
unfolding lookup text_eq
run-AllFollow_example = run-AllFollow node later_calls broker (refl, (refl, tt)) (refl, (refl, tt))

register_held_example :
    (register node 2000 (codes "r3") (codes "c3") team none broker).0
    ≡ err (refuse Protocol.route_slug_taken 409)
unfolding check_registration lookup text_eq slug_pattern
register_held_example =
    (register_held node 2000 (codes "r3") (codes "c3") team none broker refl refl).0

register_free_example :
    (register node 2000 (codes "r3") (codes "c3") lab none broker).0
    ≡ ok (new_route config 2000 lab (codes "r3") (codes "c3"))
unfolding check_registration lookup text_eq slug_pattern
register_free_example =
    (register_free node 2000 (codes "r3") (codes "c3") lab none broker refl refl).0

abbrev beaten : RouteMetadata
beaten = record (route team (codes "r1") (codes "c1") active) {
  last_seen_at = 2000;
  last_heartbeat_at = 2000;
  expires_at = 902000;
}

heartbeat_lifetime_example :
    (slug : Text) × (lookup slug (heartbeat 2000 (codes "r1") (codes "c1") broker).1.routes
      ≡ some beaten)
    × (is_ok (resolve 900000 slug (heartbeat 2000 (codes "r1") (codes "c1") broker).1).0 ≡ true)
unfolding heartbeat lookup text_eq find_by_connection beat
heartbeat_lifetime_example =
    heartbeat_lifetime 2000 900000 (codes "r1") (codes "c1") broker beaten (refl, (refl, tt)) refl
      (omega arith)

respond_relay_crosses_routes_example :
    (respond_relay node 2000 (codes "r2") (codes "c2") (codes "q1") response broker).0 ≡ ok tt
unfolding find_route lookup text_eq
respond_relay_crosses_routes_example =
    (respond_relay_crosses_routes node 2000 (codes "r2") (codes "c2") lab (codes "q1")
      (route lab (codes "r2") (codes "c2") closed) response (in_flight (codes "q1") team) broker
      refl refl (λ e. cc) (ground arith)).0

abbrev first : Tracked
first = after_enter [] (enter 1000 (new_guards broker_limits) (asks team))

abbrev both : Tracked
both = after_enter first.open_requests (enter 1001 first.guards (asks team))

counts-Reach_example :
    ((counts_of both.guards team).waits ≡ open_waits team both.open_requests)
    × (open_waits team both.open_requests ≤ 32)
counts-Reach_example =
    let counts =
      counts-Reach broker_limits team
        (next (next here (enters 1000 (asks team))) (enters 1001 (asks team))) in
    (counts.1, counts.3)

lookup-close_route_example :
    lookup (codes "q2") (close_route team hub).inflight ≡ some (in_flight (codes "q2") lab)
unfolding lookup text_eq
lookup-close_route_example = lookup-close_route team (codes "q2") hub (refl, (refl, tt))

settled-close_route_example :
    (close_route team hub).settled ≡ (codes "q1", err Relay.closed_route) ∷ []
unfolding lookup text_eq
settled-close_route_example = settled-close_route team hub (refl, (refl, tt))

admitted-window_example : admitted 2 Protocol.rate_limited none (1000 ∷ 1500 ∷ 2000 ∷ []) ≡ 2
admitted-window_example =
    admitted-window 2 1000 Protocol.rate_limited none (1500 ∷ 2000 ∷ []) tt
      (omega arith, (omega arith, tt))

resolve-resolution_example :
    status_of (resolve 2000 lab broker).0 ≡ err (refuse Protocol.route_closed 410)
unfolding lookup text_eq
resolve-resolution_example = resolve-resolution 2000 lab broker

-- A session that claims two requests, loses its route twice over and settles one request.
abbrev session_events : List SessionEvent
session_events =
    beats_time
    ∷ loops
    ∷ poll_answers (some (request (codes "q1") team))
    ∷ loops
    ∷ poll_answers (some (request (codes "q2") team))
    ∷ loops
    ∷ wakes
    ∷ beat_fails other_error
    ∷ settles 0
    ∷ stops
    ∷ []

happen_all-IsBounded_example : IsBounded (happen_all session_events (new_session none))
happen_all-IsBounded_example = happen_all-IsBounded session_events none

-- A host whose response breaks the limit in its second chunk.
abbrev forward_api : ForwardApi
forward_api = record {
  fetch = λ r. some (record {
    status = 200;
    content_length = none;
    content_type = none;
    body = chunk (1 ∷ 2 ∷ []) (chunk (3 ∷ 4 ∷ []) ends);
  });
  exceeds = λ s limit. false;
  origin_of = λ s. some s;
  urls = record { href = λ s. some s; resolve = λ path base. none };
  lower = λ s. s;
  from_base64 = λ s. s;
  to_base64 = λ s. s;
}

abbrev forward_options : ForwardOptions
forward_options = record {
  target = codes "http://localhost:4000";
  path = codes "/wait";
  request_body_bytes = 10;
  response_body_bytes = 3;
}

abbrev incoming : IncomingRequest
incoming = record { method = codes "GET"; headers = []; chunks = [] }

forward_to_host-IsWithin_example : IsWithin 3 (forward_to_host forward_api forward_options incoming)
forward_to_host-IsWithin_example = forward_to_host-IsWithin forward_api forward_options incoming
