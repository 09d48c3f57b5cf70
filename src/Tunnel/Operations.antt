-- ===== src/Tunnel/Operations.antt =====
-- The operations of the class TunnelBroker (src/tunnel/broker.ts), on every branch. Identifiers and
-- slugs are texts: a control body that holds another type there is not modelled. An operation that
-- throws returns the state too, since `refresh` may have written to it.
pub mod Continuity
pub mod Lookup
pub mod Exclusive
pub mod Lifetime
pub mod Responses
use telegent.Base.{
  Text, codes, text_eq, text_eq→eq, text_eq_refl, text_eq_iff, text_eq_ne, ltb, leb, ◌==◌,
  if◌then◌else◌, ==_iff, Bool-cases, Option-cases, is_some, or_else, Result, ok, err, ◌>>=◌, ◌>>◌,
  guard, occurs, occurs-append, length, length-append, filter, find, any, all, All, All-append,
  All-map, All-filter, includes, ℕ, zero, suc, ◌+◌, ◌-◌, ◌*◌, ◌/◌, ◌%◌, ◌^◌, ◌≤◌, ◌<◌, max, min,
  ◌≡◌, refl, sym, ap, subst, ◌∙◌, ◌≢◌, ◌↔◌, ◌⊎◌, inl, inr, Bool, true, false, not, ◌&&◌, ◌||◌,
  Option, none, some, List, [], ◌∷◌, ◌++◌, map, arith,
}
use telegent.Base.Maps.{Map, lookup, insert, delete}
use telegent.Tunnel.Protocol.{
  RouteStatus, RouteMetadata, TunnelError, TunnelErrorCode, ForwardedRequest, ForwardedResponse,
  active, expired, closed, invalid_registration, route_slug_taken, route_not_found, route_closed,
  route_expired, host_unavailable,
}
use telegent.Tunnel.Limits
use telegent.Tunnel.Limits.{RequestGuardInput, Release}
use telegent.Tunnel.Relay
use telegent.Tunnel.Broker.{
  TunnelBroker, BrokerConfig, NodeApi, MeterCall, route_registered, route_ended, refuse,
  slug_pattern, assert_local_target, is_active, refresh, put_route, current_route,
  find_by_connection, mark_host_seen, touch,
}

-- The checks of `register` before it looks at the routes.
unfoldable pub check_registration : NodeApi → Text → Option Text → Result TunnelError (Unit {0})
check_registration p slug target =
    if not (slug_pattern slug)
    then err (refuse invalid_registration 400)
    else elim target [ none ↦ ok tt | some t ↦ assert_local_target p t ]

abbrev pub new_route : BrokerConfig → ℕ → Text → Text → Text → RouteMetadata
new_route c now slug route_id connection_id = record {
  route_slug = slug;
  route_id = route_id;
  host_connection_id = connection_id;
  created_at = now;
  last_seen_at = now;
  last_heartbeat_at = now;
  expires_at = now + c.route_ttl_ms;
  status = active;
  host_connected = true;
}

-- The target of a slug is set anew, or dropped; a route with none is public, and metered.
unfoldable pub sync_target : Text → Option Text → TunnelBroker → TunnelBroker
sync_target slug (some t) b = record b { targets = insert slug t b.targets }
sync_target slug none b = record b {
  targets = delete slug b.targets;
  metered = b.metered ++ route_registered slug ∷ [];
}

unfoldable pub install_route : Text → RouteMetadata → Option Text → TunnelBroker → TunnelBroker
unfolding sync_target
install_route slug r target b = sync_target slug target (put_route slug r b)

abbrev pub blocks : Option RouteMetadata → Bool
blocks none = false
blocks (some r) = is_active r.status && r.host_connected

abbrev pub reclaim : Text → Option RouteMetadata → TunnelBroker → TunnelBroker
reclaim slug none b = b
reclaim slug (some r) b = record b { relay = Relay.close_route slug b.relay }

unfoldable pub register :
    NodeApi
    → ℕ
    → Text
    → Text
    → Text
    → Option Text
    → TunnelBroker
    → Result TunnelError RouteMetadata × TunnelBroker
unfolding install_route
register p now route_id connection_id slug target b = elim (check_registration p slug target) [
  | err e ↦ (err e, b)
  | ok _ ↦
      let (existing, b') = current_route now slug b in
      if blocks existing then (err (refuse route_slug_taken 409), b') else (
        ok (new_route b.config now slug route_id connection_id),
        install_route slug (new_route b.config now slug route_id connection_id) target
            (reclaim slug existing b'),
      )
]

-- The error for a route that is no longer active.
abbrev pub inactive : RouteStatus → Option TunnelError
inactive active = none
inactive closed = some (refuse route_closed 410)
inactive expired = some (refuse route_expired 410)

-- What `heartbeat` writes to an active route, the second `refresh` included.
unfoldable pub beat : BrokerConfig → ℕ → RouteMetadata → RouteMetadata
unfolding refresh mark_host_seen
beat c now r =
    refresh c now
      (mark_host_seen now (record r { last_seen_at = now; expires_at = now + c.route_ttl_ms }))

-- The rest of `heartbeat`, behind `findByConnection`.
unfoldable pub heartbeat_found :
    ℕ
    → Result TunnelError (Text × RouteMetadata) × TunnelBroker
    → Result TunnelError RouteMetadata × TunnelBroker
heartbeat_found now (err e, b) = (err e, b)
heartbeat_found now (ok (slug, r), b) = elim (inactive r.status) [
  | some e ↦ (err e, b)
  | none ↦ (ok (beat b.config now r), put_route slug (beat b.config now r) b)
]

unfoldable pub heartbeat :
    ℕ → Text → Text → TunnelBroker → Result TunnelError RouteMetadata × TunnelBroker
unfolding heartbeat_found
heartbeat now route_id connection_id b =
    heartbeat_found now (find_by_connection now route_id connection_id b)

-- The rest of `closeRoute`.
unfoldable pub end_found :
    ℕ
    → Result TunnelError (Text × RouteMetadata) × TunnelBroker
    → Result TunnelError Text × TunnelBroker
end_found now (err e, b) = (err e, b)
end_found now (ok (slug, r), b) = (
  ok r.route_slug,
  record (put_route slug (record r { status = closed }) b) {
    targets = delete r.route_slug b.targets;
    relay = Relay.close_route r.route_slug b.relay;
    metered =
        if is_some (lookup r.route_slug b.targets)
        then b.metered
        else b.metered ++ route_ended r.route_slug (now - r.created_at) ∷ [];
  },
)

-- `closeRoute`
unfoldable pub end_route : ℕ → Text → Text → TunnelBroker → Result TunnelError Text × TunnelBroker
unfolding end_found
end_route now route_id connection_id b =
    end_found now (find_by_connection now route_id connection_id b)

unfoldable pub resolve : ℕ → Text → TunnelBroker → Result TunnelError RouteMetadata × TunnelBroker
resolve now slug b =
    let (found, b') = current_route now slug b in
    elim found [
      | none ↦ (err (refuse route_not_found 404), b')
      | some r ↦ elim (inactive r.status) [ some e ↦ (err e, b') | none ↦ (ok r, b') ]
    ]

unfoldable pub refresh_all : BrokerConfig → ℕ → Map RouteMetadata → Map RouteMetadata
unfolding refresh
refresh_all c now [] = []
refresh_all c now ((slug, r) ∷ routes) = (slug, refresh c now r) ∷ refresh_all c now routes

unfoldable pub snapshot : ℕ → TunnelBroker → List RouteMetadata × TunnelBroker
unfolding refresh_all
snapshot now b =
    let routes = refresh_all b.config now b.routes in
    (map (λ e. e.1) routes, record b { routes = routes })

-- A poll marks the host as seen, and touches the route.
unfoldable pub poll_seen : ℕ → Text → RouteMetadata → TunnelBroker → TunnelBroker
poll_seen now slug r b = touch now r.route_slug (put_route slug (mark_host_seen now r) b)

unfoldable pub claim_for :
    ℕ → Text → TunnelBroker → Result TunnelError (Option ForwardedRequest) × TunnelBroker
claim_for now slug b =
    let (request, hub) = Relay.claim now b.relay slug in (ok request, record b { relay = hub })

-- The rest of `claimRelay`.
unfoldable pub claim_found :
    ℕ
    → Result TunnelError (Text × RouteMetadata) × TunnelBroker
    → Result TunnelError (Option ForwardedRequest) × TunnelBroker
unfolding claim_for poll_seen
claim_found now (err e, b) = (err e, b)
claim_found now (ok (slug, r), b) = elim (inactive r.status) [
  | some e ↦ (err e, b)
  | none ↦ claim_for now r.route_slug (poll_seen now slug r b)
]

unfoldable pub claim_relay :
    ℕ → Text → Text → TunnelBroker → Result TunnelError (Option ForwardedRequest) × TunnelBroker
unfolding claim_found
claim_relay now route_id connection_id b =
    claim_found now (find_by_connection now route_id connection_id b)

-- The rest of `respondRelay`.
unfoldable pub respond_found :
    NodeApi
    → Text
    → ForwardedResponse
    → Result TunnelError (Text × RouteMetadata) × TunnelBroker
    → Result TunnelError (Unit {0}) × TunnelBroker
respond_found p request_id response (err e, b) = (err e, b)
respond_found p request_id response (ok _, b) =
    let (r, hub) = Relay.respond p.base64_bytes b.relay request_id response in
    (r, record b { relay = hub })

unfoldable pub respond_relay :
    NodeApi
    → ℕ
    → Text
    → Text
    → Text
    → ForwardedResponse
    → TunnelBroker
    → Result TunnelError (Unit {0}) × TunnelBroker
unfolding respond_found
respond_relay p now route_id connection_id request_id response b =
    respond_found p request_id response (find_by_connection now route_id connection_id b)

-- `forward` up to its first `await`: the guards, then `touch`.
unfoldable pub forward_enter :
    ℕ → RequestGuardInput → TunnelBroker → Result TunnelError Release × TunnelBroker
forward_enter now input b =
    let (entered, guards) = Limits.enter now b.guards input in
    let b' = record b { guards = guards } in
    elim entered [ err e ↦ (err e, b') | ok h ↦ (ok h, touch now input.route_slug b') ]

-- The first check of `forwardViaRelay`, which is made once the meter has admitted the request.
unfoldable pub forward_attended :
    ℕ → Text → TunnelBroker → Result TunnelError (Unit {0}) × TunnelBroker
forward_attended now slug b =
    let (found, b') = current_route now slug b in
    elim found [
      | none ↦ (err (refuse host_unavailable 504), b')
      | some r ↦ if r.host_connected then (ok tt, b') else (err (refuse host_unavailable 504), b')
    ]

-- The request is queued once its body has been read.
unfoldable pub forward_enqueue : ℕ → Text → Text → ForwardedRequest → TunnelBroker → TunnelBroker
forward_enqueue now id slug envelope b = record b {
  relay = Relay.enqueue now id b.relay slug envelope;
}

-- `release()` in the `finally` of `forward`.
unfoldable pub forward_release : Release → TunnelBroker → TunnelBroker
forward_release handle b = record b { guards = (Limits.release b.guards handle).0 }

unfoldable pub target : Text → TunnelBroker → Option Text
target slug b = lookup slug b.targets
