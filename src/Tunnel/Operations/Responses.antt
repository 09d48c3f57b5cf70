-- ===== src/Tunnel/Operations/Responses.antt =====
-- Which host may answer a request that is in flight.
use telegent.Base.{Text, ok, ℕ, ◌≤◌, ◌≡◌, ◌≢◌, some, [], ◌∷◌, ◌++◌, arith}
use telegent.Base.Maps.{lookup}
use telegent.Tunnel.Protocol.{RouteMetadata, ForwardedResponse}
use telegent.Tunnel.Relay
use telegent.Tunnel.Relay.{InFlight, body_bytes}
use telegent.Tunnel.Broker.{TunnelBroker, NodeApi, find_route, find_by_connection}
use telegent.Tunnel.Operations.{respond_relay}

-- The identifiers of any registered route, closed or not, answer the request of any other: the
-- request of another route is settled with the response that was posted.
pub respond_relay_crosses_routes :
    (p : NodeApi) (now : ℕ) (id connection slug request_id : Text) (r : RouteMetadata)
    (response : ForwardedResponse) (item : InFlight) (b : TunnelBroker)
    → find_route id connection b.routes ≡ some (slug, r)
    → lookup request_id b.relay.inflight ≡ some item
    → item.slug ≢ r.route_slug
    → body_bytes p.base64_bytes response ≤ b.relay.options.response_body_bytes
    → let done = respond_relay p now id connection request_id response b in
      (done.0 ≡ ok tt) × (done.1.relay.settled ≡ b.relay.settled ++ (request_id, ok response) ∷ [])
unfolding respond_relay find_by_connection Relay.respond Relay.remove
respond_relay_crosses_routes p now id connection slug request_id r response item b f l other fits =
    ground arith
