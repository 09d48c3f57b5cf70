-- ===== src/Tests.antt =====
-- The data of the examples: a host's registered routes, a relayed request, a store of limits.
pub mod Tunnel
pub mod Rooms
pub mod Storage
pub mod Forum
pub mod Server
pub mod Stores
use telegent.Base.{Text, codes, length, ℕ, ◌+◌, ◌*◌, ◌/◌, true, false, none, some, [], ◌∷◌}
use telegent.Base.{Option, List}
use telegent.Tunnel.Protocol.{
  RouteMetadata, ForwardedRequest, ForwardedResponse, active, closed, RouteStatus,
}
use telegent.Tunnel.Limits.{RequestGuardInput, broker_limits, new_guards}
use telegent.Tunnel.Relay.{InFlight, RelayHub, RelayOptions, new_hub}
use telegent.Tunnel.Broker.{NodeApi, TunnelBroker, BrokerConfig, TargetUrl, new_broker}
use telegent.Tunnel.Calls.{Call, registers, beats, claims, responds, enqueues, ends, times_out}

abbrev pub parsed : Text → Option TargetUrl
parsed s = some (record { protocol = codes "http"; hostname = codes "localhost" })

-- A parser of URLs that reads every text as one on this machine, and the bytes of padded base64.
abbrev pub node : NodeApi
node = record { parse_url = parsed; base64_bytes = λ s. length s / 4 * 3 }

abbrev pub config : BrokerConfig
config = record { route_ttl_ms = 900000; max_route_lifetime_ms = 28800000; host_grace_ms = 30000 }

abbrev pub relay_options : RelayOptions
relay_options = record {
  claim_timeout_ms = 10000;
  response_timeout_ms = 30000;
  response_body_bytes = 1048576;
}

abbrev pub team : Text
team = codes "team"

abbrev pub lab : Text
lab = codes "lab"

abbrev pub request : Text → Text → ForwardedRequest
request id slug = record {
  request_id = id;
  route_slug = slug;
  method = codes "GET";
  path = codes "/";
  headers = [];
  body_base64 = none;
}

abbrev pub response : ForwardedResponse
response = record { status = 200; headers = []; body_base64 = some (codes "aGk=") }

abbrev pub new : TunnelBroker
new = new_broker config broker_limits relay_options

-- Two routes, three requests, of which one is answered, one times out and one is rejected.
abbrev pub calls : List Call
calls =
    registers 1000 (codes "r1") (codes "c1") team (some (codes "http://localhost:4000"))
    ∷ registers 1500 (codes "r2") (codes "c2") lab none
    ∷ enqueues 2000 (codes "q1") team (request [] team)
    ∷ enqueues 2100 (codes "q2") team (request [] team)
    ∷ enqueues 2200 (codes "q3") lab (request [] lab)
    ∷ claims 3000 (codes "r1") (codes "c1")
    ∷ responds 3500 (codes "r1") (codes "c1") (codes "q1") response
    ∷ times_out (codes "q2")
    ∷ ends 4000 (codes "r2") (codes "c2")
    ∷ []

abbrev pub route : Text → Text → Text → RouteStatus → RouteMetadata
route slug id connection status = record {
  route_slug = slug;
  route_id = id;
  host_connection_id = connection;
  created_at = 1000;
  last_seen_at = 1000;
  last_heartbeat_at = 1000;
  expires_at = 901000;
  status = status;
  host_connected = true;
}

abbrev pub in_flight : Text → Text → InFlight
in_flight id slug = record {
  envelope = request id slug;
  slug = slug;
  claimed = false;
  timer = 12000;
}

-- A request of each of two routes, which wait to be claimed.
abbrev pub hub : RelayHub
hub = record {
  options = relay_options;
  pending = (team, codes "q1" ∷ []) ∷ (lab, codes "q2" ∷ []) ∷ [];
  inflight =
      (codes "q1", in_flight (codes "q1") team) ∷ (codes "q2", in_flight (codes "q2") lab) ∷ [];
  settled = [];
}

abbrev pub broker : TunnelBroker
broker = record {
  config = config;
  guards = new_guards broker_limits;
  relay = hub;
  routes =
      (team, route team (codes "r1") (codes "c1") active)
      ∷ (lab, route lab (codes "r2") (codes "c2") closed)
      ∷ [];
  targets = (team, codes "http://localhost:4000") ∷ [];
  metered = [];
}

abbrev pub asks : Text → RequestGuardInput
asks slug = record {
  route_slug = slug;
  client_ip = codes "10.0.0.1";
  is_wait = true;
  authenticated = false;
}
