-- ===== src/Tunnel/Broker.antt =====
-- src/tunnel/broker.ts: the state of the class TunnelBroker and its private helpers. Routes are kept
-- by slug. A synchronous operation reads the clock once, as `now`. The ids that `mintId` returns, URL
-- parsing and the byte length of a base64 text are parameters. The metering hooks are recorded, in
-- the order of their calls.
use telegent.Base.{
  Text, codes, text_eq, leb, ◌==◌, if◌then◌else◌, Result, ok, err, includes, ℕ, zero, suc, ◌+◌,
  Bool, true, false, not, ◌&&◌, ◌||◌, Option, none, some, List, [], ◌∷◌,
}
use telegent.Base.Maps.{Map, lookup, insert}
use telegent.Tunnel.Protocol.{
  RouteStatus, RouteMetadata, TunnelError, TunnelErrorCode, active, expired, closed,
  invalid_registration, route_not_found,
}
use telegent.Tunnel.Limits.{BrokerLimits, BrokerGuards, new_guards}
use telegent.Tunnel.Relay.{RelayHub, RelayOptions, new_hub}

-- The parts of a URL that `assertLocalTarget` reads, without the colon behind the protocol.
pub record TargetUrl : Type 0 where
  pub protocol : Text
  pub hostname : Text

-- Node's `new URL(·)` (none where it throws) and `Buffer.byteLength(·, "base64")`.
pub record NodeApi : Type 0 where
  pub parse_url : Text → Option TargetUrl
  pub base64_bytes : Text → ℕ

pub data MeterCall : Type 0 where
  route_registered : Text → MeterCall
  route_ended : Text → ℕ → MeterCall

pub record BrokerConfig : Type 0 where
  pub route_ttl_ms : ℕ
  pub max_route_lifetime_ms : ℕ
  pub host_grace_ms : ℕ

pub record TunnelBroker : Type 0 where
  pub config : BrokerConfig
  pub guards : BrokerGuards
  pub relay : RelayHub
  pub routes : Map RouteMetadata
  pub targets : Map Text
  pub metered : List MeterCall

abbrev pub new_broker : BrokerConfig → BrokerLimits → RelayOptions → TunnelBroker
new_broker c l o = record {
  config = c;
  guards = new_guards l;
  relay = new_hub o;
  routes = [];
  targets = [];
  metered = [];
}

abbrev pub refuse : TunnelErrorCode → ℕ → TunnelError
refuse code status = record { code = code; status = status }

unfoldable pub is_lower_alnum : ℕ → Bool
is_lower_alnum c = leb b'a' c && leb c b'z' || leb b'0' c && leb c b'9'

-- `[a-z0-9-]{0,61}[a-z0-9]` at the end of a text, with `n` of the 61 left.
unfoldable pub slug_tail : ℕ → Text → Bool
unfolding is_lower_alnum
slug_tail n [] = false
slug_tail n (c ∷ []) = is_lower_alnum c
slug_tail zero (c ∷ d ∷ s) = false
slug_tail (suc n) (c ∷ d ∷ s) = (is_lower_alnum c || c == b'-') && slug_tail n (d ∷ s)

-- `/^[a-z0-9](?:[a-z0-9-]{0,61}[a-z0-9])?$/`
unfoldable pub slug_pattern : Text → Bool
unfolding slug_tail
slug_pattern [] = false
slug_pattern (c ∷ []) = is_lower_alnum c
slug_pattern (c ∷ d ∷ s) = is_lower_alnum c && slug_tail 61 (d ∷ s)

abbrev pub local_target_hosts : List Text
local_target_hosts = codes "127.0.0.1" ∷ codes "localhost" ∷ codes "::1" ∷ codes "[::1]" ∷ []

unfoldable pub assert_local_target : NodeApi → Text → Result TunnelError (Unit {0})
assert_local_target p target = elim (p.parse_url target) [
  | none ↦ err (refuse invalid_registration 400)
  | some url ↦
      if not (text_eq url.protocol (codes "http") || text_eq url.protocol (codes "https"))
      then err (refuse invalid_registration 400)
      else if not (includes local_target_hosts url.hostname)
      then err (refuse invalid_registration 400)
      else ok tt
]

-- Whether an active route has run out at `now`.
abbrev pub has_run_out : BrokerConfig → ℕ → RouteMetadata → Bool
has_run_out c now r = leb r.expires_at now || leb (r.created_at + c.max_route_lifetime_ms) now

abbrev pub next_status : BrokerConfig → ℕ → RouteMetadata → RouteStatus → RouteStatus
next_status c now r active = if has_run_out c now r then expired else active
next_status c now r expired = expired
next_status c now r closed = closed

abbrev pub is_active : RouteStatus → Bool
is_active active = true
is_active _ = false

-- `nowMs - lastHeartbeat <= hostGraceMs`, over the integers.
unfoldable pub refresh : BrokerConfig → ℕ → RouteMetadata → RouteMetadata
refresh c now r =
    let s = next_status c now r r.status in
    record r {
      status = s;
      host_connected = is_active s && leb now (r.last_heartbeat_at + c.host_grace_ms);
    }

abbrev pub put_route : Text → RouteMetadata → TunnelBroker → TunnelBroker
put_route slug r b = record b { routes = insert slug r b.routes }

-- The refreshed route stays in the map: `refresh` writes to the stored object.
unfoldable pub current_route : ℕ → Text → TunnelBroker → Option RouteMetadata × TunnelBroker
unfolding refresh
current_route now slug b = elim (lookup slug b.routes) [
  | none ↦ (none, b)
  | some r ↦ let r' = refresh b.config now r in (some r', put_route slug r' b)
]

unfoldable pub find_route : Text → Text → Map RouteMetadata → Option (Text × RouteMetadata)
find_route id connection [] = none
find_route id connection ((slug, r) ∷ routes) =
    if text_eq r.route_id id && text_eq r.host_connection_id connection
    then some (slug, r)
    else find_route id connection routes

-- The key and the refreshed route, which stays in the map.
unfoldable pub find_by_connection :
    ℕ → Text → Text → TunnelBroker → Result TunnelError (Text × RouteMetadata) × TunnelBroker
unfolding find_route refresh
find_by_connection now id connection b = elim (find_route id connection b.routes) [
  | none ↦ (err (refuse route_not_found 404), b)
  | some (slug, r) ↦ let r' = refresh b.config now r in (ok (slug, r'), put_route slug r' b)
]

unfoldable pub mark_host_seen : ℕ → RouteMetadata → RouteMetadata
mark_host_seen now r = record r { last_heartbeat_at = now }

-- What `touch` writes to a route.
abbrev pub touched : BrokerConfig → ℕ → RouteMetadata → RouteMetadata
touched c now r =
    if is_active r.status
    then record r { last_seen_at = now; expires_at = now + c.route_ttl_ms }
    else r

unfoldable pub touch : ℕ → Text → TunnelBroker → TunnelBroker
touch now slug b = elim (lookup slug b.routes) [
  | none ↦ b
  | some r ↦ put_route slug (touched b.config now r) b
]
