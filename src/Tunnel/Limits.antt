-- ===== src/Tunnel/Limits.antt =====
-- src/tunnel/limits.ts: the broker's guards, which admit a request by its rate and concurrency.
-- The clock is read once for an operation. Counts stay far below 2 ^ 53, so ℕ stands for number.
pub mod Rates
pub mod Concurrency
use telegent.Base.{
  Text, ℕ, ◌+◌, ◌-◌, ◌*◌, Bool, true, false, not, ◌&&◌, Option, none, some, List, [], ◌∷◌, ltb, leb,
  ◌==◌, if◌then◌else◌, or_else, Result, ok, err,
}
use telegent.Base.Maps.{Map, lookup, insert, delete}
use telegent.Tunnel.Protocol.{
  TunnelError, TunnelErrorCode, rate_limited, route_request_limit, wait_limit, request_too_large,
}

pub record BrokerLimits : Type 0 where
  pub host_connections_per_route : ℕ
  pub concurrent_requests_per_route : ℕ
  pub concurrent_waits_per_route : ℕ
  pub request_body_bytes : ℕ
  pub response_body_bytes : ℕ
  pub idle_timeout_ms : ℕ
  pub max_route_lifetime_ms : ℕ
  pub unauthenticated_per_ip_per_minute : ℕ
  pub requests_per_route_per_minute : ℕ

abbrev pub broker_limits : BrokerLimits
broker_limits = record {
  host_connections_per_route = 1;
  concurrent_requests_per_route = 64;
  concurrent_waits_per_route = 32;
  request_body_bytes = 64 * 1024;
  response_body_bytes = 1024 * 1024;
  idle_timeout_ms = 15 * 60000;
  max_route_lifetime_ms = 8 * 60 * 60000;
  unauthenticated_per_ip_per_minute = 60;
  requests_per_route_per_minute = 600;
}

abbrev pub rate_window_ms : ℕ
rate_window_ms = 60000

pub record InFlight : Type 0 where
  pub total : ℕ
  pub waits : ℕ

pub record RateWindow : Type 0 where
  pub reset_at : ℕ
  pub count : ℕ

pub record RequestGuardInput : Type 0 where
  pub route_slug : Text
  pub client_ip : Text
  pub is_wait : Bool
  pub authenticated : Bool

pub record BrokerGuards : Type 0 where
  pub limits : BrokerLimits
  pub inflight : Map InFlight
  pub route_rate : Map RateWindow
  pub ip_rate : Map RateWindow

abbrev pub new_guards : BrokerLimits → BrokerGuards
new_guards l = record { limits = l; inflight = []; route_rate = []; ip_rate = [] }

-- `limitError`: 413 for a request that is too large, 429 for the others.
unfoldable pub limit_error : TunnelErrorCode → TunnelError
limit_error request_too_large = record { code = request_too_large; status = 413 }
limit_error code = record { code = code; status = 429 }

-- The body of `admitRate` for the window that it found under the key.
unfoldable pub admit_window :
    ℕ → ℕ → TunnelErrorCode → Option RateWindow → Result TunnelError RateWindow
admit_window now per_minute code none = ok (record { reset_at = now + rate_window_ms; count = 1 })
admit_window now per_minute code (some w) =
    if leb w.reset_at now
    then ok (record { reset_at = now + rate_window_ms; count = 1 })
    else if leb per_minute w.count
    then err (limit_error code)
    else ok (record w { count = w.count + 1 })

unfoldable pub admit_rate :
    ℕ → Map RateWindow → Text → ℕ → TunnelErrorCode → Result TunnelError (Map RateWindow)
admit_rate now windows key per_minute code =
    elim (admit_window now per_minute code (lookup key windows)) [
      | ok w ↦ ok (insert key w windows)
      | err e ↦ err e
    ]

-- What `enter` hands back: the closure's captured input, and its `released` flag.
pub record Release : Type 0 where
  pub input : RequestGuardInput
  pub released : Bool

abbrev pub idle : InFlight
idle = record { total = 0; waits = 0 }

abbrev pub counts_of : BrokerGuards → Text → InFlight
counts_of g slug = or_else (lookup slug g.inflight) idle

-- The part of `enter` behind the rate checks.
unfoldable pub admit_concurrency :
    BrokerGuards → RequestGuardInput → Result TunnelError Release × BrokerGuards
admit_concurrency g input =
    let counts = counts_of g input.route_slug in
    if leb g.limits.concurrent_requests_per_route counts.total
    then (err (limit_error route_request_limit), g)
    else if input.is_wait && leb g.limits.concurrent_waits_per_route counts.waits
    then (err (limit_error wait_limit), g)
    else (
      ok (record { input = input; released = false }),
      record g {
        inflight =
            insert input.route_slug
              (record {
                total = counts.total + 1;
                waits = if input.is_wait then counts.waits + 1 else counts.waits;
              })
              g.inflight;
      },
    )

-- The check by address, for a request with no credentials.
unfoldable pub admit_ip : ℕ → BrokerGuards → RequestGuardInput → Result TunnelError BrokerGuards
admit_ip now g input =
    if input.authenticated
    then ok g
    else elim (admit_rate now g.ip_rate input.client_ip g.limits.unauthenticated_per_ip_per_minute
        rate_limited) [ ok windows ↦ ok (record g { ip_rate = windows }) | err e ↦ err e ]

-- A throw keeps what was written before it: the route's window, then the address's.
unfoldable pub enter :
    ℕ → BrokerGuards → RequestGuardInput → Result TunnelError Release × BrokerGuards
unfolding admit_ip admit_concurrency
enter now g input =
    elim (admit_rate now g.route_rate input.route_slug g.limits.requests_per_route_per_minute
      rate_limited) [
        | err e ↦ (err e, g)
        | ok windows ↦
            let counted = record g { route_rate = windows } in
            elim (admit_ip now counted input) [
              | err e ↦ (err e, counted)
              | ok admitted ↦ admit_concurrency admitted input
            ]
      ]

-- The counts after one request of theirs has ended. (`-` stops at 0, as `Math.max(0, …)` does.)
unfoldable pub settle_counts : Bool → InFlight → InFlight
settle_counts is_wait c = record {
  total = c.total - 1;
  waits = if is_wait then c.waits - 1 else c.waits;
}

unfoldable pub release_counts : BrokerGuards → RequestGuardInput → Option InFlight → BrokerGuards
release_counts g input none = g
release_counts g input (some c) =
    let left = settle_counts input.is_wait c in
    if left.total == 0 && left.waits == 0
    then record g { inflight = delete input.route_slug g.inflight }
    else record g { inflight = insert input.route_slug left g.inflight }

-- The call of the handle that `enter` returned.
unfoldable pub release : BrokerGuards → Release → BrokerGuards × Release
unfolding release_counts settle_counts
release g handle = if handle.released then (g, handle) else (
  release_counts g handle.input (lookup handle.input.route_slug g.inflight),
  record handle { released = true },
)
