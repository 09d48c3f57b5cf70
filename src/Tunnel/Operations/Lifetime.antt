-- ===== src/Tunnel/Operations/Lifetime.antt =====
-- How long a route lives: what a heartbeat buys, and when a route resolves.
use telegent.Base.{
  Text, text_eq_refl, ltb, if◌then◌else◌, Option-cases, Result, ok, err, ℕ, ◌+◌, ◌≤◌, ◌<◌, ◌≡◌,
  refl, ◌≢◌, ◌⊎◌, inl, inr, Bool, true, false, ◌&&◌, Option, none, some, arith,
}
use telegent.Base.Maps.{IsMap, lookup, lookup-insert}
use telegent.Tunnel.Protocol.{
  RouteStatus, RouteMetadata, TunnelError, active, expired, closed, route_not_found, route_closed,
  route_expired,
}
use telegent.Tunnel.Broker.{
  TunnelBroker, BrokerConfig, refuse, refresh, current_route, find_by_connection, mark_host_seen,
}
use telegent.Tunnel.Operations.Lookup.{Found, find_by_connection-Found}
use telegent.Tunnel.Operations.{heartbeat, heartbeat_found, resolve, beat, inactive}

abbrev pub is_ok {ℓ κ} : {E : Type ℓ} {A : Type κ} → Result E A → Bool
is_ok (ok a) = true
is_ok (err e) = false

-- The answer of `resolve` for the route that a slug holds, computed from its stored status, its
-- times and the clock.
abbrev pub resolution : BrokerConfig → ℕ → Option RouteMetadata → Result TunnelError RouteStatus
resolution c now none = err (refuse route_not_found 404)
resolution c now (some r) = elim r.status [
  | closed ↦ err (refuse route_closed 410)
  | expired ↦ err (refuse route_expired 410)
  | active ↦
      if ltb now r.expires_at && ltb now (r.created_at + c.max_route_lifetime_ms)
      then ok active
      else err (refuse route_expired 410)
]

abbrev pub status_of : Result TunnelError RouteMetadata → Result TunnelError RouteStatus
status_of (ok r) = ok r.status
status_of (err e) = err e

-- `resolve` on every branch: a slug resolves just while it holds an active route whose idle timer
-- and whose lifetime run, and a closed route, an expired one and none have each their own error.
pub resolve-resolution :
    (now : ℕ) (slug : Text) (b : TunnelBroker)
    → status_of (resolve now slug b).0 ≡ resolution b.config now (lookup slug b.routes)
unfolding resolve current_route refresh
resolve-resolution now slug b = elim (Option-cases (lookup slug b.routes)) [
  | inl e ↦ rw (e, resolve) (ground arith)
  | inr (r, e) ↦ rw (e, resolve) (ground arith)
]

-- What an accepted heartbeat leaves: an active route under a slug, with its timers anew.
abbrev Alive : ℕ → TunnelBroker → RouteMetadata → TunnelBroker → Type 0
Alive now b r b' =
    (slug : Text) × (lookup slug b'.routes ≡ some r)
    × (b'.config ≡ b.config)
    × (r.expires_at ≡ now + b.config.route_ttl_ms)
    × ((r.status ≡ active) ⊎ (b.config.route_ttl_ms ≡ 0))
    × (now < r.created_at + b.config.max_route_lifetime_ms)
    × (r.status ≢ closed)

abbrev Beaten : ℕ → TunnelBroker → Result TunnelError RouteMetadata × TunnelBroker → Type 0
Beaten now b (err e, b') = Unit {0}
Beaten now b (ok r, b') = Alive now b r b'

heartbeat_found-Beaten :
    (now : ℕ) (id connection : Text) (b : TunnelBroker)
    (x : Result TunnelError (Text × RouteMetadata) × TunnelBroker)
    → Found now id connection b x
    → Beaten now b (heartbeat_found now x)
unfolding heartbeat_found beat refresh mark_host_seen
heartbeat_found-Beaten now id connection b (err e, b') f = tt
heartbeat_found-Beaten now id connection b (ok (slug, r'), b') (r, l, fresh, left, _, _) =
    elim (Option-cases (inactive r'.status)) [
      | inr (e, i) ↦ rw (i, heartbeat_found) tt
      | inl i ↦
          rw (i, heartbeat_found)
            (
              slug,
              rw lookup-insert (rw (text_eq_refl slug) refl),
              ground arith,
              ground arith,
              ground arith,
              ground arith,
              ground arith,
            )
    ]

-- After an accepted heartbeat, and with no call in between, the route resolves at any later time `t`
-- exactly while `t` is before the end of the idle time, counted from the heartbeat, and before the
-- end of the route's lifetime, counted from its creation.
pub heartbeat_lifetime :
    (now t : ℕ) (id connection : Text) (b : TunnelBroker) (r : RouteMetadata)
    → IsMap b.routes
    → (heartbeat now id connection b).0 ≡ ok r
    → now ≤ t
    → (slug : Text) × (lookup slug (heartbeat now id connection b).1.routes ≡ some r)
      × (is_ok (resolve t slug (heartbeat now id connection b).1).0 ≡ (
          ltb t (now + b.config.route_ttl_ms)
          && ltb t (r.created_at + b.config.max_route_lifetime_ms)))
unfolding heartbeat
heartbeat_lifetime now t id connection b r k e later =
    by_result (heartbeat_found now (find_by_connection now id connection b))
      (heartbeat_found-Beaten now id connection b (find_by_connection now id connection b)
        (find_by_connection-Found now id connection b k))
      e
  where
    by_result :
        (x : Result TunnelError RouteMetadata × TunnelBroker)
        → Beaten now b x
        → x.0 ≡ ok r
        → (slug : Text) × (lookup slug x.1.routes ≡ some r)
          × (is_ok (resolve t slug x.1).0 ≡ (
              ltb t (now + b.config.route_ttl_ms)
              && ltb t (r.created_at + b.config.max_route_lifetime_ms)))
    by_result (err e', b') f q = cc
    by_result (ok r', b') (slug, l, same, expiry, alive, young, open_still) q =
        (slug, ground arith, ground (arith, resolve-resolution t slug b'))
