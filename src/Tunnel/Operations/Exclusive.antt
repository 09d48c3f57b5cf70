-- ===== src/Tunnel/Operations/Exclusive.antt =====
-- Who may register a slug: `register` on both of its outcomes.
use telegent.Base.{
  Text, text_eq, ltb, leb, sym, ap, ◌∙◌, if◌then◌else◌, Option-cases, is_some, ok, err, ℕ, ◌+◌, ◌≡◌,
  refl, inl, inr, Bool, true, false, ◌&&◌, Option, none, some, arith,
}
use telegent.Base.Maps.{lookup, lookup-insert, lookup-delete}
use telegent.Tunnel.Protocol.{RouteMetadata, RouteStatus, active, expired, closed, route_slug_taken}
use telegent.Tunnel.Relay
use telegent.Tunnel.Broker.{
  TunnelBroker, BrokerConfig, NodeApi, refuse, refresh, current_route, next_status, is_active,
}
use telegent.Tunnel.Operations.Continuity.{AllFollow, current_route-AllFollow}
use telegent.Tunnel.Operations.{
  register, check_registration, install_route, reclaim, new_route, blocks,
}

-- A route holds its slug: it is active, neither idle for too long nor at the end of its lifetime, and
-- its host was seen within the grace window.
abbrev pub holds : BrokerConfig → ℕ → Option RouteMetadata → Bool
holds c now none = false
holds c now (some r) = elim r.status [
  | active ↦
      ltb now r.expires_at
      && ltb now (r.created_at + c.max_route_lifetime_ms)
      && leb now (r.last_heartbeat_at + c.host_grace_ms)
  | expired ↦ false
  | closed ↦ false
]

blocks-refresh :
    (c : BrokerConfig) (now : ℕ) (r : RouteMetadata)
    → blocks (some (refresh c now r)) ≡ holds c now (some r)
unfolding refresh
blocks-refresh c now r = ground arith

pub current_route-holds :
    (now : ℕ) (slug : Text) (b : TunnelBroker)
    → blocks (current_route now slug b).0 ≡ holds b.config now (lookup slug b.routes)
unfolding current_route
current_route-holds now slug b = elim (Option-cases (lookup slug b.routes)) [
  | inl e ↦ rw (e, current_route) refl
  | inr (r, e) ↦ rw (e, current_route) (blocks-refresh b.config now r)
]

current_route-kept :
    (now : ℕ) (slug s : Text) (b : TunnelBroker)
    → text_eq slug s ≡ false
    → lookup s (current_route now slug b).1.routes ≡ lookup s b.routes
unfolding current_route
current_route-kept now slug s b e = elim (Option-cases (lookup slug b.routes)) [
  | inl none_there ↦ rw (none_there, current_route) refl
  | inr (r, there) ↦
      rw (there, current_route)
        (rw (lookup-insert slug s (refresh b.config now r) b.routes, e) refl)
]

-- A route that holds its slug, with its host counted as connected: nothing else of it is new.
abbrev pub seen : Option RouteMetadata → Option RouteMetadata
seen none = none
seen (some r) = some (record r { host_connected = true })

refresh-seen :
    (c : BrokerConfig) (now : ℕ) (r : RouteMetadata)
    → holds c now (some r) ≡ true
    → refresh c now r ≡ record r { host_connected = true }
unfolding refresh
refresh-seen c now r h = let (same, alive) = by_status r.status refl in rw (alive, same) refl
  where
    by_status :
        (t : RouteStatus)
        → r.status ≡ t
        → (next_status c now r r.status ≡ r.status)
          × ((is_active (next_status c now r r.status)
                && leb now (r.last_heartbeat_at + c.host_grace_ms))
              ≡ true)
    by_status active e = (rw e (ground (arith, h)), rw e (ground (arith, h)))
    by_status expired e = absurd (ground (arith, h, e))
    by_status closed e = absurd (ground (arith, h, e))

current_route-seen :
    (now : ℕ) (slug s : Text) (b : TunnelBroker)
    → holds b.config now (lookup slug b.routes) ≡ true
    → lookup s (current_route now slug b).1.routes
      ≡ (if text_eq slug s then seen (lookup slug b.routes) else lookup s b.routes)
unfolding current_route
current_route-seen now slug s b h = elim (Option-cases (lookup slug b.routes)) [
  | inl e ↦ let f : _ = rw e at h in cc
  | inr (r, e) ↦
      let f : holds b.config now (some r) ≡ true = ap (holds b.config now) (sym e) ∙ h in
      rw (e, current_route)
        (rw (lookup-insert slug s (refresh b.config now r) b.routes)
          (rw (refresh-seen b.config now r f) refl))
]

-- `currentRoute` writes to the routes alone, and finds one where there is one.
current_route-rest :
    (now : ℕ) (slug : Text) (b : TunnelBroker)
    → let b' = (current_route now slug b).1 in
      (b'.targets ≡ b.targets)
      × (b'.relay ≡ b.relay)
      × (b'.metered ≡ b.metered)
      × (b'.guards ≡ b.guards)
      × (is_some (current_route now slug b).0 ≡ is_some (lookup slug b.routes))
unfolding current_route
current_route-rest now slug b = ground arith

reclaim-rest :
    (slug : Text) (o : Option RouteMetadata) (b : TunnelBroker)
    → ((reclaim slug o b).routes ≡ b.routes)
      × ((reclaim slug o b).targets ≡ b.targets)
      × ((reclaim slug o b).relay ≡ (if is_some o then Relay.close_route slug b.relay else b.relay))
reclaim-rest slug none b = (refl, refl, refl)
reclaim-rest slug (some r) b = (refl, refl, refl)

install-routes :
    (slug s : Text) (r : RouteMetadata) (target : Option Text) (b : TunnelBroker)
    → lookup s (install_route slug r target b).routes
      ≡ (if text_eq slug s then some r else lookup s b.routes)
unfolding install_route
install-routes slug s r none b = lookup-insert slug s r b.routes
install-routes slug s r (some t) b = lookup-insert slug s r b.routes

install-targets :
    (slug s : Text) (r : RouteMetadata) (target : Option Text) (b : TunnelBroker)
    → lookup s (install_route slug r target b).targets
      ≡ (if text_eq slug s then target else lookup s b.targets)
unfolding install_route
install-targets slug s r none b = lookup-delete slug s b.targets
install-targets slug s r (some t) b = lookup-insert slug s t b.targets

install-relay :
    (slug : Text) (r : RouteMetadata) (target : Option Text) (b : TunnelBroker)
    → (install_route slug r target b).relay ≡ b.relay
unfolding install_route
install-relay slug r none b = refl
install-relay slug r (some t) b = refl

module _ (p : NodeApi) (now : ℕ) (rid cid slug : Text) (target : Option Text) (b : TunnelBroker)
    (valid : check_registration p slug target ≡ ok tt) where
  -- While a route holds the slug, a valid registration is refused with 409. Every other slug holds what
  -- it held, and the route of this one is as it was, its times and its ids included, but that its host
  -- is shown as connected; no target, request in flight or metered call changes.
  pub register_held :
      holds b.config now (lookup slug b.routes) ≡ true
      → let r = register p now rid cid slug target b in
        (r.0 ≡ err (refuse route_slug_taken 409))
        × AllFollow b.routes r.1.routes
        × ((s : Text)
            → lookup s r.1.routes
              ≡ (if text_eq slug s then seen (lookup slug b.routes) else lookup s b.routes))
        × (r.1.targets ≡ b.targets)
        × (r.1.relay ≡ b.relay)
        × (r.1.metered ≡ b.metered)
  unfolding register
  register_held h =
      rw (valid, register)
        (rw (current_route-holds now slug b) (
          rw h (
            refl,
            current_route-AllFollow now slug b,
            λ s. current_route-seen now slug s b h,
            (current_route-rest now slug b).0,
            (current_route-rest now slug b).1,
            (current_route-rest now slug b).2,
          )))

  -- Otherwise it succeeds: the slug holds the new route and its target, or none; every other slug
  -- holds what it held; the requests in flight for a route that it replaces are rejected.
  pub register_free :
      holds b.config now (lookup slug b.routes) ≡ false
      → let r = register p now rid cid slug target b in
        (r.0 ≡ ok (new_route b.config now slug rid cid))
        × ((s : Text)
            → lookup s r.1.routes ≡ (
                if text_eq slug s
                then some (new_route b.config now slug rid cid)
                else lookup s b.routes))
        × ((s : Text)
            → lookup s r.1.targets ≡ (if text_eq slug s then target else lookup s b.targets))
        × (r.1.relay
            ≡ (if is_some (lookup slug b.routes) then Relay.close_route slug b.relay else b.relay))
  unfolding register
  register_free h =
      rw (valid, register)
        (rw (current_route-holds now slug b) (
          rw h (
            refl,
            λ s. rw install-routes (
                ground (
                  arith,
                  reclaim-rest slug (current_route now slug b).0 (current_route now slug b).1,
                  current_route-kept now slug s b,
                )),
            λ s. rw install-targets (
                ground (
                  arith,
                  reclaim-rest slug (current_route now slug b).0 (current_route now slug b).1,
                  current_route-rest now slug b,
                )),
            rw install-relay (
                ground (
                  arith,
                  reclaim-rest slug (current_route now slug b).0 (current_route now slug b).1,
                  current_route-rest now slug b,
                )),
          )))
