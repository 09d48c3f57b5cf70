-- ===== src/Tunnel/Calls/Hub.antt =====
-- What the operations of the broker do to its relay hub.
use telegent.Base.{
  Text, Option-cases, Result, ok, err, ℕ, ◌≡◌, refl, sym, subst, inl, inr, List, arith,
}
use telegent.Tunnel.Protocol.{RouteMetadata, TunnelError, ForwardedResponse}
use telegent.Tunnel.Relay
use telegent.Tunnel.Relay.{RelayOptions, RelayHub}
use telegent.Tunnel.Relay.Settlement.{IsSound, respond-IsSound, close_entries-IsSound}
use telegent.Tunnel.Relay.Claims.{claim-IsSound}
use telegent.Tunnel.Broker.{TunnelBroker, NodeApi, current_route, find_by_connection, touch}
use telegent.Tunnel.Operations.{heartbeat_found, end_found, claim_found, respond_found, inactive}

pub close_route-IsSound :
    (minted : List Text) (slug : Text) (h : RelayHub)
    → IsSound minted h
    → IsSound minted (Relay.close_route slug h)
unfolding Relay.close_route
close_route-IsSound minted slug h s = close_entries-IsSound minted slug h.inflight h s

pub found-relay :
    (now : ℕ) (id connection : Text) (b : TunnelBroker)
    → (find_by_connection now id connection b).1.relay ≡ b.relay
unfolding find_by_connection
found-relay now id connection b = ground arith

pub current-relay :
    (now : ℕ) (slug : Text) (b : TunnelBroker) → (current_route now slug b).1.relay ≡ b.relay
unfolding current_route
current-relay now slug b = ground arith

pub touch-relay : (now : ℕ) (slug : Text) (b : TunnelBroker) → (touch now slug b).relay ≡ b.relay
unfolding touch
touch-relay now slug b = ground arith

-- The rest of each operation that begins with `findByConnection`, on what that returned.
module _ (minted : List Text) (now : ℕ)
    (x : Result TunnelError (Text × RouteMetadata) × TunnelBroker)
    (s : IsSound minted x.1.relay) where
  pub heartbeat_found-IsSound : IsSound minted (heartbeat_found now x).1.relay
  heartbeat_found-IsSound = subst (λ (h : RelayHub). IsSound minted h) (sym (same x)) s
    where
      same :
          (y : Result TunnelError (Text × RouteMetadata) × TunnelBroker)
          → (heartbeat_found now y).1.relay ≡ y.1.relay
      same (err e, b) = unfold heartbeat_found in refl
      same (ok (slug, r), b) = unfold heartbeat_found in ground arith

  pub respond_found-IsSound :
      (p : NodeApi) (id : Text) (r : ForwardedResponse)
      → IsSound minted (respond_found p id r x).1.relay
  respond_found-IsSound p id r = by_found x s
    where
      by_found :
          (y : Result TunnelError (Text × RouteMetadata) × TunnelBroker)
          → IsSound minted y.1.relay
          → IsSound minted (respond_found p id r y).1.relay
      by_found (err e, b) h = unfold respond_found in h
      by_found (ok _, b) h =
          unfold respond_found in respond-IsSound minted b.relay h p.base64_bytes id r

  pub end_found-IsSound : IsSound minted (end_found now x).1.relay
  end_found-IsSound = by_found x s
    where
      by_found :
          (y : Result TunnelError (Text × RouteMetadata) × TunnelBroker)
          → IsSound minted y.1.relay
          → IsSound minted (end_found now y).1.relay
      by_found (err e, b) h = unfold end_found in h
      by_found (ok (slug, r), b) h =
          unfold end_found in close_route-IsSound minted r.route_slug b.relay h

  pub claim_found-IsSound : IsSound minted (claim_found now x).1.relay
  claim_found-IsSound = by_found x s
    where
      by_found :
          (y : Result TunnelError (Text × RouteMetadata) × TunnelBroker)
          → IsSound minted y.1.relay
          → IsSound minted (claim_found now y).1.relay
      by_found (err e, b) h = unfold claim_found in h
      by_found (ok (slug, r), b) h = elim (Option-cases (inactive r.status)) [
        | inr (e, i) ↦ unfold claim_found in rw (i, claim_found) h
        | inl i ↦
            unfold claim_found in
            rw (i, claim_found) (claim-IsSound minted _ (rw touch-relay h) now r.route_slug)
      ]
