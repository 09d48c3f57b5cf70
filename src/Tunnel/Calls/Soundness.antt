-- ===== src/Tunnel/Calls/Soundness.antt =====
-- The relay hub inside the broker: its invariant holds whatever calls reach the broker.
use telegent.Base.{
  Text, Bool-cases, Result, ok, err, occurs, ℕ, ◌≡◌, refl, inl, inr, Option, none, some, List, [],
  ◌∷◌, arith,
}
use telegent.Base.Maps.{lookup}
use telegent.Tunnel.Protocol.{RouteMetadata, TunnelError}
use telegent.Tunnel.Limits.{BrokerLimits, RequestGuardInput, Release}
use telegent.Tunnel.Limits
use telegent.Tunnel.Relay
use telegent.Tunnel.Relay.{RelayOptions, RelayHub}
use telegent.Tunnel.Relay.Settlement.{IsSound, enqueue-IsSound, fail-IsSound}
use telegent.Tunnel.Broker.{
  TunnelBroker, BrokerConfig, NodeApi, new_broker, current_route, find_by_connection,
}
use telegent.Tunnel.Operations.{
  register, heartbeat, end_route, resolve, snapshot, claim_relay, respond_relay, forward_enter,
  forward_attended, forward_enqueue, forward_release, install_route, reclaim, check_registration,
  blocks,
}
use telegent.Tunnel.Calls.{
  Call, registers, beats, ends, resolves, snapshots, claims, responds, enters, attends, enqueues,
  releases, times_out, step, run,
}
use telegent.Tunnel.Calls.Hub.{
  close_route-IsSound, found-relay, current-relay, touch-relay, heartbeat_found-IsSound,
  respond_found-IsSound, end_found-IsSound, claim_found-IsSound,
}

-- The ids of the requests that have been queued, before and after a call.
abbrev pub minted_after : Call → List Text → List Text
minted_after (enqueues now id slug envelope) minted = id ∷ minted
minted_after c minted = minted

-- `mintId` returns each id once.
abbrev pub MintsFresh : List Text → List Call → Type 0
MintsFresh minted [] = Unit
MintsFresh minted (enqueues now id slug envelope ∷ cs) =
    (occurs id minted ≡ 0) × MintsFresh (id ∷ minted) cs
MintsFresh minted (c ∷ cs) = MintsFresh minted cs

reclaim-IsSound :
    (minted : List Text) (slug : Text) (o : Option RouteMetadata) (b : TunnelBroker)
    → IsSound minted b.relay
    → IsSound minted (reclaim slug o b).relay
reclaim-IsSound minted slug none b s = s
reclaim-IsSound minted slug (some r) b s = close_route-IsSound minted slug b.relay s

install-relay :
    (slug : Text) (r : RouteMetadata) (target : Option Text) (b : TunnelBroker)
    → (install_route slug r target b).relay ≡ b.relay
unfolding install_route
install-relay slug r none b = refl
install-relay slug r (some t) b = refl

register-IsSound :
    (minted : List Text) (p : NodeApi) (now : ℕ) (rid cid slug : Text) (target : Option Text)
    (b : TunnelBroker)
    → IsSound minted b.relay
    → IsSound minted (register p now rid cid slug target b).1.relay
unfolding register
register-IsSound minted p now rid cid slug target b s =
    by_check (check_registration p slug target) refl
  where
    kept : IsSound minted (current_route now slug b).1.relay
    kept = rw current-relay s

    by_check :
        (c : Result TunnelError (Unit {0}))
        → check_registration p slug target ≡ c
        → IsSound minted (register p now rid cid slug target b).1.relay
    by_check (err e) q = rw (q, register) s
    by_check (ok _) q = elim (Bool-cases (blocks (current_route now slug b).0)) [
      | inl held ↦ rw (q, register) (rw held kept)
      | inr free ↦
          rw (q, register)
            (rw free (
              rw install-relay (
                reclaim-IsSound minted slug (current_route now slug b).0
                  (current_route now slug b).1 kept)))
    ]

step-IsSound :
    (minted : List Text) (p : NodeApi) (c : Call) (cs : List Call) (b : TunnelBroker)
    → MintsFresh minted (c ∷ cs)
    → IsSound minted b.relay
    → IsSound (minted_after c minted) (step p c b).relay
unfolding step
step-IsSound minted p (registers now rid cid slug target) cs b f s =
    register-IsSound minted p now rid cid slug target b s
step-IsSound minted p (beats now rid cid) cs b f s =
    unfold heartbeat in
    heartbeat_found-IsSound minted now (find_by_connection now rid cid b) (rw found-relay s)
step-IsSound minted p (ends now rid cid) cs b f s =
    unfold end_route in
    end_found-IsSound minted now (find_by_connection now rid cid b) (rw found-relay s)
step-IsSound minted p (resolves now slug) cs b f s = rw same (rw current-relay s)
  where
    same : (resolve now slug b).1.relay ≡ (current_route now slug b).1.relay
    same = unfold resolve in ground arith
step-IsSound minted p (snapshots now) cs b f s = unfold snapshot in s
step-IsSound minted p (claims now rid cid) cs b f s =
    unfold claim_relay in
    claim_found-IsSound minted now (find_by_connection now rid cid b) (rw found-relay s)
step-IsSound minted p (responds now rid cid id response) cs b f s =
    unfold respond_relay in
    respond_found-IsSound minted now (find_by_connection now rid cid b) (rw found-relay s) p id
      response
step-IsSound minted p (enters now input) cs b f s = rw same s
  where
    same : (forward_enter now input b).1.relay ≡ b.relay
    same =
        unfold forward_enter in
        ground (
          arith,
          touch-relay now input.route_slug
              (record b { guards = (Limits.enter now b.guards input).1 }),
        )
step-IsSound minted p (attends now slug) cs b f s = rw same (rw current-relay s)
  where
    same : (forward_attended now slug b).1.relay ≡ (current_route now slug b).1.relay
    same = unfold forward_attended in ground arith
step-IsSound minted p (enqueues now id slug envelope) cs b f s =
    unfold forward_enqueue in enqueue-IsSound minted b.relay s now id slug envelope f.0
step-IsSound minted p (releases handle) cs b f s = unfold forward_release in s
step-IsSound minted p (times_out id) cs b f s =
    unfold Relay.expire in fail-IsSound minted b.relay s id Relay.unattended

abbrev pub minted_in : List Call → List Text → List Text
minted_in [] minted = minted
minted_in (c ∷ cs) minted = minted_in cs (minted_after c minted)

MintsFresh-tail :
    (c : Call) (cs : List Call) (minted : List Text)
    → MintsFresh minted (c ∷ cs)
    → MintsFresh (minted_after c minted) cs
MintsFresh-tail (enqueues now id slug envelope) cs minted f = f.1
MintsFresh-tail (registers _ _ _ _ _) cs minted f = f
MintsFresh-tail _ cs minted f = f

run_on-IsSound :
    (minted : List Text) (p : NodeApi) (cs : List Call) (b : TunnelBroker)
    → MintsFresh minted cs
    → IsSound minted b.relay
    → IsSound (minted_in cs minted) (run p cs b).relay
unfolding run
run_on-IsSound minted p [] b f s = s
run_on-IsSound minted p (c ∷ cs) b f s =
    run_on-IsSound (minted_after c minted) p cs (step p c b) (MintsFresh-tail c cs minted f)
      (step-IsSound minted p c cs b f s)

-- In a new broker, whatever calls follow, in any order and at any times, as long as each request is
-- queued under a new id: every request that was queued is answered once or is still in flight, once,
-- and the queue of each route holds its unclaimed requests in flight, each once, and no other id.
pub run-IsSound :
    (p : NodeApi) (cs : List Call) (c : BrokerConfig) (l : BrokerLimits) (o : RelayOptions)
    → MintsFresh [] cs
    → IsSound (minted_in cs []) (run p cs (new_broker c l o)).relay
unfolding lookup
run-IsSound p cs c l o f = run_on-IsSound [] p cs (new_broker c l o) f (record {
  queued = λ id slug. refl;
  answered = λ id. omega arith;
  fresh = λ id. omega arith;
  tidy = λ slug e. cc;
  keys = tt;
})
