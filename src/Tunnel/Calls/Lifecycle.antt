-- ===== src/Tunnel/Calls/Lifecycle.antt =====
-- What the calls of the broker do to the route that a slug holds.
use telegent.Base.{
  Text, text_eq, text_eq_refl, if◌then◌else◌, Option-cases, Result, ok, err, ℕ, ◌≡◌, refl, inl, inr,
  Bool, true, false, none, some, List, [], ◌∷◌, arith,
}
use telegent.Base.Maps.{Map, IsMap, lookup, insert, lookup-insert}
use telegent.Tunnel.Protocol.{
  RouteStatus, RouteMetadata, TunnelError, active, expired, closed, ForwardedResponse,
}
use telegent.Tunnel.Limits
use telegent.Tunnel.Limits.{Release, RequestGuardInput, BrokerGuards}
use telegent.Tunnel.Broker.{
  TunnelBroker, BrokerConfig, NodeApi, refresh, current_route, find_by_connection, mark_host_seen,
}
use telegent.Tunnel.Operations.{
  heartbeat, heartbeat_found, end_found, claim_found, respond_found, end_route, resolve, snapshot,
  claim_relay, respond_relay, forward_enter, forward_attended, forward_enqueue, forward_release,
  refresh_all, inactive,
}
use telegent.Tunnel.Operations.Lookup.{Found, find_by_connection-Found}
use telegent.Tunnel.Operations.Continuity.{
  Advances, Advances-refl, Continues, Follows, AllFollow, refresh-Continues, beat-Continues,
  AllFollow-refl, AllFollow-trans, AllFollow-put, current_route-AllFollow, touch-AllFollow,
}
use telegent.Tunnel.Calls.{
  Call, registers, beats, ends, resolves, snapshots, claims, responds, enters, attends, enqueues,
  releases, times_out, step, run,
}

Advances-closed : (s : RouteStatus) → Advances s closed
Advances-closed active = tt
Advances-closed expired = tt
Advances-closed closed = tt

closed-Continues : (r : RouteMetadata) → Continues r (record r { status = closed })
closed-Continues r = record {
  same_slug = refl;
  same_id = refl;
  same_connection = refl;
  same_creation = refl;
  advances = Advances-closed r.status;
}

seen-Continues : (now : ℕ) (r : RouteMetadata) → Continues r (mark_host_seen now r)
unfolding mark_host_seen
seen-Continues now r = record {
  same_slug = refl;
  same_id = refl;
  same_connection = refl;
  same_creation = refl;
  advances = Advances-refl r.status;
}

-- An operation that works on the route of a host's identifiers, by the cases of what it finds.
module _ (now : ℕ) (id connection : Text) (b : TunnelBroker) (k : IsMap b.routes) where
  found_induction {ℓ} :
      (P : Result TunnelError (Text × RouteMetadata) × TunnelBroker → Type ℓ)
      → ((x : Result TunnelError (Text × RouteMetadata) × TunnelBroker)
          → Found now id connection b x
          → P x)
      → P (find_by_connection now id connection b)
  found_induction P f =
      f (find_by_connection now id connection b) (find_by_connection-Found now id connection b k)

  -- The refreshed route is put back; then the operation may write a continuation of it.
  found-AllFollow :
      (slug : Text) (r r' : RouteMetadata)
      → lookup slug b.routes ≡ some r
      → Continues (refresh b.config now r) r'
      → AllFollow b.routes (insert slug r' (insert slug (refresh b.config now r) b.routes))
  found-AllFollow slug r r' e c =
      AllFollow-trans b.routes (insert slug (refresh b.config now r) b.routes) _
        (AllFollow-put b.routes slug r (refresh b.config now r) e
          (refresh-Continues b.config now r))
        (AllFollow-put (insert slug (refresh b.config now r) b.routes) slug (refresh b.config now r)
          r' (rw (lookup-insert slug slug (refresh b.config now r) b.routes, text_eq_refl slug)) c)

  refreshed-AllFollow :
      (slug : Text) (r : RouteMetadata)
      → lookup slug b.routes ≡ some r
      → AllFollow b.routes (insert slug (refresh b.config now r) b.routes)
  refreshed-AllFollow slug r e =
      AllFollow-put b.routes slug r (refresh b.config now r) e (refresh-Continues b.config now r)

  heartbeat-AllFollow : AllFollow b.routes (heartbeat now id connection b).1.routes
  unfolding heartbeat
  heartbeat-AllFollow =
      found_induction (λ x. AllFollow b.routes (heartbeat_found now x).1.routes) by_found
    where
      by_found :
          (x : Result TunnelError (Text × RouteMetadata) × TunnelBroker)
          → Found now id connection b x
          → AllFollow b.routes (heartbeat_found now x).1.routes
      by_found (err e, b') f = rw f.1 (AllFollow-refl b.routes)
      by_found (ok (slug, r'), b') (r, l, fresh, left, _, _) =
          elim (Option-cases (inactive r'.status)) [
            | inr (e, i) ↦ rw (i, heartbeat_found) (rw (left, fresh) (refreshed-AllFollow slug r l))
            | inl i ↦
                rw (i, heartbeat_found)
                  (rw (left, fresh) (found-AllFollow slug r _ l (beat-Continues b.config now _)))
          ]

  end_route-AllFollow : AllFollow b.routes (end_route now id connection b).1.routes
  unfolding end_route
  end_route-AllFollow =
      found_induction (λ x. AllFollow b.routes (end_found now x).1.routes) by_found
    where
      by_found :
          (x : Result TunnelError (Text × RouteMetadata) × TunnelBroker)
          → Found now id connection b x
          → AllFollow b.routes (end_found now x).1.routes
      by_found (err e, b') f = rw f.1 (AllFollow-refl b.routes)
      by_found (ok (slug, r'), b') (r, l, fresh, left, _, _) =
          rw (left, fresh) (found-AllFollow slug r _ l (closed-Continues (refresh b.config now r)))

  claim_relay-AllFollow : AllFollow b.routes (claim_relay now id connection b).1.routes
  unfolding claim_relay mark_host_seen
  claim_relay-AllFollow =
      found_induction (λ x. AllFollow b.routes (claim_found now x).1.routes) by_found
    where
      by_found :
          (x : Result TunnelError (Text × RouteMetadata) × TunnelBroker)
          → Found now id connection b x
          → AllFollow b.routes (claim_found now x).1.routes
      by_found (err e, b') f = rw f.1 (AllFollow-refl b.routes)
      by_found (ok (slug, r'), b') (r, l, fresh, left, _, _) =
          elim (Option-cases (inactive r'.status)) [
            | inr (e, i) ↦ rw (i, claim_found) (rw (left, fresh) (refreshed-AllFollow slug r l))
            | inl i ↦
                rw (i, claim_found)
                  (rw (left, fresh)
                    (AllFollow-trans b.routes _ _
                      (found-AllFollow slug r _ l (seen-Continues now (refresh b.config now r)))
                      (touch-AllFollow now _ _)))
          ]

  respond_relay-AllFollow :
      (p : NodeApi) (request_id : Text) (response : ForwardedResponse)
      → AllFollow b.routes (respond_relay p now id connection request_id response b).1.routes
  unfolding respond_relay
  respond_relay-AllFollow p request_id response =
      found_induction (λ x. AllFollow b.routes (respond_found p request_id response x).1.routes)
        by_found
    where
      by_found :
          (x : Result TunnelError (Text × RouteMetadata) × TunnelBroker)
          → Found now id connection b x
          → AllFollow b.routes (respond_found p request_id response x).1.routes
      by_found (err e, b') f = rw f.1 (AllFollow-refl b.routes)
      by_found (ok (slug, r'), b') (r, l, fresh, left, _, _) =
          rw (left, fresh) (refreshed-AllFollow slug r l)

resolve-AllFollow :
    (now : ℕ) (slug : Text) (b : TunnelBroker) → AllFollow b.routes (resolve now slug b).1.routes
unfolding resolve
resolve-AllFollow now slug b = rw same (current_route-AllFollow now slug b)
  where
    same : (resolve now slug b).1.routes ≡ (current_route now slug b).1.routes
    same = ground arith

forward_attended-AllFollow :
    (now : ℕ) (slug : Text) (b : TunnelBroker)
    → AllFollow b.routes (forward_attended now slug b).1.routes
unfolding forward_attended
forward_attended-AllFollow now slug b = rw same (current_route-AllFollow now slug b)
  where
    same : (forward_attended now slug b).1.routes ≡ (current_route now slug b).1.routes
    same = ground arith

lookup-refresh_all :
    (c : BrokerConfig) (now : ℕ) (slug : Text) (m : Map RouteMetadata)
    → Follows (lookup slug m) (lookup slug (refresh_all c now m))
unfolding refresh_all lookup
lookup-refresh_all c now slug [] = tt
lookup-refresh_all c now slug ((s, r) ∷ m) =
    elim (text_eq s slug)
      as (λ b.
        Follows (if b then some r else lookup slug m)
          (if b then some (refresh c now r) else lookup slug (refresh_all c now m))) [
            | true ↦ refresh-Continues c now r
            | false ↦ lookup-refresh_all c now slug m
          ]

refresh_all-none :
    (c : BrokerConfig) (now : ℕ) (slug : Text) (m : Map RouteMetadata)
    → lookup slug m ≡ none
    → lookup slug (refresh_all c now m) ≡ none
unfolding refresh_all lookup
refresh_all-none c now slug [] e = refl
refresh_all-none c now slug ((s, r) ∷ m) e = ground (arith, refresh_all-none c now slug m)

refresh_all-IsMap :
    (c : BrokerConfig) (now : ℕ) (m : Map RouteMetadata) → IsMap m → IsMap (refresh_all c now m)
unfolding refresh_all
refresh_all-IsMap c now [] k = tt
refresh_all-IsMap c now ((s, r) ∷ m) k =
    (refresh_all-none c now s m k.0, refresh_all-IsMap c now m k.1)

snapshot-AllFollow : (now : ℕ) (b : TunnelBroker) → AllFollow b.routes (snapshot now b).1.routes
unfolding snapshot
snapshot-AllFollow now b = record {
  at = λ slug. lookup-refresh_all b.config now slug b.routes;
  keeps = refresh_all-IsMap b.config now b.routes;
}

forward_enter-AllFollow :
    (now : ℕ) (input : RequestGuardInput) (b : TunnelBroker)
    → AllFollow b.routes (forward_enter now input b).1.routes
unfolding forward_enter
forward_enter-AllFollow now input b = by_result (Limits.enter now b.guards input) refl
  where
    by_result :
        (x : Result TunnelError Release × BrokerGuards)
        → Limits.enter now b.guards input ≡ x
        → AllFollow b.routes (forward_enter now input b).1.routes
    by_result (err e, g) q = rw (q, forward_enter) (AllFollow-refl b.routes)
    by_result (ok h, g) q =
        rw (q, forward_enter)
          (touch-AllFollow now input.route_slug
            (record b { guards = (Limits.enter now b.guards input).1 }))

abbrev pub is_registration : Call → Bool
is_registration (registers _ _ _ _ _) = true
is_registration _ = false

step-AllFollow :
    (p : NodeApi) (c : Call) (b : TunnelBroker)
    → is_registration c ≡ false
    → IsMap b.routes
    → AllFollow b.routes (step p c b).routes
unfolding step forward_enqueue forward_release
step-AllFollow p (registers now rid cid slug target) b e k = cc
step-AllFollow p (beats now rid cid) b e k = heartbeat-AllFollow now rid cid b k
step-AllFollow p (ends now rid cid) b e k = end_route-AllFollow now rid cid b k
step-AllFollow p (resolves now slug) b e k = resolve-AllFollow now slug b
step-AllFollow p (snapshots now) b e k = snapshot-AllFollow now b
step-AllFollow p (claims now rid cid) b e k = claim_relay-AllFollow now rid cid b k
step-AllFollow p (responds now rid cid id response) b e k =
    respond_relay-AllFollow now rid cid b k p id response
step-AllFollow p (enters now input) b e k = forward_enter-AllFollow now input b
step-AllFollow p (attends now slug) b e k = forward_attended-AllFollow now slug b
step-AllFollow p (enqueues now id slug envelope) b e k = AllFollow-refl b.routes
step-AllFollow p (releases handle) b e k = AllFollow-refl b.routes
step-AllFollow p (times_out id) b e k = AllFollow-refl b.routes

abbrev pub RegistersNone : List Call → Type 0
RegistersNone [] = Unit
RegistersNone (c ∷ cs) = (is_registration c ≡ false) × RegistersNone cs

-- No sequence of calls without a registration brings a route, takes one away, exchanges it, changes
-- its slug, its ids or its time of creation, or brings an expired or closed route back.
pub run-AllFollow :
    (p : NodeApi) (cs : List Call) (b : TunnelBroker)
    → RegistersNone cs
    → IsMap b.routes
    → AllFollow b.routes (run p cs b).routes
unfolding run
run-AllFollow p [] b e k = AllFollow-refl b.routes
run-AllFollow p (c ∷ cs) b e k =
    let now_follows : AllFollow b.routes (step p c b).routes = step-AllFollow p c b e.0 k in
    AllFollow-trans b.routes (step p c b).routes (run p (c ∷ cs) b).routes now_follows
      (run-AllFollow p cs (step p c b) e.1 (now_follows.keeps k))
