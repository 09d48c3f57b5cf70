-- ===== src/Tunnel/Operations/Continuity.antt =====
-- The life of a route: its status, and the routes before and after a change.
use telegent.Base.{
  Text, text_eq, text_eq→eq, if◌then◌else◌, Bool-cases, Option-cases, ℕ, ◌+◌, ◌≡◌, refl, ◌∙◌, inl,
  inr, true, false, Option, none, some,
}
use telegent.Base.Maps.{Map, IsMap, lookup, insert, lookup-insert, insert-IsMap}
use telegent.Tunnel.Protocol.{RouteStatus, RouteMetadata, active, expired, closed}
use telegent.Tunnel.Broker.{
  TunnelBroker, BrokerConfig, refresh, current_route, mark_host_seen, touch, touched, next_status,
  is_active,
}
use telegent.Tunnel.Operations.{beat}

-- A status never goes back: an expired route may be closed, a closed one stays closed.
abbrev pub Advances : RouteStatus → RouteStatus → Type 0
Advances active _ = Unit
Advances expired active = ⊥
Advances expired _ = Unit
Advances closed closed = Unit
Advances closed _ = ⊥

-- The same registration, later.
pub record Continues (r r' : RouteMetadata) : Type 0 where
  pub same_slug : r'.route_slug ≡ r.route_slug
  pub same_id : r'.route_id ≡ r.route_id
  pub same_connection : r'.host_connection_id ≡ r.host_connection_id
  pub same_creation : r'.created_at ≡ r.created_at
  pub advances : Advances r.status r'.status

-- What a slug holds before and after: no route comes, goes or is exchanged.
abbrev pub Follows : Option RouteMetadata → Option RouteMetadata → Type 0
Follows none none = Unit
Follows (some r) (some r') = Continues r r'
Follows _ _ = ⊥

pub Advances-refl : (s : RouteStatus) → Advances s s
Advances-refl active = tt
Advances-refl expired = tt
Advances-refl closed = tt

Advances-trans : (s t u : RouteStatus) → Advances s t → Advances t u → Advances s u
Advances-trans active t u h k = tt
Advances-trans expired expired u h k = k
Advances-trans expired closed closed h k = tt
Advances-trans closed closed closed h k = tt
Advances-trans expired active u h k = absurd h
Advances-trans expired closed active h k = absurd k
Advances-trans expired closed expired h k = absurd k
Advances-trans closed active u h k = absurd h
Advances-trans closed expired u h k = absurd h
Advances-trans closed closed active h k = absurd k
Advances-trans closed closed expired h k = absurd k

Advances-next :
    (c : BrokerConfig) (now : ℕ) (r : RouteMetadata) (s : RouteStatus)
    → Advances s (next_status c now r s)
Advances-next c now r active = tt
Advances-next c now r expired = tt
Advances-next c now r closed = tt

pub Continues-refl : (r : RouteMetadata) → Continues r r
Continues-refl r = record {
  same_slug = refl;
  same_id = refl;
  same_connection = refl;
  same_creation = refl;
  advances = Advances-refl r.status;
}

pub Continues-trans : {r s t : RouteMetadata} → Continues r s → Continues s t → Continues r t
Continues-trans {r} {s} {t} h k = record {
  same_slug = k.same_slug ∙ h.same_slug;
  same_id = k.same_id ∙ h.same_id;
  same_connection = k.same_connection ∙ h.same_connection;
  same_creation = k.same_creation ∙ h.same_creation;
  advances = Advances-trans r.status s.status t.status h.advances k.advances;
}

pub refresh-Continues :
    (c : BrokerConfig) (now : ℕ) (r : RouteMetadata) → Continues r (refresh c now r)
unfolding refresh
refresh-Continues c now r = record {
  same_slug = refl;
  same_id = refl;
  same_connection = refl;
  same_creation = refl;
  advances = Advances-next c now r r.status;
}

pub beat-Continues : (c : BrokerConfig) (now : ℕ) (r : RouteMetadata) → Continues r (beat c now r)
unfolding beat refresh mark_host_seen
beat-Continues c now r = record {
  same_slug = refl;
  same_id = refl;
  same_connection = refl;
  same_creation = refl;
  advances =
      Advances-next c now
        (mark_host_seen now (record r { last_seen_at = now; expires_at = now + c.route_ttl_ms }))
        r.status;
}

pub touched-Continues :
    (c : BrokerConfig) (now : ℕ) (r : RouteMetadata) → Continues r (touched c now r)
touched-Continues c now r =
    elim (is_active r.status)
      as (λ b.
        Continues r
          (if b then record r { last_seen_at = now; expires_at = now + c.route_ttl_ms } else r)) [
            | true ↦ record {
              same_slug = refl;
              same_id = refl;
              same_connection = refl;
              same_creation = refl;
              advances = Advances-refl r.status;
            }
            | false ↦ Continues-refl r
          ]

-- Two maps of routes, before and after a call: each slug holds what it held, later.
pub record AllFollow (m n : Map RouteMetadata) : Type 0 where
  pub at : (slug : Text) → Follows (lookup slug m) (lookup slug n)
  pub keeps : IsMap m → IsMap n

pub Follows-refl : (o : Option RouteMetadata) → Follows o o
Follows-refl none = tt
Follows-refl (some r) = Continues-refl r

pub Follows-trans : (o p q : Option RouteMetadata) → Follows o p → Follows p q → Follows o q
Follows-trans none none q h k = k
Follows-trans (some r) (some s) (some t) h k = Continues-trans h k
Follows-trans none (some s) q h k = absurd h
Follows-trans (some r) none q h k = absurd h
Follows-trans (some r) (some s) none h k = absurd k

pub AllFollow-refl : (m : Map RouteMetadata) → AllFollow m m
AllFollow-refl m = record { at = λ slug. Follows-refl (lookup slug m); keeps = λ k. k }

pub AllFollow-trans : (l m n : Map RouteMetadata) → AllFollow l m → AllFollow m n → AllFollow l n
AllFollow-trans l m n h k = record {
  at =
      λ slug. Follows-trans (lookup slug l) (lookup slug m) (lookup slug n) (h.at slug) (k.at slug);
  keeps = λ x. k.keeps (h.keeps x);
}

pub AllFollow-put :
    (m : Map RouteMetadata) (slug : Text) (r r' : RouteMetadata)
    → lookup slug m ≡ some r
    → Continues r r'
    → AllFollow m (insert slug r' m)
AllFollow-put m slug r r' e c = record {
  at = λ s. elim (Bool-cases (text_eq slug s)) [
    | inl same ↦ rw (lookup-insert slug s r' m, same) (rw (← text_eq→eq slug s same) (rw e c))
    | inr other ↦ rw (lookup-insert slug s r' m, other) (Follows-refl (lookup s m))
  ];
  keeps = insert-IsMap slug r' m;
}

-- What `current_route` finds and leaves.
pub current_route-AllFollow :
    (now : ℕ) (slug : Text) (b : TunnelBroker)
    → AllFollow b.routes (current_route now slug b).1.routes
unfolding current_route
current_route-AllFollow now slug b = elim (Option-cases (lookup slug b.routes)) [
  | inl e ↦ rw (e, current_route) (AllFollow-refl b.routes)
  | inr (r, e) ↦
      rw (e, current_route)
        (AllFollow-put b.routes slug r (refresh b.config now r) e
          (refresh-Continues b.config now r))
]

pub touch-AllFollow :
    (now : ℕ) (slug : Text) (b : TunnelBroker) → AllFollow b.routes (touch now slug b).routes
unfolding touch
touch-AllFollow now slug b = elim (Option-cases (lookup slug b.routes)) [
  | inl e ↦ rw (e, touch) (AllFollow-refl b.routes)
  | inr (r, e) ↦
      rw (e, touch)
        (AllFollow-put b.routes slug r (touched b.config now r) e
          (touched-Continues b.config now r))
]
