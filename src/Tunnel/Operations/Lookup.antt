-- ===== src/Tunnel/Operations/Lookup.antt =====
-- The route that a host's identifiers name.
use telegent.Base.{
  Text, text_eq, text_eq_refl, text_eq_iff, Bool-cases, Result, ok, err, ℕ, ◌≡◌, refl, inl, inr,
  ◌&&◌, Option, none, some, [], ◌∷◌, arith,
}
use telegent.Base.Maps.{Map, IsMap, lookup}
use telegent.Tunnel.Protocol.{RouteMetadata, TunnelError, route_not_found}
use telegent.Tunnel.Broker.{
  TunnelBroker, refuse, refresh, put_route, find_route, find_by_connection,
}

find_route-lookup :
    (id connection slug : Text) (m : Map RouteMetadata) (r : RouteMetadata)
    → IsMap m
    → find_route id connection m ≡ some (slug, r)
    → (lookup slug m ≡ some r) × (r.route_id ≡ id) × (r.host_connection_id ≡ connection)
unfolding find_route lookup
find_route-lookup id connection slug [] r k e = cc
find_route-lookup id connection slug ((s, x) ∷ m) r k e =
    elim (Bool-cases (text_eq x.route_id id && text_eq x.host_connection_id connection)) [
      | inl hit ↦ (
        ground (arith, text_eq_refl s),
        ground (arith, text_eq_iff x.route_id id),
        ground (arith, text_eq_iff x.host_connection_id connection),
      )
      | inr miss ↦
          let (there, same_id, same_connection) =
            find_route-lookup id connection slug m r k.1 (ground arith) in
          (ground (arith, text_eq_iff s slug), same_id, same_connection)
    ]

-- What `findByConnection` returns and leaves.
abbrev pub Found :
    ℕ
    → Text
    → Text
    → TunnelBroker
    → Result TunnelError (Text × RouteMetadata) × TunnelBroker
    → Type 0
Found now id connection b (err e, b') = (e ≡ refuse route_not_found 404) × (b' ≡ b)
Found now id connection b (ok (slug, r'), b') =
    (r : RouteMetadata) × (lookup slug b.routes ≡ some r)
    × (r' ≡ refresh b.config now r)
    × (b' ≡ put_route slug r' b)
    × (r.route_id ≡ id)
    × (r.host_connection_id ≡ connection)

pub find_by_connection-Found :
    (now : ℕ) (id connection : Text) (b : TunnelBroker)
    → IsMap b.routes
    → Found now id connection b (find_by_connection now id connection b)
unfolding find_by_connection
find_by_connection-Found now id connection b k = by_entry (find_route id connection b.routes) refl
  where
    by_entry :
        (o : Option (Text × RouteMetadata))
        → find_route id connection b.routes ≡ o
        → Found now id connection b (find_by_connection now id connection b)
    by_entry none e = rw (e, find_by_connection) (refl, refl)
    by_entry (some (slug, r)) e =
        let (there, same_id, same_connection) =
          find_route-lookup id connection slug b.routes r k e in
        rw (e, find_by_connection) (r, there, refl, refl, same_id, same_connection)
