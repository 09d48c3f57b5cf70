-- ===== src/Tunnel/Relay/Settlement.antt =====
-- The invariant of the relay hub, which each of its operations keeps.
use telegent.Base.{
  Text, text_eq, text_eq_iff, ltb, if◌then◌else◌, Bool-cases, Option-cases, is_some, Result, ok,
  err, occurs, occurs-append, ℕ, ◌+◌, ◌≤◌, ◌≡◌, inl, inr, false, Option, none, some, List, [], ◌∷◌,
  ◌++◌, map, arith,
}
use telegent.Base.Maps.{
  Map, IsMap, lookup, lookup-insert, lookup-delete, insert-IsMap, delete-IsMap,
}
use telegent.Tunnel.Protocol.{ForwardedRequest, ForwardedResponse, TunnelError}
use telegent.Tunnel.Relay.{
  RelayHub, InFlight, queue_of, enqueue, remove, settle, fail, respond, close_entries, too_large,
  closed_route, body_bytes,
}
use telegent.Tunnel.Relay.Queues.{
  IsTidy, occurs-remove_first, queue-unqueue, unqueue-IsTidy, snoc-IsTidy,
}

abbrev pub settled_ids : RelayHub → List Text
settled_ids h = map (λ p. p.0) h.settled

-- How often a request that is in flight, or not, has to stand in the queue of a route.
abbrev pub waiting : Option InFlight → Text → ℕ
waiting none slug = 0
waiting (some item) slug = if item.claimed then 0 else if text_eq item.slug slug then 1 else 0

-- `minted` holds the ids that `enqueue` was given.
pub record IsSound (minted : List Text) (h : RelayHub) : Type 0 where
  -- The queues hold the unclaimed requests in flight, each once and under its route.
  pub queued : (id slug : Text) → occurs id (queue_of h slug) ≡ waiting (lookup id h.inflight) slug
  -- A request is settled or in flight, once, from its enqueueing on.
  pub answered :
      (id : Text)
      → occurs id (settled_ids h) + (if is_some (lookup id h.inflight) then 1 else 0)
        ≡ occurs id minted
  pub fresh : (id : Text) → occurs id minted ≤ 1
  pub tidy : IsTidy h.pending
  pub keys : IsMap h.inflight

settled-append :
    (j : Text) (xs : List (Text × Result TunnelError ForwardedResponse)) (id : Text)
    (o : Result TunnelError ForwardedResponse)
    → occurs j (map (λ p. p.0) (xs ++ (id, o) ∷ []))
      ≡ occurs j (map (λ p. p.0) xs) + (if text_eq id j then 1 else 0)
settled-append j [] id o = omega arith
settled-append j (x ∷ xs) id o = omega (arith, settled-append j xs id o)

module _ (minted : List Text) (h : RelayHub) (s : IsSound minted h) where
  pub enqueue-IsSound :
      (now : ℕ) (id slug : Text) (envelope : ForwardedRequest)
      → occurs id minted ≡ 0
      → IsSound (id ∷ minted) (enqueue now id h slug envelope)
  unfolding enqueue
  enqueue-IsSound now id slug envelope new = record {
    queued = λ j t. ground (
      arith,
      s.queued j t,
      s.queued id t,
      s.answered id,
      occurs-append j (queue_of h slug) (id ∷ []),
      lookup-insert slug t (queue_of h slug ++ id ∷ []) h.pending,
      lookup-insert id j
          (record {
            envelope = record envelope { request_id = id };
            slug = slug;
            claimed = false;
            timer = now + h.options.claim_timeout_ms;
          })
          h.inflight,
      text_eq_iff id j,
      text_eq_iff slug t,
    );
    answered = λ j. ground (
      arith,
      s.answered j,
      s.answered id,
      lookup-insert id j
          (record {
            envelope = record envelope { request_id = id };
            slug = slug;
            claimed = false;
            timer = now + h.options.claim_timeout_ms;
          })
          h.inflight,
      text_eq_iff id j,
    );
    fresh = λ j. ground (arith, s.fresh j, text_eq_iff id j);
    tidy = snoc-IsTidy slug id h.pending s.tidy;
    keys = insert-IsMap id _ h.inflight s.keys;
  }

  -- The end of a request that is in flight, however it ends.
  finish-IsSound :
      (id : Text) (item : InFlight) (o : Result TunnelError ForwardedResponse)
      → lookup id h.inflight ≡ some item
      → IsSound minted (settle id o (remove id h))
  unfolding remove
  finish-IsSound id item o e =
      rw (e, remove)
        (record {
          queued = λ j t. ground (
            arith,
            s.queued j t,
            queue-unqueue id item.slug t h.pending,
            occurs-remove_first id j (queue_of h t),
            lookup-delete id j h.inflight,
            text_eq_iff id j,
            text_eq_iff item.slug t,
          );
          answered = λ j. ground (
            arith,
            s.answered j,
            settled-append j h.settled id o,
            lookup-delete id j h.inflight,
            text_eq_iff id j,
          );
          fresh = s.fresh;
          tidy = unqueue-IsTidy id item.slug h.pending s.tidy;
          keys = delete-IsMap id h.inflight s.keys;
        })

  pub fail-IsSound : (id : Text) (error : TunnelError) → IsSound minted (fail id error h)
  unfolding fail
  fail-IsSound id error = elim (Option-cases (lookup id h.inflight)) [
    | inl e ↦ rw (e, fail) s
    | inr (item, e) ↦ rw (e, fail) (finish-IsSound id item (err error) e)
  ]

  pub respond-IsSound :
      (base64_bytes : Text → ℕ) (id : Text) (r : ForwardedResponse)
      → IsSound minted (respond base64_bytes h id r).1
  unfolding respond
  respond-IsSound base64_bytes id r = elim (Option-cases (lookup id h.inflight)) [
    | inl e ↦ rw (e, respond) s
    | inr (item, e) ↦
        elim (Bool-cases (ltb h.options.response_body_bytes (body_bytes base64_bytes r))) [
          | inl large ↦ rw (e, respond) (rw large (fail-IsSound id too_large))
          | inr fits ↦ rw (e, respond) (rw fits (finish-IsSound id item (ok r) e))
        ]
  ]

pub close_entries-IsSound :
    (minted : List Text) (slug : Text) (entries : Map InFlight) (h : RelayHub)
    → IsSound minted h
    → IsSound minted (close_entries slug entries h)
unfolding close_entries
close_entries-IsSound minted slug [] h s = s
close_entries-IsSound minted slug ((id, item) ∷ entries) h s =
    elim (Bool-cases (text_eq item.slug slug)) [
      | inl own ↦ rw own (
          close_entries-IsSound minted slug entries (fail id closed_route h)
            (fail-IsSound minted h s id closed_route))
      | inr other ↦ rw other (close_entries-IsSound minted slug entries h s)
    ]
