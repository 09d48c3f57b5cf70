-- ===== src/Tunnel/Relay/Claims.antt =====
-- src/tunnel/relay.ts: what a host's claim takes from a sound relay hub, and where a request waits.
use telegent.Base.{
  Text, text_eq, if◌then◌else◌, ◌++◌, text_eq_refl, text_eq_iff, occurs, ℕ, ◌+◌, ◌≡◌, refl, true,
  false, Option, none, some, List, [], ◌∷◌, arith,
}
use telegent.Base.Maps.{lookup, insert, lookup-insert, insert-IsMap}
use telegent.Tunnel.Protocol.{ForwardedRequest}
use telegent.Tunnel.Relay.{RelayHub, InFlight, queue_of, claim_from, claim, store_queue, enqueue}
use telegent.Tunnel.Relay.Queues.{queue-store, store-IsTidy}
use telegent.Tunnel.Relay.Settlement.{waiting, IsSound}

-- What `claim` returns and leaves, by the queue of its route: the first id is an unclaimed request
-- of that route, so the loop never skips.
abbrev pub Claimed : ℕ → Text → RelayHub → List Text → Option ForwardedRequest × RelayHub → Type 0
Claimed now slug h [] (r, h') =
    (r ≡ none)
    × (h'.inflight ≡ h.inflight)
    × (h'.settled ≡ h.settled)
    × ((s : Text) → queue_of h' s ≡ queue_of h s)
Claimed now slug h (id ∷ queue) (r, h') =
    (item : InFlight) × (lookup id h.inflight ≡ some item)
    × (item.claimed ≡ false)
    × (item.slug ≡ slug)
    × (r ≡ some item.envelope)
    × (h' ≡ record h {
      inflight =
          insert id (record item { claimed = true; timer = now + h.options.response_timeout_ms })
            h.inflight;
      pending = store_queue slug queue h.pending;
    })

waiting_first :
    (o : Option InFlight) (slug : Text) (n : ℕ)
    → 1 + n ≡ waiting o slug
    → (item : InFlight) × (o ≡ some item) × (item.claimed ≡ false) × (item.slug ≡ slug)
waiting_first none slug n e = absurd (omega arith)
waiting_first (some item) slug n e =
    (item, refl, ground arith, ground (arith, text_eq_iff item.slug slug))

claim_from-Claimed :
    (now : ℕ) (slug id : Text) (queue : List Text) (h : RelayHub)
    → 1 + occurs id queue ≡ waiting (lookup id h.inflight) slug
    → Claimed now slug h (id ∷ queue) (claim_from now slug (id ∷ queue) h)
unfolding claim_from
claim_from-Claimed now slug id queue h e =
    let (item, found, unclaimed, own) = waiting_first (lookup id h.inflight) slug _ e in
    (
      item,
      found,
      unclaimed,
      own,
      rw (found, claim_from) (rw unclaimed refl),
      rw (found, claim_from) (rw unclaimed refl),
    )

module _ (minted : List Text) (h : RelayHub) (s : IsSound minted h) (now : ℕ) (slug : Text) where
  take_queue :
      (id : Text) (queue : List Text)
      → lookup slug h.pending ≡ some (id ∷ queue)
      → 1 + occurs id queue ≡ waiting (lookup id h.inflight) slug
  take_queue id queue e = ground (arith, s.queued id slug, text_eq_refl id)

  claim_in_queue : Claimed now slug h (queue_of h slug) (claim now h slug)
  unfolding claim
  claim_in_queue = by_queue (lookup slug h.pending) refl
    where
      by_queue :
          (o : Option (List Text))
          → lookup slug h.pending ≡ o
          → Claimed now slug h (queue_of h slug) (claim now h slug)
      by_queue none e = rw (e, claim) (refl, refl, refl, λ t. refl)
      by_queue (some []) e = absurd (s.tidy slug e)
      by_queue (some (id ∷ queue)) e =
          rw (e, claim) (claim_from-Claimed now slug id queue h (take_queue id queue e))

  -- In a sound hub `claim` hands out the request in front of the queue of the route, marks it claimed
  -- and leaves the rest of the queue in its order; with no request in the queue it returns none and
  -- changes no queue, request or outcome. `enqueue` puts a request behind all that wait for its route,
  -- and leaves the other queues as they are.
  pub claim-Claimed :
      Claimed now slug h (queue_of h slug) (claim now h slug)
      × ((at : ℕ) (id t : Text) (envelope : ForwardedRequest)
          → queue_of (enqueue at id h t envelope) slug
            ≡ (if text_eq t slug then queue_of h slug ++ id ∷ [] else queue_of h slug))
  unfolding enqueue
  claim-Claimed = (
    claim_in_queue,
    λ at id t envelope.
        ground
          (arith, lookup-insert t slug (queue_of h t ++ id ∷ []) h.pending, text_eq_iff t slug),
  )

  claimed-IsSound :
      (id : Text) (queue : List Text) (item : InFlight)
      → queue_of h slug ≡ id ∷ queue
      → lookup id h.inflight ≡ some item
      → item.claimed ≡ false
      → item.slug ≡ slug
      → IsSound minted (record h {
        inflight =
            insert id
              (record item { claimed = true; timer = now + h.options.response_timeout_ms })
              h.inflight;
        pending = store_queue slug queue h.pending;
      })
  claimed-IsSound id queue item q e c o = record {
    queued = λ j t. ground (
      arith,
      s.queued j t,
      queue-store slug t queue h.pending,
      lookup-insert id j
          (record item { claimed = true; timer = now + h.options.response_timeout_ms }) h.inflight,
      text_eq_iff id j,
      text_eq_iff slug t,
      text_eq_iff item.slug t,
    );
    answered = λ j. ground (
      arith,
      s.answered j,
      lookup-insert id j
          (record item { claimed = true; timer = now + h.options.response_timeout_ms }) h.inflight,
      text_eq_iff id j,
    );
    fresh = s.fresh;
    tidy = store-IsTidy slug queue h.pending s.tidy;
    keys = insert-IsMap id _ h.inflight s.keys;
  }

  pub claim-IsSound : IsSound minted (claim now h slug).1
  unfolding claim
  claim-IsSound = by_queue (lookup slug h.pending) refl
    where
      by_queue :
          (o : Option (List Text)) → lookup slug h.pending ≡ o → IsSound minted (claim now h slug).1
      by_queue none e = rw (e, claim) s
      by_queue (some []) e = absurd (s.tidy slug e)
      by_queue (some (id ∷ queue)) e =
          let (item, found, unclaimed, own, r, left) =
            claim_from-Claimed now slug id queue h (take_queue id queue e) in
          rw (e, claim) (rw left (claimed-IsSound id queue item (ground arith) found unclaimed own))
