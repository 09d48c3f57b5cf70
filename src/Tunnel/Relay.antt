-- ===== src/Tunnel/Relay.antt =====
-- src/tunnel/relay.ts: the queue of participant requests that wait for the host's response.
-- A promise of `enqueue` is the id under which its outcome is recorded in `settled`, in the order
-- of the calls of `resolve` and `reject`. A timer is the time at which it fires. The id that
-- `mintId` returns is an argument of `enqueue`, and the byte length of a base64 text is a parameter.
pub mod Queues
pub mod Settlement
pub mod Claims
pub mod Closing
use telegent.Base.{
  Text, codes, text_eq, text_eq→eq, text_eq_refl, text_eq_iff, text_eq_ne, ltb, leb, ◌==◌,
  if◌then◌else◌, ==_iff, Bool-cases, Option-cases, is_some, or_else, Result, ok, err, ◌>>=◌, ◌>>◌,
  guard, length, length-append, filter, find, any, all, All, All-append, All-map, All-filter,
  includes, ℕ, zero, suc, ◌+◌, ◌-◌, ◌*◌, ◌/◌, ◌%◌, ◌^◌, ◌≤◌, ◌<◌, max, min, ◌≡◌, refl, sym, ap,
  subst, ◌∙◌, ◌≢◌, ◌↔◌, ◌⊎◌, inl, inr, Bool, true, false, not, ◌&&◌, ◌||◌, Option, none, some, List,
  [], ◌∷◌, ◌++◌, map, arith,
}
use telegent.Base.Maps.{Map, lookup, insert, delete}
use telegent.Tunnel.Protocol.{
  ForwardedRequest, ForwardedResponse, TunnelError, host_unavailable, unknown_request,
  response_too_large, route_closed,
}

pub record RelayOptions : Type 0 where
  pub claim_timeout_ms : ℕ
  pub response_timeout_ms : ℕ
  pub response_body_bytes : ℕ

pub record InFlight : Type 0 where
  pub envelope : ForwardedRequest
  pub slug : Text
  pub claimed : Bool
  pub timer : ℕ

pub record RelayHub : Type 0 where
  pub options : RelayOptions
  pub pending : Map (List Text)
  pub inflight : Map InFlight
  pub settled : List (Text × Result TunnelError ForwardedResponse)

abbrev pub new_hub : RelayOptions → RelayHub
new_hub o = record { options = o; pending = []; inflight = []; settled = [] }

-- The queue of a route; a route with none is not a key of the map.
abbrev pub queue_of : RelayHub → Text → List Text
queue_of h slug = or_else (lookup slug h.pending) []

-- `queue.splice(queue.indexOf(id), 1)`: the first occurrence goes.
unfoldable pub remove_first : Text → List Text → List Text
remove_first id [] = []
remove_first id (x ∷ xs) = if text_eq x id then xs else x ∷ remove_first id xs

-- The queue as it is after a change: a queue that is empty is deleted.
unfoldable pub store_queue : Text → List Text → Map (List Text) → Map (List Text)
store_queue slug [] pending = delete slug pending
store_queue slug (x ∷ xs) pending = insert slug (x ∷ xs) pending

unfoldable pub enqueue : ℕ → Text → RelayHub → Text → ForwardedRequest → RelayHub
enqueue now id h slug envelope = record h {
  inflight =
      insert id
        (record {
          envelope = record envelope { request_id = id };
          slug = slug;
          claimed = false;
          timer = now + h.options.claim_timeout_ms;
        })
        h.inflight;
  pending = insert slug (queue_of h slug ++ id ∷ []) h.pending;
}

-- Take `id` out of the queue of its route, if there is one.
unfoldable pub unqueue : Text → Text → Map (List Text) → Map (List Text)
unfolding store_queue
unqueue id slug pending = elim (lookup slug pending) [
  | none ↦ pending
  | some queue ↦ store_queue slug (remove_first id queue) pending
]

-- `remove`
unfoldable pub remove : Text → RelayHub → RelayHub
unfolding unqueue
remove id h = elim (lookup id h.inflight) [
  | none ↦ record h { inflight = delete id h.inflight }
  | some item ↦ record h {
    inflight = delete id h.inflight;
    pending = unqueue id item.slug h.pending;
  }
]

-- `item.resolve(response)` or `item.reject(error)`
abbrev pub settle : Text → Result TunnelError ForwardedResponse → RelayHub → RelayHub
settle id outcome h = record h { settled = h.settled ++ (id, outcome) ∷ [] }

-- `fail`
unfoldable pub fail : Text → TunnelError → RelayHub → RelayHub
unfolding remove
fail id error h = elim (lookup id h.inflight) [
  | none ↦ h
  | some item ↦ settle id (err error) (remove id h)
]

-- The loop of `claim` over the ids that it shifts off the queue of `slug`.
unfoldable pub claim_from : ℕ → Text → List Text → RelayHub → Option ForwardedRequest × RelayHub
unfolding store_queue
claim_from now slug [] h = (none, record h { pending = delete slug h.pending })
claim_from now slug (id ∷ queue) h =
    let rest = claim_from now slug queue h in
    elim (lookup id h.inflight) [
      | none ↦ rest
      | some item ↦ if item.claimed then rest else (
        some item.envelope,
        record h {
          inflight =
              insert id
                (record item { claimed = true; timer = now + h.options.response_timeout_ms })
                h.inflight;
          pending = store_queue slug queue h.pending;
        },
      )
    ]

-- `claim`
unfoldable pub claim : ℕ → RelayHub → Text → Option ForwardedRequest × RelayHub
unfolding claim_from
claim now h slug = elim (lookup slug h.pending) [
  | none ↦ (none, h)
  | some queue ↦ claim_from now slug queue h
]

abbrev pub too_large : TunnelError
too_large = record { code = response_too_large; status = 502 }

abbrev pub unattended : TunnelError
unattended = record { code = host_unavailable; status = 504 }

abbrev pub closed_route : TunnelError
closed_route = record { code = route_closed; status = 410 }

abbrev pub body_bytes : (Text → ℕ) → ForwardedResponse → ℕ
body_bytes base64_bytes r = elim r.body_base64 [ none ↦ 0 | some b ↦ base64_bytes b ]

-- `respond`; `base64_bytes` is `Buffer.byteLength(·, "base64")`.
unfoldable pub respond :
    (Text → ℕ) → RelayHub → Text → ForwardedResponse → Result TunnelError (Unit {0}) × RelayHub
respond base64_bytes h id response = elim (lookup id h.inflight) [
  | none ↦ (err (record { code = unknown_request; status = 404 }), h)
  | some item ↦
      if ltb h.options.response_body_bytes (body_bytes base64_bytes response)
      then (err too_large, fail id too_large h)
      else (ok tt, settle id (ok response) (remove id h))
]

-- The loop of `closeRoute` over a copy of the entries.
unfoldable pub close_entries : Text → Map InFlight → RelayHub → RelayHub
close_entries slug [] h = h
close_entries slug ((id, item) ∷ entries) h =
    close_entries slug entries (if text_eq item.slug slug then fail id closed_route h else h)

-- `closeRoute`
unfoldable pub close_route : Text → RelayHub → RelayHub
unfolding close_entries
close_route slug h = close_entries slug h.inflight h

-- The timer of a request fires: the callback of `enqueue`, or of `claim` once it is claimed.
unfoldable pub expire : Text → RelayHub → RelayHub
unfolding fail
expire id h = fail id unattended h
