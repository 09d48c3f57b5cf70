-- ===== src/Tunnel/Relay/Closing.antt =====
-- What `closeRoute` does to the requests of its route, and to the others.
use telegent.Base.{
  Text, text_eq, text_eq_refl, text_eq_iff, if◌then◌else◌, Bool-cases, Option-cases, Result, err,
  ◌≡◌, refl, sym, ◌∙◌, inl, inr, Bool, false, ◌&&◌, ◌||◌, Option, none, some, List, [], ◌∷◌, ◌++◌,
  arith,
}
use telegent.Base.Maps.{Map, IsMap, lookup, lookup-delete}
use mathlib.Core.List.{append-nil, append_assoc}
use telegent.Tunnel.Protocol.{ForwardedResponse, TunnelError}
use telegent.Tunnel.Relay.{
  RelayHub, InFlight, remove, fail, close_entries, close_route, closed_route,
}

-- An entry of the list that `closeRoute` rejects.
abbrev marked : Text → Text → Map InFlight → Bool
marked slug j [] = false
marked slug j ((id, item) ∷ es) = text_eq id j && text_eq item.slug slug || marked slug j es

abbrev pub belongs : Text → Option InFlight → Bool
belongs slug none = false
belongs slug (some item) = text_eq item.slug slug

lookup-fail :
    (j id : Text) (e : TunnelError) (h : RelayHub)
    → lookup j (fail id e h).inflight ≡ (if text_eq id j then none else lookup j h.inflight)
unfolding fail
lookup-fail j id e h = elim (Option-cases (lookup id h.inflight)) [
  | inl gone ↦ rw (gone, fail) (ground (arith, text_eq_iff id j))
  | inr (item, there) ↦ rw (there, fail) (ground (arith, lookup-delete id j h.inflight))
]

lookup-close_entries :
    (slug j : Text) (es : Map InFlight) (h : RelayHub)
    → lookup j (close_entries slug es h).inflight
      ≡ (if marked slug j es then none else lookup j h.inflight)
unfolding close_entries
lookup-close_entries slug j [] h = refl
lookup-close_entries slug j ((id, item) ∷ es) h = elim (Bool-cases (text_eq item.slug slug)) [
  | inl own ↦ rw own (
      ground (
        arith,
        lookup-close_entries slug j es (fail id closed_route h),
        lookup-fail j id closed_route h,
      ))
  | inr other ↦ rw other (ground (arith, lookup-close_entries slug j es h))
]

unmarked : (slug j : Text) (es : Map InFlight) → lookup j es ≡ none → marked slug j es ≡ false
unfolding lookup
unmarked slug j [] e = refl
unmarked slug j ((id, item) ∷ es) e = ground (arith, unmarked slug j es)

marked-belongs :
    (slug j : Text) (es : Map InFlight) → IsMap es → marked slug j es ≡ belongs slug (lookup j es)
unfolding lookup
marked-belongs slug j [] k = refl
marked-belongs slug j ((id, item) ∷ es) k =
    ground (arith, marked-belongs slug j es k.1, unmarked slug j es, text_eq_iff id j)

-- After `closeRoute` no request of the route is in flight, and every other one is as it was.
pub lookup-close_route :
    (slug j : Text) (h : RelayHub)
    → IsMap h.inflight
    → lookup j (close_route slug h).inflight
      ≡ (if belongs slug (lookup j h.inflight) then none else lookup j h.inflight)
unfolding close_route
lookup-close_route slug j h k =
    ground (arith, lookup-close_entries slug j h.inflight h, marked-belongs slug j h.inflight k)

-- The outcomes that `closeRoute` reports, one for each request of the route.
abbrev pub rejections : Text → Map InFlight → List (Text × Result TunnelError ForwardedResponse)
rejections slug [] = []
rejections slug ((id, item) ∷ es) =
    let rest = rejections slug es in
    if text_eq item.slug slug then (id, err closed_route) ∷ rest else rest

-- Every entry of the list is still in flight.
abbrev AreThere : Map InFlight → RelayHub → Type 0
AreThere [] h = Unit
AreThere ((id, item) ∷ es) h = (lookup id h.inflight ≡ some item) × AreThere es h

AreThere-fail :
    (id : Text) (e : TunnelError) (es : Map InFlight) (h : RelayHub)
    → lookup id es ≡ none
    → AreThere es h
    → AreThere es (fail id e h)
unfolding lookup
AreThere-fail id e [] h k a = tt
AreThere-fail id e ((j, item) ∷ es) h k a = (
  ground (arith, lookup-fail j id e h, text_eq_iff id j, text_eq_iff j id, a.0),
  AreThere-fail id e es h (ground arith) a.1,
)

settled-fail :
    (id : Text) (item : InFlight) (e : TunnelError) (h : RelayHub)
    → lookup id h.inflight ≡ some item
    → (fail id e h).settled ≡ h.settled ++ (id, err e) ∷ []
unfolding fail
settled-fail id item e h there = rw (there, fail) (rw (there, remove) refl)

settled-close_entries :
    (slug : Text) (es : Map InFlight) (h : RelayHub)
    → IsMap es
    → AreThere es h
    → (close_entries slug es h).settled ≡ h.settled ++ rejections slug es
unfolding close_entries
settled-close_entries slug [] h k a = sym (append-nil h.settled)
settled-close_entries slug ((id, item) ∷ es) h k a = elim (Bool-cases (text_eq item.slug slug)) [
  | inl own ↦
      rw (own, close_entries)
        (settled-close_entries slug es (fail id closed_route h) k.1
            (AreThere-fail id closed_route es h k.0 a.1)
          ∙ (rw (settled-fail id item closed_route h a.0)
              (append_assoc h.settled ((id, err closed_route) ∷ []) (rejections slug es))))
  | inr other ↦ rw (other, close_entries) (settled-close_entries slug es h k.1 a.1)
]

AreThere-more :
    (id : Text) (item : InFlight) (es : Map InFlight) (m n : RelayHub)
    → lookup id es ≡ none
    → n.inflight ≡ (id, item) ∷ m.inflight
    → AreThere es m
    → AreThere es n
unfolding lookup
AreThere-more id item [] m n k e a = tt
AreThere-more id item ((j, x) ∷ es) m n k e a = (
  rw e (ground (arith, text_eq_iff id j, text_eq_iff j id, a.0)),
  AreThere-more id item es m n (ground arith) e a.1,
)

AreThere-self : (es : Map InFlight) (h : RelayHub) → h.inflight ≡ es → IsMap es → AreThere es h
unfolding lookup
AreThere-self [] h e k = tt
AreThere-self ((id, item) ∷ es) h e k = (
  rw e (ground (arith, text_eq_refl id)),
  AreThere-more id item es (record h { inflight = es }) h k.0 e
      (AreThere-self es (record h { inflight = es }) refl k.1),
)

-- Each request of the route, in the order of their arrival, is rejected with `route_closed`, and no
-- other outcome is reported.
pub settled-close_route :
    (slug : Text) (h : RelayHub)
    → IsMap h.inflight
    → (close_route slug h).settled ≡ h.settled ++ rejections slug h.inflight
unfolding close_route
settled-close_route slug h k =
    settled-close_entries slug h.inflight h k (AreThere-self h.inflight h refl k)
