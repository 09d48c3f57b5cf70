-- ===== src/Tunnel/HostSession/Bounded.antt =====
-- How many requests a session handles at once, and what it reports when it fails.
use telegent.Base.{
  leb, if◌then◌else◌, Bool-cases, length, length-append, ℕ, ◌+◌, ◌-◌, ◌≤◌, ◌<◌, ◌≡◌, refl, ◌≢◌, inl,
  inr, Bool, true, false, Option, none, some, List, [], ◌∷◌, ◌++◌, arith,
}
use telegent.Tunnel.Protocol.{ForwardedRequest}
use telegent.Tunnel.HostSession.{
  HostTunnelSession, ClientError, PollPhase, SessionEvent, happen, happen_all, new_session,
  next_poll, poll_failed, polled, settled, beat, beat_failed, stop, fail, first_failure,
  without_handler, is_fatal_route_error, at_head, awaiting_poll, idling, ended, loops, wakes,
  beats_time, beat_answered, stops, poll_answers, poll_fails, beat_fails, settles, on_answer,
  at_its_head, while_idling,
}

-- The first of the reported errors.
abbrev pub first_reported : List ClientError → Option ClientError
first_reported [] = none
first_reported (e ∷ es) = some e

-- Of `n` handlers at most `c`; there is room for one more while a poll is awaited.
abbrev pub HasRoom : PollPhase → ℕ → ℕ → Type 0
HasRoom awaiting_poll n c = n < c
HasRoom _ n c = n ≤ c

-- The session handles no more requests than it may, keeps the first error it reported, and is aborted
-- once it has reported one.
abbrev pub IsBounded : HostTunnelSession → Type 0
IsBounded s =
    HasRoom s.poll_loop (length s.handlers) s.concurrency
    × (s.failure ≡ first_reported s.reported)
    × (s.failure ≢ none → s.aborted ≡ true)

HasRoom-≤ : (p : PollPhase) (n c : ℕ) → HasRoom p n c → n ≤ c
HasRoom-≤ at_head n c h = h
HasRoom-≤ awaiting_poll n c h = omega (arith, h)
HasRoom-≤ idling n c h = h
HasRoom-≤ ended n c h = h

HasRoom-fewer : (p : PollPhase) (m n c : ℕ) → m ≤ n → HasRoom p n c → HasRoom p m c
HasRoom-fewer at_head m n c l h = omega (arith, l, h)
HasRoom-fewer awaiting_poll m n c l h = omega (arith, l, h)
HasRoom-fewer idling m n c l h = omega (arith, l, h)
HasRoom-fewer ended m n c l h = omega (arith, l, h)

first_reported-append :
    (es : List ClientError) (e : ClientError) (o : Option ClientError)
    → o ≡ first_reported es
    → first_failure o e ≡ first_reported (es ++ e ∷ [])
first_reported-append [] e o h = rw h refl
first_reported-append (d ∷ es) e o h = rw h refl

length-without_handler : (n : ℕ) (hs : List ℕ) → length (without_handler n hs) ≤ length hs
length-without_handler n [] = omega arith
length-without_handler n (h ∷ hs) = ground (arith, length-without_handler n hs)

if-IsBounded :
    (b : Bool) (t s : HostTunnelSession)
    → IsBounded t
    → (b ≡ false → IsBounded s)
    → IsBounded (if b then t else s)
if-IsBounded true t s h k = h
if-IsBounded false t s h k = k refl

on_answer-IsBounded :
    (p : PollPhase) (t s : HostTunnelSession)
    → IsBounded s
    → HasRoom p (length s.handlers) s.concurrency
    → (length s.handlers < s.concurrency → IsBounded t)
    → IsBounded (on_answer p t s)
on_answer-IsBounded at_head t s h room k = h
on_answer-IsBounded awaiting_poll t s h room k = k room
on_answer-IsBounded idling t s h room k = h
on_answer-IsBounded ended t s h room k = h

at_its_head-IsBounded :
    (p : PollPhase) (t s : HostTunnelSession)
    → IsBounded s
    → IsBounded t
    → IsBounded (at_its_head p t s)
at_its_head-IsBounded at_head t s h k = k
at_its_head-IsBounded awaiting_poll t s h k = h
at_its_head-IsBounded idling t s h k = h
at_its_head-IsBounded ended t s h k = h

while_idling-IsBounded :
    (p : PollPhase) (t s : HostTunnelSession)
    → IsBounded s
    → IsBounded t
    → IsBounded (while_idling p t s)
while_idling-IsBounded at_head t s h k = h
while_idling-IsBounded awaiting_poll t s h k = h
while_idling-IsBounded idling t s h k = k
while_idling-IsBounded ended t s h k = h

fail-IsBounded : (e : ClientError) (s : HostTunnelSession) → IsBounded s → IsBounded (fail e s)
unfolding fail
fail-IsBounded e s h = (h.0, first_reported-append s.reported e s.failure h.1, λ _. refl)

next_poll-IsBounded : (s : HostTunnelSession) → IsBounded s → IsBounded (next_poll s)
unfolding next_poll
next_poll-IsBounded s h =
    let bound : _ = HasRoom-≤ s.poll_loop (length s.handlers) s.concurrency h.0 in
    if-IsBounded s.aborted _ _ (bound, h.1, h.2)
      λ _.
        if-IsBounded (leb s.concurrency (length s.handlers)) (record s { poll_loop = idling })
          (record s { poll_loop = awaiting_poll }) (bound, h.1, h.2)
          λ room. (ground (arith, room), h.1, h.2)

poll_failed-IsBounded :
    (e : ClientError) (s : HostTunnelSession) → IsBounded s → IsBounded (poll_failed e s)
unfolding poll_failed
poll_failed-IsBounded e s h =
    let bound : _ = HasRoom-≤ s.poll_loop (length s.handlers) s.concurrency h.0 in
    elim (Bool-cases (is_fatal_route_error e)) [
      | inl fatal ↦ rw fatal (fail-IsBounded e (record s { poll_loop = ended }) (bound, h.1, h.2))
      | inr other ↦ rw other (bound, h.1, h.2)
    ]

polled-IsBounded :
    (request : Option ForwardedRequest) (s : HostTunnelSession)
    → IsBounded s
    → length s.handlers < s.concurrency
    → IsBounded (polled request s)
unfolding polled
polled-IsBounded none s h room = (omega (arith, room), h.1, h.2)
polled-IsBounded (some request) s h room =
    (omega (arith, room, length-append s.handlers (s.started ∷ [])), h.1, h.2)

beat_failed-IsBounded :
    (e : ClientError) (s : HostTunnelSession) → IsBounded s → IsBounded (beat_failed e s)
unfolding beat_failed
beat_failed-IsBounded e s h = elim (Bool-cases (is_fatal_route_error e)) [
  | inl fatal ↦ rw fatal (fail-IsBounded e (record s { beats = s.beats - 1 }) h)
  | inr other ↦ rw other h
]

happen-IsBounded : (e : SessionEvent) (s : HostTunnelSession) → IsBounded s → IsBounded (happen e s)
unfolding happen settled beat stop
happen-IsBounded loops s h =
    at_its_head-IsBounded s.poll_loop (next_poll s) s h (next_poll-IsBounded s h)
happen-IsBounded wakes s h =
    while_idling-IsBounded s.poll_loop (record s { poll_loop = at_head }) s h
      (HasRoom-≤ s.poll_loop (length s.handlers) s.concurrency h.0, h.1, h.2)
happen-IsBounded beats_time s h =
    if-IsBounded s.aborted s (record s { beats = s.beats + 1 }) h (λ _. h)
happen-IsBounded beat_answered s h = h
happen-IsBounded stops s h =
    if-IsBounded s.stopped s (record s { stopped = true; aborted = true }) h
      (λ _. (h.0, h.1, λ _. refl))
happen-IsBounded (poll_answers request) s h =
    on_answer-IsBounded s.poll_loop (polled request s) s h h.0 (polled-IsBounded request s h)
happen-IsBounded (poll_fails e) s h =
    on_answer-IsBounded s.poll_loop (poll_failed e s) s h h.0 (λ _. poll_failed-IsBounded e s h)
happen-IsBounded (beat_fails e) s h = elim (Bool-cases (leb s.beats 0)) [
  | inl nothing ↦ rw nothing h
  | inr sent ↦ rw sent (beat_failed-IsBounded e s h)
]
happen-IsBounded (settles n) s h = (
  HasRoom-fewer s.poll_loop _ (length s.handlers) s.concurrency
      (length-without_handler n s.handlers) h.0,
  h.1,
  h.2,
)

happen_each-IsBounded :
    (es : List SessionEvent) (s : HostTunnelSession) → IsBounded s → IsBounded (happen_all es s)
unfolding happen_all
happen_each-IsBounded [] s h = h
happen_each-IsBounded (e ∷ es) s h = happen_each-IsBounded es (happen e s) (happen-IsBounded e s h)

-- Whatever polls, heartbeats and handlers answer or fail, in whatever order: a session handles at most
-- as many requests at once as it may, its failure is the first error that it has reported, and it is
-- aborted once it has one.
pub happen_all-IsBounded :
    (es : List SessionEvent) (concurrency : Option ℕ)
    → IsBounded (happen_all es (new_session concurrency))
unfolding new_session
happen_all-IsBounded es concurrency =
    happen_each-IsBounded es (new_session concurrency)
      (omega arith, refl, λ some_failure. absurd (some_failure refl))
