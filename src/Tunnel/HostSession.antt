-- ===== src/Tunnel/HostSession.antt =====
-- src/tunnel/host-session.ts: the class HostTunnelSession, whose calls of the client are events of their
-- own: a poll or a heartbeat is sent, and its outcome comes later. A handler is a number.
pub mod Bounded
use telegent.Base.{
  Text, codes, text_eq, text_eq→eq, text_eq_refl, text_eq_iff, text_eq_ne, ltb, leb, ◌==◌,
  if◌then◌else◌, ==_iff, Bool-cases, Option-cases, is_some, or_else, Result, ok, err, ◌>>=◌, ◌>>◌,
  guard, occurs, occurs-append, length, length-append, filter, find, any, all, All, All-append,
  All-map, All-filter, includes, ℕ, zero, suc, ◌+◌, ◌-◌, ◌*◌, ◌/◌, ◌%◌, ◌^◌, ◌≤◌, ◌<◌, max, min,
  ◌≡◌, refl, sym, ap, subst, ◌∙◌, ◌≢◌, ◌↔◌, ◌⊎◌, inl, inr, Bool, true, false, not, ◌&&◌, ◌||◌,
  Option, none, some, List, [], ◌∷◌, ◌++◌, map, arith,
}
use telegent.Tunnel.Protocol.{
  TunnelError, TunnelErrorCode, ForwardedRequest, route_closed, route_expired, route_not_found,
}

-- What a call of the client throws: a TunnelError, or anything else.
pub data ClientError : Type 0 where
  tunnel_error : TunnelError → ClientError
  other_error : ClientError

-- Where the poll loop stands: at its head, awaiting a poll, idle, or at its end.
pub data PollPhase : Type 0 where
  at_head awaiting_poll idling ended : PollPhase

pub record HostTunnelSession : Type 0 where
  pub concurrency : ℕ
  pub aborted : Bool
  pub stopped : Bool
  pub failure : Option ClientError
  -- The calls of `onError`.
  pub reported : List ClientError
  pub handlers : List ℕ
  pub started : ℕ
  pub poll_loop : PollPhase
  -- The heartbeats whose outcome has not come.
  pub beats : ℕ

abbrev pub default_concurrency : ℕ
default_concurrency = 16

unfoldable pub new_session : Option ℕ → HostTunnelSession
new_session concurrency = record {
  concurrency = max 2 (or_else concurrency default_concurrency);
  aborted = false;
  stopped = false;
  failure = none;
  reported = [];
  handlers = [];
  started = 0;
  poll_loop = at_head;
  beats = 0;
}

abbrev pub is_fatal_code : TunnelErrorCode → Bool
is_fatal_code route_closed = true
is_fatal_code route_expired = true
is_fatal_code route_not_found = true
is_fatal_code _ = false

abbrev pub is_fatal_route_error : ClientError → Bool
is_fatal_route_error (tunnel_error e) = is_fatal_code e.code
is_fatal_route_error other_error = false

abbrev pub first_failure : Option ClientError → ClientError → Option ClientError
first_failure none e = some e
first_failure (some f) e = some f

unfoldable pub fail : ClientError → HostTunnelSession → HostTunnelSession
fail e s = record s {
  failure = first_failure s.failure e;
  aborted = true;
  reported = s.reported ++ e ∷ [];
}

-- The head of the loop.
unfoldable pub next_poll : HostTunnelSession → HostTunnelSession
next_poll s =
    if s.aborted
    then record s { poll_loop = ended }
    else if leb s.concurrency (length s.handlers)
    then record s { poll_loop = idling }
    else record s { poll_loop = awaiting_poll }

unfoldable pub poll_failed : ClientError → HostTunnelSession → HostTunnelSession
unfolding fail
poll_failed e s =
    if is_fatal_route_error e
    then fail e (record s { poll_loop = ended })
    else record s { poll_loop = idling }

-- A claimed request is handled, even if the session was aborted meanwhile.
unfoldable pub polled : Option ForwardedRequest → HostTunnelSession → HostTunnelSession
polled none s = record s { poll_loop = idling }
polled (some request) s = record s {
  handlers = s.handlers ++ s.started ∷ [];
  started = s.started + 1;
  poll_loop = at_head;
}

abbrev pub without_handler : ℕ → List ℕ → List ℕ
without_handler n hs = filter (λ h. not (h == n)) hs

-- `handlers.delete(handler)`
unfoldable pub settled : ℕ → HostTunnelSession → HostTunnelSession
settled n s = record s { handlers = without_handler n s.handlers }

unfoldable pub beat : HostTunnelSession → HostTunnelSession
beat s = if s.aborted then s else record s { beats = s.beats + 1 }

unfoldable pub beat_failed : ClientError → HostTunnelSession → HostTunnelSession
unfolding fail
beat_failed e s =
    let answered = record s { beats = s.beats - 1 } in
    if is_fatal_route_error e then fail e answered else answered

-- `stop` up to its first await.
unfoldable pub stop : HostTunnelSession → HostTunnelSession
stop s = if s.stopped then s else record s { stopped = true; aborted = true }

pub data SessionEvent : Type 0 where
  loops wakes beats_time beat_answered stops : SessionEvent
  poll_answers : Option ForwardedRequest → SessionEvent
  poll_fails beat_fails : ClientError → SessionEvent
  settles : ℕ → SessionEvent

-- What stands only at one place of the loop.
abbrev pub at_its_head : PollPhase → HostTunnelSession → HostTunnelSession → HostTunnelSession
at_its_head at_head t s = t
at_its_head _ t s = s

abbrev pub while_idling : PollPhase → HostTunnelSession → HostTunnelSession → HostTunnelSession
while_idling idling t s = t
while_idling _ t s = s

abbrev pub on_answer : PollPhase → HostTunnelSession → HostTunnelSession → HostTunnelSession
on_answer awaiting_poll t s = t
on_answer _ t s = s

-- What an event does where it can happen; elsewhere it does nothing.
unfoldable pub happen : SessionEvent → HostTunnelSession → HostTunnelSession
unfolding next_poll poll_failed polled settled beat beat_failed stop
happen loops s = at_its_head s.poll_loop (next_poll s) s
happen wakes s = while_idling s.poll_loop (record s { poll_loop = at_head }) s
happen beats_time s = beat s
happen beat_answered s = record s { beats = s.beats - 1 }
happen stops s = stop s
happen (poll_answers request) s = on_answer s.poll_loop (polled request s) s
happen (poll_fails e) s = on_answer s.poll_loop (poll_failed e s) s
happen (beat_fails e) s = if leb s.beats 0 then s else beat_failed e s
happen (settles n) s = settled n s

unfoldable pub happen_all : List SessionEvent → HostTunnelSession → HostTunnelSession
unfolding happen
happen_all [] s = s
happen_all (e ∷ es) s = happen_all es (happen e s)
