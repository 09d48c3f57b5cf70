-- ===== src/Tunnel/Calls.antt =====
-- The calls that reach the broker of src/tunnel/broker.ts, in any order, as one step function.
pub mod Lifecycle
pub mod Hub
pub mod Soundness
use telegent.Base.{
  Text, codes, text_eq, text_eq→eq, text_eq_refl, text_eq_iff, text_eq_ne, ltb, leb, ◌==◌,
  if◌then◌else◌, ==_iff, Bool-cases, Option-cases, is_some, or_else, Result, ok, err, ◌>>=◌, ◌>>◌,
  guard, occurs, occurs-append, length, length-append, filter, find, any, all, All, All-append,
  All-map, All-filter, includes, ℕ, zero, suc, ◌+◌, ◌-◌, ◌*◌, ◌/◌, ◌%◌, ◌^◌, ◌≤◌, ◌<◌, max, min,
  ◌≡◌, refl, sym, ap, subst, ◌∙◌, ◌≢◌, ◌↔◌, ◌⊎◌, inl, inr, Bool, true, false, not, ◌&&◌, ◌||◌,
  Option, none, some, List, [], ◌∷◌, ◌++◌, map, arith,
}
use telegent.Tunnel.Protocol.{ForwardedRequest, ForwardedResponse}
use telegent.Tunnel.Limits.{RequestGuardInput, Release}
use telegent.Tunnel.Broker.{TunnelBroker, NodeApi}
use telegent.Tunnel.Operations.{
  register, heartbeat, end_route, resolve, snapshot, claim_relay, respond_relay, forward_enter,
  forward_attended, forward_enqueue, forward_release,
}
use telegent.Tunnel.Relay

-- A call with its time, if it reads the clock, and the ids that are minted in it.
pub data Call : Type 0 where
  registers : ℕ → Text → Text → Text → Option Text → Call
  beats : ℕ → Text → Text → Call
  ends : ℕ → Text → Text → Call
  resolves : ℕ → Text → Call
  snapshots : ℕ → Call
  claims : ℕ → Text → Text → Call
  responds : ℕ → Text → Text → Text → ForwardedResponse → Call
  enters : ℕ → RequestGuardInput → Call
  attends : ℕ → Text → Call
  enqueues : ℕ → Text → Text → ForwardedRequest → Call
  releases : Release → Call
  times_out : Text → Call

unfoldable pub step : NodeApi → Call → TunnelBroker → TunnelBroker
step p (registers now rid cid slug target) b = (register p now rid cid slug target b).1
step p (beats now rid cid) b = (heartbeat now rid cid b).1
step p (ends now rid cid) b = (end_route now rid cid b).1
step p (resolves now slug) b = (resolve now slug b).1
step p (snapshots now) b = (snapshot now b).1
step p (claims now rid cid) b = (claim_relay now rid cid b).1
step p (responds now rid cid id response) b = (respond_relay p now rid cid id response b).1
step p (enters now input) b = (forward_enter now input b).1
step p (attends now slug) b = (forward_attended now slug b).1
step p (enqueues now id slug envelope) b = forward_enqueue now id slug envelope b
step p (releases handle) b = forward_release handle b
step p (times_out id) b = record b { relay = Relay.expire id b.relay }

unfoldable pub run : NodeApi → List Call → TunnelBroker → TunnelBroker
unfolding step
run p [] b = b
run p (c ∷ cs) b = run p cs (step p c b)
