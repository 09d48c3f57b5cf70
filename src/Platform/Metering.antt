-- ===== src/Platform/Metering.antt =====
-- src/platform/metering.ts: cumulative usage of public routing, per subject and window, against the
-- free quota. The files under platform/metering are a map from the subject to its record. The writer
-- lock makes an update one step. A window's id is the number that its text spells; the window's
-- length is positive. Amounts are whole: `none` stands for one that is negative or not finite.
pub mod Ledger
pub mod Adapter
use telegent.Base.{
  Text, codes, text_eq, text_eq→eq, text_eq_refl, text_eq_iff, text_eq_ne, ltb, leb, ◌==◌,
  if◌then◌else◌, ==_iff, Bool-cases, Option-cases, is_some, or_else, Result, ok, err, ◌>>=◌, ◌>>◌,
  guard, occurs, occurs-append, length, length-append, filter, find, any, all, All, All-append,
  All-map, All-filter, includes, ℕ, zero, suc, ◌+◌, ◌-◌, ◌*◌, ◌/◌, ◌%◌, ◌^◌, ◌≤◌, ◌<◌, max, min,
  ◌≡◌, refl, sym, ap, subst, ◌∙◌, ◌≢◌, ◌↔◌, ◌⊎◌, inl, inr, Bool, true, false, not, ◌&&◌, ◌||◌,
  Option, none, some, List, [], ◌∷◌, ◌++◌, map, arith,
}
use telegent.Base.Maps.{Map, lookup, insert}
use telegent.Tunnel.Protocol.{TunnelError, quota_exceeded}

pub data MeteredDimension : Type 0 where
  route_minutes active_public_rooms participant_joins : MeteredDimension
  relay_requests bandwidth_bytes : MeteredDimension

abbrev pub metered_dimensions : List MeteredDimension
metered_dimensions =
    route_minutes ∷ active_public_rooms ∷ participant_joins ∷ relay_requests ∷ bandwidth_bytes ∷ []

pub record Counters : Type 0 where
  pub route_minutes_count : ℕ
  pub active_public_rooms_count : ℕ
  pub participant_joins_count : ℕ
  pub relay_requests_count : ℕ
  pub bandwidth_bytes_count : ℕ

abbrev pub zero_counters : Counters
zero_counters = record {
  route_minutes_count = 0;
  active_public_rooms_count = 0;
  participant_joins_count = 0;
  relay_requests_count = 0;
  bandwidth_bytes_count = 0;
}

abbrev pub default_free_quota : Counters
default_free_quota = record {
  route_minutes_count = 6000;
  active_public_rooms_count = 100;
  participant_joins_count = 10000;
  relay_requests_count = 1000000;
  bandwidth_bytes_count = 50 * 1024 * 1024 * 1024;
}

-- `counters[dimension]`
unfoldable pub counter : MeteredDimension → Counters → ℕ
counter route_minutes c = c.route_minutes_count
counter active_public_rooms c = c.active_public_rooms_count
counter participant_joins c = c.participant_joins_count
counter relay_requests c = c.relay_requests_count
counter bandwidth_bytes c = c.bandwidth_bytes_count

-- `counters[dimension] += amount`
unfoldable pub add_to : MeteredDimension → ℕ → Counters → Counters
add_to route_minutes n c = record c { route_minutes_count = c.route_minutes_count + n }
add_to active_public_rooms n c = record c {
  active_public_rooms_count = c.active_public_rooms_count + n;
}
add_to participant_joins n c = record c { participant_joins_count = c.participant_joins_count + n }
add_to relay_requests n c = record c { relay_requests_count = c.relay_requests_count + n }
add_to bandwidth_bytes n c = record c { bandwidth_bytes_count = c.bandwidth_bytes_count + n }

pub record MeteringWindow : Type 0 where
  pub window_id : ℕ
  pub started_at : ℕ
  pub counters : Counters

pub record MeteringRecord : Type 0 where
  pub subject : Text
  pub window : MeteringWindow
  pub exceeded : Bool
  pub exceeded_reasons : List MeteredDimension
  pub updated_at : ℕ

pub record MeteringLedger : Type 0 where
  pub store : Map MeteringRecord
  pub quota : Counters
  pub window_ms : ℕ

abbrev pub new_ledger : Counters → ℕ → MeteringLedger
new_ledger quota window_ms = record { store = []; quota = quota; window_ms = window_ms }

pub data MeteringError : Type 0 where
  invalid_subject invalid_amount : MeteringError

-- One unit of `[A-Za-z0-9_-]`.
unfoldable pub is_subject_unit : ℕ → Bool
is_subject_unit c =
    leb b'a' c && leb c b'z'
    || leb b'A' c && leb c b'Z'
    || leb b'0' c && leb c b'9'
    || c == b'_'
    || c == b'-'

-- `/^[a-zA-Z0-9_-]{1,128}$/`
unfoldable pub subject_pattern : Text → Bool
unfolding is_subject_unit
subject_pattern s = leb 1 (length s) && leb (length s) 128 && all is_subject_unit s

unfoldable pub window_for : ℕ → ℕ → Option MeteringRecord → MeteringWindow
window_for now window_ms none = record {
  window_id = now / window_ms;
  started_at = now;
  counters = zero_counters;
}
window_for now window_ms (some existing) =
    if existing.window.window_id == now / window_ms
    then existing.window
    else record { window_id = now / window_ms; started_at = now; counters = zero_counters }

unfoldable pub exceeded_dimensions : Counters → Counters → List MeteredDimension
unfolding counter
exceeded_dimensions quota c = filter (λ d. ltb (counter d quota) (counter d c)) metered_dimensions

unfoldable pub finalize : ℕ → Counters → Text → MeteringWindow → MeteringRecord
unfolding exceeded_dimensions
finalize now quota subject window =
    let reasons = exceeded_dimensions quota window.counters in
    record {
      subject = subject;
      window = window;
      exceeded = ltb 0 (length reasons);
      exceeded_reasons = reasons;
      updated_at = now;
    }

-- The mutator of `record`, on the record that the store holds.
unfoldable pub metered : ℕ → MeteringLedger → Text → MeteredDimension → ℕ → MeteringRecord
unfolding window_for finalize add_to
metered now l subject dimension amount =
    let window = window_for now l.window_ms (lookup subject l.store) in
    finalize now l.quota subject
      (record window { counters = add_to dimension amount window.counters })

-- `record`; `none` is the answer for a local-only route, which is not metered.
unfoldable pub record_usage :
    ℕ
    → MeteringLedger
    → Text
    → MeteredDimension
    → Option ℕ
    → Bool
    → Result MeteringError (Option MeteringRecord) × MeteringLedger
unfolding metered
record_usage now l subject dimension amount is_public =
    if not is_public
    then (ok none, l)
    else if not (subject_pattern subject)
    then (err invalid_subject, l)
    else elim amount [
      | none ↦ (err invalid_amount, l)
      | some n ↦ (
        ok (some (metered now l subject dimension n)),
        record l { store = insert subject (metered now l subject dimension n) l.store },
      )
    ]

unfoldable pub usage : ℕ → MeteringLedger → Text → Result MeteringError MeteringRecord
unfolding window_for finalize
usage now l subject =
    if subject_pattern subject
    then ok (finalize now l.quota subject (window_for now l.window_ms (lookup subject l.store)))
    else err invalid_subject

pub record QuotaSignal : Type 0 where
  pub exceeded : Bool
  pub reasons : List MeteredDimension

unfoldable pub check : ℕ → MeteringLedger → Text → Result MeteringError QuotaSignal
unfolding usage
check now l subject = do
  r ← usage now l subject
  ok (record { exceeded = r.exceeded; reasons = r.exceeded_reasons })

-- What `assertWithinQuota` throws.
pub data QuotaFailure : Type 0 where
  tunnel : TunnelError → QuotaFailure
  metering : MeteringError → QuotaFailure

unfoldable pub assert_within_quota :
    ℕ → MeteringLedger → Text → Bool → Result QuotaFailure (Unit {0})
unfolding check
assert_within_quota now l subject is_public =
    if not is_public then ok tt else elim (check now l subject) [
      | err e ↦ err (metering e)
      | ok signal ↦
          if signal.exceeded
          then err (tunnel (record { code = quota_exceeded; status = 429 }))
          else ok tt
    ]
