-- ===== src/Platform/Metering/Adapter.antt =====
-- src/platform/metering.ts: the hooks of the broker's meter over a ledger. Each record reads the clock
-- of its own, since the calls before it are awaited.
use telegent.Base.{
  Text, codes, text_eq, ◌==◌, if◌then◌else◌, Result, ok, err, ℕ, ◌+◌, ◌/◌, Bool, true, false, ◌&&◌,
  ◌||◌, Option, none, some, [], ◌∷◌,
}
use telegent.Platform.Metering.{
  MeteringLedger, MeteringRecord, MeteringError, QuotaFailure, record_usage, assert_within_quota,
  active_public_rooms, route_minutes, relay_requests, bandwidth_bytes, participant_joins,
}

abbrev pub Recording : Type 0
Recording = Result MeteringError (Option MeteringRecord) × MeteringLedger

-- `await first; await next`: what throws ends the hook.
abbrev pub after : Recording → (MeteringLedger → Recording) → Recording
after (err e, l) next = (err e, l)
after (ok _, l) next = next l

-- `/join`, or `/join?` and more.
abbrev pub starts_with : Text → Text → Bool
starts_with [] s = true
starts_with (a ∷ t) [] = false
starts_with (a ∷ t) (b ∷ s) = a == b && starts_with t s

abbrev pub is_join : Text → Bool
is_join path = text_eq path (codes "/join") || starts_with (codes "/join?") path

-- `Math.round(ms / 60_000)`
abbrev pub rounded_minutes : ℕ → ℕ
rounded_minutes ms = (ms + 30000) / 60000

module _ (subject_for : Text → Text) where
  unfoldable pub on_public_route_registered : ℕ → MeteringLedger → Text → Recording
  on_public_route_registered now l slug =
      record_usage now l (subject_for slug) active_public_rooms (some 1) true

  unfoldable pub on_public_route_closed : ℕ → MeteringLedger → Text → ℕ → Recording
  on_public_route_closed now l slug duration_ms =
      record_usage now l (subject_for slug) route_minutes (some (rounded_minutes duration_ms)) true

  unfoldable pub admit_public_forward : ℕ → MeteringLedger → Text → Result QuotaFailure (Unit {0})
  admit_public_forward now l slug = assert_within_quota now l (subject_for slug) true

  -- The times of the three records, of which the last is made for a join.
  unfoldable pub on_public_forward : ℕ → ℕ → ℕ → MeteringLedger → Text → Text → ℕ → ℕ → Recording
  on_public_forward t u v l slug path bytes_in bytes_out =
      let subject = subject_for slug in
      after (record_usage t l subject relay_requests (some 1) true) λ l₁.
        after (record_usage u l₁ subject bandwidth_bytes (some (bytes_in + bytes_out)) true) λ l₂.
          if is_join path
          then record_usage v l₂ subject participant_joins (some 1) true
          else (ok none, l₂)
