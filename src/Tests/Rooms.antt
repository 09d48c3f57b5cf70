-- ===== src/Tests/Rooms.antt =====
-- The theorems on the rooms' protocol and the platform at concrete input.
use telegent.Base.{
  Text, codes, text_eq, ok, err, occurs, ◌≤◌, ◌≡◌, refl, true, false, none, some, List, [], ◌∷◌,
  arith,
}
use telegent.Base.Maps.{lookup}
use telegent.Tests.{team, broker}
use telegent.Protocol.Types.{
  AttentionMode, ParticipantKind, Participant, ParticipantLocation, ParticipantInstall,
  ParticipantAttention, open_room,
}
use telegent.Protocol.Attention.{
  negotiate_effective_mode, negotiate_participant_attention, NegotiatedAttention, attention_rank,
}
use telegent.Protocol.Attention.Negotiation.{negotiate_best, negotiate_participant_best}
use telegent.Protocol.Validation.{is_safe_slug, is_space}
use telegent.Protocol.Mentions.{analyze_mentions, mask_code, matches}
use telegent.Protocol.Mentions.Analysis.{occurs-analyze_mentions}
use telegent.Tunnel.Protocol
use telegent.Tunnel.Broker.{current_route}
use telegent.Platform.Status.{
  derive_platform_status, route_signal_from_metadata, HostStatusSignal, active,
}
use telegent.Platform.Status.Derivation.{active_iff}
use telegent.Platform.Metering.{
  usage, new_ledger, default_free_quota, counter, assert_within_quota, subject_pattern,
  MeteringRecord, QuotaFailure, relay_requests, Counters,
}
use telegent.Platform.Metering.Ledger.{Recorded, replay, usage-total, quota_denies}

abbrev quota : Counters
quota = record default_free_quota { relay_requests_count = 4 }

-- The newest call comes first.
abbrev history : List Recorded
history =
    record { at = 7000; subject = team; dimension = relay_requests; amount = 3 }
    ∷ record { at = 6500; subject = team; dimension = relay_requests; amount = 2 }
    ∷ record { at = 100; subject = team; dimension = relay_requests; amount = 9 }
    ∷ []

usage-total_example :
    (r : MeteringRecord) × (usage 7500 (replay (new_ledger quota 5000) history) team ≡ ok r)
    × (counter relay_requests r.window.counters ≡ 5)
unfolding text_eq subject_pattern
usage-total_example =
    let recorded =
      usage-total quota 5000 7500 team history (omega arith) refl
        (omega arith, refl, (omega arith, refl, (omega arith, refl, tt))) in
    (recorded.0, recorded.1, recorded.2 relay_requests)

quota_denies_example :
    assert_within_quota 7500 (replay (new_ledger quota 5000) history) team true
    ≡ err (QuotaFailure.tunnel (record { code = Protocol.quota_exceeded; status = 429 }))
unfolding text_eq subject_pattern counter
quota_denies_example =
    quota_denies quota 5000 7500 team history (omega arith) refl
      (omega arith, refl, (omega arith, refl, (omega arith, refl, tt)))

abbrev declared : List AttentionMode
declared = AttentionMode.manual ∷ AttentionMode.heartbeat ∷ AttentionMode.wake_on_event ∷ []

negotiate_best_example :
    attention_rank AttentionMode.heartbeat
    ≤ attention_rank (negotiate_effective_mode declared AttentionMode.heartbeat)
negotiate_best_example = (negotiate_best declared AttentionMode.heartbeat).0

abbrev bot : Participant
bot = record {
  alias = codes "bot";
  display_name = none;
  kind = ParticipantKind.agent;
  location = ParticipantLocation.remote;
  install = ParticipantInstall.lite;
  attention = ParticipantAttention.attending;
  is_host = false;
  token_hash = none;
  removed_at = none;
  joined_at = 1000;
  last_seen_at = 1000;
  supported_modes = some declared;
  requested_mode = some AttentionMode.foreground_attended;
  effective_mode = none;
  poll_cadence_s = none;
  safety_wake_s = none;
  forum_review_channel = none;
}

negotiate_participant_best_example :
    (n : NegotiatedAttention) × (negotiate_participant_attention bot ≡ ok n)
    × (n.requested_mode ≡ AttentionMode.foreground_attended)
negotiate_participant_best_example =
    let best = negotiate_participant_best bot in (best.0, best.1, best.2)

abbrev attended : HostStatusSignal
attended = record {
  room_status = open_room;
  participants =
      record {
        kind = ParticipantKind.agent;
        attendance_required = true;
        attendance_state = codes "attending";
      }
      ∷ [];
}

active_iff_example :
    (derive_platform_status
      (route_signal_from_metadata (current_route 2000 team broker).0)
      attended).status
    ≡ active
unfolding lookup text_eq
active_iff_example = (active_iff 2000 team broker attended).1 (refl, refl, λ e. cc, refl)

abbrev text : Text
text = codes "@bot and @eve, (@bot) `@cat`"

occurs-analyze_mentions_example :
    (occurs (codes "bot") (analyze_mentions text (codes "bot" ∷ codes "cat" ∷ [])).mentions ≡ 1)
    × (occurs (codes "cat") (analyze_mentions text (codes "bot" ∷ codes "cat" ∷ [])).mentions ≡ 0)
unfolding mask_code matches is_safe_slug is_space text_eq
occurs-analyze_mentions_example = (
  (occurs-analyze_mentions text (codes "bot" ∷ codes "cat" ∷ []) (codes "bot")).0,
  (occurs-analyze_mentions text (codes "bot" ∷ codes "cat" ∷ []) (codes "cat")).0,
)
