-- ===== src/Server/Bodies.antt =====
-- src/server/http.ts: what the handlers read from a request's body and query.
use telegent.Base.{
  Text, text_eq, leb, if◌then◌else◌, is_some, Result, ok, err, ◌>>=◌, guard, length, ℕ, not, Option,
  none, some, List,
}
use telegent.Protocol.Types.{Participant, AttendancePolicy, AttentionMode}
use telegent.Protocol.Attendance.{parse_attendance_policy}
use telegent.Protocol.Attention.{
  AttentionError, NegotiatedAttention, normalize_supported_modes, negotiate_participant_attention,
}
use telegent.Protocol.Boardroom.{find_name_owner_conflict, default_channel_id, Claimant}
use telegent.Protocol.Messages.{Field, absent, string, number}
use telegent.Storage.RoomStore.{RoomFiles, max_brief_length}
use telegent.Server.Errors.{
  HttpError, http_error, invalid_body, brief_too_large, invalid_policy, invalid_display_name,
  display_name_taken, invalid_supported_modes, invalid_cadence, unsupported_channel,
  participant_mismatch,
}
use telegent.Server.Guards.{parse_display_name}
use telegent.Server.Room.{ServerApi, ◌then◌}

abbrev pub brief_body : Field → Result HttpError Text
brief_body (string body) =
    if not (leb (length body) max_brief_length)
    then err (http_error 413 brief_too_large)
    else ok body
brief_body _ = err (http_error 400 invalid_body)

abbrev pub policy_body : Field → Result HttpError (Text × AttendancePolicy)
policy_body (string body) = elim (parse_attendance_policy body) [
  | none ↦ err (http_error 400 invalid_policy)
  | some policy ↦ ok (body, policy)
]
policy_body _ = err (http_error 400 invalid_policy)

-- The declaration of attention in a body: the modes as strings, unless they are absent or no such list,
-- and the two cadences.
pub data ModesField : Type 0 where
  no_modes malformed_modes : ModesField
  modes : List Text → ModesField

pub record AttentionBody : Type 0 where
  pub supported_modes : ModesField
  pub poll_cadence_s : Field
  pub safety_wake_s : Field

pub record Declaration : Type 0 where
  pub supported_modes : Option (List AttentionMode)
  pub poll_cadence_s : Option ℕ
  pub safety_wake_s : Option ℕ

abbrev pub declared_modes : ModesField → Result HttpError (Option (List AttentionMode))
declared_modes no_modes = ok none
declared_modes malformed_modes = err (http_error 400 invalid_supported_modes)
declared_modes (modes raws) = elim (normalize_supported_modes raws) [
  | err e ↦ err (http_error 400 invalid_supported_modes)
  | ok ms ↦ ok (some ms)
]

-- Of the positive numbers only the whole ones are modelled.
abbrev pub positive_seconds : Field → Result HttpError (Option ℕ)
positive_seconds absent = ok none
positive_seconds (number n) = if leb n 0 then err (http_error 400 invalid_cadence) else ok (some n)
positive_seconds _ = err (http_error 400 invalid_cadence)

unfoldable pub parse_attention_declaration : AttentionBody → Result HttpError Declaration
parse_attention_declaration body = declared_modes body.supported_modes >>= λ ms.
    positive_seconds body.poll_cadence_s >>= λ poll.
    positive_seconds body.safety_wake_s >>= λ safety.
    ok (record { supported_modes = ms; poll_cadence_s = poll; safety_wake_s = safety })

-- `{ ...participant, ...declared }`: what was not declared stays.
abbrev pub or_kept {ℓ} : {A : Type ℓ} → Option A → Option A → Option A
or_kept none old = old
or_kept (some a) old = some a

abbrev pub declare : Declaration → Participant → Participant
declare d p = record p {
  supported_modes = or_kept d.supported_modes p.supported_modes;
  poll_cadence_s = or_kept d.poll_cadence_s p.poll_cadence_s;
  safety_wake_s = or_kept d.safety_wake_s p.safety_wake_s;
}

-- Stored modes are of the type, on which the negotiation never throws: `err` does not come.
abbrev pub negotiated : Participant → Result AttentionError NegotiatedAttention → Participant
negotiated p (ok n) = record p {
  supported_modes = some n.supported_modes;
  requested_mode = some n.requested_mode;
  effective_mode = some n.effective_mode;
}
negotiated p (err _) = p

unfoldable pub with_negotiated_attention : Participant → Participant
unfolding negotiate_participant_attention
with_negotiated_attention p = negotiated p (negotiate_participant_attention p)

abbrev pub display_name_body : Field → Result HttpError Text
display_name_body (string name) = parse_display_name name
display_name_body _ = err (http_error 400 invalid_display_name)

abbrev pub free_name : ServerApi → Participant → Text → RoomFiles → Result HttpError (Unit {0})
free_name api p name files =
    let claimant : Claimant = record { alias = p.alias; token_hash = p.token_hash } in
    guard (not (is_some (find_name_owner_conflict api.lower files.participants name claimant)))
      (http_error 409 display_name_taken)

abbrev pub check_channel : Option Text → Result HttpError (Unit {0})
check_channel none = ok tt
check_channel (some channel) =
    guard (text_eq channel default_channel_id) (http_error 400 unsupported_channel)

abbrev pub check_waiter : Participant → Option Text → Result HttpError (Unit {0})
check_waiter p none = ok tt
check_waiter p (some alias) = guard (text_eq alias p.alias) (http_error 403 participant_mismatch)
