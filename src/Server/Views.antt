-- ===== src/Server/Views.antt =====
-- src/server/http.ts: what the server shows of a room. The views leave out the tokens' hashes.
pub mod Attendance
use telegent.Base.{
  Text, codes, text_eq, text_eq→eq, text_eq_refl, text_eq_iff, text_eq_ne, ltb, leb, ◌==◌,
  if◌then◌else◌, ==_iff, Bool-cases, Option-cases, is_some, or_else, Result, ok, err, ◌>>=◌, ◌>>◌,
  guard, occurs, occurs-append, length, length-append, filter, find, any, all, All, All-append,
  All-map, All-filter, includes, ℕ, zero, suc, ◌+◌, ◌-◌, ◌*◌, ◌/◌, ◌%◌, ◌^◌, ◌≤◌, ◌<◌, max, min,
  ◌≡◌, refl, sym, ap, subst, ◌∙◌, ◌≢◌, ◌↔◌, ◌⊎◌, inl, inr, Bool, true, false, not, ◌&&◌, ◌||◌,
  Option, none, some, List, [], ◌∷◌, ◌++◌, map, arith,
}
use telegent.Protocol.Types.{
  Participant, ParticipantKind, ParticipantAttention, AttendancePolicy, RoomStatus,
  agents_foreground, all_foreground, manual_ok, attending, managed,
}
use telegent.Protocol.Boardroom.{Boardroom, Channel, ChannelType, ChannelLifecycle}
use telegent.Storage.RoomStore.{RoomFiles}
use telegent.Storage.BoardroomStore.{BoardroomFiles, read_boardroom}

abbrev pub attendance_stale_after_ms : ℕ
attendance_stale_after_ms = 90000

pub record PublicChannel : Type 0 where
  pub id : Text
  pub name : Text
  pub type : ChannelType
  pub lifecycle : ChannelLifecycle
  pub created_at : ℕ

pub record PublicBoardroom : Type 0 where
  pub id : Text
  pub lifecycle : ChannelLifecycle
  pub legacy : Bool
  pub created_at : ℕ
  pub updated_at : ℕ
  pub name : Option Text
  pub channels : List PublicChannel

abbrev pub public_channel : Channel → PublicChannel
public_channel c = record {
  id = c.id;
  name = c.name;
  type = c.type;
  lifecycle = c.lifecycle;
  created_at = c.created_at;
}

unfoldable pub public_boardroom : Boardroom → PublicBoardroom
public_boardroom b = record {
  id = b.id;
  lifecycle = b.lifecycle;
  legacy = b.legacy;
  created_at = b.created_at;
  updated_at = b.updated_at;
  name = b.name;
  channels = map (λ c. public_channel c) b.channels;
}

pub data AttendanceState : Type 0 where
  shown : ParticipantAttention → AttendanceState
  not_attending stale : AttendanceState

-- The participant without its token's hash, and what is derived of it.
pub record PublicParticipant : Type 0 where
  pub participant : Participant
  pub attendance_required : Bool
  pub attendance_state : AttendanceState
  pub last_seen_age_ms : ℕ
  pub stale_after_ms : ℕ

abbrev pub is_system : ParticipantKind → Bool
is_system ParticipantKind.system = true
is_system _ = false

abbrev pub is_agent : ParticipantKind → Bool
is_agent ParticipantKind.agent = true
is_agent _ = false

unfoldable pub is_foreground_required : AttendancePolicy → Participant → Bool
is_foreground_required policy p =
    if is_some p.removed_at || is_system p.kind
    then false
    else elim policy [ agents_foreground ↦ is_agent p.kind | all_foreground ↦ true | _ ↦ false ]

abbrev pub is_foreground : ParticipantAttention → Bool
is_foreground attending = true
is_foreground managed = true
is_foreground _ = false

abbrev pub attendance_state_of : Bool → ℕ → ParticipantAttention → AttendanceState
attendance_state_of required age attention =
    if required && not (is_foreground attention)
    then not_attending
    else if is_foreground attention && ltb attendance_stale_after_ms age
    then stale
    else shown attention

-- `Math.max(0, now - lastSeenAt)` is the subtraction that stops at 0.
unfoldable pub public_participant : AttendancePolicy → ℕ → Participant → PublicParticipant
unfolding is_foreground_required
public_participant policy now p =
    let age = now - p.last_seen_at in
    let required = is_foreground_required policy p in
    record {
      participant = record p { token_hash = none };
      attendance_required = required;
      attendance_state = attendance_state_of required age p.attention;
      last_seen_age_ms = age;
      stale_after_ms = attendance_stale_after_ms;
    }

pub record StatusReply : Type 0 where
  pub room : Text
  pub me : Text
  pub is_host : Bool
  pub room_status : RoomStatus
  pub brief_version : ℕ
  pub attendance_policy : AttendancePolicy
  pub stale_after_ms : ℕ
  pub brief_updated_at : ℕ
  pub brief_updated_by : Text
  pub boardroom : PublicBoardroom
  pub participants : List PublicParticipant

unfoldable pub get_status : ℕ → Participant → BoardroomFiles → StatusReply
unfolding public_boardroom public_participant read_boardroom
get_status now p f =
    let state = f.room.state in
    record {
      room = state.id;
      me = p.alias;
      is_host = p.is_host;
      room_status = state.status;
      brief_version = state.brief_version;
      attendance_policy = state.attendance_policy;
      stale_after_ms = attendance_stale_after_ms;
      brief_updated_at = state.brief_updated_at;
      brief_updated_by = state.brief_updated_by;
      boardroom = public_boardroom (read_boardroom f);
      participants =
          map (λ q. public_participant state.attendance_policy now q) f.room.participants;
    }

unfoldable pub get_boardroom : BoardroomFiles → PublicBoardroom
unfolding public_boardroom read_boardroom
get_boardroom f = public_boardroom (read_boardroom f)
