-- ===== src/Protocol/Types.antt =====
-- src/protocol/types.ts. A timestamp is the number of milliseconds that its ISO text stands for.
use telegent.Base.{Text, ℕ, Bool, Option, List}

pub data ParticipantKind : Type 0 where
  agent human system : ParticipantKind

pub data ParticipantLocation : Type 0 where
  local remote : ParticipantLocation

pub data ParticipantInstall : Type 0 where
  lite core host : ParticipantInstall

pub data ParticipantAttention : Type 0 where
  manual attending standby away managed : ParticipantAttention

pub data AttentionMode : Type 0 where
  foreground_attended wake_on_event heartbeat manual : AttentionMode

pub data RoomStatus : Type 0 where
  open_room closed_room : RoomStatus

pub data AttendancePolicy : Type 0 where
  manual_ok agents_foreground all_foreground host_directed : AttendancePolicy

pub data MessageType : Type 0 where
  message question reply status request_review request_debug handoff system : MessageType

pub record RoomState : Type 0 where
  pub id : Text
  pub status : RoomStatus
  pub attendance_policy : AttendancePolicy
  pub created_at : ℕ
  pub updated_at : ℕ
  pub expires_at : Option ℕ
  pub next_message_id : ℕ
  pub brief_version : ℕ
  pub brief_updated_at : ℕ
  pub brief_updated_by : Text

pub record Participant : Type 0 where
  pub alias : Text
  pub display_name : Option Text
  pub kind : ParticipantKind
  pub location : ParticipantLocation
  pub install : ParticipantInstall
  pub attention : ParticipantAttention
  pub is_host : Bool
  pub token_hash : Option Text
  pub removed_at : Option ℕ
  pub joined_at : ℕ
  pub last_seen_at : ℕ
  pub supported_modes : Option (List AttentionMode)
  pub requested_mode : Option AttentionMode
  pub effective_mode : Option AttentionMode
  pub poll_cadence_s : Option ℕ
  pub safety_wake_s : Option ℕ
  pub forum_review_channel : Option Text

pub record Message : Type 0 where
  pub id : ℕ
  pub room : Text
  pub ts : ℕ
  pub from : Text
  pub type : MessageType
  pub text : Text
  pub reply_to : Option ℕ
  pub client_msg_id : Option Text
  pub mentions : List Text

pub record ClientMessageInput : Type 0 where
  pub text : Text
  pub type : Option MessageType
  pub reply_to : Option ℕ
  pub client_msg_id : Option Text
