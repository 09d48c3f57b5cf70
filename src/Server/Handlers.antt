-- ===== src/Server/Handlers.antt =====
-- src/server/http.ts: the handlers behind `requireParticipant`, on the participant `p` that the request
-- was admitted with. The clock readings of one handler are taken as one. A body is given by the fields
-- that the handler reads.
pub mod Deliveries
pub mod Updates
pub mod Posting
use telegent.Base.{
  Text, codes, text_eq, text_eq→eq, text_eq_refl, text_eq_iff, text_eq_ne, ltb, leb, ◌==◌,
  if◌then◌else◌, ==_iff, Bool-cases, Option-cases, is_some, or_else, Result, ok, err, ◌>>=◌, ◌>>◌,
  guard, occurs, occurs-append, length, length-append, filter, find, any, all, All, All-append,
  All-map, All-filter, includes, ℕ, zero, suc, ◌+◌, ◌-◌, ◌*◌, ◌/◌, ◌%◌, ◌^◌, ◌≤◌, ◌<◌, max, min,
  ◌≡◌, refl, sym, ap, subst, ◌∙◌, ◌≢◌, ◌↔◌, ◌⊎◌, inl, inr, Bool, true, false, not, ◌&&◌, ◌||◌,
  Option, none, some, List, [], ◌∷◌, ◌++◌, map, arith,
}
use telegent.Base.Maps.{Map, lookup}
use telegent.Base.Decimal.{decimal}
use telegent.Protocol.Types.{
  Participant, ParticipantKind, ParticipantAttention, AttendancePolicy, AttentionMode, Message,
  RoomState, RoomStatus, open_room, closed_room, attending, away,
}
use telegent.Protocol.Attendance.{parse_attendance_policy, attendance_policies}
use telegent.Protocol.Attention.{normalize_supported_modes, negotiate_participant_attention}
use telegent.Protocol.Boardroom.{find_name_owner_conflict, default_channel_id, Claimant}
use telegent.Protocol.Messages.{Field, RawMessage, absent, string, number}
use telegent.Protocol.Validation.{is_space}
use telegent.Storage.RoomStore.{
  RoomFiles, RoomBrief, AppendMessageResult, max_brief_length, brief_of, update_brief,
  update_attendance_policy, upsert_participant, append_message_result, close_room,
}
use telegent.Server.Errors.{
  HttpError, HttpErrorCode, http_error, invalid_body, brief_too_large, invalid_policy,
  invalid_display_name, display_name_taken, invalid_supported_modes, invalid_cadence,
  unsupported_channel, participant_mismatch,
}
use telegent.Server.Errors
use telegent.Server.Guards.{
  parse_display_name, parse_since_id, enforce_rate_limit, enforce_loop_guard, room_key,
}
use telegent.Server.WaitHub.{WaitHub, WaitResponse, WaitInput, build_wait_response, last_id, wait}
use telegent.Server.Bodies.{
  brief_body, policy_body, ModesField, AttentionBody, Declaration, declared_modes, positive_seconds,
  parse_attention_declaration, or_kept, declare, with_negotiated_attention, display_name_body,
  free_name, check_channel, check_waiter,
}
use telegent.Server.Room.{
  ServerApi, RoomServer, RoomOptions, Handler, ◌then◌, answer, require, sent, stored, notify_room,
  append_system, require_host, touch_participant, close_stored, close_expired_room,
  require_room_open, advertised_base_url,
}

pub record MessagesReply : Type 0 where
  pub messages : List Message
  pub next_since_id : ℕ

-- What a handler answers with. Of the participant of a profile `public_participant` of Server/Views is sent.
pub data Reply : Type 0 where
  brief_reply : RoomBrief → Reply
  policy_reply : AttendancePolicy → Reply
  profile_reply : Participant → Reply
  joined : Text → Reply
  messages_reply : MessagesReply → Reply
  message_reply : AppendMessageResult → Reply
  wait_reply : WaitResponse → Reply
  removed_reply : RoomStatus → ℕ → Reply
  -- The request waits, and is answered once it is notified or its time is over.
  waiting : Reply
  left : Reply
  closed_reply : RoomStatus → Reply

unfoldable pub get_brief : Handler Reply
get_brief s = (ok (brief_reply (brief_of s.files)), s)

unfoldable pub post_brief : ℕ → Participant → Field → Handler Reply
unfolding decimal
post_brief now p body s =
    ((require_host p) then λ _. (require (brief_body body)) then λ text.
    (stored (update_brief now s.options.room_id text p.alias)) then λ brief.
    (append_system now (codes "Room brief updated to v" ++ decimal brief.brief_version)) then λ _.
    notify_room then λ _. answer (brief_reply brief))
      s

unfoldable pub post_attendance : ℕ → Participant → Field → Handler Reply
post_attendance now p body s =
    ((require_host p) then λ _. (require (policy_body body)) then λ named.
    (stored (update_attendance_policy now s.options.room_id named.1 p.alias)) then λ state.
    (append_system now (codes "Attendance policy set to " ++ named.0)) then λ _.
    notify_room then λ _. answer (policy_reply state.attendance_policy))
      s

-- What a profile and a join write.
abbrev pub profiled : ℕ → Text → Declaration → Participant → Participant
profiled now name d p =
    with_negotiated_attention
      (record (declare d p) { display_name = some name; last_seen_at = now })

abbrev pub rejoined : ℕ → Declaration → Participant → Participant
rejoined now d p =
    with_negotiated_attention
      (record (declare d p) { removed_at = none; attention = attending; last_seen_at = now })

unfoldable pub post_profile : ServerApi → ℕ → Participant → Field → AttentionBody → Handler Reply
unfolding parse_attention_declaration
post_profile api now p display_name body s =
    ((require (display_name_body display_name)) then λ name.
    (require (free_name api p name s.files)) then λ _.
    (require (parse_attention_declaration body)) then λ d.
    (stored (upsert_participant (profiled now name d p))) then λ _.
    answer (profile_reply (profiled now name d p)))
      s

-- `joinedAt || now` keeps a time of joining that is there.
unfoldable pub post_join : ℕ → Participant → AttentionBody → Handler Reply
unfolding parse_attention_declaration
post_join now p body = (require (parse_attention_declaration body)) then λ d.
    (stored (upsert_participant (rejoined now d p))) then λ _.
    (append_system now (p.alias ++ codes " joined")) then λ _.
    notify_room then λ _. answer (joined p.alias)

abbrev pub after_id : ℕ → List Message → List Message
after_id since ms = filter (λ m. ltb since m.id) ms

abbrev pub read_after : ℕ → Handler Reply
read_after since s =
    let ms = after_id since s.files.messages in
    (ok (messages_reply (record { messages = ms; next_since_id = last_id since ms })), s)

unfoldable pub get_messages :
    ServerApi → ℕ → Participant → Option Text → Option Text → Handler Reply
get_messages api now p channel since_id = (require (check_channel channel)) then λ _.
    (touch_participant now p p.attention) then λ _.
    (require (parse_since_id api.to_number since_id)) then λ since. read_after since

abbrev pub limit_rate : ℕ → Participant → Handler (Unit {0})
limit_rate now p s =
    let (r, buckets) =
      enforce_rate_limit now (room_key s.options.room_id p.alias) s.options.rate_limit_per_minute
        s.rate_buckets in
    (r, record s { rate_buckets = buckets })

abbrev pub limit_loop : Participant → Handler (Unit {0})
limit_loop p s =
    let (r, counts) =
      enforce_loop_guard s.options.room_id p s.options.loop_guard_limit s.loop_counts in
    (r, record s { loop_counts = counts })

abbrev pub announce : AppendMessageResult → Handler Reply
announce r =
    if r.idempotent
    then answer (message_reply r)
    else (notify_room then λ _. answer (message_reply r))

unfoldable pub post_message : ℕ → Participant → Option RawMessage → Handler Reply
post_message now p body s =
    ((touch_participant now p p.attention) then λ _. (require_room_open now) then λ _.
    (limit_rate now p) then λ _. (limit_loop p) then λ _.
    (stored
      (append_message_result now s.options.room_id p.alias body (some s.options.max_messages)))
    then λ r. announce r)
      s

-- `waitSnapshot`: the answer to a wait that can be given at once.
abbrev pub wait_answer : ServerApi → Text → ℕ → RoomState → RoomServer → Option WaitResponse
wait_answer api alias since state s = elim state.status [
  | closed_room ↦ some (
      build_wait_response api.urls (record {
        room = s.options.room_id;
        room_status = closed_room;
        participant = alias;
        messages = [];
        since_id = since;
        base_url = advertised_base_url api s.options;
        heartbeat = false;
        keep_waiting = false;
      }))
  | open_room ↦ elim (after_id since s.files.messages) [
    | [] ↦ none
    | (m ∷ ms) ↦ some (
        build_wait_response api.urls (record {
          room = s.options.room_id;
          room_status = open_room;
          participant = alias;
          messages = m ∷ ms;
          since_id = since;
          base_url = s.options.base_url;
          heartbeat = false;
          keep_waiting = false;
        }))
  ]
]

unfoldable pub wait_snapshot : ServerApi → ℕ → Text → ℕ → Handler (Option WaitResponse)
wait_snapshot api now alias since =
    (close_expired_room now) then λ state. λ s. (ok (wait_answer api alias since state s), s)

abbrev pub wait_or : Text → Option WaitResponse → Handler Reply
wait_or waiter (some r) s = (ok (wait_reply r), s)
wait_or waiter none s = (ok waiting, record s { hub = wait s.options.room_id waiter s.hub })

abbrev pub enter_wait : ServerApi → ℕ → Participant → Text → ℕ → Handler Reply
enter_wait api now p waiter since =
    if is_some p.removed_at
    then ((close_expired_room now) then λ state. answer (removed_reply state.status since))
    else ((wait_snapshot api now p.alias since) then λ r. wait_or waiter r)

-- `getWait` up to the point where it waits.
unfoldable pub get_wait :
    ServerApi → ℕ → Participant → Text → Option Text → Option Text → Handler Reply
get_wait api now p waiter since_id participant =
    (if is_some p.removed_at then answer tt else touch_participant now p attending) then λ _.
    (require (parse_since_id api.to_number since_id)) then λ since.
    (require (check_waiter p participant)) then λ _. enter_wait api now p waiter since

-- What it answers once it has waited: a heartbeat, if there is nothing new.
unfoldable pub resume_wait : ServerApi → ℕ → Participant → ℕ → Handler Reply
resume_wait api now p since = (wait_snapshot api now p.alias since) then λ r. λ s. (
  ok (
      wait_reply (
        or_else r (
          build_wait_response api.urls (record {
            room = s.options.room_id;
            room_status = open_room;
            participant = p.alias;
            messages = [];
            since_id = since;
            base_url = advertised_base_url api s.options;
            heartbeat = true;
            keep_waiting = true;
          })))),
  s,
)

unfoldable pub post_leave : ℕ → Participant → Handler Reply
post_leave now p =
    (stored (upsert_participant (record p { attention = away; last_seen_at = now }))) then λ _.
    (append_system now (p.alias ++ codes " left")) then λ _. notify_room then λ _. answer left

unfoldable pub post_close : ℕ → Participant → Handler Reply
post_close now p = (require_host p) then λ _. (close_stored now) then λ state.
    (append_system now (codes "room closed")) then λ _.
    notify_room then λ _. answer (closed_reply state.status)
