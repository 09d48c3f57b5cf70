-- ===== src/Tests/Server.antt =====
-- The theorems on the server of a room at concrete requests.
use telegent.Base.{
  Text, codes, text_eq, min, ◌≡◌, refl, true, false, ◌||◌, none, some, List, [], ◌∷◌, ◌++◌, arith,
}
use telegent.Base.{All}
use telegent.Server.Views.{get_status}
use telegent.Server.Views.Attendance.{IsShown, get_status-IsShown}
use telegent.Base.Maps.{lookup, insert}
use telegent.Protocol.Types.{
  Participant, ParticipantKind, ParticipantLocation, ParticipantInstall, ParticipantAttention,
  Message, MessageType,
}
use telegent.Protocol.Messages.{
  Field, RawMessage, client_message_input_from_record, parse_client_message_id,
  parse_client_message_type, build_message,
}
use telegent.Protocol.Boardroom.{find_name_owner_conflict}
use telegent.Protocol.Mentions.{parse_mentions}
use telegent.Protocol.Validation.{is_safe_slug, is_space}
use telegent.Storage.RoomStore.{
  RoomFiles, new_room, append_message_result, append_input, append_found, append_line,
  count_message, upsert_participant, put_participant,
}
use telegent.Storage.RoomStore.Changes.Ids.{IsExact}
use telegent.Server.Guards.{
  is_localhost, before_colon, enforce_loop_guard, enforce_rate_limit, parse_display_name,
}
use telegent.Server.Guards.Exposure.{is_localhost-before_colon}
use telegent.Server.Guards.Limits.{passed_by, sent_by, passed_by-sent_by}
use telegent.Server.WaitHub.{wait, waiters_of, new_wait_hub}
use telegent.Server.Bodies.{
  AttentionBody, no_modes, parse_attention_declaration, with_negotiated_attention,
}
use telegent.Server.Room.{
  ServerApi, RoomServer, verify_token, touch_participant, require_room_open, close_expired_room,
}
use telegent.Server.Handlers.{post_profile, get_messages, post_message, message_reply}
use telegent.Protocol.Types.{open_room}
use telegent.Server.Handlers.Deliveries.{delivered, delivered-last_log}
use telegent.Server.Handlers.Updates.{recorded, profile_reverted}
use telegent.Server.Handlers.Posting.{post_message-releases}
use telegent.Server.Forum.{ForumServer, PostBody, posts}
use telegent.Server.Room.{require_participant, has_expired}
use telegent.Server.Requests.{
  handle, handle_room, posts_message, room_answer, of_room, of_forum, gets_status, posts_brief,
  closes, serve, Event, arrives, admitted_before, leaves, happen_all,
}
use telegent.Server.Requests.Numbering.{happen_all-IsExact}
use telegent.Server.Requests.Opening.{serve-IsOpen}
use telegent.Server.Requests.Authority.{settings, settings-serve}

abbrev den : Text
den = codes "den"

-- Hashes and URLs that are left as they are.
abbrev api : ServerApi
api = record {
  sha256_hex = λ s. s;
  hex_bytes = λ s. s;
  to_number = λ s. none;
  origin_of = λ s. some s;
  urls = record { href = λ s. some s; resolve = λ path base. some (base ++ path) };
  lower = λ s. s;
}

abbrev person : Participant
person = record {
  alias = codes "ann";
  display_name = none;
  kind = ParticipantKind.human;
  location = ParticipantLocation.local;
  install = ParticipantInstall.core;
  attention = ParticipantAttention.attending;
  is_host = true;
  token_hash = some (codes "a");
  removed_at = none;
  joined_at = 1000;
  last_seen_at = 1000;
  supported_modes = none;
  requested_mode = none;
  effective_mode = none;
  poll_cadence_s = none;
  safety_wake_s = none;
  forum_review_channel = none;
}

abbrev bot : Participant
bot = record person {
  alias = codes "bot";
  kind = ParticipantKind.agent;
  is_host = false;
  token_hash = some (codes "b");
}

abbrev files : RoomFiles
files = record (new_room 1000 den (codes "ann") none (codes "brief") none) {
  participants = person ∷ bot ∷ [];
}

abbrev server : RoomServer
server = record {
  options = record {
    room_id = den;
    base_url = codes "http://localhost:4000";
    public_base_url = [];
    max_messages = 100;
    rate_limit_per_minute = 30;
    loop_guard_limit = 2;
    wait_hold_ms = 25000;
    allow_insecure_remote = false;
  };
  files = files;
  rate_buckets = [];
  loop_counts = [];
  hub = wait den (codes "w1") new_wait_hub;
}

is_localhost-before_colon_example : is_localhost (codes "[::1]:4000") ≡ (
    text_eq (before_colon (codes "[::1]:4000")) (codes "localhost")
    || text_eq (before_colon (codes "[::1]:4000")) (codes "127.0.0.1"))
is_localhost-before_colon_example = is_localhost-before_colon (codes "[::1]:4000")

passed_by-sent_by_example :
    passed_by den 2 (codes "bot") (enforce_loop_guard den person 2 []).1 (bot ∷ bot ∷ bot ∷ [])
    ≡ min 2 (sent_by (codes "bot") (bot ∷ bot ∷ bot ∷ []))
passed_by-sent_by_example =
    passed_by-sent_by den (codes "bot") 2 person [] (bot ∷ bot ∷ bot ∷ []) refl refl
      (refl, (refl, (refl, tt)))

abbrev first : Message
first = record {
  id = 1;
  room = den;
  ts = 1500;
  from = codes "bot";
  type = MessageType.message;
  text = codes "hi";
  reply_to = none;
  client_msg_id = none;
  mentions = [];
}

abbrev later : RoomServer
later = record server { files = record files { messages = first ∷ [] } }

delivered-last_log_example : [] ++ delivered api (codes "bot") 0 (server ∷ later ∷ []) ≡ first ∷ []
delivered-last_log_example =
    delivered-last_log api (codes "bot") [] (server ∷ later ∷ [])
      (refl, tt, tt, ([], refl), (refl, (tt, tt), (omega arith, tt), (first ∷ [], refl), tt))

abbrev unchanged : AttentionBody
unchanged = record {
  supported_modes = no_modes;
  poll_cadence_s = Field.absent;
  safety_wake_s = Field.absent;
}

abbrev named : Participant
named =
    with_negotiated_attention (record bot { display_name = some (codes "Bo"); last_seen_at = 2000 })

profile_reverted_example :
    let t = (post_profile api 2000 bot (Field.string (codes "Bo")) unchanged server).1 in
    (recorded (codes "bot") t ≡ some named)
    × (recorded (codes "bot") (get_messages api 2001 bot none none t).1
        ≡ some (record bot { last_seen_at = 2001 }))
unfolding is_safe_slug post_profile parse_attention_declaration with_negotiated_attention
    parse_display_name upsert_participant put_participant is_space find_name_owner_conflict text_eq
profile_reverted_example =
    profile_reverted api 2000 2001 bot named (Field.string (codes "Bo")) unchanged none server refl
      refl

abbrev hi : RawMessage
hi = record {
  text = Field.string (codes "hi");
  type = Field.absent;
  reply_to = Field.absent;
  client_msg_id = Field.absent;
}

post_message-releases_example :
    let t = (post_message 1500 bot (some hi) server).1 in
    (t.files.messages ≡ first ∷ [])
    × (t.hub.released ≡ codes "w1" ∷ [])
    × (waiters_of den t.hub ≡ [])
unfolding post_message touch_participant upsert_participant put_participant require_room_open
    close_expired_room enforce_rate_limit enforce_loop_guard append_message_result
    client_message_input_from_record parse_client_message_id is_safe_slug is_space
    parse_client_message_type append_input append_found append_line count_message build_message
    parse_mentions wait lookup insert text_eq
post_message-releases_example =
    post_message-releases 1500 bot (some hi) server (record { message = first; idempotent = false })
      refl refl

abbrev forum_server : ForumServer
forum_server = record { room = server; boardroom = none; channel_cursors = []; threads = [] }

abbrev post_body : PostBody
post_body = record {
  channel = Field.string (codes "general");
  title = Field.string (codes "Plan");
  body = Field.string (codes "text");
  tags = none;
  status = Field.absent;
}

abbrev events : List Event
events =
    arrives 2000 (some (codes "a")) (of_room (posts_brief (Field.string (codes "new"))))
    ∷ arrives 2500 (some (codes "b")) (of_forum (posts (codes "x1") post_body))
    ∷ arrives 2600 (some (codes "b")) gets_status
    ∷ admitted_before 2700 bot (of_room leaves)
    ∷ arrives 3000 (some (codes "a")) (of_room closes)
    ∷ []

happen_all-IsExact_example : IsExact (happen_all api events forum_server).room.files
happen_all-IsExact_example =
    happen_all-IsExact api events forum_server (((tt, tt, tt), tt, omega arith), (tt, refl))

settings-serve_example :
    settings (serve api 2000 (some (codes "b")) (of_room closes) forum_server).1.room.files
    ≡ settings files
unfolding verify_token text_eq
settings-serve_example =
    settings-serve api 2000 (codes "b") (of_room closes) forum_server bot refl refl refl

serve-IsOpen_example :
    (forum_server.room.files.state.status ≡ open_room)
    × (has_expired 1500 forum_server.room.files.state ≡ false)
unfolding serve handle handle_room require_participant verify_token post_message touch_participant
    upsert_participant put_participant require_room_open close_expired_room enforce_rate_limit
    enforce_loop_guard append_message_result client_message_input_from_record
    parse_client_message_id is_safe_slug is_space parse_client_message_type append_input
    append_found append_line count_message build_message parse_mentions wait lookup insert text_eq
serve-IsOpen_example =
    (serve-IsOpen api 1500 (codes "b") (of_room (posts_message (some hi))) forum_server
      (room_answer (message_reply (record { message = first; idempotent = false }))) refl refl).0

get_status-IsShown_example :
    All
      (λ v. IsShown 100000 v)
      (get_status 100000 bot
        (record { room = files; boardroom = none; channel_cursors = [] })).participants
get_status-IsShown_example =
    get_status-IsShown 100000 bot (record { room = files; boardroom = none; channel_cursors = [] })
