-- ===== src/Storage/RoomStore.antt =====
-- src/storage/room-store.ts: the files of one room, and what each operation reads and writes under
-- the writer lock. A file stands for the value that its JSON text encodes. An
-- operation is given the files of a room that exists; the test of the room's id, which no such room
-- fails, is written out where the operation asserts it itself, and left to `roomPaths` elsewhere.
pub mod Appends
pub mod Changes
use telegent.Base.{
  Text, codes, text_eq, text_eq→eq, text_eq_refl, text_eq_iff, text_eq_ne, ltb, leb, ◌==◌,
  if◌then◌else◌, ==_iff, Bool-cases, Option-cases, is_some, or_else, Result, ok, err, ◌>>=◌, ◌>>◌,
  guard, occurs, occurs-append, length, length-append, filter, find, any, all, All, All-append,
  All-map, All-filter, includes, ℕ, zero, suc, ◌+◌, ◌-◌, ◌*◌, ◌/◌, ◌%◌, ◌^◌, ◌≤◌, ◌<◌, max, min,
  ◌≡◌, refl, sym, ap, subst, ◌∙◌, ◌≢◌, ◌↔◌, ◌⊎◌, inl, inr, Bool, true, false, not, ◌&&◌, ◌||◌,
  Option, none, some, List, [], ◌∷◌, ◌++◌, map, arith,
}
use telegent.Base.Maps.{Map, lookup, insert}
use telegent.Protocol.Types.{
  RoomState, Participant, Message, MessageType, ClientMessageInput, AttendancePolicy, manual_ok,
  open_room, closed_room,
}
use telegent.Protocol.Validation.{is_safe_slug}
use telegent.Protocol.Mentions.{parse_mentions}
use telegent.Protocol.Messages.{
  RawMessage, MessageError, client_message_input_from_record, build_message, max_safe_integer,
}

abbrev pub max_brief_length : ℕ
max_brief_length = 16000

pub record CursorRecord : Type 0 where
  pub alias : Text
  pub since_id : ℕ
  pub updated_at : ℕ

pub record RoomFiles : Type 0 where
  pub state : RoomState
  pub participants : List Participant
  pub brief : Text
  pub messages : List Message
  pub cursors : Map CursorRecord

pub data StoreError : Type 0 where
  unsafe_slug brief_too_long log_full invalid_cursor file_exists : StoreError
  invalid_message : MessageError → StoreError

pub record RoomBrief : Type 0 where
  pub body : Text
  pub brief_version : ℕ
  pub brief_updated_at : ℕ
  pub brief_updated_by : Text

pub record AppendMessageResult : Type 0 where
  pub message : Message
  pub idempotent : Bool

abbrev pub check_slug : Text → Result StoreError (Unit {0})
check_slug s = guard (is_safe_slug s) unsafe_slug

abbrev pub check_brief : Text → Result StoreError (Unit {0})
check_brief body = guard (leb (length body) max_brief_length) brief_too_long

-- An operation behind its checks: a check that fails throws, and no file is written.
abbrev pub checked {ℓ} :
    {A : Type ℓ}
    → Result StoreError (Unit {0})
    → RoomFiles
    → Result StoreError A × RoomFiles
    → Result StoreError A × RoomFiles
checked (err e) f done = (err e, f)
checked (ok _) f done = done

abbrev pub new_room : ℕ → Text → Text → Option ℕ → Text → Option AttendancePolicy → RoomFiles
new_room now room_id host_alias expires_at brief policy = record {
  state = record {
    id = room_id;
    status = open_room;
    attendance_policy = or_else policy manual_ok;
    created_at = now;
    updated_at = now;
    expires_at = expires_at;
    next_message_id = 1;
    brief_version = 1;
    brief_updated_at = now;
    brief_updated_by = host_alias;
  };
  participants = [];
  brief = brief;
  messages = [];
  cursors = [];
}

-- The flag "wx" refuses a file that is there.
abbrev pub write_new : Option RoomFiles → RoomFiles → Result StoreError RoomFiles
write_new none f = ok f
write_new (some existing) f = err file_exists

unfoldable pub create_room :
    ℕ
    → Text
    → Text
    → Option ℕ
    → Text
    → Option AttendancePolicy
    → Option RoomFiles
    → Result StoreError RoomFiles
create_room now room_id host_alias expires_at brief policy existing =
    check_slug room_id
    >> check_slug host_alias
    >> check_brief brief
    >> write_new existing (new_room now room_id host_alias expires_at brief policy)

unfoldable pub update_attendance_policy :
    ℕ → Text → AttendancePolicy → Text → RoomFiles → Result StoreError RoomState × RoomFiles
update_attendance_policy now room_id policy updated_by f =
    let state = record f.state { attendance_policy = policy; updated_at = now } in
    checked (check_slug room_id >> check_slug updated_by) f (ok state, record f { state = state })

abbrev pub briefed : ℕ → Text → RoomState → RoomState
briefed now updated_by s = record s {
  updated_at = now;
  brief_version = s.brief_version + 1;
  brief_updated_at = now;
  brief_updated_by = updated_by;
}

abbrev pub brief_of : RoomFiles → RoomBrief
brief_of f = record {
  body = f.brief;
  brief_version = f.state.brief_version;
  brief_updated_at = f.state.brief_updated_at;
  brief_updated_by = f.state.brief_updated_by;
}

unfoldable pub update_brief :
    ℕ → Text → Text → Text → RoomFiles → Result StoreError RoomBrief × RoomFiles
update_brief now room_id body updated_by f =
    let written = record f { brief = body; state = briefed now updated_by f.state } in
    checked (check_slug room_id >> check_slug updated_by >> check_brief body) f
      (ok (brief_of written), written)

-- `message.from === from && message.client_msg_id === id`
abbrev pub is_from : Text → Text → Message → Bool
is_from from id m =
    text_eq m.from from && elim m.client_msg_id [ none ↦ false | some c ↦ text_eq c id ]

abbrev pub find_existing : Text → Option Text → List Message → Option Message
find_existing from none messages = none
find_existing from (some id) messages = find (λ m. is_from from id m) messages

abbrev pub is_full : Option ℕ → List Message → Bool
is_full none messages = false
is_full (some n) messages = leb n (length messages)

abbrev pub aliases : RoomFiles → List Text
aliases f = map (λ p. p.alias) f.participants

unfoldable pub create_message : ClientMessageInput → ℕ → Text → Text → List Text → ℕ → Message
create_message input id room from roster now = build_message input (record {
  id = id;
  room = room;
  from = from;
  now = now;
  mentions = parse_mentions input.text roster;
  type = none;
})

-- The two writes of an append: the line at the end of the log, then the counter of the state.
unfoldable pub append_line : Message → RoomFiles → RoomFiles
append_line m f = record f { messages = f.messages ++ m ∷ [] }

unfoldable pub count_message : ℕ → Message → RoomFiles → RoomFiles
count_message now m f = record f {
  state = record f.state { updated_at = now; next_message_id = m.id + 1 };
}

-- The message of this client id, if it is in the log, or else `m`.
unfoldable pub append_found :
    ℕ
    → Message
    → Option ℕ
    → RoomFiles
    → Option Message
    → Result StoreError AppendMessageResult × RoomFiles
unfolding append_line count_message
append_found now m max_messages f (some existing) =
    (ok (record { message = existing; idempotent = true }), f)
append_found now m max_messages f none =
    if is_full max_messages f.messages
    then (err log_full, f)
    else (ok (record { message = m; idempotent = false }), count_message now m (append_line m f))

-- What the lock is held for.
unfoldable pub append_input :
    ℕ
    → Text
    → ClientMessageInput
    → Option ℕ
    → RoomFiles
    → Result StoreError AppendMessageResult × RoomFiles
unfolding append_found create_message
append_input now from input max_messages f =
    append_found now (create_message input f.state.next_message_id f.state.id from (aliases f) now)
      max_messages f (find_existing from input.client_msg_id f.messages)

abbrev pub parsed_append :
    ℕ
    → Text
    → Result MessageError ClientMessageInput
    → Option ℕ
    → RoomFiles
    → Result StoreError AppendMessageResult × RoomFiles
parsed_append now from (err e) max_messages f = (err (invalid_message e), f)
parsed_append now from (ok input) max_messages f = append_input now from input max_messages f

-- `appendMessageResult`
unfoldable pub append_message_result :
    ℕ
    → Text
    → Text
    → Option RawMessage
    → Option ℕ
    → RoomFiles
    → Result StoreError AppendMessageResult × RoomFiles
append_message_result now room_id from input max_messages f =
    checked (check_slug room_id >> check_slug from) f
      (parsed_append now from (client_message_input_from_record input) max_messages f)

abbrev pub server_message : ℕ → Text → Text → RoomFiles → Message
server_message now from text f =
    build_message (record { text = text; type = none; reply_to = none; client_msg_id = none })
      (record {
        id = f.state.next_message_id;
        room = f.state.id;
        from = from;
        now = now;
        mentions = parse_mentions text (aliases f);
        type = some MessageType.system;
      })

unfoldable pub append_server_message :
    ℕ → Text → Text → Text → RoomFiles → Result StoreError Message × RoomFiles
append_server_message now room_id from text f =
    let m = server_message now from text f in
    checked (check_slug room_id >> check_slug from) f (ok m, count_message now m (append_line m f))

-- A cursor that was never written is 0.
unfoldable pub read_cursor : Text → RoomFiles → Result StoreError ℕ
read_cursor alias f =
    check_slug alias >> elim (lookup alias f.cursors) [ none ↦ ok 0 | some c ↦ ok c.since_id ]

unfoldable pub write_cursor : Text → ℕ → ℕ → RoomFiles → Result StoreError CursorRecord × RoomFiles
write_cursor alias since_id now f =
    let c : CursorRecord = record { alias = alias; since_id = since_id; updated_at = now } in
    checked (check_slug alias >> guard (leb since_id max_safe_integer) invalid_cursor) f
      (ok c, record f { cursors = insert alias c f.cursors })

unfoldable pub write_participants :
    List Participant → RoomFiles → Result StoreError (Unit {0}) × RoomFiles
write_participants ps f =
    checked (guard (all (λ p. is_safe_slug p.alias) ps) unsafe_slug) f
      (ok tt, record f { participants = ps })

-- The first entry of the alias is replaced, or the participant is put at the end.
unfoldable pub put_participant : Participant → List Participant → List Participant
put_participant p [] = p ∷ []
put_participant p (q ∷ qs) = if text_eq q.alias p.alias then p ∷ qs else q ∷ put_participant p qs

unfoldable pub upsert_participant :
    Participant → RoomFiles → Result StoreError (Unit {0}) × RoomFiles
upsert_participant p f =
    checked (check_slug p.alias) f
      (ok tt, record f { participants = put_participant p f.participants })

unfoldable pub close_room : ℕ → RoomFiles → RoomState × RoomFiles
close_room now f =
    let state = record f.state { status = closed_room; updated_at = now } in
    (state, record f { state = state })

-- `messages.reduce((highest, message) => Math.max(highest, message.id), 0) + 1`
abbrev pub highest_from : ℕ → List Message → ℕ
highest_from highest [] = highest
highest_from highest (m ∷ ms) = highest_from (max highest m.id) ms

unfoldable pub recover_next_message_id : List Message → ℕ
recover_next_message_id messages = highest_from 0 messages + 1

unfoldable pub recover_room_state : RoomFiles → RoomState × RoomFiles
recover_room_state f =
    let recovered = recover_next_message_id f.messages in
    let state = record f.state { next_message_id = recovered } in
    if leb recovered f.state.next_message_id
    then (f.state, f)
    else (state, record f { state = state })

unfoldable pub append_message :
    ℕ
    → Text
    → Text
    → Option RawMessage
    → Option ℕ
    → RoomFiles
    → Result StoreError Message × RoomFiles
append_message now room_id from input max_messages f =
    let (r, g) = append_message_result now room_id from input max_messages f in
    (r >>= λ a. ok a.message, g)

abbrev pub read_messages : RoomFiles → List Message
read_messages f = f.messages

abbrev pub read_participants : RoomFiles → List Participant
read_participants f = f.participants

abbrev pub read_room_state : RoomFiles → RoomState
read_room_state f = f.state
