-- ===== src/Storage/BoardroomStore.antt =====
-- src/storage/boardroom-store.ts: the boardroom of a room and the read positions in its channels. A file
-- stands for the value that its JSON text encodes; an operation is given the files of a room that
-- exists.
pub mod Channels
pub mod Cursors
use telegent.Base.{
  Text, codes, text_eq, text_eq→eq, text_eq_refl, text_eq_iff, text_eq_ne, ltb, leb, ◌==◌,
  if◌then◌else◌, ==_iff, Bool-cases, Option-cases, is_some, or_else, Result, ok, err, ◌>>=◌, ◌>>◌,
  guard, occurs, occurs-append, length, length-append, filter, find, any, all, All, All-append,
  All-map, All-filter, includes, ℕ, zero, suc, ◌+◌, ◌-◌, ◌*◌, ◌/◌, ◌%◌, ◌^◌, ◌≤◌, ◌<◌, max, min,
  ◌≡◌, refl, sym, ap, subst, ◌∙◌, ◌≢◌, ◌↔◌, ◌⊎◌, inl, inr, Bool, true, false, not, ◌&&◌, ◌||◌,
  Option, none, some, List, [], ◌∷◌, ◌++◌, map, arith,
}
use telegent.Base.Maps.{Map, lookup, lookup_in, insert}
use telegent.Protocol.Types.{Message}
use telegent.Protocol.Boardroom.{
  Boardroom, Channel, ChannelType, BoardroomError, UnreadSummary, active, default_channel,
  default_channel_id, assert_valid_boardroom, derive_default_boardroom, summarize_unread,
}
use telegent.Protocol.Messages.{max_safe_integer}
use telegent.Protocol.Validation.{is_safe_slug}
use telegent.Storage.RoomStore.{RoomFiles, StoreError, read_cursor}

pub record ChannelReadCursor : Type 0 where
  pub participant_id : Text
  pub channel_id : Text
  pub since_id : ℕ
  pub updated_at : ℕ

-- `boardroom.json`, and the cursors by channel and participant.
pub record BoardroomFiles : Type 0 where
  pub room : RoomFiles
  pub boardroom : Option Boardroom
  pub channel_cursors : Map (Map ChannelReadCursor)

pub record ChannelView : Type 0 where
  pub channel_id : Text
  pub type : ChannelType
  pub messages : List Message
  pub unread : ℕ
  pub last_read_id : ℕ
  pub latest_id : ℕ

pub data BoardroomStoreError : Type 0 where
  unsafe_slug channel_exists channel_not_found invalid_cursor : BoardroomStoreError
  invalid_boardroom : BoardroomError → BoardroomStoreError
  room_error : StoreError → BoardroomStoreError

abbrev pub check_slug : Text → Result BoardroomStoreError (Unit {0})
check_slug s = guard (is_safe_slug s) unsafe_slug

-- An operation behind its checks.
abbrev pub checked {ℓ} :
    {A : Type ℓ}
    → Result BoardroomStoreError (Unit {0})
    → BoardroomFiles
    → Result BoardroomStoreError A × BoardroomFiles
    → Result BoardroomStoreError A × BoardroomFiles
checked (err e) f done = (err e, f)
checked (ok _) f done = done

abbrev pub outcome : Result BoardroomError (Unit {0}) → Result BoardroomStoreError (Unit {0})
outcome (ok _) = ok tt
outcome (err e) = err (invalid_boardroom e)

-- `readBoardroomUnlocked`
unfoldable pub read_boardroom : BoardroomFiles → Boardroom
unfolding derive_default_boardroom
read_boardroom f = elim f.boardroom [
  | some persisted ↦ record persisted { legacy = false }
  | none ↦
      derive_default_boardroom f.room.state.id f.room.state.created_at f.room.state.updated_at none
]

unfoldable pub persist_boardroom :
    Boardroom → BoardroomFiles → Result BoardroomStoreError Boardroom × BoardroomFiles
persist_boardroom b f =
    let persisted = record b { legacy = false } in
    checked (outcome (assert_valid_boardroom persisted)) f
      (ok persisted, record f { boardroom = some persisted })

unfoldable pub write_boardroom :
    Text → Boardroom → BoardroomFiles → Result BoardroomStoreError Boardroom × BoardroomFiles
unfolding persist_boardroom
write_boardroom room_id b f =
    checked (check_slug room_id) f (persist_boardroom (record b { id = room_id }) f)

abbrev pub given_channels : ℕ → Option (List Channel) → List Channel
given_channels now none = default_channel now ∷ []
given_channels now (some []) = default_channel now ∷ []
given_channels now (some (c ∷ cs)) = c ∷ cs

abbrev pub new_boardroom : Text → Option Text → Option (List Channel) → ℕ → Boardroom
new_boardroom room_id name channels now = record {
  id = room_id;
  name = name;
  channels = given_channels now channels;
  lifecycle = active;
  created_at = now;
  updated_at = now;
  legacy = false;
}

unfoldable pub create_boardroom :
    Text
    → Option Text
    → Option (List Channel)
    → ℕ
    → BoardroomFiles
    → Result BoardroomStoreError Boardroom × BoardroomFiles
unfolding persist_boardroom
create_boardroom room_id name channels now f =
    checked (check_slug room_id) f (persist_boardroom (new_boardroom room_id name channels now) f)

abbrev pub with_channel : Channel → ℕ → Boardroom → Boardroom
with_channel channel now current = record current {
  channels = current.channels ++ channel ∷ [];
  updated_at = now;
  legacy = false;
}

abbrev pub free_channel : Channel → Boardroom → Result BoardroomStoreError (Unit {0})
free_channel channel current =
    guard (not (any (λ c. text_eq c.id channel.id) current.channels)) channel_exists

unfoldable pub add_channel :
    Text → Channel → ℕ → BoardroomFiles → Result BoardroomStoreError Boardroom × BoardroomFiles
unfolding persist_boardroom read_boardroom
add_channel room_id channel now f =
    let current = read_boardroom f in
    checked (check_slug room_id >> free_channel channel current) f
      (persist_boardroom (with_channel channel now current) f)

-- Where nothing was written, the default channel falls back to the cursor of the room.
abbrev pub fallback_cursor : Text → Text → RoomFiles → Result BoardroomStoreError ℕ
fallback_cursor channel_id participant_id room =
    if text_eq channel_id default_channel_id
    then elim (read_cursor participant_id room) [ ok n ↦ ok n | err e ↦ err (room_error e) ]
    else ok 0

unfoldable pub read_channel_cursor : Text → Text → BoardroomFiles → Result BoardroomStoreError ℕ
read_channel_cursor channel_id participant_id f =
    check_slug channel_id
    >> check_slug participant_id
    >> elim (lookup_in channel_id participant_id f.channel_cursors) [
      | some c ↦ ok c.since_id
      | none ↦ fallback_cursor channel_id participant_id f.room
    ]

unfoldable pub write_channel_cursor :
    Text
    → Text
    → ℕ
    → ℕ
    → BoardroomFiles
    → Result BoardroomStoreError ChannelReadCursor × BoardroomFiles
write_channel_cursor channel_id participant_id since_id now f =
    let c : ChannelReadCursor = record {
      participant_id = participant_id;
      channel_id = channel_id;
      since_id = since_id;
      updated_at = now;
    } in
    let cursors = insert participant_id c (or_else (lookup channel_id f.channel_cursors) []) in
    checked
      (check_slug channel_id
        >> check_slug participant_id
        >> guard (leb since_id max_safe_integer) invalid_cursor)
      f (ok c, record f { channel_cursors = insert channel_id cursors f.channel_cursors })

abbrev pub view_of : Channel → List Message → ℕ → ChannelView
view_of channel messages last_read =
    let s = summarize_unread (map (λ m. m.id) messages) last_read in
    record {
      channel_id = channel.id;
      type = channel.type;
      messages = messages;
      unread = s.unread;
      last_read_id = last_read;
      latest_id = s.latest_id;
    }

unfoldable pub read_channel_view :
    Text → Text → BoardroomFiles → Result BoardroomStoreError ChannelView
unfolding read_boardroom read_channel_cursor summarize_unread
read_channel_view channel_id participant_id f =
    check_slug channel_id
    >> check_slug participant_id
    >> elim (find (λ c. text_eq c.id channel_id) (read_boardroom f).channels) [
      | none ↦ err channel_not_found
      | some channel ↦ read_channel_cursor channel_id participant_id f >>= λ last_read. ok (
          view_of channel (if text_eq channel_id default_channel_id then f.room.messages else [])
            last_read)
    ]
