-- ===== src/Tests/Storage.antt =====
-- The theorems on the files of a room at concrete messages.
use telegent.Base.{Text, codes, ok, ◌≡◌, refl, true, false, none, some, List, [], ◌∷◌, arith}
use telegent.Protocol.Types.{Message, MessageType}
use telegent.Protocol.Messages.{
  RawMessage, Field, client_message_input_from_record, parse_client_message_id,
  parse_client_message_type, build_message,
}
use telegent.Protocol.Types.{ClientMessageInput}
use telegent.Protocol.Mentions.{parse_mentions}
use telegent.Protocol.Validation.{is_safe_slug, is_space}
use telegent.Storage.RoomStore.{
  RoomFiles, AppendMessageResult, create_room, new_room, append_message_result, append_line,
  append_input, recover_room_state,
}
use telegent.Storage.RoomStore.Changes.{
  Change, change_all, server_appends, closes, sets_cursor, recovers,
}
use telegent.Storage.RoomStore.Changes.Ids.{
  IsNumbered, IsExact, created-IsExact, recovered-IsNumbered,
}
use telegent.Storage.RoomStore.Changes.Replay.{append_replayed}

abbrev den : Text
den = codes "den"

abbrev bot : Text
bot = codes "bot"

abbrev files : RoomFiles
files = new_room 1000 den bot none (codes "brief") none

abbrev changes : List Change
changes =
    server_appends 2000 den bot (codes "@bot joined")
    ∷ sets_cursor bot 1 2100
    ∷ recovers
    ∷ closes 2200
    ∷ []

created-IsExact_example : IsExact (change_all changes files)
unfolding create_room is_safe_slug
created-IsExact_example =
    created-IsExact 1000 den bot none (codes "brief") none none files changes refl

abbrev logged : Message
logged = record {
  id = 1;
  room = den;
  ts = 1500;
  from = bot;
  type = MessageType.message;
  text = codes "hi";
  reply_to = none;
  client_msg_id = none;
  mentions = [];
}

recovered-IsNumbered_example : IsNumbered (recover_room_state (append_line logged files)).1
recovered-IsNumbered_example =
    recovered-IsNumbered files logged ((tt, tt, tt), tt, omega arith) refl refl

abbrev sent : Text → RawMessage
sent text = record {
  text = Field.string text;
  type = Field.absent;
  reply_to = Field.absent;
  client_msg_id = Field.string (codes "m1");
}

abbrev input : Text → ClientMessageInput
input text = record { text = text; type = none; reply_to = none; client_msg_id = some (codes "m1") }

abbrev appended : AppendMessageResult
appended = record {
  message = record logged { client_msg_id = some (codes "m1") };
  idempotent = false;
}

append_replayed_example :
    let g =
      change_all changes
        (append_message_result 1500 den bot (some (sent (codes "hi"))) none files).1 in
    append_message_result 3000 den bot (some (sent (codes "again"))) (some 1) g
    ≡ (ok (record { message = appended.message; idempotent = true }), g)
unfolding append_message_result client_message_input_from_record parse_client_message_id
    is_safe_slug is_space parse_client_message_type append_input build_message parse_mentions
append_replayed_example =
    append_replayed den bot (codes "m1") (input (codes "hi")) (input (codes "again"))
      (some (sent (codes "hi"))) (some (sent (codes "again"))) none (some 1) refl refl refl refl
      1500 3000 changes files appended refl
