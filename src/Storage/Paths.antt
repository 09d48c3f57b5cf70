-- ===== src/Storage/Paths.antt =====
-- src/storage/paths.ts: where the files of a room are. `path.join` of node is the argument `join`.
use telegent.Base.{Text, codes, Result, guard, ◌>>◌, ok}
use telegent.Protocol.Validation.{is_safe_slug}

pub record RoomPaths : Type 0 where
  pub root : Text
  pub rooms : Text
  pub room : Text
  pub state : Text
  pub participants : Text
  pub brief : Text
  pub messages : Text
  pub cursors : Text
  pub boardroom : Text
  pub channel_cursors : Text
  pub lock : Text

pub data PathError : Type 0 where
  unsafe_room_id : PathError

unfoldable pub room_paths : (Text → Text → Text) → Text → Text → Result PathError RoomPaths
room_paths join root room_id =
    let rooms = join root (codes "rooms") in
    let room = join rooms room_id in
    guard (is_safe_slug room_id) unsafe_room_id
    >> ok (record {
      root = root;
      rooms = rooms;
      room = room;
      state = join room (codes "room.json");
      participants = join room (codes "participants.json");
      brief = join room (codes "brief.md");
      messages = join room (codes "messages.jsonl");
      cursors = join room (codes "cursors");
      boardroom = join room (codes "boardroom.json");
      channel_cursors = join room (codes "channel-cursors");
      lock = join room (codes "write.lock");
    })
