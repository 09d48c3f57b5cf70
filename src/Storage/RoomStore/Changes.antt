-- ===== src/Storage/RoomStore/Changes.antt =====
-- Sequences of operations on the files of a room.
pub mod Counting
pub mod Ids
pub mod Replay
use telegent.Base.{Text, ℕ, Option, List, [], ◌∷◌}
use telegent.Protocol.Types.{Participant, AttendancePolicy}
use telegent.Protocol.Messages.{RawMessage}
use telegent.Storage.RoomStore.{
  RoomFiles, update_attendance_policy, update_brief, append_message_result, append_server_message,
  write_cursor, write_participants, upsert_participant, close_room, recover_room_state,
}

pub data Change : Type 0 where
  sets_policy : ℕ → Text → AttendancePolicy → Text → Change
  sets_brief : ℕ → Text → Text → Text → Change
  appends : ℕ → Text → Text → Option RawMessage → Option ℕ → Change
  server_appends : ℕ → Text → Text → Text → Change
  sets_cursor : Text → ℕ → ℕ → Change
  sets_participants : List Participant → Change
  upserts : Participant → Change
  closes : ℕ → Change
  recovers : Change

unfoldable pub change : Change → RoomFiles → RoomFiles
change (sets_policy now room policy by) f = (update_attendance_policy now room policy by f).1
change (sets_brief now room body by) f = (update_brief now room body by f).1
change (appends now room from input limit) f = (append_message_result now room from input limit f).1
change (server_appends now room from text) f = (append_server_message now room from text f).1
change (sets_cursor alias since_id now) f = (write_cursor alias since_id now f).1
change (sets_participants ps) f = (write_participants ps f).1
change (upserts p) f = (upsert_participant p f).1
change (closes now) f = (close_room now f).1
change recovers f = (recover_room_state f).1

unfoldable pub change_all : List Change → RoomFiles → RoomFiles
unfolding change
change_all [] f = f
change_all (c ∷ cs) f = change_all cs (change c f)
