-- ===== src/Storage/RoomStore/Changes/Ids.antt =====
-- The ids of the messages of a room, and the counter that they are taken from.
use telegent.Base.{
  Text, leb, Bool-cases, Result, ok, err, ◌>>◌, All, All-append, All-map, ℕ, ◌+◌, ◌≤◌, ◌<◌, max,
  ◌≡◌, refl, subst, inl, inr, Option, none, some, List, [], ◌∷◌, ◌++◌, arith,
}
use telegent.Protocol.Types.{Message, AttendancePolicy}
use telegent.Storage.RoomStore.{
  RoomFiles, StoreError, append_line, count_message, create_room, new_room, write_new,
  update_attendance_policy, update_brief, write_cursor, write_participants, upsert_participant,
  close_room, recover_room_state, recover_next_message_id, highest_from, check_slug, check_brief,
}
use telegent.Storage.RoomStore.Appends.{
  append_message_result-files, append_server_message-files, checked-files,
}
use telegent.Storage.RoomStore.Changes.Counting.{IsCounted, change-IsCounted}
use telegent.Storage.RoomStore.Changes.{
  Change, change, change_all, sets_policy, sets_brief, appends, server_appends, sets_cursor,
  sets_participants, upserts, closes, recovers,
}

-- Each id is below those that follow it in the log.
abbrev pub Increasing : List Message → Type 0
Increasing [] = Unit
Increasing (m ∷ ms) = All (λ k. m.id < k.id) ms × Increasing ms

-- The log of a room: increasing ids, none of them 0, and each message is of the room.
abbrev pub IsLog : Text → List Message → Type 0
IsLog room ms = Increasing ms × All (λ m. 0 < m.id) ms × All (λ m. m.room ≡ room) ms

-- The files agree: the log is one of the room, and the counter is above its ids.
abbrev pub IsNumbered : RoomFiles → Type 0
IsNumbered f =
    IsLog f.state.id f.messages
    × All (λ m. m.id < f.state.next_message_id) f.messages
    × (0 < f.state.next_message_id)

Increasing-append :
    (ms : List Message) (m : Message)
    → Increasing ms
    → All (λ k. k.id < m.id) ms
    → Increasing (ms ++ m ∷ [])
Increasing-append [] m h k = (tt, tt)
Increasing-append (n ∷ ms) m h k =
    (All-append (λ j. n.id < j.id) ms (m ∷ []) h.0 (k.0, tt), Increasing-append ms m h.1 k.1)

-- A message with the counter's number, at the end of the log.
IsLog-append_line :
    (f : RoomFiles) (m : Message)
    → IsNumbered f
    → m.id ≡ f.state.next_message_id
    → m.room ≡ f.state.id
    → IsLog f.state.id (f.messages ++ m ∷ [])
IsLog-append_line f m h e r = (
  Increasing-append f.messages m h.0.0 (
      All-map (λ k. k.id < f.state.next_message_id) (λ k. k.id < m.id) f.messages
        (λ k l. omega arith) h.1),
  All-append (λ k. 0 < k.id) f.messages (m ∷ []) h.0.1 (rw e h.2, tt),
  All-append (λ k. k.room ≡ f.state.id) f.messages (m ∷ []) h.0.2 (r, tt),
)

count_message-IsNumbered :
    (now : ℕ) (f : RoomFiles) (m : Message)
    → IsNumbered f
    → m.id ≡ f.state.next_message_id
    → m.room ≡ f.state.id
    → IsNumbered (count_message now m (append_line m f))
unfolding count_message append_line
count_message-IsNumbered now f m h e r = (
  IsLog-append_line f m h e r,
  All-append (λ k. k.id < m.id + 1) f.messages (m ∷ [])
      (All-map (λ k. k.id < f.state.next_message_id) (λ k. k.id < m.id + 1) f.messages
        (λ k l. omega arith) h.1)
      (omega arith, tt),
  omega arith,
)

highest-bound :
    (a : ℕ) (ms : List Message) → (a ≤ highest_from a ms) × All (λ m. m.id ≤ highest_from a ms) ms
highest-bound a [] = (omega arith, tt)
highest-bound a (m ∷ ms) =
    let rest : _ = highest-bound (max a m.id) ms in
    (omega (arith, rest.0), (omega (arith, rest.0), rest.1))

-- Recovery makes the counter agree with any log of the room.
recover_room_state-IsNumbered :
    (f : RoomFiles) → IsLog f.state.id f.messages → IsNumbered (recover_room_state f).1
unfolding recover_room_state recover_next_message_id
recover_room_state-IsNumbered f h =
    elim (Bool-cases (leb (highest_from 0 f.messages + 1) f.state.next_message_id)) [
      | inl enough ↦ rw enough (
        h,
        All-map (λ m. m.id ≤ highest_from 0 f.messages) (λ m. m.id < f.state.next_message_id)
            f.messages (λ m l. ground arith) (highest-bound 0 f.messages).1,
        ground arith,
      )
      | inr short ↦ rw short (
        h,
        All-map (λ m. m.id ≤ highest_from 0 f.messages) (λ m. m.id < highest_from 0 f.messages + 1)
            f.messages (λ m l. omega arith) (highest-bound 0 f.messages).1,
        omega arith,
      )
    ]

pub change-IsNumbered : (c : Change) (f : RoomFiles) → IsNumbered f → IsNumbered (change c f)
unfolding change
change-IsNumbered (sets_policy now room policy by) f h =
    unfold update_attendance_policy in checked-files IsNumbered _ f _ h h
change-IsNumbered (sets_brief now room body by) f h =
    unfold update_brief in checked-files IsNumbered _ f _ h h
change-IsNumbered (appends now room from input limit) f h =
    append_message_result-files IsNumbered now from limit f room input h
      (λ m e r. count_message-IsNumbered now f m h e r)
change-IsNumbered (server_appends now room from text) f h =
    append_server_message-files IsNumbered now from none f room text h
      (λ m e r. count_message-IsNumbered now f m h e r)
change-IsNumbered (sets_cursor alias since_id now) f h =
    unfold write_cursor in checked-files IsNumbered _ f _ h h
change-IsNumbered (sets_participants ps) f h =
    unfold write_participants in checked-files IsNumbered _ f _ h h
change-IsNumbered (upserts q) f h = unfold upsert_participant in checked-files IsNumbered _ f _ h h
change-IsNumbered (closes now) f h = unfold close_room in h
change-IsNumbered recovers f h = recover_room_state-IsNumbered f h.0

-- The ids agree with the counter, and are 1, 2 and so on.
abbrev pub IsExact : RoomFiles → Type 0
IsExact f = IsNumbered f × IsCounted f

pub change-IsExact : (c : Change) (f : RoomFiles) → IsExact f → IsExact (change c f)
change-IsExact c f h = (change-IsNumbered c f h.0, change-IsCounted c f h.1)

change_all-IsExact : (cs : List Change) (f : RoomFiles) → IsExact f → IsExact (change_all cs f)
unfolding change_all
change_all-IsExact [] f h = h
change_all-IsExact (c ∷ cs) f h = change_all-IsExact cs (change c f) (change-IsExact c f h)

written :
    (c : Result StoreError (Unit {0})) (o : Option RoomFiles) (g f : RoomFiles)
    → IsExact g
    → (c >> write_new o g) ≡ ok f
    → IsExact f
written (err x) o g f h e = cc
written (ok _) (some existing) g f h e = cc
written (ok _) none g f h e = let same : g ≡ f = cc in subst (λ (k : RoomFiles). IsExact k) same h

-- In a room that `createRoom` has made, after any operations, each refused or not, the ids of the log
-- are 1, 2 and so on in its order, the next id follows the last of them, and every message is of the
-- room.
pub created-IsExact :
    (now : ℕ) (room host : Text) (expiry : Option ℕ) (brief : Text)
    (policy : Option AttendancePolicy) (o : Option RoomFiles) (f : RoomFiles) (cs : List Change)
    → create_room now room host expiry brief policy o ≡ ok f
    → IsExact (change_all cs f)
created-IsExact now room host expiry brief policy o f cs e = change_all-IsExact cs f (
    unfold create_room in
    written (check_slug room >> check_slug host >> check_brief brief) o
      (new_room now room host expiry brief policy) f (((tt, tt, tt), tt, omega arith), (tt, refl))
      e)

-- Where the process stops between the two writes of an append, the log has a message that the counter
-- does not count; `recoverRoomState` makes the files agree again.
pub recovered-IsNumbered :
    (f : RoomFiles) (m : Message)
    → IsNumbered f
    → m.id ≡ f.state.next_message_id
    → m.room ≡ f.state.id
    → IsNumbered (recover_room_state (append_line m f)).1
unfolding append_line
recovered-IsNumbered f m h e r =
    recover_room_state-IsNumbered (append_line m f) (IsLog-append_line f m h e r)
