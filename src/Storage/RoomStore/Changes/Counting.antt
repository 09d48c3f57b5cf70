-- ===== src/Storage/RoomStore/Changes/Counting.antt =====
-- The ids of a room's log without gaps, and the counter as their number.
use telegent.Base.{
  leb, Bool-cases, length, ℕ, ◌+◌, max, ◌≡◌, refl, inl, inr, none, List, [], ◌∷◌, ◌++◌, arith,
}
use telegent.Protocol.Types.{Message}
use telegent.Storage.RoomStore.{
  RoomFiles, append_line, count_message, update_attendance_policy, update_brief, write_cursor,
  write_participants, upsert_participant, close_room, recover_room_state, recover_next_message_id,
  highest_from,
}
use telegent.Storage.RoomStore.Appends.{
  append_message_result-files, append_server_message-files, checked-files,
}
use telegent.Storage.RoomStore.Changes.{
  Change, change, sets_policy, sets_brief, appends, server_appends, sets_cursor, sets_participants,
  upserts, closes, recovers,
}

-- The ids are `n`, `n + 1` and so on, in the order of the log.
abbrev pub Counts : ℕ → List Message → Type 0
Counts n [] = Unit
Counts n (m ∷ ms) = (m.id ≡ n) × Counts (n + 1) ms

-- The ids are 1, 2 and so on, and the next one follows the last.
abbrev pub IsCounted : RoomFiles → Type 0
IsCounted f = Counts 1 f.messages × (f.state.next_message_id ≡ length f.messages + 1)

Counts-append :
    (n : ℕ) (ms : List Message) (m : Message)
    → Counts n ms
    → m.id ≡ length ms + n
    → Counts n (ms ++ m ∷ []) × (length (ms ++ m ∷ []) ≡ length ms + 1)
Counts-append n [] m h e = ((omega (arith, e), tt), refl)
Counts-append n (k ∷ ms) m h e =
    let (rest, longer) = Counts-append (n + 1) ms m h.1 (omega (arith, e)) in
    ((h.0, rest), omega (arith, longer))

highest_from-Counts :
    (a : ℕ) (ms : List Message) → Counts (a + 1) ms → highest_from a ms ≡ a + length ms
highest_from-Counts a [] h = omega arith
highest_from-Counts a (m ∷ ms) h =
    let next : max a m.id ≡ a + 1 = omega (arith, h.0) in
    rw (next, highest_from-Counts (a + 1) ms h.1) (omega arith)

count_message-IsCounted :
    (now : ℕ) (f : RoomFiles) (m : Message)
    → IsCounted f
    → m.id ≡ f.state.next_message_id
    → IsCounted (count_message now m (append_line m f))
unfolding count_message append_line
count_message-IsCounted now f m h e =
    let (counts, longer) = Counts-append 1 f.messages m h.0 (omega (arith, e, h.1)) in
    (counts, omega (arith, e, h.1, longer))

recover_room_state-IsCounted : (f : RoomFiles) → IsCounted f → IsCounted (recover_room_state f).1
unfolding recover_room_state recover_next_message_id
recover_room_state-IsCounted f h =
    let highest : highest_from 0 f.messages ≡ length f.messages =
      omega (arith, highest_from-Counts 0 f.messages h.0) in
    elim (Bool-cases (leb (highest_from 0 f.messages + 1) f.state.next_message_id)) [
      | inl enough ↦ rw enough h
      | inr short ↦ absurd (ground (arith, short, highest, h.1))
    ]

pub change-IsCounted : (c : Change) (f : RoomFiles) → IsCounted f → IsCounted (change c f)
unfolding change
change-IsCounted (sets_policy now room policy by) f h =
    unfold update_attendance_policy in checked-files IsCounted _ f _ h h
change-IsCounted (sets_brief now room body by) f h =
    unfold update_brief in checked-files IsCounted _ f _ h h
change-IsCounted (appends now room from input limit) f h =
    append_message_result-files IsCounted now from limit f room input h
      (λ m e r. count_message-IsCounted now f m h e)
change-IsCounted (server_appends now room from text) f h =
    append_server_message-files IsCounted now from none f room text h
      (λ m e r. count_message-IsCounted now f m h e)
change-IsCounted (sets_cursor alias since_id now) f h =
    unfold write_cursor in checked-files IsCounted _ f _ h h
change-IsCounted (sets_participants ps) f h =
    unfold write_participants in checked-files IsCounted _ f _ h h
change-IsCounted (upserts q) f h = unfold upsert_participant in checked-files IsCounted _ f _ h h
change-IsCounted (closes now) f h = unfold close_room in h
change-IsCounted recovers f h = recover_room_state-IsCounted f h
