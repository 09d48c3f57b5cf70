-- ===== src/Storage/RoomStore/Appends.antt =====
-- What an append may leave on disk.
use telegent.Base.{
  Text, Bool-cases, Result, ok, err, ◌>>◌, ℕ, ◌≡◌, refl, inl, inr, Option, none, some,
}
use telegent.Protocol.Types.{Message, ClientMessageInput}
use telegent.Protocol.Messages.{
  RawMessage, MessageError, client_message_input_from_record, build_message,
}
use telegent.Storage.RoomStore.{
  RoomFiles, StoreError, find_existing, is_full, append_found, append_input, append_line,
  count_message, append_message_result, append_server_message, server_message, create_message,
  check_slug, aliases, checked, parsed_append,
}

pub checked-files {ℓ κ} :
    {A : Type ℓ} (P : RoomFiles → Type κ) (c : Result StoreError (Unit {0})) (f : RoomFiles)
    (done : Result StoreError A × RoomFiles)
    → P f
    → P done.1
    → P (checked c f done).1
checked-files P (err e) f done h k = h
checked-files P (ok _) f done h k = k

-- A message that the room's counter and id are given to, logged and counted.
abbrev pub Logged {κ} : (RoomFiles → Type κ) → ℕ → RoomFiles → Type κ
Logged P now f =
    (m : Message)
    → m.id ≡ f.state.next_message_id
    → m.room ≡ f.state.id
    → P (count_message now m (append_line m f))

module _ {κ} (P : RoomFiles → Type κ) (now : ℕ) (from : Text) (limit : Option ℕ)
    (f : RoomFiles) where
  append_found-files :
      (m : Message) (o : Option Message)
      → P f
      → P (count_message now m (append_line m f))
      → P (append_found now m limit f o).1
  append_found-files m (some existing) h k = unfold append_found in h
  append_found-files m none h k = elim (Bool-cases (is_full limit f.messages)) [
    | inl full ↦ unfold append_found in rw full h
    | inr room ↦ unfold append_found in rw room k
  ]

  append_input-files :
      (input : ClientMessageInput)
      → P f
      → Logged P now f
      → P (append_input now from input limit f).1
  append_input-files input h k =
      let m = create_message input f.state.next_message_id f.state.id from (aliases f) now in
      unfold append_input in
      append_found-files m (find_existing from input.client_msg_id f.messages) h (
        k m (unfold create_message build_message in refl)
          (unfold create_message build_message in refl))

  parsed_append-files :
      (r : Result MessageError ClientMessageInput)
      → P f
      → Logged P now f
      → P (parsed_append now from r limit f).1
  parsed_append-files (err e) h k = h
  parsed_append-files (ok input) h k = append_input-files input h k

  pub append_message_result-files :
      (room : Text) (raw : Option RawMessage)
      → P f
      → Logged P now f
      → P (append_message_result now room from raw limit f).1
  append_message_result-files room raw h k =
      unfold append_message_result in
      checked-files P (check_slug room >> check_slug from) f
        (parsed_append now from (client_message_input_from_record raw) limit f) h
        (parsed_append-files (client_message_input_from_record raw) h k)

  pub append_server_message-files :
      (room text : Text) → P f → Logged P now f → P (append_server_message now room from text f).1
  append_server_message-files room text h k =
      unfold append_server_message in
      checked-files P (check_slug room >> check_slug from) f
        (
          ok (server_message now from text f),
          count_message now (server_message now from text f)
              (append_line (server_message now from text f) f),
        )
        h
        (k (server_message now from text f) (unfold build_message in refl)
          (unfold build_message in refl))
