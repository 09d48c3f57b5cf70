-- ===== src/Storage/RoomStore/Changes/Replay.antt =====
-- An append that is sent again.
use telegent.Base.{
  Text, text_eq_refl, Bool-cases, Result, ok, err, ◌>>◌, find, ℕ, ◌≡◌, refl, sym, ap, ◌∙◌, inl, inr,
  Bool, true, Option, none, some, List, [], ◌∷◌, ◌++◌, arith,
}
use telegent.Protocol.Types.{Message, ClientMessageInput}
use telegent.Protocol.Messages.{RawMessage, client_message_input_from_record, build_message}
use telegent.Storage.RoomStore.{
  RoomFiles, StoreError, AppendMessageResult, is_from, find_existing, is_full, append_found,
  parsed_append, checked, append_input, append_line, count_message, append_message_result,
  update_attendance_policy, update_brief, write_cursor, write_participants, upsert_participant,
  close_room, recover_room_state, create_message, check_slug, aliases,
}
use telegent.Storage.RoomStore.Appends.{append_message_result-files, append_server_message-files}
use telegent.Storage.RoomStore.Changes.{
  Change, change, change_all, sets_policy, sets_brief, appends, server_appends, sets_cursor,
  sets_participants, upserts, closes, recovers,
}

find-append :
    (p : Message → Bool) (m : Message) (ms ns : List Message)
    → find p ms ≡ some m
    → find p (ms ++ ns) ≡ some m
find-append p m (k ∷ ms) ns e = elim (Bool-cases (p k)) [
  | inl hit ↦ ground (arith, hit)
  | inr miss ↦ ground (arith, miss, find-append p m ms ns)
]
find-append p m [] ns e = cc

find-last :
    (p : Message → Bool) (m : Message) (ms : List Message)
    → find p ms ≡ none
    → p m ≡ true
    → find p (ms ++ m ∷ []) ≡ some m
find-last p m [] e h = rw h refl
find-last p m (k ∷ ms) e h = elim (Bool-cases (p k)) [
  | inl hit ↦ ground (arith, hit)
  | inr miss ↦ ground (arith, miss, find-last p m ms)
]

-- A message found once is found after every change.
change-find :
    (p : Message → Bool) (m : Message) (c : Change) (f : RoomFiles)
    → find p f.messages ≡ some m
    → find p (change c f).messages ≡ some m
unfolding change
change-find p m (sets_policy now room policy by) f e =
    unfold update_attendance_policy in ground arith
change-find p m (sets_brief now room body by) f e = unfold update_brief in ground arith
change-find p m (appends now room from input limit) f e =
    append_message_result-files (λ g. find p g.messages ≡ some m) now from limit f room input e
      (λ k _ _. unfold count_message append_line in find-append p m f.messages (k ∷ []) e)
change-find p m (server_appends now room from text) f e =
    append_server_message-files (λ g. find p g.messages ≡ some m) now from none f room text e
      (λ k _ _. unfold count_message append_line in find-append p m f.messages (k ∷ []) e)
change-find p m (sets_cursor alias since_id now) f e = unfold write_cursor in ground arith
change-find p m (sets_participants ps) f e = unfold write_participants in ground arith
change-find p m (upserts q) f e = unfold upsert_participant in ground arith
change-find p m (closes now) f e = unfold close_room in e
change-find p m recovers f e = unfold recover_room_state in ground arith

change_all-find :
    (p : Message → Bool) (m : Message) (cs : List Change) (f : RoomFiles)
    → find p f.messages ≡ some m
    → find p (change_all cs f).messages ≡ some m
unfolding change_all
change_all-find p m [] f e = e
change_all-find p m (c ∷ cs) f e = change_all-find p m cs (change c f) (change-find p m c f e)

module _ (from id : Text) where
  -- A new message is one that its client id finds.
  is_from-create_message :
      (input : ClientMessageInput) (n now : ℕ) (room : Text) (roster : List Text)
      → input.client_msg_id ≡ some id
      → is_from from id (create_message input n room from roster now) ≡ true
  unfolding create_message build_message
  is_from-create_message input n now room roster e = rw e (rw (text_eq_refl from) (text_eq_refl id))

  found-append_found :
      (now : ℕ) (m : Message) (limit : Option ℕ) (f : RoomFiles) (o : Option Message)
      (r : AppendMessageResult)
      → is_from from id m ≡ true
      → find (λ k. is_from from id k) f.messages ≡ o
      → (append_found now m limit f o).0 ≡ ok r
      → find (λ k. is_from from id k) (append_found now m limit f o).1.messages ≡ some r.message
  unfolding append_found append_line count_message
  found-append_found now m limit f (some existing) r own e done =
      let same : record { message = existing; idempotent = true } ≡ r = cc in
      e ∙ ap (λ (x : AppendMessageResult). some x.message) same
  found-append_found now m limit f none r own e done =
      elim (Bool-cases (is_full limit f.messages)) [
        | inl full ↦ ground (arith, full, done)
        | inr room ↦
            ground (arith, room, done, find-last (λ k. is_from from id k) m f.messages e own)
      ]

-- The checks that an append has passed.
checked-ok {ℓ} :
    {A : Type ℓ} (c : Result StoreError (Unit {0})) (f : RoomFiles)
    (done : Result StoreError A × RoomFiles) (r : A)
    → (checked c f done).0 ≡ ok r
    → c ≡ ok tt
checked-ok (err e) f done r h = cc
checked-ok (ok _) f done r h = refl

append_message_result-parsed :
    (now : ℕ) (room from : Text) (raw : Option RawMessage) (input : ClientMessageInput)
    (limit : Option ℕ) (f : RoomFiles)
    → (check_slug room >> check_slug from) ≡ ok tt
    → client_message_input_from_record raw ≡ ok input
    → append_message_result now room from raw limit f ≡ append_input now from input limit f
unfolding append_message_result
append_message_result-parsed now room from raw input limit f c e = rw c (rw e refl)

find-append_input :
    (now : ℕ) (from id : Text) (input : ClientMessageInput) (limit : Option ℕ) (f : RoomFiles)
    (r : AppendMessageResult)
    → input.client_msg_id ≡ some id
    → (append_input now from input limit f).0 ≡ ok r
    → find (λ k. is_from from id k) (append_input now from input limit f).1.messages
      ≡ some r.message
unfolding append_input
find-append_input now from id input limit f r named done =
    found-append_found from id now
      (create_message input f.state.next_message_id f.state.id from (aliases f) now) limit f
      (find_existing from input.client_msg_id f.messages) r
      (is_from-create_message from id input f.state.next_message_id now f.state.id (aliases f)
        named)
      (rw named refl) done

append_input-found :
    (now : ℕ) (from id : Text) (input : ClientMessageInput) (limit : Option ℕ) (f : RoomFiles)
    (m : Message)
    → input.client_msg_id ≡ some id
    → find (λ k. is_from from id k) f.messages ≡ some m
    → append_input now from input limit f ≡ (ok (record { message = m; idempotent = true }), f)
unfolding append_input append_found
append_input-found now from id input limit f m named e = rw named (rw e refl)

module _ (room from id : Text) (input again : ClientMessageInput) (raw raw' : Option RawMessage)
    (limit limit' : Option ℕ) (parsed : client_message_input_from_record raw ≡ ok input)
    (parsed' : client_message_input_from_record raw' ≡ ok again)
    (named : input.client_msg_id ≡ some id) (named' : again.client_msg_id ≡ some id) where
  -- After a message with a client id was appended, and whatever happened to the room since, another
  -- append by the same sender under that client id, at any time, with any text and any limit, returns
  -- the first message as a repetition and writes nothing.
  pub append_replayed :
      (now now' : ℕ) (cs : List Change) (f : RoomFiles) (r : AppendMessageResult)
      → (append_message_result now room from raw limit f).0 ≡ ok r
      → let g = change_all cs (append_message_result now room from raw limit f).1 in
        append_message_result now' room from raw' limit' g
        ≡ (ok (record { message = r.message; idempotent = true }), g)
  append_replayed now now' cs f r done =
      let passed : (check_slug room >> check_slug from) ≡ ok tt =
        unfold append_message_result in
        checked-ok (check_slug room >> check_slug from) f
          (parsed_append now from (client_message_input_from_record raw) limit f) r done in
      let first = append_message_result-parsed now room from raw input limit f passed parsed in
      rw first (
        append_message_result-parsed now' room from raw' again limit'
          (change_all cs (append_input now from input limit f).1) passed parsed'
        ∙ append_input-found now' from id again limit'
            (change_all cs (append_input now from input limit f).1) r.message named'
            (change_all-find (λ k. is_from from id k) r.message cs
              (append_input now from input limit f).1
              (find-append_input now from id input limit f r named (
                ap (λ (x : Result StoreError AppendMessageResult × RoomFiles). x.0) (sym first)
                ∙ done))))
