-- ===== src/Server/Handlers/Posting.antt =====
-- What an accepted message does to the room and to the requests that wait on it.
use telegent.Base.{
  Text, codes, text_eq_refl, if◌then◌else◌, Bool-cases, Result, ok, err, ◌>>◌, ℕ, ◌≡◌, refl, ap,
  ◌∙◌, inl, inr, Bool, true, false, Option, none, some, [], ◌∷◌, ◌++◌,
}
use telegent.Protocol.Types.{Participant, Message, RoomState, ClientMessageInput, closed_room}
use telegent.Protocol.Messages.{RawMessage, MessageError, client_message_input_from_record}
use telegent.Storage.RoomStore.Appends.{checked-files}
use telegent.Storage.RoomStore.{
  checked, StoreError, RoomFiles, AppendMessageResult, upsert_participant, append_message_result,
  append_server_message, append_found, append_input, count_message, append_line, is_full,
  close_room, check_slug, parsed_append,
}
use telegent.Server.Errors.{HttpError}
use telegent.Server.Errors
use telegent.Server.WaitHub.{WaitHub, notify, waiters_of}
use telegent.Server.WaitHub.Notify.{notify_all}
use telegent.Server.Room.{
  RoomServer, RoomOptions, Handler, ◌then◌, answer, require, sent, stored, touch_participant,
  require_room_open, close_expired_room, continue, open_or, has_expired, append_system, notify_room,
}
use telegent.Server.Handlers.{Reply, message_reply, limit_rate, limit_loop, announce, post_message}

-- The log, the waiters and the options stay.
abbrev Undisturbed : RoomServer → RoomServer → Type 0
Undisturbed s t = (t.files.messages ≡ s.files.messages) × (t.hub ≡ s.hub) × (t.options ≡ s.options)

-- The message stands at the end of the log, and every request that waited on the room is answered.
abbrev Posted : AppendMessageResult → RoomServer → RoomServer → Type 0
Posted r s t =
    (t.files.messages ≡ s.files.messages ++ r.message ∷ [])
    × (t.hub ≡ notify s.options.room_id s.hub)
    × (t.options ≡ s.options)

touch_participant-Undisturbed :
    (now : ℕ) (p : Participant) (a : _) (s : RoomServer)
    → Undisturbed s (touch_participant now p a s).1
unfolding touch_participant upsert_participant
touch_participant-Undisturbed now p a s = (
  checked-files (λ g. g.messages ≡ s.files.messages) (check_slug p.alias) s.files _ refl refl,
  refl,
  refl,
)

-- After the time of a room has run out, a message is refused.
expired-refused :
    {X : Type 0} (state : RoomState) (r : Result HttpError (Unit {0}) × RoomServer)
    → (continue
        (λ k. require (open_or Errors.room_closed k))
        (continue (λ _. notify_room then λ _. answer (record state { status = closed_room })) r)).0
      ≡ ok tt
    → X
expired-refused state (err e, s) passed = cc
expired-refused state (ok _, s) passed = cc

-- A room that is still open after its time was checked has not been closed by it.
require_room_open-Undisturbed :
    (now : ℕ) (s : RoomServer)
    → (require_room_open now s).0 ≡ ok tt
    → Undisturbed s (require_room_open now s).1
unfolding require_room_open close_expired_room append_system close_room append_server_message
require_room_open-Undisturbed now s passed = elim (Bool-cases (has_expired now s.files.state)) [
  | inl over ↦
      expired-refused (record s.files.state { updated_at = now })
        (append_system now (codes "room closed by ttl") _) (rw over at passed)
  | inr before ↦ rw before (refl, refl, refl)
]

abbrev Appends :
    RoomFiles → AppendMessageResult → Result StoreError AppendMessageResult × RoomFiles → Type 0
Appends f r done =
    done.0 ≡ ok r → r.idempotent ≡ false → done.1.messages ≡ f.messages ++ r.message ∷ []

append_found-Appends :
    (now : ℕ) (m : Message) (limit : Option ℕ) (f : RoomFiles) (r : AppendMessageResult)
    (o : Option Message)
    → Appends f r (append_found now m limit f o)
unfolding append_found append_line count_message
append_found-Appends now m limit f r (some existing) e fresh = cc
append_found-Appends now m limit f r none e fresh = elim (Bool-cases (is_full limit f.messages)) [
  | inl full ↦ let refused : _ = rw full at e in cc
  | inr room ↦ rw room (let stored : _ = rw room at e in cc)
]

parsed_append-Appends :
    (now : ℕ) (from : Text) (limit : Option ℕ) (f : RoomFiles) (r : AppendMessageResult)
    (input : Result MessageError ClientMessageInput)
    → Appends f r (parsed_append now from input limit f)
unfolding append_input
parsed_append-Appends now from limit f r (err x) e fresh = cc
parsed_append-Appends now from limit f r (ok input) e fresh =
    append_found-Appends now _ limit f r _ e fresh

checked-Appends :
    (c : Result StoreError (Unit {0})) (f : RoomFiles) (r : AppendMessageResult)
    (done : Result StoreError AppendMessageResult × RoomFiles)
    → Appends f r done
    → Appends f r (checked c f done)
checked-Appends (err x) f r done h e fresh = cc
checked-Appends (ok _) f r done h e fresh = h e fresh

append_message_result-Appends :
    (now : ℕ) (room from : Text) (body : Option RawMessage) (limit : Option ℕ) (f : RoomFiles)
    (r : AppendMessageResult)
    → Appends f r (append_message_result now room from body limit f)
unfolding append_message_result
append_message_result-Appends now room from body limit f r =
    checked-Appends (check_slug room >> check_slug from) f r _
      (parsed_append-Appends now from limit f r (client_message_input_from_record body))

-- The last step: what was appended is announced.
announced :
    (s : RoomServer) (r x : AppendMessageResult) (b : Bool) (t : RoomServer)
    → x.idempotent ≡ b
    → (x.idempotent ≡ false → t.files.messages ≡ s.files.messages ++ x.message ∷ [])
    → (t.hub ≡ s.hub) × (t.options ≡ s.options)
    → ((if b then answer (message_reply x) else (notify_room then λ _. answer (message_reply x)))
        t).0
      ≡ ok (message_reply r)
    → r.idempotent ≡ false
    → Posted r s
        ((if b then answer (message_reply x) else (notify_room then λ _. answer (message_reply x)))
          t).1
announced s r x true t h log same e fresh =
    let answered : x ≡ r = cc in
    let x_fresh : _ = ap (λ (y : AppendMessageResult). y.idempotent) answered in cc
announced s r x false t new log same e fresh =
    let answered : x ≡ r = cc in
    (
      log new ∙ ap (λ (y : AppendMessageResult). s.files.messages ++ y.message ∷ []) answered,
      ap (λ (o : RoomOptions). notify o.room_id t.hub) same.1
          ∙ ap (notify s.options.room_id) same.0,
      same.1,
    )

appended-Posted :
    (s : RoomServer) (r : AppendMessageResult)
    (done : Result StoreError AppendMessageResult × RoomFiles)
    → ((x : AppendMessageResult) → Appends s.files x done)
    → (continue announce (sent done.0, record s { files = done.1 })).0 ≡ ok (message_reply r)
    → r.idempotent ≡ false
    → Posted r s (continue announce (sent done.0, record s { files = done.1 })).1
appended-Posted s r (err x, g) h e fresh = cc
appended-Posted s r (ok x, g) h e fresh =
    announced s r x x.idempotent (record s { files = g }) refl (λ new. h x refl new) (refl, refl) e
      fresh

abbrev PostedBy : AppendMessageResult → RoomServer → Result HttpError Reply × RoomServer → Type 0
PostedBy r s x = x.0 ≡ ok (message_reply r) → r.idempotent ≡ false → Posted r s x.1

abbrev Quiet : RoomServer → Result HttpError (Unit {0}) × RoomServer → Type 0
Quiet s x = x.0 ≡ ok tt → Undisturbed s x.1

-- A step that disturbs nothing, before those that post the message.
module _ (r : AppendMessageResult) (s : RoomServer) where
  passed-PostedBy :
      (f : Unit {0} → Handler Reply) (x : Result HttpError (Unit {0}) × RoomServer)
      → Quiet s x
      → ((t : RoomServer) → Undisturbed s t → PostedBy r s (f tt t))
      → PostedBy r s (continue f x)
  passed-PostedBy f (err e, t) quiet next answered fresh = cc
  passed-PostedBy f (ok _, t) quiet next answered fresh = next t (quiet refl) answered fresh

  then-PostedBy :
      (m : Handler (Unit {0})) (f : Unit {0} → Handler Reply) (t : RoomServer)
      → Undisturbed s t
      → Quiet t (m t)
      → ((u : RoomServer) → Undisturbed s u → PostedBy r s (f tt u))
      → PostedBy r s ((m then f) t)
  then-PostedBy m f t before quiet next =
      passed-PostedBy f (m t)
        (λ e. let h : _ = quiet e in (h.0 ∙ before.0, h.1 ∙ before.1, h.2 ∙ before.2)) next

  stored-PostedBy :
      (op : RoomFiles → Result StoreError AppendMessageResult × RoomFiles) (t : RoomServer)
      → Undisturbed s t
      → ((f : RoomFiles) (x : AppendMessageResult) → Appends f x (op f))
      → PostedBy r s (((stored op) then λ x. announce x) t)
  stored-PostedBy op t before appends answered fresh =
      let h : _ = appended-Posted t r (op t.files) (appends t.files) answered fresh in
      (
        h.0 ∙ ap (λ ms. ms ++ r.message ∷ []) before.0,
        h.1
            ∙ (ap (λ (o : RoomOptions). notify o.room_id t.hub) before.2
                ∙ ap (notify s.options.room_id) before.1),
        h.2 ∙ before.2,
      )

post_message-PostedBy :
    (now : ℕ) (p : Participant) (body : Option RawMessage) (s : RoomServer)
    (r : AppendMessageResult)
    → PostedBy r s (post_message now p body s)
unfolding post_message
post_message-PostedBy now p body s r =
    then-PostedBy r s (touch_participant now p p.attention) _ s (refl, refl, refl)
      (λ _. touch_participant-Undisturbed now p p.attention s)
      λ t same.
        then-PostedBy r s (require_room_open now) _ t same (require_room_open-Undisturbed now t)
          λ u same.
            then-PostedBy r s (limit_rate now p) _ u same (λ _. (refl, refl, refl))
              λ v same.
                then-PostedBy r s (limit_loop p) _ v same (λ _. (refl, refl, refl))
                  λ w same.
                    stored-PostedBy r s
                      (append_message_result now s.options.room_id p.alias body
                        (some s.options.max_messages))
                      w same
                      λ f.
                        append_message_result-Appends now s.options.room_id p.alias body
                          (some s.options.max_messages) f

-- A message that was accepted, and is not the repetition of one of the log, stands at the end of the
-- log, and every request that waited on the room, in the order in which they came, is released.
pub post_message-releases :
    (now : ℕ) (p : Participant) (body : Option RawMessage) (s : RoomServer)
    (r : AppendMessageResult)
    → (post_message now p body s).0 ≡ ok (message_reply r)
    → r.idempotent ≡ false
    → let t = (post_message now p body s).1 in
      let room = s.options.room_id in
      (t.files.messages ≡ s.files.messages ++ r.message ∷ [])
      × (t.hub.released ≡ s.hub.released ++ waiters_of room s.hub)
      × (waiters_of room t.hub ≡ [])
post_message-releases now p body s r e fresh =
    let h : _ = post_message-PostedBy now p body s r e fresh in
    let room = s.options.room_id in
    let told : _ = notify_all room s.hub in
    (
      h.0,
      ap (λ (k : WaitHub). k.released) h.1 ∙ told.0,
      ap (λ k. waiters_of room k) h.1 ∙ (told.1 room ∙ (rw (text_eq_refl room) refl)),
    )
