-- ===== src/Server/Requests/Opening.antt =====
-- What a room accepts, by whether it is open.
use telegent.Base.{
  Text, codes, Bool-cases, Result, ok, err, ℕ, ◌≡◌, refl, sym, ap, subst, ◌∙◌, inl, inr, Bool, true,
  false, Option, none, some, is_some,
}
use telegent.Base.Results.{>>=-passed}
use telegent.Protocol.Types.{Participant, RoomState, RoomStatus, open_room, closed_room}
use telegent.Protocol.Messages.{RawMessage}
use telegent.Storage.RoomStore.{RoomFiles, close_room, upsert_participant}
use telegent.Storage.ForumStore.{create_forum_post, add_forum_comment}
use telegent.Storage.RoomStore.Appends.{checked-files}
use telegent.Server.Errors
use telegent.Server.Errors.{HttpError, HttpErrorCode}
use telegent.Server.Room.{
  ServerApi, RoomServer, Handler, ◌then◌, continue, answer, notify_room, append_system,
  require_participant, touch_participant, admitted_participant, find_participant, has_expired,
  close_expired_room, require_room_open, open_or, require,
}
use telegent.Server.Room.Steps.{then-Passed}
use telegent.Server.Handlers.{Reply, post_message}
use telegent.Server.Forum.{
  ForumServer, ForumHandler, ForumRequest, ForumReply, posts, comments, lists_posts, reads_post,
  in_room, after_step, with_read, stored_forum, read_post_body, comment_input, handle_forum,
  post_forum_post, post_forum_comment,
}
use telegent.Server.Requests.{
  Request, RoomRequest, Answer, of_room, of_forum, gets_card, gets_status, gets_boardroom,
  posts_message, waits, handle, handle_room, serve, allows_removed, room_answer,
}

-- The requests that write a message, a post or a comment.
abbrev pub writes : Request → Bool
writes (of_room (posts_message body)) = true
writes (of_forum (posts fresh body)) = true
writes (of_forum (comments body)) = true
writes _ = false

-- The room is open, and its time is not over.
abbrev pub IsOpen : ℕ → RoomState → Type 0
IsOpen now state = (state.status ≡ open_room) × (has_expired now state ≡ false)

announced-same :
    (state a : RoomState) (r : Result HttpError (Unit {0}) × RoomServer)
    → (continue (λ _. notify_room then λ _. answer state) r).0 ≡ ok a
    → state ≡ a
announced-same state a (err x, t) e = cc
announced-same state a (ok u, t) e = cc

expired-closed :
    (now : ℕ) (s : RoomServer) (a : RoomState)
    → has_expired now s.files.state ≡ true
    → (close_expired_room now s).0 ≡ ok a
    → a.status ≡ closed_room
unfolding close_expired_room close_room
expired-closed now s a over e =
    let e' : _ = rw over at e in
    ap (λ (k : RoomState). k.status)
      (sym (
        announced-same (close_room now s.files).0 a
          (append_system now (codes "room closed by ttl")
            (record s { files = (close_room now s.files).1 }))
          e'))

open_or-open :
    (code : HttpErrorCode) (a : RoomState) → open_or code a ≡ ok tt → a.status ≡ open_room
open_or-open code a e = by_status a.status refl
  where
    by_status : (t : RoomStatus) → a.status ≡ t → a.status ≡ open_room
    by_status open_room same = same
    by_status closed_room same = let no : _ = rw same at e in cc

require_room_open-IsOpen :
    (now : ℕ) (s : RoomServer) → (require_room_open now s).0 ≡ ok tt → IsOpen now s.files.state
unfolding require_room_open close_expired_room
require_room_open-IsOpen now s e = elim (Bool-cases (has_expired now s.files.state)) [
  | inl over ↦
      let (a, t, passed, rest) =
        then-Passed (close_expired_room now) (λ a. require (open_or Errors.room_closed a)) s tt e in
      let closed : a.status ≡ closed_room =
        expired-closed now s a over
          (ap (λ (x : Result HttpError RoomState × RoomServer). x.0) passed) in
      let opened : a.status ≡ open_room =
        open_or-open Errors.room_closed a
          (ap (λ (x : Result HttpError (Unit {0}) × RoomServer). x.0) (sym rest) ∙ e) in
      let both : _ = sym closed ∙ opened in cc
  | inr running ↦
      let e' : _ = rw running at e in (open_or-open Errors.room_closed s.files.state e', running)
]

state-touch_participant :
    (now : ℕ) (p : Participant) (a : _) (s : RoomServer)
    → (touch_participant now p a s).1.files.state ≡ s.files.state
unfolding touch_participant upsert_participant
state-touch_participant now p a s =
    checked-files (λ (f : RoomFiles). f.state ≡ s.files.state) _ s.files _ refl refl

post_message-IsOpen :
    (now : ℕ) (p : Participant) (body : Option RawMessage) (s : RoomServer) (r : Reply)
    → (post_message now p body s).0 ≡ ok r
    → IsOpen now s.files.state
unfolding post_message
post_message-IsOpen now p body s r e =
    let (_, t, touched, rest) = then-Passed (touch_participant now p p.attention) _ s r e in
    let e' = ap (λ (x : Result HttpError Reply × RoomServer). x.0) (sym rest) ∙ e in
    let (_, u, opened, _) = then-Passed (require_room_open now) _ t r e' in
    let same : t.files.state ≡ s.files.state =
      ap (λ (x : Result HttpError (Unit {0}) × RoomServer). x.1.files.state) (sym touched)
      ∙ state-touch_participant now p p.attention s in
    subst (λ (k : RoomState). IsOpen now k) same
      (require_room_open-IsOpen now t
        (ap (λ (x : Result HttpError (Unit {0}) × RoomServer). x.0) opened))

-- What follows a step on the room has answered, so the step has.
in_room-passed {ℓ κ} :
    {A : Type ℓ} {B : Type κ} (m : Handler A) (f : A → ForumHandler B) (s : ForumServer) (b : B)
    → (in_room m f s).0 ≡ ok b
    → (a : A) × ((m s.room).0 ≡ ok a)
in_room-passed m f s b e = by_result (m s.room) e
  where
    by_result :
        (r : Result HttpError _ × RoomServer) → (after_step s f r).0 ≡ ok b → (a : _) × (r.0 ≡ ok a)
    by_result (err x, t) k = cc
    by_result (ok a, t) k = (a, refl)

opens-IsOpen {ℓ} :
    {B : Type ℓ} (now : ℕ) (f : Unit {0} → ForumHandler B) (s : ForumServer) (b : B)
    → (in_room (require_room_open now) f s).0 ≡ ok b
    → IsOpen now s.room.files.state
opens-IsOpen now f s b e =
    let (u, passed) = in_room-passed (require_room_open now) f s b e in
    require_room_open-IsOpen now s.room passed

handle_forum-IsOpen :
    (api : ServerApi) (now : ℕ) (p : Participant) (r : ForumRequest) (s : ForumServer)
    (a : ForumReply)
    → writes (of_forum r) ≡ true
    → (handle_forum api now p r s).0 ≡ ok a
    → IsOpen now s.room.files.state
unfolding handle_forum post_forum_post post_forum_comment
handle_forum-IsOpen api now p (lists_posts channel) s a w e = cc
handle_forum-IsOpen api now p (reads_post channel post) s a w e = cc
handle_forum-IsOpen api now p (posts fresh body) s a w e =
    let (b, done, _) = >>=-passed (post_forum_post api now fresh p body s).0 _ a e in
    opens-IsOpen now
      (λ _.
        with_read (read_post_body p.alias body)
          (λ read. stored_forum api.lower (create_forum_post api.lower read.0 fresh read.1 now)))
      s b done
handle_forum-IsOpen api now p (comments body) s a w e =
    let (b, done, _) = >>=-passed (post_forum_comment api now p body s).0 _ a e in
    opens-IsOpen now
      (λ _. with_read (comment_input body.channel body.post body.body) (λ c.
        stored_forum api.lower (add_forum_comment api.lower c.channel c.post p.alias c.body now)))
      s b done

handle_room-IsOpen :
    (api : ServerApi) (now : ℕ) (p : Participant) (r : RoomRequest) (s : RoomServer) (a : Reply)
    → writes (of_room r) ≡ true
    → (handle_room api now p r s).0 ≡ ok a
    → IsOpen now s.files.state
unfolding handle_room
handle_room-IsOpen api now p (posts_message body) s a w e = post_message-IsOpen now p body s a e
handle_room-IsOpen api now p _ s a w e = cc

handle-IsOpen :
    (api : ServerApi) (now : ℕ) (p : Participant) (r : Request) (s : ForumServer) (a : Answer)
    → writes r ≡ true
    → (handle api now p r s).0 ≡ ok a
    → IsOpen now s.room.files.state
unfolding handle
handle-IsOpen api now p (of_room r) s a w e =
    let (b, done) =
      in_room-passed (handle_room api now p r) (λ b t. (ok (room_answer b), t)) s a e in
    handle_room-IsOpen api now p r s.room b w done
handle-IsOpen api now p (of_forum r) s a w e =
    let (b, done, _) = >>=-passed (handle_forum api now p r s).0 _ a e in
    handle_forum-IsOpen api now p r s b w done
handle-IsOpen api now p gets_card s a w e = cc
handle-IsOpen api now p gets_status s a w e = cc
handle-IsOpen api now p gets_boardroom s a w e = cc

writes-allows : (r : Request) → writes r ≡ true → allows_removed r ≡ false
writes-allows (of_room (posts_message body)) w = refl
writes-allows (of_room (waits waiter since alias)) w = cc
writes-allows (of_room _) w = refl
writes-allows _ w = refl

-- A message, a post of the forum or a comment is accepted only with the token of a participant that was
-- not removed, while the room is open and its time is not over.
pub serve-IsOpen :
    (api : ServerApi) (now : ℕ) (token : Text) (r : Request) (s : ForumServer) (a : Answer)
    → writes r ≡ true
    → (serve api now (some token) r s).0 ≡ ok a
    → IsOpen now s.room.files.state
      × ((p : Participant) × (find_participant api token s.room.files ≡ some p)
          × (is_some p.removed_at ≡ false))
unfolding serve require_participant
serve-IsOpen api now token r s a w e = by_found (find_participant api token s.room.files) refl e
  where
    f : Participant → ForumHandler Answer
    f p = handle api now p r

    by_found :
        (o : Option Participant)
        → find_participant api token s.room.files ≡ o
        → (after_step s f (admitted_participant (allows_removed r) o, s.room)).0 ≡ ok a
        → IsOpen now s.room.files.state
          × ((p : Participant) × (find_participant api token s.room.files ≡ some p)
              × (is_some p.removed_at ≡ false))
    by_found none found k = cc
    by_found (some p) found k = elim (Bool-cases (is_some p.removed_at)) [
      | inl gone ↦ let no : _ = rw (gone, writes-allows r w) at k in cc
      | inr there ↦ (handle-IsOpen api now p r s a w (rw there at k), (p, found, there))
    ]
