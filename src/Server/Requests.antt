-- ===== src/Server/Requests.antt =====
-- src/server/http.ts: a request behind a token, from the token to its answer. Between the admission of a
-- request and its handler, and while it waits, other requests may run; the rest of a handler is one step
-- on the server. What another request does between two later awaits of a handler is not modelled here.
pub mod Keeps
pub mod Endpoints
pub mod Numbering
pub mod Authority
pub mod Opening
use telegent.Base.{Text, Result, ok, ℕ, Bool, true, false, Option, List, [], ◌∷◌, ◌>>=◌}
use telegent.Protocol.Types.{Participant, AttendancePolicy}
use telegent.Protocol.Messages.{Field, RawMessage}
use telegent.Server.Errors.{HttpError}
use telegent.Server.Bodies.{AttentionBody}
use telegent.Server.WaitHub.{done}
use telegent.Server.Room.{
  ServerApi, RoomServer, Handler, answer, require_participant, advertised_base_url,
}
use telegent.Server.Handlers.{
  Reply, get_brief, post_brief, post_attendance, profile_reply, post_profile, post_join,
  get_messages, post_message, get_wait, resume_wait, post_leave, post_close,
}
use telegent.Server.Forum.{
  ForumServer, ForumHandler, ForumRequest, ForumReply, forum_files, in_room, handle_forum,
}
use telegent.Server.Views.{StatusReply, PublicBoardroom, get_status, get_boardroom}

-- The requests whose handlers are on the room alone.
pub data RoomRequest : Type 0 where
  gets_brief gets_profile leaves closes : RoomRequest
  posts_brief posts_attendance : Field → RoomRequest
  posts_profile : Field → AttentionBody → RoomRequest
  joins : AttentionBody → RoomRequest
  gets_messages : Option Text → Option Text → RoomRequest
  posts_message : Option RawMessage → RoomRequest
  -- The closure of a wait, and the query's `since_id` and `participant`.
  waits : Text → Option Text → Option Text → RoomRequest

unfoldable pub handle_room : ServerApi → ℕ → Participant → RoomRequest → Handler Reply
handle_room api now p gets_brief = get_brief
handle_room api now p gets_profile = answer (profile_reply p)
handle_room api now p leaves = post_leave now p
handle_room api now p closes = post_close now p
handle_room api now p (posts_brief body) = post_brief now p body
handle_room api now p (posts_attendance body) = post_attendance now p body
handle_room api now p (posts_profile name body) = post_profile api now p name body
handle_room api now p (joins body) = post_join now p body
handle_room api now p (gets_messages channel since) = get_messages api now p channel since
handle_room api now p (posts_message body) = post_message now p body
handle_room api now p (waits waiter since alias) = get_wait api now p waiter since alias

-- Every request behind a token.
pub data Request : Type 0 where
  of_room : RoomRequest → Request
  of_forum : ForumRequest → Request
  gets_card gets_status gets_boardroom : Request

-- What `renderInviteCard` is given, beside the token that the request came with.
pub record CardReply : Type 0 where
  pub base_url : Text
  pub participant : Participant
  pub brief : Text
  pub attendance_policy : AttendancePolicy

unfoldable pub get_card : ServerApi → Participant → RoomServer → CardReply
unfolding advertised_base_url
get_card api p s = record {
  base_url = advertised_base_url api s.options;
  participant = p;
  brief = s.files.brief;
  attendance_policy = s.files.state.attendance_policy;
}

pub data Answer : Type 0 where
  room_answer : Reply → Answer
  forum_answer : ForumReply → Answer
  card_answer : CardReply → Answer
  status_answer : StatusReply → Answer
  boardroom_answer : PublicBoardroom → Answer

abbrev pub answered {ℓ} :
    {A : Type ℓ}
    → (A → Answer)
    → Result HttpError A × ForumServer
    → Result HttpError Answer × ForumServer
answered f (r, s) = (r >>= λ a. ok (f a), s)

unfoldable pub handle : ServerApi → ℕ → Participant → Request → ForumHandler Answer
unfolding handle_room handle_forum get_card get_status get_boardroom
handle api now p (of_room r) = in_room (handle_room api now p r) λ a s. (ok (room_answer a), s)
handle api now p (of_forum r) = λ s. answered forum_answer (handle_forum api now p r s)
handle api now p gets_card = λ s. (ok (card_answer (get_card api p s.room)), s)
handle api now p gets_status = λ s. (ok (status_answer (get_status now p (forum_files s).board)), s)
handle api now p gets_boardroom =
    λ s. (ok (boardroom_answer (get_boardroom (forum_files s).board)), s)

-- Only a wait is open to a participant that was removed.
abbrev pub allows_removed : Request → Bool
allows_removed (of_room (waits waiter since alias)) = true
allows_removed _ = false

unfoldable pub serve : ServerApi → ℕ → Option Text → Request → ForumHandler Answer
unfolding handle
serve api now token r =
    in_room (require_participant api (allows_removed r) token) λ p. handle api now p r

-- What happens to a server: a request comes with its token; a request is handled that was admitted
-- before, with the participant as it stood then; a request that has waited goes on; or the timer of a
-- waiting request ends its wait.
pub data Event : Type 0 where
  arrives : ℕ → Option Text → Request → Event
  admitted_before : ℕ → Participant → Request → Event
  resumes : ℕ → Participant → ℕ → Event
  gives_up : Text → Event

unfoldable pub happen : ServerApi → Event → ForumServer → ForumServer
unfolding serve
happen api (arrives now token r) s = (serve api now token r s).1
happen api (admitted_before now p r) s = (handle api now p r s).1
happen api (resumes now p since) s = record s { room = (resume_wait api now p since s.room).1 }
happen api (gives_up waiter) s =
    let t = s.room in record s { room = record t { hub = done t.options.room_id waiter t.hub } }

unfoldable pub happen_all : ServerApi → List Event → ForumServer → ForumServer
unfolding happen
happen_all api [] s = s
happen_all api (e ∷ es) s = happen_all api es (happen api e s)
