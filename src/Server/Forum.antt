-- ===== src/Server/Forum.antt =====
-- src/server/http.ts: the handlers of the forum, over the store of the forum. Their state is that of the
-- server with the files of the boardroom and of the forum.
use telegent.Base.{
  Text, codes, if◌then◌else◌, Result, ok, err, ◌>>=◌, length, all, ℕ, Bool, true, false, ◌||◌,
  Option, none, some, List, [], ◌∷◌,
}
use telegent.Base.Maps.{Map}
use telegent.Protocol.Types.{Participant}
use telegent.Protocol.Messages.{Field, string}
use telegent.Protocol.Boardroom.{Boardroom}
use telegent.Protocol.Forum.{ForumPost, ForumComment, invalid_tag, parse_forum_status}
use telegent.Protocol.Validation.{is_space}
use telegent.Storage.BoardroomStore.{ChannelReadCursor}
use telegent.Storage.ForumStore.{
  ForumFiles, ForumPostThread, ForumStoreError, CreateForumPostInput, Stored, channel_not_found,
  post_not_found, invalid, create_forum_post, read_forum_post, list_forum_posts, add_forum_comment,
}
use telegent.Server.Errors.{
  HttpError, http_error, missing_param, invalid_forum_post, invalid_forum_comment, forum_not_found,
  forum_error, internal_error,
}
use telegent.Server.Guards.{starts_with}
use telegent.Server.Room.{ServerApi, RoomServer, Handler, require_participant, require_room_open}

pub record ForumServer : Type 0 where
  pub room : RoomServer
  pub boardroom : Option Boardroom
  pub channel_cursors : Map (Map ChannelReadCursor)
  pub threads : Map (Map ForumPostThread)

abbrev pub ForumHandler {ℓ} : Type ℓ → Type ℓ
ForumHandler A = ForumServer → Result HttpError A × ForumServer

abbrev pub forum_files : ForumServer → ForumFiles
forum_files s = record {
  board = record {
    room = s.room.files;
    boardroom = s.boardroom;
    channel_cursors = s.channel_cursors;
  };
  threads = s.threads;
}

-- A step on the room, and what follows it.
abbrev pub after_step {ℓ κ} :
    {A : Type ℓ} {B : Type κ}
    → ForumServer
    → (A → ForumHandler B)
    → Result HttpError A × RoomServer
    → Result HttpError B × ForumServer
after_step s f (err e, t) = (err e, record s { room = t })
after_step s f (ok a, t) = f a (record s { room = t })

abbrev pub in_room {ℓ κ} :
    {A : Type ℓ} {B : Type κ} → Handler A → (A → ForumHandler B) → ForumHandler B
in_room m f s = after_step s f (m s.room)

-- `/…/i.test(message)`
abbrev pub contains : Text → Text → Bool
contains t [] = starts_with t []
contains t (c ∷ s) = starts_with t (c ∷ s) || contains t s

-- Whether the message of the error has the words `not found`, or its code is that of a missing file. The
-- other messages are fixed but for slugs, which have no space.
abbrev pub says_not_found : (Text → Text) → ForumStoreError → Bool
says_not_found lower channel_not_found = true
says_not_found lower post_not_found = true
says_not_found lower (invalid (invalid_tag raw)) = contains (codes "not found") (lower raw)
says_not_found lower _ = false

unfoldable pub forum_guard {ℓ} :
    {A : Type ℓ} → (Text → Text) → Result ForumStoreError A → Result HttpError A
forum_guard lower (ok a) = ok a
forum_guard lower (err e) =
    if says_not_found lower e
    then err (http_error 404 forum_not_found)
    else err (http_error 400 forum_error)

unfoldable pub require_param : Option Text → Result HttpError Text
require_param none = err (http_error 400 missing_param)
require_param (some []) = err (http_error 400 missing_param)
require_param (some (c ∷ s)) = ok (c ∷ s)

-- A post of the list with the number of its comments.
pub record CountedPost : Type 0 where
  pub post : ForumPost
  pub comment_count : ℕ

abbrev pub unguarded {ℓ} : {A : Type ℓ} → Result ForumStoreError A → Result HttpError A
unguarded (ok a) = ok a
unguarded (err e) = err (http_error 500 internal_error)

unfoldable pub with_counts :
    (Text → Text) → Text → ForumFiles → List ForumPost → Result HttpError (List CountedPost)
unfolding read_forum_post
with_counts lower channel f [] = ok []
with_counts lower channel f (p ∷ ps) = unguarded (read_forum_post lower channel p.id f) >>= λ t.
    with_counts lower channel f ps >>= λ rest.
    ok (record { post = p; comment_count = length t.comments } ∷ rest)

unfoldable pub get_forum_posts : ServerApi → Option Text → ForumHandler (List CountedPost)
unfolding forum_guard require_param with_counts list_forum_posts
get_forum_posts api channel s = (
  require_param channel >>= λ c.
      forum_guard api.lower (list_forum_posts api.lower c (forum_files s)) >>= λ posts.
      with_counts api.lower c (forum_files s) posts,
  s,
)

unfoldable pub get_forum_post : ServerApi → Option Text → Option Text → ForumHandler ForumPostThread
unfolding forum_guard require_param read_forum_post
get_forum_post api channel post s = (
  require_param channel >>= λ c. require_param post >>= λ p.
      forum_guard api.lower (read_forum_post api.lower c p (forum_files s)),
  s,
)

pub record PostBody : Type 0 where
  pub channel : Field
  pub title : Field
  pub body : Field
  -- An array, or none for anything else.
  pub tags : Option (List Field)
  pub status : Field

abbrev pub strings : List Field → List Text
strings [] = []
strings (string s ∷ fs) = s ∷ strings fs
strings (_ ∷ fs) = strings fs

abbrev pub given_tags : Option (List Field) → Option (List Text)
given_tags none = none
given_tags (some fs) = some (strings fs)

-- The status is parsed outside `forumGuard`, so that an unknown one is an internal error.
abbrev pub given_status : Field → Result HttpError (Option Text)
given_status (string s) = elim (parse_forum_status s) [
  | ok _ ↦ ok (some s)
  | err _ ↦ err (http_error 500 internal_error)
]
given_status _ = ok none

abbrev pub post_input :
    Text
    → Field
    → Field
    → Field
    → Option (List Text)
    → Option Text
    → Result HttpError (Text × CreateForumPostInput)
post_input author (string channel) (string title) (string body) tags status = ok (
  channel,
  record { author = author; title = title; body = body; id = none; status = status; tags = tags },
)
post_input author _ _ _ tags status = err (http_error 400 invalid_forum_post)

abbrev pub read_post_body : Text → PostBody → Result HttpError (Text × CreateForumPostInput)
read_post_body author b =
    post_input author b.channel b.title b.body (given_tags b.tags) none >>= λ read.
    given_status b.status >>= λ status. ok (read.0, record read.1 { status = status })

-- An operation of the store of the forum, with its errors mapped.
abbrev pub stored_forum {ℓ} :
    {A : Type ℓ} → (Text → Text) → (ForumFiles → Stored A) → ForumHandler A
stored_forum lower op s =
    let (r, f) = op (forum_files s) in (forum_guard lower r, record s { threads = f.threads })

abbrev pub with_read {ℓ κ} :
    {A : Type ℓ} {B : Type κ} → Result HttpError A → (A → ForumHandler B) → ForumHandler B
with_read (err e) f s = (err e, s)
with_read (ok a) f s = f a s

unfoldable pub post_forum_post :
    ServerApi → ℕ → Text → Participant → PostBody → ForumHandler ForumPost
unfolding forum_guard create_forum_post
post_forum_post api now fresh p body = in_room (require_room_open now) λ _.
    with_read (read_post_body p.alias body)
      λ read. stored_forum api.lower (create_forum_post api.lower read.0 fresh read.1 now)

pub record CommentBody : Type 0 where
  pub channel : Field
  pub post : Field
  pub body : Field

pub record CommentInput : Type 0 where
  pub channel : Text
  pub post : Text
  pub body : Text

abbrev pub comment_input : Field → Field → Field → Result HttpError CommentInput
comment_input (string channel) (string post) (string body) =
    if all is_space body
    then err (http_error 400 invalid_forum_comment)
    else ok (record { channel = channel; post = post; body = body })
comment_input _ _ _ = err (http_error 400 invalid_forum_comment)

unfoldable pub post_forum_comment :
    ServerApi → ℕ → Participant → CommentBody → ForumHandler ForumComment
unfolding forum_guard add_forum_comment
post_forum_comment api now p body = in_room (require_room_open now) λ _.
    with_read (comment_input body.channel body.post body.body)
      λ c. stored_forum api.lower (add_forum_comment api.lower c.channel c.post p.alias c.body now)

-- The requests of the forum behind a token.
pub data ForumRequest : Type 0 where
  lists_posts : Option Text → ForumRequest
  reads_post : Option Text → Option Text → ForumRequest
  -- The random part of the new post's id, and the body.
  posts : Text → PostBody → ForumRequest
  comments : CommentBody → ForumRequest

pub data ForumReply : Type 0 where
  posts_reply : List CountedPost → ForumReply
  thread_reply : ForumPostThread → ForumReply
  post_reply : ForumPost → ForumReply
  comment_reply : ForumComment → ForumReply

abbrev pub replied {ℓ} :
    {A : Type ℓ}
    → (A → ForumReply)
    → Result HttpError A × ForumServer
    → Result HttpError ForumReply × ForumServer
replied reply (r, s) = (r >>= λ a. ok (reply a), s)

unfoldable pub handle_forum : ServerApi → ℕ → Participant → ForumRequest → ForumHandler ForumReply
unfolding get_forum_posts get_forum_post post_forum_post post_forum_comment
handle_forum api now p (lists_posts channel) s = replied posts_reply (get_forum_posts api channel s)
handle_forum api now p (reads_post channel post) s =
    replied thread_reply (get_forum_post api channel post s)
handle_forum api now p (posts fresh body) s =
    replied post_reply (post_forum_post api now fresh p body s)
handle_forum api now p (comments body) s =
    replied comment_reply (post_forum_comment api now p body s)

unfoldable pub serve_forum : ServerApi → ℕ → Option Text → ForumRequest → ForumHandler ForumReply
unfolding handle_forum
serve_forum api now token r =
    in_room (require_participant api false token) λ p. handle_forum api now p r
