-- ===== src/Server/Requests/Endpoints.antt =====
-- A property of the room's files that each operation of the store keeps is kept by every request.
use telegent.Base.{Text, Result, ok, err, ℕ}
use telegent.Protocol.Types.{Participant}
use telegent.Storage.RoomStore.{RoomFiles}
use telegent.Storage.ForumStore.{create_forum_post, add_forum_comment}
use telegent.Server.Errors.{HttpError}
use telegent.Server.Room.{ServerApi, RoomServer, Handler, require_room_open}
use telegent.Server.Forum.{
  ForumServer, ForumHandler, ForumRequest, PostBody, CommentBody, lists_posts, reads_post, posts,
  comments, in_room, after_step, with_read, stored_forum, read_post_body, comment_input,
  handle_forum, get_forum_posts, get_forum_post, post_forum_post, post_forum_comment,
}
use telegent.Server.Requests.{
  Request, of_room, of_forum, gets_card, gets_status, gets_boardroom, handle, handle_room,
  room_answer,
}
use telegent.Server.Requests.Keeps.{Keeps, Laws, handle_room-Keeps, require_room_open-Keeps}

module _ {κ} (P : RoomFiles → Type κ) where
  abbrev pub KeepsAll {ℓ} : {A : Type ℓ} → ForumHandler A → Type κ
  KeepsAll m = (s : ForumServer) → P s.room.files → P (m s).1.room.files

  pub in_room-Keeps {ℓ μ} :
      {A : Type ℓ} {B : Type μ} (m : Handler A) (f : A → ForumHandler B)
      → Keeps P m
      → ((a : A) → KeepsAll (f a))
      → KeepsAll (in_room m f)
  in_room-Keeps m f h k s q = by_result (m s.room) (h s.room q)
    where
      by_result :
          (r : Result HttpError _ × RoomServer) → P r.1.files → P (after_step s f r).1.room.files
      by_result (err e, t) there = there
      by_result (ok a, t) there = k a (record s { room = t }) there

  pub with_read-Keeps {ℓ μ} :
      {A : Type ℓ} {B : Type μ} (r : Result HttpError A) (f : A → ForumHandler B)
      → ((a : A) → KeepsAll (f a))
      → KeepsAll (with_read r f)
  with_read-Keeps (err e) f k s h = h
  with_read-Keeps (ok a) f k s h = k a s h

module _ {κ} (P : RoomFiles → Type κ) (now : ℕ) (p : Participant) (laws : Laws P now p) where
  post_forum_post-Keeps :
      (api : ServerApi) (fresh : Text) (body : PostBody)
      → KeepsAll P (post_forum_post api now fresh p body)
  unfolding post_forum_post
  post_forum_post-Keeps api fresh body =
      in_room-Keeps P (require_room_open now)
        (λ _.
          with_read (read_post_body p.alias body)
            (λ read. stored_forum api.lower (create_forum_post api.lower read.0 fresh read.1 now)))
        (require_room_open-Keeps P now p laws)
        (λ _.
          with_read-Keeps P (read_post_body p.alias body)
            (λ read. stored_forum api.lower (create_forum_post api.lower read.0 fresh read.1 now))
            (λ read t k. k))

  post_forum_comment-Keeps :
      (api : ServerApi) (body : CommentBody) → KeepsAll P (post_forum_comment api now p body)
  unfolding post_forum_comment
  post_forum_comment-Keeps api body =
      in_room-Keeps P (require_room_open now)
        (λ _. with_read (comment_input body.channel body.post body.body) (λ c.
          stored_forum api.lower (add_forum_comment api.lower c.channel c.post p.alias c.body now)))
        (require_room_open-Keeps P now p laws)
        (λ _.
          with_read-Keeps P (comment_input body.channel body.post body.body)
            (λ c.
              stored_forum api.lower
                (add_forum_comment api.lower c.channel c.post p.alias c.body now))
            (λ c t k. k))

  handle_forum-Keeps : (api : ServerApi) (r : ForumRequest) → KeepsAll P (handle_forum api now p r)
  handle_forum-Keeps api (lists_posts channel) s h = unfold handle_forum get_forum_posts in h
  handle_forum-Keeps api (reads_post channel post) s h = unfold handle_forum get_forum_post in h
  handle_forum-Keeps api (posts fresh body) s h =
      unfold handle_forum in post_forum_post-Keeps api fresh body s h
  handle_forum-Keeps api (comments body) s h =
      unfold handle_forum in post_forum_comment-Keeps api body s h

  pub handle-Keeps : (api : ServerApi) (r : Request) → KeepsAll P (handle api now p r)
  unfolding handle
  handle-Keeps api (of_room r) s h =
      in_room-Keeps P (handle_room api now p r) (λ a t. (ok (room_answer a), t))
        (handle_room-Keeps P now p laws api r) (λ a t k. k) s h
  handle-Keeps api (of_forum r) s h = handle_forum-Keeps api r s h
  handle-Keeps api gets_card s h = h
  handle-Keeps api gets_status s h = h
  handle-Keeps api gets_boardroom s h = h
