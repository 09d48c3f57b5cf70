-- ===== src/Storage/ForumStore.antt =====
-- src/storage/forum-store.ts: the posts and comments of the forum channels. `post.json` and
-- `comments.jsonl` of a post stand for the values that they encode; a post's directory lists them. The
-- random part of a new id is the argument `fresh`, and `toLowerCase` the argument `lower`.
pub mod Comments
pub mod Posts
use telegent.Base.{
  Text, codes, text_eq, text_eq→eq, text_eq_refl, text_eq_iff, text_eq_ne, ltb, leb, ◌==◌,
  if◌then◌else◌, ==_iff, Bool-cases, Option-cases, is_some, or_else, Result, ok, err, ◌>>=◌, ◌>>◌,
  guard, occurs, occurs-append, length, length-append, filter, find, any, all, All, All-append,
  All-map, All-filter, includes, ℕ, zero, suc, ◌+◌, ◌-◌, ◌*◌, ◌/◌, ◌%◌, ◌^◌, ◌≤◌, ◌<◌, max, min,
  ◌≡◌, refl, sym, ap, subst, ◌∙◌, ◌≢◌, ◌↔◌, ◌⊎◌, inl, inr, Bool, true, false, not, ◌&&◌, ◌||◌,
  Option, none, some, List, [], ◌∷◌, ◌++◌, map, arith,
}
use telegent.Base.Maps.{Map, lookup, lookup_in, insert}
use telegent.Base.Decimal.{decimal}
use telegent.Protocol.Boardroom.{Channel, forum, chat}
use telegent.Protocol.Forum.{
  ForumPost, ForumComment, ForumPostStatus, ForumError, forum_schema_version, normalize_forum_tags,
  assert_forum_title, assert_forum_body, assert_valid_forum_post, assert_valid_forum_comment,
  parse_forum_status,
}
use telegent.Protocol.Validation.{is_safe_slug}
use telegent.Storage.BoardroomStore.{BoardroomFiles, read_boardroom}

pub record CreateForumPostInput : Type 0 where
  pub author : Text
  pub title : Text
  pub body : Text
  pub id : Option Text
  pub status : Option Text
  pub tags : Option (List Text)

pub record ForumPostThread : Type 0 where
  pub post : ForumPost
  pub comments : List ForumComment

-- The posts by channel and id.
pub record ForumFiles : Type 0 where
  pub board : BoardroomFiles
  pub threads : Map (Map ForumPostThread)

pub data ForumStoreError : Type 0 where
  unsafe_slug channel_not_found not_a_forum post_exists post_not_found : ForumStoreError
  invalid : ForumError → ForumStoreError

abbrev pub Stored {ℓ} : Type ℓ → Type ℓ
Stored A = Result ForumStoreError A × ForumFiles

abbrev pub valid {ℓ} : {A : Type ℓ} → Result ForumError A → Result ForumStoreError A
valid (ok a) = ok a
valid (err e) = err (invalid e)

abbrev pub check_slug : Text → Result ForumStoreError (Unit {0})
check_slug s = guard (is_safe_slug s) unsafe_slug

-- An operation on what its checks have read.
abbrev pub with_checked {ℓ κ} :
    {A : Type ℓ} {B : Type κ} → Result ForumStoreError A → ForumFiles → (A → Stored B) → Stored B
with_checked (err e) f op = (err e, f)
with_checked (ok a) f op = op a

abbrev pub forum_channel : Option Channel → Result ForumStoreError (Unit {0})
forum_channel none = err channel_not_found
forum_channel (some c) = elim c.type [ forum ↦ ok tt | chat ↦ err not_a_forum ]

unfoldable pub assert_forum_channel : Text → ForumFiles → Result ForumStoreError (Unit {0})
unfolding read_boardroom
assert_forum_channel channel_id f =
    forum_channel (find (λ c. text_eq c.id channel_id) (read_boardroom f.board).channels)

abbrev pub threads_of : Text → ForumFiles → Map ForumPostThread
threads_of channel_id f = or_else (lookup channel_id f.threads) []

abbrev pub thread_at : Text → Text → ForumFiles → Option ForumPostThread
thread_at channel_id post_id f = lookup_in channel_id post_id f.threads

unfoldable pub put_thread : Text → Text → ForumPostThread → ForumFiles → ForumFiles
put_thread channel_id post_id t f = record f {
  threads = insert channel_id (insert post_id t (threads_of channel_id f)) f.threads;
}

-- `writeJsonNew`: the write fails if the post's file exists.
unfoldable pub write_new :
    Text → Text → ForumPost → ForumFiles → Option ForumPostThread → Stored ForumPost
unfolding put_thread
write_new channel_id id post f (some t) = (err post_exists, f)
write_new channel_id id post f none =
    (ok post, put_thread channel_id id (record { post = post; comments = [] }) f)

abbrev pub new_post : Text → Text → CreateForumPostInput → List Text → ℕ → ForumPost
new_post channel_id id input tags now = record {
  schema_version = forum_schema_version;
  id = id;
  channel_id = channel_id;
  author = input.author;
  title = input.title;
  body = input.body;
  status = or_else input.status (codes "open");
  tags = tags;
  created_at = now;
  updated_at = now;
}

-- The checks of a new post, up to the lock.
unfoldable pub checked_post :
    (Text → Text)
    → Text
    → Text
    → CreateForumPostInput
    → ℕ
    → ForumFiles
    → Result ForumStoreError ForumPost
unfolding assert_forum_channel
checked_post lower channel_id fresh input now f =
    let id = or_else input.id (codes "post-" ++ fresh) in
    check_slug channel_id
    >> check_slug input.author
    >> valid (assert_forum_title input.title)
    >> valid (assert_forum_body input.body)
    >> assert_forum_channel channel_id f
    >> check_slug id
    >> valid (normalize_forum_tags lower (or_else input.tags []))
    >>= λ tags.
        valid (assert_valid_forum_post lower (new_post channel_id id input tags now))
        >> ok (new_post channel_id id input tags now)

unfoldable pub create_forum_post :
    (Text → Text) → Text → Text → CreateForumPostInput → ℕ → ForumFiles → Stored ForumPost
unfolding checked_post write_new
create_forum_post lower channel_id fresh input now f =
    with_checked (checked_post lower channel_id fresh input now f) f
      λ post. write_new channel_id post.id post f (thread_at channel_id post.id f)

abbrev pub found : Option ForumPostThread → Result ForumStoreError ForumPostThread
found none = err post_not_found
found (some t) = ok t

-- The log of comments is read with its check on each line.
abbrev pub check_comments : List ForumComment → Result ForumError (Unit {0})
check_comments [] = ok tt
check_comments (c ∷ cs) = assert_valid_forum_comment c >> check_comments cs

unfoldable pub read_forum_post :
    (Text → Text) → Text → Text → ForumFiles → Result ForumStoreError ForumPostThread
unfolding assert_forum_channel
read_forum_post lower channel_id post_id f =
    check_slug channel_id
    >> check_slug post_id
    >> assert_forum_channel channel_id f
    >> found (thread_at channel_id post_id f)
    >>= λ t.
        valid (assert_valid_forum_post lower t.post) >> valid (check_comments t.comments) >> ok t

abbrev pub check_posts : (Text → Text) → List ForumPost → Result ForumError (List ForumPost)
check_posts lower [] = ok []
check_posts lower (p ∷ ps) =
    assert_valid_forum_post lower p >> check_posts lower ps >>= λ rest. ok (p ∷ rest)

-- `posts.sort(…)` by `created_at`, a stable sort.
unfoldable pub sort_post : ForumPost → List ForumPost → List ForumPost
sort_post p [] = p ∷ []
sort_post p (q ∷ qs) = if leb p.created_at q.created_at then p ∷ q ∷ qs else q ∷ sort_post p qs

unfoldable pub sort_posts : List ForumPost → List ForumPost
unfolding sort_post
sort_posts [] = []
sort_posts (p ∷ ps) = sort_post p (sort_posts ps)

unfoldable pub list_forum_posts :
    (Text → Text) → Text → ForumFiles → Result ForumStoreError (List ForumPost)
unfolding assert_forum_channel sort_posts
list_forum_posts lower channel_id f =
    check_slug channel_id
    >> assert_forum_channel channel_id f
    >> valid (check_posts lower (map (λ e. e.1.post) (threads_of channel_id f)))
    >>= λ posts. ok (sort_posts posts)

abbrev pub new_comment : Text → Text → Text → Text → ℕ → ℕ → ForumComment
new_comment channel_id post_id author body now existing = record {
  schema_version = forum_schema_version;
  id = codes "c" ++ decimal (existing + 1);
  post_id = post_id;
  channel_id = channel_id;
  author = author;
  body = body;
  created_at = now;
}

-- What the lock is held for.
abbrev pub checked_comment :
    (Text → Text) → ForumComment → ForumPostThread → Result ForumError ForumComment
checked_comment lower comment t =
    assert_valid_forum_post lower t.post
    >> check_comments t.comments
    >> assert_valid_forum_comment comment
    >> ok comment

unfoldable pub append_comment :
    Text → Text → ForumPostThread → ForumComment → ForumFiles → Stored ForumComment
unfolding put_thread
append_comment channel_id post_id t comment f = (
  ok comment,
  put_thread channel_id post_id (record t { comments = t.comments ++ comment ∷ [] }) f,
)

unfoldable pub add_forum_comment :
    (Text → Text) → Text → Text → Text → Text → ℕ → ForumFiles → Stored ForumComment
unfolding assert_forum_channel append_comment
add_forum_comment lower channel_id post_id author body now f =
    with_checked
      (check_slug channel_id
        >> check_slug post_id
        >> check_slug author
        >> valid (assert_forum_body body)
        >> assert_forum_channel channel_id f
        >> found (thread_at channel_id post_id f))
      f
      λ t.
        with_checked
          (valid (
            checked_comment lower
              (new_comment channel_id post_id author body now (length t.comments)) t))
          f λ comment. append_comment channel_id post_id t comment f

-- What the lock is held for, on the thread that stands there.
unfoldable pub set_status :
    (Text → Text) → Text → Text → Text → ℕ → ForumFiles → ForumPostThread → Stored ForumPost
unfolding put_thread
set_status lower channel_id post_id status now f t =
    let updated = record t.post { status = status; updated_at = now } in
    with_checked
      (valid (assert_valid_forum_post lower t.post >> assert_valid_forum_post lower updated)) f
      λ _. (ok updated, put_thread channel_id post_id (record t { post = updated }) f)

unfoldable pub set_forum_post_status :
    (Text → Text) → Text → Text → Text → ℕ → ForumFiles → Stored ForumPost
unfolding set_status
set_forum_post_status lower channel_id post_id status now f =
    with_checked
      (check_slug channel_id
        >> check_slug post_id
        >> (valid (parse_forum_status status) >>= λ _. ok tt)
        >> found (thread_at channel_id post_id f))
      f λ t. set_status lower channel_id post_id status now f t
