-- ===== src/Tests/Stores.antt =====
-- The theorems on boardrooms, forums and the writer lock at concrete files.
use telegent.Base.{
  Text, codes, text_eq, ok, length, ℕ, ◌≤◌, ◌≡◌, refl, sym, ap, ◌∙◌, true, false, none, some, List,
  [], ◌∷◌, ◌++◌,
}
use telegent.Base.Decimal.{decimal, digits}
use telegent.Base.Maps.{lookup, insert}
use telegent.Protocol.Boardroom.{Channel, default_channel, forum, idle}
use telegent.Protocol.Forum.{
  ForumPost, ForumComment, assert_forum_title, assert_forum_body, normalize_forum_tags,
  collect_tags, assert_valid_forum_post, assert_schema_version, parse_forum_status,
  assert_valid_forum_comment,
}
use telegent.Protocol.Validation.{is_safe_slug, is_space}
use telegent.Storage.RoomStore.{new_room}
use telegent.Storage.BoardroomStore.{
  BoardroomFiles, read_boardroom, write_channel_cursor, read_channel_cursor,
}
use telegent.Storage.BoardroomStore.Channels.{creates, adds, change_all, Whole, change_all-Whole}
use telegent.Storage.BoardroomStore.Cursors.{read-write_channel_cursor}
use telegent.Storage.ForumStore.{
  ForumFiles, ForumPostThread, CreateForumPostInput, create_forum_post, checked_post, write_new,
  put_thread, read_forum_post, assert_forum_channel, add_forum_comment, append_comment,
}
use telegent.Storage.ForumStore.Posts.{read-create_forum_post}
use telegent.Storage.ForumStore.Comments
use telegent.Storage.ForumStore.Comments.{change_all-numbers}
use telegent.Storage.Lock.{
  Writer, LockFile, LockState, Reach, opens, judges, removes, default_options, opened,
  stale_removed, is_stale,
}
use telegent.Storage.Lock.Takeover.{
  start, after, InTime, takeover_at_once-exclusive, takeover-shared,
}

abbrev den : Text
den = codes "den"

abbrev bot : Text
bot = codes "bot"

abbrev board : BoardroomFiles
board = record {
  room = new_room 1000 den bot none (codes "brief") none;
  boardroom = none;
  channel_cursors = [];
}

abbrev review : Channel
review = record {
  id = codes "review";
  name = codes "Review";
  type = forum;
  lifecycle = idle;
  created_at = 2000;
}

change_all-Whole_example :
    Whole
      (read_boardroom (
        change_all den
          (adds review 2000 ∷ adds review 2100 ∷ creates none none 2200 ∷ [])
          board)).channels
unfolding is_safe_slug
change_all-Whole_example =
    change_all-Whole den (adds review 2000 ∷ adds review 2100 ∷ creates none none 2200 ∷ []) board
      refl refl

read-write_channel_cursor_example :
    read_channel_cursor den bot (write_channel_cursor den bot 7 3000 board).1 ≡ ok 7
unfolding write_channel_cursor is_safe_slug text_eq
read-write_channel_cursor_example =
    read-write_channel_cursor den bot den bot 7 3000 board
      (record { participant_id = bot; channel_id = den; since_id = 7; updated_at = 3000 }) refl

-- A room with the forum channel `review`.
abbrev files : ForumFiles
files = record {
  board = record board {
    boardroom = some (record {
      id = den;
      name = none;
      channels = default_channel 1000 ∷ review ∷ [];
      lifecycle = idle;
      created_at = 1000;
      updated_at = 2000;
      legacy = false;
    });
  };
  threads = [];
}

abbrev same : Text → Text
same s = s

abbrev input : CreateForumPostInput
input = record {
  author = bot;
  title = codes "T";
  body = codes "B";
  id = some (codes "p");
  status = none;
  tags = none;
}

abbrev post : ForumPost
post = record {
  schema_version = 1;
  id = codes "p";
  channel_id = codes "review";
  author = bot;
  title = codes "T";
  body = codes "B";
  status = codes "open";
  tags = [];
  created_at = 3000;
  updated_at = 3000;
}

read-create_forum_post_example :
    read_forum_post same
      (codes "review")
      (codes "p")
      (create_forum_post same (codes "review") [] input 3000 files).1
    ≡ ok (record { post = post; comments = [] })
unfolding create_forum_post checked_post write_new assert_forum_channel read_boardroom is_safe_slug
    is_space assert_forum_title assert_forum_body normalize_forum_tags collect_tags
    assert_valid_forum_post assert_schema_version parse_forum_status text_eq lookup
read-create_forum_post_example =
    read-create_forum_post same (codes "review") [] input 3000 files post refl

abbrev changes : List Comments.Change
changes =
    Comments.Change.creates (codes "review") [] input 3000
    ∷ Comments.Change.comments (codes "review") (codes "p") bot (codes "x") 3100
    ∷ Comments.Change.comments (codes "review") (codes "p") bot (codes "y") 3200
    ∷ []

abbrev comment : Text → Text → ℕ → ForumComment
comment id body now = record {
  schema_version = 1;
  id = id;
  post_id = codes "p";
  channel_id = codes "review";
  author = bot;
  body = body;
  created_at = now;
}

abbrev thread : ForumPostThread
thread = record {
  post = post;
  comments = comment (codes "c1") (codes "x") 3100 ∷ comment (codes "c2") (codes "y") 3200 ∷ [];
}

change_all-numbers_example :
    (codes "c2" ≡ codes "c" ++ decimal 2) × (codes "c2" ≡ codes "c1" → ◌≡◌ {A = ℕ} 1 0)
unfolding Comments.change_all create_forum_post checked_post write_new assert_forum_channel
    read_boardroom is_safe_slug is_space assert_forum_title assert_forum_body normalize_forum_tags
    collect_tags assert_valid_forum_post assert_schema_version parse_forum_status text_eq lookup
    insert put_thread add_forum_comment append_comment assert_valid_forum_comment decimal digits
change_all-numbers_example =
    change_all-numbers same changes files (codes "review") (codes "p") thread 1 0
      (comment (codes "c2") (codes "y") 3200) (comment (codes "c1") (codes "x") 3100) refl refl refl
      refl

abbrev writer : ℕ → Writer
writer n = record { name = n; pid = n; started_at = 1000 }

abbrev free : LockState
free = record { file = none; holders = []; judged = []; dead = 9 ∷ []; now = 1000 }

-- The lock of a process that has died.
abbrev left : LockFile
left = record { owner = writer 9; written = true; modified_at = 500 }

abbrev stale : LockState
stale = record free { file = some left }

abbrev judged : LockState
judged = record stale { judged = writer 1 ∷ [] }

abbrev taken : LockState
taken = opened (writer 1) (stale_removed (writer 1) judged)

InTime-written :
    (f : LockFile) (s : LockState) → s.file ≡ some f → f.written ≡ true → InTime default_options s
InTime-written f s there written g there' unwritten alive =
    let same : f ≡ g = let e : _ = sym there ∙ there' in cc in
    let both : true ≡ false = sym written ∙ (ap (λ (k : LockFile). k.written) same ∙ unwritten) in
    cc

InTime-none : (s : LockState) → s.file ≡ none → InTime default_options s
InTime-none s free_path f there unwritten alive = let e : _ = sym free_path ∙ there in cc

-- A writer takes over the lock of the process that has died.
takeover_at_once-exclusive_example : (length taken.holders ≤ 1) × Reach default_options stale taken
unfolding is_stale opened stale_removed
takeover_at_once-exclusive_example = takeover_at_once-exclusive default_options stale taken refl (
    after
      (after
        (after start (InTime-written left stale refl refl)
          (judges (writer 1) left stale refl refl refl) refl)
        (InTime-written left judged refl refl) (removes (writer 1) judged refl) tt)
      (InTime-none (stale_removed (writer 1) judged) refl)
      (opens (writer 1) (stale_removed (writer 1) judged) refl refl) refl)

takeover-shared_example :
    (t : LockState) × Reach default_options (record free { file = some left }) t
    × (t.holders ≡ writer 1 ∷ writer 2 ∷ [])
    × (t.dead ≡ 9 ∷ [])
unfolding is_stale
takeover-shared_example =
    takeover-shared default_options (writer 1) (writer 2) left (record free { file = some left })
      refl refl (refl, refl) (refl, refl) refl
