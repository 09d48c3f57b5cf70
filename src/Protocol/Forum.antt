-- ===== src/Protocol/Forum.antt =====
-- src/protocol/forum.ts: the shapes of posts and comments, and the tests that they pass. `toLowerCase`
-- of the language is the argument `lower`.
pub mod Tags
use telegent.Base.{
  Text, codes, text_eq, text_eq→eq, text_eq_refl, text_eq_iff, text_eq_ne, ltb, leb, ◌==◌,
  if◌then◌else◌, ==_iff, Bool-cases, Option-cases, is_some, or_else, Result, ok, err, ◌>>=◌, ◌>>◌,
  guard, occurs, occurs-append, length, length-append, filter, find, any, all, All, All-append,
  All-map, All-filter, includes, ℕ, zero, suc, ◌+◌, ◌-◌, ◌*◌, ◌/◌, ◌%◌, ◌^◌, ◌≤◌, ◌<◌, max, min,
  ◌≡◌, refl, sym, ap, subst, ◌∙◌, ◌≢◌, ◌↔◌, ◌⊎◌, inl, inr, Bool, true, false, not, ◌&&◌, ◌||◌,
  Option, none, some, List, [], ◌∷◌, ◌++◌, map, arith,
}
use telegent.Protocol.Validation.{is_safe_slug, is_space, trim}

abbrev pub forum_schema_version : ℕ
forum_schema_version = 1

abbrev pub max_forum_tags : ℕ
max_forum_tags = 12

abbrev pub max_forum_title_length : ℕ
max_forum_title_length = 200

abbrev pub max_forum_body_length : ℕ
max_forum_body_length = 16000

pub data ForumPostStatus : Type 0 where
  open_post answered resolved closed_post : ForumPostStatus

pub record ForumPost : Type 0 where
  pub schema_version : ℕ
  pub id : Text
  pub channel_id : Text
  pub author : Text
  pub title : Text
  pub body : Text
  pub status : Text
  pub tags : List Text
  pub created_at : ℕ
  pub updated_at : ℕ

pub record ForumComment : Type 0 where
  pub schema_version : ℕ
  pub id : Text
  pub post_id : Text
  pub channel_id : Text
  pub author : Text
  pub body : Text
  pub created_at : ℕ

pub data ForumError : Type 0 where
  unknown_status too_many_tags title_required title_too_long body_too_long : ForumError
  body_required unknown_version unsafe_slug : ForumError
  -- The message names the tag as it was given.
  invalid_tag : Text → ForumError

unfoldable pub parse_forum_status : Text → Result ForumError ForumPostStatus
parse_forum_status s =
    if text_eq s (codes "open")
    then ok open_post
    else if text_eq s (codes "answered")
    then ok answered
    else if text_eq s (codes "resolved")
    then ok resolved
    else if text_eq s (codes "closed")
    then ok closed_post
    else err unknown_status

abbrev pub is_empty : Text → Bool
is_empty s = leb (length s) 0

-- The loop of `normalizeForumTags`, with the tags that it has pushed.
unfoldable pub collect_tags : (Text → Text) → List Text → List Text → Result ForumError (List Text)
collect_tags lower out [] = ok out
collect_tags lower out (raw ∷ tags) =
    let tag = lower (trim raw) in
    let kept = collect_tags lower out tags in
    let pushed = collect_tags lower (out ++ tag ∷ []) tags in
    if is_empty tag || includes out tag
    then kept
    else if not (is_safe_slug tag)
    then err (invalid_tag raw)
    else pushed

abbrev pub cap_tags : List Text → Result ForumError (List Text)
cap_tags out = if not (leb (length out) max_forum_tags) then err too_many_tags else ok out

unfoldable pub normalize_forum_tags : (Text → Text) → List Text → Result ForumError (List Text)
unfolding collect_tags
normalize_forum_tags lower tags = collect_tags lower [] tags >>= λ out. cap_tags out

unfoldable pub assert_forum_title : Text → Result ForumError (Unit {0})
assert_forum_title title =
    guard (not (all is_space title)) title_required
    >> guard (leb (length title) max_forum_title_length) title_too_long

unfoldable pub assert_forum_body : Text → Result ForumError (Unit {0})
assert_forum_body body = guard (leb (length body) max_forum_body_length) body_too_long

unfoldable pub assert_schema_version : ℕ → Result ForumError (Unit {0})
assert_schema_version version = guard (version == forum_schema_version) unknown_version

abbrev pub assert_safe_slug : Text → Result ForumError (Unit {0})
assert_safe_slug s = guard (is_safe_slug s) unsafe_slug

unfoldable pub assert_valid_forum_post : (Text → Text) → ForumPost → Result ForumError (Unit {0})
assert_valid_forum_post lower post =
    assert_schema_version post.schema_version
    >> assert_safe_slug post.id
    >> assert_safe_slug post.channel_id
    >> assert_safe_slug post.author
    >> assert_forum_title post.title
    >> assert_forum_body post.body
    >> (parse_forum_status post.status >>= λ s. ok tt)
    >> (normalize_forum_tags lower post.tags >>= λ tags. ok tt)

unfoldable pub assert_valid_forum_comment : ForumComment → Result ForumError (Unit {0})
assert_valid_forum_comment comment =
    assert_schema_version comment.schema_version
    >> assert_safe_slug comment.id
    >> assert_safe_slug comment.post_id
    >> assert_safe_slug comment.channel_id
    >> assert_safe_slug comment.author
    >> guard (not (all is_space comment.body)) body_required
    >> assert_forum_body comment.body
