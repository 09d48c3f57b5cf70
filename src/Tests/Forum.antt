-- ===== src/Tests/Forum.antt =====
-- The theorems on boardrooms and posts at concrete channels and tags.
use telegent.Base.{
  Text, codes, text_eq, leb, if◌then◌else◌, ℕ, ◌+◌, ◌≤◌, ◌≡◌, refl, false, ◌&&◌, none, List, [],
  ◌∷◌, map,
}
use telegent.Protocol.Validation.{is_safe_slug, is_space}
use telegent.Protocol.Boardroom.{Boardroom, Channel, summarize_unread, default_channel, forum, idle}
use telegent.Protocol.Boardroom.Unread.{summarize_unread-All}
use telegent.Protocol.Forum.{normalize_forum_tags}
use telegent.Protocol.Forum.Tags.{IsTags, normalize_forum_tags-IsTags}

abbrev ids : List ℕ
ids = 1 ∷ 2 ∷ 3 ∷ 5 ∷ []

summarize_unread-All_example :
    ((summarize_unread ids 2).unread ≡ 2) × (2 ≤ (summarize_unread ids 2).latest_id)
summarize_unread-All_example = ((summarize_unread-All ids 2).0, (summarize_unread-All ids 2).1)

abbrev review : Channel
review = record {
  id = codes "review";
  name = codes "Review";
  type = forum;
  lifecycle = idle;
  created_at = 2000;
}

abbrev boardroom : Boardroom
boardroom = record {
  id = codes "den";
  name = none;
  channels = default_channel 1000 ∷ review ∷ [];
  lifecycle = idle;
  created_at = 1000;
  updated_at = 2000;
  legacy = false;
}

-- `toLowerCase` on ASCII.
abbrev ascii_lower : Text → Text
ascii_lower s = map (λ c. if leb b'A' c && leb c b'Z' then c + 32 else c) s

abbrev tags : List Text
tags = codes " UI" ∷ codes "ui" ∷ codes "" ∷ codes "bug " ∷ []

normalize_forum_tags-IsTags_example : IsTags (codes "ui" ∷ codes "bug" ∷ []) × (2 ≤ 12)
unfolding normalize_forum_tags is_safe_slug is_space text_eq
normalize_forum_tags-IsTags_example =
    normalize_forum_tags-IsTags ascii_lower tags (codes "ui" ∷ codes "bug" ∷ []) refl
