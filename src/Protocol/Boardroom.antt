-- ===== src/Protocol/Boardroom.antt =====
-- src/protocol/boardroom.ts: channels, read positions and the ownership of names. `toLowerCase` of the
-- language is the argument `lower`.
pub mod Unread
use telegent.Base.{
  Text, codes, text_eq, text_eq→eq, text_eq_refl, text_eq_iff, text_eq_ne, ltb, leb, ◌==◌,
  if◌then◌else◌, ==_iff, Bool-cases, Option-cases, is_some, or_else, Result, ok, err, ◌>>=◌, ◌>>◌,
  guard, occurs, occurs-append, length, length-append, filter, find, any, all, All, All-append,
  All-map, All-filter, includes, ℕ, zero, suc, ◌+◌, ◌-◌, ◌*◌, ◌/◌, ◌%◌, ◌^◌, ◌≤◌, ◌<◌, max, min,
  ◌≡◌, refl, sym, ap, subst, ◌∙◌, ◌≢◌, ◌↔◌, ◌⊎◌, inl, inr, Bool, true, false, not, ◌&&◌, ◌||◌,
  Option, none, some, List, [], ◌∷◌, ◌++◌, map, arith,
}
use telegent.Protocol.Types.{ParticipantKind, Participant, Message, MessageType}
use telegent.Protocol.Validation.{is_safe_slug}

pub data ChannelType : Type 0 where
  chat forum : ChannelType

pub data ChannelLifecycle : Type 0 where
  active idle inactive removed : ChannelLifecycle

pub data ParticipantRole : Type 0 where
  human_role agent_role : ParticipantRole

pub record Channel : Type 0 where
  pub id : Text
  pub name : Text
  pub type : ChannelType
  pub lifecycle : ChannelLifecycle
  pub created_at : ℕ

pub record Boardroom : Type 0 where
  pub id : Text
  pub name : Option Text
  pub channels : List Channel
  pub lifecycle : ChannelLifecycle
  pub created_at : ℕ
  pub updated_at : ℕ
  pub legacy : Bool

pub record ParticipantIdentity : Type 0 where
  pub participant_id : Text
  pub display_name : Text
  pub role : ParticipantRole
  pub is_host : Bool
  pub reconnectable : Bool
  pub name_owner_hash : Option Text

pub data BoardroomError : Type 0 where
  unsafe_slug unknown_channel_type no_channel duplicate_channel : BoardroomError

pub record UnreadSummary : Type 0 where
  pub unread : ℕ
  pub latest_id : ℕ

unfoldable pub is_broadcast : Message → Bool
is_broadcast m = elim m.type [ MessageType.status ↦ true | _ ↦ false ]

-- One turn of the loop of `summarizeUnread`.
abbrev pub count_unread : ℕ → UnreadSummary → ℕ → UnreadSummary
count_unread last_read s id = record {
  unread = if ltb last_read id then s.unread + 1 else s.unread;
  latest_id = if ltb s.latest_id id then id else s.latest_id;
}

unfoldable pub unread_from : ℕ → UnreadSummary → List ℕ → UnreadSummary
unread_from last_read s [] = s
unread_from last_read s (id ∷ ids) = unread_from last_read (count_unread last_read s id) ids

-- Of a message only the id is read.
unfoldable pub summarize_unread : List ℕ → ℕ → UnreadSummary
unfolding unread_from
summarize_unread ids last_read =
    unread_from last_read (record { unread = 0; latest_id = last_read }) ids

unfoldable pub role_from_kind : ParticipantKind → ParticipantRole
role_from_kind ParticipantKind.human = human_role
role_from_kind _ = agent_role

unfoldable pub participant_identity : Participant → Result BoardroomError ParticipantIdentity
participant_identity p =
    guard (is_safe_slug p.alias) unsafe_slug
    >> ok (record {
      participant_id = p.alias;
      display_name = or_else p.display_name p.alias;
      role = role_from_kind p.kind;
      is_host = p.is_host;
      reconnectable = is_some p.token_hash;
      name_owner_hash = p.token_hash;
    })

abbrev pub default_channel_id : Text
default_channel_id = codes "general"

abbrev pub default_channel : ℕ → Channel
default_channel created_at = record {
  id = default_channel_id;
  name = codes "general";
  type = chat;
  lifecycle = active;
  created_at = created_at;
}

unfoldable pub derive_default_boardroom : Text → ℕ → ℕ → Option Text → Boardroom
derive_default_boardroom id created_at updated_at name = record {
  id = id;
  name = name;
  channels = default_channel created_at ∷ [];
  lifecycle = active;
  created_at = created_at;
  updated_at = updated_at;
  legacy = true;
}

unfoldable pub parse_channel_type : Text → Result BoardroomError ChannelType
parse_channel_type s =
    if text_eq s (codes "chat")
    then ok chat
    else if text_eq s (codes "forum")
    then ok forum
    else err unknown_channel_type

-- The claimant of a name: its alias, and the hash of its token if it has one.
pub record Claimant : Type 0 where
  pub alias : Text
  pub token_hash : Option Text

abbrev pub shown_name : Participant → Text
shown_name p = or_else p.display_name p.alias

abbrev pub owns_name : (Text → Text) → Text → Claimant → Participant → Bool
owns_name lower display_name claimant p =
    not (text_eq p.alias claimant.alias) && text_eq (lower (shown_name p)) (lower display_name)

abbrev pub same_token : Option Text → Option Text → Bool
same_token (some a) (some b) = text_eq a b
same_token _ _ = false

-- The alias of the owner that blocks the claim.
unfoldable pub find_name_owner_conflict :
    (Text → Text) → List Participant → Text → Claimant → Option Text
find_name_owner_conflict lower participants display_name claimant =
    elim (find (λ p. owns_name lower display_name claimant p) participants) [
      | none ↦ none
      | some owner ↦
          if same_token owner.token_hash claimant.token_hash then none else some owner.alias
    ]

-- The types of a channel's kind and lifecycle leave it one test.
unfoldable pub assert_valid_channel : Channel → Result BoardroomError (Unit {0})
assert_valid_channel c = guard (is_safe_slug c.id) unsafe_slug

unfoldable pub check_channels : List Text → List Channel → Result BoardroomError (Unit {0})
unfolding assert_valid_channel
check_channels seen [] = ok tt
check_channels seen (c ∷ cs) =
    let rest = check_channels (c.id ∷ seen) cs in
    assert_valid_channel c >> guard (not (includes seen c.id)) duplicate_channel >> rest

abbrev pub some_channel : List Channel → Bool
some_channel [] = false
some_channel (c ∷ cs) = true

unfoldable pub assert_valid_boardroom : Boardroom → Result BoardroomError (Unit {0})
unfolding check_channels
assert_valid_boardroom b =
    guard (is_safe_slug b.id) unsafe_slug
    >> guard (some_channel b.channels) no_channel
    >> check_channels [] b.channels
