-- ===== src/Server/Requests/Authority.antt =====
-- What a request may change, by who sends it.
use telegent.Base.{
  Text, leb, Bool-cases, is_some, err, ℕ, ◌≡◌, refl, sym, ap, ◌∙◌, inl, inr, Bool, true, false, not,
  ◌&&◌, Option, none, some, arith,
}
use telegent.Protocol.Types.{Participant, AttendancePolicy, RoomStatus, open_room, closed_room}
use telegent.Storage.RoomStore.{RoomFiles, upsert_participant, append_line, count_message}
use telegent.Storage.RoomStore.Appends.{
  append_message_result-files, append_server_message-files, checked-files,
}
use telegent.Server.Errors.{http_error, unauthorized, forbidden}
use telegent.Server.Room.{ServerApi, require_participant, find_participant, has_expired}
use telegent.Server.Forum.{ForumServer}
use telegent.Server.Requests.{Request, serve, allows_removed}
use telegent.Server.Requests.Keeps.{Laws}
use telegent.Server.Requests.Endpoints.{handle-Keeps}

-- What only a host may change: the brief, the attendance policy, and whether the room is open.
pub record Settings : Type 0 where
  pub brief : Text
  pub brief_version : ℕ
  pub attendance_policy : AttendancePolicy
  pub status : RoomStatus
  pub expires_at : Option ℕ

abbrev pub settings : RoomFiles → Settings
settings f = record {
  brief = f.brief;
  brief_version = f.state.brief_version;
  attendance_policy = f.state.attendance_policy;
  status = f.state.status;
  expires_at = f.state.expires_at;
}

-- The room's own time limit, of the settings.
abbrev pub is_over : ℕ → Settings → Bool
is_over now v = elim v.status [
  | closed_room ↦ false
  | open_room ↦ elim v.expires_at [ none ↦ false | some t ↦ leb t now ]
]

module _ (now : ℕ) (p : Participant) (v : Settings) where
  abbrev IsSettled : RoomFiles → Type 0
  IsSettled f = settings f ≡ v

  Laws-IsSettled : is_over now v ≡ false → p.is_host ≡ false → Laws IsSettled now p
  Laws-IsSettled running guest = record {
    appends = λ room from text f h.
        append_server_message-files IsSettled now from none f room text h
          (λ m _ _. unfold count_message append_line in h);
    sends = λ room from raw limit f h.
        append_message_result-files IsSettled now from limit f room raw h
          (λ m _ _. unfold count_message append_line in h);
    upserts = λ q f h. unfold upsert_participant in checked-files IsSettled _ f _ h h;
    expires = λ f h over. let both : true ≡ false = sym over ∙ (ap (is_over now) h ∙ running) in cc;
    hosts_close = λ host. absurd (ground (arith, host, guest));
    hosts_brief = λ host. absurd (ground (arith, host, guest));
    hosts_policy = λ host. absurd (ground (arith, host, guest));
  }

-- A request whose token is not a host's, to the room, to the forum or for the card, the status and the
-- boardroom, changes neither the brief, nor the attendance policy, nor the expiry or the status of a
-- room whose time is not over.
pub settings-serve :
    (api : ServerApi) (now : ℕ) (token : Text) (r : Request) (s : ForumServer) (p : Participant)
    → find_participant api token s.room.files ≡ some p
    → p.is_host ≡ false
    → has_expired now s.room.files.state ≡ false
    → settings (serve api now (some token) r s).1.room.files ≡ settings s.room.files
unfolding serve require_participant
settings-serve api now token r s p found guest running =
    rw found (elim (Bool-cases (is_some p.removed_at && not (allows_removed r))) [
      | inl refused ↦ rw refused refl
      | inr admitted ↦ rw admitted (
          handle-Keeps (IsSettled now p (settings s.room.files)) now p
            (Laws-IsSettled now p (settings s.room.files) running guest) api r s refl)
    ])

-- A request without a token, with a token of no participant, or with that of a removed one, unless it
-- is a wait, is refused and changes nothing.
pub serve-refused :
    (api : ServerApi) (now : ℕ) (r : Request) (s : ForumServer)
    → (serve api now none r s ≡ (err (http_error 401 unauthorized), s))
      × ((token : Text)
          → find_participant api token s.room.files ≡ none
          → serve api now (some token) r s ≡ (err (http_error 403 forbidden), s))
      × ((token : Text) (p : Participant)
          → find_participant api token s.room.files ≡ some p
          → is_some p.removed_at ≡ true
          → allows_removed r ≡ false
          → serve api now (some token) r s ≡ (err (http_error 403 forbidden), s))
unfolding serve require_participant
serve-refused api now r s = (
  refl,
  λ token unknown. rw unknown refl,
  λ token p found removed closed. rw found (rw removed (rw closed refl)),
)
