-- ===== src/Server/Requests/Keeps.antt =====
-- A property of the files that each operation of the store keeps is kept by every handler of the room.
use telegent.Base.{
  Text, codes, if◌then◌else◌, Bool-cases, is_some, Result, ok, err, ℕ, ◌≡◌, inl, inr, Bool, true,
  Option, none, some, ◌++◌,
}
use telegent.Protocol.Types.{Participant, AttendancePolicy}
use telegent.Protocol.Messages.{Field, RawMessage}
use telegent.Storage.RoomStore.{
  RoomFiles, append_server_message, upsert_participant, close_room, update_brief,
  update_attendance_policy, append_message_result,
}
use telegent.Server.Errors.{HttpError}
use telegent.Base.Decimal.{decimal}
use telegent.Protocol.Types.{attending, away}
use telegent.Storage.RoomStore.{AppendMessageResult}
use telegent.Server.Guards.{parse_since_id}
use telegent.Server.Bodies.{
  AttentionBody, brief_body, policy_body, parse_attention_declaration, display_name_body, free_name,
  check_channel, check_waiter,
}
use telegent.Server.Room.{
  ServerApi, RoomServer, Handler, ◌then◌, continue, answer, require, stored, notify_room,
  append_system, require_participant, touch_participant, close_expired_room, require_room_open,
  has_expired,
}
use telegent.Server.Handlers.{
  brief_reply, policy_reply, joined, left, closed_reply, profiled, rejoined, get_brief, post_brief,
  post_attendance, post_profile, post_join, get_messages, post_message, limit_rate, limit_loop,
  announce, wait_snapshot, wait_or, enter_wait, get_wait, resume_wait, post_leave, post_close,
}
use telegent.Server.Requests.{
  RoomRequest, handle_room, gets_brief, gets_profile, leaves, closes, posts_brief, posts_attendance,
  posts_profile, joins, gets_messages, posts_message, waits,
}

module _ {κ} (P : RoomFiles → Type κ) where
  abbrev pub Keeps {ℓ} : {A : Type ℓ} → Handler A → Type κ
  Keeps m = (s : RoomServer) → P s.files → P (m s).1.files

  pub then-Keeps {ℓ μ} :
      {A : Type ℓ} {B : Type μ} (m : Handler A) (f : A → Handler B)
      → Keeps m
      → ((a : A) → Keeps (f a))
      → Keeps (m then f)
  then-Keeps m f h k s p = by_result (m s) (h s p)
    where
      by_result : (r : Result HttpError _ × RoomServer) → P r.1.files → P (continue f r).1.files
      by_result (err e, t) q = q
      by_result (ok a, t) q = k a t q

pub require_participant-Keeps {κ} :
    (P : RoomFiles → Type κ) (api : ServerApi) (removed : Bool) (token : Option Text)
    → Keeps P (require_participant api removed token)
require_participant-Keeps P api removed none s h = unfold require_participant in h
require_participant-Keeps P api removed (some token) s h = unfold require_participant in h

-- What the operations of the store have to keep for a request at `now` by `p`. Closing by the clock
-- is asked only of an expired room, and what a host does only where `p` is one.
pub record Laws {κ} (P : RoomFiles → Type κ) (now : ℕ) (p : Participant) : Type κ where
  pub appends :
      (room from text : Text) (f : RoomFiles)
      → P f
      → P (append_server_message now room from text f).1
  pub sends :
      (room from : Text) (raw : Option RawMessage) (limit : Option ℕ) (f : RoomFiles)
      → P f
      → P (append_message_result now room from raw limit f).1
  pub upserts : (q : Participant) (f : RoomFiles) → P f → P (upsert_participant q f).1
  pub expires : (f : RoomFiles) → P f → has_expired now f.state ≡ true → P (close_room now f).1
  pub hosts_close : p.is_host ≡ true → (f : RoomFiles) → P f → P (close_room now f).1
  pub hosts_brief :
      p.is_host ≡ true
      → (room body by : Text) (f : RoomFiles) → P f
      → P (update_brief now room body by f).1
  pub hosts_policy :
      p.is_host ≡ true
      → (room : Text) (policy : AttendancePolicy) (by : Text) (f : RoomFiles) → P f
      → P (update_attendance_policy now room policy by f).1

module _ {κ} (P : RoomFiles → Type κ) (now : ℕ) (p : Participant) (laws : Laws P now p) where
  append_system-Keeps : (text : Text) → Keeps P (append_system now text)
  append_system-Keeps text s h =
      unfold append_system in
      then-Keeps P (stored (append_server_message now s.options.room_id (codes "system") text))
        (λ m. answer tt) (λ t k. laws.appends s.options.room_id (codes "system") text t.files k)
        (λ m t k. k) s h

  -- The end of a handler that changed the room: a system message, and the notification.
  announced-Keeps {ℓ} :
      {A : Type ℓ} (text : Text) (a : A)
      → Keeps P ((append_system now text) then λ _. notify_room then λ _. answer a)
  announced-Keeps text a =
      then-Keeps P (append_system now text) (λ _. notify_room then λ _. answer a)
        (append_system-Keeps text) (λ _ s h. h)

  touch_participant-Keeps : (q : Participant) (a : _) → Keeps P (touch_participant now q a)
  touch_participant-Keeps q a s h =
      unfold touch_participant in
      laws.upserts (record q { attention = a; last_seen_at = now }) s.files h

  close_expired_room-Keeps : Keeps P (close_expired_room now)
  close_expired_room-Keeps s h = elim (Bool-cases (has_expired now s.files.state)) [
    | inl over ↦
        unfold close_expired_room in
        rw over (
          announced-Keeps (codes "room closed by ttl") (close_room now s.files).0
            (record s { files = (close_room now s.files).1 }) (laws.expires s.files h over))
    | inr open_still ↦ unfold close_expired_room in rw open_still h
  ]

  pub require_room_open-Keeps : Keeps P (require_room_open now)
  require_room_open-Keeps =
      unfold require_room_open in
      then-Keeps P (close_expired_room now) _ close_expired_room-Keeps (λ _ s h. h)

  wait_snapshot-Keeps :
      (api : ServerApi) (alias : Text) (since : ℕ) → Keeps P (wait_snapshot api now alias since)
  wait_snapshot-Keeps api alias since =
      unfold wait_snapshot in
      then-Keeps P (close_expired_room now) _ close_expired_room-Keeps (λ _ s h. h)

  wait_or-Keeps : (waiter : Text) (r : _) → Keeps P (wait_or waiter r)
  wait_or-Keeps waiter (some r) s h = h
  wait_or-Keeps waiter none s h = h

  enter_wait-Keeps :
      (api : ServerApi) (q : Participant) (waiter : Text) (since : ℕ)
      → Keeps P (enter_wait api now q waiter since)
  enter_wait-Keeps api q waiter since s h = elim (Bool-cases (is_some q.removed_at)) [
    | inl removed ↦
        rw removed
          (then-Keeps P (close_expired_room now) _ close_expired_room-Keeps (λ _ t k. k) s h)
    | inr there ↦ rw there (
        then-Keeps P (wait_snapshot api now q.alias since) _ (wait_snapshot-Keeps api q.alias since)
          (λ r t k. wait_or-Keeps waiter r t k) s h)
  ]

  get_wait-Keeps :
      (api : ServerApi) (waiter : Text) (since alias : Option Text)
      → Keeps P (get_wait api now p waiter since alias)
  get_wait-Keeps api waiter since alias =
      unfold get_wait in
      then-Keeps P (if is_some p.removed_at then answer tt else touch_participant now p attending) _
        (λ s h. elim (Bool-cases (is_some p.removed_at)) [
          | inl removed ↦ rw removed h
          | inr there ↦ rw there (touch_participant-Keeps p attending s h)
        ])
        (λ _.
          then-Keeps P (require (parse_since_id api.to_number since)) _ (λ s h. h)
            (λ n.
              then-Keeps P (require (check_waiter p alias)) _ (λ s h. h)
                (λ _ s h. enter_wait-Keeps api p waiter n s h)))

  pub resume_wait-Keeps :
      (api : ServerApi) (q : Participant) (since : ℕ) → Keeps P (resume_wait api now q since)
  resume_wait-Keeps api q since =
      unfold resume_wait in
      then-Keeps P (wait_snapshot api now q.alias since) _ (wait_snapshot-Keeps api q.alias since)
        (λ r s h. h)

  post_close-Keeps : Keeps P (post_close now p)
  post_close-Keeps s h = elim (Bool-cases p.is_host) [
    | inl host ↦
        unfold post_close in
        rw host (
          announced-Keeps (codes "room closed") (closed_reply (close_room now s.files).0.status)
            (record s { files = (close_room now s.files).1 }) (laws.hosts_close host s.files h))
    | inr guest ↦ unfold post_close in rw guest h
  ]

  post_brief-Keeps : (body : Field) → Keeps P (post_brief now p body)
  post_brief-Keeps body s h = elim (Bool-cases p.is_host) [
    | inl host ↦
        unfold post_brief in
        rw host (
          then-Keeps P (require (brief_body body)) _ (λ t k. k)
            (λ text.
              then-Keeps P (stored (update_brief now s.options.room_id text p.alias)) _
                (λ t k. laws.hosts_brief host s.options.room_id text p.alias t.files k)
                (λ b t k.
                  announced-Keeps (codes "Room brief updated to v" ++ decimal b.brief_version)
                    (brief_reply b) t k))
            s h)
    | inr guest ↦ unfold post_brief in rw guest h
  ]

  post_attendance-Keeps : (body : Field) → Keeps P (post_attendance now p body)
  post_attendance-Keeps body s h = elim (Bool-cases p.is_host) [
    | inl host ↦
        unfold post_attendance in
        rw host (
          then-Keeps P (require (policy_body body)) _ (λ t k. k)
            (λ named.
              then-Keeps P (stored (update_attendance_policy now s.options.room_id named.1 p.alias))
                _ (λ t k. laws.hosts_policy host s.options.room_id named.1 p.alias t.files k)
                (λ state t k.
                  announced-Keeps (codes "Attendance policy set to " ++ named.0)
                    (policy_reply state.attendance_policy) t k))
            s h)
    | inr guest ↦ unfold post_attendance in rw guest h
  ]

  post_profile-Keeps :
      (api : ServerApi) (name : Field) (body : AttentionBody)
      → Keeps P (post_profile api now p name body)
  post_profile-Keeps api name body s h =
      unfold post_profile in
      then-Keeps P (require (display_name_body name)) _ (λ t k. k)
        (λ n.
          then-Keeps P (require (free_name api p n s.files)) _ (λ t k. k)
            (λ _.
              then-Keeps P (require (parse_attention_declaration body)) _ (λ t k. k)
                (λ d.
                  then-Keeps P (stored (upsert_participant (profiled now n d p))) _
                    (λ t k. laws.upserts (profiled now n d p) t.files k) (λ _ t k. k))))
        s h

  post_join-Keeps : (body : AttentionBody) → Keeps P (post_join now p body)
  post_join-Keeps body =
      unfold post_join in
      then-Keeps P (require (parse_attention_declaration body)) _ (λ t k. k)
        (λ d.
          then-Keeps P (stored (upsert_participant (rejoined now d p))) _
            (λ t k. laws.upserts (rejoined now d p) t.files k)
            (λ _ t k. announced-Keeps (p.alias ++ codes " joined") (joined p.alias) t k))

  post_leave-Keeps : Keeps P (post_leave now p)
  post_leave-Keeps =
      unfold post_leave in
      then-Keeps P (stored (upsert_participant (record p { attention = away; last_seen_at = now })))
        _ (λ t k. laws.upserts (record p { attention = away; last_seen_at = now }) t.files k)
        (λ _ t k. announced-Keeps (p.alias ++ codes " left") left t k)

  get_messages-Keeps :
      (api : ServerApi) (channel since : Option Text)
      → Keeps P (get_messages api now p channel since)
  get_messages-Keeps api channel since =
      unfold get_messages in
      then-Keeps P (require (check_channel channel)) _ (λ t k. k)
        (λ _.
          then-Keeps P (touch_participant now p p.attention) _
            (touch_participant-Keeps p p.attention)
            (λ _.
              then-Keeps P (require (parse_since_id api.to_number since)) _ (λ t k. k)
                (λ n t k. k)))

  announce-Keeps : (r : AppendMessageResult) → Keeps P (announce r)
  announce-Keeps r s h = elim (Bool-cases r.idempotent) [
    | inl again ↦ rw again h
    | inr first ↦ rw first h
  ]

  post_message-Keeps : (body : Option RawMessage) → Keeps P (post_message now p body)
  post_message-Keeps body s h =
      unfold post_message in
      then-Keeps P (touch_participant now p p.attention) _ (touch_participant-Keeps p p.attention)
        (λ _. then-Keeps P (require_room_open now) _ require_room_open-Keeps (λ _.
          then-Keeps P (limit_rate now p) _ (λ t k. k)
            (λ _.
              then-Keeps P (limit_loop p) _ (λ t k. k)
                (λ _.
                  then-Keeps P
                    (stored (
                      append_message_result now s.options.room_id p.alias body
                        (some s.options.max_messages)))
                    _
                    (λ t k.
                      laws.sends s.options.room_id p.alias body (some s.options.max_messages)
                        t.files k)
                    announce-Keeps))))
        s h

  pub handle_room-Keeps : (api : ServerApi) (r : RoomRequest) → Keeps P (handle_room api now p r)
  handle_room-Keeps api gets_brief s h = unfold handle_room get_brief in h
  handle_room-Keeps api gets_profile s h = unfold handle_room in h
  handle_room-Keeps api leaves s h = unfold handle_room in post_leave-Keeps s h
  handle_room-Keeps api closes s h = unfold handle_room in post_close-Keeps s h
  handle_room-Keeps api (posts_brief body) s h = unfold handle_room in post_brief-Keeps body s h
  handle_room-Keeps api (posts_attendance body) s h =
      unfold handle_room in post_attendance-Keeps body s h
  handle_room-Keeps api (posts_profile name body) s h =
      unfold handle_room in post_profile-Keeps api name body s h
  handle_room-Keeps api (joins body) s h = unfold handle_room in post_join-Keeps body s h
  handle_room-Keeps api (gets_messages channel since) s h =
      unfold handle_room in get_messages-Keeps api channel since s h
  handle_room-Keeps api (posts_message body) s h = unfold handle_room in post_message-Keeps body s h
  handle_room-Keeps api (waits waiter since alias) s h =
      unfold handle_room in get_wait-Keeps api waiter since alias s h
