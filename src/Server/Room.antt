-- ===== src/Server/Room.antt =====
-- src/server/http.ts: the state of a room's server and the steps that its handlers are made of. A
-- handler's steps run in their order; what a step writes stays when a later one throws.
pub mod Steps
use telegent.Base.{
  Text, codes, text_eq, text_eq→eq, text_eq_refl, text_eq_iff, text_eq_ne, ltb, leb, ◌==◌,
  if◌then◌else◌, ==_iff, Bool-cases, Option-cases, is_some, or_else, Result, ok, err, ◌>>=◌, ◌>>◌,
  guard, occurs, occurs-append, length, length-append, filter, find, any, all, All, All-append,
  All-map, All-filter, includes, ℕ, zero, suc, ◌+◌, ◌-◌, ◌*◌, ◌/◌, ◌%◌, ◌^◌, ◌≤◌, ◌<◌, max, min,
  ◌≡◌, refl, sym, ap, subst, ◌∙◌, ◌≢◌, ◌↔◌, ◌⊎◌, inl, inr, Bool, true, false, not, ◌&&◌, ◌||◌,
  Option, none, some, List, [], ◌∷◌, ◌++◌, map, arith,
}
use telegent.Base.Maps.{Map, lookup}
use telegent.Protocol.Types.{
  Participant, ParticipantKind, ParticipantAttention, AttendancePolicy, Message, RoomState,
  RoomStatus, open_room, closed_room, agents_foreground, all_foreground, attending, managed,
}
use telegent.Protocol.Urls.{UrlApi, normalize_base_url}
use telegent.Storage.RoomStore.{
  RoomFiles, StoreError, append_server_message, upsert_participant, close_room,
}
use telegent.Server.Errors.{
  HttpError, HttpErrorCode, http_error, sent_error, unauthorized, forbidden, host_required,
  internal_error,
}
use telegent.Server.Errors
use telegent.Server.Guards.{RateBucket, bearer_token}
use telegent.Server.WaitHub.{WaitHub, notify}

-- What the server calls outside the repository: node:crypto's SHA-256 in hex, the bytes of a hex text,
-- `Number(·)` where it is a natural number, `new URL`, and `toLowerCase`.
pub record ServerApi : Type 0 where
  pub sha256_hex : Text → Text
  pub hex_bytes : Text → List ℕ
  pub to_number : Text → Option ℕ
  pub origin_of : Text → Option Text
  pub urls : UrlApi
  pub lower : Text → Text

pub record RoomOptions : Type 0 where
  pub room_id : Text
  pub base_url : Text
  pub public_base_url : Text
  pub max_messages : ℕ
  pub rate_limit_per_minute : ℕ
  pub loop_guard_limit : ℕ
  pub wait_hold_ms : ℕ
  pub allow_insecure_remote : Bool

pub record RoomServer : Type 0 where
  pub options : RoomOptions
  pub files : RoomFiles
  pub rate_buckets : Map RateBucket
  pub loop_counts : Map ℕ
  pub hub : WaitHub

abbrev pub Handler {ℓ} : Type ℓ → Type ℓ
Handler A = RoomServer → Result HttpError A × RoomServer

abbrev pub continue {ℓ κ} :
    {A : Type ℓ} {B : Type κ}
    → (A → Handler B)
    → Result HttpError A × RoomServer
    → Result HttpError B × RoomServer
continue f (err e, s) = (err e, s)
continue f (ok a, s) = f a s

infixl 5 ◌then◌
abbrev pub ◌then◌ {ℓ κ} : {A : Type ℓ} {B : Type κ} → Handler A → (A → Handler B) → Handler B
(m then f) s = continue f (m s)

abbrev pub answer {ℓ} : {A : Type ℓ} → A → Handler A
answer a s = (ok a, s)

abbrev pub require {ℓ} : {A : Type ℓ} → Result HttpError A → Handler A
require r s = (r, s)

abbrev pub sent {ℓ} : {A : Type ℓ} → Result StoreError A → Result HttpError A
sent (ok a) = ok a
sent (err e) = err (sent_error e)

-- An operation of the store.
abbrev pub stored {ℓ} : {A : Type ℓ} → (RoomFiles → Result StoreError A × RoomFiles) → Handler A
stored op s = let (r, files) = op s.files in (sent r, record s { files = files })

abbrev pub notify_room : Handler (Unit {0})
notify_room s = (ok tt, record s { hub = notify s.options.room_id s.hub })

unfoldable pub append_system : ℕ → Text → Handler (Unit {0})
append_system now text s =
    ((stored (append_server_message now s.options.room_id (codes "system") text)) then λ m.
    answer tt)
      s

-- `verifyToken` of src/auth/tokens.ts: the comparison in constant time is an equality.
unfoldable pub verify_token : ServerApi → Text → Text → Bool
verify_token api token hash = text_eq (api.hex_bytes (api.sha256_hex token)) (api.hex_bytes hash)

abbrev pub has_token : ServerApi → Text → Participant → Bool
has_token api token p = elim p.token_hash [ none ↦ false | some hash ↦ verify_token api token hash ]

abbrev pub find_participant : ServerApi → Text → RoomFiles → Option Participant
find_participant api token files = find (λ p. has_token api token p) files.participants

abbrev pub admitted_participant : Bool → Option Participant → Result HttpError Participant
admitted_participant allow_removed none = err (http_error 403 forbidden)
admitted_participant allow_removed (some p) =
    if is_some p.removed_at && not allow_removed then err (http_error 403 forbidden) else ok p

-- `requireParticipant` for the token that the request presents.
unfoldable pub require_participant : ServerApi → Bool → Option Text → Handler Participant
require_participant api allow_removed none s = (err (http_error 401 unauthorized), s)
require_participant api allow_removed (some token) s =
    (admitted_participant allow_removed (find_participant api token s.files), s)

-- The token of a request: the bearer token, or where the endpoint allows it the query parameter.
unfoldable pub presented_token : Bool → Option Text → Option Text → Option Text
unfolding bearer_token
presented_token allow_query authorization query = elim (bearer_token authorization) [
  | some token ↦ some token
  | none ↦ if allow_query then query else none
]

abbrev pub require_host : Participant → Handler (Unit {0})
require_host p = require (guard p.is_host (http_error 403 host_required))

-- The participant that the request was admitted with is written back.
unfoldable pub touch_participant : ℕ → Participant → ParticipantAttention → Handler (Unit {0})
touch_participant now p attention =
    stored (upsert_participant (record p { attention = attention; last_seen_at = now }))

abbrev pub has_expired : ℕ → RoomState → Bool
has_expired now state = elim state.status [
  | closed_room ↦ false
  | open_room ↦ elim state.expires_at [ none ↦ false | some t ↦ leb t now ]
]

abbrev pub close_stored : ℕ → Handler RoomState
close_stored now s =
    let (state, files) = close_room now s.files in (ok state, record s { files = files })

-- `closeExpiredRoomIfNeeded`
unfoldable pub close_expired_room : ℕ → Handler RoomState
unfolding append_system
close_expired_room now s =
    if has_expired now s.files.state
    then ((close_stored now) then λ state.
          (append_system now (codes "room closed by ttl")) then λ _.
          notify_room then λ _. answer state)
        s
    else (ok s.files.state, s)

abbrev pub open_or : HttpErrorCode → RoomState → Result HttpError (Unit {0})
open_or code state = elim state.status [
  | open_room ↦ ok tt
  | closed_room ↦ err (http_error 403 code)
]

unfoldable pub require_room_open : ℕ → Handler (Unit {0})
unfolding close_expired_room
require_room_open now =
    (close_expired_room now) then λ state. require (open_or Errors.room_closed state)

-- The base URL that cards and wait commands name.
unfoldable pub advertised_base_url : ServerApi → RoomOptions → Text
advertised_base_url api o = elim o.public_base_url [
  | [] ↦ o.base_url
  | (c ∷ rest) ↦ or_else (normalize_base_url api.urls (c ∷ rest)) o.base_url
]
