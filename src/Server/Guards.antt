-- ===== src/Server/Guards.antt =====
-- src/server/http.ts: the tests that a request passes before it reaches the room, and the counters
-- behind the rate limit and the loop guard.
pub mod Exposure
pub mod Limits
use telegent.Base.{
  Text, codes, text_eq, text_eq→eq, text_eq_refl, text_eq_iff, text_eq_ne, ltb, leb, ◌==◌,
  if◌then◌else◌, ==_iff, Bool-cases, Option-cases, is_some, or_else, Result, ok, err, ◌>>=◌, ◌>>◌,
  guard, occurs, occurs-append, length, length-append, filter, find, any, all, All, All-append,
  All-map, All-filter, includes, ℕ, zero, suc, ◌+◌, ◌-◌, ◌*◌, ◌/◌, ◌%◌, ◌^◌, ◌≤◌, ◌<◌, max, min,
  ◌≡◌, refl, sym, ap, subst, ◌∙◌, ◌≢◌, ◌↔◌, ◌⊎◌, inl, inr, Bool, true, false, not, ◌&&◌, ◌||◌,
  Option, none, some, List, [], ◌∷◌, ◌++◌, map, arith,
}
use telegent.Base.Maps.{Map, lookup, insert}
use telegent.Protocol.Types.{Participant, ParticipantKind}
use telegent.Protocol.Validation.{is_space, trim}
use telegent.Protocol.Messages.{max_safe_integer}
use telegent.Server.Errors.{
  HttpError, http_error, insecure_remote, bad_origin, bad_referer, internal_error, rate_limited,
  loop_guard, invalid_since_id, invalid_display_name, body_too_large, invalid_json,
}

-- `s.split(":")[0]`
abbrev pub before_colon : Text → Text
before_colon [] = []
before_colon (c ∷ s) = let rest = before_colon s in if c == b':' then [] else c ∷ rest

unfoldable pub is_localhost : Text → Bool
is_localhost host_header =
    let host = before_colon host_header in
    text_eq host (codes "localhost")
    || text_eq host (codes "127.0.0.1")
    || text_eq host (codes "[::1]")
    || text_eq host (codes "::1")

unfoldable pub enforce_exposure : Bool → Option Text → Result HttpError (Unit {0})
unfolding is_localhost
enforce_exposure allow_insecure_remote host =
    if allow_insecure_remote
    then ok tt
    else guard (is_localhost (or_else host [])) (http_error 403 insecure_remote)

-- `origin_of` is `new URL(·).origin`, none where the constructor throws.
abbrev pub check_referer : (Text → Option Text) → Text → Option Text → Result HttpError (Unit {0})
check_referer origin_of expected none = ok tt
check_referer origin_of expected (some referer) = elim (origin_of referer) [
  | none ↦ err (http_error 403 bad_referer)
  | some origin ↦ guard (text_eq origin expected) (http_error 403 bad_referer)
]

abbrev pub check_origin : Text → Option Text → Result HttpError (Unit {0})
check_origin expected none = ok tt
check_origin expected (some origin) = guard (text_eq origin expected) (http_error 403 bad_origin)

unfoldable pub enforce_same_origin :
    (Text → Option Text) → Text → Option Text → Option Text → Result HttpError (Unit {0})
enforce_same_origin origin_of base_url origin referer = elim (origin_of base_url) [
  | none ↦ err (http_error 500 internal_error)
  | some expected ↦ check_origin expected origin >> check_referer origin_of expected referer
]

unfoldable pub is_write_method : Text → Bool
is_write_method m =
    text_eq m (codes "POST")
    || text_eq m (codes "PUT")
    || text_eq m (codes "PATCH")
    || text_eq m (codes "DELETE")

-- What `.` does not match.
abbrev pub is_line_end : ℕ → Bool
is_line_end c = c == 10 || c == 13 || c == 8232 || c == 8233

abbrev pub drop_prefix : Text → Text → Option Text
drop_prefix [] s = some s
drop_prefix (a ∷ t) [] = none
drop_prefix (a ∷ t) (b ∷ s) = let rest = drop_prefix t s in if a == b then rest else none

-- `/^Bearer (.+)$/`
abbrev pub bearer_match : Option Text → Option Text
bearer_match none = none
bearer_match (some []) = none
bearer_match (some (c ∷ s)) = if any is_line_end (c ∷ s) then none else some (c ∷ s)

unfoldable pub bearer_token : Option Text → Option Text
bearer_token none = none
bearer_token (some authorization) = bearer_match (drop_prefix (codes "Bearer ") authorization)

-- `to_number` is `Number(·)`, none where that is no natural number.
unfoldable pub parse_since_id : (Text → Option ℕ) → Option Text → Result HttpError ℕ
parse_since_id to_number none = ok 0
parse_since_id to_number (some raw) = elim (to_number raw) [
  | none ↦ err (http_error 400 invalid_since_id)
  | some n ↦ if leb n max_safe_integer then ok n else err (http_error 400 invalid_since_id)
]

-- `.replace(/\s+/g, " ")`: a run of white space becomes one space.
abbrev pub collapse : Bool → Text → Text
collapse in_run [] = []
collapse in_run (c ∷ s) =
    let inside = collapse true s in
    let outside = collapse false s in
    if is_space c then (if in_run then inside else 32 ∷ inside) else c ∷ outside

abbrev pub is_control : ℕ → Bool
is_control c = leb c 31 || c == 127

unfoldable pub parse_display_name : Text → Result HttpError Text
parse_display_name value =
    let trimmed = collapse false (trim value) in
    if leb (length trimmed) 0 || not (leb (length trimmed) 60) || any is_control trimmed
    then err (http_error 400 invalid_display_name)
    else ok trimmed

-- The chunks of a body, whose sizes are added up before each is kept.
abbrev pub gather : ℕ → ℕ → List (List ℕ) → Result HttpError (List ℕ)
gather max_bytes size [] = ok []
gather max_bytes size (chunk ∷ chunks) =
    let rest = gather max_bytes (size + length chunk) chunks in
    if not (leb (size + length chunk) max_bytes)
    then err (http_error 413 body_too_large)
    else rest >>= λ bytes. ok (chunk ++ bytes)

-- `parse` is `JSON.parse` on the decoded bytes, none where it throws. No chunk at all is `{}`.
unfoldable pub read_json_body {ℓ} :
    {A : Type ℓ} → A → (List ℕ → Option A) → ℕ → List (List ℕ) → Result HttpError A
read_json_body empty parse max_bytes [] = ok empty
read_json_body empty parse max_bytes (chunk ∷ chunks) =
    gather max_bytes 0 (chunk ∷ chunks) >>= λ bytes. elim (parse bytes) [
      | none ↦ err (http_error 400 invalid_json)
      | some a ↦ ok a
    ]

pub record RateBucket : Type 0 where
  pub reset_at : ℕ
  pub count : ℕ

-- The bucket of a key after one more request, and whether the request passes: a request that is
-- refused is counted too.
unfoldable pub count_request : ℕ → ℕ → Option RateBucket → Bool × RateBucket
count_request now limit none = (true, record { reset_at = now + 60000; count = 1 })
count_request now limit (some b) =
    if leb b.reset_at now
    then (true, record { reset_at = now + 60000; count = 1 })
    else (leb (b.count + 1) limit, record b { count = b.count + 1 })

unfoldable pub enforce_rate_limit :
    ℕ → Text → ℕ → Map RateBucket → Result HttpError (Unit {0}) × Map RateBucket
unfolding count_request
enforce_rate_limit now key limit buckets =
    let (passes, b) = count_request now limit (lookup key buckets) in
    (guard passes (http_error 429 rate_limited), insert key b buckets)

-- `startsWith`
abbrev pub starts_with : Text → Text → Bool
starts_with [] s = true
starts_with (a ∷ t) [] = false
starts_with (a ∷ t) (b ∷ s) = a == b && starts_with t s

abbrev pub drop_room : Text → Map ℕ → Map ℕ
drop_room prefix [] = []
drop_room prefix ((key, n) ∷ counts) =
    let rest = drop_room prefix counts in if starts_with prefix key then rest else (key, n) ∷ rest

abbrev pub room_prefix : Text → Text
room_prefix room_id = room_id ++ b':' ∷ []

abbrev pub room_key : Text → Text → Text
room_key room_id alias = room_id ++ b':' ∷ alias

abbrev pub is_human : ParticipantKind → Bool
is_human ParticipantKind.human = true
is_human _ = false

-- A human's message resets the counts of the room.
unfoldable pub enforce_loop_guard :
    Text → Participant → ℕ → Map ℕ → Result HttpError (Unit {0}) × Map ℕ
enforce_loop_guard room_id p limit counts =
    if is_human p.kind then (ok tt, drop_room (room_prefix room_id) counts) else (
      guard (leb (or_else (lookup (room_key room_id p.alias) counts) 0 + 1) limit)
          (http_error 429 loop_guard),
      insert (room_key room_id p.alias) (or_else (lookup (room_key room_id p.alias) counts) 0 + 1)
          counts,
    )
