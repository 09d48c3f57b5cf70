-- ===== src/Tunnel/Forwarding.antt =====
-- src/tunnel/forwarding.ts: what is forwarded to the host's server and what of its response. The network
-- is the parameter `fetch`, none where it throws; a body is its bytes, or the stream of its chunks.
pub mod Bounds
use telegent.Base.{
  Text, codes, text_eq, text_eq→eq, text_eq_refl, text_eq_iff, text_eq_ne, ltb, leb, ◌==◌,
  if◌then◌else◌, ==_iff, Bool-cases, Option-cases, is_some, or_else, Result, ok, err, ◌>>=◌, ◌>>◌,
  guard, occurs, occurs-append, length, length-append, filter, find, any, all, All, All-append,
  All-map, All-filter, includes, ℕ, zero, suc, ◌+◌, ◌-◌, ◌*◌, ◌/◌, ◌%◌, ◌^◌, ◌≤◌, ◌<◌, max, min,
  ◌≡◌, refl, sym, ap, subst, ◌∙◌, ◌≢◌, ◌↔◌, ◌⊎◌, inl, inr, Bool, true, false, not, ◌&&◌, ◌||◌,
  Option, none, some, List, [], ◌∷◌, ◌++◌, map, arith,
}
use telegent.Base.Maps.{Map, lookup, insert}
use telegent.Protocol.Urls.{UrlApi, normalize_base_url}
use telegent.Tunnel.Protocol.{
  TunnelError, ForwardedRequest, ForwardedResponse, internal_error, response_too_large,
  request_too_large, host_unavailable,
}

pub record FetchRequest : Type 0 where
  pub url : Text
  pub method : Text
  pub headers : Map Text
  pub body : Option (List ℕ)

-- The chunks of a body, which ends or breaks.
pub data BodyStream : Type 0 where
  ends breaks : BodyStream
  chunk : List ℕ → BodyStream → BodyStream

pub record FetchResponse : Type 0 where
  pub status : ℕ
  pub content_length : Option Text
  pub content_type : Option Text
  pub body : BodyStream

-- `fetch`, whether `Number(·)` is finite and above a limit, `new URL(·).origin`, `toLowerCase` and base64.
pub record ForwardApi : Type 0 where
  pub fetch : FetchRequest → Option FetchResponse
  pub exceeds : Text → ℕ → Bool
  pub origin_of : Text → Option Text
  pub urls : UrlApi
  pub lower : Text → Text
  pub from_base64 : Text → List ℕ
  pub to_base64 : List ℕ → Text

pub data HeaderValue : Type 0 where
  one : Text → HeaderValue
  many : List Text → HeaderValue

pub record IncomingRequest : Type 0 where
  pub method : Text
  pub headers : Map HeaderValue
  pub chunks : List (List ℕ)

pub record ForwardOptions : Type 0 where
  pub target : Text
  pub path : Text
  pub request_body_bytes : ℕ
  pub response_body_bytes : ℕ

pub record ForwardResult : Type 0 where
  pub status : ℕ
  pub bytes_in : ℕ
  pub bytes_out : ℕ

-- What was written to the participant: the head, the bytes, and whether the socket was destroyed.
pub record Written : Type 0 where
  pub head : Option (ℕ × Map Text)
  pub bytes : List ℕ
  pub destroyed : Bool

abbrev pub forwarded_request_headers : List Text
forwarded_request_headers = codes "authorization" ∷ codes "content-type" ∷ codes "accept" ∷ []

abbrev pub joined : HeaderValue → Text
joined (one s) = s
joined (many []) = []
joined (many (s ∷ [])) = s
joined (many (s ∷ t ∷ ts)) = s ++ (codes ", " ++ joined (many (t ∷ ts)))

unfoldable pub pick_headers : (Text → Text) → Map HeaderValue → Map Text → Map Text
pick_headers lower [] out = out
pick_headers lower ((name, value) ∷ headers) out = pick_headers lower headers (
    if includes forwarded_request_headers (lower name)
    then insert (lower name) (joined value) out
    else out)

abbrev pub replaced : Text → Text → Map HeaderValue → Map Text → Map Text
replaced name value headers out =
    if is_some (lookup name headers) then insert name value out else out

unfoldable pub select_request_headers : (Text → Text) → Map HeaderValue → Text → Map Text
unfolding pick_headers
select_request_headers lower headers target_origin =
    replaced (codes "referer") (target_origin ++ 47 ∷ []) headers
      (replaced (codes "origin") target_origin headers (pick_headers lower headers []))

abbrev pub translated : Text → Text → Text → Map Text → Map Text
translated target_origin name value out =
    if text_eq name (codes "origin")
    then insert (codes "origin") target_origin out
    else if text_eq name (codes "referer")
    then insert (codes "referer") (target_origin ++ 47 ∷ []) out
    else if includes forwarded_request_headers name
    then insert name value out
    else out

unfoldable pub translate_envelope_headers :
    (Text → Text) → List (Text × Text) → Text → Map Text → Map Text
translate_envelope_headers lower [] target_origin out = out
translate_envelope_headers lower ((name, value) ∷ headers) target_origin out =
    translate_envelope_headers lower headers target_origin
      (translated target_origin (lower name) value out)

abbrev pub has_no_body : Text → Bool
has_no_body method = text_eq method (codes "GET") || text_eq method (codes "HEAD")

abbrev pub gather : ℕ → ℕ → List (List ℕ) → Result TunnelError (List ℕ)
gather limit total [] = ok []
gather limit total (c ∷ cs) =
    let rest = gather limit (total + length c) cs in
    if leb (total + length c) limit
    then (rest >>= λ bytes. ok (c ++ bytes))
    else err (record { code = request_too_large; status = 413 })

abbrev pub some_chunks : List (List ℕ) → List ℕ → Option (List ℕ)
some_chunks [] bytes = none
some_chunks (c ∷ cs) bytes = some bytes

unfoldable pub read_request_body : Text → ℕ → List (List ℕ) → Result TunnelError (Option (List ℕ))
read_request_body method limit chunks =
    if has_no_body method
    then ok none
    else (gather limit 0 chunks >>= λ bytes. ok (some_chunks chunks bytes))

abbrev pub too_large : TunnelError
too_large = record { code = response_too_large; status = 502 }

-- The bytes written, whether the socket was destroyed, and what `streamResponse` returns or throws.
unfoldable pub stream_response : ℕ → ℕ → BodyStream → List ℕ × Bool × Result TunnelError ℕ
stream_response limit total ends = ([], false, ok total)
stream_response limit total breaks = ([], true, ok total)
stream_response limit total (chunk c rest) =
    let (bytes, destroyed, r) = stream_response limit (total + length c) rest in
    if leb (total + length c) limit then (c ++ bytes, destroyed, r) else ([], true, err too_large)

abbrev pub with_slash : Text → Text
with_slash [] = 47 ∷ []
with_slash (c ∷ s) = if c == 47 then c ∷ s else 47 ∷ c ∷ s

abbrev pub content_type_header : FetchResponse → Map Text
content_type_header r = elim r.content_type [ none ↦ [] | some t ↦ (codes "content-type", t) ∷ [] ]

-- A length that is declared, and is a finite number, is held against the limit; `Number(null)` is 0.
abbrev pub declares_too_much : (Text → ℕ → Bool) → ℕ → FetchResponse → Bool
declares_too_much exceeds limit r = elim r.content_length [
  | none ↦ false
  | some t ↦ exceeds t limit
]

abbrev pub nothing_written : Written
nothing_written = record { head = none; bytes = []; destroyed = false }

abbrev pub streamed :
    ForwardOptions → ℕ → FetchResponse → Result TunnelError ForwardResult × Written
streamed o bytes_in r =
    let (bytes, destroyed, out) = stream_response o.response_body_bytes 0 r.body in
    (
      out >>= λ n. ok (record { status = r.status; bytes_in = bytes_in; bytes_out = n }),
      record {
        head = some (r.status, content_type_header r);
        bytes = bytes;
        destroyed = destroyed;
      },
    )

abbrev pub responded :
    ForwardApi
    → ForwardOptions
    → ℕ
    → Option FetchResponse
    → Result TunnelError ForwardResult × Written
responded api o bytes_in none =
    (err (record { code = internal_error; status = 502 }), nothing_written)
responded api o bytes_in (some r) =
    if declares_too_much api.exceeds o.response_body_bytes r
    then (err too_large, nothing_written)
    else streamed o bytes_in r

-- The target and its origin; the throw of `new URL` on a target that is none is an internal error.
abbrev pub target_of : ForwardApi → Text → Result TunnelError (Text × Text)
target_of api target = elim (normalize_base_url api.urls target) [
  | none ↦ err (record { code = internal_error; status = 500 })
  | some base ↦ elim (api.origin_of base) [
    | none ↦ err (record { code = internal_error; status = 500 })
    | some origin ↦ ok (base, origin)
  ]
]

abbrev pub forwarded :
    ForwardApi
    → ForwardOptions
    → IncomingRequest
    → Result TunnelError ((Text × Text) × Option (List ℕ))
    → Result TunnelError ForwardResult × Written
forwarded api o req (err e) = (err e, nothing_written)
forwarded api o req (ok ((base, origin), body)) =
    responded api o (elim body [ none ↦ 0 | some bytes ↦ length bytes ])
      (api.fetch (record {
        url = base ++ with_slash o.path;
        method = req.method;
        headers = select_request_headers api.lower req.headers origin;
        body = body;
      }))

unfoldable pub forward_to_host :
    ForwardApi → ForwardOptions → IncomingRequest → Result TunnelError ForwardResult × Written
unfolding select_request_headers read_request_body stream_response normalize_base_url
forward_to_host api o req = forwarded api o req (
    target_of api o.target >>= λ t.
    read_request_body req.method o.request_body_bytes req.chunks >>= λ body. ok (t, body))

-- `response.arrayBuffer()`, none where the body breaks.
abbrev pub whole : BodyStream → Option (List ℕ)
whole ends = some []
whole breaks = none
whole (chunk c rest) = elim (whole rest) [ none ↦ none | some bytes ↦ some (c ++ bytes) ]

abbrev pub enveloped :
    ForwardApi → ℕ → FetchResponse → Option (List ℕ) → Result TunnelError ForwardedResponse
enveloped api limit r none = err (record { code = internal_error; status = 500 })
enveloped api limit r (some bytes) =
    if leb (length bytes) limit
    then ok (record {
      status = r.status;
      headers = content_type_header r;
      body_base64 = if leb (length bytes) 0 then none else some (api.to_base64 bytes);
    })
    else err too_large

abbrev pub relayed : ForwardApi → ℕ → Option FetchResponse → Result TunnelError ForwardedResponse
relayed api limit none = err (record { code = host_unavailable; status = 502 })
relayed api limit (some r) = enveloped api limit r (whole r.body)

unfoldable pub relay_to_local_server :
    ForwardApi → Text → ForwardedRequest → ℕ → Result TunnelError ForwardedResponse
unfolding translate_envelope_headers normalize_base_url
relay_to_local_server api target request limit = target_of api target >>= λ t. relayed api limit (
    api.fetch (record {
      url = t.0 ++ with_slash request.path;
      method = request.method;
      headers = translate_envelope_headers api.lower request.headers t.1 [];
      body = elim request.body_base64 [
        | none ↦ none
        | some body ↦ if has_no_body request.method then none else some (api.from_base64 body)
      ];
    }))
