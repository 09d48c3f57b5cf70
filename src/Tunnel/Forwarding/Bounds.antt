-- ===== src/Tunnel/Forwarding/Bounds.antt =====
-- How much of a response reaches the participant, and what is reported of it.
use telegent.Base.{
  >>=-passed, Text, leb, Bool-cases, Result, ok, err, ◌>>=◌, length, length-append, ℕ, ◌+◌, ◌≤◌,
  ◌≡◌, ap, inl, inr, Bool, Option, none, some, List, arith,
}
use telegent.Tunnel.Protocol.{TunnelError}
use telegent.Tunnel.Forwarding.{
  ForwardApi, ForwardOptions, IncomingRequest, ForwardResult, Written, FetchResponse, BodyStream,
  ends, breaks, chunk, stream_response, forward_to_host, forwarded, responded, streamed,
  declares_too_much, target_of, read_request_body,
}

abbrev Counted : ℕ → ℕ → List ℕ × Bool × Result TunnelError ℕ → Type 0
Counted limit total x =
    (total + length (x.0) ≤ limit) × ((n : ℕ) → x.2 ≡ ok n → n ≡ total + length (x.0))

stream_response-Counted :
    (limit total : ℕ) (s : BodyStream)
    → total ≤ limit
    → Counted limit total (stream_response limit total s)
unfolding stream_response
stream_response-Counted limit total ends h =
    (omega (arith, h), λ n e. let same : total ≡ n = cc in omega (arith, same))
stream_response-Counted limit total breaks h =
    (omega (arith, h), λ n e. let same : total ≡ n = cc in omega (arith, same))
stream_response-Counted limit total (chunk c rest) h =
    elim (Bool-cases (leb (total + length c) limit)) [
      | inl room ↦
          let fits : total + length c ≤ limit = ground (arith, room) in
          let later : _ = stream_response-Counted limit (total + length c) rest fits in
          let sum : _ = length-append c (stream_response limit (total + length c) rest).0 in
          rw room (omega (arith, later.0, sum), λ n e. omega (arith, later.1 n e, sum))
      | inr over ↦ rw over (omega (arith, h), λ n e. cc)
    ]

-- The response that a participant is sent stays within the limit, and its reported size is what was
-- written.
abbrev pub IsWithin : ℕ → Result TunnelError ForwardResult × Written → Type 0
IsWithin limit x =
    (length x.1.bytes ≤ limit) × ((r : ForwardResult) → x.0 ≡ ok r → r.bytes_out ≡ length x.1.bytes)

abbrev size_of : Result TunnelError ForwardResult → ℕ
size_of (ok r) = r.bytes_out
size_of (err e) = 0

streamed-IsWithin :
    (o : ForwardOptions) (bytes_in : ℕ) (r : FetchResponse)
    → IsWithin o.response_body_bytes (streamed o bytes_in r)
streamed-IsWithin o bytes_in r =
    let counted : _ = stream_response-Counted o.response_body_bytes 0 r.body (omega arith) in
    (
      omega (arith, counted.0),
      λ q e.
          let (n, read, same) =
            >>=-passed (stream_response o.response_body_bytes 0 r.body).2 _ q e in
          let size : n ≡ q.bytes_out =
            ap (λ (x : Result TunnelError ForwardResult). size_of x) same in
          omega (arith, counted.1 n read, size),
    )

responded-IsWithin :
    (api : ForwardApi) (o : ForwardOptions) (bytes_in : ℕ) (r : Option FetchResponse)
    → IsWithin o.response_body_bytes (responded api o bytes_in r)
responded-IsWithin api o bytes_in none = (omega arith, λ q e. cc)
responded-IsWithin api o bytes_in (some r) =
    elim (Bool-cases (declares_too_much api.exceeds o.response_body_bytes r)) [
      | inl much ↦ rw much (omega arith, λ q e. cc)
      | inr fine ↦ rw fine (streamed-IsWithin o bytes_in r)
    ]

-- Whatever the host answers, declares and streams, and wherever its response breaks: no more than the
-- limit of bytes is written to the participant, and the size that is reported is that of what was
-- written.
pub forward_to_host-IsWithin :
    (api : ForwardApi) (o : ForwardOptions) (req : IncomingRequest)
    → IsWithin o.response_body_bytes (forward_to_host api o req)
unfolding forward_to_host
forward_to_host-IsWithin api o req = by_checks (
    target_of api o.target >>= λ t.
    read_request_body req.method o.request_body_bytes req.chunks >>= λ body. ok (t, body))
  where
    by_checks :
        (checks : Result TunnelError ((Text × Text) × Option (List ℕ)))
        → IsWithin o.response_body_bytes (forwarded api o req checks)
    by_checks (err e) = (omega arith, λ q k. cc)
    by_checks (ok ((base, origin), body)) = responded-IsWithin api o _ (api.fetch _)
