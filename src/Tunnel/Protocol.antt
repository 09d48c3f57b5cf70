-- ===== src/Tunnel/Protocol.antt =====
-- src/tunnel/protocol.ts: the shapes that hosts, broker and participants exchange. A timestamp is
-- the number of milliseconds that its ISO text stands for; an error's message is left out.
use telegent.Base.{Text, ℕ, Bool, Option, List}

pub data RouteStatus : Type 0 where
  active expired closed : RouteStatus

pub data TunnelErrorCode : Type 0 where
  invalid_registration route_slug_taken invalid_heartbeat route_not_found : TunnelErrorCode
  route_expired route_closed broker_unreachable unsupported_route : TunnelErrorCode
  route_request_limit wait_limit rate_limited request_too_large : TunnelErrorCode
  response_too_large host_unavailable unknown_request quota_exceeded : TunnelErrorCode
  internal_error : TunnelErrorCode

pub record TunnelError : Type 0 where
  pub code : TunnelErrorCode
  pub status : ℕ

pub record RouteMetadata : Type 0 where
  pub route_slug : Text
  pub route_id : Text
  pub host_connection_id : Text
  pub created_at : ℕ
  pub last_seen_at : ℕ
  pub last_heartbeat_at : ℕ
  pub expires_at : ℕ
  pub status : RouteStatus
  pub host_connected : Bool

pub record ForwardedRequest : Type 0 where
  pub request_id : Text
  pub route_slug : Text
  pub method : Text
  pub path : Text
  pub headers : List (Text × Text)
  pub body_base64 : Option Text

pub record ForwardedResponse : Type 0 where
  pub status : ℕ
  pub headers : List (Text × Text)
  pub body_base64 : Option Text
