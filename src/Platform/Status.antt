-- ===== src/Platform/Status.antt =====
-- src/platform/status.ts: the central status of a room, derived from the broker's route and from what
-- the host reports of its participants.
pub mod Derivation
use telegent.Base.{
  Text, codes, text_eq, text_eq→eq, text_eq_refl, text_eq_iff, text_eq_ne, ltb, leb, ◌==◌,
  if◌then◌else◌, ==_iff, Bool-cases, Option-cases, is_some, or_else, Result, ok, err, ◌>>=◌, ◌>>◌,
  guard, occurs, occurs-append, length, length-append, filter, find, any, all, All, All-append,
  All-map, All-filter, includes, ℕ, zero, suc, ◌+◌, ◌-◌, ◌*◌, ◌/◌, ◌%◌, ◌^◌, ◌≤◌, ◌<◌, max, min,
  ◌≡◌, refl, sym, ap, subst, ◌∙◌, ◌≢◌, ◌↔◌, ◌⊎◌, inl, inr, Bool, true, false, not, ◌&&◌, ◌||◌,
  Option, none, some, List, [], ◌∷◌, ◌++◌, map, arith,
}
use telegent.Protocol.Types.{ParticipantKind, RoomStatus, open_room, closed_room}
use telegent.Tunnel.Protocol.{RouteStatus, RouteMetadata}

pub data PlatformRoomStatus : Type 0 where
  active idle paused closed : PlatformRoomStatus

pub data PlatformStatusReason : Type 0 where
  foreground_attending foreground_idle no_foreground_required : PlatformStatusReason
  host_unavailable route_expired route_closed room_closed : PlatformStatusReason

pub record RouteHealth : Type 0 where
  pub reachable : Bool
  pub host_connected : Bool

pub record RouteHealthSignal : Type 0 where
  pub registered : Bool
  pub route_status : Option RouteStatus
  pub host_connected : Option Bool

pub record HostAttendanceParticipant : Type 0 where
  pub kind : ParticipantKind
  pub attendance_required : Bool
  pub attendance_state : Text

pub record HostStatusSignal : Type 0 where
  pub room_status : RoomStatus
  pub participants : List HostAttendanceParticipant

pub record PlatformStatusResult : Type 0 where
  pub status : PlatformRoomStatus
  pub reason : PlatformStatusReason
  pub route_health : RouteHealth

abbrev pub foreground_states : List Text
foreground_states = codes "attending" ∷ codes "managed" ∷ []

unfoldable pub route_signal_from_metadata : Option RouteMetadata → RouteHealthSignal
route_signal_from_metadata none = record {
  registered = false;
  route_status = none;
  host_connected = none;
}
route_signal_from_metadata (some r) = record {
  registered = true;
  route_status = some r.status;
  host_connected = some r.host_connected;
}

-- `route_status === …`, which is false where there is none.
abbrev pub is_active : Option RouteStatus → Bool
is_active (some RouteStatus.active) = true
is_active _ = false

abbrev pub is_expired : Option RouteStatus → Bool
is_expired (some RouteStatus.expired) = true
is_expired _ = false

abbrev pub is_closed : Option RouteStatus → Bool
is_closed (some RouteStatus.closed) = true
is_closed _ = false

abbrev pub is_closed_room : RoomStatus → Bool
is_closed_room open_room = false
is_closed_room closed_room = true

unfoldable pub route_health_from_signal : RouteHealthSignal → RouteHealth
route_health_from_signal route = record {
  reachable = route.registered && is_active route.route_status;
  host_connected = or_else route.host_connected false;
}

abbrev pub required : HostStatusSignal → List HostAttendanceParticipant
required host = filter (λ p. p.attendance_required) host.participants

abbrev pub is_attending : HostAttendanceParticipant → Bool
is_attending p = includes foreground_states p.attendance_state

-- Active or idle, by the participants that the room requires.
unfoldable pub attendance_status :
    List HostAttendanceParticipant → PlatformRoomStatus × PlatformStatusReason
attendance_status [] = (idle, no_foreground_required)
attendance_status (p ∷ ps) =
    if all is_attending (p ∷ ps) then (active, foreground_attending) else (idle, foreground_idle)

unfoldable pub status_and_reason :
    RouteHealthSignal → HostStatusSignal → PlatformRoomStatus × PlatformStatusReason
unfolding attendance_status
status_and_reason route host =
    if route.registered && is_closed route.route_status
    then (closed, route_closed)
    else if is_closed_room host.room_status
    then (closed, room_closed)
    else if not route.registered
    then (paused, host_unavailable)
    else if is_expired route.route_status
    then (paused, route_expired)
    else if not (or_else route.host_connected false)
    then (paused, host_unavailable)
    else attendance_status (required host)

unfoldable pub derive_platform_status : RouteHealthSignal → HostStatusSignal → PlatformStatusResult
unfolding status_and_reason route_health_from_signal
derive_platform_status route host =
    let (status, reason) = status_and_reason route host in
    record { status = status; reason = reason; route_health = route_health_from_signal route }
