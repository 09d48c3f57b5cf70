-- ===== src/Platform/Status/Derivation.antt =====
-- When the derived status of a room is active, over the broker's own routes.
use telegent.Base.{
  Text, Bool-cases, all, ℕ, ◌≡◌, refl, sym, ◌∙◌, ◌≢◌, ◌↔◌, inl, inr, Bool, true, false, ◌&&◌,
  Option, none, some, List, [], ◌∷◌,
}
use telegent.Base.Maps.{lookup}
use telegent.Protocol.Types.{RoomStatus, open_room, closed_room}
use telegent.Tunnel.Protocol.{RouteStatus, RouteMetadata}
use telegent.Tunnel.Broker.{TunnelBroker, current_route, is_active}
use telegent.Tunnel.Operations.{blocks}
use telegent.Tunnel.Operations.Exclusive.{holds, current_route-holds}
use telegent.Platform.Status.{
  HostStatusSignal, RouteHealthSignal, HostAttendanceParticipant, derive_platform_status,
  status_and_reason, attendance_status, route_signal_from_metadata, required, is_attending, active,
}

attendance-active :
    (ps : List HostAttendanceParticipant)
    → ((attendance_status ps).0 ≡ active) ↔ ((ps ≢ []) × (all is_attending ps ≡ true))
unfolding attendance_status
attendance-active [] = (λ e. cc, λ h. absurd (h.0 refl))
attendance-active (p ∷ ps) = elim (Bool-cases (all is_attending (p ∷ ps))) [
  | inl yes_all ↦ rw yes_all (λ e. (λ n. cc, refl), λ h. refl)
  | inr not_all ↦ rw not_all (λ e. cc, λ h. cc)
]

abbrev reported : RouteStatus → Bool → RouteHealthSignal
reported st connected = record {
  registered = true;
  route_status = some st;
  host_connected = some connected;
}

abbrev hosted : RoomStatus → List HostAttendanceParticipant → HostStatusSignal
hosted room ps = record { room_status = room; participants = ps }

-- The table of the statuses: active needs an active and connected route, an open room, and attendance.
table :
    (st : RouteStatus) (connected : Bool) (room : RoomStatus) (ps : List HostAttendanceParticipant)
    → ((status_and_reason (reported st connected) (hosted room ps)).0 ≡ active) ↔ (
        (is_active st && connected ≡ true)
        × (room ≡ open_room)
        × ((attendance_status (required (hosted room ps))).0 ≡ active))
unfolding status_and_reason
table RouteStatus.active true open_room ps = (λ e. (refl, refl, e), λ h. h.2)
table RouteStatus.active true closed_room ps = (λ e. cc, λ h. cc)
table RouteStatus.active false open_room ps = (λ e. cc, λ h. cc)
table RouteStatus.active false closed_room ps = (λ e. cc, λ h. cc)
table RouteStatus.expired connected open_room ps = (λ e. cc, λ h. cc)
table RouteStatus.expired connected closed_room ps = (λ e. cc, λ h. cc)
table RouteStatus.closed connected room ps = (λ e. cc, λ h. cc)

silent :
    (room : RoomStatus) (ps : List HostAttendanceParticipant)
    → (status_and_reason (route_signal_from_metadata none) (hosted room ps)).0 ≢ active
unfolding status_and_reason route_signal_from_metadata
silent open_room ps e = cc
silent closed_room ps e = cc

active-blocks :
    (o : Option RouteMetadata) (host : HostStatusSignal)
    → ((status_and_reason (route_signal_from_metadata o) host).0 ≡ active) ↔ (
        (blocks o ≡ true)
        × (host.room_status ≡ open_room)
        × ((attendance_status (required host)).0 ≡ active))
unfolding status_and_reason route_signal_from_metadata
active-blocks none host = (λ e. absurd (silent host.room_status host.participants e), λ h. cc)
active-blocks (some r) host = table r.status r.host_connected host.room_status host.participants

-- From the broker's registry at `now`, a room is reported active exactly when its route holds its
-- slug (it is active, within its idle time and lifetime, and its host was seen within the grace
-- window), the host reports the room open, and the participants that must attend are some and all in
-- a foreground state.
pub active_iff :
    (now : ℕ) (slug : Text) (b : TunnelBroker) (host : HostStatusSignal)
    → let s =
        derive_platform_status (route_signal_from_metadata (current_route now slug b).0) host in
      (s.status ≡ active) ↔ (
        (holds b.config now (lookup slug b.routes) ≡ true)
        × (host.room_status ≡ open_room)
        × (required host ≢ [])
        × (all is_attending (required host) ≡ true))
unfolding derive_platform_status route_signal_from_metadata
active_iff now slug b host =
    let reported_active = active-blocks (current_route now slug b).0 host in
    let held = current_route-holds now slug b in
    let attended = attendance-active (required host) in
    (
      λ e. (
        sym held ∙ (reported_active.0 e).0,
        (reported_active.0 e).1,
        (attended.0 (reported_active.0 e).2).0,
        (attended.0 (reported_active.0 e).2).1,
      ),
      λ h. reported_active.1 (held ∙ h.0, h.1, attended.1 (h.2, h.3)),
    )
