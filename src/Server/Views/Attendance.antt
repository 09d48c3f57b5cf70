-- ===== src/Server/Views/Attendance.antt =====
-- What the status of a room shows of its participants.
use telegent.Base.{
  ltb, Bool-cases, All, ℕ, ◌+◌, ◌-◌, ◌≤◌, ◌≡◌, refl, sym, ap, ◌∙◌, inl, inr, Bool, true, false, not,
  ◌&&◌, none, List, [], ◌∷◌, map, arith,
}
use telegent.Protocol.Types.{Participant, ParticipantAttention, AttendancePolicy}
use telegent.Storage.BoardroomStore.{BoardroomFiles}
use telegent.Server.Views.{
  PublicParticipant, shown, attendance_state_of, is_foreground, is_foreground_required,
  public_participant, get_status, attendance_stale_after_ms,
}

-- No hash of a token; a foreground state only within 90 seconds of the last sign of life; and of one who
-- must attend, only a foreground state.
abbrev pub IsShown : ℕ → PublicParticipant → Type 0
IsShown now v =
    (v.participant.token_hash ≡ none)
    × ((a : ParticipantAttention)
        → v.attendance_state ≡ shown a
        → is_foreground a ≡ true
        → now ≤ v.participant.last_seen_at + 90000)
    × ((a : ParticipantAttention)
        → v.attendance_state ≡ shown a
        → v.attendance_required ≡ true
        → is_foreground a ≡ true)

attendance_state_of-shown :
    (required : Bool) (age : ℕ) (attention a : ParticipantAttention)
    → attendance_state_of required age attention ≡ shown a
    → (attention ≡ a)
      × ((required && not (is_foreground attention)) ≡ false)
      × ((is_foreground attention && ltb attendance_stale_after_ms age) ≡ false)
attendance_state_of-shown required age attention a e =
    elim (Bool-cases (required && not (is_foreground attention))) [
      | inl missing ↦ let other : _ = rw missing at e in cc
      | inr there ↦
          elim (Bool-cases (is_foreground attention && ltb attendance_stale_after_ms age)) [
            | inl old ↦ let other : _ = rw old at (rw there at e) in cc
            | inr fresh ↦
                let same : shown attention ≡ shown a = rw fresh at (rw there at e) in
                (cc, there, fresh)
          ]
    ]

public_participant-IsShown :
    (policy : AttendancePolicy) (now : ℕ) (p : Participant)
    → IsShown now (public_participant policy now p)
unfolding public_participant
public_participant-IsShown policy now p = (
  refl,
  λ a e fore.
      let h : _ =
        attendance_state_of-shown (is_foreground_required policy p) (now - p.last_seen_at)
          p.attention a e in
      let lit : is_foreground p.attention ≡ true = ap is_foreground h.0 ∙ fore in
      ground (arith, h.2, lit),
  λ a e must.
      let h : _ =
        attendance_state_of-shown (is_foreground_required policy p) (now - p.last_seen_at)
          p.attention a e in
      let lit : is_foreground p.attention ≡ true = ground (arith, h.1, must) in
      ap is_foreground (sym h.0) ∙ lit,
)

public_participants-All :
    (policy : AttendancePolicy) (now : ℕ) (ps : List Participant)
    → All (λ v. IsShown now v) (map (λ q. public_participant policy now q) ps)
public_participants-All policy now [] = tt
public_participants-All policy now (p ∷ ps) =
    (public_participant-IsShown policy now p, public_participants-All policy now ps)

-- The status of a room shows no hash of a token, shows a participant as attending or managed only within
-- 90 seconds of its last sign of life, and one that must attend not as anything else but stale or
-- not attending.
pub get_status-IsShown :
    (now : ℕ) (p : Participant) (f : BoardroomFiles)
    → All (λ v. IsShown now v) (get_status now p f).participants
unfolding get_status
get_status-IsShown now p f =
    public_participants-All f.room.state.attendance_policy now f.room.participants
