-- ===== src/Protocol/Attendance.antt =====
-- src/protocol/attendance.ts: the names of the attendance policies.
use telegent.Base.{Text, codes, text_eq, if◌then◌else◌, Option, none, some, List, [], ◌∷◌}
use telegent.Protocol.Types.{
  AttendancePolicy, manual_ok, agents_foreground, all_foreground, host_directed,
}

abbrev pub attendance_policies : List (Text × AttendancePolicy)
attendance_policies =
    (codes "manual-ok", manual_ok)
    ∷ (codes "agents-foreground", agents_foreground)
    ∷ (codes "all-foreground", all_foreground)
    ∷ (codes "host-directed", host_directed)
    ∷ []

abbrev pub policy_named : Text → List (Text × AttendancePolicy) → Option AttendancePolicy
policy_named s [] = none
policy_named s ((name, p) ∷ policies) = if text_eq s name then some p else policy_named s policies

-- None where the source throws.
unfoldable pub parse_attendance_policy : Text → Option AttendancePolicy
parse_attendance_policy s = policy_named s attendance_policies

abbrev pub describe_attendance_policy : AttendancePolicy → Text
describe_attendance_policy manual_ok = codes "Manual/drop-in participation is allowed."
describe_attendance_policy agents_foreground =
    codes "Agent participants should run foreground attendance until the room closes."
describe_attendance_policy all_foreground =
    codes "All agent participants are expected to stay in foreground attendance until released."
describe_attendance_policy host_directed =
    codes
      "Participants may start manual/standby and switch to foreground when the host asks; fully idle agents will not see that request."
