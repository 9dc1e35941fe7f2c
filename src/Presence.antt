-- ===== src/Presence.antt =====
-- common/constants/operator-presence.ts: how fresh an operator's heartbeat is.
pub mod Decimal
use aalam_security_back.Common.{ℕ, ◌+◌, Bool, true, false, Option, none, some, List, [], ◌∷◌, ltb}
use aalam_security_back.Schema.{Text, EmergencyStatus, assigned, in_progress}
use Decimal.{parse_int}

abbrev pub heartbeat_ttl_seconds : ℕ
heartbeat_ttl_seconds = 300

abbrev pub online_threshold_ms : ℕ
online_threshold_ms = 35000

abbrev pub reclaim_assignment_threshold_ms : ℕ
reclaim_assignment_threshold_ms = 120000

abbrev pub shift_alive_threshold_ms : ℕ
shift_alive_threshold_ms = 180000

-- `{ in: OPEN_ASSIGNED_STATUSES }`
abbrev pub is_open_assigned : EmergencyStatus → Bool
is_open_assigned assigned = true
is_open_assigned in_progress = true
is_open_assigned _ = false

unfoldable pub parse_heartbeat : Option Text → Option ℕ
parse_heartbeat none = none
parse_heartbeat (some []) = none
parse_heartbeat (some (c ∷ cs)) = parse_int (c ∷ cs)

-- `Date.now() - ts < thresholdMs`, also for a mark ahead of the clock
abbrev pub is_recent : ℕ → ℕ → ℕ → Bool
is_recent now ts threshold_ms = ltb now (ts + threshold_ms)

unfoldable pub is_heartbeat_fresh : ℕ → Option Text → ℕ → Bool
is_heartbeat_fresh now raw threshold_ms = elim (parse_heartbeat raw) [
  | none ↦ false
  | some ts ↦ is_recent now ts threshold_ms
]
