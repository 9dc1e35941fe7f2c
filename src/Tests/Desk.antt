-- ===== src/Tests/Desk.antt =====
-- The desk's theorems at a small desk.
use mathlib.Core.List.Memᴰ.{head, tail}
use aalam_security_back.Common.{ℕ, ◌≤◌, ◌≡◌, refl, false, none, some, List, [], ◌∷◌, arith}
use aalam_security_back.Errors.{ErrorCode, no_details, conflict, open_sessions, forbidden}
use aalam_security_back.World.{World, LockKey, after, result, raised, running}
use aalam_security_back.System.{desk, Reach}
use aalam_security_back.System.Invariant.{Inv}
use aalam_security_back.System.Evolution.{Later}
use aalam_security_back.System.Calls.{
  Call, begin_shift, raise_sos, accept, progress, wait, stale_job, set_redis, history,
}
use aalam_security_back.System.Histories.{history-Reached}
use aalam_security_back.System.Safety.{history-Inv, history-Later}
use aalam_security_back.Dispatch.{accept_session, claim, end_shift}
use aalam_security_back.Dispatch.Outcomes.{accept_session-raised}
use aalam_security_back.Dispatch.Exclusion.{accept_session-exclusive}
use aalam_security_back.Dispatch.Shifts.{end_shift-raised}
use aalam_security_back.Emergency.{start_session}
use aalam_security_back.Emergency.Placement.{place}
use aalam_security_back.Emergency.Start.{start_session-active}
use aalam_security_back.Emergency.Refusals.{start_refusal, start_session-raised}
use aalam_security_back.Emergency.Access.{place-raised}
use aalam_security_back.Schema.{EmergencySession, EmergencyStatus}
use aalam_security_back.Rows.{count}
use aalam_security_back.Presence.{is_heartbeat_fresh, parse_heartbeat}
use aalam_security_back.Queries.{session_by_id}
use aalam_security_back.Cron.{check_stale_assignments}
use aalam_security_back.Cron.Stale.{check_stale_assignments-settle}
use aalam_security_back.Tests.Fixtures.{
  auth, services, documented, night, sos, ended, alarm, busy, client,
}

abbrev shift : List Call
shift =
    raise_sos 3 none
    ∷ accept 11 1
    ∷ wait 5000
    ∷ set_redis false
    ∷ progress 11 1
    ∷ stale_job
    ∷ begin_shift 2
    ∷ []

quiet : Inv services.uuid (desk night)
quiet = record {
  consistent = record {
    one_open = λ o. omega arith;
    on_duty = λ o h. absurd (omega arith);
    shaped = tt;
  };
  numbered = tt;
  distinct = tt;
}

history-Inv_example : Inv services.uuid (desk (history services auth shift night))
history-Inv_example = history-Inv services documented auth shift night quiet

history-Later_example : Later ended (history services auth shift alarm).sessions
history-Later_example = history-Later services documented auth shift alarm ended (tail (head refl))

history-Reached_example :
    Reach services.uuid (desk alarm) (desk (history services auth shift alarm))
history-Reached_example = history-Reached services documented auth shift alarm

first_wins : raised (accept_session services 7 1 alarm) ≡ none
unfolding accept_session claim running
first_wins = refl

accept_session-exclusive_example :
    raised (accept_session services 7 2 (after (accept_session services 7 1 alarm)))
    ≡ some (conflict ErrorCode.session_already_claimed no_details)
accept_session-exclusive_example =
    accept_session-exclusive services documented 7 1 2 alarm first_wins
      (λ e. absurd (omega (arith, e))) (omega arith) refl refl

accept_session-raised_example :
    raised (accept_session services 8 1 busy)
    ≡ some (conflict ErrorCode.operator_busy (open_sessions 1))
accept_session-raised_example = accept_session-raised services documented 8 1 busy

end_shift-raised_example :
    raised (end_shift services 1 busy)
    ≡ some (conflict ErrorCode.shift_has_open_sessions (open_sessions 1))
end_shift-raised_example = end_shift-raised services documented 1 busy

start_session-active_example :
    (result (start_session services 3 none alarm) ≡ some sos)
    × ((after (start_session services 3 none alarm)).sessions ≡ sos ∷ ended ∷ [])
start_session-active_example = start_session-active services documented 3 none sos alarm refl

abbrev offline : World
offline = record night { redis_up = false }

start_session-raised_example :
    raised (start_session services 3 none offline) ≡ start_refusal 3 none offline
start_session-raised_example = start_session-raised services documented 3 none offline

abbrev in_flight : World
in_flight = record night {
  locks = record { key = LockKey.sos_trigger 3; value = 9; expires = 20000 } ∷ [];
}

place-raised_example :
    raised (place services 3 (some 5) night)
    ≡ some (forbidden ErrorCode.venue_bind_required no_details)
place-raised_example = place-raised services documented 3 (some 5) night

-- Operator 2 leads another call, and is connected.
abbrev other : EmergencySession
other = record sos { id = 8; status = EmergencyStatus.assigned; assigned_operator_id = some 2 }

abbrev two_led : World
two_led = record night {
  sessions =
      other ∷ record sos { status = EmergencyStatus.assigned; assigned_operator_id = some 1 } ∷ [];
  sockets = record client { user_id = 2 } ∷ [];
}

two_distinct : (id : ℕ) → count (session_by_id id) two_led.sessions ≤ 1
two_distinct id = ground arith

check_stale_assignments-settle_example :
    (after (check_stale_assignments services two_led)).sessions ≡ other ∷ sos ∷ []
unfolding is_heartbeat_fresh parse_heartbeat
check_stale_assignments-settle_example =
    check_stale_assignments-settle services documented two_led two_distinct
