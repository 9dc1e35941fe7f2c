-- ===== src/Dispatch/Outcomes.antt =====
-- What modules/dispatch/dispatch.service.ts answers, on every branch of its operations.
use aalam_security_back.Common.{
  ℕ, ◌≡◌, Bool, not, ◌&&◌, Option, none, some, arith, ◌==◌, ltb, any, is_some, if◌then◌else◌,
}
use aalam_security_back.Schema.{EmergencySession}
use aalam_security_back.Errors.{
  ErrorCode, Exception, open_sessions, session_status, no_details, forbidden, not_found, conflict,
}
use aalam_security_back.Services.{Services, Documented, computing, services-eq}
use aalam_security_back.Rows.{find, count}
use aalam_security_back.Rows.Counts.{any-eq-is_some-find}
use aalam_security_back.World.{World, raised, running}
use aalam_security_back.Gateway.Connect.{is_user_on_shift}
use aalam_security_back.Queries.{user_by_id, session_by_id, is_open_of, is_in_pool}
use aalam_security_back.Dispatch.{claim, refuse_claim, accept_session}

-- `{ id: sessionId, status: NEW, assignedOperatorId: null }`
abbrev pub is_offered : ℕ → EmergencySession → Bool
is_offered session_id r = r.id == session_id && is_in_pool r

-- Why a session that is not offered cannot be taken.
abbrev pub why_not_offered : Option EmergencySession → Exception
why_not_offered none = not_found ErrorCode.session_not_found no_details
why_not_offered (some r) =
    if is_some r.assigned_operator_id
    then conflict ErrorCode.session_already_claimed no_details
    else conflict ErrorCode.session_wrong_status (session_status r.status)

-- The contract of `acceptSession`.
abbrev pub accept_refusal : ℕ → ℕ → World → Option Exception
accept_refusal session_id operator_id w =
    let open_calls = count (is_open_of operator_id) w.sessions in
    if not (is_user_on_shift (find (user_by_id operator_id) w.users))
    then some (forbidden ErrorCode.not_on_shift no_details)
    else if ltb 0 open_calls
    then some (conflict ErrorCode.operator_busy (open_sessions open_calls))
    else if any (is_offered session_id) w.sessions
    then none
    else some (why_not_offered (find (session_by_id session_id) w.sessions))

accept_computing :
    (s : Services) (session_id operator_id : ℕ) (w : World)
    → raised (accept_session (computing s) session_id operator_id w)
      ≡ accept_refusal session_id operator_id w
unfolding accept_session claim refuse_claim running
accept_computing s session_id operator_id w =
    ground (arith, any-eq-is_some-find (is_offered session_id) w.sessions)

-- An operator's acceptance succeeds exactly where its contract has no refusal: the operator is on
-- shift, leads no call, and the session is in the pool; each refusal has its own code, and they come
-- in this order: off shift, busy, unknown session, claimed by another, wrong status.
pub accept_session-raised :
    (s : Services) (d : Documented s) (session_id operator_id : ℕ) (w : World)
    → raised (accept_session s session_id operator_id w) ≡ accept_refusal session_id operator_id w
accept_session-raised s d = rw (services-eq d) (accept_computing s)
