-- ===== src/Dispatch/Progress.antt =====
-- What an operator is answered who starts on a call or resolves it, in
-- modules/dispatch/dispatch.service.ts.
use aalam_security_back.Common.{
  ℕ, ◌≡◌, Bool, not, ◌&&◌, Option, none, some, arith, ◌==◌, any, holds, if◌then◌else◌,
}
use aalam_security_back.Schema.{Text, EmergencySession, is_assigned, is_closed}
use aalam_security_back.Errors.{
  ErrorCode, Exception, session_status, no_details, forbidden, not_found, conflict,
}
use aalam_security_back.Services.{Services, Documented, computing, services-eq}
use aalam_security_back.Rows.{find}
use aalam_security_back.Rows.Counts.{any-eq-is_some-find}
use aalam_security_back.World.{World, raised, running}
use aalam_security_back.Queries.{session_by_id}
use aalam_security_back.Dispatch.{refuse_update, start_progress, resolve_session}

-- The refusal of an operator's update: by the session's absence, by its leader, or by its state.
abbrev pub why_not_mine : ℕ → (EmergencySession → Exception) → Option EmergencySession → Exception
why_not_mine operator_id otherwise none = not_found ErrorCode.session_not_found no_details
why_not_mine operator_id otherwise (some r) =
    if holds r.assigned_operator_id operator_id
    then otherwise r
    else forbidden ErrorCode.not_assigned_to_session no_details

abbrev pub is_awaiting : ℕ → ℕ → EmergencySession → Bool
is_awaiting session_id operator_id r =
    r.id == session_id && is_assigned r.status && holds r.assigned_operator_id operator_id

abbrev pub is_led_unclosed : ℕ → ℕ → EmergencySession → Bool
is_led_unclosed session_id operator_id r =
    r.id == session_id && not (is_closed r.status) && holds r.assigned_operator_id operator_id

progress_computing :
    (s : Services) (session_id operator_id : ℕ) (w : World)
    → raised (start_progress (computing s) session_id operator_id w) ≡ (
        if any (is_awaiting session_id operator_id) w.sessions
        then none
        else some (
            why_not_mine operator_id
              (λ r. conflict ErrorCode.session_wrong_status (session_status r.status))
              (find (session_by_id session_id) w.sessions)))
unfolding start_progress refuse_update running
progress_computing s session_id operator_id w =
    ground (arith, any-eq-is_some-find (is_awaiting session_id operator_id) w.sessions)

-- An operator starts on a call exactly where it is ASSIGNED to this operator; otherwise the answer
-- tells an unknown session, another operator's, and a wrong status apart, in this order.
pub start_progress-raised :
    (s : Services) (d : Documented s) (session_id operator_id : ℕ) (w : World)
    → raised (start_progress s session_id operator_id w) ≡ (
        if any (is_awaiting session_id operator_id) w.sessions
        then none
        else some (
            why_not_mine operator_id
              (λ r. conflict ErrorCode.session_wrong_status (session_status r.status))
              (find (session_by_id session_id) w.sessions)))
start_progress-raised s d = rw (services-eq d) (progress_computing s)

resolve_computing :
    (s : Services) (session_id operator_id : ℕ) (resolution : Text) (w : World)
    → raised (resolve_session (computing s) session_id operator_id resolution w) ≡ (
        if any (is_led_unclosed session_id operator_id) w.sessions
        then none
        else some (
            why_not_mine operator_id
              (λ r. conflict ErrorCode.session_already_closed no_details)
              (find (session_by_id session_id) w.sessions)))
unfolding resolve_session refuse_update running
resolve_computing s session_id operator_id resolution w =
    ground (arith, any-eq-is_some-find (is_led_unclosed session_id operator_id) w.sessions)

-- An operator resolves a call exactly where this operator leads it and it is not closed; otherwise
-- the answer tells an unknown session, another operator's, and a closed one apart, in this order.
pub resolve_session-raised :
    (s : Services) (d : Documented s) (session_id operator_id : ℕ) (resolution : Text) (w : World)
    → raised (resolve_session s session_id operator_id resolution w) ≡ (
        if any (is_led_unclosed session_id operator_id) w.sessions
        then none
        else some (
            why_not_mine operator_id
              (λ r. conflict ErrorCode.session_already_closed no_details)
              (find (session_by_id session_id) w.sessions)))
resolve_session-raised s d = rw (services-eq d) (resolve_computing s)
