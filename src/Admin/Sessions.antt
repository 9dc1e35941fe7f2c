-- ===== src/Admin/Sessions.antt =====
-- modules/admin/admin.service.ts: the administrator's view of the sessions, and the assignment,
-- reassignment, release and closing of a session.

use aalam_security_back.Common.{
  ℕ, Bool, true, false, Option, none, some, [], ◌∷◌, holds, is_some, ◌&&◌, not, ltb, leb, or_else,
}
use aalam_security_back.Schema.{
  Text, User, EmergencySession, EmergencyStatus, new, assigned, in_progress, closed, is_closed,
  is_operator,
}
use aalam_security_back.Errors.{
  ErrorCode, open_sessions, no_details, status_400, status_404, status_409, http_exception,
  bad_request, not_found, conflict,
}
use aalam_security_back.Services.{Services}
use aalam_security_back.World.{
  M, ◌>>=◌, ◌>>◌, pure, throw, read, when, require, catch_not_found, transaction, update_session,
}
use aalam_security_back.Gateway.{
  emit_emergency_assigned, emit_emergency_closed, emit_emergency_reassigned, emit_pool_removed,
  emit_pool_returned,
}
use aalam_security_back.Gateway.Connect.{newest_first}
use aalam_security_back.Push.{send_assignment_to_operator}
use aalam_security_back.Queries.{
  user_by_id, session_by_id, unclosed_by_id, is_open_of, assign_to, return_to_pool, Page, find_page,
  lock_operator_row,
}

pub record EmergenciesQuery : Type 0 where
  pub status : Option EmergencyStatus
  pub organization_id : Option ℕ
  pub assigned : Option Bool
  pub from : Option ℕ
  pub to : Option ℕ
  pub page : ℕ
  pub limit : ℕ

abbrev pub status_eq : EmergencyStatus → EmergencyStatus → Bool
status_eq new new = true
status_eq assigned assigned = true
status_eq in_progress in_progress = true
status_eq closed closed = true
status_eq _ _ = false

-- The `where` that the query builds: a filter that is not given accepts every row.
abbrev pub has_status : Option EmergencyStatus → EmergencyStatus → Bool
has_status none status = true
has_status (some wanted) status = status_eq status wanted

abbrev pub in_organization : Option ℕ → Option ℕ → Bool
in_organization none id = true
in_organization (some wanted) id = holds id wanted

abbrev pub has_assignee : Option Bool → Option ℕ → Bool
has_assignee none id = true
has_assignee (some true) id = is_some id
has_assignee (some false) id = not (is_some id)

abbrev pub not_before : Option ℕ → ℕ → Bool
not_before none at = true
not_before (some from) at = leb from at

abbrev pub not_after : Option ℕ → ℕ → Bool
not_after none at = true
not_after (some to) at = leb at to

unfoldable pub matches_query : EmergenciesQuery → EmergencySession → Bool
matches_query q r =
    has_status q.status r.status
    && (in_organization q.organization_id r.organization_id
        && (has_assignee q.assigned r.assigned_operator_id
            && (not_before q.from r.created_at && not_after q.to r.created_at)))

-- "Closed by admin", the resolution where none is given.
abbrev pub closed_by_admin : Text
closed_by_admin =
    b'C' ∷ b'l' ∷ b'o' ∷ b's' ∷ b'e' ∷ b'd' ∷ 32 ∷ b'b' ∷ b'y' ∷ 32 ∷ b'a' ∷ b'd' ∷ b'm' ∷ b'i'
    ∷ b'n' ∷ []

abbrev pub close_by_admin : ℕ → Option Text → EmergencySession → EmergencySession
close_by_admin now resolution r = record r {
  status = closed;
  closed_at = some now;
  resolution = some (or_else resolution closed_by_admin);
  assigned_operator_id = none;
}

-- `before?.assignedOperatorId`
abbrev pub assignee_before : Option EmergencySession → Option ℕ
assignee_before none = none
assignee_before (some r) = r.assigned_operator_id

unfoldable pub is_live_operator : User → Bool
is_live_operator u = is_operator u.role && not (is_some u.deleted_at)

-- `{ id, status: { not: 'CLOSED' }, assignedOperatorId: null }`
abbrev pub is_free_unclosed : ℕ → EmergencySession → Bool
is_free_unclosed session_id r = unclosed_by_id session_id r && not (is_some r.assigned_operator_id)

-- `{ id, status: { not: 'CLOSED' }, assignedOperatorId: { not: operatorId } }`; that `not` is the
-- SQL `<>`, which no null satisfies.
abbrev pub is_held_by_another : ℕ → ℕ → EmergencySession → Bool
is_held_by_another session_id operator_id r =
    unclosed_by_id session_id r
    && (is_some r.assigned_operator_id && not (holds r.assigned_operator_id operator_id))

module _ (s : Services) where
  unfoldable pub get_emergencies : EmergenciesQuery → M Page
  unfolding matches_query find_page
  get_emergencies q = find_page s (matches_query q) newest_first q.page q.limit

  unfoldable pub get_emergency_by_id : ℕ → M EmergencySession
  get_emergency_by_id id = do
    found ← read (λ w. s.find_first (session_by_id id) w.sessions)
    require found (http_exception status_404)

  find_session : ℕ → M (Option EmergencySession)
  find_session id = read (λ w. s.find_first (session_by_id id) w.sessions)

  unfoldable pub assert_operator_can_take_session : ℕ → M (Unit {0})
  assert_operator_can_take_session operator_id = do
    lock_operator_row operator_id
    found ← read (λ w. s.find_first (user_by_id operator_id) w.users)
    operator ← require found (bad_request ErrorCode.not_an_operator no_details)
    when (not (is_live_operator operator))
        (throw (bad_request ErrorCode.not_an_operator no_details))
    when (not operator.on_shift) (throw (conflict ErrorCode.not_on_shift no_details))
    count ← read (λ w. s.count_rows (is_open_of operator_id) w.sessions)
    when (ltb 0 count) (throw (conflict ErrorCode.operator_busy (open_sessions count)))

  -- The transaction of `assignSession`.
  unfoldable pub take_free : ℕ → ℕ → M EmergencySession
  unfolding assert_operator_can_take_session
  take_free session_id operator_id = do
    assert_operator_can_take_session operator_id
    update_session s (is_free_unclosed session_id) (assign_to operator_id)

  -- The transaction of `reassignSession`.
  unfoldable pub take_over : ℕ → ℕ → M EmergencySession
  unfolding assert_operator_can_take_session
  take_over session_id operator_id = do
    assert_operator_can_take_session operator_id
    update_session s (is_held_by_another session_id operator_id) (assign_to operator_id)

  refuse_assign : ℕ → M EmergencySession
  unfolding find_session
  refuse_assign session_id = do
    found ← find_session session_id
    existing ← require found (not_found ErrorCode.session_not_found no_details)
    when (is_closed existing.status) (throw (conflict ErrorCode.session_already_closed no_details))
    throw (conflict ErrorCode.session_already_claimed no_details)

  unfoldable pub assign_session : ℕ → ℕ → M EmergencySession
  unfolding take_free refuse_assign
  assign_session session_id operator_id =
      catch_not_found
        (do
          updated ← transaction (take_free session_id operator_id)
          emit_emergency_assigned updated.user_id updated
          emit_pool_removed session_id
          send_assignment_to_operator s session_id operator_id
          pure updated)
        (refuse_assign session_id)

  refuse_reassign : ℕ → ℕ → M EmergencySession
  unfolding find_session
  refuse_reassign session_id operator_id = do
    found ← find_session session_id
    existing ← require found (http_exception status_404)
    when (is_closed existing.status) (throw (http_exception status_409))
    when (holds existing.assigned_operator_id operator_id) (throw (http_exception status_400))
    throw (http_exception status_409)

  unfoldable pub reassign_session : ℕ → ℕ → M EmergencySession
  unfolding find_session take_over refuse_reassign
  reassign_session session_id operator_id = do
    before ← find_session session_id
    catch_not_found
        (do
          updated ← transaction (take_over session_id operator_id)
          emit_emergency_reassigned updated (assignee_before before)
          send_assignment_to_operator s session_id operator_id
          pure updated)
        (refuse_reassign session_id operator_id)

  -- The 404 or 409 where no unclosed session has the id.
  refuse_unclosed : ℕ → M EmergencySession
  unfolding find_session
  refuse_unclosed session_id = do
    found ← find_session session_id
    existing ← require found (http_exception status_404)
    throw (http_exception status_409)

  unfoldable pub unassign_session : ℕ → M EmergencySession
  unfolding find_session refuse_unclosed
  unassign_session session_id = do
    before ← find_session session_id
    catch_not_found
        (do
          updated ← update_session s (unclosed_by_id session_id) return_to_pool
          emit_emergency_reassigned updated (assignee_before before)
          emit_pool_returned s updated false
          pure updated)
        (refuse_unclosed session_id)

  unfoldable pub close_session_admin : ℕ → Option Text → M EmergencySession
  unfolding find_session refuse_unclosed
  close_session_admin session_id resolution = do
    before ← find_session session_id
    catch_not_found
        (do
          now ← read (λ w. w.now)
          updated ← update_session s (unclosed_by_id session_id) (close_by_admin now resolution)
          emit_emergency_closed updated.user_id updated (assignee_before before)
          emit_pool_removed session_id
          pure updated)
        (refuse_unclosed session_id)
