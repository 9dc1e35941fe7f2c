-- ===== src/Dispatch.antt =====
-- modules/dispatch/dispatch.service.ts: the operator's shift, the pool and the calls.
pub mod Outcomes
pub mod Exclusion
pub mod Shifts
pub mod Progress
use aalam_security_back.Common.{
  ℕ, Bool, true, false, Option, none, some, List, [], ◌∷◌, if◌then◌else◌, ◌==◌, holds, is_some,
  ◌&&◌, ◌||◌, not, ltb, any, leb,
}
use aalam_security_back.Schema.{
  Text, User, EmergencySession, EmergencyStatus, is_assigned, is_closed, is_new, in_progress,
  closed,
}
use aalam_security_back.Presence.{is_open_assigned}
use aalam_security_back.Errors.{
  ErrorCode, open_sessions, session_status, no_details, Exception, status_404, http_exception,
  forbidden, not_found, conflict,
}
use aalam_security_back.Services.{Services}
use aalam_security_back.World.{
  World, M, ◌>>=◌, ◌>>◌, pure, throw, read, skip, when, require, catch_not_found, transaction,
  update_session, update_user, update_users,
}
use aalam_security_back.Cache.{set_operator_heartbeat}
use aalam_security_back.Gateway.{
  set_operator_shift_room, emit_emergency_assigned, emit_pool_removed, emit_emergency_in_progress,
  emit_emergency_closed,
}
use aalam_security_back.Gateway.Connect.{newest_first, is_user_on_shift}
use aalam_security_back.Queries.{
  user_by_id, session_by_id, is_open_of, is_in_pool, oldest_first, assign_to, end_shift_of, Page,
  lock_operator_row, find_page,
}

pub record Shift : Type 0 where
  pub on_shift : Bool
  pub shift_started_at : Option ℕ
  pub active_session_count : ℕ

abbrev pub start_shift_of : ℕ → User → User
start_shift_of now u = record u { on_shift = true; shift_started_at = some now }

abbrev pub resolve : ℕ → Text → EmergencySession → EmergencySession
resolve now resolution r = record r {
  status = closed;
  closed_at = some now;
  resolution = some resolution;
}

module _ (s : Services) where
  count_open_assigned : ℕ → M ℕ
  count_open_assigned operator_id = read (λ w. s.count_rows (is_open_of operator_id) w.sessions)

  -- The 404, 403 or 409 of an operator's update that matched no row.
  refuse_update : ℕ → ℕ → (EmergencySession → Exception) → M EmergencySession
  refuse_update session_id operator_id otherwise = do
    found ← read (λ w. s.find_first (session_by_id session_id) w.sessions)
    session ← require found (not_found ErrorCode.session_not_found no_details)
    when (not (holds session.assigned_operator_id operator_id))
        (throw (forbidden ErrorCode.not_assigned_to_session no_details))
    throw (otherwise session)

  unfoldable pub start_progress : ℕ → ℕ → M EmergencySession
  unfolding refuse_update
  start_progress session_id operator_id =
      catch_not_found
        (do
          updated ←
              update_session s
                (λ r.
                  r.id == session_id
                  && is_assigned r.status
                  && holds r.assigned_operator_id operator_id)
                (λ r. record r { status = in_progress })
          emit_emergency_in_progress updated.user_id updated
          pure updated)
        (refuse_update session_id operator_id
          (λ r. conflict ErrorCode.session_wrong_status (session_status r.status)))

  unfoldable pub resolve_session : ℕ → ℕ → Text → M EmergencySession
  unfolding refuse_update
  resolve_session session_id operator_id resolution =
      catch_not_found
        (do
          now ← read (λ w. w.now)
          updated ←
              update_session s
                (λ r.
                  r.id == session_id
                  && not (is_closed r.status)
                  && holds r.assigned_operator_id operator_id)
                (resolve now resolution)
          emit_emergency_closed updated.user_id updated none
          emit_pool_removed session_id
          pure updated)
        (refuse_update session_id operator_id
          (λ r. conflict ErrorCode.session_already_closed no_details))

  unfoldable pub get_operator_history : ℕ → ℕ → ℕ → M Page
  unfolding find_page
  get_operator_history operator_id page limit =
      find_page s (λ r. holds r.assigned_operator_id operator_id) newest_first page limit

  unfoldable pub heartbeat : ℕ → M (Unit {0})
  heartbeat operator_id = set_operator_heartbeat s operator_id

  unfoldable pub get_shift : ℕ → M Shift
  unfolding count_open_assigned
  get_shift operator_id = do
    found ← read (λ w. s.find_first (user_by_id operator_id) w.users)
    active ← count_open_assigned operator_id
    u ← require found (http_exception status_404)
    pure (record {
      on_shift = u.on_shift;
      shift_started_at = u.shift_started_at;
      active_session_count = active;
    })

  -- `findUniqueOrThrow` raises P2025 where there is no such user.
  unfoldable pub start_shift : ℕ → M Shift
  start_shift operator_id = do
    now ← read (λ w. w.now)
    update_users s (λ u. u.id == operator_id && not u.on_shift) (start_shift_of now)
    found ← read (λ w. s.find_first (user_by_id operator_id) w.users)
    u ← require found Exception.row_not_found
    set_operator_heartbeat s operator_id
    set_operator_shift_room s operator_id true
    pure (record {
      on_shift = u.on_shift;
      shift_started_at = u.shift_started_at;
      active_session_count = 0;
    })

  -- The transaction of `endShift`: the condition on the calls stands in the update's `where`.
  unfoldable pub leave_shift : ℕ → M ℕ
  leave_shift operator_id = do
    lock_operator_row operator_id
    open_now ← read (λ w. w.sessions)
    update_users s (λ u. u.id == operator_id && not (any (is_open_of u.id) open_now)) end_shift_of

  unfoldable pub end_shift : ℕ → M Shift
  unfolding count_open_assigned leave_shift
  end_shift operator_id = do
    count ← transaction (leave_shift operator_id)
    when (count == 0) (do
      active ← count_open_assigned operator_id
      throw (conflict ErrorCode.shift_has_open_sessions (open_sessions active)))
    set_operator_shift_room s operator_id false
    pure (record { on_shift = false; shift_started_at = none; active_session_count = 0 })

  -- Nothing off shift, nor while a call of one's own is open.
  unfoldable pub get_pool : ℕ → ℕ → ℕ → M Page
  unfolding count_open_assigned find_page
  get_pool operator_id page limit = do
    found ← read (λ w. s.find_first (user_by_id operator_id) w.users)
    open_assigned ← count_open_assigned operator_id
    if not (is_user_on_shift found) || ltb 0 open_assigned
        then pure (record { rows = []; total = 0; page = page; limit = limit })
        else find_page s is_in_pool oldest_first page limit

  -- The transaction of `acceptSession`.
  unfoldable pub claim : ℕ → ℕ → M EmergencySession
  claim session_id operator_id = do
    lock_operator_row operator_id
    found ← read (λ w. s.find_first (user_by_id operator_id) w.users)
    when (not (is_user_on_shift found)) (throw (forbidden ErrorCode.not_on_shift no_details))
    open_assigned ← read (λ w. s.count_rows (is_open_of operator_id) w.sessions)
    when (ltb 0 open_assigned)
        (throw (conflict ErrorCode.operator_busy (open_sessions open_assigned)))
    update_session s (λ r. r.id == session_id && is_in_pool r) (assign_to operator_id)

  refuse_claim : ℕ → M EmergencySession
  refuse_claim session_id = do
    found ← read (λ w. s.find_first (session_by_id session_id) w.sessions)
    session ← require found (not_found ErrorCode.session_not_found no_details)
    when (is_some session.assigned_operator_id)
        (throw (conflict ErrorCode.session_already_claimed no_details))
    throw (conflict ErrorCode.session_wrong_status (session_status session.status))

  unfoldable pub accept_session : ℕ → ℕ → M EmergencySession
  unfolding claim refuse_claim
  accept_session session_id operator_id =
      catch_not_found
        (do
          updated ← transaction (claim session_id operator_id)
          emit_emergency_assigned updated.user_id updated
          emit_pool_removed session_id
          pure updated)
        (refuse_claim session_id)
