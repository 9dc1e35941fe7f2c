-- ===== src/Emergency.antt =====
-- modules/emergency/emergency.service.ts: raising, locating and closing an SOS, and
-- `findUserOrgId` of modules/organization/organization.service.ts.
pub mod Placement
pub mod Start
pub mod Access
pub mod Refusals
use aalam_security_back.Common.{
  ℕ, Bool, true, false, Option, none, some, List, [], ◌∷◌, if◌then◌else◌, ◌==◌, holds, is_some,
  ◌&&◌, ◌||◌, not, leb,
}
use aalam_security_back.Schema.{
  EmergencySession, EmergencyLocation, EmergencyStatus, is_closed, is_assigned, closed,
}
use aalam_security_back.Presence.{is_open_assigned}
use aalam_security_back.Errors.{ErrorCode, no_details, forbidden, not_found, conflict}
use aalam_security_back.Services.{Services}
use aalam_security_back.World.{
  World, LockKey, M, ◌>>=◌, ◌>>◌, pure, throw, read, modify, skip, when, require, try_catch,
  catch_not_found, finally, update_session, draw_uuid,
}
use aalam_security_back.Cache.{acquire_lock, release_lock}
use aalam_security_back.Gateway.{
  emit_emergency_new, emit_location_update, emit_emergency_closed, emit_pool_removed,
}
use aalam_security_back.Gateway.Connect.{newest_first}
use aalam_security_back.Push.{send_sos_alert}
use aalam_security_back.Queries.{session_by_id, unclosed_by_id, Page, find_page}
use Placement.{Place, place}

abbrev pub sos_trigger_lock_ttl_seconds : ℕ
sos_trigger_lock_ttl_seconds = 30

-- `{ userId, status: { not: 'CLOSED' } }`
abbrev pub is_active_of : ℕ → EmergencySession → Bool
is_active_of user_id r = (r.user_id == user_id) && not (is_closed r.status)

abbrev pub new_session : ℕ → ℕ → Place → ℕ → EmergencySession
new_session id user_id at now = record {
  id = id;
  user_id = user_id;
  organization_id = at.organization_id;
  venue_id = at.venue_id;
  status = EmergencyStatus.new;
  emergency_type = at.emergency_type;
  assigned_operator_id = none;
  created_at = now;
  closed_at = none;
  resolution = none;
}

pub record CreateLocationDto : Type 0 where
  pub latitude : ℕ
  pub longitude : ℕ
  pub accuracy : ℕ

abbrev pub later_location : EmergencyLocation → EmergencyLocation → Bool
later_location a b = leb b.created_at a.created_at

abbrev pub head? : List EmergencyLocation → Option EmergencyLocation
head? [] = none
head? (l ∷ ls) = some l

abbrev pub close_by_user : ℕ → EmergencySession → EmergencySession
close_by_user now r = record r { status = closed; closed_at = some now }

-- `if (activeSession) return activeSession;`
abbrev pub or_create : Option EmergencySession → M EmergencySession → M EmergencySession
or_create (some session) create = pure session
or_create none create = create

unfoldable pub announce :
    ℕ → EmergencySession → Option EmergencyLocation → M (Option EmergencyLocation)
announce user_id session none = pure none
announce user_id session (some l) = do emit_location_update user_id session l; pure (some l)

module _ (s : Services) where
  unfoldable pub find_active : ℕ → M (Option EmergencySession)
  find_active user_id = read (λ w. s.find_first (is_active_of user_id) w.sessions)

  -- `emergencySession.create`, with the schema's defaults.
  unfoldable pub insert_session : ℕ → Place → M EmergencySession
  insert_session user_id at = do
    now ← read (λ w. w.now)
    id ← draw_uuid s
    modify (λ w. record w { sessions = new_session id user_id at now ∷ w.sessions })
    pure (new_session id user_id at now)

  -- The end of `startSessionLocked`: the row, the offer and the push.
  unfoldable pub create_session : ℕ → Place → M EmergencySession
  unfolding insert_session
  create_session user_id at = do
    session ← insert_session user_id at
    emit_emergency_new s session
    send_sos_alert s session.id
    pure session

  unfoldable pub start_session_locked : ℕ → Option ℕ → M EmergencySession
  unfolding find_active create_session
  start_session_locked user_id venue_id = do
    active ← find_active user_id
    or_create active (do at ← place s user_id venue_id; create_session user_id at)

  -- Another request of this user holds the lock.
  unfoldable pub in_flight_session : ℕ → M EmergencySession
  unfolding find_active
  in_flight_session user_id = do
    in_flight ← find_active user_id
    require in_flight (conflict ErrorCode.sos_in_progress no_details)

  -- `token` and `lockAvailable`
  unfoldable pub try_lock : ℕ → M (Option ℕ × Bool)
  try_lock user_id =
      try_catch
        (do
          token ← acquire_lock s (LockKey.sos_trigger user_id) sos_trigger_lock_ttl_seconds
          pure (token, true))
        (λ _. pure (none, false))

  unfoldable pub release : ℕ → Option ℕ → M (Unit {0})
  release user_id none = skip
  release user_id (some token) =
      try_catch (release_lock s (LockKey.sos_trigger user_id) token) (λ _. skip)

  unfoldable pub start_session : ℕ → Option ℕ → M EmergencySession
  unfolding start_session_locked in_flight_session try_lock release
  start_session user_id venue_id = do
    (token, lock_available) ← try_lock user_id
    if lock_available && not (is_some token)
        then in_flight_session user_id
        else finally (start_session_locked user_id venue_id) (release user_id token)

  -- The 404, 403 or 409 of the applicant's update that matched no row.
  refuse_own : {A : Type 0} → ℕ → ℕ → M A
  refuse_own session_id user_id = do
    found ← read (λ w. s.find_first (session_by_id session_id) w.sessions)
    existing ← require found (not_found ErrorCode.session_not_found no_details)
    when (not (existing.user_id == user_id))
        (throw (forbidden ErrorCode.not_your_session no_details))
    throw (conflict ErrorCode.session_already_closed no_details)

  -- The update with its nested insertion is one statement.
  unfoldable pub add_location : ℕ → ℕ → CreateLocationDto → M (Option EmergencyLocation)
  unfolding refuse_own announce
  add_location session_id user_id dto = do
    session ←
        catch_not_found
          (do
            updated ← update_session s (λ r. r.id == session_id && is_active_of user_id r) (λ r. r)
            id ← draw_uuid s
            modify (λ w. record w {
              locations =
                  record {
                    id = id;
                    session_id = session_id;
                    latitude = dto.latitude;
                    longitude = dto.longitude;
                    accuracy = dto.accuracy;
                    created_at = w.now;
                  }
                  ∷ w.locations;
            })
            pure updated)
          (refuse_own session_id user_id)
    newest ←
        read (λ w. s.find_page (λ l. l.session_id == session.id) later_location 0 1 w.locations)
    announce user_id session (head? newest)

  unfoldable pub close_session : ℕ → ℕ → M EmergencySession
  unfolding refuse_own
  close_session session_id user_id =
      catch_not_found
        (do
          now ← read (λ w. w.now)
          updated ←
              update_session s (λ r. r.id == session_id && is_active_of user_id r)
                (close_by_user now)
          emit_emergency_closed user_id updated none
          emit_pool_removed session_id
          pure updated)
        (refuse_own session_id user_id)

  unfoldable pub get_my_assigned_sessions : ℕ → ℕ → ℕ → M Page
  unfolding find_page
  get_my_assigned_sessions operator_id page limit =
      find_page s (λ r. is_open_assigned r.status && holds r.assigned_operator_id operator_id)
        newest_first page limit

  unfoldable pub get_operator_session : ℕ → ℕ → M EmergencySession
  get_operator_session session_id operator_id = do
    found ← read (λ w. s.find_first (session_by_id session_id) w.sessions)
    session ← require found (not_found ErrorCode.session_not_found no_details)
    when (not (holds session.assigned_operator_id operator_id))
        (throw (forbidden ErrorCode.not_assigned_to_session no_details))
    pure session

  unfoldable pub get_user_history : ℕ → ℕ → ℕ → M Page
  unfolding find_page
  get_user_history user_id page limit =
      find_page s (λ r. r.user_id == user_id) newest_first page limit
