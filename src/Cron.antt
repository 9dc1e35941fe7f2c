-- ===== src/Cron.antt =====
-- modules/cron/cron.service.ts: stale assignments, dead shifts, expired tokens and subscriptions.
pub mod Reclaim
pub mod Settled
pub mod Sockets
pub mod Stale
use aalam_security_back.Common.{
  ℕ, Bool, true, false, Option, none, some, List, [], ◌∷◌, if◌then◌else◌, ◌==◌, holds, is_some,
  ◌&&◌, not, any, keep, ltb,
}
use aalam_security_back.Schema.{User, EmergencySession, is_assigned, is_operator}
use aalam_security_back.Presence.{
  is_heartbeat_fresh, is_recent, reclaim_assignment_threshold_ms, shift_alive_threshold_ms,
}
use aalam_security_back.Errors.{is_prisma_row_not_found}
use aalam_security_back.Services.{Services}
use aalam_security_back.World.{
  World, LockKey, ShiftEndReason, M, ◌>>=◌, ◌>>◌, pure, throw, read, skip, when, try_catch,
  catch_not_found, finally, transaction, update_session, update_users,
}
use aalam_security_back.Cache.{
  acquire_lock, release_lock, set_operator_heartbeat, get_operator_heartbeat,
  get_operator_heartbeats, lookup_mark,
}
use aalam_security_back.Gateway.{
  emit_emergency_reassigned, emit_pool_returned, emit_shift_ended, set_operator_shift_room,
  get_connected_on_shift_operator_ids,
}
use aalam_security_back.Queries.{is_open_of, return_to_pool, end_shift_of, lock_operator_row}
use aalam_security_back.Tokens.{remove_expired}

abbrev pub stale_lock_ttl_seconds : ℕ
stale_lock_ttl_seconds = 45

abbrev pub subscription_lock_ttl_seconds : ℕ
subscription_lock_ttl_seconds = 300

-- `{ status: 'ASSIGNED', assignedOperatorId: { not: null } }`
abbrev pub is_reclaimable : EmergencySession → Bool
is_reclaimable r = is_assigned r.status && is_some r.assigned_operator_id

-- Silent for too long, or never heard of.
abbrev pub is_dead : ℕ → Option ℕ → Bool
is_dead now none = true
is_dead now (some ts) = not (is_recent now ts shift_alive_threshold_ms)

abbrev pub user_ids : List User → List ℕ
user_ids [] = []
user_ids (u ∷ us) = u.id ∷ user_ids us

-- `{ individualSubscriptionActive: true, subscriptionExpiresAt: { not: null, lt: now } }`
abbrev pub is_lapsed : ℕ → User → Bool
is_lapsed now u =
    u.individual_subscription_active
    && elim u.subscription_expires_at [ none ↦ false | some at ↦ ltb at now ]

abbrev pub without_subscription : User → User
without_subscription u = record u { individual_subscription_active = false }

module _ (s : Services) where
  -- `Promise.all` over the ids
  unfoldable pub set_heartbeats : List ℕ → M (Unit {0})
  set_heartbeats [] = skip
  set_heartbeats (id ∷ ids) = do set_operator_heartbeat s id; set_heartbeats ids

  unfoldable pub refresh_presence_from_sockets : M (Unit {0})
  unfolding set_heartbeats
  refresh_presence_from_sockets =
      try_catch (do ids ← get_connected_on_shift_operator_ids s; set_heartbeats ids) (λ _. skip)

  -- The conditional update, which lets a session alone that has moved on.
  unfoldable pub reclaim : ℕ → ℕ → M (Unit {0})
  reclaim session_id operator_id =
      catch_not_found
        (do
          updated ←
              update_session s
                (λ r.
                  r.id == session_id
                  && is_assigned r.status
                  && holds r.assigned_operator_id operator_id)
                return_to_pool
          emit_emergency_reassigned updated (some operator_id)
          emit_pool_returned s updated true)
        skip

  unfoldable pub check_session : ℕ → ℕ → M (Unit {0})
  unfolding reclaim
  check_session session_id operator_id =
      try_catch
        (do
          raw ← get_operator_heartbeat s operator_id
          now ← read (λ w. w.now)
          if is_heartbeat_fresh now raw reclaim_assignment_threshold_ms
              then skip
              else reclaim session_id operator_id)
        (λ _. skip)

  unfoldable pub check_sessions : List EmergencySession → M (Unit {0})
  check_sessions [] = skip
  check_sessions (r ∷ rs) =
      elim r.assigned_operator_id [ none ↦ skip | some id ↦ check_session r.id id ]
      >> check_sessions rs

  -- The transaction for one operator.
  unfoldable pub end_dead_shift : ℕ → M ℕ
  end_dead_shift id = do
    lock_operator_row id
    sessions ← read (λ w. w.sessions)
    update_users s (λ u. u.id == id && (u.on_shift && not (any (is_open_of u.id) sessions)))
        end_shift_of

  -- The result lists those whose shift was ended.
  unfoldable pub end_dead_shifts : List ℕ → M (List ℕ)
  unfolding end_dead_shift
  end_dead_shifts [] = pure []
  end_dead_shifts (id ∷ ids) = do
    count ← transaction (end_dead_shift id)
    ended ← end_dead_shifts ids
    pure (if ltb 0 count then id ∷ ended else ended)

  -- The event goes out before the operator leaves the room.
  unfoldable pub announce_ended : List ℕ → M (Unit {0})
  announce_ended [] = skip
  announce_ended (id ∷ ids) = do
    emit_shift_ended id ShiftEndReason.inactivity
    set_operator_shift_room s id false
    announce_ended ids

  unfoldable pub drop_dead_shifts : M (Unit {0})
  unfolding end_dead_shifts announce_ended
  drop_dead_shifts =
      try_catch
        (do
          sessions ← read (λ w. w.sessions)
          on_shift ← read (λ w.
              s.find_many
                (λ u. is_operator u.role && (u.on_shift && not (any (is_open_of u.id) sessions)))
                w.users)
          marks ← get_operator_heartbeats s (user_ids on_shift)
          now ← read (λ w. w.now)
          ended ←
              end_dead_shifts (keep (λ id. is_dead now (lookup_mark id marks)) (user_ids on_shift))
          announce_ended ended)
        (λ _. skip)

  -- The body under the lock.
  unfoldable pub run_stale_check : M (Unit {0})
  unfolding refresh_presence_from_sockets check_sessions check_session
  run_stale_check =
      try_catch
        (do
          refresh_presence_from_sockets
          stale ← read (λ w. s.find_many is_reclaimable w.sessions)
          check_sessions stale)
        (λ _. skip)

  unfoldable pub stale_check_with : Option ℕ → M (Unit {0})
  unfolding run_stale_check drop_dead_shifts
  stale_check_with none = skip
  stale_check_with (some token) =
      finally run_stale_check (do
        drop_dead_shifts
        try_catch (release_lock s LockKey.stale_assignments token) (λ _. skip))

  unfoldable pub check_stale_assignments : M (Unit {0})
  unfolding stale_check_with
  check_stale_assignments = do
    lock_token ←
        try_catch (acquire_lock s LockKey.stale_assignments stale_lock_ttl_seconds) (λ _. pure none)
    stale_check_with lock_token

  unfoldable pub cleanup_refresh_tokens : M (Unit {0})
  cleanup_refresh_tokens = try_catch (do remove_expired s; skip) (λ _. skip)

  unfoldable pub expire_with : Option ℕ → M (Unit {0})
  expire_with none = skip
  expire_with (some token) =
      finally
        (try_catch
          (do now ← read (λ w. w.now); update_users s (is_lapsed now) without_subscription; skip)
          (λ _. skip))
        (try_catch (release_lock s LockKey.expire_subscriptions token) (λ _. skip))

  unfoldable pub expire_subscriptions : M (Unit {0})
  unfolding expire_with
  expire_subscriptions = do
    lock_token ←
        try_catch (acquire_lock s LockKey.expire_subscriptions subscription_lock_ttl_seconds)
          (λ _. pure none)
    expire_with lock_token
