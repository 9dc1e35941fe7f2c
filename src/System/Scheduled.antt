-- ===== src/System/Scheduled.antt =====
-- The desk's moves under the scheduled jobs.
use aalam_security_back.Common.{ℕ, ◌&&◌, Option, none, some, List, [], ◌∷◌, arith, ◌==◌, not, any}
use aalam_security_back.Schema.{EmergencySession}
use aalam_security_back.Services.{Services, computing}
use aalam_security_back.World.{running, skip}
use aalam_security_back.World.Keeps.{
  Keeps, caught_not_found, caught, bind, seq, atomic, ended, gives, skips, rules,
}
use aalam_security_back.Queries.{is_open_of}
use aalam_security_back.System.{Desk, back, Reached}
use aalam_security_back.System.Effects.{updates, updates_users, effects}
use aalam_security_back.System.Handlers.{then_end_shift}
use aalam_security_back.Tokens.{remove_expired}
use aalam_security_back.Cron.{
  set_heartbeats, reclaim, check_session, check_sessions, end_dead_shift, end_dead_shifts,
  announce_ended, drop_dead_shifts, run_stale_check, stale_check_with, check_stale_assignments,
  cleanup_refresh_tokens, expire_with, expire_subscriptions, refresh_presence_from_sockets,
}

module _ (s : Services) (start : Desk) where
  sets_heartbeats : (ids : List ℕ) → Keeps (Reached s.uuid start) (set_heartbeats (computing s) ids)
  unfolding set_heartbeats
  sets_heartbeats [] = skips
  sets_heartbeats (id ∷ ids) = seq (search effects) (sets_heartbeats ids)

  refreshes : Keeps (Reached s.uuid start) (refresh_presence_from_sockets (computing s))
  unfolding refresh_presence_from_sockets
  refreshes = search (effects, sets_heartbeats)

  reclaims :
      (session_id operator_id : ℕ)
      → Keeps (Reached s.uuid start) (reclaim (computing s) session_id operator_id)
  unfolding reclaim
  reclaims session_id operator_id =
      caught_not_found
        (bind (updates s start _ _ (λ r hit. back (ground arith))) (λ r. search effects)) skips

  checks :
      (session_id operator_id : ℕ)
      → Keeps (Reached s.uuid start) (check_session (computing s) session_id operator_id)
  unfolding check_session
  checks session_id operator_id = search (effects, reclaims)

  checks_assignee :
      (r : EmergencySession) (o : Option ℕ)
      → Keeps
          (Reached s.uuid start)
          (elim o [ none ↦ skip | some id ↦ check_session (computing s) r.id id ])
  checks_assignee r none = skips
  checks_assignee r (some id) = checks r.id id

  checks_all :
      (rs : List EmergencySession) → Keeps (Reached s.uuid start) (check_sessions (computing s) rs)
  unfolding check_sessions
  checks_all [] = skips
  checks_all (r ∷ rs) = seq (checks_assignee r r.assigned_operator_id) (checks_all rs)

  ends_one : (id : ℕ) → Keeps (Reached s.uuid start) (end_dead_shift (computing s) id)
  unfolding end_dead_shift running
  ends_one id = record {
    run = λ w r.
        then_end_shift r (λ u. u.id == id && (u.on_shift && not (any (is_open_of u.id) w.sessions)))
          (λ u hit. ground arith);
  }

  ends_all : (ids : List ℕ) → Keeps (Reached s.uuid start) (end_dead_shifts (computing s) ids)
  unfolding end_dead_shifts
  ends_all [] = gives []
  ends_all (id ∷ ids) = bind (atomic (ends_one id)) (λ n. bind (ends_all ids) (λ ended. gives _))

  announces_all : (ids : List ℕ) → Keeps (Reached s.uuid start) (announce_ended (computing s) ids)
  unfolding announce_ended
  announces_all [] = skips
  announces_all (id ∷ ids) = seq (search rules) (seq (search effects) (announces_all ids))

  drops : Keeps (Reached s.uuid start) (drop_dead_shifts (computing s))
  unfolding drop_dead_shifts
  drops = caught (search (effects, ends_all, announces_all) depth 9) (λ _. skips)

  runs_check : Keeps (Reached s.uuid start) (run_stale_check (computing s))
  unfolding run_stale_check
  runs_check = search (effects, refreshes, checks_all)

  checks_with :
      (token : Option ℕ) → Keeps (Reached s.uuid start) (stale_check_with (computing s) token)
  unfolding stale_check_with
  checks_with none = skips
  checks_with (some token) = ended runs_check (seq drops (search effects))

  pub checks_stale : Keeps (Reached s.uuid start) (check_stale_assignments (computing s))
  unfolding check_stale_assignments
  checks_stale = bind (search effects) checks_with

  pub cleans : Keeps (Reached s.uuid start) (cleanup_refresh_tokens (computing s))
  unfolding cleanup_refresh_tokens remove_expired
  cleans = search rules

  expires_with : (token : Option ℕ) → Keeps (Reached s.uuid start) (expire_with (computing s) token)
  unfolding expire_with
  expires_with none = skips
  expires_with (some token) =
      ended
        (caught
          (bind (search rules) (λ now. seq (updates_users s start _ _ (λ o u on hit. on)) skips))
          (λ _. skips))
        (search effects)

  pub expires : Keeps (Reached s.uuid start) (expire_subscriptions (computing s))
  unfolding expire_subscriptions
  expires = bind (search effects) expires_with
