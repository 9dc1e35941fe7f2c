-- ===== src/Cron/Stale.antt =====
-- checkStaleAssignments of modules/cron/cron.service.ts, from the lock to its release.
use aalam_security_back.Common.{
  ℕ, ◌≤◌, ◌≡◌, refl, ◌∙◌, ap, Bool, true, false, ◌&&◌, ◌||◌, not, Option, none, some, List, [], ◌∷◌,
  map, arith, is_some, keep, if◌then◌else◌, Bool-cases, Option-cases, inl, inr,
}
use aalam_security_back.Schema.{EmergencySession}
use aalam_security_back.Services.{Services, Documented, computing, services-eq}
use aalam_security_back.Rows.{get, count}
use aalam_security_back.Queries.{session_by_id}
use aalam_security_back.World.{
  World, LockKey, lock_key_eq, Outcome, ok, thrown, after, M, ◌>>=◌, ◌>>◌, pure, throw, skip, read,
  try_catch, finally, running,
}
use aalam_security_back.World.Keeps.{Keeps, rules, bind, seq, atomic, gives, throws, skips, caught}
use aalam_security_back.World.Quiet.{after-seq}
use aalam_security_back.Cache.Attempts.{
  drawn_with, with_lock, acquire_down, acquire_held, acquire_free,
}
use aalam_security_back.Cache.{acquire_lock, release_lock, get_operator_heartbeats}
use aalam_security_back.Gateway.{set_operator_shift_room}
use aalam_security_back.Cron.{
  is_reclaimable, stale_lock_ttl_seconds, check_sessions, end_dead_shift, end_dead_shifts,
  announce_ended, drop_dead_shifts, refresh_presence_from_sockets, run_stale_check,
  stale_check_with, check_stale_assignments,
}
use aalam_security_back.Cron.Reclaim.{signs, is_fresh, caught_after, check_sessions-sweep}
use aalam_security_back.Cron.Settled.{settle, AreDistinct, sweep-map}
use aalam_security_back.Cron.Sockets.{
  is_connected, refreshed, refresh_after, refresh_presence_from_sockets-Quiet, refreshed-is_fresh,
}

-- Whether an operator is heard of: a client in the room of those on shift, or a heartbeat within two
-- minutes.
abbrev pub is_heard : World → ℕ → Bool
is_heard w id = is_connected id w.sockets || is_fresh (signs w) id

abbrev pub is_locked : LockKey → World → Bool
is_locked key w = is_some (get (lock_key_eq key) w.now w.locks)

module _ (s : Services) (t : List EmergencySession) where
  -- The sessions stay.
  abbrev Same : World → Type 0
  Same w = w.sessions ≡ t

  ends_one : (id : ℕ) → Keeps Same (end_dead_shift (computing s) id)
  unfolding end_dead_shift running
  ends_one id = record { run = λ w p. p }

  ends_all : (ids : List ℕ) → Keeps Same (end_dead_shifts (computing s) ids)
  unfolding end_dead_shifts
  ends_all [] = gives []
  ends_all (id ∷ ids) = bind (atomic (ends_one id)) (λ n. bind (ends_all ids) (λ ended. gives _))

  moves : (id : ℕ) (on : Bool) → Keeps Same (set_operator_shift_room (computing s) id on)
  unfolding set_operator_shift_room running
  moves id on = record { run = λ w p. p }

  announces_all : (ids : List ℕ) → Keeps Same (announce_ended (computing s) ids)
  unfolding announce_ended
  announces_all [] = skips
  announces_all (id ∷ ids) = seq (search rules) (seq (moves id false) (announces_all ids))

  reads_beats : (ids : List ℕ) → Keeps Same (get_operator_heartbeats (computing s) ids)
  unfolding get_operator_heartbeats
  reads_beats [] = search rules
  reads_beats (id ∷ ids) = search rules

  drops : Keeps Same (drop_dead_shifts (computing s))
  unfolding drop_dead_shifts
  drops = caught (search (rules, reads_beats, ends_all, announces_all) depth 9) (λ _. skips)

  releases : (token : ℕ) → Keeps Same (release_lock (computing s) LockKey.stale_assignments token)
  unfolding release_lock running
  releases token = record { run = λ w p. ground arith }

  clears_up :
      (token : ℕ)
      → Keeps Same (
          drop_dead_shifts (computing s)
          >> try_catch (release_lock (computing s) LockKey.stale_assignments token) (λ _. skip))
  clears_up token = seq drops (caught (releases token) (λ _. skips))

-- What runs at the end and keeps the sessions leaves those of the body.
ended_sessions :
    {A : Type 0} (o : Outcome A) (last : M (Unit {0}))
    → Keeps (λ w. w.sessions ≡ (after o).sessions) last
    → (after {A = A}
        (elim o [ ok a w ↦ (last >> pure a) w | thrown e w ↦ (last >> throw e) w ])).sessions
      ≡ (after o).sessions
ended_sessions (ok a w) last h = (seq h (gives a)).run w refl
ended_sessions {A} (thrown e w) last h = (seq h (throws {A = A} e)).run w refl

module _ (s : Services) where
  abbrev loop : M (Unit {0})
  loop = read (λ w. keep is_reclaimable w.sessions) >>= λ stale. check_sessions (computing s) stale

  -- The body is the refresh and then the loop over what is ASSIGNED.
  body_after :
      (w : World)
      → after (run_stale_check (computing s) w)
        ≡ after (
            check_sessions
              (computing s)
              (keep is_reclaimable (after (refresh_presence_from_sockets (computing s) w)).sessions)
              (after (refresh_presence_from_sockets (computing s) w)))
  unfolding run_stale_check running
  body_after w =
      caught_after ((refresh_presence_from_sockets (computing s) >> loop) w)
      ∙ after-seq (refresh_presence_from_sockets (computing s)) loop w
          (refresh_presence_from_sockets-Quiet s)

  body_sessions :
      (w : World)
      → w.redis_up ≡ true
      → AreDistinct w.sessions
      → (after (run_stale_check (computing s) w)).sessions ≡ map (settle (is_heard w)) w.sessions
  body_sessions w up h =
      ap (λ (x : World). x.sessions) (body_after w)
      ∙ (ap
            (λ (x : World).
              (after (check_sessions (computing s) (keep is_reclaimable x.sessions) x)).sessions)
            (refresh_after s w up)
          ∙ (check_sessions-sweep s (keep is_reclaimable w.sessions) (refreshed w) up
              ∙ (sweep-map (is_fresh (signs (refreshed w))) w.sessions h
                  ∙ ap (λ f. map (settle f) w.sessions) (λ i id. refreshed-is_fresh id w i))))

  under_lock :
      (token : ℕ) (w : World)
      → w.redis_up ≡ true
      → AreDistinct w.sessions
      → (after (stale_check_with (computing s) (some token) w)).sessions
        ≡ map (settle (is_heard w)) w.sessions
  unfolding stale_check_with finally
  under_lock token w up h =
      ended_sessions (run_stale_check (computing s) w) _
        (clears_up s (after (run_stale_check (computing s) w)).sessions token)
      ∙ body_sessions w up h

  -- The sessions in the end, by the answer of the lock.
  abbrev go_on : Outcome (Option ℕ) → List EmergencySession
  go_on (ok lock w) = (after (stale_check_with (computing s) lock w)).sessions
  go_on (thrown e w) = (after (stale_check_with (computing s) none w)).sessions

  answered :
      (o : Outcome (Option ℕ)) (w : World)
      → (after (
          (try_catch (λ x. o) (λ e. pure none) >>= λ lock. stale_check_with (computing s) lock)
            w)).sessions
        ≡ go_on o
  unfolding running
  answered (ok lock x) w = refl
  answered (thrown e x) w = refl

  started :
      (w : World)
      → (after (check_stale_assignments (computing s) w)).sessions
        ≡ go_on (acquire_lock (computing s) LockKey.stale_assignments stale_lock_ttl_seconds w)
  unfolding check_stale_assignments running
  started w =
      answered (acquire_lock (computing s) LockKey.stale_assignments stale_lock_ttl_seconds w) w

  without_lock : (w : World) → (after (stale_check_with (computing s) none w)).sessions ≡ w.sessions
  unfolding stale_check_with skip
  without_lock w = refl

  job_sessions :
      (w : World)
      → AreDistinct w.sessions
      → (after (check_stale_assignments (computing s) w)).sessions ≡ (
          if w.redis_up && not (is_locked LockKey.stale_assignments w)
          then map (settle (is_heard w)) w.sessions
          else w.sessions)
  job_sessions w h =
      let key = LockKey.stale_assignments in
      let ttl = stale_lock_ttl_seconds in
      started w ∙ elim (Bool-cases w.redis_up) [
        | inr down ↦
            ap go_on (acquire_down s key ttl w down)
            ∙ (without_lock (drawn_with w.locks w) ∙ ground (arith, down))
        | inl up ↦ elim (Option-cases (get (lock_key_eq key) w.now w.locks)) [
          | inl free ↦
              ap go_on (acquire_free s key ttl w up free)
              ∙ (under_lock (s.uuid w.drawn) (drawn_with (with_lock s key ttl w) w) up h
                  ∙ ground (arith, up, free))
          | inr (token, held) ↦
              ap go_on (acquire_held s key ttl w token up held)
              ∙ (without_lock (drawn_with w.locks w) ∙ ground (arith, up, held))
        ]
      ]

-- What a run of the job on stale assignments does to the sessions, all of them. With Redis up and the
-- job's lock free, a session returns to the pool exactly if it is ASSIGNED to an operator who has
-- neither a client in the room of those on shift nor a heartbeat within the last two minutes; every
-- other session stays as it is. With Redis down, or the lock held by another worker, all of them stay.
-- No two sessions have one identifier.
pub check_stale_assignments-settle :
    (s : Services) (d : Documented s) (w : World)
    → ((id : ℕ) → count (session_by_id id) w.sessions ≤ 1)
    → (after (check_stale_assignments s w)).sessions ≡ (
        if w.redis_up && not (is_locked LockKey.stale_assignments w)
        then map (settle (is_heard w)) w.sessions
        else w.sessions)
check_stale_assignments-settle s d = rw (services-eq d) (job_sessions s)
