-- ===== src/Emergency/Refusals.antt =====
-- When modules/emergency/emergency.service.ts refuses an SOS, on each path of its lock.
use aalam_security_back.Common.{
  ℕ, zero, suc, ◌≡◌, refl, ◌∙◌, ap, Bool, true, false, not, ◌&&◌, Option, none, some, List, [], ◌∷◌,
  arith, is_some, if◌then◌else◌, Bool-cases, Option-cases, inl, inr,
}
use aalam_security_back.Schema.{EmergencySession}
use aalam_security_back.Errors.{ErrorCode, Exception, no_details, conflict}
use aalam_security_back.Services.{
  Services, Documented, computing, services-eq, ExpoReply, unavailable, tickets,
}
use aalam_security_back.Rows.{find, get, Entry}
use aalam_security_back.World.{
  World, LockKey, lock_key_eq, try_catch, pure, PushMessage, Outcome, ok, thrown, raised, M, ◌>>=◌,
  finally, running,
}
use aalam_security_back.World.Quiet.{
  Quiet, raised-before, raised-finally, seq, skips, modifies, bind, reads, quiet_rules,
}
use aalam_security_back.Cache.Attempts.{
  drawn_with, with_lock, acquire_down, acquire_held, acquire_free,
}
use aalam_security_back.Cache.{acquire_lock}
use aalam_security_back.Gateway.{emit_emergency_new, offer_to_free_operators}
use aalam_security_back.Push.{
  clear_tokens, clear_dead_tokens, post_batch, post_loop, post_to_expo, send_sos_alert,
}
use aalam_security_back.Emergency.{
  sos_trigger_lock_ttl_seconds, is_active_of, find_active, in_flight_session, try_lock, release,
  insert_session, create_session, start_session_locked, start_session,
}
use aalam_security_back.Emergency.Placement.{Place, place}
use aalam_security_back.Emergency.Access.{place_refusal, either_computing}

-- Why `startSession` refuses, if it does: a user with an active session is never refused; another
-- request of the user that holds the lock comes before what the place requires.
abbrev pub start_refusal : ℕ → Option ℕ → World → Option Exception
start_refusal user_id venue_id w =
    if is_some (find (is_active_of user_id) w.sessions)
    then none
    else if w.redis_up && is_some (get (lock_key_eq (LockKey.sos_trigger user_id)) w.now w.locks)
    then some (conflict ErrorCode.sos_in_progress no_details)
    else place_refusal user_id venue_id w

module _ (s : Services) where
  clears_tokens : (stale : List ℕ) → Quiet (clear_tokens (computing s) stale)
  unfolding clear_tokens
  clears_tokens [] = skips
  clears_tokens (t ∷ stale) = modifies _

  clears :
      (tokens : List ℕ) (reply : ExpoReply) → Quiet (clear_dead_tokens (computing s) tokens reply)
  unfolding clear_dead_tokens
  clears tokens unavailable = skips
  clears tokens (tickets ts) = clears_tokens _

  posts_batch :
      (batch : List PushMessage) (tokens : List ℕ) → Quiet (post_batch (computing s) batch tokens)
  unfolding post_batch
  posts_batch batch tokens = search (quiet_rules, clears)

  posts_loop :
      (fuel : ℕ) (batch : List PushMessage) (tokens : List ℕ)
      → Quiet (post_loop (computing s) fuel batch tokens)
  unfolding post_loop
  posts_loop fuel [] tokens = skips
  posts_loop zero (m ∷ ms) tokens = skips
  posts_loop (suc fuel) (m ∷ ms) tokens = seq (posts_batch _ _) (posts_loop fuel _ _)

  alerts : (id : ℕ) → Quiet (send_sos_alert (computing s) id)
  unfolding send_sos_alert post_to_expo
  alerts id = bind (reads _) (λ found. posts_loop _ _ _)

  offers : (session : EmergencySession) → Quiet (emit_emergency_new (computing s) session)
  unfolding emit_emergency_new offer_to_free_operators
  offers session = search quiet_rules

  inserts : (user_id : ℕ) (at : Place) → Quiet (insert_session (computing s) user_id at)
  unfolding insert_session running
  inserts user_id at = record { run = λ w. refl }

  creates : (user_id : ℕ) (at : Place) → Quiet (create_session (computing s) user_id at)
  unfolding create_session
  creates user_id at = bind (inserts user_id at) (λ r. search (quiet_rules, offers, alerts))

  releases : (user_id : ℕ) (token : Option ℕ) → Quiet (release (computing s) user_id token)
  unfolding release
  releases user_id none = skips
  releases user_id (some token) = search quiet_rules

  locked_raised :
      (user_id : ℕ) (venue_id : Option ℕ) (w : World)
      → raised (start_session_locked (computing s) user_id venue_id w) ≡ (
          if is_some (find (is_active_of user_id) w.sessions)
          then none
          else place_refusal user_id venue_id w)
  unfolding start_session_locked find_active running
  locked_raised user_id venue_id w = elim (Option-cases (find (is_active_of user_id) w.sessions)) [
    | inl free ↦ rw free (
        raised-before (place (computing s) user_id venue_id) w (creates user_id)
        ∙ either_computing s user_id venue_id w)
    | inr (r, active) ↦ rw active refl
  ]

  in_flight_raised :
      (user_id : ℕ) (w : World)
      → raised (in_flight_session (computing s) user_id w) ≡ (
          if is_some (find (is_active_of user_id) w.sessions)
          then none
          else some (conflict ErrorCode.sos_in_progress no_details))
  unfolding in_flight_session find_active running
  in_flight_raised user_id w = elim (Option-cases (find (is_active_of user_id) w.sessions)) [
    | inl free ↦ rw free refl
    | inr (r, active) ↦ rw active refl
  ]

  -- What follows the attempt on the lock.
  abbrev go_on : ℕ → Option ℕ → Option ℕ × Bool → M EmergencySession
  go_on user_id venue_id lock =
      if lock.1 && not (is_some lock.0)
      then in_flight_session (computing s) user_id
      else finally (start_session_locked (computing s) user_id venue_id)
          (release (computing s) user_id lock.0)

  -- The failure in the end, by the answer of the lock.
  abbrev raised_from : ℕ → Option ℕ → Outcome (Option ℕ) → Option Exception
  raised_from user_id venue_id (ok token w) = raised (go_on user_id venue_id (token, true) w)
  raised_from user_id venue_id (thrown e w) = raised (go_on user_id venue_id (none, false) w)

  answered :
      (user_id : ℕ) (venue_id : Option ℕ) (o : Outcome (Option ℕ)) (w : World)
      → raised (
          (try_catch ((λ x. o) >>= λ token. pure (token, true)) (λ e. pure (none, false))
              >>= λ lock. go_on user_id venue_id lock)
            w)
        ≡ raised_from user_id venue_id o
  unfolding running
  answered user_id venue_id (ok token x) w = refl
  answered user_id venue_id (thrown e x) w = refl

  started :
      (user_id : ℕ) (venue_id : Option ℕ) (w : World)
      → raised (start_session (computing s) user_id venue_id w)
        ≡ raised_from user_id venue_id (
            acquire_lock (computing s) (LockKey.sos_trigger user_id) sos_trigger_lock_ttl_seconds w)
  unfolding start_session try_lock running
  started user_id venue_id w =
      answered user_id venue_id
        (acquire_lock (computing s) (LockKey.sos_trigger user_id) sos_trigger_lock_ttl_seconds w) w

  ungated :
      (user_id : ℕ) (venue_id : Option ℕ) (lock : Option ℕ × Bool) (w : World)
      → (lock.1 && not (is_some lock.0)) ≡ false
      → raised (go_on user_id venue_id lock w) ≡ (
          if is_some (find (is_active_of user_id) w.sessions)
          then none
          else place_refusal user_id venue_id w)
  ungated user_id venue_id lock w e =
      ap
        (λ b. raised (
          (if b
              then in_flight_session (computing s) user_id
              else finally (start_session_locked (computing s) user_id venue_id)
                  (release (computing s) user_id lock.0))
            w))
        e
      ∙ (raised-finally (start_session_locked (computing s) user_id venue_id)
            (release (computing s) user_id lock.0) w (releases user_id lock.0)
          ∙ locked_raised user_id venue_id w)

  placed_alike :
      (user_id : ℕ) (venue_id : Option ℕ) (locks : List (Entry LockKey ℕ)) (w : World)
      → place_refusal user_id venue_id (drawn_with locks w) ≡ place_refusal user_id venue_id w
  placed_alike user_id none locks w = refl
  placed_alike user_id (some venue_id) locks w = refl

  start_raised :
      (user_id : ℕ) (venue_id : Option ℕ) (w : World)
      → raised (start_session (computing s) user_id venue_id w) ≡ start_refusal user_id venue_id w
  start_raised user_id venue_id w =
      let key = LockKey.sos_trigger user_id in
      let ttl = sos_trigger_lock_ttl_seconds in
      let locked = with_lock s key ttl w in
      started user_id venue_id w ∙ elim (Bool-cases w.redis_up) [
        | inr down ↦
            ap (raised_from user_id venue_id) (acquire_down s key ttl w down)
            ∙ (ungated user_id venue_id (none, false) (drawn_with w.locks w) refl
                ∙ ground (arith, down, placed_alike user_id venue_id w.locks w))
        | inl up ↦ elim (Option-cases (get (lock_key_eq key) w.now w.locks)) [
          | inl free ↦
              ap (raised_from user_id venue_id) (acquire_free s key ttl w up free)
              ∙ (ungated user_id venue_id (some (s.uuid w.drawn), true) (drawn_with locked w) refl
                  ∙ ground (arith, up, free, placed_alike user_id venue_id locked w))
          | inr (token, held) ↦
              ap (raised_from user_id venue_id) (acquire_held s key ttl w token up held)
              ∙ (in_flight_raised user_id (drawn_with w.locks w) ∙ ground (arith, up, held))
        ]
      ]

-- Exactly when an SOS is refused, and with which code, on every path of the lock. A user with an
-- active SOS is never refused. Without one, SOS_IN_PROGRESS is the answer while another request of
-- the user holds the lock; else what the place requires decides alone, and so it does when Redis is
-- down. Neither the offer to the operators, nor the push, nor the release of the lock makes a request
-- fail.
pub start_session-raised :
    (s : Services) (d : Documented s) (user_id : ℕ) (venue_id : Option ℕ) (w : World)
    → raised (start_session s user_id venue_id w) ≡ start_refusal user_id venue_id w
start_session-raised s d = rw (services-eq d) (start_raised s)
