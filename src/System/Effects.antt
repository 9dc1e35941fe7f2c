-- ===== src/System/Effects.antt =====
-- The desk under what goes out, the cache and the device tokens.
use aalam_security_back.Common.{ℕ, ◌<◌, ◌≡◌, Bool, true, false, List, [], ◌∷◌, arith, any}
use aalam_security_back.Schema.{User, EmergencySession, is_closed}
use aalam_security_back.Services.{Services, computing}
use aalam_security_back.Rows.{count, set_first, set_all}
use aalam_security_back.Rows.Counts.{any-set_all, any-set_first}
use aalam_security_back.World.{
  World, LockKey, update_session, update_users, update_user, draw_uuid, running,
}
use aalam_security_back.World.Keeps.{
  Keeps, caught_not_found, bind, seq, atomic, gives, modifies, skips, rules,
}
use aalam_security_back.Cache.{
  set_lock, acquire_lock, release_lock, set_operator_heartbeat, get_operator_heartbeat,
  get_operator_heartbeats,
}
use aalam_security_back.Gateway.{
  offer_to_free_operators, emit_emergency_new, emit_pool_returned, set_operator_shift_room,
  disconnect_user, get_connected_on_shift_operator_ids,
}
use aalam_security_back.Push.Frame
use aalam_security_back.Push.{
  send_subscription_decision, without_push_token, send_sos_alert, send_assignment_to_operator,
}
use aalam_security_back.Queries.{is_open_of, assign_to}
use aalam_security_back.System.{
  Desk, is_on_duty, RowMove, draw, edit, assign, staff, Reach, next, Reached,
}

pub then_assign :
    {uuid : ℕ → ℕ} {start d : Desk}
    → Reach uuid start d
    → (operator_id : ℕ) (p : EmergencySession → Bool)
    → ((r : EmergencySession) → p r ≡ true → is_closed r.status ≡ false)
    → count (is_open_of operator_id) d.sessions ≡ 0
    → any (is_on_duty operator_id) d.users ≡ true
    → Reach uuid start (record d { sessions = set_first p (assign_to operator_id) d.sessions })
then_assign r o p h free ready = next r (assign o p h free ready)

pub then_staff :
    {uuid : ℕ → ℕ} {start d : Desk}
    → Reach uuid start d
    → (users : List User)
    → ((o : ℕ)
        → 0 < count (is_open_of o) d.sessions
        → any (is_on_duty o) d.users ≡ true
        → any (is_on_duty o) users ≡ true)
    → Reach uuid start (record d { users = users })
then_staff r users h = next r (staff users h)

module _ (s : Services) (start : Desk) where
  -- An update of one session by moves of its own.
  pub updates :
      (p : EmergencySession → Bool) (f : EmergencySession → EmergencySession)
      → ((r : EmergencySession) → p r ≡ true → RowMove r (f r))
      → Keeps (Reached s.uuid start) (update_session (computing s) p f)
  unfolding running
  updates p f h = record { run = λ w r. ground (arith, next r (edit p f h)) }

  -- An update of users that takes nobody off shift.
  pub updates_users :
      (p : User → Bool) (f : User → User)
      → ((o : ℕ) (u : User) → is_on_duty o u ≡ true → p u ≡ true → is_on_duty o (f u) ≡ true)
      → Keeps (Reached s.uuid start) (update_users (computing s) p f)
  unfolding running
  updates_users p f h = record {
    run = λ w r.
        next r
          (staff (set_all p f w.users) (λ o busy. any-set_all p (is_on_duty o) f (h o) w.users));
  }

  pub updates_user :
      (p : User → Bool) (f : User → User)
      → ((o : ℕ) (u : User) → is_on_duty o u ≡ true → p u ≡ true → is_on_duty o (f u) ≡ true)
      → Keeps (Reached s.uuid start) (update_user (computing s) p f)
  unfolding running
  updates_user p f h = record {
    run = λ w r. ground (
      arith,
      next r (
          staff (set_first p f w.users) (λ o busy. any-set_first p (is_on_duty o) f (h o) w.users)),
    );
  }

  pub beats : (id : ℕ) → Keeps (Reached s.uuid start) (set_operator_heartbeat (computing s) id)
  unfolding set_operator_heartbeat
  beats id = search rules

  pub reads_beat : (id : ℕ) → Keeps (Reached s.uuid start) (get_operator_heartbeat (computing s) id)
  unfolding get_operator_heartbeat
  reads_beat id = search rules

  pub reads_beats :
      (ids : List ℕ) → Keeps (Reached s.uuid start) (get_operator_heartbeats (computing s) ids)
  unfolding get_operator_heartbeats
  reads_beats [] = search rules
  reads_beats (id ∷ ids) = search rules

  sets_lock :
      (key : LockKey) (token ttl : ℕ)
      → Keeps (Reached s.uuid start) (set_lock (computing s) key token ttl)
  unfolding set_lock
  sets_lock key token ttl = record { run = λ w inv. ground arith }

  pub draws : Keeps (Reached s.uuid start) (draw_uuid (computing s))
  unfolding running
  draws = record { run = λ w r. next r draw }

  pub acquires :
      (key : LockKey) (ttl : ℕ) → Keeps (Reached s.uuid start) (acquire_lock (computing s) key ttl)
  unfolding acquire_lock
  acquires key ttl = search (rules, draws, sets_lock)

  pub releases :
      (key : LockKey) (token : ℕ)
      → Keeps (Reached s.uuid start) (release_lock (computing s) key token)
  unfolding release_lock running
  releases key token = record { run = λ w inv. ground arith }

  pub moves_room :
      (id : ℕ) (on : Bool)
      → Keeps (Reached s.uuid start) (set_operator_shift_room (computing s) id on)
  unfolding set_operator_shift_room
  moves_room id on = search rules

  pub disconnects : (id : ℕ) → Keeps (Reached s.uuid start) (disconnect_user (computing s) id)
  unfolding disconnect_user
  disconnects id = search rules

  pub lists_connected :
      Keeps (Reached s.uuid start) (get_connected_on_shift_operator_ids (computing s))
  unfolding get_connected_on_shift_operator_ids
  lists_connected = search rules

  pub offers :
      (r : EmergencySession) (admins : Bool)
      → Keeps (Reached s.uuid start) (offer_to_free_operators (computing s) r admins)
  unfolding offer_to_free_operators
  offers r admins = search rules

  pub offers_new :
      (r : EmergencySession) → Keeps (Reached s.uuid start) (emit_emergency_new (computing s) r)
  unfolding emit_emergency_new
  offers_new r = search rules

  pub offers_returned :
      (r : EmergencySession) (admins : Bool)
      → Keeps (Reached s.uuid start) (emit_pool_returned (computing s) r admins)
  unfolding emit_pool_returned
  offers_returned r admins = search rules

  -- Clearing device tokens takes nobody off shift.
  tokens_cleared :
      (p : User → Bool) (w : World)
      → Reached s.uuid start w
      → Reached s.uuid start (record w { users = set_all p without_push_token w.users })
  tokens_cleared p w r =
      next r
        (staff _ (λ o busy. any-set_all p (is_on_duty o) without_push_token (λ u on _. on) w.users))

  pub alerts : (id : ℕ) → Keeps (Reached s.uuid start) (send_sos_alert (computing s) id)
  alerts id = Frame.alerts s (Reached s.uuid start) tokens_cleared (λ b w r. r) id

  pub notifies :
      (session_id operator_id : ℕ)
      → Keeps
          (Reached s.uuid start)
          (send_assignment_to_operator (computing s) session_id operator_id)
  notifies session_id operator_id =
      Frame.notifies s (Reached s.uuid start) tokens_cleared (λ b w r. r) session_id operator_id

  pub tells_decision :
      (user_id id : ℕ)
      → Keeps (Reached s.uuid start) (send_subscription_decision (computing s) user_id id)
  tells_decision user_id id =
      Frame.tells_decision s (Reached s.uuid start) tokens_cleared (λ b w r. r) user_id id

pub ruleset effects = (
  rules, updates, updates_users, updates_user, beats, reads_beat, reads_beats, acquires, releases,
  moves_room, disconnects, lists_connected, offers, offers_new, offers_returned, alerts, notifies,
  tells_decision,
)
