-- ===== src/Emergency/Start.antt =====
-- How modules/emergency/emergency.service.ts raises one SOS for a user, not two.
use aalam_security_back.Common.{ℕ, ◌≡◌, Option, some, arith, Bool-cases, inl, inr}
use aalam_security_back.Schema.{EmergencySession}
use aalam_security_back.Services.{Services, Documented, computing, services-eq}
use aalam_security_back.Rows.{find}
use aalam_security_back.World.{World, after, result, running}
use aalam_security_back.Cache.{set_lock, acquire_lock, release_lock}
use aalam_security_back.Emergency.{
  is_active_of, find_active, in_flight_session, try_lock, release, start_session_locked,
  start_session,
}

active_computing :
    (s : Services) (user_id : ℕ) (venue_id : Option ℕ) (r : EmergencySession) (w : World)
    → find (is_active_of user_id) w.sessions ≡ some r
    → (result (start_session (computing s) user_id venue_id w) ≡ some r)
      × ((after (start_session (computing s) user_id venue_id w)).sessions ≡ w.sessions)
unfolding start_session start_session_locked find_active in_flight_session try_lock release
    acquire_lock set_lock release_lock running
active_computing s user_id venue_id r w e = elim (Bool-cases w.redis_up) [
  | inl up ↦ rw up (ground arith)
  | inr down ↦ rw down (ground arith)
]

-- A user with an active SOS gets that session back, and no second one is raised: be the lock free,
-- held by another request of the user, or Redis down.
pub start_session-active :
    (s : Services) (d : Documented s) (user_id : ℕ) (venue_id : Option ℕ) (r : EmergencySession)
    (w : World)
    → find (is_active_of user_id) w.sessions ≡ some r
    → (result (start_session s user_id venue_id w) ≡ some r)
      × ((after (start_session s user_id venue_id w)).sessions ≡ w.sessions)
start_session-active s d = rw (services-eq d) (active_computing s)
