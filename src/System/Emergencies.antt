-- ===== src/System/Emergencies.antt =====
-- The desk's moves under the handlers of the emergency service.
use aalam_security_back.Common.{ℕ, refl, Option, none, some, arith}
use aalam_security_back.Schema.{EmergencySession, EmergencyLocation}
use aalam_security_back.Services.{Services, computing}
use aalam_security_back.World.{M, running}
use aalam_security_back.World.Keeps.{Keeps, caught_not_found, bind, ended, either, gives, rules}
use aalam_security_back.System.{Desk, touch, close, raise, next, Reached}
use aalam_security_back.System.Effects.{updates, draws, effects}
use aalam_security_back.Emergency.Placement.{Place, place}
use aalam_security_back.Emergency.{
  insert_session, create_session, start_session_locked, start_session, try_lock, release,
  in_flight_session, add_location, or_create, announce, close_session, CreateLocationDto,
}

module _ (s : Services) (start : Desk) where
  places :
      (user_id : ℕ) (venue_id : Option ℕ)
      → Keeps (Reached s.uuid start) (place (computing s) user_id venue_id)
  unfolding place running
  places user_id none = record { run = λ w r. ground arith }
  places user_id (some v) = record { run = λ w r. ground arith }

  inserts :
      (user_id : ℕ) (at : Place)
      → Keeps (Reached s.uuid start) (insert_session (computing s) user_id at)
  unfolding insert_session running
  inserts user_id at = record {
    run = λ w r.
        next r (raise _ (record { fresh = refl; is_new = refl; free = refl; unclosed = refl }));
  }

  creates :
      (user_id : ℕ) (at : Place)
      → Keeps (Reached s.uuid start) (create_session (computing s) user_id at)
  unfolding create_session
  creates user_id at = bind (inserts user_id at) (λ r. search effects)

  or_creates :
      (active : Option EmergencySession) (m : M EmergencySession)
      → Keeps (Reached s.uuid start) m
      → Keeps (Reached s.uuid start) (or_create active m)
  or_creates none m h = h
  or_creates (some r) m h = gives r

  starts_locked :
      (user_id : ℕ) (venue_id : Option ℕ)
      → Keeps (Reached s.uuid start) (start_session_locked (computing s) user_id venue_id)
  unfolding start_session_locked
  starts_locked user_id venue_id =
      bind (search rules)
        (λ active. or_creates active _ (bind (places user_id venue_id) (λ at. creates user_id at)))

  tries_lock : (user_id : ℕ) → Keeps (Reached s.uuid start) (try_lock (computing s) user_id)
  unfolding try_lock
  tries_lock user_id = search effects

  lets_go :
      (user_id : ℕ) (token : Option ℕ)
      → Keeps (Reached s.uuid start) (release (computing s) user_id token)
  unfolding release
  lets_go user_id none = search rules
  lets_go user_id (some token) = search effects

  in_flight : (user_id : ℕ) → Keeps (Reached s.uuid start) (in_flight_session (computing s) user_id)
  unfolding in_flight_session
  in_flight user_id = search rules

  pub starts :
      (user_id : ℕ) (venue_id : Option ℕ)
      → Keeps (Reached s.uuid start) (start_session (computing s) user_id venue_id)
  unfolding start_session
  starts user_id venue_id = bind (tries_lock user_id) (λ lock.
      either _ (in_flight user_id) (ended (starts_locked user_id venue_id) (lets_go user_id _)))

  announces :
      (user_id : ℕ) (r : EmergencySession) (l : Option EmergencyLocation)
      → Keeps (Reached s.uuid start) (announce user_id r l)
  unfolding announce
  announces user_id r none = search rules
  announces user_id r (some l) = search rules

  pub locates :
      (session_id user_id : ℕ) (dto : CreateLocationDto)
      → Keeps (Reached s.uuid start) (add_location (computing s) session_id user_id dto)
  unfolding add_location
  locates session_id user_id dto =
      bind
        (caught_not_found (bind (updates s start _ _ (λ r hit. touch)) (λ r. search (rules, draws)))
          (search rules))
        (λ r. search (rules, announces))

  pub closes :
      (session_id user_id : ℕ)
      → Keeps (Reached s.uuid start) (close_session (computing s) session_id user_id)
  unfolding close_session
  closes session_id user_id =
      caught_not_found
        (bind (search rules) (λ now.
          bind (updates s start _ _ (λ r hit. close _ (ground arith) refl refl refl refl))
            (λ r. search rules)))
        (search rules)
