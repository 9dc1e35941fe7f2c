-- ===== src/Cache/Attempts.antt =====
-- The three answers of acquireLock in redis/redis.service.ts: no Redis, a lock that is held, a lock.
use aalam_security_back.Common.{
  ℕ, suc, ◌+◌, ◌*◌, ◌≡◌, refl, true, false, none, some, List, ◌∷◌, arith,
}
use aalam_security_back.Errors.{Exception}
use aalam_security_back.Services.{Services, computing}
use aalam_security_back.Rows.{Entry, get, del}
use aalam_security_back.World.{World, LockKey, lock_key_eq, ok, thrown, running}
use aalam_security_back.Cache.{set_lock, acquire_lock}

-- The state after an attempt: a token was drawn, and the locks are these.
abbrev pub drawn_with : List (Entry LockKey ℕ) → World → World
drawn_with locks w = record w { drawn = suc w.drawn; locks = locks }

module _ (s : Services) (key : LockKey) (ttl_seconds : ℕ) (w : World) where
  -- The locks with this one, whose token is the one drawn.
  abbrev pub with_lock : List (Entry LockKey ℕ)
  with_lock =
      record { key = key; value = s.uuid w.drawn; expires = w.now + ttl_seconds * 1000 }
      ∷ del (lock_key_eq key) w.locks

  pub acquire_down :
      w.redis_up ≡ false
      → acquire_lock (computing s) key ttl_seconds w
        ≡ thrown Exception.redis_unavailable (drawn_with w.locks w)
  unfolding acquire_lock running
  acquire_down down = rw down refl

  pub acquire_held :
      (token : ℕ)
      → w.redis_up ≡ true
      → get (lock_key_eq key) w.now w.locks ≡ some token
      → acquire_lock (computing s) key ttl_seconds w ≡ ok none (drawn_with w.locks w)
  unfolding acquire_lock set_lock running
  acquire_held token up held = rw up (ground (arith, held))

  pub acquire_free :
      w.redis_up ≡ true
      → get (lock_key_eq key) w.now w.locks ≡ none
      → acquire_lock (computing s) key ttl_seconds w
        ≡ ok (some (s.uuid w.drawn)) (drawn_with with_lock w)
  unfolding acquire_lock set_lock running
  acquire_free up free = rw up (ground (arith, free))
