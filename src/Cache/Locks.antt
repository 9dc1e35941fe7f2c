-- ===== src/Cache/Locks.antt =====
-- The distributed lock of redis/redis.service.ts excludes, and its owner alone lets it go.
use aalam_security_back.Common.{
  ℕ, ◌+◌, ◌*◌, ◌<◌, ◌≡◌, ◌≢◌, refl, sym, true, false, none, some, List, [], ◌∷◌, arith, All,
  Bool-cases, inl, inr,
}
use aalam_security_back.Services.{Services, Documented, computing, services-eq}
use aalam_security_back.Rows.{Entry, get, del}
use aalam_security_back.World.{
  World, LockKey, lock_key_eq, sos_trigger, stale_assignments, expire_subscriptions, after, result,
  running,
}
use aalam_security_back.Cache.{set_lock, acquire_lock, release_lock}

lock_key_eq_refl : (k : LockKey) → lock_key_eq k k ≡ true
lock_key_eq_refl (sos_trigger a) = ground arith
lock_key_eq_refl stale_assignments = refl
lock_key_eq_refl expire_subscriptions = refl

lock_key_eq-eq : (j k : LockKey) → lock_key_eq j k ≡ true → j ≡ k
lock_key_eq-eq (sos_trigger a) (sos_trigger b) h = ground arith
lock_key_eq-eq (sos_trigger a) stale_assignments h = absurd (ground arith)
lock_key_eq-eq (sos_trigger a) expire_subscriptions h = absurd (ground arith)
lock_key_eq-eq stale_assignments stale_assignments h = refl
lock_key_eq-eq stale_assignments (sos_trigger b) h = absurd (ground arith)
lock_key_eq-eq stale_assignments expire_subscriptions h = absurd (ground arith)
lock_key_eq-eq expire_subscriptions expire_subscriptions h = refl
lock_key_eq-eq expire_subscriptions (sos_trigger b) h = absurd (ground arith)
lock_key_eq-eq expire_subscriptions stale_assignments h = absurd (ground arith)

-- One key is not two.
lock_key_eq-false :
    (j k x : LockKey) → lock_key_eq k j ≡ false → lock_key_eq k x ≡ true → lock_key_eq j x ≡ false
lock_key_eq-false (sos_trigger a) (sos_trigger b) (sos_trigger c) h e = ground arith
lock_key_eq-false (sos_trigger a) (sos_trigger b) stale_assignments h e = absurd (ground arith)
lock_key_eq-false (sos_trigger a) (sos_trigger b) expire_subscriptions h e = absurd (ground arith)
lock_key_eq-false (sos_trigger a) stale_assignments stale_assignments h e = refl
lock_key_eq-false (sos_trigger a) stale_assignments (sos_trigger c) h e = absurd (ground arith)
lock_key_eq-false (sos_trigger a) stale_assignments expire_subscriptions h e = refl
lock_key_eq-false (sos_trigger a) expire_subscriptions stale_assignments h e = refl
lock_key_eq-false (sos_trigger a) expire_subscriptions (sos_trigger c) h e = absurd (ground arith)
lock_key_eq-false (sos_trigger a) expire_subscriptions expire_subscriptions h e = refl
lock_key_eq-false stale_assignments (sos_trigger b) x h e = ground arith
lock_key_eq-false stale_assignments stale_assignments x h e = absurd (ground arith)
lock_key_eq-false stale_assignments expire_subscriptions x h e = ground arith
lock_key_eq-false expire_subscriptions (sos_trigger b) x h e = ground arith
lock_key_eq-false expire_subscriptions stale_assignments x h e = ground arith
lock_key_eq-false expire_subscriptions expire_subscriptions x h e = absurd (ground arith)

-- Until that instant the key has this token.
abbrev pub Held : LockKey → ℕ → ℕ → World → Type 0
Held key token until w = (t : ℕ) → t < until → get (lock_key_eq key) t w.locks ≡ some token

get-del :
    (j k : LockKey) (t : ℕ) (es : List (Entry LockKey ℕ))
    → lock_key_eq k j ≡ false
    → get (lock_key_eq k) t (del (lock_key_eq j) es) ≡ get (lock_key_eq k) t es
get-del j k t [] h = refl
get-del j k t (e ∷ es) h = ground (arith, get-del j k t es, lock_key_eq-false j k e.key h)

-- What the other holders of the lock service may do meanwhile.
pub data LockCall : Type 0 where
  take_lock : LockKey → ℕ → LockCall
  give_back : LockKey → ℕ → LockCall
  pause : ℕ → LockCall

abbrev pub elapse : ℕ → World → World
elapse ms w = record w { now = w.now + ms }

abbrev pub lock_call : Services → LockCall → World → World
lock_call s (take_lock key ttl_seconds) w = after (acquire_lock s key ttl_seconds w)
lock_call s (give_back key token) w = after (release_lock s key token w)
lock_call s (pause ms) w = elapse ms w

abbrev pub lock_calls : Services → List LockCall → World → World
lock_calls s [] w = w
lock_calls s (c ∷ cs) w = lock_calls s cs (lock_call s c w)

abbrev pub time_of : List LockCall → ℕ
time_of [] = 0
time_of (pause ms ∷ cs) = ms + time_of cs
time_of (_ ∷ cs) = time_of cs

-- Not the holder's own release.
abbrev pub IsForeign : LockKey → ℕ → LockCall → Type 0
IsForeign key token (give_back k t) = (t ≡ token) → lock_key_eq key k ≡ false
IsForeign key token _ = Unit

take-now :
    (s : Services) (k : LockKey) (ttl : ℕ) (w : World)
    → (after (acquire_lock s k ttl w)).now ≡ w.now
unfolding acquire_lock set_lock running
take-now s k ttl w = elim (Bool-cases w.redis_up) [
  | inl up ↦ rw up (ground arith)
  | inr down ↦ rw down
]

give-now :
    (s : Services) (k : LockKey) (token : ℕ) (w : World)
    → (after (release_lock s k token w)).now ≡ w.now
unfolding release_lock running
give-now s k token w = ground arith

calls_in_time :
    (s : Services) (until : ℕ) (cs : List LockCall) (w : World)
    → w.now + time_of cs < until
    → (lock_calls s cs w).now < until
calls_in_time s until [] w h = omega arith
calls_in_time s until (take_lock k ttl ∷ cs) w h =
    calls_in_time s until cs _ (rw (take-now s k ttl w) h)
calls_in_time s until (give_back k t ∷ cs) w h =
    calls_in_time s until cs _ (rw (give-now s k t w) h)
calls_in_time s until (pause ms ∷ cs) w h = calls_in_time s until cs _ (omega arith)

module _ (s : Services) (key : LockKey) (token until : ℕ) where
  take-Held :
      (k : LockKey) (ttl : ℕ) (w : World)
      → w.now < until
      → Held key token until w
      → Held key token until (after (acquire_lock (computing s) k ttl w))
  unfolding acquire_lock set_lock running
  take-Held k ttl w live held t h = elim (Bool-cases w.redis_up) [
    | inr down ↦ rw down (held t h)
    | inl up ↦ elim (Bool-cases (lock_key_eq key k)) [
      | inl same ↦
          rw (up, sym (lock_key_eq-eq key k same)) (ground (arith, held w.now live, held t h))
      | inr other ↦ rw up (ground (arith, get-del k key t w.locks other, held t h))
    ]
  ]

  give-Held :
      (k : LockKey) (mine : ℕ) (w : World)
      → w.now < until
      → ((mine ≡ token) → lock_key_eq key k ≡ false)
      → Held key token until w
      → Held key token until (after (release_lock (computing s) k mine w))
  unfolding release_lock running
  give-Held k mine w live foreign held t h = elim (Bool-cases (lock_key_eq key k)) [
    | inl same ↦
        rw (sym (lock_key_eq-eq key k same))
          (ground (arith, held w.now live, held t h, foreign, lock_key_eq_refl key))
    | inr other ↦ ground (arith, get-del k key t w.locks other, held t h)
  ]

  calls-Held :
      (cs : List LockCall) (w : World)
      → All (IsForeign key token) cs
      → w.now + time_of cs < until
      → Held key token until w
      → Held key token until (lock_calls (computing s) cs w)
  calls-Held [] w foreign live held = held
  calls-Held (take_lock k ttl ∷ cs) w foreign live held =
      calls-Held cs _ foreign.1 (rw (take-now (computing s) k ttl w) live)
        (take-Held k ttl w (omega arith) held)
  calls-Held (give_back k t ∷ cs) w foreign live held =
      calls-Held cs _ foreign.1 (rw (give-now (computing s) k t w) live)
        (give-Held k t w (omega arith) foreign.0 held)
  calls-Held (pause ms ∷ cs) w foreign live held = calls-Held cs _ foreign.1 (omega arith) held

acquire-Held :
    (s : Services) (key : LockKey) (ttl token : ℕ) (w : World)
    → result (acquire_lock (computing s) key ttl w) ≡ some (some token)
    → Held key token (w.now + ttl * 1000) (after (acquire_lock (computing s) key ttl w))
unfolding acquire_lock set_lock running
acquire-Held s key ttl token w e t h = elim (Bool-cases w.redis_up) [
  | inr down ↦ absurd (ground (arith, down, rw down at e))
  | inl up ↦ rw up (ground (arith, lock_key_eq_refl key, rw up at e))
]

refused :
    (s : Services) (key : LockKey) (ttl token until : ℕ) (w : World)
    → w.now < until
    → Held key token until w
    → (t : ℕ) → result (acquire_lock (computing s) key ttl w) ≢ some (some t)
unfolding acquire_lock set_lock running
refused s key ttl token until w live held t = elim (Bool-cases w.redis_up) [
  | inr down ↦ rw down (λ e. ground arith)
  | inl up ↦ rw up (λ e. ground (arith, held w.now live))
]

exclusion_computing :
    (s : Services) (key : LockKey) (ttl ttl' token : ℕ) (w : World) (cs : List LockCall)
    → result (acquire_lock (computing s) key ttl w) ≡ some (some token)
    → All (IsForeign key token) cs
    → time_of cs < ttl * 1000
    → (t : ℕ)
    → result (
        acquire_lock
          (computing s)
          key
          ttl'
          (lock_calls (computing s) cs (after (acquire_lock (computing s) key ttl w))))
      ≢ some (some t)
exclusion_computing s key ttl ttl' token w cs e foreign soon =
    let start = after (acquire_lock (computing s) key ttl w) in
    let until = w.now + ttl * 1000 in
    let in_time : start.now + time_of cs < until =
      rw (take-now (computing s) key ttl w) (omega arith) in
    refused s key ttl' token until _ (calls_in_time (computing s) until cs start in_time)
      (calls-Held s key token until cs start foreign in_time (acquire-Held s key ttl token w e))

-- A lock excludes: once it is acquired, nobody acquires it again within its time to live, however
-- the others take locks, give theirs back and let time pass, as long as the holder's own release is
-- not among it. This holds with Redis up or down at the second attempt.
pub acquire_lock-excludes :
    (s : Services) (d : Documented s) (key : LockKey) (ttl ttl' token : ℕ) (w : World)
    (cs : List LockCall)
    → result (acquire_lock s key ttl w) ≡ some (some token)
    → All (IsForeign key token) cs
    → time_of cs < ttl * 1000
    → (t : ℕ)
    → result (acquire_lock s key ttl' (lock_calls s cs (after (acquire_lock s key ttl w))))
      ≢ some (some t)
acquire_lock-excludes s d = rw (services-eq d) (exclusion_computing s)

get-del_same :
    (key : LockKey) (t : ℕ) (es : List (Entry LockKey ℕ))
    → get (lock_key_eq key) t (del (lock_key_eq key) es) ≡ none
get-del_same key t [] = refl
get-del_same key t (e ∷ es) = ground (arith, get-del_same key t es)

freed_computing :
    (s : Services) (key : LockKey) (ttl token : ℕ) (w : World)
    → w.redis_up ≡ true
    → get (lock_key_eq key) w.now w.locks ≡ some token
    → result (acquire_lock (computing s) key ttl (after (release_lock (computing s) key token w)))
      ≡ some (some (s.uuid w.drawn))
unfolding release_lock acquire_lock set_lock running
freed_computing s key ttl token w up held = rw up (ground (arith, get-del_same key w.now w.locks))

-- The holder's release frees the lock: the next attempt gets it, under a new token, while Redis is
-- up.
pub release_lock-acquire_lock :
    (s : Services) (d : Documented s) (key : LockKey) (ttl token : ℕ) (w : World)
    → w.redis_up ≡ true
    → get (lock_key_eq key) w.now w.locks ≡ some token
    → result (acquire_lock s key ttl (after (release_lock s key token w)))
      ≡ some (some (s.uuid w.drawn))
release_lock-acquire_lock s d = rw (services-eq d) (freed_computing s)
