-- ===== src/Cache.antt =====
-- redis/redis.service.ts: the distributed lock and the operators' heartbeats.
pub mod Locks
pub mod Heartbeats
pub mod Attempts
use aalam_security_back.Common.{
  ℕ, ◌+◌, ◌*◌, Bool, true, false, Option, none, some, List, [], ◌∷◌, map, if◌then◌else◌, ◌==◌,
  holds,
}
use aalam_security_back.Schema.{Text, text_eq}
use aalam_security_back.Services.{Services}
use aalam_security_back.Presence.{heartbeat_ttl_seconds, parse_heartbeat}
use aalam_security_back.Presence.Decimal.{to_string}
use aalam_security_back.World.{
  World, LockKey, lock_key_eq, M, ◌>>=◌, ◌>>◌, pure, skip, read, modify, draw_uuid, redis, ok,
}

module _ (s : Services) where
  -- `SET key token EX ttl NX`
  unfoldable pub set_lock : LockKey → ℕ → ℕ → M Bool
  set_lock key token ttl_seconds w =
      elim (s.redis_set_nx (lock_key_eq key) w.now
        (record { key = key; value = token; expires = w.now + ttl_seconds * 1000 }) w.locks) [
          | none ↦ ok false w
          | some es ↦ ok true (record w { locks = es })
        ]

  unfoldable pub acquire_lock : LockKey → ℕ → M (Option ℕ)
  unfolding set_lock
  acquire_lock key ttl_seconds = do
    token ← draw_uuid s
    done ← redis (set_lock key token ttl_seconds)
    pure (if done then some token else none)

  -- RELEASE_LOCK_SCRIPT: the key is deleted only while it holds this token.
  unfoldable pub release_lock : LockKey → ℕ → M (Unit {0})
  release_lock key token = redis (do
    held ← read (λ w. s.redis_get (lock_key_eq key) w.now w.locks)
    if holds held token
        then modify (λ w. record w { locks = s.redis_del (lock_key_eq key) w.locks })
        else skip)

  unfoldable pub set_operator_heartbeat : ℕ → M (Unit {0})
  set_operator_heartbeat operator_id = redis (
      modify (λ w. record w {
        heartbeats =
            s.redis_set (λ k. k == operator_id)
              (record {
                key = operator_id;
                value = to_string w.now;
                expires = w.now + heartbeat_ttl_seconds * 1000;
              })
              w.heartbeats;
      }))

  unfoldable pub get_operator_heartbeat : ℕ → M (Option Text)
  get_operator_heartbeat operator_id =
      redis (read (λ w. s.redis_get (λ k. k == operator_id) w.now w.heartbeats))

  -- One MGET; a `Map` is an association list. A missing, empty or malformed value is left out.
  unfoldable pub collect : World → List ℕ → List (ℕ × ℕ)
  collect w [] = []
  collect w (id ∷ ids) =
      let rest = collect w ids in
      elim (parse_heartbeat (s.redis_get (λ k. k == id) w.now w.heartbeats)) [
        | none ↦ rest
        | some ts ↦ (id, ts) ∷ rest
      ]

  unfoldable pub get_operator_heartbeats : List ℕ → M (List (ℕ × ℕ))
  unfolding collect
  get_operator_heartbeats [] = pure []
  get_operator_heartbeats (id ∷ ids) = redis (read (λ w. collect w (id ∷ ids)))

  unfoldable pub set_phone_verification_token : Text → ℕ → ℕ → M (Unit {0})
  set_phone_verification_token token user_id ttl_seconds = redis (
      modify (λ w. record w {
        phone_tokens =
            s.redis_set (text_eq token)
              (record { key = token; value = user_id; expires = w.now + ttl_seconds * 1000 })
              w.phone_tokens;
      }))

  unfoldable pub get_phone_verification_user_id : Text → M (Option ℕ)
  get_phone_verification_user_id token =
      redis (read (λ w. s.redis_get (text_eq token) w.now w.phone_tokens))

  unfoldable pub delete_phone_verification_token : Text → M (Unit {0})
  delete_phone_verification_token token =
      redis (modify (λ w. record w { phone_tokens = s.redis_del (text_eq token) w.phone_tokens }))

-- `heartbeats.get(id)`
abbrev pub lookup_mark : ℕ → List (ℕ × ℕ) → Option ℕ
lookup_mark id [] = none
lookup_mark id ((k, ts) ∷ rest) =
    let later = lookup_mark id rest in if k == id then some ts else later
