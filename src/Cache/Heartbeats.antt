-- ===== src/Cache/Heartbeats.antt =====
-- The heartbeats of redis/redis.service.ts read as common/constants/operator-presence.ts reads them.
use aalam_security_back.Common.{
  ℕ, ◌+◌, ◌*◌, ◌≤◌, ◌≡◌, refl, ◌∙◌, Bool, true, Option, none, some, List, [], ◌∷◌, arith, ◌==◌, ltb,
  Bool-cases, inl, inr, any,
}
use aalam_security_back.Schema.{Text}
use aalam_security_back.Services.{Services, Documented, computing, services-eq}
use aalam_security_back.Rows.{Entry, get, del}
use aalam_security_back.Presence.{heartbeat_ttl_seconds, parse_heartbeat, is_heartbeat_fresh}
use aalam_security_back.Presence.Decimal.{to_string, parse_int-to_string, parse_int}
use aalam_security_back.World.{World, after, result, M, ◌>>=◌, pure, read, running}
use aalam_security_back.Cache.{
  set_operator_heartbeat, get_operator_heartbeat, collect, get_operator_heartbeats, lookup_mark,
}
use aalam_security_back.Cache.Locks.{elapse}

parse_heartbeat-some : (t : Text) → parse_heartbeat (some t) ≡ parse_int t
unfolding parse_heartbeat parse_int
parse_heartbeat-some [] = refl
parse_heartbeat-some (c ∷ cs) = refl

pub parse_heartbeat-to_string : (n : ℕ) → parse_heartbeat (some (to_string n)) ≡ some n
parse_heartbeat-to_string n = parse_heartbeat-some (to_string n) ∙ parse_int-to_string n

parse_heartbeat-none : parse_heartbeat none ≡ none
unfolding parse_heartbeat
parse_heartbeat-none = refl

get-del_same :
    (k t : ℕ) (es : List (Entry ℕ Text)) → get (λ j. j == k) t (del (λ j. j == k) es) ≡ none
get-del_same k t [] = refl
get-del_same k t (e ∷ es) = ground (arith, get-del_same k t es)

-- How `isHeartbeatFresh` judges what `getOperatorHeartbeat` returns.
abbrev pub is_present : Services → ℕ → ℕ → M Bool
is_present s operator_id threshold_ms = do
  raw ← get_operator_heartbeat s operator_id
  read (λ w. is_heartbeat_fresh w.now raw threshold_ms)

present_computing :
    (s : Services) (operator_id threshold_ms ms : ℕ) (w : World)
    → w.redis_up ≡ true
    → threshold_ms ≤ heartbeat_ttl_seconds * 1000
    → result (
        is_present
          (computing s)
          operator_id
          threshold_ms
          (elapse ms (after (set_operator_heartbeat (computing s) operator_id w))))
      ≡ some (ltb ms threshold_ms)
unfolding set_operator_heartbeat get_operator_heartbeat is_heartbeat_fresh running
present_computing s operator_id threshold_ms ms w up h =
    elim (Bool-cases (ltb ms (heartbeat_ttl_seconds * 1000))) [
      | inl live ↦ rw up (ground (arith, parse_heartbeat-to_string w.now))
      | inr expired ↦
          rw up (
            ground
              (arith, parse_heartbeat-none, get-del_same operator_id (w.now + ms) w.heartbeats))
    ]

-- Presence is exact: after a heartbeat an operator counts as present for as long as the threshold
-- says and not a millisecond longer, for every threshold up to the key's time to live.
pub set_operator_heartbeat-is_present :
    (s : Services) (d : Documented s) (operator_id threshold_ms ms : ℕ) (w : World)
    → w.redis_up ≡ true
    → threshold_ms ≤ heartbeat_ttl_seconds * 1000
    → result (
        is_present s operator_id threshold_ms
          (elapse ms (after (set_operator_heartbeat s operator_id w))))
      ≡ some (ltb ms threshold_ms)
set_operator_heartbeat-is_present s d = rw (services-eq d) (present_computing s)

module _ (s : Services) (w : World) where
  mark : ℕ → Option ℕ
  mark id = parse_heartbeat (s.redis_get (λ k. k == id) w.now w.heartbeats)

  lookup_mark-collect-none :
      (id : ℕ) (ids : List ℕ) → mark id ≡ none → lookup_mark id (collect s w ids) ≡ none
  unfolding collect mark
  lookup_mark-collect-none id [] h = refl
  lookup_mark-collect-none id (x ∷ ids) h = elim (Bool-cases (x == id)) [
    | inl same ↦
        let e : x ≡ id = ground arith in rw e (ground (arith, lookup_mark-collect-none id ids))
    | inr other ↦ ground (arith, lookup_mark-collect-none id ids h)
  ]

  lookup_mark-collect :
      (id : ℕ) (ids : List ℕ)
      → any (λ x. x == id) ids ≡ true
      → lookup_mark id (collect s w ids) ≡ mark id
  unfolding collect mark
  lookup_mark-collect id [] h = absurd (ground arith)
  lookup_mark-collect id (x ∷ ids) h = elim (Bool-cases (x == id)) [
    | inl same ↦
        let e : x ≡ id = ground arith in rw e (ground (arith, lookup_mark-collect-none id ids))
    | inr other ↦ ground (arith, lookup_mark-collect id ids)
  ]

  -- The one MGET for many operators agrees with a GET for each: the mark it returns for an operator
  -- that was asked for is what the operator's own key parses to, and no mark where that is missing
  -- or malformed.
  pub get_operator_heartbeats-lookup_mark :
      (id : ℕ) (ids : List ℕ)
      → w.redis_up ≡ true
      → any (λ x. x == id) ids ≡ true
      → result ((get_operator_heartbeats s ids >>= λ marks. pure (lookup_mark id marks)) w)
        ≡ result ((get_operator_heartbeat s id >>= λ raw. pure (parse_heartbeat raw)) w)
  unfolding get_operator_heartbeats get_operator_heartbeat mark running
  get_operator_heartbeats-lookup_mark id [] up h = absurd (ground arith)
  get_operator_heartbeats-lookup_mark id (x ∷ ids) up h =
      rw (up, lookup_mark-collect id (x ∷ ids) h) refl
