-- ===== src/Cron/Sockets.antt =====
-- refreshPresenceFromSockets of modules/cron/cron.service.ts: an open socket is a sign of life.
use aalam_security_back.Common.{
  ℕ, ◌+◌, ◌*◌, ◌≡◌, refl, ◌∙◌, ap, Bool, true, false, ◌&&◌, ◌||◌, some, List, [], ◌∷◌, arith, any,
  keep, ◌==◌, Bool-cases, inl, inr,
}
use aalam_security_back.Schema.{Text}
use aalam_security_back.Services.{Services, computing, Socket, is_in, on_shift_room}
use aalam_security_back.Rows.{Entry, get, del, drop_all}
use aalam_security_back.Presence.{
  heartbeat_ttl_seconds, reclaim_assignment_threshold_ms, is_heartbeat_fresh,
}
use aalam_security_back.Presence.Decimal.{to_string}
use aalam_security_back.World.{World, Outcome, ok, thrown, after, running}
use aalam_security_back.World.Quiet.{Quiet, quiet_rules}
use aalam_security_back.Gateway.{distinct_ids, get_connected_on_shift_operator_ids}
use aalam_security_back.Cache.{set_operator_heartbeat}
use aalam_security_back.Cache.Heartbeats.{parse_heartbeat-to_string}
use aalam_security_back.Cron.{set_heartbeats, refresh_presence_from_sockets}
use aalam_security_back.Cron.Reclaim.{signs, is_fresh, caught_after}

-- The key that a heartbeat leaves.
abbrev pub beat : ℕ → ℕ → Entry ℕ Text
beat now id = record {
  key = id;
  value = to_string now;
  expires = now + heartbeat_ttl_seconds * 1000;
}

abbrev pub beaten : ℕ → List ℕ → List (Entry ℕ Text) → List (Entry ℕ Text)
beaten now [] es = es
beaten now (id ∷ ids) es = beaten now ids (beat now id ∷ del (λ k. k == id) es)

sets_heartbeat :
    (s : Services) (id : ℕ) (w : World)
    → w.redis_up ≡ true
    → set_operator_heartbeat (computing s) id w
      ≡ ok tt (record w { heartbeats = beat w.now id ∷ del (λ k. k == id) w.heartbeats })
unfolding set_operator_heartbeat running
sets_heartbeat s id w up = rw up refl

sets_heartbeats :
    (s : Services) (ids : List ℕ) (w : World)
    → w.redis_up ≡ true
    → set_heartbeats (computing s) ids w
      ≡ ok tt (record w { heartbeats = beaten w.now ids w.heartbeats })
unfolding set_heartbeats running
sets_heartbeats s [] w up = refl
sets_heartbeats s (id ∷ ids) w up =
    ap
      (λ (o : Outcome (Unit {0})). elim o [
        | ok a x ↦ set_heartbeats (computing s) ids x
        | thrown e x ↦ thrown e x
      ])
      (sets_heartbeat s id w up)
    ∙ sets_heartbeats s ids
        (record w { heartbeats = beat w.now id ∷ del (λ k. k == id) w.heartbeats }) up

get-del_other :
    (k j now : ℕ) (es : List (Entry ℕ Text))
    → (k == j) ≡ false
    → get (λ x. x == k) now (del (λ x. x == j) es) ≡ get (λ x. x == k) now es
get-del_other k j now [] h = refl
get-del_other k j now (e ∷ es) h = ground (arith, get-del_other k j now es)

fresh_now :
    (now : ℕ) → is_heartbeat_fresh now (some (to_string now)) reclaim_assignment_threshold_ms ≡ true
unfolding is_heartbeat_fresh
fresh_now now = ground (arith, parse_heartbeat-to_string now)

abbrev seen : ℕ → ℕ → List (Entry ℕ Text) → Bool
seen now id es = is_heartbeat_fresh now (get (λ k. k == id) now es) reclaim_assignment_threshold_ms

seen-beat :
    (now id j : ℕ) (es : List (Entry ℕ Text))
    → seen now id (beat now j ∷ del (λ k. k == j) es) ≡ (j == id || seen now id es)
seen-beat now id j es = elim (Bool-cases (j == id)) [
  | inl same ↦ let e : j ≡ id = ground arith in rw e (ground (arith, fresh_now now))
  | inr other ↦ ground (arith, get-del_other id j now es)
]

seen-beaten :
    (now id : ℕ) (ids : List ℕ) (es : List (Entry ℕ Text))
    → seen now id (beaten now ids es) ≡ (any (λ x. x == id) ids || seen now id es)
seen-beaten now id [] es = refl
seen-beaten now id (j ∷ ids) es =
    seen-beaten now id ids (beat now j ∷ del (λ k. k == j) es)
    ∙ rw (seen-beat now id j es) (ground arith)

any-drop_all :
    (id j : ℕ) (ids : List ℕ)
    → (j == id || any (λ x. x == id) (drop_all (λ x. j == x) ids))
      ≡ (j == id || any (λ x. x == id) ids)
any-drop_all id j [] = refl
any-drop_all id j (x ∷ ids) = ground (arith, any-drop_all id j ids)

any-distinct_ids :
    (id : ℕ) (cs : List Socket)
    → any (λ x. x == id) (distinct_ids cs) ≡ any (λ (c : Socket). c.user_id == id) cs
any-distinct_ids id [] = refl
any-distinct_ids id (c ∷ cs) =
    any-drop_all id c.user_id (distinct_ids cs) ∙ rw (any-distinct_ids id cs) refl

-- A client of that operator in the room of those on shift.
abbrev pub is_connected : ℕ → List Socket → Bool
is_connected id sockets = any (λ c. is_in on_shift_room c && c.user_id == id) sockets

any-keep :
    (id : ℕ) (cs : List Socket)
    → any (λ (c : Socket). c.user_id == id) (keep (is_in on_shift_room) cs) ≡ is_connected id cs
any-keep id [] = refl
any-keep id (c ∷ cs) = ground (arith, any-keep id cs)

-- The state after the refresh.
abbrev pub refreshed : World → World
refreshed w = record w {
  heartbeats = beaten w.now (distinct_ids (keep (is_in on_shift_room) w.sockets)) w.heartbeats;
}

pub refresh_after :
    (s : Services) (w : World)
    → w.redis_up ≡ true
    → after (refresh_presence_from_sockets (computing s) w) ≡ refreshed w
unfolding refresh_presence_from_sockets get_connected_on_shift_operator_ids running
refresh_after s w up =
    let ids = distinct_ids (keep (is_in on_shift_room) w.sockets) in
    caught_after (set_heartbeats (computing s) ids w) ∙ ap after (sets_heartbeats s ids w up)

pub refresh_presence_from_sockets-Quiet :
    (s : Services) → Quiet (refresh_presence_from_sockets (computing s))
unfolding refresh_presence_from_sockets
refresh_presence_from_sockets-Quiet s = search quiet_rules

-- After the refresh an operator counts as heard of who is connected or was heard of before.
pub refreshed-is_fresh :
    (id : ℕ) (w : World)
    → is_fresh (signs (refreshed w)) id ≡ (is_connected id w.sockets || is_fresh (signs w) id)
refreshed-is_fresh id w =
    seen-beaten w.now id (distinct_ids (keep (is_in on_shift_room) w.sockets)) w.heartbeats
    ∙ rw (any-distinct_ids id (keep (is_in on_shift_room) w.sockets), any-keep id w.sockets) refl
