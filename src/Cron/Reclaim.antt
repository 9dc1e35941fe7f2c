-- ===== src/Cron/Reclaim.antt =====
-- Which assignments the loop of checkStaleAssignments in modules/cron/cron.service.ts takes back.
use aalam_security_back.Common.{
  ℕ, ◌≡◌, refl, ◌∙◌, ap, Bool, true, false, ◌&&◌, Option, none, some, List, [], ◌∷◌, arith, ◌==◌,
  holds, if◌then◌else◌,
}
use aalam_security_back.Schema.{Text, EmergencySession, is_assigned}
use aalam_security_back.Services.{Services, computing}
use aalam_security_back.Rows.{find, get, set_first, Entry}
use aalam_security_back.World.Quiet.{Quiet, after-seq, quiet_rules, skips, seq}
use aalam_security_back.Presence.{is_heartbeat_fresh, reclaim_assignment_threshold_ms}
use aalam_security_back.World.{World, Outcome, ok, thrown, after, M, skip, running}
use aalam_security_back.Queries.{return_to_pool}
use aalam_security_back.Gateway.{offer_to_free_operators, emit_pool_returned, busy_operator_rooms}
use aalam_security_back.Cache.{get_operator_heartbeat}
use aalam_security_back.Cron.{reclaim, check_session, check_sessions}

-- `{ id, status: 'ASSIGNED', assignedOperatorId }`
abbrev pub is_unanswered : ℕ → ℕ → EmergencySession → Bool
is_unanswered session_id operator_id r =
    r.id == session_id && is_assigned r.status && holds r.assigned_operator_id operator_id

set_first_missing :
    (p : EmergencySession → Bool) (f : EmergencySession → EmergencySession)
    (t : List EmergencySession)
    → find p t ≡ none
    → set_first p f t ≡ t
set_first_missing p f [] h = refl
set_first_missing p f (r ∷ rs) h = ground (arith, set_first_missing p f rs)

reclaim_sessions :
    (s : Services) (session_id operator_id : ℕ) (w : World)
    → (after (reclaim (computing s) session_id operator_id w)).sessions
      ≡ set_first (is_unanswered session_id operator_id) return_to_pool w.sessions
unfolding reclaim emit_pool_returned offer_to_free_operators busy_operator_rooms running
reclaim_sessions s session_id operator_id w =
    ground
      (arith, set_first_missing (is_unanswered session_id operator_id) return_to_pool w.sessions)

pub caught_after :
    (o : Outcome (Unit {0}))
    → after {A = Unit {0}} (elim o [ ok a w ↦ ok a w | thrown e w ↦ skip w ]) ≡ after o
unfolding running
caught_after (ok a w) = refl
caught_after (thrown e w) = refl

picked :
    (b : Bool) (m : M (Unit {0})) (w : World)
    → (after ((if b then skip else m) w)).sessions
      ≡ (if b then w.sessions else (after (m w)).sessions)
unfolding running
picked true m w = refl
picked false m w = refl

heard :
    (s : Services) (operator_id : ℕ) (w : World)
    → w.redis_up ≡ true
    → get_operator_heartbeat (computing s) operator_id w
      ≡ ok (get (λ k. k == operator_id) w.now w.heartbeats) w
unfolding get_operator_heartbeat running
heard s operator_id w up = rw up refl

-- What the check reads: the clock, whether Redis answers, and the heartbeats.
abbrev pub Signs : Type 0
Signs = ℕ × (Bool × List (Entry ℕ Text))

abbrev pub signs : World → Signs
signs w = (w.now, (w.redis_up, w.heartbeats))

abbrev pub is_fresh : Signs → ℕ → Bool
is_fresh (now, (up, heartbeats)) operator_id =
    is_heartbeat_fresh now (get (λ k. k == operator_id) now heartbeats)
      reclaim_assignment_threshold_ms

-- What follows the GET of the heartbeat.
abbrev judge : Services → ℕ → ℕ → Outcome (Option Text) → Outcome (Unit {0})
judge s session_id operator_id o = elim o [
  | ok raw w ↦
      (if is_heartbeat_fresh w.now raw reclaim_assignment_threshold_ms
          then skip
          else reclaim s session_id operator_id)
        w
  | thrown e w ↦ thrown e w
]

-- What the check does to the sessions, given what the heartbeat says.
abbrev pub checked : Bool → ℕ → ℕ → List EmergencySession → List EmergencySession
checked fresh session_id operator_id t =
    if fresh then t else set_first (is_unanswered session_id operator_id) return_to_pool t

-- The loop on the sessions, from what is known of the operators.
abbrev pub sweep :
    (ℕ → Bool) → List EmergencySession → List EmergencySession → List EmergencySession
sweep fresh [] t = t
sweep fresh (r ∷ rs) t =
    sweep fresh rs
      (elim r.assigned_operator_id [ none ↦ t | some id ↦ checked (fresh id) r.id id t ])

module _ (s : Services) where
  picked_signs :
      (b : Bool) (session_id operator_id : ℕ) (w : World)
      → signs (after ((if b then skip else reclaim (computing s) session_id operator_id) w))
        ≡ signs w
  unfolding reclaim emit_pool_returned offer_to_free_operators busy_operator_rooms running
  picked_signs true session_id operator_id w = refl
  picked_signs false session_id operator_id w = ground arith

  module _ (session_id operator_id : ℕ) (w : World) (up : w.redis_up ≡ true) where
    check_after :
        after (check_session (computing s) session_id operator_id w)
        ≡ after (
            (if is_fresh (signs w) operator_id
                then skip
                else reclaim (computing s) session_id operator_id)
              w)
    unfolding check_session running
    check_after =
        caught_after (
          judge (computing s) session_id operator_id
            (get_operator_heartbeat (computing s) operator_id w))
        ∙ ap (λ o. after (judge (computing s) session_id operator_id o)) (heard s operator_id w up)

    check_signs : signs (after (check_session (computing s) session_id operator_id w)) ≡ signs w
    check_signs =
        ap signs check_after
        ∙ picked_signs (is_fresh (signs w) operator_id) session_id operator_id w

    check_sessions_of :
        (after (check_session (computing s) session_id operator_id w)).sessions
        ≡ checked (is_fresh (signs w) operator_id) session_id operator_id w.sessions
    check_sessions_of =
        ap (λ (x : World). x.sessions) check_after
        ∙ (picked (is_fresh (signs w) operator_id) (reclaim (computing s) session_id operator_id) w
            ∙ ap (λ t. if is_fresh (signs w) operator_id then w.sessions else t)
                (reclaim_sessions s session_id operator_id w))

  checks_one :
      (session_id operator_id : ℕ) → Quiet (check_session (computing s) session_id operator_id)
  unfolding check_session
  checks_one session_id operator_id = search quiet_rules

  -- One row of the loop.
  abbrev check_row : EmergencySession → M (Unit {0})
  check_row r = elim r.assigned_operator_id [
    | none ↦ skip
    | some id ↦ check_session (computing s) r.id id
  ]

  checks_row :
      (r : EmergencySession) (o : Option ℕ)
      → Quiet (check_row (record r { assigned_operator_id = o }))
  checks_row r none = skips
  checks_row r (some id) = checks_one r.id id

  pub checks_all : (rs : List EmergencySession) → Quiet (check_sessions (computing s) rs)
  unfolding check_sessions
  checks_all [] = skips
  checks_all (r ∷ rs) = seq (checks_row r r.assigned_operator_id) (checks_all rs)

  row_after :
      (r : EmergencySession) (o : Option ℕ) (w : World)
      → w.redis_up ≡ true
      → (signs (after (check_row (record r { assigned_operator_id = o }) w)) ≡ signs w)
        × ((after (check_row (record r { assigned_operator_id = o }) w)).sessions ≡ (elim o [
          | none ↦ w.sessions
          | some id ↦ checked (is_fresh (signs w) id) r.id id w.sessions
        ]))
  unfolding running
  row_after r none w up = (refl, refl)
  row_after r (some id) w up = (check_signs r.id id w up, check_sessions_of r.id id w up)

  pub check_sessions-sweep :
      (rs : List EmergencySession) (w : World)
      → w.redis_up ≡ true
      → (after (check_sessions (computing s) rs w)).sessions
        ≡ sweep (is_fresh (signs w)) rs w.sessions
  unfolding check_sessions running
  check_sessions-sweep [] w up = refl
  check_sessions-sweep (r ∷ rs) w up =
      let (same, done) = row_after r r.assigned_operator_id w up in
      ap (λ (x : World). x.sessions)
        (after-seq (check_row r) (check_sessions (computing s) rs) w
          (checks_row r r.assigned_operator_id))
      ∙ (check_sessions-sweep rs (after (check_row r w)) (ap (λ (x : Signs). x.1.0) same ∙ up)
          ∙ (ap (λ x. sweep (is_fresh x) rs (after (check_row r w)).sessions) same
              ∙ ap (λ t. sweep (is_fresh (signs w)) rs t) done))
