-- ===== src/Dispatch/Exclusion.antt =====
-- Two operators who accept one session of modules/dispatch/dispatch.service.ts, in either order.
use aalam_security_back.Common.{
  ℕ, ◌≤◌, ◌≡◌, ◌≢◌, refl, ◌∙◌, true, false, none, some, List, arith, any, Option-cases, inl, inr,
}
use aalam_security_back.Schema.{EmergencySession}
use aalam_security_back.Errors.{ErrorCode, no_details, conflict}
use aalam_security_back.Services.{Services, Documented, computing, services-eq}
use aalam_security_back.Rows.{find, count, set_first}
use aalam_security_back.Rows.Counts.{
  find-set_first_key, any-eq-false-of_find_key, count-set_first_same, count-set_first-le,
}
use aalam_security_back.World.{World, after, raised, running}
use aalam_security_back.Gateway.Connect.{is_user_on_shift}
use aalam_security_back.Queries.{user_by_id, session_by_id, is_open_of, assign_to}
use aalam_security_back.Dispatch.{claim, refuse_claim, accept_session}
use aalam_security_back.Dispatch.Outcomes.{is_offered, accept_refusal, accept_session-raised}

-- What a successful acceptance did.
record Accepted (session_id operator_id : ℕ) (w next : World) : Type 0 where
  row : EmergencySession
  found : find (is_offered session_id) w.sessions ≡ some row
  sessions : next.sessions ≡ set_first (is_offered session_id) (assign_to operator_id) w.sessions
  users : next.users ≡ w.users

accept-Accepted :
    (s : Services) (session_id operator_id : ℕ) (w : World)
    → raised (accept_session (computing s) session_id operator_id w) ≡ none
    → Accepted session_id operator_id w
        (after (accept_session (computing s) session_id operator_id w))
unfolding accept_session claim refuse_claim running
accept-Accepted s session_id operator_id w h =
    elim (Option-cases (find (is_offered session_id) w.sessions)) [
      | inl missing ↦ absurd (ground arith)
      | inr (r, e) ↦ record { row = r; found = e; sessions = ground arith; users = ground arith }
    ]

accepted :
    (s : Services) (d : Documented s) (session_id operator_id : ℕ) (w : World)
    → raised (accept_session s session_id operator_id w) ≡ none
    → Accepted session_id operator_id w (after (accept_session s session_id operator_id w))
accepted s d = rw (services-eq d) (accept-Accepted s)

module _ (session_id a b : ℕ) (t : List EmergencySession) where
  -- A session that one operator has taken is offered to nobody.
  no_longer_offered :
      (r : EmergencySession)
      → count (session_by_id session_id) t ≤ 1
      → find (is_offered session_id) t ≡ some r
      → any (is_offered session_id) (set_first (is_offered session_id) (assign_to a) t) ≡ false
  no_longer_offered r unique e =
      any-eq-false-of_find_key (session_by_id session_id) (is_offered session_id)
        (λ x hit. ground arith) _ (assign_to a r)
        (rw
          (count-set_first_same (session_by_id session_id) (is_offered session_id) (assign_to a)
            (λ x. refl) t)
          unique)
        (find-set_first_key (session_by_id session_id) (is_offered session_id)
          (λ x hit. ground arith) (assign_to a) (λ x. refl) t r unique e)
        (ground arith)

  others_stay_free :
      a ≢ b
      → count (is_open_of b) t ≡ 0
      → count (is_open_of b) (set_first (is_offered session_id) (assign_to a) t) ≡ 0
  others_stay_free ne free = omega (
    arith,
    free,
    count-set_first-le (is_offered session_id) (is_open_of b) (assign_to a)
        (λ x hit mine. absurd (ground arith)) t,
  )

exclusive :
    (s : Services) (d : Documented s) (session_id a b : ℕ) (w next : World)
    → Accepted session_id a w next
    → a ≢ b
    → count (session_by_id session_id) w.sessions ≤ 1
    → is_user_on_shift (find (user_by_id b) w.users) ≡ true
    → count (is_open_of b) w.sessions ≡ 0
    → accept_refusal session_id b next
      ≡ some (conflict ErrorCode.session_already_claimed no_details)
exclusive s d session_id a b w next acc ne unique on free =
    rw
      (
        acc.users,
        acc.sessions,
        on,
        others_stay_free session_id a b w.sessions ne free,
        no_longer_offered session_id a b w.sessions acc.row unique acc.found,
        find-set_first_key (session_by_id session_id) (is_offered session_id)
            (λ x hit. ground arith) (assign_to a) (λ x. refl) w.sessions acc.row unique acc.found,
      )
      refl

-- A session has one taker: once an operator's acceptance has succeeded, the acceptance of any other
-- operator who is on shift and free fails with SESSION_ALREADY_CLAIMED. The table's primary key
-- names one row.
pub accept_session-exclusive :
    (s : Services) (d : Documented s) (session_id a b : ℕ) (w : World)
    → raised (accept_session s session_id a w) ≡ none
    → a ≢ b
    → count (session_by_id session_id) w.sessions ≤ 1
    → is_user_on_shift (find (user_by_id b) w.users) ≡ true
    → count (is_open_of b) w.sessions ≡ 0
    → raised (accept_session s session_id b (after (accept_session s session_id a w)))
      ≡ some (conflict ErrorCode.session_already_claimed no_details)
accept_session-exclusive s d session_id a b w done ne unique on free =
    accept_session-raised s d session_id b _
    ∙ exclusive s d session_id a b w _ (accepted s d session_id a w done) ne unique on free
