-- ===== src/System/Handlers.antt =====
-- The desk's moves under the handlers of the dispatch service.
use aalam_security_back.Common.{
  ℕ, ◌≡◌, refl, Bool, true, false, ◌&&◌, List, [], ◌∷◌, arith, any, ◌==◌, not,
}
use aalam_security_back.Schema.{Text, User}
use aalam_security_back.Services.{Services, computing}
use aalam_security_back.Rows.{find, set_all}
use aalam_security_back.Rows.Counts.{any-set_all, count-eq-zero-of_any}
use aalam_security_back.World.{running}
use aalam_security_back.World.Keeps.{Keeps, caught_not_found, bind, seq, atomic, rules}
use aalam_security_back.Queries.{is_open_of, user_by_id, is_in_pool, end_shift_of}
use aalam_security_back.Gateway.Connect.{is_user_on_shift}
use aalam_security_back.System.{Desk, is_on_duty, progress, close, Reach, Reached}
use aalam_security_back.System.Effects.{then_assign, then_staff, updates, updates_users, effects}
use aalam_security_back.Dispatch.{
  accept_session, claim, start_progress, resolve_session, heartbeat, start_shift, end_shift,
  leave_shift,
}

pub on_duty_of_find :
    (o : ℕ) (users : List User)
    → is_user_on_shift (find (user_by_id o) users) ≡ true
    → any (is_on_duty o) users ≡ true
on_duty_of_find o [] h = h
on_duty_of_find o (u ∷ us) h = ground (arith, on_duty_of_find o us)

-- Ending the shifts of users with no open call takes nobody off duty who leads one.
pub then_end_shift :
    {uuid : ℕ → ℕ} {start d : Desk}
    → Reach uuid start d
    → (p : User → Bool) → ((u : User) → p u ≡ true → any (is_open_of u.id) d.sessions ≡ false)
    → Reach uuid start (record d { users = set_all p end_shift_of d.users })
then_end_shift {d} r p h = then_staff r _ λ o busy.
    any-set_all p (is_on_duty o) end_shift_of
      (λ u on hit.
        let same : u.id ≡ o = ground arith in
        absurd (
          omega
            (arith, busy, count-eq-zero-of_any (is_open_of o) d.sessions (rw same at (h u hit)))))
      d.users

module _ (s : Services) (start : Desk) where
  claims :
      (session_id operator_id : ℕ)
      → Keeps (Reached s.uuid start) (claim (computing s) session_id operator_id)
  unfolding claim running
  claims session_id operator_id = record {
    run = λ w r. ground (
      arith,
      on_duty_of_find operator_id w.users,
      then_assign r operator_id (λ r. r.id == session_id && is_in_pool r) (λ r hit. ground arith),
    );
  }

  pub accepts :
      (session_id operator_id : ℕ)
      → Keeps (Reached s.uuid start) (accept_session (computing s) session_id operator_id)
  unfolding accept_session
  accepts session_id operator_id =
      caught_not_found (bind (atomic (claims session_id operator_id)) (λ r. search rules))
        (search rules)

  pub progresses :
      (session_id operator_id : ℕ)
      → Keeps (Reached s.uuid start) (start_progress (computing s) session_id operator_id)
  unfolding start_progress
  progresses session_id operator_id =
      caught_not_found
        (bind (updates s start _ _ (λ r hit. progress (ground arith))) (λ r. search rules))
        (search rules)

  pub resolves :
      (session_id operator_id : ℕ) (resolution : Text)
      → Keeps
          (Reached s.uuid start)
          (resolve_session (computing s) session_id operator_id resolution)
  unfolding resolve_session
  resolves session_id operator_id resolution =
      caught_not_found
        (bind (search rules) (λ now.
          bind (updates s start _ _ (λ r hit. close _ (ground arith) refl refl refl refl))
            (λ r. search rules)))
        (search rules)

  pub starts_shift :
      (operator_id : ℕ) → Keeps (Reached s.uuid start) (start_shift (computing s) operator_id)
  unfolding start_shift
  starts_shift operator_id =
      bind (search rules)
        (λ now. seq (updates_users s start _ _ (λ o u on hit. ground arith)) (search effects))

  pub beats_heart :
      (operator_id : ℕ) → Keeps (Reached s.uuid start) (heartbeat (computing s) operator_id)
  unfolding heartbeat
  beats_heart operator_id = search effects

  leaves : (operator_id : ℕ) → Keeps (Reached s.uuid start) (leave_shift (computing s) operator_id)
  unfolding leave_shift running
  leaves operator_id = record {
    run = λ w r.
        then_end_shift r (λ u. u.id == operator_id && not (any (is_open_of u.id) w.sessions))
          (λ u hit. ground arith);
  }

  pub ends_shift :
      (operator_id : ℕ) → Keeps (Reached s.uuid start) (end_shift (computing s) operator_id)
  unfolding end_shift
  ends_shift operator_id = bind (atomic (leaves operator_id)) (λ count. search effects)
