-- ===== src/Dispatch/Shifts.antt =====
-- When the end of a shift is refused, in modules/dispatch/dispatch.service.ts.
use aalam_security_back.Common.{
  ℕ, ◌≡◌, refl, Bool, not, ◌&&◌, none, some, List, [], ◌∷◌, arith, ◌==◌, any, if◌then◌else◌,
  Bool-cases, inl, inr,
}
use aalam_security_back.Schema.{User, EmergencySession}
use aalam_security_back.Errors.{ErrorCode, open_sessions, conflict}
use aalam_security_back.Services.{Services, Documented, computing, services-eq}
use aalam_security_back.Rows.{count}
use aalam_security_back.World.{World, raised, running}
use aalam_security_back.Queries.{user_by_id, is_open_of}
use aalam_security_back.Gateway.{set_operator_shift_room}
use aalam_security_back.Dispatch.{count_open_assigned, leave_shift, end_shift}

-- `{ id, assignedSessions: { none: … } }`
abbrev pub may_leave : ℕ → List EmergencySession → User → Bool
may_leave operator_id t u = u.id == operator_id && not (any (is_open_of u.id) t)

any_of_count :
    (p : EmergencySession → Bool) (t : List EmergencySession) → any p t ≡ not (count p t == 0)
any_of_count p [] = refl
any_of_count p (r ∷ rs) = ground (arith, any_of_count p rs)

count-may_leave :
    (operator_id : ℕ) (t : List EmergencySession) (users : List User)
    → (count (may_leave operator_id t) users == 0)
      ≡ not (any (user_by_id operator_id) users && (count (is_open_of operator_id) t == 0))
count-may_leave operator_id t [] = refl
count-may_leave operator_id t (u ∷ us) = elim (Bool-cases (u.id == operator_id)) [
  | inr other ↦ ground (arith, count-may_leave operator_id t us)
  | inl same ↦
      let e : u.id ≡ operator_id = ground arith in
      rw e
        (ground (arith, count-may_leave operator_id t us, any_of_count (is_open_of operator_id) t))
]

end_computing :
    (s : Services) (operator_id : ℕ) (w : World)
    → raised (end_shift (computing s) operator_id w) ≡ (
        if any (user_by_id operator_id) w.users && (count (is_open_of operator_id) w.sessions == 0)
        then none
        else some (
            conflict ErrorCode.shift_has_open_sessions
              (open_sessions (count (is_open_of operator_id) w.sessions))))
unfolding end_shift leave_shift count_open_assigned set_operator_shift_room running
end_computing s operator_id w =
    rw (count-may_leave operator_id w.sessions w.users)
      (elim (Bool-cases (
        any (user_by_id operator_id) w.users && (count (is_open_of operator_id) w.sessions == 0))) [
          | inl free ↦ rw free refl
          | inr bound ↦ rw bound refl
        ])

-- The end of a shift succeeds exactly for a known operator who leads no open call; every other
-- attempt is refused with SHIFT_HAS_OPEN_SESSIONS and the number of the open calls, which is 0 for
-- an operator who is not in the table.
pub end_shift-raised :
    (s : Services) (d : Documented s) (operator_id : ℕ) (w : World)
    → raised (end_shift s operator_id w) ≡ (
        if any (user_by_id operator_id) w.users && (count (is_open_of operator_id) w.sessions == 0)
        then none
        else some (
            conflict ErrorCode.shift_has_open_sessions
              (open_sessions (count (is_open_of operator_id) w.sessions))))
end_shift-raised s d = rw (services-eq d) (end_computing s)
