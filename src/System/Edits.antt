-- ===== src/System/Edits.antt =====
-- The edits of the two tables that the moves make, and the part of the invariant that speaks of
-- who leads which call.
use aalam_security_back.Common.{
  ℕ, ◌≤◌, ◌<◌, ◌≡◌, Bool, true, false, none, List, ◌∷◌, arith, any, All, is_some, ◌==◌, Bool-cases,
  inl, inr,
}
use aalam_security_back.Schema.{
  User, EmergencySession, EmergencyStatus, new, assigned, in_progress, closed,
}
use aalam_security_back.Rows.{count, set_first}
use aalam_security_back.Rows.Counts.{count-set_first-le, count-set_first-le_suc, All-set_first}
use aalam_security_back.Queries.{is_open_of, assign_to}
use aalam_security_back.System.{is_on_duty}

-- A free session has no assignee, one under way has, and the closed ones are those with a
-- closing time.
abbrev pub ShapeOf : EmergencyStatus → EmergencySession → Type 0
ShapeOf new r = (is_some r.assigned_operator_id ≡ false) × (is_some r.closed_at ≡ false)
ShapeOf assigned r = (is_some r.assigned_operator_id ≡ true) × (is_some r.closed_at ≡ false)
ShapeOf in_progress r = (is_some r.assigned_operator_id ≡ true) × (is_some r.closed_at ≡ false)
ShapeOf closed r = is_some r.closed_at ≡ true

abbrev pub IsShaped : EmergencySession → Type 0
IsShaped r = ShapeOf r.status r

pub record IsConsistent (sessions : List EmergencySession) (users : List User) : Type 0 where
  -- an operator leads one call at a time
  pub one_open : (operator_id : ℕ) → count (is_open_of operator_id) sessions ≤ 1
  -- and is on shift while leading it
  pub on_duty :
      (operator_id : ℕ)
      → 0 < count (is_open_of operator_id) sessions
      → any (is_on_duty operator_id) users ≡ true
  pub shaped : All IsShaped sessions

module _ {sessions : List EmergencySession} {users : List User}
    (inv : IsConsistent sessions users) where
  -- No row comes to be open for an operator for whom it was not.
  pub release :
      (p : EmergencySession → Bool) (f : EmergencySession → EmergencySession)
      → ((o : ℕ) (r : EmergencySession)
          → p r ≡ true
          → is_open_of o (f r) ≡ true
          → is_open_of o r ≡ true)
      → ((r : EmergencySession) → p r ≡ true → IsShaped r → IsShaped (f r))
      → IsConsistent (set_first p f sessions) users
  release p f h k = record {
    one_open =
        λ o. omega (arith, count-set_first-le p (is_open_of o) f (h o) sessions, inv.one_open o);
    on_duty = λ o busy.
        inv.on_duty o (omega (arith, count-set_first-le p (is_open_of o) f (h o) sessions));
    shaped = All-set_first p (is_open_of 0) f IsShaped k sessions inv.shaped;
  }

  assign_one_open :
      (o : ℕ) (p : EmergencySession → Bool)
      → count (is_open_of o) sessions ≡ 0
      → (o' : ℕ) → count (is_open_of o') (set_first p (assign_to o) sessions) ≤ 1
  assign_one_open o p free o' = elim (Bool-cases (o == o')) [
    | inl same ↦
        let e : o' ≡ o = ground arith in
        rw e (omega (arith, free, count-set_first-le_suc p (is_open_of o) (assign_to o) sessions))
    | inr other ↦ omega (
      arith,
      inv.one_open o',
      count-set_first-le p (is_open_of o') (assign_to o) (λ r _ e. absurd (ground arith)) sessions,
    )
  ]

  assign_on_duty :
      (o : ℕ) (p : EmergencySession → Bool)
      → any (is_on_duty o) users ≡ true
      → (o' : ℕ) → 0 < count (is_open_of o') (set_first p (assign_to o) sessions)
      → any (is_on_duty o') users ≡ true
  assign_on_duty o p ready o' busy = elim (Bool-cases (o == o')) [
    | inl same ↦ let e : o' ≡ o = ground arith in rw e ready
    | inr other ↦ inv.on_duty o' (
        omega (
          arith,
          busy,
          count-set_first-le p (is_open_of o') (assign_to o) (λ r _ e. absurd (ground arith))
              sessions,
        ))
  ]

  -- An operator on shift with no open call is given one.
  pub assign :
      (o : ℕ) (p : EmergencySession → Bool)
      → count (is_open_of o) sessions ≡ 0
      → any (is_on_duty o) users ≡ true
      → ((r : EmergencySession) → p r ≡ true → IsShaped r → IsShaped (assign_to o r))
      → IsConsistent (set_first p (assign_to o) sessions) users
  assign o p free ready k = record {
    one_open = assign_one_open o p free;
    on_duty = assign_on_duty o p ready;
    shaped = All-set_first p (is_open_of 0) (assign_to o) IsShaped k sessions inv.shaped;
  }

  -- A session with no assignee is added.
  pub create :
      (r : EmergencySession)
      → r.assigned_operator_id ≡ none
      → IsShaped r
      → IsConsistent (r ∷ sessions) users
  create r e shape = record {
    one_open = λ o. rw e (inv.one_open o);
    on_duty = λ o. rw e (inv.on_duty o);
    shaped = (shape, inv.shaped);
  }

  -- The users change, and whoever leads a call stays on shift.
  pub staff :
      (users' : List User)
      → ((o : ℕ)
          → 0 < count (is_open_of o) sessions
          → any (is_on_duty o) users ≡ true
          → any (is_on_duty o) users' ≡ true)
      → IsConsistent sessions users'
  staff users' h = record {
    one_open = inv.one_open;
    on_duty = λ o busy. h o busy (inv.on_duty o busy);
    shaped = inv.shaped;
  }
