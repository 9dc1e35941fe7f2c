-- ===== src/System.antt =====
-- The dispatch desk as a transition system: how a session may change and how the tables may change.
pub mod Invariant
pub mod Edits
pub mod Effects
pub mod Handlers
pub mod Emergencies
pub mod Scheduled
pub mod Administration
pub mod Connections
pub mod Accounts
pub mod Premises
pub mod Memberships
pub mod Calls
pub mod Histories
pub mod Evolution
pub mod Safety
use aalam_security_back.Common.{
  ℕ, suc, ◌≤◌, ◌<◌, ◌≡◌, Bool, true, false, ◌&&◌, Option, none, some, List, ◌∷◌, any, is_some, ◌==◌,
}
use aalam_security_back.Schema.{
  User, EmergencySession, EmergencyStatus, new, assigned, in_progress, closed, is_closed,
}
use aalam_security_back.Rows.{count, set_first}
use aalam_security_back.Queries.{is_open_of, assign_to, return_to_pool}
use aalam_security_back.World.{World}

-- What the transition system speaks of.
pub record Desk : Type 0 where
  pub drawn : ℕ
  pub sessions : List EmergencySession
  pub users : List User

abbrev pub desk : World → Desk
desk w = record { drawn = w.drawn; sessions = w.sessions; users = w.users }

abbrev pub is_on_duty : ℕ → User → Bool
is_on_duty operator_id u = u.id == operator_id && u.on_shift

-- A session's own changes. Nothing leaves the closed state.
pub data RowMove (r : EmergencySession) : EmergencySession → Type 0 where
  touch : RowMove r r
  progress : r.status ≡ assigned → RowMove r (record r { status = in_progress })
  back : is_closed r.status ≡ false → RowMove r (return_to_pool r)
  close :
      (q : EmergencySession)
      → is_closed r.status ≡ false
      → q.id ≡ r.id
      → q.user_id ≡ r.user_id
      → q.status ≡ closed
      → is_some q.closed_at ≡ true
      → RowMove r q

-- A session as it is raised: free, and under the identifier that was just drawn.
pub record IsRaised (uuid : ℕ → ℕ) (drawn : ℕ) (r : EmergencySession) : Type 0 where
  pub fresh : r.id ≡ uuid drawn
  pub is_new : r.status ≡ new
  pub free : r.assigned_operator_id ≡ none
  pub unclosed : r.closed_at ≡ none

pub data Move (uuid : ℕ → ℕ) (d : Desk) : Desk → Type 0 where
  draw : Move uuid d (record d { drawn = suc d.drawn })
  raise :
      (r : EmergencySession)
      → IsRaised uuid d.drawn r
      → Move uuid d (record d { drawn = suc d.drawn; sessions = r ∷ d.sessions })
  edit :
      (p : EmergencySession → Bool) (f : EmergencySession → EmergencySession)
      → ((r : EmergencySession) → p r ≡ true → RowMove r (f r))
      → Move uuid d (record d { sessions = set_first p f d.sessions })
  -- an unclosed session goes to an operator who is on shift and leads no call
  assign :
      (operator_id : ℕ) (p : EmergencySession → Bool)
      → ((r : EmergencySession) → p r ≡ true → is_closed r.status ≡ false)
      → count (is_open_of operator_id) d.sessions ≡ 0
      → any (is_on_duty operator_id) d.users ≡ true
      → Move uuid d (record d { sessions = set_first p (assign_to operator_id) d.sessions })
  -- users change, and nobody who leads a call goes off shift
  staff :
      (users : List User)
      → ((operator_id : ℕ)
          → 0 < count (is_open_of operator_id) d.sessions
          → any (is_on_duty operator_id) d.users ≡ true
          → any (is_on_duty operator_id) users ≡ true)
      → Move uuid d (record d { users = users })

pub data Reach (uuid : ℕ → ℕ) (d : Desk) : Desk → Type 0 where
  here : Reach uuid d d
  next : {e f : Desk} → Reach uuid d e → Move uuid e f → Reach uuid d f

-- The states from which the desk got here by moves.
abbrev pub Reached : (ℕ → ℕ) → Desk → World → Type 0
Reached uuid start w = Reach uuid start (desk w)
