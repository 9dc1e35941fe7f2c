-- ===== src/Queries.antt =====
-- The `where` and `data` parts that several services share, and what their replies are made of.
pub mod Pages
use aalam_security_back.Common.{
  ℕ, ◌-◌, ◌*◌, Bool, true, false, Option, none, some, List, ◌==◌, holds, is_some, ◌&&◌, not, leb,
}
use aalam_security_back.Schema.{
  Text, User, EmergencySession, EmergencyStatus, is_new, is_assigned, is_closed, assigned, closed,
}
use aalam_security_back.Presence.{is_open_assigned}
use aalam_security_back.Services.{Services}
use aalam_security_back.World.{World, M, read, skip, ◌>>=◌, ◌>>◌, pure}

-- `{ id }`
abbrev pub user_by_id : ℕ → User → Bool
user_by_id id u = u.id == id

abbrev pub session_by_id : ℕ → EmergencySession → Bool
session_by_id id r = r.id == id

-- `{ id, status: { not: 'CLOSED' } }`
abbrev pub unclosed_by_id : ℕ → EmergencySession → Bool
unclosed_by_id id r = r.id == id && not (is_closed r.status)

-- `{ assignedOperatorId: operatorId, status: { in: OPEN_ASSIGNED_STATUSES } }`
abbrev pub is_open_of : ℕ → EmergencySession → Bool
is_open_of operator_id r = holds r.assigned_operator_id operator_id && is_open_assigned r.status

-- `{ status: NEW, assignedOperatorId: null }`
abbrev pub is_in_pool : EmergencySession → Bool
is_in_pool r = is_new r.status && not (is_some r.assigned_operator_id)

abbrev pub oldest_first : EmergencySession → EmergencySession → Bool
oldest_first a b = leb a.created_at b.created_at

abbrev pub assign_to : ℕ → EmergencySession → EmergencySession
assign_to operator_id r = record r { status = assigned; assigned_operator_id = some operator_id }

abbrev pub return_to_pool : EmergencySession → EmergencySession
return_to_pool r = record r { status = EmergencyStatus.new; assigned_operator_id = none }

abbrev pub end_shift_of : User → User
end_shift_of u = record u { on_shift = false; shift_started_at = none }

pub record Page : Type 0 where
  pub rows : List EmergencySession
  pub total : ℕ
  pub page : ℕ
  pub limit : ℕ

-- SELECT … FOR UPDATE. Transactions that take an operator's row run one after another, so each is
-- one step of the model, and the lock itself changes nothing.
abbrev pub lock_operator_row : ℕ → M (Unit {0})
lock_operator_row operator_id = skip

module _ (s : Services) where
  -- `findMany` with `orderBy`, `skip: (page - 1) * limit`, `take: limit`, and `count`.
  unfoldable pub find_page :
      (EmergencySession → Bool) → (EmergencySession → EmergencySession → Bool) → ℕ → ℕ → M Page
  find_page accepts before page limit = do
    rows ← read (λ w. s.find_page accepts before ((page - 1) * limit) limit w.sessions)
    total ← read (λ w. s.count_rows accepts w.sessions)
    pure (record { rows = rows; total = total; page = page; limit = limit })
