-- ===== src/Controllers/Supervision.antt =====
-- modules/admin/admin.controller.ts: the emergencies and the operators.
use aalam_security_back.Common.{ℕ, Bool, Option, some, List, [], ◌∷◌}
use aalam_security_back.Schema.{Text, Role, User, EmergencySession}
use aalam_security_back.World.{M}
use aalam_security_back.Queries.{Page}
use aalam_security_back.Guards.{Principal}
use aalam_security_back.Admin.Sessions
use aalam_security_back.Admin.Sessions.{EmergenciesQuery}
use aalam_security_back.Admin.Operators
use aalam_security_back.Admin.Operators.{OperatorPage, OperatorView, UpdateOperatorDto}
use aalam_security_back.Controllers.Environment.{Environment, PaginationQuery, page_of, limit_of}

-- The routes under /admin/emergencies and /admin/operators.
pub data SupervisionRoute : Type 0 where
  list_emergencies : EmergenciesQuery → SupervisionRoute
  show_emergency : ℕ → SupervisionRoute
  assign reassign : ℕ → ℕ → SupervisionRoute
  unassign : ℕ → SupervisionRoute
  close : ℕ → Option Text → SupervisionRoute
  list_operators : PaginationQuery → SupervisionRoute
  show_operator : ℕ → SupervisionRoute
  edit_operator : ℕ → UpdateOperatorDto → SupervisionRoute
  set_password : ℕ → Text → SupervisionRoute
  drop_operator : ℕ → SupervisionRoute
  move_shift : ℕ → Bool → SupervisionRoute

abbrev pub SupervisionAnswer : SupervisionRoute → Type 0
SupervisionAnswer (list_emergencies q) = Page
SupervisionAnswer (show_emergency id) = EmergencySession
SupervisionAnswer (assign id operator_id) = EmergencySession
SupervisionAnswer (reassign id operator_id) = EmergencySession
SupervisionAnswer (unassign id) = EmergencySession
SupervisionAnswer (close id resolution) = EmergencySession
SupervisionAnswer (list_operators q) = OperatorPage
SupervisionAnswer (show_operator id) = OperatorView
SupervisionAnswer (edit_operator id dto) = User
SupervisionAnswer (set_password id password) = Unit
SupervisionAnswer (drop_operator id) = Unit
SupervisionAnswer (move_shift id on_shift) = User

-- `@Roles` of the class.
abbrev pub supervision_roles : SupervisionRoute → Option (List Role)
supervision_roles r = some (Role.admin ∷ [])

unfoldable pub supervision_controller :
    (e : Environment) → Principal → (r : SupervisionRoute) → M (SupervisionAnswer r)
supervision_controller e user (list_emergencies q) = Sessions.get_emergencies e.services q
supervision_controller e user (show_emergency id) = Sessions.get_emergency_by_id e.services id
supervision_controller e user (assign id operator_id) =
    Sessions.assign_session e.services id operator_id
supervision_controller e user (reassign id operator_id) =
    Sessions.reassign_session e.services id operator_id
supervision_controller e user (unassign id) = Sessions.unassign_session e.services id
supervision_controller e user (close id resolution) =
    Sessions.close_session_admin e.services id resolution
supervision_controller e user (list_operators q) =
    Operators.get_operators e.services e.collates (page_of q) (limit_of q)
supervision_controller e user (show_operator id) = Operators.get_operator_by_id e.services id
supervision_controller e user (edit_operator id dto) = Operators.update_operator e.services id dto
supervision_controller e user (set_password id password) =
    Operators.set_operator_password e.services id password
supervision_controller e user (drop_operator id) = Operators.delete_operator e.services id
supervision_controller e user (move_shift id on_shift) =
    Operators.set_operator_shift e.services id on_shift
