-- ===== src/Controllers/Desk.antt =====
-- modules/dispatch/dispatch.controller.ts and modules/emergency/emergency.controller.ts
use aalam_security_back.Common.{ℕ, Option, some, List, [], ◌∷◌}
use aalam_security_back.Schema.{Text, Role, EmergencySession, EmergencyLocation}
use aalam_security_back.World.{M}
use aalam_security_back.Queries.{Page}
use aalam_security_back.Guards.{Principal}
use aalam_security_back.Dispatch
use aalam_security_back.Dispatch.{Shift}
use aalam_security_back.Emergency
use aalam_security_back.Emergency.{CreateLocationDto}
use aalam_security_back.Controllers.Environment.{Environment, PaginationQuery, page_of, limit_of}

pub data DispatchRoute : Type 0 where
  progress : ℕ → DispatchRoute
  finish : ℕ → Text → DispatchRoute
  list_history : PaginationQuery → DispatchRoute
  ping show_shift begin_shift finish_shift : DispatchRoute
  list_pool : PaginationQuery → DispatchRoute
  accept : ℕ → DispatchRoute

abbrev pub DispatchAnswer : DispatchRoute → Type 0
DispatchAnswer (progress id) = EmergencySession
DispatchAnswer (finish id resolution) = EmergencySession
DispatchAnswer (list_history q) = Page
DispatchAnswer ping = Unit
DispatchAnswer show_shift = Shift
DispatchAnswer begin_shift = Shift
DispatchAnswer finish_shift = Shift
DispatchAnswer (list_pool q) = Page
DispatchAnswer (accept id) = EmergencySession

abbrev pub dispatch_roles : DispatchRoute → Option (List Role)
dispatch_roles r = some (Role.operator ∷ [])

unfoldable pub dispatch_controller :
    (e : Environment) → Principal → (r : DispatchRoute) → M (DispatchAnswer r)
dispatch_controller e user (progress id) = Dispatch.start_progress e.services id user.id
dispatch_controller e user (finish id resolution) =
    Dispatch.resolve_session e.services id user.id resolution
dispatch_controller e user (list_history q) =
    Dispatch.get_operator_history e.services user.id (page_of q) (limit_of q)
dispatch_controller e user ping = Dispatch.heartbeat e.services user.id
dispatch_controller e user show_shift = Dispatch.get_shift e.services user.id
dispatch_controller e user begin_shift = Dispatch.start_shift e.services user.id
dispatch_controller e user finish_shift = Dispatch.end_shift e.services user.id
dispatch_controller e user (list_pool q) =
    Dispatch.get_pool e.services user.id (page_of q) (limit_of q)
dispatch_controller e user (accept id) = Dispatch.accept_session e.services id user.id

pub data EmergencyRoute : Type 0 where
  start : Option ℕ → EmergencyRoute
  list_active list_own : PaginationQuery → EmergencyRoute
  locate : ℕ → CreateLocationDto → EmergencyRoute
  close_own show_one : ℕ → EmergencyRoute

abbrev pub EmergencyAnswer : EmergencyRoute → Type 0
EmergencyAnswer (start venue_id) = EmergencySession
EmergencyAnswer (list_active q) = Page
EmergencyAnswer (list_own q) = Page
EmergencyAnswer (locate id dto) = Option EmergencyLocation
EmergencyAnswer (close_own id) = EmergencySession
EmergencyAnswer (show_one id) = EmergencySession

-- `@Roles` of each handler.
abbrev pub emergency_roles : EmergencyRoute → Option (List Role)
emergency_roles (list_active q) = some (Role.operator ∷ [])
emergency_roles (show_one id) = some (Role.operator ∷ [])
emergency_roles _ = some (Role.user ∷ [])

unfoldable pub emergency_controller :
    (e : Environment) → Principal → (r : EmergencyRoute) → M (EmergencyAnswer r)
emergency_controller e user (start venue_id) = Emergency.start_session e.services user.id venue_id
emergency_controller e user (list_active q) =
    Emergency.get_my_assigned_sessions e.services user.id (page_of q) (limit_of q)
emergency_controller e user (list_own q) =
    Emergency.get_user_history e.services user.id (page_of q) (limit_of q)
emergency_controller e user (locate id dto) = Emergency.add_location e.services id user.id dto
emergency_controller e user (close_own id) = Emergency.close_session e.services id user.id
emergency_controller e user (show_one id) = Emergency.get_operator_session e.services id user.id
