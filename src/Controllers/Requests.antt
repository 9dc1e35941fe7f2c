-- ===== src/Controllers/Requests.antt =====
-- A request of a signed-in person to one of the controllers: the guards, then the controller.
use aalam_security_back.Common.{ℕ, Option, none, List}
use aalam_security_back.Schema.{Role}
use aalam_security_back.World.{M, ◌>>=◌, ◌>>◌}
use aalam_security_back.Guards.{Principal, jwt_auth_guard, can_activate}
use aalam_security_back.Controllers.Environment.{Environment}
use aalam_security_back.Controllers.Supervision.{
  SupervisionRoute, SupervisionAnswer, supervision_controller, supervision_roles,
}
use aalam_security_back.Controllers.Administration.{
  AdminRoute, AdminAnswer, admin_controller, admin_roles,
}
use aalam_security_back.Controllers.Desk.{
  DispatchRoute, DispatchAnswer, dispatch_controller, dispatch_roles, EmergencyRoute,
  EmergencyAnswer, emergency_controller, emergency_roles,
}
use aalam_security_back.Controllers.Personal.{
  UsersRoute, UsersAnswer, users_controller, users_roles, OrganizationRoute, OrganizationAnswer,
  organization_controller, organization_roles, VenueRoute, VenueAnswer, venue_controller,
  venue_roles, ContactRoute, ContactAnswer, contact_controller, contact_roles, ApplicationRoute,
  ApplicationAnswer, application_controller, application_roles, SubscriptionRoute,
  SubscriptionAnswer, subscription_controller, subscription_roles,
}
use aalam_security_back.Controllers.Public.{SessionRoute, SessionAnswer, session_controller}

pub data Route : Type 0 where
  supervision : SupervisionRoute → Route
  admin : AdminRoute → Route
  dispatch : DispatchRoute → Route
  emergency : EmergencyRoute → Route
  users : UsersRoute → Route
  organization : OrganizationRoute → Route
  venue : VenueRoute → Route
  contact : ContactRoute → Route
  application : ApplicationRoute → Route
  subscription : SubscriptionRoute → Route
  session : SessionRoute → Route

abbrev pub Answer : Route → Type 0
Answer (supervision r) = SupervisionAnswer r
Answer (admin r) = AdminAnswer r
Answer (dispatch r) = DispatchAnswer r
Answer (emergency r) = EmergencyAnswer r
Answer (users r) = UsersAnswer r
Answer (organization r) = OrganizationAnswer r
Answer (venue r) = VenueAnswer r
Answer (contact r) = ContactAnswer r
Answer (application r) = ApplicationAnswer r
Answer (subscription r) = SubscriptionAnswer r
Answer (session r) = SessionAnswer r

abbrev pub roles_of : Route → Option (List Role)
roles_of (supervision r) = supervision_roles r
roles_of (admin r) = admin_roles r
roles_of (dispatch r) = dispatch_roles r
roles_of (emergency r) = emergency_roles r
roles_of (users r) = users_roles r
roles_of (organization r) = organization_roles r
roles_of (venue r) = venue_roles r
roles_of (contact r) = contact_roles r
roles_of (application r) = application_roles r
roles_of (subscription r) = subscription_roles r
roles_of (session r) = none

abbrev pub controller : (e : Environment) → Principal → (r : Route) → M (Answer r)
controller e user (supervision r) = supervision_controller e user r
controller e user (admin r) = admin_controller e user r
controller e user (dispatch r) = dispatch_controller e user r
controller e user (emergency r) = emergency_controller e user r
controller e user (users r) = users_controller e user r
controller e user (organization r) = organization_controller e user r
controller e user (venue r) = venue_controller e user r
controller e user (contact r) = contact_controller e user r
controller e user (application r) = application_controller e user r
controller e user (subscription r) = subscription_controller e user r
controller e user (session r) = session_controller e user r

-- With the bearer token of the header.
unfoldable pub handle_request : (e : Environment) → Option ℕ → (r : Route) → M (Answer r)
handle_request e token r = do
  user ← jwt_auth_guard e.services token
  can_activate (roles_of r) user
  controller e user r
