-- ===== src/Controllers/Administration.antt =====
-- modules/admin/admin.controller.ts: organizations, applications, accounts and subscription requests.
use aalam_security_back.Common.{ℕ, Option, some, List, [], ◌∷◌}
use aalam_security_back.Schema.{
  Text, Role, User, Organization, OrganizationMember, OrganizationApplication, RequestStatus, Venue,
}
use aalam_security_back.World.{M}
use aalam_security_back.Guards.{Principal}
use aalam_security_back.Admin.Operators
use aalam_security_back.Admin.Operators.{OperatorPage, OperatorView, UpdateOperatorDto}
use aalam_security_back.Admin.Organizations
use aalam_security_back.Admin.Organizations.{OrganizationPage, OrganizationView}
use aalam_security_back.Admin.Members
use aalam_security_back.Admin.Members.{AddOrganizationMemberDto, UpdateOrganizationMemberDto}
use aalam_security_back.Admin.Venues
use aalam_security_back.Admin.Venues.{UpdateVenueDto}
use aalam_security_back.Venues.Creation.{CreateVenueDto}
use aalam_security_back.Applications
use aalam_security_back.Applications.{ApplicationPage}
use aalam_security_back.Subscriptions
use aalam_security_back.Subscriptions.{RequestPage, RequestView}
use aalam_security_back.Controllers.Environment.{Environment, PaginationQuery, page_of, limit_of}

-- The other routes under /admin.
pub data AdminRoute : Type 0 where
  list_organizations : PaginationQuery → AdminRoute
  show_organization : ℕ → AdminRoute
  add_organization : Text → AdminRoute
  edit_organization : ℕ → Option Text → AdminRoute
  drop_organization : ℕ → AdminRoute
  add_member : ℕ → AddOrganizationMemberDto → AdminRoute
  edit_member : ℕ → UpdateOrganizationMemberDto → AdminRoute
  add_venue : ℕ → CreateVenueDto → AdminRoute
  edit_venue : ℕ → UpdateVenueDto → AdminRoute
  drop_venue drop_member : ℕ → AdminRoute
  list_applications : Option RequestStatus → PaginationQuery → AdminRoute
  show_application : ℕ → AdminRoute
  approve_application reject_application : ℕ → Option Text → AdminRoute
  add_operator : Text → Text → AdminRoute
  list_requests : Option RequestStatus → PaginationQuery → AdminRoute
  show_request : ℕ → AdminRoute
  approve_request : ℕ → Option ℕ → AdminRoute
  reject_request : ℕ → Option Text → AdminRoute

abbrev pub AdminAnswer : AdminRoute → Type 0
AdminAnswer (list_organizations q) = OrganizationPage
AdminAnswer (show_organization id) = OrganizationView
AdminAnswer (add_organization name) = Organization
AdminAnswer (edit_organization id name) = Organization
AdminAnswer (drop_organization id) = Unit
AdminAnswer (add_member id dto) = OrganizationMember
AdminAnswer (edit_member id dto) = OrganizationMember
AdminAnswer (add_venue id dto) = Venue
AdminAnswer (edit_venue id dto) = Venue
AdminAnswer (drop_venue id) = Unit
AdminAnswer (drop_member id) = Unit
AdminAnswer (list_applications status q) = ApplicationPage
AdminAnswer (show_application id) = OrganizationApplication
AdminAnswer (approve_application id name) = OrganizationApplication
AdminAnswer (reject_application id reason) = OrganizationApplication
AdminAnswer (add_operator email password) = User
AdminAnswer (list_requests status q) = RequestPage
AdminAnswer (show_request id) = RequestView
AdminAnswer (approve_request id expires_at) = RequestView
AdminAnswer (reject_request id reason) = RequestView

-- `@Roles` of the class.
abbrev pub admin_roles : AdminRoute → Option (List Role)
admin_roles r = some (Role.admin ∷ [])

unfoldable pub admin_controller :
    (e : Environment) → Principal → (r : AdminRoute) → M (AdminAnswer r)
admin_controller e user (list_organizations q) =
    Organizations.get_organizations e.services e.collates (page_of q) (limit_of q)
admin_controller e user (show_organization id) = Organizations.get_organization_by_id e.services id
admin_controller e user (add_organization name) =
    Organizations.create_organization e.services e.letters e.random_bytes name
admin_controller e user (edit_organization id name) =
    Organizations.update_organization e.services e.random_bytes id name
admin_controller e user (drop_organization id) = Organizations.delete_organization e.services id
admin_controller e user (add_member id dto) = Members.add_organization_member e.services id dto
admin_controller e user (edit_member id dto) = Members.update_organization_member e.services id dto
admin_controller e user (add_venue id dto) =
    Venues.create_venue_as_admin e.services e.random_bytes id dto
admin_controller e user (edit_venue id dto) = Venues.update_venue e.services id dto
admin_controller e user (drop_venue id) = Venues.delete_venue e.services id
admin_controller e user (drop_member id) = Members.remove_organization_member e.services id
admin_controller e user (list_applications status q) =
    Applications.get_organization_applications e.services status (page_of q) (limit_of q)
admin_controller e user (show_application id) =
    Applications.get_organization_application_by_id e.services id
admin_controller e user (approve_application id name) =
    Applications.approve_organization_application e.services e.letters e.random_bytes id name
admin_controller e user (reject_application id reason) =
    Applications.reject_organization_application e.services id reason
admin_controller e user (add_operator email password) =
    Operators.create_operator e.services email password
admin_controller e user (list_requests status q) =
    Subscriptions.get_subscription_requests e.services status (page_of q) (limit_of q)
admin_controller e user (show_request id) =
    Subscriptions.get_subscription_request_by_id e.services id
admin_controller e admin (approve_request id expires_at) =
    Subscriptions.approve_subscription_request e.services id admin.id expires_at
admin_controller e user (reject_request id reason) =
    Subscriptions.reject_subscription_request e.services id reason
