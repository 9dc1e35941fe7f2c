-- ===== src/Controllers/Personal.antt =====
-- The controllers of a signed-in person: modules/users/users.controller.ts,
-- modules/organization/organization.controller.ts, modules/venue/venue.controller.ts,
-- modules/emergency-contact/emergency-contact.controller.ts,
-- modules/organization-application/organization-application.controller.ts and
-- modules/subscription-request/subscription-request.controller.ts
use aalam_security_back.Common.{ℕ, Option, none, some, List, [], ◌∷◌}
use aalam_security_back.Schema.{
  Text, Role, User, Organization, Venue, EmergencyContact, OrganizationApplication,
  SubscriptionRequest,
}
use aalam_security_back.World.{M}
use aalam_security_back.Guards.{Principal, role_eq}
use aalam_security_back.Users
use aalam_security_back.Users.{UpdateUserMeDto}
use aalam_security_back.Organizations
use aalam_security_back.Organizations.{MyOrganization}
use aalam_security_back.Venues
use aalam_security_back.Venues.{BindType}
use aalam_security_back.Venues.Creation
use aalam_security_back.Venues.Creation.{CreateVenueDto}
use aalam_security_back.Contacts
use aalam_security_back.Contacts.{CreateEmergencyContactDto}
use aalam_security_back.Applications
use aalam_security_back.Applications.{CreateOrganizationApplicationDto}
use aalam_security_back.Subscriptions
use aalam_security_back.Controllers.Environment.{Environment}

-- modules/users/users.controller.ts
pub data UsersRoute : Type 0 where
  show_me : UsersRoute
  edit_me : UpdateUserMeDto → UsersRoute
  demo_subscription : UsersRoute
  delete_me : UsersRoute
  set_push_token : ℕ → UsersRoute

abbrev pub UsersAnswer : UsersRoute → Type 0
UsersAnswer show_me = User
UsersAnswer (edit_me dto) = User
UsersAnswer demo_subscription = User
UsersAnswer delete_me = Unit
UsersAnswer (set_push_token token) = User

-- `@Roles` of the handler, where RolesGuard is used.
abbrev pub users_roles : UsersRoute → Option (List Role)
users_roles demo_subscription = some (Role.user ∷ [])
users_roles delete_me = some (Role.user ∷ [])
users_roles _ = none

unfoldable pub users_controller :
    (e : Environment) → Principal → (r : UsersRoute) → M (UsersAnswer r)
users_controller e user show_me = Users.find_me e.services user.id
users_controller e user (edit_me dto) = Users.update_me e.services user.id dto
users_controller e user demo_subscription = Users.activate_demo e.services e.production user.id
users_controller e user delete_me = Users.delete_account e.services user.id
users_controller e user (set_push_token token) = Users.register_push_token e.services user.id token

-- modules/organization/organization.controller.ts
pub data OrganizationRoute : Type 0 where
  list_my_organizations : OrganizationRoute
  start_organization : Text → OrganizationRoute

abbrev pub OrganizationAnswer : OrganizationRoute → Type 0
OrganizationAnswer list_my_organizations = List MyOrganization
OrganizationAnswer (start_organization name) = Organization

-- No RolesGuard.
abbrev pub organization_roles : OrganizationRoute → Option (List Role)
organization_roles r = none

unfoldable pub organization_controller :
    (e : Environment) → Principal → (r : OrganizationRoute) → M (OrganizationAnswer r)
organization_controller e user list_my_organizations =
    Organizations.get_my_organizations e.services user.id
organization_controller e user (start_organization name) =
    Organizations.create_owned e.services e.letters e.random_bytes user.id name

-- modules/venue/venue.controller.ts
pub data VenueRoute : Type 0 where
  bind : Text → VenueRoute
  start_venue : ℕ → CreateVenueDto → VenueRoute
  list_venues : ℕ → VenueRoute

abbrev pub VenueAnswer : VenueRoute → Type 0
VenueAnswer (bind code) = BindType
VenueAnswer (start_venue organization_id dto) = Venue
VenueAnswer (list_venues organization_id) = List Venue

-- No RolesGuard.
abbrev pub venue_roles : VenueRoute → Option (List Role)
venue_roles r = none

unfoldable pub venue_controller :
    (e : Environment) → Principal → (r : VenueRoute) → M (VenueAnswer r)
venue_controller e user (bind code) = Venues.bind_by_invite_code e.services e.letters user.id code
venue_controller e user (start_venue organization_id dto) =
    Creation.create_venue e.services e.random_bytes user.id organization_id dto
      (role_eq user.role Role.admin)
venue_controller e user (list_venues organization_id) =
    Venues.list_by_organization e.services user.id organization_id (role_eq user.role Role.admin)

-- modules/emergency-contact/emergency-contact.controller.ts
pub data ContactRoute : Type 0 where
  add_contact : CreateEmergencyContactDto → ContactRoute
  list_contacts : ContactRoute
  drop_contact : ℕ → ContactRoute

abbrev pub ContactAnswer : ContactRoute → Type 0
ContactAnswer (add_contact dto) = EmergencyContact
ContactAnswer list_contacts = List EmergencyContact
ContactAnswer (drop_contact id) = Unit

-- `@Roles` of the class.
abbrev pub contact_roles : ContactRoute → Option (List Role)
contact_roles r = some (Role.user ∷ [])

unfoldable pub contact_controller :
    (e : Environment) → Principal → (r : ContactRoute) → M (ContactAnswer r)
contact_controller e user (add_contact dto) = Contacts.create_contact e.services user.id dto
contact_controller e user list_contacts = Contacts.list_by_user e.services user.id
contact_controller e user (drop_contact id) = Contacts.delete_contact e.services user.id id

-- modules/organization-application/organization-application.controller.ts
pub data ApplicationRoute : Type 0 where
  apply : CreateOrganizationApplicationDto → ApplicationRoute

abbrev pub ApplicationAnswer : ApplicationRoute → Type 0
ApplicationAnswer (apply dto) = OrganizationApplication

-- `@Roles` of the class.
abbrev pub application_roles : ApplicationRoute → Option (List Role)
application_roles r = some (Role.user ∷ [])

unfoldable pub application_controller :
    (e : Environment) → Principal → (r : ApplicationRoute) → M (ApplicationAnswer r)
application_controller e user (apply dto) = Applications.create_application e.services user.id dto

-- modules/subscription-request/subscription-request.controller.ts
pub data SubscriptionRoute : Type 0 where
  ask : Option Text → SubscriptionRoute
  show_request : SubscriptionRoute

abbrev pub SubscriptionAnswer : SubscriptionRoute → Type 0
SubscriptionAnswer (ask comment) = SubscriptionRequest
SubscriptionAnswer show_request = Option SubscriptionRequest

-- `@Roles` of the class.
abbrev pub subscription_roles : SubscriptionRoute → Option (List Role)
subscription_roles r = some (Role.user ∷ [])

unfoldable pub subscription_controller :
    (e : Environment) → Principal → (r : SubscriptionRoute) → M (SubscriptionAnswer r)
subscription_controller e user (ask comment) =
    Subscriptions.create_request e.services user.id comment
subscription_controller e user show_request = Subscriptions.get_current_for_user e.services user.id
