-- ===== src/Roster.antt =====
-- The roster: who belongs to which organization and venue. What holds of the members' and venues' rows
-- between two requests.
pub mod Rows
pub mod NewOrganizations
pub mod Roles
pub mod Removals
pub mod Handlers
pub mod Ownership
pub mod Approvals
pub mod Demotions
pub mod Members
pub mod Premises
pub mod Departures
pub mod Histories
use aalam_security_back.Common.{
  ℕ, suc, ◌≤◌, ◌<◌, ◌≡◌, ◌≢◌, Bool, true, false, Option, none, some, List, [], ◌∷◌, any, all, All,
  ◌==◌, ◌+◌,
}
use aalam_security_back.Schema.{Venue, Organization, OrganizationMember}
use aalam_security_back.Rows.{find, count}
use aalam_security_back.World.{World}
use aalam_security_back.Venues.{is_membership_of}
use aalam_security_back.Organizations.{is_owner_of}
use aalam_security_back.Admin.Members.{member_by_id, venue_by_id}

-- An identifier that has been drawn.
abbrev pub IsNumbered : (ℕ → ℕ) → ℕ → ℕ → Type 0
IsNumbered uuid drawn id = (k : ℕ) × (k < drawn) × (id ≡ uuid k)

abbrev pub is_known : List Organization → ℕ → Bool
is_known organizations id = any (λ (o : Organization). o.id == id) organizations

-- The venue is there and belongs to the organization.
abbrev pub is_venue_of : List Venue → ℕ → Option ℕ → Bool
is_venue_of venues organization_id none = true
is_venue_of venues organization_id (some venue_id) = elim (find (venue_by_id venue_id) venues) [
  | none ↦ false
  | some v ↦ v.organization_id == organization_id
]

abbrev pub is_placed : List Venue → OrganizationMember → Bool
is_placed venues m = is_venue_of venues m.organization_id m.venue_id

pub record RosterIn (uuid : ℕ → ℕ) (drawn : ℕ) (members : List OrganizationMember)
    (venues : List Venue) (organizations : List Organization) : Type 0 where
  pub numbered : All (λ m. IsNumbered uuid drawn m.id) members
  pub venues_numbered : All (λ v. IsNumbered uuid drawn v.id) venues
  pub organizations_numbered : All (λ o. IsNumbered uuid drawn o.id) organizations
  -- no membership and no venue is left without its organization
  pub members_belong : all (λ m. is_known organizations m.organization_id) members ≡ true
  pub venues_belong : all (λ v. is_known organizations v.organization_id) venues ≡ true
  pub venues_distinct : (id : ℕ) → count (venue_by_id id) venues ≤ 1
  pub distinct : (id : ℕ) → count (member_by_id id) members ≤ 1
  -- a person has one membership at most
  pub single : (user_id : ℕ) → count (is_membership_of user_id) members ≤ 1
  -- an organization has one owner at most
  pub one_owner : (organization_id : ℕ) → count (is_owner_of organization_id) members ≤ 1
  -- a member's venue is one of the member's organization
  pub placed : all (is_placed venues) members ≡ true

abbrev pub Roster : (ℕ → ℕ) → World → Type 0
Roster uuid w = RosterIn uuid w.drawn w.members w.venues w.organizations
