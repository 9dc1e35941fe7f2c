-- ===== src/Applications/Opened.antt =====
-- The states between which approveOrganizationApplication of modules/admin/admin.service.ts moves.
use aalam_security_back.Common.{ℕ, ◌≡◌, Bool, true, false, some, List, ◌==◌}
use aalam_security_back.Schema.{
  Venue, OrganizationMember, OrganizationApplication, OrgMemberRole, RequestStatus,
}
use aalam_security_back.Rows.{find, count}
use aalam_security_back.World.{World}
use aalam_security_back.Venues.{is_membership_of}
use aalam_security_back.Organizations.{is_owner_of}
use aalam_security_back.Roster.{Roster, is_known}

abbrev pub is_venue_in : ℕ → Venue → Bool
is_venue_in organization_id v = v.organization_id == organization_id

-- The applicant alone belongs to the new organization, as its owner, and there is a venue for each
-- branch. An organization that the applicant owned before has no owner left.
pub record Opened (user_id branches : ℕ) (before : List OrganizationMember)
    (x : OrganizationApplication) (w : World) : Type 0 where
  pub organization_id : ℕ
  pub approved : x.status ≡ RequestStatus.approved
  pub for_organization : x.approved_organization_id ≡ some organization_id
  pub membership : OrganizationMember
  pub found : find (is_membership_of user_id) w.members ≡ some membership
  pub as_owner : membership.role ≡ OrgMemberRole.owner
  pub inside : membership.organization_id ≡ organization_id
  pub only_one : count (is_membership_of user_id) w.members ≡ 1
  pub venues : count (is_venue_in organization_id) w.venues ≡ branches
  pub deserted :
      (o : ℕ) (m : OrganizationMember)
      → find (is_owner_of o) before ≡ some m
      → m.user_id ≡ user_id
      → count (is_owner_of o) w.members ≡ 0

-- The state before the applicant leaves.
abbrev pub Start : (ℕ → ℕ) → List OrganizationMember → World → Type 0
Start uuid before w = Roster uuid w × (w.members ≡ before)

abbrev pub Deserted : ℕ → List OrganizationMember → ℕ → List OrganizationMember → Type 0
Deserted user_id before organization_id ms =
    (o : ℕ) (m : OrganizationMember)
    → find (is_owner_of o) before ≡ some m
    → m.user_id ≡ user_id
    → (count (is_owner_of o) ms ≡ 0) × ((organization_id == o) ≡ false)

-- The organization is there, with some venues, and waits for its owner.
abbrev pub Waiting : (ℕ → ℕ) → ℕ → List OrganizationMember → ℕ → ℕ → World → Type 0
Waiting uuid user_id before organization_id k w =
    Roster uuid w
    × (count (is_membership_of user_id) w.members ≡ 0)
    × (is_known w.organizations organization_id ≡ true)
    × (count (is_venue_in organization_id) w.venues ≡ k)
    × Deserted user_id before organization_id w.members

-- The applicant as the owner.
abbrev pub Owned : ℕ → List OrganizationMember → ℕ → ℕ → World → Type 0
Owned user_id before organization_id k w =
    (m : OrganizationMember) × (find (is_membership_of user_id) w.members ≡ some m)
    × (m.role ≡ OrgMemberRole.owner)
    × (m.organization_id ≡ organization_id)
    × (count (is_membership_of user_id) w.members ≡ 1)
    × (count (is_venue_in organization_id) w.venues ≡ k)
    × ((o : ℕ) (m : OrganizationMember)
        → find (is_owner_of o) before ≡ some m
        → m.user_id ≡ user_id
        → count (is_owner_of o) w.members ≡ 0)
