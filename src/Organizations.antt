-- ===== src/Organizations.antt =====
-- modules/organization/organization.service.ts, and what the services do to the rows of organizations
-- and of their members.
pub mod Slugs
pub mod Removal
use aalam_security_back.Common.{
  ℕ, Bool, true, false, Option, none, some, List, [], ◌∷◌, ◌==◌, ◌&&◌, is_some,
}
use aalam_security_back.Schema.{
  Text, Organization, Venue, OrganizationMember, OrgMemberRole, is_owner, text_eq,
}
use aalam_security_back.Errors.{Exception, status_409, http_exception}
use aalam_security_back.Services.{Services}
use aalam_security_back.World.{
  World, M, ◌>>=◌, ◌>>◌, pure, throw, read, modify, when, transaction, draw_uuid,
}
use aalam_security_back.Venues.{Letters, new_member, is_membership_of}
use aalam_security_back.Venues.InviteCodes.{generate_unique_invite_code}
use aalam_security_back.Organizations.Slugs.{slugify, unique_slug}

abbrev pub organization_by_id : ℕ → Organization → Bool
organization_by_id id o = o.id == id

abbrev pub has_slug : Text → Organization → Bool
has_slug slug o = text_eq o.slug slug

-- `{ organizationId }`
abbrev pub is_in_organization : ℕ → OrganizationMember → Bool
is_in_organization organization_id m = m.organization_id == organization_id

-- `{ organizationId, role: OWNER }`
abbrev pub is_owner_of : ℕ → OrganizationMember → Bool
is_owner_of organization_id m = m.organization_id == organization_id && is_owner m.role

abbrev pub new_organization : ℕ → Text → Text → Text → Organization
new_organization id name slug invite_code = record {
  id = id;
  name = name;
  slug = slug;
  invite_code = some invite_code;
}

-- A membership with its organization, the organization's venues and the number of its members.
pub record MyOrganization : Type 0 where
  pub membership : OrganizationMember
  pub organization : Option Organization
  pub venues : List Venue
  pub member_count : ℕ

module _ (s : Services) where
  -- `organization.create`: the slug is unique, and so is the code, which has just been generated.
  unfoldable pub insert_organization : Text → Text → Text → M Organization
  insert_organization name slug invite_code = do
    taken ← read (λ w. s.find_first (has_slug slug) w.organizations)
    when (is_some taken) (throw Exception.unique_constraint_failed)
    id ← draw_uuid s
    modify (λ w. record w {
      organizations = new_organization id name slug invite_code ∷ w.organizations;
    })
    pure (new_organization id name slug invite_code)

  -- `organizationMember.create`; the callers have made sure that the user has no membership.
  unfoldable pub insert_member : ℕ → ℕ → OrgMemberRole → Option ℕ → M OrganizationMember
  insert_member user_id organization_id role venue_id = do
    now ← read (λ w. w.now)
    id ← draw_uuid s
    modify (λ w. record w {
      members = new_member id user_id organization_id role venue_id now ∷ w.members;
    })
    pure (new_member id user_id organization_id role venue_id now)

  -- The slug of a name, and another one where it is taken.
  unfoldable pub slug_for : Letters → Text → M Text
  slug_for l name = do
    existing ← read (λ w. s.find_first (has_slug (slugify l.to_lower_case name)) w.organizations)
    read (λ w. unique_slug (is_some existing) (slugify l.to_lower_case name) w.now)

  -- `create` of the service: the author owns the organization.
  unfoldable pub create_owned : Letters → (ℕ → List ℕ) → ℕ → Text → M Organization
  unfolding insert_organization insert_member slug_for
  create_owned l random_bytes user_id name = do
    already ← read (λ w. s.find_first (is_membership_of user_id) w.members)
    when (is_some already) (throw (http_exception status_409))
    slug ← slug_for l name
    invite_code ← generate_unique_invite_code s random_bytes
    transaction (do
      org ← insert_organization name slug invite_code
      insert_member user_id org.id OrgMemberRole.owner none
      pure org)

  with_organization : World → OrganizationMember → MyOrganization
  with_organization w m = record {
    membership = m;
    organization = s.find_first (organization_by_id m.organization_id) w.organizations;
    venues = s.find_many (λ (v : Venue). v.organization_id == m.organization_id) w.venues;
    member_count = s.count_rows (is_in_organization m.organization_id) w.members;
  }

  with_organizations : World → List OrganizationMember → List MyOrganization
  unfolding with_organization
  with_organizations w [] = []
  with_organizations w (m ∷ ms) = with_organization w m ∷ with_organizations w ms

  unfoldable pub get_my_organizations : ℕ → M (List MyOrganization)
  unfolding with_organizations
  get_my_organizations user_id =
      read (λ w. with_organizations w (s.find_many (is_membership_of user_id) w.members))
