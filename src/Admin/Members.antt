-- ===== src/Admin/Members.antt =====
-- modules/admin/admin.service.ts: the members of organizations.
use aalam_security_back.Common.{ℕ, Bool, false, Option, none, some, ◌==◌, ◌&&◌, is_some, not}
use aalam_security_back.Schema.{
  Text, User, Venue, OrganizationMember, OrgMemberRole, is_owner, text_eq,
}
use aalam_security_back.Errors.{Exception, status_404, status_409, http_exception}
use aalam_security_back.Services.{Services}
use aalam_security_back.World.{
  M, ◌>>=◌, ◌>>◌, throw, read, modify, skip, when, require, transaction, ok, thrown,
}
use aalam_security_back.Venues.{is_membership_of}
use aalam_security_back.Organizations.{organization_by_id, is_owner_of, insert_member}
use aalam_security_back.Admin.Operators.{or_keep}

pub record AddOrganizationMemberDto : Type 0 where
  pub email : Text
  pub role : OrgMemberRole
  pub venue_id : Option ℕ

-- An absent field is `none`; a venue may be set to null.
pub record UpdateOrganizationMemberDto : Type 0 where
  pub role : Option OrgMemberRole
  pub venue_id : Option (Option ℕ)

abbrev pub member_by_id : ℕ → OrganizationMember → Bool
member_by_id id m = m.id == id

abbrev pub venue_by_id : ℕ → Venue → Bool
venue_by_id id v = v.id == id

-- `dto.role === OWNER`
abbrev pub asks_owner : Option OrgMemberRole → Bool
asks_owner none = false
asks_owner (some role) = is_owner role

-- `dto.role && dto.role !== OWNER`
abbrev pub asks_other : Option OrgMemberRole → Bool
asks_other none = false
asks_other (some role) = not (is_owner role)

abbrev pub asked_venue : Option (Option ℕ) → Option ℕ
asked_venue none = none
asked_venue (some venue_id) = venue_id

abbrev pub demote : OrganizationMember → OrganizationMember
demote m = record m { role = OrgMemberRole.manager }

abbrev pub change_member : UpdateOrganizationMemberDto → OrganizationMember → OrganizationMember
change_member dto m = record m {
  role = or_keep dto.role m.role;
  venue_id = or_keep dto.venue_id m.venue_id;
}

module _ (s : Services) where
  -- `organizationMember.update`, with the row that it returns.
  unfoldable pub update_member :
      ℕ → (OrganizationMember → OrganizationMember) → M OrganizationMember
  update_member id f w = elim (s.update (member_by_id id) f w.members) [
    | none ↦ thrown Exception.row_not_found w
    | some (m, t) ↦ ok m (record w { members = t })
  ]

  unfoldable pub assert_venue_belongs_to_org : Option ℕ → ℕ → M (Unit {0})
  assert_venue_belongs_to_org none organization_id = skip
  assert_venue_belongs_to_org (some venue_id) organization_id = do
    found ← read (λ w. s.find_first (venue_by_id venue_id) w.venues)
    venue ← require found (http_exception status_404)
    when (not (venue.organization_id == organization_id)) (throw (http_exception status_409))

  unfoldable pub demote_found : Option OrganizationMember → M (Unit {0})
  unfolding update_member
  demote_found none = skip
  demote_found (some current) = do update_member current.id demote; skip

  unfoldable pub demote_current_owner : ℕ → M (Unit {0})
  unfolding demote_found
  demote_current_owner organization_id = do
    current ← read (λ w. s.find_first (is_owner_of organization_id) w.members)
    demote_found current

  -- The transaction of `addOrganizationMember`: an organization has one owner.
  unfoldable pub enroll : ℕ → ℕ → AddOrganizationMemberDto → M OrganizationMember
  unfolding demote_current_owner
  enroll user_id organization_id dto = do
    when (is_owner dto.role) (demote_current_owner organization_id)
    insert_member s user_id organization_id dto.role dto.venue_id

  unfoldable pub add_organization_member : ℕ → AddOrganizationMemberDto → M OrganizationMember
  unfolding assert_venue_belongs_to_org enroll
  add_organization_member organization_id dto = do
    org_found ← read (λ w. s.find_first (organization_by_id organization_id) w.organizations)
    org ← require org_found (http_exception status_404)
    user_found ← read (λ w. s.find_first (λ (u : User). text_eq u.email dto.email) w.users)
    user ← require user_found (http_exception status_404)
    existing ← read (λ w. s.find_first (is_membership_of user.id) w.members)
    when (is_some existing) (throw (http_exception status_409))
    assert_venue_belongs_to_org dto.venue_id organization_id
    transaction (enroll user.id organization_id dto)

  -- The transaction of `updateOrganizationMember`: the only owner keeps the role.
  unfoldable pub reassign_role :
      OrganizationMember → UpdateOrganizationMemberDto → M OrganizationMember
  unfolding demote_current_owner update_member
  reassign_role m dto = do
    when (asks_owner dto.role && not (is_owner m.role)) (demote_current_owner m.organization_id)
    when (is_owner m.role && asks_other dto.role) (throw (http_exception status_409))
    update_member m.id (change_member dto)

  unfoldable pub update_organization_member : ℕ → UpdateOrganizationMemberDto → M OrganizationMember
  unfolding assert_venue_belongs_to_org reassign_role
  update_organization_member member_id dto = do
    found ← read (λ w. s.find_first (member_by_id member_id) w.members)
    m ← require found (http_exception status_404)
    assert_venue_belongs_to_org (asked_venue dto.venue_id) m.organization_id
    transaction (reassign_role m dto)

  unfoldable pub remove_organization_member : ℕ → M (Unit {0})
  remove_organization_member member_id = do
    found ← read (λ w. s.find_first (member_by_id member_id) w.members)
    m ← require found (http_exception status_404)
    when (is_owner m.role) (throw (http_exception status_409))
    modify (λ w. record w { members = s.delete_many (member_by_id member_id) w.members })
