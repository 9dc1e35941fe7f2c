-- ===== src/Venues.antt =====
-- modules/venue/venue.service.ts: joining an organization or a venue by an invite code, and the list
-- of venues; modules/organization/organization.service.ts: who may see and manage an organization.
pub mod Joining
pub mod InviteCodes
pub mod Generation
pub mod Readable
pub mod Creation
use aalam_security_back.Common.{
  ℕ, suc, Bool, true, false, Option, none, some, List, [], ◌∷◌, ◌++◌, ◌==◌, ◌&&◌, ◌||◌, not, leb,
  if◌then◌else◌,
}
use aalam_security_back.Schema.{
  Text, Organization, Venue, OrganizationMember, OrgMemberRole, is_owner,
}
use aalam_security_back.Errors.{status_403, status_404, status_409, http_exception}
use aalam_security_back.Services.{Services}
use aalam_security_back.World.{
  World, M, ◌>>=◌, ◌>>◌, pure, throw, read, modify, when, require, transaction, draw_uuid,
}

-- `toLowerCase` and `toUpperCase`, whose tables are Unicode's, and the database's `{ equals, mode: 'insensitive' }`:
-- a column's text, then the text looked for.
pub record Letters : Type 0 where
  pub to_lower_case : Text → Text
  pub to_upper_case : Text → Text
  pub equals_insensitive : Text → Text → Bool

-- The code units that `trim` takes off.
abbrev pub is_white_space : ℕ → Bool
is_white_space c =
    (leb 9 c && leb c 13)
    || ((c == 32)
        || ((c == 160)
            || ((c == 5760)
                || ((leb 8192 c && leb c 8202)
                    || ((c == 8232)
                        || ((c == 8233)
                            || ((c == 8239)
                                || ((c == 8287) || ((c == 12288) || (c == 65279))))))))))

abbrev pub trim_start : Text → Text
trim_start [] = []
trim_start (c ∷ cs) = let rest = trim_start cs in if is_white_space c then rest else c ∷ cs

abbrev pub reversed : Text → Text
reversed [] = []
reversed (c ∷ cs) = reversed cs ++ (c ∷ [])

abbrev pub trim : Text → Text
trim cs = reversed (trim_start (reversed (trim_start cs)))

abbrev pub normal_code : Letters → Text → Text
normal_code l invite_code = l.to_upper_case (trim invite_code)

-- `organizationMember.findUnique({ where: { userId } })`
abbrev pub is_membership_of : ℕ → OrganizationMember → Bool
is_membership_of user_id m = m.user_id == user_id

abbrev pub owns_organization : Option OrganizationMember → Bool
owns_organization none = false
owns_organization (some m) = is_owner m.role

abbrev pub belongs_to : ℕ → Option OrganizationMember → Bool
belongs_to organization_id none = false
belongs_to organization_id (some m) = m.organization_id == organization_id

-- OWNER, MANAGER or MEMBER.
abbrev pub may_create_venues : OrgMemberRole → Bool
may_create_venues OrgMemberRole.owner = true
may_create_venues OrgMemberRole.manager = true
may_create_venues OrgMemberRole.member = true
may_create_venues OrgMemberRole.staff = false

abbrev pub manages : ℕ → Option OrganizationMember → Bool
manages organization_id none = false
manages organization_id (some m) =
    (m.organization_id == organization_id) && may_create_venues m.role

abbrev pub organization_has_code : Letters → Text → Organization → Bool
organization_has_code l code o = elim o.invite_code [
  | none ↦ false
  | some c ↦ l.equals_insensitive c code
]

abbrev pub venue_has_code : Letters → Text → Venue → Bool
venue_has_code l code v = l.equals_insensitive v.invite_code code

abbrev pub new_member : ℕ → ℕ → ℕ → OrgMemberRole → Option ℕ → ℕ → OrganizationMember
new_member id user_id organization_id role venue_id now = record {
  id = id;
  user_id = user_id;
  organization_id = organization_id;
  role = role;
  venue_id = venue_id;
  created_at = now;
}

-- `orderBy: { createdAt: 'asc' }`
abbrev pub is_older : Venue → Venue → Bool
is_older a b = leb a.created_at b.created_at

-- The answer to a binding; the organization of a venue is joined to it.
pub data BindType : Type 0 where
  to_organization : Organization → BindType
  to_venue : Venue → Option Organization → BindType

module _ (s : Services) where
  unfoldable pub user_has_access : ℕ → ℕ → M Bool
  user_has_access user_id organization_id =
      read (λ w. belongs_to organization_id (s.find_first (is_membership_of user_id) w.members))

  unfoldable pub can_manage_organization_venues : ℕ → ℕ → M Bool
  can_manage_organization_venues user_id organization_id =
      read (λ w. manages organization_id (s.find_first (is_membership_of user_id) w.members))

  -- The transaction of `bindByInviteCode`.
  unfoldable pub join_as_member : ℕ → ℕ → Option ℕ → M (Unit {0})
  join_as_member user_id organization_id venue_id = transaction (do
    modify (λ w. record w { members = s.delete_many (is_membership_of user_id) w.members })
    id ← draw_uuid s
    modify (λ w. record w {
      members =
          new_member id user_id organization_id OrgMemberRole.member venue_id w.now ∷ w.members;
    }))

  unfoldable pub bind_to_venue : ℕ → Venue → M BindType
  unfolding join_as_member
  bind_to_venue user_id venue = do
    join_as_member user_id venue.organization_id (some venue.id)
    read (λ w.
        to_venue venue
          (s.find_first (λ (o : Organization). o.id == venue.organization_id) w.organizations))

  -- A code of an organization comes before one of a venue.
  unfoldable pub bind_with : ℕ → Option Organization → Option Venue → M BindType
  unfolding join_as_member bind_to_venue
  bind_with user_id (some org) venue = do
    join_as_member user_id org.id none
    pure (to_organization org)
  bind_with user_id none (some venue) = bind_to_venue user_id venue
  bind_with user_id none none = throw (http_exception status_404)

  unfoldable pub bind_by_invite_code : Letters → ℕ → Text → M BindType
  unfolding bind_with
  bind_by_invite_code l user_id invite_code = do
    current ← read (λ w. s.find_first (is_membership_of user_id) w.members)
    when (owns_organization current) (throw (http_exception status_409))
    org ←
        read
          (λ w. s.find_first (organization_has_code l (normal_code l invite_code)) w.organizations)
    venue ← read (λ w. s.find_first (venue_has_code l (normal_code l invite_code)) w.venues)
    bind_with user_id org venue

  unfoldable pub list_by_organization : ℕ → ℕ → Bool → M (List Venue)
  unfolding user_has_access
  list_by_organization user_id organization_id is_admin = do
    has_access ← user_has_access user_id organization_id
    when (not is_admin && not has_access) (throw (http_exception status_403))
    read
        (λ w. s.find_sorted (λ (v : Venue). v.organization_id == organization_id) is_older w.venues)
