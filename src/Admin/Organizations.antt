-- ===== src/Admin/Organizations.antt =====
-- modules/admin/admin.service.ts: the organizations.
use aalam_security_back.Common.{
  ℕ, ◌-◌, ◌*◌, Bool, true, Option, none, some, List, ◌==◌, ◌&&◌, is_some, holds, not, leb, ltb,
  if◌then◌else◌,
}
use aalam_security_back.Schema.{Text, Organization, Venue, OrganizationMember, EmergencySession}
use aalam_security_back.Errors.{Exception, status_404, status_409, http_exception}
use aalam_security_back.Services.{Services}
use aalam_security_back.World.{M, ◌>>=◌, ◌>>◌, pure, throw, read, modify, when, require, ok, thrown}
use aalam_security_back.Venues.{Letters, is_older}
use aalam_security_back.Venues.InviteCodes.{generate_unique_invite_code}
use aalam_security_back.Organizations.{
  organization_by_id, is_in_organization, insert_organization, slug_for,
}
use aalam_security_back.Organizations.Removal.{remove_organization}
use aalam_security_back.Admin.Operators.{or_keep, truthy}

pub record OrganizationPage : Type 0 where
  pub rows : List Organization
  pub total : ℕ
  pub page : ℕ
  pub limit : ℕ

pub record OrganizationView : Type 0 where
  pub organization : Organization
  pub venues : List Venue
  pub members : List OrganizationMember

-- `orderBy: { name: 'asc' }`, with the order of texts given.
abbrev pub by_name : (Text → Text → Bool) → Organization → Organization → Bool
by_name text_le a b = text_le a.name b.name

abbrev pub joined_earlier : OrganizationMember → OrganizationMember → Bool
joined_earlier a b = leb a.created_at b.created_at

-- `{ organizationId: id, closedAt: null }`
abbrev pub is_unclosed_in : ℕ → EmergencySession → Bool
is_unclosed_in id r = holds r.organization_id id && not (is_some r.closed_at)

-- `!org.inviteCode`
abbrev pub needs_invite_code : Organization → Bool
needs_invite_code o = not (is_some (truthy o.invite_code))

abbrev pub rename : Option Text → Organization → Organization
rename name o = record o { name = or_keep (truthy name) o.name }

abbrev pub with_code : Text → Organization → Organization
with_code code o = record o { invite_code = some code }

module _ (s : Services) where
  unfoldable pub get_organizations : (Text → Text → Bool) → ℕ → ℕ → M OrganizationPage
  get_organizations text_le page limit = do
    rows ←
        read (λ w.
          s.find_page (λ o. true) (by_name text_le) ((page - 1) * limit) limit w.organizations)
    total ← read (λ w. s.count_rows (λ o. true) w.organizations)
    pure (record { rows = rows; total = total; page = page; limit = limit })

  unfoldable pub get_organization_by_id : ℕ → M OrganizationView
  get_organization_by_id id = do
    found ← read (λ w. s.find_first (organization_by_id id) w.organizations)
    o ← require found (http_exception status_404)
    venues ← read (λ w. s.find_sorted (λ (v : Venue). v.organization_id == id) is_older w.venues)
    members ← read (λ w. s.find_sorted (is_in_organization id) joined_earlier w.members)
    pure (record { organization = o; venues = venues; members = members })

  unfoldable pub create_organization : Letters → (ℕ → List ℕ) → Text → M Organization
  create_organization l random_bytes name = do
    slug ← slug_for s l name
    invite_code ← generate_unique_invite_code s random_bytes
    insert_organization s name slug invite_code

  -- `organization.update`, with the row that it returns.
  unfoldable pub change_organization : ℕ → (Organization → Organization) → M Organization
  change_organization id f w = elim (s.update (organization_by_id id) f w.organizations) [
    | none ↦ thrown Exception.row_not_found w
    | some (o, t) ↦ ok o (record w { organizations = t })
  ]

  -- A code is generated where there is none.
  unfoldable pub update_organization : (ℕ → List ℕ) → ℕ → Option Text → M Organization
  unfolding change_organization
  update_organization random_bytes id name = do
    found ← read (λ w. s.find_first (organization_by_id id) w.organizations)
    org ← require found (http_exception status_404)
    (if needs_invite_code org
        then (do
          code ← generate_unique_invite_code s random_bytes
          change_organization id (λ o. with_code code (rename name o)))
        else change_organization id (rename name))

  unfoldable pub delete_organization : ℕ → M (Unit {0})
  delete_organization id = do
    found ← read (λ w. s.find_first (organization_by_id id) w.organizations)
    org ← require found (http_exception status_404)
    open_sessions ← read (λ w. s.count_rows (is_unclosed_in id) w.sessions)
    when (ltb 0 open_sessions) (throw (http_exception status_409))
    modify (remove_organization id)
