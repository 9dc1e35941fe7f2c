-- ===== src/Applications.antt =====
-- Applications for an organization: modules/organization-application/organization-application.service.ts
-- and the decisions of modules/admin/admin.service.ts.
pub mod Decisions
pub mod Opened
pub mod Foundings
pub mod Openings
use aalam_security_back.Common.{
  ℕ, ◌-◌, ◌*◌, Bool, true, false, Option, none, some, List, [], ◌∷◌, map, ◌==◌, ◌&&◌, not, leb,
  or_else,
}
use aalam_security_back.Schema.{
  Text, JsonValue, json_text, json_number, other_value, JsonBranch, JsonBranches, json_array,
  not_array, Attachment, OrganizationApplication, OrgMemberRole, RequestStatus, pending, approved,
  rejected, is_pending,
}
use aalam_security_back.Errors.{Exception, status_400, status_404, status_409, http_exception}
use aalam_security_back.Services.{Services}
use aalam_security_back.World.{
  World, M, ◌>>=◌, ◌>>◌, pure, throw, read, modify, skip, when, require, catch_not_found,
  transaction, draw_uuid,
}
use aalam_security_back.Venues.{Letters, trim, is_membership_of}
use aalam_security_back.Venues.InviteCodes.{generate_unique_invite_code}
use aalam_security_back.Venues.Creation.{CreateVenueDto, insert_venue}
use aalam_security_back.Organizations.{insert_organization, insert_member, slug_for}
use aalam_security_back.Admin.Operators.{truthy}

pub record BranchDto : Type 0 where
  pub name : Text
  pub address : Text
  pub latitude : Option ℕ
  pub longitude : Option ℕ

pub record CreateOrganizationApplicationDto : Type 0 where
  pub organization_name : Text
  pub organization_type : Text
  pub branches : List BranchDto
  pub contact_email : Text
  pub contact_phone : Text
  pub description : Option Text
  pub attachments : List Attachment

abbrev pub number_value : Option ℕ → JsonValue
number_value none = other_value
number_value (some n) = json_number n

-- A branch of the request, as it is kept in the `Json` column.
abbrev pub branch_value : BranchDto → JsonBranch
branch_value b = record {
  name = json_text b.name;
  address = json_text b.address;
  latitude = number_value b.latitude;
  longitude = number_value b.longitude;
}

abbrev pub new_application : ℕ → ℕ → CreateOrganizationApplicationDto → ℕ → OrganizationApplication
new_application id user_id dto now = record {
  id = id;
  user_id = user_id;
  organization_name = dto.organization_name;
  organization_type = dto.organization_type;
  branches = json_array (map branch_value dto.branches);
  contact_email = dto.contact_email;
  contact_phone = dto.contact_phone;
  description = dto.description;
  attachments = dto.attachments;
  status = pending;
  rejection_reason = none;
  approved_organization_id = none;
  created_at = now;
}

abbrev pub application_by_id : ℕ → OrganizationApplication → Bool
application_by_id id x = x.id == id

-- `{ id, status: PENDING }`
abbrev pub is_open_application : ℕ → OrganizationApplication → Bool
is_open_application id x = x.id == id && is_pending x.status

abbrev pub later_application : OrganizationApplication → OrganizationApplication → Bool
later_application a b = leb b.created_at a.created_at

abbrev pub has_application_status : Option RequestStatus → OrganizationApplication → Bool
has_application_status none x = true
has_application_status (some pending) x = is_pending x.status
has_application_status (some approved) x = elim x.status [ approved ↦ true | _ ↦ false ]
has_application_status (some rejected) x = elim x.status [ rejected ↦ true | _ ↦ false ]

pub record ApplicationPage : Type 0 where
  pub rows : List OrganizationApplication
  pub total : ℕ
  pub page : ℕ
  pub limit : ℕ

-- `typeof row?.name !== 'string' || !row.name.trim()`: the trimmed name, if there is one.
abbrev pub branch_name : JsonValue → Option Text
branch_name (json_text t) = truthy (some (trim t))
branch_name _ = none

abbrev pub branch_address : JsonValue → Text
branch_address (json_text t) = trim t
branch_address _ = []

-- A number of JSON is finite.
abbrev pub branch_coordinate : JsonValue → Option ℕ
branch_coordinate (json_number n) = some n
branch_coordinate _ = none

-- A branch as a venue to create, with `br.address || null`.
abbrev pub parse_branch : JsonBranch → Text → CreateVenueDto
parse_branch row name = record {
  name = name;
  address = truthy (some (branch_address row.address));
  apartment = none;
  floor = none;
  entrance = none;
  door_code = none;
  address_notes = none;
  latitude = branch_coordinate row.latitude;
  longitude = branch_coordinate row.longitude;
}

-- The loop of `parseApplicationBranches`; `none` is its exception.
abbrev pub parse_rows : List JsonBranch → Option (List CreateVenueDto)
parse_rows [] = some []
parse_rows (row ∷ rows) = elim (branch_name row.name) [
  | none ↦ none
  | some name ↦ elim (parse_rows rows) [
    | none ↦ none
    | some out ↦ some (parse_branch row name ∷ out)
  ]
]

abbrev pub parse_application_branches : JsonBranches → Option (List CreateVenueDto)
parse_application_branches not_array = none
parse_application_branches (json_array []) = none
parse_application_branches (json_array (row ∷ rows)) = parse_rows (row ∷ rows)

-- `dto?.organizationName?.trim() || application.organizationName`
abbrev pub chosen_name : Option Text → Text → Text
chosen_name none name = name
chosen_name (some wanted) name = or_else (truthy (some (trim wanted))) name

abbrev pub approve_as : ℕ → OrganizationApplication → OrganizationApplication
approve_as organization_id x = record x {
  status = approved;
  approved_organization_id = some organization_id;
  rejection_reason = none;
}

-- `dto?.reason?.trim() || null`
abbrev pub trimmed_reason : Option Text → Option Text
trimmed_reason none = none
trimmed_reason (some reason) = truthy (some (trim reason))

abbrev pub refuse_with : Option Text → OrganizationApplication → OrganizationApplication
refuse_with reason x = record x { status = rejected; rejection_reason = trimmed_reason reason }

module _ (s : Services) where
  -- `create`
  unfoldable pub create_application :
      ℕ → CreateOrganizationApplicationDto → M OrganizationApplication
  create_application user_id dto = do
    now ← read (λ w. w.now)
    id ← draw_uuid s
    modify (λ w. record w { applications = new_application id user_id dto now ∷ w.applications })
    pure (new_application id user_id dto now)

  unfoldable pub get_organization_applications : Option RequestStatus → ℕ → ℕ → M ApplicationPage
  get_organization_applications status page limit = do
    rows ← read (λ w.
        s.find_page (has_application_status status) later_application ((page - 1) * limit) limit
          w.applications)
    total ← read (λ w. s.count_rows (has_application_status status) w.applications)
    pure (record { rows = rows; total = total; page = page; limit = limit })

  unfoldable pub get_organization_application_by_id : ℕ → M OrganizationApplication
  get_organization_application_by_id id = do
    found ← read (λ w. s.find_first (application_by_id id) w.applications)
    require found (http_exception status_404)

  -- `organizationApplication.update`, of an application that is still open.
  unfoldable pub decide_application :
      ℕ → (OrganizationApplication → OrganizationApplication) → M OrganizationApplication
  decide_application id decide w = elim (s.update (is_open_application id) decide w.applications) [
    | none ↦ throw Exception.row_not_found w
    | some (x, t) ↦ pure x (record w { applications = t })
  ]

  unfoldable pub create_branches : (ℕ → List ℕ) → ℕ → List CreateVenueDto → M (Unit {0})
  create_branches random_bytes organization_id [] = skip
  create_branches random_bytes organization_id (branch ∷ branches) =
      let rest = create_branches random_bytes organization_id branches in
      do
        invite_code ← generate_unique_invite_code s random_bytes
        insert_venue s organization_id branch invite_code
        rest

  -- The transaction of `approveOrganizationApplication`.
  unfoldable pub open_organization :
      (ℕ → List ℕ)
      → OrganizationApplication
      → Text
      → Text
      → List CreateVenueDto
      → M OrganizationApplication
  unfolding create_branches decide_application
  open_organization random_bytes application name slug branches = do
    invite_code ← generate_unique_invite_code s random_bytes
    org ← insert_organization s name slug invite_code
    modify
        (λ w. record w { members = s.delete_many (is_membership_of application.user_id) w.members })
    create_branches random_bytes org.id branches
    insert_member s application.user_id org.id OrgMemberRole.owner none
    decide_application application.id (approve_as org.id)

  unfoldable pub approve_organization_application :
      Letters → (ℕ → List ℕ) → ℕ → Option Text → M OrganizationApplication
  unfolding open_organization
  approve_organization_application l random_bytes id wanted = do
    found ← read (λ w. s.find_first (application_by_id id) w.applications)
    application ← require found (http_exception status_404)
    when (not (is_pending application.status)) (throw (http_exception status_409))
    branches ← require (parse_application_branches application.branches) (http_exception status_400)
    slug ← slug_for s l (chosen_name wanted application.organization_name)
    catch_not_found
        (transaction (
          open_organization random_bytes application
            (chosen_name wanted application.organization_name) slug branches))
        (throw (http_exception status_409))

  unfoldable pub refuse_decided_application : ℕ → M OrganizationApplication
  refuse_decided_application id = do
    found ← read (λ w. s.find_first (application_by_id id) w.applications)
    existing ← require found (http_exception status_404)
    throw (http_exception status_409)

  unfoldable pub reject_organization_application : ℕ → Option Text → M OrganizationApplication
  unfolding decide_application refuse_decided_application
  reject_organization_application id reason =
      catch_not_found (decide_application id (refuse_with reason)) (refuse_decided_application id)
