-- ===== src/Tests/Rosters.antt =====
-- The theorems on organizations and applications: the owner of an organization applies for another.
use aalam_security_back.Common.{◌≡◌, refl, true, none, some, List, [], ◌∷◌, arith}
use aalam_security_back.Schema.{
  text_eq, OrganizationMember, OrgMemberRole, OrganizationApplication, json_array, json_text,
  other_value, json_number, pending,
}
use aalam_security_back.Errors.{status_409, http_exception}
use aalam_security_back.World.{World, after, result, thrown, running}
use aalam_security_back.Venues.Creation.{insert_venue}
use aalam_security_back.Venues.InviteCodes.{
  generate_unique_invite_code, try_codes, generate_invite_code,
}
use aalam_security_back.Organizations.{insert_organization, insert_member, slug_for}
use aalam_security_back.Organizations.Slugs.{slugify, unique_slug, is_slug, unique_slug-is_slug}
use aalam_security_back.Applications.{
  approve_as, approve_organization_application, decide_application, open_organization,
  create_branches, parse_branch,
}
use aalam_security_back.Applications.Decisions.{approval, refusal, decide, decide-decide}
use aalam_security_back.Applications.Opened.{Opened}
use aalam_security_back.Applications.Openings.{approve_organization_application-Opened}
use aalam_security_back.Roster.{Roster}
use aalam_security_back.Roster.Histories.{
  Change, use_code, found_organization, drop_organization, approve, changes, changes-Roster,
}
use aalam_security_back.Tests.Fixtures.{services, documented, night, capitals, bytes}

unique_slug-is_slug_example :
    is_slug (unique_slug true (slugify (λ t. t) (65 ∷ 32 ∷ 98 ∷ 33 ∷ [])) 100) ≡ true
unique_slug-is_slug_example = unique_slug-is_slug (λ t. t) (65 ∷ 32 ∷ 98 ∷ 33 ∷ []) true 100

abbrev owner : OrganizationMember
owner = record {
  id = 8;
  user_id = 4;
  organization_id = 6;
  venue_id = none;
  role = OrgMemberRole.owner;
  created_at = 10;
}

abbrev request : OrganizationApplication
request = record {
  id = 9;
  user_id = 4;
  organization_name = 104 ∷ [];
  organization_type = [];
  branches = json_array (
      record {
        name = json_text (98 ∷ 32 ∷ []);
        address = other_value;
        latitude = json_number 42;
        longitude = json_number 74;
      }
      ∷ []);
  contact_email = [];
  contact_phone = [];
  description = none;
  attachments = [];
  status = pending;
  rejection_reason = none;
  approved_organization_id = none;
  created_at = 900;
}

abbrev evening : World
evening = record night { members = owner ∷ []; applications = request ∷ [] }

evening-Roster : Roster services.uuid evening
evening-Roster = record {
  numbered = ((8, omega arith, refl), tt);
  venues_numbered = ((5, omega arith, refl), tt);
  organizations_numbered = ((6, omega arith, refl), tt);
  members_belong = refl;
  venues_belong = refl;
  venues_distinct = λ id. ground arith;
  distinct = λ id. ground arith;
  single = λ u. ground arith;
  one_owner = λ o. ground arith;
  placed = refl;
}

abbrev nightly : List Change
nightly =
    use_code capitals 3 (65 ∷ 66 ∷ [])
    ∷ found_organization capitals bytes 3 (104 ∷ [])
    ∷ approve capitals bytes 9 none
    ∷ drop_organization 6
    ∷ []

changes-Roster_example : Roster services.uuid (changes services nightly evening)
changes-Roster_example = changes-Roster services documented nightly evening evening-Roster

abbrev opened : OrganizationApplication
opened = approve_as 11 request

approves_request :
    result (approve_organization_application services capitals bytes 9 none evening) ≡ some opened
unfolding approve_organization_application open_organization create_branches decide_application
    insert_organization insert_member insert_venue slug_for generate_unique_invite_code try_codes
    generate_invite_code text_eq running slugify unique_slug
approves_request = refl

decide-decide_example :
    decide services
      (refusal none)
      9
      (after (decide services (approval capitals bytes none) 9 evening))
    ≡ thrown
        (http_exception status_409)
        (after (decide services (approval capitals bytes none) 9 evening))
decide-decide_example =
    decide-decide services documented 9 (approval capitals bytes none) (refusal none) opened evening
      (omega arith) approves_request

approve_organization_application-Opened_example :
    Opened 4 1
      (owner ∷ [])
      opened
      (after (approve_organization_application services capitals bytes 9 none evening))
approve_organization_application-Opened_example =
    approve_organization_application-Opened services documented capitals bytes 9 none evening
      request
      (parse_branch
          (record {
            name = json_text (98 ∷ 32 ∷ []);
            address = other_value;
            latitude = json_number 42;
            longitude = json_number 74;
          })
          (98 ∷ [])
        ∷ [])
      opened evening-Roster refl refl approves_request
