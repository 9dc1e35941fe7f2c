-- ===== src/System/Premises.antt =====
-- The desk's moves under the requests on organizations, members, venues, applications and contacts.
use aalam_security_back.Common.{ℕ, List, [], ◌∷◌, Option, none, some, arith}
use aalam_security_back.Schema.{
  Text, Organization, OrganizationMember, OrgMemberRole, OrganizationApplication,
}
use aalam_security_back.Services.{Services, computing}
use aalam_security_back.World.{World, running}
use aalam_security_back.World.Keeps.{
  Keeps, bind, seq, atomic, either, gives, guarded, caught_not_found, rules,
}
use aalam_security_back.System.{Desk, next, draw, Reached}
use aalam_security_back.System.Effects.{draws}
use aalam_security_back.Venues.{Letters}
use aalam_security_back.Venues.Generation.{generates}
use aalam_security_back.Venues.InviteCodes.{generate_unique_invite_code}
use aalam_security_back.Venues.Creation.{CreateVenueDto, insert_venue}
use aalam_security_back.Organizations.{insert_organization, insert_member, slug_for, create_owned}
use aalam_security_back.Admin.Organizations.{
  create_organization, change_organization, update_organization,
}
use aalam_security_back.Admin.Members.{
  AddOrganizationMemberDto, UpdateOrganizationMemberDto, update_member, assert_venue_belongs_to_org,
  demote_found, demote_current_owner, enroll, add_organization_member, reassign_role,
  update_organization_member, remove_organization_member,
}
use aalam_security_back.Admin.Venues.{UpdateVenueDto, create_venue_as_admin, update_venue}
use aalam_security_back.Applications.{
  CreateOrganizationApplicationDto, create_application, decide_application, create_branches,
  open_organization, approve_organization_application, refuse_decided_application,
  reject_organization_application,
}
use aalam_security_back.Contacts.{CreateEmergencyContactDto, create_contact, delete_contact}

module _ (s : Services) (start : Desk) where
  abbrev R : World → Type 0
  R = Reached s.uuid start

  pub generated :
      (random_bytes : ℕ → List ℕ) → Keeps R (generate_unique_invite_code (computing s) random_bytes)
  generated random_bytes = generates (computing s) random_bytes (λ w r. next r draw)

  inserts_organization :
      (name slug code : Text) → Keeps R (insert_organization (computing s) name slug code)
  unfolding insert_organization
  inserts_organization name slug code =
      bind (search rules) (λ taken. seq (search rules) (bind (draws s start) (λ id. search rules)))

  inserts_member :
      (user_id organization_id : ℕ) (role : OrgMemberRole) (venue_id : Option ℕ)
      → Keeps R (insert_member (computing s) user_id organization_id role venue_id)
  unfolding insert_member
  inserts_member user_id organization_id role venue_id =
      bind (search rules) (λ now. bind (draws s start) (λ id. search rules))

  pub inserts_venue :
      (organization_id : ℕ) (dto : CreateVenueDto) (code : Text)
      → Keeps R (insert_venue (computing s) organization_id dto code)
  unfolding insert_venue
  inserts_venue organization_id dto code = bind (search rules) (λ org.
      seq (search rules) (bind (search rules) (λ now. bind (draws s start) (λ id. search rules))))

  slugs : (l : Letters) (name : Text) → Keeps R (slug_for (computing s) l name)
  unfolding slug_for
  slugs l name = search rules

  pub founds_owned :
      (l : Letters) (random_bytes : ℕ → List ℕ) (user_id : ℕ) (name : Text)
      → Keeps R (create_owned (computing s) l random_bytes user_id name)
  unfolding create_owned
  founds_owned l random_bytes user_id name = bind (search rules) (λ already. seq (search rules) (
      bind (slugs l name) (λ slug. bind (generated random_bytes) (λ code. atomic (
        bind (inserts_organization name slug code)
          (λ org. seq (inserts_member user_id org.id OrgMemberRole.owner none) (gives org)))))))

  pub founds :
      (l : Letters) (random_bytes : ℕ → List ℕ) (name : Text)
      → Keeps R (create_organization (computing s) l random_bytes name)
  unfolding create_organization
  founds l random_bytes name =
      bind (slugs l name)
        (λ slug. bind (generated random_bytes) (λ code. inserts_organization name slug code))

  changes_organization :
      (id : ℕ) (f : Organization → Organization) → Keeps R (change_organization (computing s) id f)
  unfolding change_organization
  changes_organization id f = record { run = λ w r. ground arith }

  pub edits_organization :
      (random_bytes : ℕ → List ℕ) (id : ℕ) (name : Option Text)
      → Keeps R (update_organization (computing s) random_bytes id name)
  unfolding update_organization
  edits_organization random_bytes id name = bind (search rules) (λ found.
      bind (search rules) (λ org.
        either _ (bind (generated random_bytes) (λ code. changes_organization id _))
          (changes_organization id _)))

  changes_member :
      (id : ℕ) (f : OrganizationMember → OrganizationMember)
      → Keeps R (update_member (computing s) id f)
  unfolding update_member
  changes_member id f = record { run = λ w r. ground arith }

  asserts_venue :
      (venue_id : Option ℕ) (organization_id : ℕ)
      → Keeps R (assert_venue_belongs_to_org (computing s) venue_id organization_id)
  unfolding assert_venue_belongs_to_org
  asserts_venue none organization_id = search rules
  asserts_venue (some v) organization_id = search rules

  demotes_found : (m : Option OrganizationMember) → Keeps R (demote_found (computing s) m)
  unfolding demote_found
  demotes_found none = search rules
  demotes_found (some m) = seq (changes_member m.id _) (search rules)

  demotes : (organization_id : ℕ) → Keeps R (demote_current_owner (computing s) organization_id)
  unfolding demote_current_owner
  demotes organization_id = bind (search rules) (λ m. demotes_found m)

  pub adds_member :
      (organization_id : ℕ) (dto : AddOrganizationMemberDto)
      → Keeps R (add_organization_member (computing s) organization_id dto)
  unfolding add_organization_member enroll
  adds_member organization_id dto = bind (search rules) (λ org_found. bind (search rules) (λ org.
      bind (search rules) (λ user_found. bind (search rules) (λ user.
        bind (search rules) (λ existing. seq (search rules) (
          seq (asserts_venue dto.venue_id organization_id) (
            atomic (
              seq (guarded _ (demotes organization_id))
                (inserts_member user.id organization_id dto.role dto.venue_id)))))))))

  pub edits_member :
      (member_id : ℕ) (dto : UpdateOrganizationMemberDto)
      → Keeps R (update_organization_member (computing s) member_id dto)
  unfolding update_organization_member reassign_role
  edits_member member_id dto = bind (search rules) (λ found. bind (search rules) (λ m.
      seq (asserts_venue _ m.organization_id) (
        atomic (
          seq (guarded _ (demotes m.organization_id))
            (seq (search rules) (changes_member m.id _))))))

  pub removes_member :
      (member_id : ℕ) → Keeps R (remove_organization_member (computing s) member_id)
  unfolding remove_organization_member
  removes_member member_id = search rules

  pub opens_venue :
      (random_bytes : ℕ → List ℕ) (organization_id : ℕ) (dto : CreateVenueDto)
      → Keeps R (create_venue_as_admin (computing s) random_bytes organization_id dto)
  unfolding create_venue_as_admin
  opens_venue random_bytes organization_id dto = bind (search rules) (λ found.
      bind (search rules)
        (λ org. bind (generated random_bytes) (λ code. inserts_venue organization_id dto code)))

  pub edits_venue :
      (venue_id : ℕ) (dto : UpdateVenueDto) → Keeps R (update_venue (computing s) venue_id dto)
  unfolding update_venue
  edits_venue venue_id dto =
      bind (search rules) (λ found. bind (search rules) (λ v. record { run = λ w r. ground arith }))

  pub applies :
      (user_id : ℕ) (dto : CreateOrganizationApplicationDto)
      → Keeps R (create_application (computing s) user_id dto)
  unfolding create_application
  applies user_id dto = bind (search rules) (λ now. bind (draws s start) (λ id. search rules))

  decides :
      (id : ℕ) (f : OrganizationApplication → OrganizationApplication)
      → Keeps R (decide_application (computing s) id f)
  unfolding decide_application running
  decides id f = record { run = λ w r. ground arith }

  creates_branches :
      (random_bytes : ℕ → List ℕ) (organization_id : ℕ) (bs : List CreateVenueDto)
      → Keeps R (create_branches (computing s) random_bytes organization_id bs)
  unfolding create_branches
  creates_branches random_bytes organization_id [] = search rules
  creates_branches random_bytes organization_id (b ∷ bs) =
      let rest = creates_branches random_bytes organization_id bs in
      bind (generated random_bytes) (λ code. seq (inserts_venue organization_id b code) rest)

  opens_organization :
      (random_bytes : ℕ → List ℕ) (x : OrganizationApplication) (name slug : Text)
      (bs : List CreateVenueDto)
      → Keeps R (open_organization (computing s) random_bytes x name slug bs)
  unfolding open_organization
  opens_organization random_bytes x name slug bs = bind (generated random_bytes) (λ code.
      bind (inserts_organization name slug code) (λ org. seq (search rules) (
        seq (creates_branches random_bytes org.id bs)
          (seq (inserts_member x.user_id org.id OrgMemberRole.owner none) (decides x.id _)))))

  pub approves :
      (l : Letters) (random_bytes : ℕ → List ℕ) (id : ℕ) (wanted : Option Text)
      → Keeps R (approve_organization_application (computing s) l random_bytes id wanted)
  unfolding approve_organization_application
  approves l random_bytes id wanted = bind (search rules) (λ found. bind (search rules) (λ x.
      seq (search rules) (
        bind (search rules) (λ bs. bind (slugs l _) (λ slug.
          caught_not_found (atomic (opens_organization random_bytes x _ slug bs))
            (search rules))))))

  pub rejects :
      (id : ℕ) (reason : Option Text)
      → Keeps R (reject_organization_application (computing s) id reason)
  unfolding reject_organization_application refuse_decided_application
  rejects id reason = caught_not_found (decides id _) (search rules)

  pub adds_contact :
      (user_id : ℕ) (dto : CreateEmergencyContactDto)
      → Keeps R (create_contact (computing s) user_id dto)
  unfolding create_contact
  adds_contact user_id dto = bind (search rules) (λ now. bind (draws s start) (λ id. search rules))

  pub drops_contact :
      (user_id contact_id : ℕ) → Keeps R (delete_contact (computing s) user_id contact_id)
  unfolding delete_contact
  drops_contact user_id contact_id = search rules
