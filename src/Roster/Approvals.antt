-- ===== src/Roster/Approvals.antt =====
-- The roster's invariant under the approval of an application, of modules/admin/admin.service.ts.
use aalam_security_back.Common.{ℕ, ◌≡◌, refl, true, Option, none, List, [], ◌∷◌, arith}
use aalam_security_back.Schema.{
  Text, Organization, OrganizationMember, OrganizationApplication, OrgMemberRole,
}
use aalam_security_back.Services.{Services, computing}
use aalam_security_back.Rows.{count, drop_all}
use aalam_security_back.Rows.Changes.{count-drop_all-zero, count-drop_all-of_zero}
use aalam_security_back.World.{World, modify, running}
use aalam_security_back.World.Triples.{
  Triple, flow, next, having, unless, given, atomically, weaken, keeping, recovering,
}
use aalam_security_back.Venues.{Letters, is_membership_of}
use aalam_security_back.Venues.Creation.{CreateVenueDto}
use aalam_security_back.Organizations.{is_owner_of}
use aalam_security_back.Applications.{
  create_branches, decide_application, open_organization, approve_organization_application,
}
use aalam_security_back.Roster.{Roster, is_known}
use aalam_security_back.Roster.Rows.{drawn_again, some_removed}
use aalam_security_back.Roster.Handlers.{inserts_venue, inserts_organization}
use aalam_security_back.Roster.Ownership.{generates_for, slugs, inserts_member}

module _ (s : Services) (injective : (a b : ℕ) → s.uuid a ≡ s.uuid b → a ≡ b) where
  abbrev R : World → Type 0
  R = Roster s.uuid

  -- A person with no membership, and an organization that has no owner.
  abbrev Vacant : ℕ → ℕ → List OrganizationMember → List Organization → Type 0
  Vacant user_id organization_id ms os =
      (count (is_membership_of user_id) ms ≡ 0)
      × (is_known os organization_id ≡ true)
      × (count (is_owner_of organization_id) ms ≡ 0)

  abbrev Waiting : ℕ → ℕ → World → Type 0
  Waiting user_id organization_id w = R w × Vacant user_id organization_id w.members w.organizations

  creates_branches :
      (random_bytes : ℕ → List ℕ) (user_id organization_id : ℕ) (branches : List CreateVenueDto)
      → Triple
          (Waiting user_id organization_id)
          (create_branches (computing s) random_bytes organization_id branches)
          (λ a. Waiting user_id organization_id)
          R
  unfolding create_branches
  creates_branches random_bytes user_id organization_id [] =
      unfold running in record { run = λ w p. p }
  creates_branches random_bytes user_id organization_id (b ∷ bs) =
      let rest = creates_branches random_bytes user_id organization_id bs in
      flow (λ code. Waiting user_id organization_id)
        (generates_for s injective (Waiting user_id organization_id) (λ w p. p.0)
          (λ w p. (drawn_again p.0, p.1)) random_bytes)
        (λ code.
          next (Waiting user_id organization_id)
            (inserts_venue s injective (Vacant user_id organization_id) organization_id b code)
            rest)

  decides :
      (id : ℕ) (f : OrganizationApplication → OrganizationApplication)
      → Triple R (decide_application (computing s) id f) (λ a. R) R
  unfolding decide_application running
  decides id f = keeping (λ w r. r) (record { run = λ w r. ground arith })

  opens :
      (random_bytes : ℕ → List ℕ) (x : OrganizationApplication) (name slug : Text)
      (branches : List CreateVenueDto)
      → Triple R (open_organization (computing s) random_bytes x name slug branches) (λ a. R) R
  unfolding open_organization
  opens random_bytes x name slug branches =
      flow (λ code. R) (generates_for s injective R (λ w r. r) (λ w r. drawn_again r) random_bytes)
        (λ code.
          flow _
            (weaken (λ w r. (r, tt)) (inserts_organization s injective (λ ms. Unit) name slug code))
            (λ org. next (Waiting x.user_id org.id) (leaves_all x.user_id org.id) (
              next (Waiting x.user_id org.id)
                (creates_branches random_bytes x.user_id org.id branches)
                (next R
                  (weaken
                    (λ w (r, (unbound, known, unowned)). ((r, unbound), refl, known, λ h. unowned))
                    (inserts_member s injective x.user_id org.id OrgMemberRole.owner none))
                  (decides x.id _)))))
    where
      leaves_all :
          (user_id organization_id : ℕ)
          → Triple
              (λ w.
                R w
                × Unit
                × (is_known w.organizations organization_id ≡ true)
                × (count (is_owner_of organization_id) w.members ≡ 0))
              (modify (λ w. record w { members = drop_all (is_membership_of user_id) w.members }))
              (λ a. Waiting user_id organization_id)
              R
      leaves_all user_id organization_id =
          unfold running in
          record {
            run = λ w (r, _, known, unowned). (
              some_removed r (is_membership_of user_id),
              (
                count-drop_all-zero (is_membership_of user_id) (is_membership_of user_id) (λ m h. h)
                    w.members,
                known,
                count-drop_all-of_zero (is_owner_of organization_id) (is_membership_of user_id)
                    w.members unowned,
              ),
            );
          }

  pub approves :
      (l : Letters) (random_bytes : ℕ → List ℕ) (id : ℕ) (wanted : Option Text)
      → Triple R
          (approve_organization_application (computing s) l random_bytes id wanted)
          (λ a. R)
          R
  unfolding approve_organization_application
  approves l random_bytes id wanted = having (λ found.
      given (λ w p. p.0) _ _
        (λ x.
          unless (λ w p. p.0.0) _ _
            (given (λ w p. p.0.0.0) _ _
              (λ branches.
                weaken (λ w p. p.0.0.0.0)
                  (flow (λ slug. R) (slugs s injective R (λ w r. r) l _)
                    (λ slug.
                      recovering (atomically (λ w r. r) (opens random_bytes x _ slug branches))
                        (unfold running in record { run = λ w r. r })))))))
