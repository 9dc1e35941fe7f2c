-- ===== src/Roster/Ownership.antt =====
-- The roster's invariant under the creation of organizations, in
-- modules/organization/organization.service.ts and modules/admin/admin.service.ts.
use aalam_security_back.Common.{
  ℕ, suc, ◌≡◌, refl, ap, ◌∙◌, true, false, Option, none, List, is_some,
}
use aalam_security_back.Schema.{Text, OrganizationMember, OrgMemberRole, is_owner}
use aalam_security_back.Services.{Services, computing}
use aalam_security_back.Rows.{find, count}
use aalam_security_back.Rows.Changes.{count-zero-of_not_found}
use aalam_security_back.World.{World, running}
use aalam_security_back.World.Keeps.{rules}
use aalam_security_back.World.Triples.{
  Triple, flow, next, having, unless, atomically, weaken, conclude, keeping,
}
use aalam_security_back.Venues.{Letters, new_member, is_membership_of}
use aalam_security_back.Venues.InviteCodes.{generate_unique_invite_code}
use aalam_security_back.Venues.Generation.{generates}
use aalam_security_back.Organizations.{insert_member, slug_for, create_owned, is_owner_of}
use aalam_security_back.Admin.Organizations.{create_organization}
use aalam_security_back.Roster.{Roster, is_known, is_venue_of}
use aalam_security_back.Roster.Rows.{drawn_again, member_added}
use aalam_security_back.Roster.Handlers.{inserts_organization}

module _ (s : Services) (injective : (a b : ℕ) → s.uuid a ≡ s.uuid b → a ≡ b) where
  abbrev R : World → Type 0
  R = Roster s.uuid

  -- The roster, and a person with no membership.
  abbrev Unbound : ℕ → World → Type 0
  Unbound user_id w = R w × (count (is_membership_of user_id) w.members ≡ 0)

  pub generates_for :
      (P : World → Type 0)
      → ((w : World) → P w → R w)
      → ((w : World) → P w → P (record w { drawn = suc w.drawn }))
      → (random_bytes : ℕ → List ℕ)
      → Triple P (generate_unique_invite_code (computing s) random_bytes) (λ code. P) R
  generates_for P leaves again random_bytes =
      keeping leaves (generates (computing s) random_bytes again)

  pub slugs :
      (P : World → Type 0)
      → ((w : World) → P w → R w)
      → (l : Letters) (name : Text) → Triple P (slug_for (computing s) l name) (λ slug. P) R
  unfolding slug_for
  slugs P leaves l name = keeping leaves (search rules)

  -- A membership for a person who has none; an owner only where there is none.
  pub inserts_member :
      (user_id organization_id : ℕ) (role : OrgMemberRole) (venue_id : Option ℕ)
      → Triple
          (λ w.
            Unbound user_id w
            × (is_venue_of w.venues organization_id venue_id ≡ true)
            × (is_known w.organizations organization_id ≡ true)
            × (is_owner role ≡ true → count (is_owner_of organization_id) w.members ≡ 0))
          (insert_member (computing s) user_id organization_id role venue_id)
          (λ a. R)
          R
  unfolding insert_member running
  inserts_member user_id organization_id role venue_id = record {
    run = λ w ((r, unbound), here, known, unowned).
        member_added s.uuid injective r
          (new_member (s.uuid w.drawn) user_id organization_id role venue_id w.now) refl unbound
          unowned here known;
  }

  -- The search for a membership has found none.
  pub unbound :
      (user_id : ℕ) (w : World) (already : Option OrganizationMember)
      → find (is_membership_of user_id) w.members ≡ already
      → is_some already ≡ false
      → count (is_membership_of user_id) w.members ≡ 0
  unbound user_id w already e h =
      count-zero-of_not_found (is_membership_of user_id) w.members (ap is_some e ∙ h)

  pub creates_owned :
      (l : Letters) (random_bytes : ℕ → List ℕ) (user_id : ℕ) (name : Text)
      → Triple R (create_owned (computing s) l random_bytes user_id name) (λ a. R) R
  unfolding create_owned
  creates_owned l random_bytes user_id name = having (λ already.
      unless (λ w p. p.0) _ _
        (weaken (λ w p. (p.0.0, unbound user_id w already p.0.1 p.1))
          (flow (λ slug. Unbound user_id) (slugs (Unbound user_id) (λ w p. p.0) l name)
            (λ slug.
              flow (λ code. Unbound user_id)
                (generates_for (Unbound user_id) (λ w p. p.0) (λ w p. (drawn_again p.0, p.1))
                  random_bytes)
                (λ code.
                  atomically (λ w p. p.0)
                    (flow _
                      (inserts_organization s injective
                        (λ ms. count (is_membership_of user_id) ms ≡ 0) name slug code)
                      (λ org.
                        next R
                          (weaken (λ w p. ((p.0, p.1), refl, p.2, λ h. p.3))
                            (inserts_member user_id org.id OrgMemberRole.owner none))
                          (unfold running in record { run = λ w r. r }))))))))

  pub creates_organization :
      (l : Letters) (random_bytes : ℕ → List ℕ) (name : Text)
      → Triple R (create_organization (computing s) l random_bytes name) (λ a. R) R
  unfolding create_organization
  creates_organization l random_bytes name =
      flow (λ slug. R) (slugs R (λ w r. r) l name)
        (λ slug.
          flow (λ code. R) (generates_for R (λ w r. r) (λ w r. drawn_again r) random_bytes)
            (λ code.
              conclude (λ a w p. p.0)
                (weaken (λ w r. (r, tt))
                  (inserts_organization s injective (λ ms. Unit) name slug code))))
