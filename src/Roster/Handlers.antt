-- ===== src/Roster/Handlers.antt =====
-- The roster's invariant under the requests of modules/venue/venue.service.ts.
use aalam_security_back.Common.{
  ℕ, ◌≡◌, refl, sym, ap, ◌∙◌, Bool, true, false, Option, none, some, List, ◌==◌, arith, is_some,
  not,
}
use aalam_security_back.Schema.{Text, Organization, Venue, OrganizationMember, OrgMemberRole}
use aalam_security_back.Services.{Services, computing}
use aalam_security_back.Rows.{find, count}
use aalam_security_back.Rows.Counts.{any-eq-is_some-find}
use aalam_security_back.Rows.Changes.{count-drop_all-zero, find-key-of_find, find-all, find-any}
use aalam_security_back.World.{World, read, ◌>>=◌, running}
use aalam_security_back.World.Triples.{
  Triple, flow, next, having, unless, weaken, conclude, keeping,
}
use aalam_security_back.Venues.{
  Letters, new_member, is_membership_of, join_as_member, bind_to_venue, bind_with,
  bind_by_invite_code, can_manage_organization_venues, venue_has_code, normal_code,
  organization_has_code,
}
use aalam_security_back.Venues.InviteCodes.{generate_unique_invite_code}
use aalam_security_back.Venues.Generation.{generates}
use aalam_security_back.Venues.Creation.{CreateVenueDto, new_venue, insert_venue, create_venue}
use aalam_security_back.Organizations.{insert_organization, is_owner_of, organization_by_id}
use aalam_security_back.Roster.{Roster, is_known, is_venue_of}
use aalam_security_back.Roster.Rows.{drawn_again, some_removed, member_added, venue_added}
use aalam_security_back.Roster.NewOrganizations.{organization_added, unowned_yet}

module _ (s : Services) (injective : (a b : ℕ) → s.uuid a ≡ s.uuid b → a ≡ b) where
  abbrev R : World → Type 0
  R = Roster s.uuid

  -- The roster, and a place for a member.
  abbrev WithPlace : ℕ → Option ℕ → World → Type 0
  WithPlace organization_id venue_id w =
      R w
      × (is_venue_of w.venues organization_id venue_id ≡ true)
      × (is_known w.organizations organization_id ≡ true)

  joins :
      (user_id organization_id : ℕ) (venue_id : Option ℕ)
      → Triple
          (WithPlace organization_id venue_id)
          (join_as_member (computing s) user_id organization_id venue_id)
          (λ a. R)
          R
  unfolding join_as_member running
  joins user_id organization_id venue_id = record {
    run = λ w (r, here, known).
        member_added s.uuid injective (some_removed r (is_membership_of user_id))
          (new_member (s.uuid w.drawn) user_id organization_id OrgMemberRole.member venue_id w.now)
          refl
          (count-drop_all-zero (is_membership_of user_id) (is_membership_of user_id) (λ m h. h)
            w.members)
          (λ owner. absurd (ground arith)) here known;
  }

  known_found :
      (w : World) (i : ℕ) (o : Option Organization)
      → find (organization_by_id i) w.organizations ≡ o
      → not (is_some o) ≡ false
      → is_known w.organizations i ≡ true
  known_found w i o e there =
      sym (any-eq-is_some-find (organization_by_id i) w.organizations)
      ∙ (ap is_some e ∙ ground arith)

  -- A new venue leaves the members and the organizations as they are.
  pub inserts_venue :
      (F : List OrganizationMember → List Organization → Type 0) (organization_id : ℕ)
      (dto : CreateVenueDto) (code : Text)
      → Triple
          (λ w. R w × F w.members w.organizations)
          (insert_venue (computing s) organization_id dto code)
          (λ a w. R w × F w.members w.organizations)
          R
  unfolding insert_venue
  inserts_venue F organization_id dto code = having (λ org.
      unless (λ w p. p.0.0) _ _
        (unfold running in
          record {
            run = λ w p. (
              venue_added s.uuid injective p.0.0.0
                  (new_venue (s.uuid w.drawn) organization_id dto code w.now) refl
                  (known_found w organization_id org p.0.1 p.1),
              p.0.0.1,
            );
          }))

  read_only :
      {A : Type 0} {P : World → Type 0} (f : World → A)
      → ((w : World) → P w → R w)
      → Triple P (read f) (λ a. R) R
  unfolding running
  read_only f h = record { run = h }

  binds_with :
      (user_id : ℕ) (org : Option Organization) (venue : Option Venue)
      → Triple
          (λ w.
            R w
            × ((o : Organization) → org ≡ some o → is_known w.organizations o.id ≡ true)
            × ((v : Venue)
                → venue ≡ some v
                → (is_venue_of w.venues v.organization_id (some v.id) ≡ true)
                  × (is_known w.organizations v.organization_id ≡ true)))
          (bind_with (computing s) user_id org venue)
          (λ a. R)
          R
  unfolding bind_with bind_to_venue
  binds_with user_id (some org) venue =
      next R (weaken (λ w p. (p.0, refl, p.1 org refl)) (joins user_id org.id none))
        (unfold running in record { run = λ w r. r })
  binds_with user_id none (some v) =
      next R
        (weaken (λ w p. (p.0, (p.2 v refl).0, (p.2 v refl).1))
          (joins user_id v.organization_id (some v.id)))
        (read_only _ (λ w r. r))
  binds_with user_id none none = unfold running in record { run = λ w p. p.0 }

  found_here :
      (q : Venue → Bool) (w : World) (v : Venue)
      → R w
      → find q w.venues ≡ some v
      → (is_venue_of w.venues v.organization_id (some v.id) ≡ true)
        × (is_known w.organizations v.organization_id ≡ true)
  found_here q w v r e =
      let key =
        find-key-of_find q (λ (x : Venue). x.id == v.id) v (ground arith) w.venues
          (r.venues_distinct v.id) e in
      (
        ground arith,
        find-all (λ (x : Venue). is_known w.organizations x.organization_id) q v w.venues
            r.venues_belong e,
      )

  pub binds :
      (l : Letters) (user_id : ℕ) (invite_code : Text)
      → Triple R (bind_by_invite_code (computing s) l user_id invite_code) (λ a. R) R
  unfolding bind_by_invite_code
  binds l user_id invite_code = having (λ current.
      unless (λ w p. p.0) _ _
        (having (λ org. having (λ venue.
          weaken
            (λ w p. (
              p.0.0.0.0,
              λ o e.
                  find-any (organization_has_code l (normal_code l invite_code))
                    (organization_by_id o.id) o (ground arith) w.organizations (p.0.1 ∙ e),
              λ v e.
                  found_here (venue_has_code l (normal_code l invite_code)) w v p.0.0.0.0 (p.1 ∙ e),
            ))
            (binds_with user_id org venue)))))

  generates_code :
      (random_bytes : ℕ → List ℕ)
      → Triple R (generate_unique_invite_code (computing s) random_bytes) (λ a. R) R
  generates_code random_bytes =
      keeping (λ w r. r) (generates (computing s) random_bytes (λ w r. drawn_again r))

  -- A venue with a code of its own.
  pub adds_venue :
      (random_bytes : ℕ → List ℕ) (organization_id : ℕ) (dto : CreateVenueDto)
      → Triple R
          (generate_unique_invite_code (computing s) random_bytes >>= λ code.
            insert_venue (computing s) organization_id dto code)
          (λ a. R)
          R
  adds_venue random_bytes organization_id dto =
      flow (λ code. R) (generates_code random_bytes)
        (λ code.
          conclude (λ a w p. p.0)
            (weaken (λ w r. (r, tt)) (inserts_venue (λ ms os. Unit) organization_id dto code)))

  pub creates_venue :
      (random_bytes : ℕ → List ℕ) (user_id organization_id : ℕ) (dto : CreateVenueDto)
      (is_admin : Bool)
      → Triple R
          (create_venue (computing s) random_bytes user_id organization_id dto is_admin)
          (λ a. R)
          R
  unfolding create_venue can_manage_organization_venues
  creates_venue random_bytes user_id organization_id dto is_admin = having (λ can.
      unless (λ w p. p.0) _ _ (weaken (λ w p. p.0.0) (adds_venue random_bytes organization_id dto)))

  -- A new organization, whose identifier no member names yet.
  pub inserts_organization :
      (F : List OrganizationMember → Type 0) (name slug code : Text)
      → Triple
          (λ w. R w × F w.members)
          (insert_organization (computing s) name slug code)
          (λ o w.
            R w
            × F w.members
            × (is_known w.organizations o.id ≡ true)
            × (count (is_owner_of o.id) w.members ≡ 0))
          R
  unfolding insert_organization
  inserts_organization F name slug code = having (λ taken.
      unless (λ w p. p.0.0) _ _
        (unfold running in
          record {
            run = λ w (((r, f), _), _). (
              organization_added s.uuid injective r _ refl,
              f,
              ground arith,
              unowned_yet s.uuid injective r,
            );
          }))
