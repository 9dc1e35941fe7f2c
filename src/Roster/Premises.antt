-- ===== src/Roster/Premises.antt =====
-- The roster's invariant under the changes of venues and organizations in modules/admin/admin.service.ts.
use aalam_security_back.Common.{ℕ, ◌≡◌, refl, Option, List, Bool-cases, inl, inr, Option-cases}
use aalam_security_back.Schema.{Text, Organization}
use aalam_security_back.Services.{Services, computing}
use aalam_security_back.Rows.{find}
use aalam_security_back.World.{World, running}
use aalam_security_back.World.Triples.{Triple, Post, flow, having, unless, given, weaken}
use aalam_security_back.Venues.Creation.{CreateVenueDto}
use aalam_security_back.Organizations.{organization_by_id}
use aalam_security_back.Organizations.Removal.{remove_venues, remove_organization}
use aalam_security_back.Admin.Members.{venue_by_id}
use aalam_security_back.Admin.Venues.{
  UpdateVenueDto, change_venue, create_venue_as_admin, update_venue, delete_venue,
}
use aalam_security_back.Admin.Organizations.{
  change_organization, update_organization, delete_organization, needs_invite_code, rename,
  with_code,
}
use aalam_security_back.Roster.{Roster}
use aalam_security_back.Roster.Rows.{drawn_again, venue_changed}
use aalam_security_back.Roster.Removals.{venues_removed, organization_removed, organization_changed}
use aalam_security_back.Roster.Handlers.{adds_venue}
use aalam_security_back.Roster.Ownership.{generates_for}

module _ (s : Services) (injective : (a b : ℕ) → s.uuid a ≡ s.uuid b → a ≡ b) where
  abbrev R : World → Type 0
  R = Roster s.uuid

  pub creates_venue_as_admin :
      (random_bytes : ℕ → List ℕ) (organization_id : ℕ) (dto : CreateVenueDto)
      → Triple R (create_venue_as_admin (computing s) random_bytes organization_id dto) (λ a. R) R
  unfolding create_venue_as_admin
  creates_venue_as_admin random_bytes organization_id dto = having (λ found.
      given (λ w p. p.0) _ _
        (λ org. weaken (λ w p. p.0.0) (adds_venue s injective random_bytes organization_id dto)))

  pub updates_venue :
      (venue_id : ℕ) (dto : UpdateVenueDto)
      → Triple R (update_venue (computing s) venue_id dto) (λ a. R) R
  unfolding update_venue
  updates_venue venue_id dto = having (λ found.
      given (λ w p. p.0) _ _
        (λ venue. record {
          run = λ w p. elim (Option-cases (find (venue_by_id venue_id) w.venues)) [
            | inl gone ↦ rw (gone, Post) p.0.0
            | inr (v, e) ↦
                rw (e, Post)
                  (venue_changed s.uuid injective p.0.0 venue_id (change_venue dto) (λ x. refl)
                    (λ x. refl))
          ];
        }))

  pub deletes_venue : (venue_id : ℕ) → Triple R (delete_venue (computing s) venue_id) (λ a. R) R
  unfolding delete_venue
  deletes_venue venue_id = having (λ found.
      given (λ w p. p.0) _ _
        (λ venue.
          unfold running in
          unfold remove_venues in
          record { run = λ w p. venues_removed (venue_by_id venue_id) w.venues p.0.0 }))

  changes_organization :
      (id : ℕ) (f : Organization → Organization)
      → ((o : Organization) → (f o).id ≡ o.id)
      → Triple R (change_organization (computing s) id f) (λ a. R) R
  unfolding change_organization
  changes_organization id f same = record {
    run = λ w r. elim (Option-cases (find (organization_by_id id) w.organizations)) [
      | inl gone ↦ rw (gone, Post) r
      | inr (o, e) ↦ rw (e, Post) (organization_changed id f same r)
    ];
  }

  pub updates_organization :
      (random_bytes : ℕ → List ℕ) (id : ℕ) (name : Option Text)
      → Triple R (update_organization (computing s) random_bytes id name) (λ a. R) R
  unfolding update_organization
  updates_organization random_bytes id name = having (λ found.
      given (λ w p. p.0) _ _
        (λ org.
          weaken (λ w p. p.0.0)
            (elim (Bool-cases (needs_invite_code org)) [
              | inl wants ↦ rw wants (
                  flow (λ code. R)
                    (generates_for s injective R (λ w r. r) (λ w r. drawn_again r) random_bytes)
                    (λ code.
                      changes_organization id (λ o. with_code code (rename name o)) (λ o. refl)))
              | inr has ↦ rw has (changes_organization id (rename name) (λ o. refl))
            ])))

  pub deletes_organization : (id : ℕ) → Triple R (delete_organization (computing s) id) (λ a. R) R
  unfolding delete_organization
  deletes_organization id = having (λ found.
      given (λ w p. p.0) _ _
        (λ org. having (λ open_sessions.
          unless (λ w p. p.0.0.0) _ _
            (unfold running in
              unfold remove_organization in
              record { run = λ w p. organization_removed id p.0.0.0.0 }))))
