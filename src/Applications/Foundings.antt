-- ===== src/Applications/Foundings.antt =====
-- The first steps of approveOrganizationApplication in modules/admin/admin.service.ts: the organization,
-- the departure of the applicant and the venues.
use aalam_security_back.Common.{
  ℕ, suc, ◌+◌, ◌≡◌, refl, ap, subst, ◌∙◌, true, false, some, List, [], ◌∷◌, ◌==◌, arith, length,
  Bool-cases, inl, inr, ==_iff,
}
use aalam_security_back.Schema.{Text, OrganizationMember}
use aalam_security_back.Services.{Services, computing}
use aalam_security_back.Rows.{find, count, drop_all}
use aalam_security_back.Rows.Changes.{
  count-drop_all-zero, count-drop_all-of_found, count-pos-of_find,
}
use aalam_security_back.Rows.Counts.{find_accepts}
use aalam_security_back.World.{World, modify, running}
use aalam_security_back.World.Triples.{
  Triple, Nothing, flow, next, having, unless, conclude, keeping,
}
use aalam_security_back.Venues.{is_membership_of}
use aalam_security_back.Venues.Generation.{generates}
use aalam_security_back.Venues.Creation.{CreateVenueDto, new_venue, insert_venue}
use aalam_security_back.Organizations.{is_owner_of, insert_organization}
use aalam_security_back.Applications.{create_branches}
use aalam_security_back.Roster.{is_known}
use aalam_security_back.Roster.Rows.{drawn_again, some_removed, venue_added}
use aalam_security_back.Roster.NewOrganizations.{organization_added, unowned_yet, no_venue_yet}
use aalam_security_back.Applications.Opened.{Start, Waiting, is_venue_in}

module _ (s : Services) (injective : (a b : ℕ) → s.uuid a ≡ s.uuid b → a ≡ b) (user_id : ℕ)
    (before : List OrganizationMember) where
  abbrev Outset : World → Type 0
  Outset = Start s.uuid before

  abbrev Awaiting : ℕ → ℕ → World → Type 0
  Awaiting = Waiting s.uuid user_id before

  pub inserts_organization :
      (name slug code : Text)
      → Triple Outset
          (insert_organization (computing s) name slug code)
          (λ o w.
            Outset w
            × (is_known w.organizations o.id ≡ true)
            × (count (is_owner_of o.id) before ≡ 0)
            × (count (is_venue_in o.id) w.venues ≡ 0))
          Nothing
  unfolding insert_organization
  inserts_organization name slug code = having (λ taken.
      unless (λ w p. tt) _ _
        (unfold running in
          record {
            run = λ w (((r, same), _), _). (
              (organization_added s.uuid injective r _ refl, same),
              ground arith,
              subst (λ ms. count (is_owner_of (s.uuid w.drawn)) ms ≡ 0) same
                  (unowned_yet s.uuid injective r),
              no_venue_yet s.uuid injective r,
            );
          }))

  pub leaves_all :
      (organization_id : ℕ)
      → Triple
          (λ w.
            Outset w
            × (is_known w.organizations organization_id ≡ true)
            × (count (is_owner_of organization_id) before ≡ 0)
            × (count (is_venue_in organization_id) w.venues ≡ 0))
          (modify (λ w. record w { members = drop_all (is_membership_of user_id) w.members }))
          (λ a. Awaiting organization_id 0)
          Nothing
  unfolding running
  leaves_all organization_id = record {
    run = λ w ((r, same), known, unowned, no_venue). (
      some_removed r (is_membership_of user_id),
      count-drop_all-zero (is_membership_of user_id) (is_membership_of user_id) (λ m h. h)
          w.members,
      known,
      no_venue,
      λ o m owned his. (
        count-drop_all-of_found (is_owner_of o) (is_membership_of user_id) m (ground arith)
            w.members (r.one_owner o) (ap (find (is_owner_of o)) same ∙ owned),
        other_one organization_id o m unowned owned,
      ),
    );
  }
    where
      other_one :
          (i o : ℕ) (m : OrganizationMember)
          → count (is_owner_of i) before ≡ 0
          → find (is_owner_of o) before ≡ some m
          → (i == o) ≡ false
      other_one i o m zero_left owned = elim (Bool-cases (i == o)) [
        | inl same ↦
            let one = (==_iff i o).0 same in
            let some_left =
              count-pos-of_find (is_owner_of o) (is_owner_of o) m before owned
                (find_accepts (is_owner_of o) before m owned) in
            absurd (omega (arith, zero_left, some_left, ap (λ j. count (is_owner_of j) before) one))
        | inr apart ↦ apart
      ]

  inserts_venue :
      (organization_id k : ℕ) (b : CreateVenueDto) (code : Text)
      → Triple
          (Awaiting organization_id k)
          (insert_venue (computing s) organization_id b code)
          (λ v. Awaiting organization_id (suc k))
          Nothing
  unfolding insert_venue
  inserts_venue organization_id k b code = having (λ org.
      unless (λ w p. tt) _ _
        (unfold running in
          record {
            run = λ w (((r, free, known, some_there, left), _), _). (
              venue_added s.uuid injective r
                  (new_venue (s.uuid w.drawn) organization_id b code w.now) refl known,
              free,
              known,
              ground arith,
              left,
            );
          }))

  pub creates_branches :
      (random_bytes : ℕ → List ℕ) (organization_id k : ℕ) (bs : List CreateVenueDto)
      → Triple
          (Awaiting organization_id k)
          (create_branches (computing s) random_bytes organization_id bs)
          (λ a. Awaiting organization_id (length bs + k))
          Nothing
  unfolding create_branches
  creates_branches random_bytes organization_id k [] =
      unfold running in
      record { run = λ w p. subst (λ n. Awaiting organization_id n w) (omega arith) p }
  creates_branches random_bytes organization_id k (b ∷ bs) =
      let rest = creates_branches random_bytes organization_id (suc k) bs in
      flow (λ code. Awaiting organization_id k)
        (keeping (λ w p. tt)
          (generates (computing s) random_bytes (λ w p. (drawn_again p.0, p.1, p.2, p.3, p.4))))
        (λ code.
          next (Awaiting organization_id (suc k)) (inserts_venue organization_id k b code)
            (conclude (λ a w p. subst (λ n. Awaiting organization_id n w) (omega arith) p) rest))
