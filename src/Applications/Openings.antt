-- ===== src/Applications/Openings.antt =====
-- What approveOrganizationApplication of modules/admin/admin.service.ts leaves.
use aalam_security_back.Common.{
  ℕ, ◌+◌, ◌≡◌, refl, sym, ap, subst, ◌∙◌, Option, none, some, List, arith, length, or_else, inl,
  inr, Option-cases,
}
use aalam_security_back.Schema.{Text, OrganizationMember, OrganizationApplication, OrgMemberRole}
use aalam_security_back.Services.{Services, Documented, computing, services-eq}
use aalam_security_back.Rows.{find}
use aalam_security_back.World.{World, after, result, running}
use aalam_security_back.World.Keeps.{Keeps, rules}
use aalam_security_back.World.Triples.{
  Triple, Post, Nothing, flow, next, having, unless, given, atomically, weaken, conclude, keeping,
  recovering, knowing, of_result,
}
use aalam_security_back.Venues.{Letters, new_member}
use aalam_security_back.Venues.Generation.{generates}
use aalam_security_back.Venues.Creation.{CreateVenueDto}
use aalam_security_back.Organizations.{insert_member, slug_for}
use aalam_security_back.Applications.{
  application_by_id, is_open_application, approve_as, decide_application, open_organization,
  approve_organization_application, parse_application_branches,
}
use aalam_security_back.Roster.{Roster}
use aalam_security_back.Roster.Rows.{drawn_again}
use aalam_security_back.Applications.Opened.{Opened, Start, Waiting, Owned}
use aalam_security_back.Applications.Foundings.{inserts_organization, leaves_all, creates_branches}

module _ (s : Services) (injective : (a b : ℕ) → s.uuid a ≡ s.uuid b → a ≡ b) (user_id : ℕ)
    (before : List OrganizationMember) where
  abbrev Outset : World → Type 0
  Outset = Start s.uuid before

  abbrev Awaiting : ℕ → ℕ → World → Type 0
  Awaiting = Waiting s.uuid user_id before

  inserts_owner :
      (organization_id k : ℕ)
      → Triple
          (Awaiting organization_id k)
          (insert_member (computing s) user_id organization_id OrgMemberRole.owner none)
          (λ a. Owned user_id before organization_id k)
          Nothing
  unfolding insert_member running
  inserts_owner organization_id k = record {
    run = λ w (r, free, known, there, left). (
      new_member (s.uuid w.drawn) user_id organization_id OrgMemberRole.owner none w.now,
      ground arith,
      refl,
      refl,
      ground arith,
      there,
      λ o m owned his. let (gone, apart) = left o m owned his in ground arith,
    );
  }

  decides :
      (id organization_id k : ℕ)
      → Triple
          (Owned user_id before organization_id k)
          (decide_application (computing s) id (approve_as organization_id))
          (Opened user_id k before)
          Nothing
  unfolding decide_application running
  decides id organization_id k = record {
    run = λ w (m, e, role, inside, one, there, left).
        elim (Option-cases (find (is_open_application id) w.applications)) [
          | inl decided ↦ rw (decided, Post) tt
          | inr (y, open_one) ↦
              rw (open_one, Post)
                (record {
                  organization_id = organization_id;
                  approved = refl;
                  for_organization = refl;
                  membership = m;
                  found = e;
                  as_owner = role;
                  inside = inside;
                  only_one = one;
                  venues = there;
                  deserted = left;
                })
        ];
  }

  opens :
      (random_bytes : ℕ → List ℕ) (x : OrganizationApplication) (name slug : Text)
      (bs : List CreateVenueDto)
      → x.user_id ≡ user_id
      → Triple Outset
          (open_organization (computing s) random_bytes x name slug bs)
          (Opened user_id (length bs) before)
          Nothing
  unfolding open_organization
  opens random_bytes x name slug bs same =
      flow (λ code. Outset)
        (keeping (λ w p. tt) (generates (computing s) random_bytes (λ w p. (drawn_again p.0, p.1))))
        (λ code. flow _ (inserts_organization s injective user_id before name slug code) (λ org.
          rw same (
            next (Awaiting org.id 0) (leaves_all s injective user_id before org.id) (
              next (Awaiting org.id (length bs + 0))
                (creates_branches s injective user_id before random_bytes org.id 0 bs)
                (conclude (λ a w p. subst (λ n. Opened user_id n before a w) (omega arith) p)
                  (next (Owned user_id before org.id (length bs + 0))
                    (inserts_owner org.id (length bs + 0))
                    (decides x.id org.id (length bs + 0))))))))

  slugs : (l : Letters) (name : Text) → Keeps Outset (slug_for (computing s) l name)
  unfolding slug_for
  slugs l name = search rules

  approves :
      (l : Letters) (random_bytes : ℕ → List ℕ) (id : ℕ) (wanted : Option Text)
      (x : OrganizationApplication) (bs : List CreateVenueDto)
      → x.user_id ≡ user_id
      → parse_application_branches x.branches ≡ some bs
      → Triple
          (λ w. Outset w × (find (application_by_id id) w.applications ≡ some x))
          (approve_organization_application (computing s) l random_bytes id wanted)
          (Opened user_id (length bs) before)
          Nothing
  unfolding approve_organization_application
  approves l random_bytes id wanted x bs his parsed = having (λ found.
      given (λ w p. tt) _ _
        (λ y.
          unless (λ w p. tt) _ _
            (knowing {Z = y ≡ x}
              (λ w p. ap (λ o. or_else o x) (sym p.0.1 ∙ sym p.0.0.1 ∙ p.0.0.0.1))
              (λ same.
                given (λ w p. tt) _ _
                  (λ cs.
                    knowing {Z = cs ≡ bs}
                      (λ w p.
                        ap (λ o. or_else o bs)
                          (sym p.1
                            ∙ ap
                                (λ (z : OrganizationApplication).
                                  parse_application_branches z.branches)
                                same
                            ∙ parsed))
                      (λ both.
                        weaken (λ w p. p.0.0.0.0.0)
                          (flow (λ slug. Outset) (keeping (λ w p. tt) (slugs l _))
                            (λ slug.
                              recovering
                                (atomically (λ w p. tt)
                                  (rw both (
                                    opens random_bytes y _ slug bs (
                                      ap (λ (z : OrganizationApplication). z.user_id) same ∙ his))))
                                (unfold running in record { run = λ w p. tt })))))))))

-- The approval of an application, where it succeeds, leaves the applicant with a single membership: the
-- owner's of a new organization that has one venue for each branch of the application. An organization
-- which the applicant owned before is left without any owner. The roster is as the services keep it.
pub approve_organization_application-Opened :
    (s : Services) (d : Documented s) (l : Letters) (random_bytes : ℕ → List ℕ) (id : ℕ)
    (wanted : Option Text) (w : World) (a : OrganizationApplication) (bs : List CreateVenueDto)
    (x : OrganizationApplication)
    → Roster s.uuid w
    → find (application_by_id id) w.applications ≡ some a
    → parse_application_branches a.branches ≡ some bs
    → result (approve_organization_application s l random_bytes id wanted w) ≡ some x
    → Opened a.user_id
        (length bs)
        w.members
        x
        (after (approve_organization_application s l random_bytes id wanted w))
approve_organization_application-Opened s d l random_bytes id wanted w a bs x r e parsed =
    rw (services-eq d) (
      of_result (λ w. Unit) (Opened a.user_id (length bs) w.members) _ x
        ((approves s d.uuid_injective a.user_id w.members l random_bytes id wanted a bs refl
            parsed).run
          w ((r, refl), e)))
