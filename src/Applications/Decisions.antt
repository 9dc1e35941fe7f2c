-- ===== src/Applications/Decisions.antt =====
-- The decisions of modules/admin/admin.service.ts on one application, one after another.
use aalam_security_back.Common.{
  ℕ, ◌≤◌, ◌≡◌, refl, false, Option, none, some, List, [], ◌∷◌, arith, ◌∙◌, Option-cases, inl, inr,
  ==_iff,
}
use aalam_security_back.Schema.{Text, OrganizationApplication, OrgMemberRole, is_pending}
use aalam_security_back.Errors.{status_409, http_exception}
use aalam_security_back.Services.{Services, Documented, computing, services-eq}
use aalam_security_back.Rows.{find, count}
use aalam_security_back.Rows.Counts.{
  count-set_first_same, find-set_first_key, any-eq-false-of_find_key, any-eq-is_some-find,
  find_accepts,
}
use aalam_security_back.World.{World, thrown, after, result, M, running}
use aalam_security_back.World.Keeps.{Keeps, seq, bind, modifies, rules}
use aalam_security_back.World.Triples.{
  Nothing, Triple, Post, flow, next, having, unless, given, atomically, weaken, keeping, recovering,
  knowing, of_result,
}
use aalam_security_back.Venues.{Letters}
use aalam_security_back.Venues.Generation.{generates}
use aalam_security_back.Venues.Creation.{CreateVenueDto, insert_venue}
use aalam_security_back.Organizations.{insert_organization, insert_member, slug_for}
use aalam_security_back.Applications.{
  approve_as, refuse_with, application_by_id, is_open_application, decide_application,
  create_branches, open_organization, approve_organization_application, refuse_decided_application,
  reject_organization_application,
}

pub data Decision : Type 0 where
  approval : Letters → (ℕ → List ℕ) → Option Text → Decision
  refusal : Option Text → Decision

-- The administrator's decision on an application.
abbrev pub decide : Services → Decision → ℕ → M OrganizationApplication
decide s (approval l random_bytes wanted) id =
    approve_organization_application s l random_bytes id wanted
decide s (refusal reason) id = reject_organization_application s id reason

module _ (s : Services) (id : ℕ) where
  -- The primary key names one application.
  abbrev Single : World → Type 0
  Single w = count (application_by_id id) w.applications ≤ 1

  abbrev Decided : OrganizationApplication → World → Type 0
  Decided x w =
      (find (application_by_id id) w.applications ≡ some x)
      × (is_pending x.status ≡ false)
      × Single w

  decides :
      (f : OrganizationApplication → OrganizationApplication)
      → ((x : OrganizationApplication) → (f x).id ≡ x.id)
      → ((x : OrganizationApplication) → is_pending (f x).status ≡ false)
      → Triple Single (decide_application (computing s) id f) Decided Nothing
  unfolding decide_application running
  decides f same done = record {
    run = λ w p. elim (Option-cases (find (is_open_application id) w.applications)) [
      | inl none_open ↦ rw (none_open, Post) tt
      | inr (y, e) ↦
          rw (e, Post)
            (
              find-set_first_key (application_by_id id) (is_open_application id)
                  (λ x hit. ground arith) f (λ x. ground (arith, same x)) w.applications y p e,
              done y,
              rw
                  (count-set_first_same (application_by_id id) (is_open_application id) f
                    (λ x. ground (arith, same x)) w.applications)
                  p,
            )
    ];
  }

  inserts_venue :
      (organization_id : ℕ) (b : CreateVenueDto) (code : Text)
      → Keeps Single (insert_venue (computing s) organization_id b code)
  unfolding insert_venue running
  inserts_venue organization_id b code = record { run = λ w p. ground arith }

  inserts_organization :
      (name slug code : Text) → Keeps Single (insert_organization (computing s) name slug code)
  unfolding insert_organization running
  inserts_organization name slug code = record { run = λ w p. ground arith }

  inserts_member :
      (user_id organization_id : ℕ) (role : OrgMemberRole) (venue_id : Option ℕ)
      → Keeps Single (insert_member (computing s) user_id organization_id role venue_id)
  unfolding insert_member running
  inserts_member user_id organization_id role venue_id = record { run = λ w p. p }

  creates_branches :
      (random_bytes : ℕ → List ℕ) (organization_id : ℕ) (bs : List CreateVenueDto)
      → Keeps Single (create_branches (computing s) random_bytes organization_id bs)
  unfolding create_branches
  creates_branches random_bytes organization_id [] = search rules
  creates_branches random_bytes organization_id (b ∷ bs) =
      bind (generates (computing s) random_bytes (λ w p. p)) (λ code.
        seq (inserts_venue organization_id b code)
          (creates_branches random_bytes organization_id bs))

  stays : {A : Type 0} {m : M A} → Keeps Single m → Triple Single m (λ a. Single) Nothing
  stays h = keeping (λ w p. tt) h

  opens :
      (random_bytes : ℕ → List ℕ) (x : OrganizationApplication) (name slug : Text)
      (bs : List CreateVenueDto)
      → x.id ≡ id
      → Triple Single (open_organization (computing s) random_bytes x name slug bs) Decided Nothing
  unfolding open_organization
  opens random_bytes x name slug bs e =
      flow (λ code. Single) (stays (generates (computing s) random_bytes (λ w p. p)))
        (λ code.
          flow (λ org. Single) (stays (inserts_organization name slug code))
            (λ org. next Single (stays (modifies _ (λ w p. p))) (
              next Single (stays (creates_branches random_bytes org.id bs)) (
                next Single (stays (inserts_member x.user_id org.id OrgMemberRole.owner none))
                  (rw e (decides (approve_as org.id) (λ y. refl) (λ y. refl)))))))

  own_id :
      (x : OrganizationApplication) (t : List OrganizationApplication)
      → find (application_by_id id) t ≡ some x
      → x.id ≡ id
  own_id x t e = (==_iff x.id id).0 (find_accepts (application_by_id id) t x e)

  slugs : (l : Letters) (name : Text) → Keeps Single (slug_for (computing s) l name)
  unfolding slug_for
  slugs l name = search rules

  approves :
      (l : Letters) (random_bytes : ℕ → List ℕ) (wanted : Option Text)
      → Triple Single
          (approve_organization_application (computing s) l random_bytes id wanted)
          Decided
          Nothing
  unfolding approve_organization_application
  approves l random_bytes wanted = having (λ found.
      given (λ w p. tt) _ _
        (λ x.
          unless (λ w p. tt) _ _
            (given (λ w p. tt) _ _
              (λ bs.
                knowing (λ w p. own_id x w.applications (p.0.0.0.1 ∙ p.0.0.1))
                  (λ e.
                    weaken (λ w p. p.0.0.0.0)
                      (flow (λ slug. Single) (stays (slugs l _))
                        (λ slug.
                          recovering (atomically (λ w p. tt) (opens random_bytes x _ slug bs e))
                            (unfold running in record { run = λ w p. tt }))))))))

  rejects :
      (reason : Option Text)
      → Triple Single (reject_organization_application (computing s) id reason) Decided Nothing
  unfolding reject_organization_application
  rejects reason = recovering (decides (refuse_with reason) (λ x. refl) (λ x. refl)) (
      unfold refuse_decided_application in
      having (λ found. given (λ w p. tt) _ _ (λ x. unfold running in record { run = λ w p. tt })))

  decided : (c : Decision) → Triple Single (decide (computing s) c id) Decided Nothing
  decided (approval l random_bytes wanted) = approves l random_bytes wanted
  decided (refusal reason) = rejects reason

  approval_refused :
      (l : Letters) (random_bytes : ℕ → List ℕ) (wanted : Option Text) (x : OrganizationApplication)
      (w : World)
      → Decided x w
      → approve_organization_application (computing s) l random_bytes id wanted w
        ≡ thrown (http_exception status_409) w
  unfolding approve_organization_application running
  approval_refused l random_bytes wanted x w (e, done, one) = rw e (rw done refl)

  refusal_refused :
      (reason : Option Text) (x : OrganizationApplication) (w : World)
      → Decided x w
      → reject_organization_application (computing s) id reason w
        ≡ thrown (http_exception status_409) w
  unfolding reject_organization_application decide_application refuse_decided_application running
  refusal_refused reason x w (e, done, one) = ground (
    arith,
    any-eq-is_some-find (is_open_application id) w.applications,
    any-eq-false-of_find_key (application_by_id id) (is_open_application id) (λ y hit. ground arith)
        w.applications x one e (ground arith),
  )

  refused :
      (c : Decision) (x : OrganizationApplication) (w : World)
      → Decided x w
      → decide (computing s) c id w ≡ thrown (http_exception status_409) w
  refused (approval l random_bytes wanted) x w d = approval_refused l random_bytes wanted x w d
  refused (refusal reason) x w d = refusal_refused reason x w d

  once :
      (first second : Decision) (x : OrganizationApplication) (w : World)
      → count (application_by_id id) w.applications ≤ 1
      → result (decide (computing s) first id w) ≡ some x
      → decide (computing s) second id (after (decide (computing s) first id w))
        ≡ thrown (http_exception status_409) (after (decide (computing s) first id w))
  once first second x w one e =
      refused second x _ (
        of_result Nothing Decided (decide (computing s) first id w) x ((decided first).run w one) e)

-- An application is decided once: after an approval or a rejection has succeeded, every further
-- approval or rejection of it is refused with 409 and changes nothing. The table's primary key names
-- one application.
pub decide-decide :
    (s : Services) (d : Documented s) (id : ℕ) (first second : Decision)
    (x : OrganizationApplication) (w : World)
    → count (application_by_id id) w.applications ≤ 1
    → result (decide s first id w) ≡ some x
    → decide s second id (after (decide s first id w))
      ≡ thrown (http_exception status_409) (after (decide s first id w))
decide-decide s d id = rw (services-eq d) (once s id)
