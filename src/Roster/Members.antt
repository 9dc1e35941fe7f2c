-- ===== src/Roster/Members.antt =====
-- The roster's invariant under the changes of members in modules/admin/admin.service.ts.
use aalam_security_back.Common.{
  ℕ, ◌≤◌, ◌≡◌, ◌⊎◌, refl, ap, ◌∙◌, true, false, ◌&&◌, Option, none, some, ◌==◌, arith, not,
  Bool-cases, inl, inr, ==_iff,
}
use aalam_security_back.Schema.{OrganizationMember, OrgMemberRole, is_owner}
use aalam_security_back.Services.{Services, computing}
use aalam_security_back.Rows.{find, count, set_first}
use aalam_security_back.Rows.Counts.{find_accepts, count-set_first-le_suc}
use aalam_security_back.Rows.Changes.{
  count-set_first-le_found, find-all, find-any, find-key-of_find,
}
use aalam_security_back.Rows.Counts.{count-set_first_same}
use aalam_security_back.World.{World, running}
use aalam_security_back.World.Triples.{
  Triple, next, having, unless, given, atomically, weaken, conclude, sometimes,
}
use aalam_security_back.Venues.{is_membership_of}
use aalam_security_back.Organizations.{is_owner_of, organization_by_id}
use aalam_security_back.Admin.Operators.{or_keep}
use aalam_security_back.Admin.Members.{
  AddOrganizationMemberDto, UpdateOrganizationMemberDto, member_by_id, asks_owner, asked_venue,
  demote, change_member, update_member, enroll, add_organization_member, reassign_role,
  update_organization_member, remove_organization_member,
}
use aalam_security_back.Roster.{Roster, is_known, is_venue_of, is_placed}
use aalam_security_back.Roster.Rows.{some_removed}
use aalam_security_back.Roster.Roles.{member_changed, still_found}
use aalam_security_back.Roster.Ownership.{inserts_member, unbound}
use aalam_security_back.Roster.Demotions.{updates, demotes, asserts_venue}

module _ (s : Services) (injective : (a b : ℕ) → s.uuid a ≡ s.uuid b → a ≡ b) where
  abbrev R : World → Type 0
  R = Roster s.uuid

  -- What the insertion of a member asks for, but for the owner.
  abbrev Ready : ℕ → ℕ → Option ℕ → World → Type 0
  Ready user_id organization_id venue_id w =
      (count (is_membership_of user_id) w.members ≡ 0)
      × (is_venue_of w.venues organization_id venue_id ≡ true)
      × (is_known w.organizations organization_id ≡ true)

  enrolls :
      (user_id organization_id : ℕ) (dto : AddOrganizationMemberDto)
      → Triple
          (λ w. R w × Ready user_id organization_id dto.venue_id w)
          (enroll (computing s) user_id organization_id dto)
          (λ a. R)
          R
  unfolding enroll
  enrolls user_id organization_id dto =
      next
        (λ w.
          R w
          × Ready user_id organization_id dto.venue_id w
          × (is_owner dto.role ≡ true → count (is_owner_of organization_id) w.members ≡ 0))
        (sometimes (is_owner dto.role)
          (λ owner.
            conclude (λ a w p. (p.0, p.1, λ h. p.2))
              (demotes s organization_id (Ready user_id organization_id dto.venue_id) (λ w c r f e.
                (
                  count-set_first_same (is_membership_of user_id) (member_by_id c.id) demote
                        (λ x. refl) w.members
                      ∙ f.0,
                  f.1,
                  f.2,
                ))))
          (λ other w p. (p.0, p.1, λ owner. absurd (ground arith))))
        (weaken (λ w p. ((p.0, p.1.0), p.1.1, p.1.2, p.2))
          (inserts_member s injective user_id organization_id dto.role dto.venue_id))

  pub adds_member :
      (organization_id : ℕ) (dto : AddOrganizationMemberDto)
      → Triple R (add_organization_member (computing s) organization_id dto) (λ a. R) R
  unfolding add_organization_member
  adds_member organization_id dto = having (λ org_found.
      given (λ w p. p.0) _ _
        (λ org. having (λ user_found.
          given (λ w p. p.0.0.0) _ _
            (λ user. having (λ existing.
              unless (λ w p. p.0.0.0.0.0) _ _
                (weaken
                  (λ w p. (
                    p.0.0.0.0.0.0,
                    unbound s injective user.id w existing p.0.1 p.1,
                    find-any (organization_by_id organization_id)
                        (organization_by_id organization_id) org
                        (find_accepts (organization_by_id organization_id) w.organizations org
                          (p.0.0.0.0.0.1 ∙ p.0.0.0.0.1))
                        w.organizations (p.0.0.0.0.0.1 ∙ p.0.0.0.0.1),
                  ))
                  (next _
                    (asserts_venue s
                      (λ w.
                        R w
                        × (count (is_membership_of user.id) w.members ≡ 0)
                        × (is_known w.organizations organization_id ≡ true))
                      (λ w p. p.0) dto.venue_id organization_id)
                    (atomically (λ w p. p.0.0)
                      (weaken (λ w p. (p.0.0, (p.0.1, p.1, p.0.2)))
                        (enrolls user.id organization_id dto))))))))))

  -- The member that is to change, and the place after the change.
  abbrev Target : OrganizationMember → UpdateOrganizationMemberDto → World → Type 0
  Target m dto w =
      (find (member_by_id m.id) w.members ≡ some m)
      × (is_placed w.venues (change_member dto m) ≡ true)

  -- No second owner comes of it.
  abbrev Unrivalled : OrganizationMember → UpdateOrganizationMemberDto → World → Type 0
  Unrivalled m dto w =
      (count (is_owner_of m.organization_id) w.members ≡ 0)
      ⊎ (is_owner (change_member dto m).role ≡ true → is_owner m.role ≡ true)

  owners_after :
      (w : World) (m : OrganizationMember) (dto : UpdateOrganizationMemberDto)
      → R w
      → find (member_by_id m.id) w.members ≡ some m
      → Unrivalled m dto w
      → (i : ℕ)
      → count (is_owner_of i) (set_first (member_by_id m.id) (change_member dto) w.members) ≤ 1
  owners_after w m dto r e (inl none_left) i = elim (Bool-cases (m.organization_id == i)) [
    | inl same ↦
        let one = (==_iff m.organization_id i).0 same in
        omega (
          arith,
          count-set_first-le_suc (member_by_id m.id) (is_owner_of i) (change_member dto) w.members,
          none_left,
          ap (λ o. count (is_owner_of o) w.members) one,
        )
    | inr apart ↦ omega (
      arith,
      count-set_first-le_found (is_owner_of i) (member_by_id m.id) (change_member dto) m w.members e
          (λ h. absurd (ground arith)),
      r.one_owner i,
    )
  ]
  owners_after w m dto r e (inr kept) i = omega (
    arith,
    count-set_first-le_found (is_owner_of i) (member_by_id m.id) (change_member dto) m w.members e
        (λ h. ground (arith, kept)),
    r.one_owner i,
  )

  writes_row :
      (m : OrganizationMember) (dto : UpdateOrganizationMemberDto)
      → Triple
          (λ w. R w × Target m dto w × Unrivalled m dto w)
          (update_member (computing s) m.id (change_member dto))
          (λ a. R)
          R
  writes_row m dto =
      updates s (λ w. R w × Target m dto w × Unrivalled m dto w) R m.id (change_member dto) m
        (λ w p. p.1.0)
        (λ w (r, (e, here), one).
          member_changed r m.id (change_member dto) m (λ x. refl) (λ x. refl) (λ x. refl) e
            (owners_after w m dto r e one) here)

  reassigns :
      (m : OrganizationMember) (dto : UpdateOrganizationMemberDto)
      → Triple (λ w. R w × Target m dto w) (reassign_role (computing s) m dto) (λ a. R) R
  unfolding reassign_role
  reassigns m dto =
      next (λ w. R w × Target m dto w × Unrivalled m dto w)
        (sometimes _
          (λ wanted.
            conclude (λ a w p. (p.0, p.1, inl p.2))
              (demotes s m.organization_id (Target m dto)
                (λ w c r f e. (still_found r m.organization_id c e m f.0 (ground arith), f.1))))
          (λ other w p. (p.0, p.1, inr (λ owner. kept dto.role m.role other owner))))
        (unless (λ w p. p.0) _ _ (weaken (λ w p. p.0) (writes_row m dto)))
    where
      kept :
          (wanted : Option OrgMemberRole) (role : OrgMemberRole)
          → asks_owner wanted && not (is_owner role) ≡ false
          → is_owner (or_keep wanted role) ≡ true
          → is_owner role ≡ true
      kept none role h owner = owner
      kept (some x) role h owner = ground arith

  pub updates_member :
      (member_id : ℕ) (dto : UpdateOrganizationMemberDto)
      → Triple R (update_organization_member (computing s) member_id dto) (λ a. R) R
  unfolding update_organization_member
  updates_member member_id dto = having (λ found.
      given (λ w p. p.0) _ _
        (λ m.
          weaken (λ w p. (p.0.0, own_id w m p.0.0 (p.0.1 ∙ p.1)))
            (next _
              (asserts_venue s (λ w. R w × (find (member_by_id m.id) w.members ≡ some m))
                (λ w p. p.0) (asked_venue dto.venue_id) m.organization_id)
              (atomically (λ w p. p.0.0)
                (weaken (λ w p. (p.0.0, (p.0.1, placed_as w m dto.venue_id p.0.0 p.0.1 p.1)))
                  (reassigns m dto))))))
    where
      own_id :
          (w : World) (m : OrganizationMember)
          → R w
          → find (member_by_id member_id) w.members ≡ some m
          → find (member_by_id m.id) w.members ≡ some m
      own_id w m r e =
          find-key-of_find (member_by_id member_id) (member_by_id m.id) m (ground arith) w.members
            (r.distinct m.id) e

      placed_as :
          (w : World) (m : OrganizationMember) (asked : Option (Option ℕ))
          → R w
          → find (member_by_id m.id) w.members ≡ some m
          → is_venue_of w.venues m.organization_id (asked_venue asked) ≡ true
          → is_venue_of w.venues m.organization_id (or_keep asked m.venue_id) ≡ true
      placed_as w m none r e h =
          find-all (is_placed w.venues) (member_by_id m.id) m w.members r.placed e
      placed_as w m (some v) r e h = h

  pub removes_member :
      (member_id : ℕ) → Triple R (remove_organization_member (computing s) member_id) (λ a. R) R
  unfolding remove_organization_member
  removes_member member_id = having (λ found.
      given (λ w p. p.0) _ _
        (λ m.
          unless (λ w p. p.0.0) _ _
            (unfold running in
              record { run = λ w p. some_removed p.0.0.0 (member_by_id member_id) })))
