-- ===== src/Roster/Roles.antt =====
-- The roster's invariant under a change of a member's role, and what goes with a venue or an
-- organization.
use aalam_security_back.Common.{
  ℕ, ◌≤◌, ◌≡◌, refl, sym, ap, ◌∙◌, true, false, some, List, [], ◌∷◌, ◌==◌, arith, all, Bool-cases,
  inl, inr, ==_iff,
}
use aalam_security_back.Schema.{Venue, Organization, OrganizationMember, is_owner}
use aalam_security_back.Rows.{find, count, set_first}
use aalam_security_back.Rows.Counts.{count-set_first_same, All-set_first, find_accepts}
use aalam_security_back.Rows.Changes.{
  count-set_first-le_found, count-set_first-zero, find-set_first_other, find-key-of_find,
  all-set_first, find-all,
}
use aalam_security_back.Venues.{is_membership_of}
use aalam_security_back.Organizations.{is_owner_of}
use aalam_security_back.Admin.Members.{member_by_id, demote}
use aalam_security_back.Roster.{IsNumbered, is_known, is_placed, RosterIn}

module _ {uuid : ℕ → ℕ} {n : ℕ} {ms : List OrganizationMember} {vs : List Venue}
    {os : List Organization} (r : RosterIn uuid n ms vs os) where
  -- An update by the primary key that keeps who the member is, and where.
  pub member_changed :
      (id : ℕ) (f : OrganizationMember → OrganizationMember) (m : OrganizationMember)
      → ((x : OrganizationMember) → (f x).id ≡ x.id)
      → ((x : OrganizationMember) → (f x).user_id ≡ x.user_id)
      → ((x : OrganizationMember) → (f x).organization_id ≡ x.organization_id)
      → find (member_by_id id) ms ≡ some m
      → ((o : ℕ) → count (is_owner_of o) (set_first (member_by_id id) f ms) ≤ 1)
      → is_placed vs (f m) ≡ true
      → RosterIn uuid n (set_first (member_by_id id) f ms) vs os
  member_changed id f m same_id same_user same_org found owners here = record {
    numbered =
        All-set_first (member_by_id id) (member_by_id id) f (λ x. IsNumbered uuid n x.id)
          (λ x hit (k, h, e). (k, h, same_id x ∙ e)) ms r.numbered;
    venues_numbered = r.venues_numbered;
    organizations_numbered = r.organizations_numbered;
    members_belong = all_known_same ms r.members_belong;
    venues_belong = r.venues_belong;
    venues_distinct = r.venues_distinct;
    distinct = λ i.
        rw
          (count-set_first_same (member_by_id i) (member_by_id id) f
            (λ x. ap (λ (y : ℕ). y == i) (same_id x)) ms)
          (r.distinct i);
    single = λ i.
        rw
          (count-set_first_same (is_membership_of i) (member_by_id id) f
            (λ x. ap (λ (y : ℕ). y == i) (same_user x)) ms)
          (r.single i);
    one_owner = owners;
    placed = all-set_first (is_placed vs) (member_by_id id) f m here ms found r.placed;
  }
    where
      all_known_same :
          (t : List OrganizationMember)
          → all (λ x. is_known os x.organization_id) t ≡ true
          → all (λ x. is_known os x.organization_id) (set_first (member_by_id id) f t) ≡ true
      all_known_same [] h = refl
      all_known_same (x ∷ xs) h =
          let same = ap (is_known os) (same_org x) in ground (arith, same, all_known_same xs)

  module _ (o : ℕ) (c : OrganizationMember) (found : find (is_owner_of o) ms ≡ some c) where
    pub found_by_id : find (member_by_id c.id) ms ≡ some c
    found_by_id =
        find-key-of_find (is_owner_of o) (member_by_id c.id) c (ground arith) ms (r.distinct c.id)
          found

    -- The owner of an organization steps down.
    pub owner_demoted : RosterIn uuid n (set_first (member_by_id c.id) demote ms) vs os
    owner_demoted =
        member_changed c.id demote c (λ x. refl) (λ x. refl) (λ x. refl) found_by_id
          (λ i. omega (
            arith,
            count-set_first-le_found (is_owner_of i) (member_by_id c.id) demote c ms found_by_id
                (λ h. ground arith),
            r.one_owner i,
          ))
          (find-all (is_placed vs) (is_owner_of o) c ms r.placed found)

    pub no_owner_left : count (is_owner_of o) (set_first (member_by_id c.id) demote ms) ≡ 0
    no_owner_left =
        count-set_first-zero (is_owner_of o) (member_by_id c.id) demote c (ground arith)
          (ground arith) ms (r.one_owner o) (r.distinct c.id) found

    -- Another member is found as before.
    pub still_found :
        (m : OrganizationMember)
        → find (member_by_id m.id) ms ≡ some m
        → is_owner m.role ≡ false
        → find (member_by_id m.id) (set_first (member_by_id c.id) demote ms) ≡ some m
    still_found m e member = elim (Bool-cases (c.id == m.id)) [
      | inl same ↦
          let owner = find_accepts (is_owner_of o) ms c found in
          let one = (==_iff c.id m.id).0 same in
          let both = sym found_by_id ∙ (ap (λ i. find (member_by_id i) ms) one ∙ e) in
          absurd (ground arith)
      | inr apart ↦
          find-set_first_other (member_by_id c.id) (member_by_id m.id) demote
            (λ x hit. ground arith) (λ x. refl) ms
          ∙ e
    ]
