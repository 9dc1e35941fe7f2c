-- ===== src/Roster/Removals.antt =====
-- The roster's invariant under the removal of venues and of an organization.
use aalam_security_back.Common.{
  ℕ, ◌≡◌, refl, ◌∙◌, Bool, true, false, Option, none, some, List, [], ◌∷◌, ◌==◌, arith, all,
  Bool-cases, inl, inr,
}
use aalam_security_back.Schema.{Venue, Organization, OrganizationMember}
use aalam_security_back.Rows.{set_first, set_all, drop_all}
use aalam_security_back.Rows.Changes.{
  All-drop_all, all-drop_all, count-drop_all-le, count-set_all-le, find-drop_all_other, All-set_all,
}
use aalam_security_back.Venues.{is_membership_of}
use aalam_security_back.Organizations.{is_owner_of, is_in_organization}
use aalam_security_back.Organizations.Removal.{is_at_any, leave_venue}
use aalam_security_back.Admin.Members.{member_by_id, venue_by_id}
use aalam_security_back.Rows.Counts.{All-set_first}
use aalam_security_back.Roster.Rows.{some_removed}
use aalam_security_back.Roster.{IsNumbered, is_known, is_venue_of, is_placed, RosterIn}

module _ (removed : Venue → Bool) (vs : List Venue) where
  abbrev leavers : OrganizationMember → Bool
  leavers m = is_at_any vs removed m.venue_id

  venue_of_rest :
      (organization_id : ℕ) (venue_id : Option ℕ)
      → is_at_any vs removed venue_id ≡ false
      → is_venue_of vs organization_id venue_id ≡ true
      → is_venue_of (drop_all removed vs) organization_id venue_id ≡ true
  venue_of_rest organization_id none away h = refl
  venue_of_rest organization_id (some v) away h =
      ground (arith, find-drop_all_other (venue_by_id v) removed vs away)

  placed_after :
      (ms : List OrganizationMember)
      → all (is_placed vs) ms ≡ true
      → all (is_placed (drop_all removed vs)) (set_all leavers leave_venue ms) ≡ true
  placed_after [] h = refl
  placed_after (m ∷ ms) h = elim (Bool-cases (is_at_any vs removed m.venue_id)) [
    | inl gone ↦ rw gone (placed_after ms (ground arith))
    | inr stays ↦ rw stays (
        rw (venue_of_rest m.organization_id m.venue_id stays (ground arith))
          (placed_after ms (ground arith)))
  ]

  all_leave :
      (p : OrganizationMember → Bool)
      → ((m : OrganizationMember) → p m ≡ true → p (leave_venue m) ≡ true)
      → (ms : List OrganizationMember) → all p ms ≡ true
      → all p (set_all leavers leave_venue ms) ≡ true
  all_leave p keep [] h = refl
  all_leave p keep (m ∷ ms) h = ground (arith, keep m, all_leave p keep ms)

  pub venues_removed :
      {uuid : ℕ → ℕ} {n : ℕ} {ms : List OrganizationMember} {os : List Organization}
      → RosterIn uuid n ms vs os
      → RosterIn uuid n (set_all leavers leave_venue ms) (drop_all removed vs) os
  venues_removed {uuid} {n} {ms} {os} r = record {
    numbered =
        All-set_all leavers leave_venue (λ m. IsNumbered uuid n m.id) (λ m h. h) ms r.numbered;
    venues_numbered =
        All-drop_all removed removed (λ v. IsNumbered uuid n v.id) vs r.venues_numbered;
    organizations_numbered = r.organizations_numbered;
    members_belong = all_leave (λ m. is_known os m.organization_id) (λ m h. h) ms r.members_belong;
    venues_belong = all-drop_all (λ v. is_known os v.organization_id) removed vs r.venues_belong;
    venues_distinct =
        λ i. omega (arith, count-drop_all-le (venue_by_id i) removed vs, r.venues_distinct i);
    distinct = λ i.
        omega (
          arith,
          count-set_all-le (member_by_id i) leavers leave_venue (λ m h. h) ms,
          r.distinct i,
        );
    single = λ i. omega (
      arith,
      count-set_all-le (is_membership_of i) leavers leave_venue (λ m h. h) ms,
      r.single i,
    );
    one_owner = λ i.
        omega (
          arith,
          count-set_all-le (is_owner_of i) leavers leave_venue (λ m h. h) ms,
          r.one_owner i,
        );
    placed = placed_after ms r.placed;
  }

module _ (id : ℕ) where
  abbrev is_organization : Organization → Bool
  is_organization o = o.id == id

  is_known_rest :
      (i : ℕ) (os : List Organization)
      → (i == id) ≡ false
      → is_known os i ≡ true
      → is_known (drop_all is_organization os) i ≡ true
  is_known_rest i [] ne h = h
  is_known_rest i (o ∷ os) ne h = ground (arith, is_known_rest i os ne)

  all_known_rest :
      {Row : Type 0} (of : Row → ℕ) (os : List Organization) (t : List Row)
      → all (λ x. is_known os (of x)) t ≡ true
      → all (λ x. is_known (drop_all is_organization os) (of x)) (drop_all (λ x. of x == id) t)
        ≡ true
  all_known_rest of os [] h = refl
  all_known_rest of os (x ∷ xs) h = elim (Bool-cases (of x == id)) [
    | inl gone ↦ rw gone (all_known_rest of os xs (ground arith))
    | inr stays ↦
        rw stays (
          rw (is_known_rest (of x) os stays (ground arith))
            (all_known_rest of os xs (ground arith)))
  ]

  -- An organization goes with its members and its venues.
  pub organization_removed :
      {uuid : ℕ → ℕ} {n : ℕ} {ms : List OrganizationMember} {vs : List Venue}
      {os : List Organization}
      → RosterIn uuid n ms vs os
      → let removed = λ (v : Venue). v.organization_id == id in
        RosterIn uuid n
          (drop_all (is_in_organization id) (set_all (leavers removed vs) leave_venue ms))
          (drop_all removed vs)
          (drop_all is_organization os)
  organization_removed {uuid} {n} {ms} {vs} {os} r =
      let removed = λ (v : Venue). v.organization_id == id in
      let left = some_removed (venues_removed removed vs r) (is_in_organization id) in
      record {
        numbered = left.numbered;
        venues_numbered = left.venues_numbered;
        organizations_numbered =
            All-drop_all is_organization is_organization (λ o. IsNumbered uuid n o.id) os
              r.organizations_numbered;
        members_belong =
            all_known_rest (λ (m : OrganizationMember). m.organization_id) os
              (set_all (leavers removed vs) leave_venue ms)
              (venues_removed removed vs r).members_belong;
        venues_belong = all_known_rest (λ (v : Venue). v.organization_id) os vs r.venues_belong;
        venues_distinct = left.venues_distinct;
        distinct = left.distinct;
        single = left.single;
        one_owner = left.one_owner;
        placed = left.placed;
      }

  -- An organization's new columns.
  pub organization_changed :
      {uuid : ℕ → ℕ} {n : ℕ} {ms : List OrganizationMember} {vs : List Venue}
      {os : List Organization} (f : Organization → Organization)
      → ((o : Organization) → (f o).id ≡ o.id)
      → RosterIn uuid n ms vs os
      → RosterIn uuid n ms vs (set_first is_organization f os)
  organization_changed {uuid} {n} {ms} {vs} {os} f same r = record {
    numbered = r.numbered;
    venues_numbered = r.venues_numbered;
    organizations_numbered =
        All-set_first is_organization is_organization f (λ o. IsNumbered uuid n o.id)
          (λ o hit (k, h, e). (k, h, same o ∙ e)) os r.organizations_numbered;
    members_belong =
        all_known_as (λ (m : OrganizationMember). m.organization_id) ms r.members_belong;
    venues_belong = all_known_as (λ (v : Venue). v.organization_id) vs r.venues_belong;
    venues_distinct = r.venues_distinct;
    distinct = r.distinct;
    single = r.single;
    one_owner = r.one_owner;
    placed = r.placed;
  }
    where
      known_as :
          (i : ℕ) (t : List Organization)
          → is_known t i ≡ true
          → is_known (set_first is_organization f t) i ≡ true
      known_as i [] h = h
      known_as i (o ∷ t) h = ground (arith, same o, known_as i t)

      all_known_as :
          {Row : Type 0} (of : Row → ℕ) (t : List Row)
          → all (λ x. is_known os (of x)) t ≡ true
          → all (λ x. is_known (set_first is_organization f os) (of x)) t ≡ true
      all_known_as of [] h = refl
      all_known_as of (x ∷ xs) h = ground (arith, known_as (of x) os, all_known_as of xs)
