-- ===== src/Roster/NewOrganizations.antt =====
-- The roster's invariant under a new organization.
use aalam_security_back.Common.{
  ℕ, suc, ◌≡◌, refl, ap, true, false, List, [], ◌∷◌, ◌==◌, arith, all, Bool-cases, inl, inr, ==_iff,
}
use aalam_security_back.Schema.{Venue, Organization, OrganizationMember}
use aalam_security_back.Rows.{count}
use aalam_security_back.Organizations.{is_owner_of}
use aalam_security_back.Roster.{is_known, RosterIn}
use aalam_security_back.Roster.Rows.{drawn_again, fresh_rows}

module _ (uuid : ℕ → ℕ) (injective : (a b : ℕ) → uuid a ≡ uuid b → a ≡ b) where
  module _ {n : ℕ} {ms : List OrganizationMember} {vs : List Venue} {os : List Organization}
      (r : RosterIn uuid n ms vs os) where
    all_known_with :
        {Row : Type 0} (of : Row → ℕ) (o : Organization) (t : List Row)
        → all (λ x. is_known os (of x)) t ≡ true
        → all (λ x. is_known (o ∷ os) (of x)) t ≡ true
    all_known_with of o [] h = refl
    all_known_with of o (x ∷ xs) h = ground (arith, all_known_with of o xs)

    pub organization_added :
        (o : Organization) → o.id ≡ uuid n → RosterIn uuid (suc n) ms vs (o ∷ os)
    organization_added o e = record {
      numbered = (drawn_again r).numbered;
      venues_numbered = (drawn_again r).venues_numbered;
      organizations_numbered = ((n, omega arith, e), (drawn_again r).organizations_numbered);
      members_belong =
          all_known_with (λ (m : OrganizationMember). m.organization_id) o ms r.members_belong;
      venues_belong = all_known_with (λ (v : Venue). v.organization_id) o vs r.venues_belong;
      venues_distinct = r.venues_distinct;
      distinct = r.distinct;
      single = r.single;
      one_owner = r.one_owner;
      placed = r.placed;
    }

    unknown :
        (t : List Organization)
        → count (λ (o : Organization). o.id == uuid n) t ≡ 0
        → is_known t (uuid n) ≡ false
    unknown [] h = refl
    unknown (o ∷ t) h = ground (arith, unknown t)

    -- The organization whose identifier is drawn next has no owner yet.
    pub unowned_yet : count (is_owner_of (uuid n)) ms ≡ 0
    unowned_yet = none_owns ms r.members_belong
      where
        none_owns :
            (t : List OrganizationMember)
            → all (λ m. is_known os m.organization_id) t ≡ true
            → count (is_owner_of (uuid n)) t ≡ 0
        none_owns [] h = refl
        none_owns (m ∷ t) h =
            let new = unknown os (
              fresh_rows uuid injective (λ (o : Organization). o.id) n os
                r.organizations_numbered) in
            elim (Bool-cases (m.organization_id == uuid n)) [
              | inl same ↦
                  let one = ap (is_known os) ((==_iff m.organization_id (uuid n)).0 same) in
                  absurd (ground arith)
              | inr apart ↦ ground (arith, none_owns t)
            ]

    -- … and no venue.
    pub no_venue_yet : count (λ (v : Venue). v.organization_id == uuid n) vs ≡ 0
    no_venue_yet = none_there vs r.venues_belong
      where
        none_there :
            (t : List Venue)
            → all (λ v. is_known os v.organization_id) t ≡ true
            → count (λ (v : Venue). v.organization_id == uuid n) t ≡ 0
        none_there [] h = refl
        none_there (v ∷ t) h =
            let new = unknown os (
              fresh_rows uuid injective (λ (o : Organization). o.id) n os
                r.organizations_numbered) in
            elim (Bool-cases (v.organization_id == uuid n)) [
              | inl same ↦
                  let one = ap (is_known os) ((==_iff v.organization_id (uuid n)).0 same) in
                  absurd (ground arith)
              | inr apart ↦ ground (arith, none_there t)
            ]
