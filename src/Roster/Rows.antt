-- ===== src/Roster/Rows.antt =====
-- The roster's invariant under changes of the members' and venues' rows.
use aalam_security_back.Common.{
  ℕ, suc, ◌≡◌, ◌≢◌, refl, ap, ◌∙◌, Bool, true, false, Option, none, some, List, [], ◌∷◌, ◌==◌,
  arith, all, All, Bool-cases, Option-cases, inl, inr, ==_iff,
}
use aalam_security_back.Schema.{Venue, Organization, OrganizationMember, is_owner}
use aalam_security_back.Rows.{find, count, set_first, drop_all}
use aalam_security_back.Rows.Counts.{count-set_first_same, All-set_first, find_accepts}
use aalam_security_back.Rows.Changes.{
  count-drop_all-le, all-drop_all, All-drop_all, count-pos-of_find,
}
use aalam_security_back.Venues.{is_membership_of}
use aalam_security_back.Organizations.{is_owner_of}
use aalam_security_back.Admin.Members.{member_by_id, venue_by_id}
use aalam_security_back.Roster.{IsNumbered, is_known, is_venue_of, is_placed, RosterIn}

All-mono {ℓ κ μ} :
    {A : Type ℓ} {P : A → Type κ} {Q : A → Type μ}
    → ((a : A) → P a → Q a)
    → (xs : List A) → All P xs
    → All Q xs
All-mono h [] a = tt
All-mono h (x ∷ xs) a = (h x a.0, All-mono h xs a.1)

module _ {uuid : ℕ → ℕ} {n : ℕ} {ms : List OrganizationMember} {vs : List Venue}
    {os : List Organization} (r : RosterIn uuid n ms vs os) where
  pub drawn_again : RosterIn uuid (suc n) ms vs os
  drawn_again = record {
    numbered = All-mono (λ m (k, h, e). (k, omega arith, e)) ms r.numbered;
    venues_numbered = All-mono (λ v (k, h, e). (k, omega arith, e)) vs r.venues_numbered;
    distinct = r.distinct;
    organizations_numbered =
        All-mono (λ o (k, h, e). (k, omega arith, e)) os r.organizations_numbered;
    members_belong = r.members_belong;
    venues_belong = r.venues_belong;
    venues_distinct = r.venues_distinct;
    single = r.single;
    one_owner = r.one_owner;
    placed = r.placed;
  }

  pub some_removed : (q : OrganizationMember → Bool) → RosterIn uuid n (drop_all q ms) vs os
  some_removed q = record {
    numbered = All-drop_all q q (λ m. IsNumbered uuid n m.id) ms r.numbered;
    venues_numbered = r.venues_numbered;
    organizations_numbered = r.organizations_numbered;
    members_belong = all-drop_all (λ m. is_known os m.organization_id) q ms r.members_belong;
    venues_belong = r.venues_belong;
    venues_distinct = r.venues_distinct;
    distinct = λ i. omega (arith, count-drop_all-le (member_by_id i) q ms, r.distinct i);
    single = λ i. omega (arith, count-drop_all-le (is_membership_of i) q ms, r.single i);
    one_owner = λ i. omega (arith, count-drop_all-le (is_owner_of i) q ms, r.one_owner i);
    placed = all-drop_all (is_placed vs) q ms r.placed;
  }

module _ (uuid : ℕ → ℕ) (injective : (a b : ℕ) → uuid a ≡ uuid b → a ≡ b) where
  -- No row has the identifier that is drawn next.
  pub fresh_rows :
      {Row : Type 0} (id_of : Row → ℕ) (n : ℕ) (t : List Row)
      → All (λ x. IsNumbered uuid n (id_of x)) t
      → count (λ x. id_of x == uuid n) t ≡ 0
  fresh_rows id_of n [] a = refl
  fresh_rows id_of n (x ∷ xs) a =
      let (k, lt, e) = a.0 in
      let ne : uuid k ≢ uuid n = λ same. absurd (omega (arith, injective k n same)) in
      ground (arith, ne, fresh_rows id_of n xs)

  fresh_venue :
      (n venue_id : ℕ) (vs : List Venue) (v : Venue)
      → count (venue_by_id (uuid n)) vs ≡ 0
      → find (venue_by_id venue_id) vs ≡ some v
      → (uuid n == venue_id) ≡ false
  fresh_venue n venue_id vs v h e = elim (Bool-cases (uuid n == venue_id)) [
    | inl same ↦
        let one = (==_iff (uuid n) venue_id).0 same in
        let there =
          count-pos-of_find (venue_by_id venue_id) (venue_by_id venue_id) v vs e
            (find_accepts (venue_by_id venue_id) vs v e) in
        absurd (omega (arith, h, there, ap (λ i. count (venue_by_id i) vs) one))
    | inr apart ↦ apart
  ]

  module _ {n : ℕ} {ms : List OrganizationMember} {vs : List Venue} {os : List Organization}
      (r : RosterIn uuid n ms vs os) where
    -- A new membership of a person who has none.
    pub member_added :
        (m : OrganizationMember)
        → m.id ≡ uuid n
        → count (is_membership_of m.user_id) ms ≡ 0
        → (is_owner m.role ≡ true → count (is_owner_of m.organization_id) ms ≡ 0)
        → is_placed vs m ≡ true
        → is_known os m.organization_id ≡ true
        → RosterIn uuid (suc n) (m ∷ ms) vs os
    member_added m fresh none_yet unowned here known = record {
      numbered = ((n, omega arith, fresh), (drawn_again r).numbered);
      venues_numbered = (drawn_again r).venues_numbered;
      organizations_numbered = (drawn_again r).organizations_numbered;
      members_belong = ground (arith, r.members_belong);
      venues_belong = r.venues_belong;
      venues_distinct = r.venues_distinct;
      distinct = λ i.
          ground
            (arith, r.distinct i, fresh_rows (λ (x : OrganizationMember). x.id) n ms r.numbered);
      single = λ i. ground (arith, r.single i, none_yet);
      one_owner = λ i. ground (arith, r.one_owner i, unowned);
      placed = ground (arith, r.placed);
    }

    placed_with :
        (v : Venue)
        → v.id ≡ uuid n
        → (organization_id : ℕ) (venue_id : Option ℕ)
        → is_venue_of vs organization_id venue_id ≡ true
        → is_venue_of (v ∷ vs) organization_id venue_id ≡ true
    placed_with v e organization_id none h = refl
    placed_with v e organization_id (some venue_id) h =
        elim (Option-cases (find (venue_by_id venue_id) vs)) [
          | inl missing ↦ absurd (ground arith)
          | inr (x, found) ↦
              let apart =
                fresh_venue n venue_id vs x
                  (fresh_rows (λ (y : Venue). y.id) n vs r.venues_numbered) found in
              ground arith
        ]

    all_placed_with :
        (v : Venue)
        → v.id ≡ uuid n
        → (t : List OrganizationMember) → all (is_placed vs) t ≡ true
        → all (is_placed (v ∷ vs)) t ≡ true
    all_placed_with v e [] h = refl
    all_placed_with v e (m ∷ t) h =
        ground (arith, placed_with v e m.organization_id m.venue_id, all_placed_with v e t)

    pub venue_added :
        (v : Venue)
        → v.id ≡ uuid n
        → is_known os v.organization_id ≡ true
        → RosterIn uuid (suc n) ms (v ∷ vs) os
    venue_added v e known = record {
      numbered = (drawn_again r).numbered;
      venues_numbered = ((n, omega arith, e), (drawn_again r).venues_numbered);
      organizations_numbered = (drawn_again r).organizations_numbered;
      members_belong = r.members_belong;
      venues_belong = ground (arith, r.venues_belong);
      venues_distinct = λ i.
          ground
            (arith, r.venues_distinct i, fresh_rows (λ (y : Venue). y.id) n vs r.venues_numbered);
      distinct = r.distinct;
      single = r.single;
      one_owner = r.one_owner;
      placed = all_placed_with v e ms r.placed;
    }

    -- A venue's new columns.
    pub venue_changed :
        (id : ℕ) (f : Venue → Venue)
        → ((x : Venue) → (f x).id ≡ x.id)
        → ((x : Venue) → (f x).organization_id ≡ x.organization_id)
        → RosterIn uuid n ms (set_first (venue_by_id id) f vs) os
    venue_changed id f same_id same_org = record {
      numbered = r.numbered;
      venues_numbered =
          All-set_first (venue_by_id id) (venue_by_id id) f (λ x. IsNumbered uuid n x.id)
            (λ x hit (k, h, e). (k, h, same_id x ∙ e)) vs r.venues_numbered;
      organizations_numbered = r.organizations_numbered;
      members_belong = r.members_belong;
      venues_belong = all_known_same vs r.venues_belong;
      venues_distinct = λ i.
          rw
            (count-set_first_same (venue_by_id i) (venue_by_id id) f
              (λ x. ap (λ (y : ℕ). y == i) (same_id x)) vs)
            (r.venues_distinct i);
      distinct = r.distinct;
      single = r.single;
      one_owner = r.one_owner;
      placed = all_placed_same ms r.placed;
    }
      where
        venue_same :
            (organization_id i : ℕ) (t : List Venue)
            → is_venue_of t organization_id (some i) ≡ true
            → is_venue_of (set_first (venue_by_id id) f t) organization_id (some i) ≡ true
        venue_same organization_id i [] h = h
        venue_same organization_id i (x ∷ xs) h =
            ground (arith, same_id x, same_org x, venue_same organization_id i xs)

        all_known_same :
            (t : List Venue)
            → all (λ v. is_known os v.organization_id) t ≡ true
            → all (λ v. is_known os v.organization_id) (set_first (venue_by_id id) f t) ≡ true
        all_known_same [] h = refl
        all_known_same (x ∷ xs) h =
            let same = ap (is_known os) (same_org x) in ground (arith, same, all_known_same xs)

        any_venue_same :
            (organization_id : ℕ) (venue_id : Option ℕ)
            → is_venue_of vs organization_id venue_id ≡ true
            → is_venue_of (set_first (venue_by_id id) f vs) organization_id venue_id ≡ true
        any_venue_same organization_id none h = refl
        any_venue_same organization_id (some i) h = venue_same organization_id i vs h

        all_placed_same :
            (t : List OrganizationMember)
            → all (is_placed vs) t ≡ true
            → all (is_placed (set_first (venue_by_id id) f vs)) t ≡ true
        all_placed_same [] h = refl
        all_placed_same (m ∷ t) h =
            ground (arith, any_venue_same m.organization_id m.venue_id, all_placed_same t)
