-- ===== src/Venues/Joining.antt =====
-- What a binding by an invite code leaves: one membership, and the SOS of its venue.
use aalam_security_back.Common.{
  ℕ, ◌≡◌, ◌≢◌, refl, true, false, Option, none, some, List, [], ◌∷◌, ◌==◌, arith, Bool-cases,
  Option-cases, inl, inr, if◌then◌else◌,
}
use aalam_security_back.Schema.{Text, Organization, Venue, OrganizationMember, OrgMemberRole}
use aalam_security_back.Errors.{Exception, status_404, status_409, http_exception}
use aalam_security_back.Services.{Services, Documented, computing, services-eq}
use aalam_security_back.Rows.{find, count, drop_all}
use aalam_security_back.World.{World, after, raised, result, running}
use aalam_security_back.Emergency.Placement.{place, place_at_venue, at_venue, is_bound}
use aalam_security_back.Venues.{
  Letters, normal_code, is_membership_of, owns_organization, organization_has_code, venue_has_code,
  new_member, bind_by_invite_code, bind_with, bind_to_venue, join_as_member,
}

some-ne-none : {x : Exception} → some x ≢ none
some-ne-none e = absurd (ground arith)

count-drop_all_self :
    (i : ℕ) (t : List OrganizationMember)
    → count (is_membership_of i) (drop_all (is_membership_of i) t) ≡ 0
count-drop_all_self i [] = refl
count-drop_all_self i (m ∷ ms) = ground (arith, count-drop_all_self i ms)

find-drop_all_other :
    (i j : ℕ) (t : List OrganizationMember)
    → (i == j) ≡ false
    → find (is_membership_of j) (drop_all (is_membership_of i) t) ≡ find (is_membership_of j) t
find-drop_all_other i j [] ne = refl
find-drop_all_other i j (m ∷ ms) ne = ground (arith, find-drop_all_other i j ms ne)

-- The organization and the venue that a code opens.
abbrev pub organization_of : Letters → Text → World → Option Organization
organization_of l invite_code w =
    find (organization_has_code l (normal_code l invite_code)) w.organizations

abbrev pub venue_of : Letters → Text → World → Option Venue
venue_of l invite_code w = find (venue_has_code l (normal_code l invite_code)) w.venues

abbrev pub unknown_code : Option Organization → Option Venue → Option Exception
unknown_code none none = some (http_exception status_404)
unknown_code _ _ = none

abbrev pub bind_refusal : Letters → ℕ → Text → World → Option Exception
bind_refusal l user_id invite_code w =
    if owns_organization (find (is_membership_of user_id) w.members)
    then some (http_exception status_409)
    else unknown_code (organization_of l invite_code w) (venue_of l invite_code w)

refusal_computing :
    (s : Services) (l : Letters) (user_id : ℕ) (invite_code : Text) (w : World)
    → raised (bind_by_invite_code (computing s) l user_id invite_code w)
      ≡ bind_refusal l user_id invite_code w
unfolding bind_by_invite_code bind_with bind_to_venue join_as_member running
refusal_computing s l user_id invite_code w =
    elim (Bool-cases (owns_organization (find (is_membership_of user_id) w.members))) [
      | inl owner ↦ rw owner refl
      | inr other ↦ elim (Option-cases (organization_of l invite_code w)) [
        | inr (o, e) ↦ rw (other, e) refl
        | inl no_org ↦ elim (Option-cases (venue_of l invite_code w)) [
          | inl no_venue ↦ rw (other, no_org, no_venue) refl
          | inr (v, e) ↦ rw (other, no_org, e) refl
        ]
      ]
    ]

-- An invite code is refused exactly to the owner of an organization, with 409, and, to everybody
-- else, when neither an organization nor a venue has it, with 404.
pub bind_by_invite_code-raised :
    (s : Services) (d : Documented s) (l : Letters) (user_id : ℕ) (invite_code : Text) (w : World)
    → raised (bind_by_invite_code s l user_id invite_code w) ≡ bind_refusal l user_id invite_code w
bind_by_invite_code-raised s d = rw (services-eq d) (refusal_computing s)

-- A user's only membership, with the others' memberships as they were.
pub record JoinedIn (user_id organization_id : ℕ) (venue_id : Option ℕ)
    (before now : List OrganizationMember) : Type 0 where
  pub membership : OrganizationMember
  pub found : find (is_membership_of user_id) now ≡ some membership
  pub inside : membership.organization_id ≡ organization_id
  pub at_the_venue : membership.venue_id ≡ venue_id
  pub as_member : membership.role ≡ OrgMemberRole.member
  pub only_one : count (is_membership_of user_id) now ≡ 1
  pub others :
      (j : ℕ)
      → (user_id == j) ≡ false
      → find (is_membership_of j) now ≡ find (is_membership_of j) before

-- Where a code leads: an organization's code comes first.
abbrev pub destination : Option Organization → Option Venue → Option (ℕ × Option ℕ)
destination (some o) v = some (o.id, none)
destination none (some v) = some (v.organization_id, some v.id)
destination none none = none

eq_refl : (i : ℕ) → (i == i) ≡ true
eq_refl i = ground arith

rejoined :
    (id user_id organization_id now : ℕ) (venue_id : Option ℕ) (t : List OrganizationMember)
    → JoinedIn user_id organization_id venue_id t (
        new_member id user_id organization_id OrgMemberRole.member venue_id now
        ∷ drop_all (is_membership_of user_id) t)
rejoined id user_id organization_id now venue_id t = record {
  membership = new_member id user_id organization_id OrgMemberRole.member venue_id now;
  found = rw (eq_refl user_id) refl;
  inside = refl;
  at_the_venue = refl;
  as_member = refl;
  only_one = rw (eq_refl user_id) (rw (count-drop_all_self user_id t) refl);
  others = λ j ne. rw ne (find-drop_all_other user_id j t ne);
}

abbrev pub Arrives : ℕ → World → World → ℕ × Option ℕ → Type 0
Arrives user_id before now at = JoinedIn user_id at.0 at.1 before.members now.members

arrives :
    (s : Services) (l : Letters) (user_id : ℕ) (invite_code : Text) (w : World)
    → raised (bind_by_invite_code (computing s) l user_id invite_code w) ≡ none
    → (at : ℕ × Option ℕ) × (destination
          (organization_of l invite_code w)
          (venue_of l invite_code w)
        ≡ some at)
      × Arrives user_id w (after (bind_by_invite_code (computing s) l user_id invite_code w)) at
unfolding bind_by_invite_code bind_with bind_to_venue join_as_member running
arrives s l user_id invite_code w h =
    elim (Bool-cases (owns_organization (find (is_membership_of user_id) w.members))) [
      | inl owner ↦ absurd (some-ne-none (rw owner at h))
      | inr other ↦ elim (Option-cases (organization_of l invite_code w)) [
        | inr (o, e) ↦
            ((o.id, none), rw e refl, rw (other, e) (rejoined _ user_id o.id _ none w.members))
        | inl no_org ↦ elim (Option-cases (venue_of l invite_code w)) [
          | inl no_venue ↦ absurd (some-ne-none (rw (other, no_org, no_venue) at h))
          | inr (v, e) ↦ (
            (v.organization_id, some v.id),
            rw (no_org, e) refl,
            rw (other, no_org, e) (rejoined _ user_id v.organization_id _ (some v.id) w.members),
          )
        ]
      ]
    ]

-- After a binding that succeeds the user has exactly one membership, as a member of the organization
-- and of the venue that the code leads to, an organization's code before a venue's; the memberships of
-- all others are as they were.
pub bind_by_invite_code-JoinedIn :
    (s : Services) (d : Documented s) (l : Letters) (user_id : ℕ) (invite_code : Text) (w : World)
    → raised (bind_by_invite_code s l user_id invite_code w) ≡ none
    → (at : ℕ × Option ℕ) × (destination
          (organization_of l invite_code w)
          (venue_of l invite_code w)
        ≡ some at)
      × Arrives user_id w (after (bind_by_invite_code s l user_id invite_code w)) at
bind_by_invite_code-JoinedIn s d = rw (services-eq d) (arrives s)

place_bound :
    (s : Services) (user_id : ℕ) (v : Venue) (m : OrganizationMember) (w : World)
    → find (is_bound user_id v.id) w.members ≡ some m
    → result (place_at_venue (computing s) user_id v w)
      ≡ some (at_venue m.organization_id m.venue_id)
unfolding place_at_venue running
place_bound s user_id v m w e = ground arith

bound_first :
    (id user_id now : ℕ) (v : Venue) (t : List OrganizationMember)
    → let m = new_member id user_id v.organization_id OrgMemberRole.member (some v.id) now in
      find (is_bound user_id v.id) (m ∷ t) ≡ some m
bound_first id user_id now v t = rw (eq_refl user_id, eq_refl v.id) refl

placed :
    (s : Services) (l : Letters) (user_id : ℕ) (invite_code : Text) (v : Venue) (w : World)
    → organization_of l invite_code w ≡ none
    → venue_of l invite_code w ≡ some v
    → find (λ (x : Venue). x.id == v.id) w.venues ≡ some v
    → raised (bind_by_invite_code (computing s) l user_id invite_code w) ≡ none
    → result (
        place
          (computing s)
          user_id
          (some v.id)
          (after (bind_by_invite_code (computing s) l user_id invite_code w)))
      ≡ some (at_venue v.organization_id (some v.id))
unfolding bind_by_invite_code bind_with bind_to_venue join_as_member place running
placed s l user_id invite_code v w no_org e key h =
    elim (Bool-cases (owns_organization (find (is_membership_of user_id) w.members))) [
      | inl owner ↦ absurd (some-ne-none (rw owner at h))
      | inr other ↦
          rw (other, no_org, e)
            (rw key (
              place_bound s user_id v
                (new_member (s.uuid w.drawn) user_id v.organization_id OrgMemberRole.member
                  (some v.id) w.now)
                (after (bind_to_venue (computing s) user_id v w))
                (bound_first (s.uuid w.drawn) user_id w.now v
                  (drop_all (is_membership_of user_id) w.members))))
    ]

-- After a binding by a venue's code the user may raise an SOS there at once, and it is placed at that
-- venue and its organization. The code is no organization's, and the table's primary key names one
-- venue.
pub bind-place :
    (s : Services) (d : Documented s) (l : Letters) (user_id : ℕ) (invite_code : Text) (v : Venue)
    (w : World)
    → organization_of l invite_code w ≡ none
    → venue_of l invite_code w ≡ some v
    → find (λ (x : Venue). x.id == v.id) w.venues ≡ some v
    → raised (bind_by_invite_code s l user_id invite_code w) ≡ none
    → result (place s user_id (some v.id) (after (bind_by_invite_code s l user_id invite_code w)))
      ≡ some (at_venue v.organization_id (some v.id))
bind-place s d = rw (services-eq d) (placed s)
