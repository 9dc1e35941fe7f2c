-- ===== src/Emergency/Access.antt =====
-- Who may raise an SOS, by modules/emergency/emergency.service.ts.
use aalam_security_back.Common.{
  ℕ, ◌≡◌, refl, Bool, ◌&&◌, ◌||◌, Option, none, some, List, [], ◌∷◌, arith, ◌==◌, ltb, any,
  Option-cases, if◌then◌else◌, Bool-cases, inl, inr,
}
use aalam_security_back.Schema.{Venue, OrganizationMember, is_owner}
use aalam_security_back.Errors.{ErrorCode, Exception, no_details, forbidden, not_found}
use aalam_security_back.Services.{Services, Documented, computing, services-eq}
use aalam_security_back.Rows.{find, count}
use aalam_security_back.Rows.Counts.{any-eq-is_some-find}
use aalam_security_back.World.{World, raised, running}
use aalam_security_back.Queries.{user_by_id}
use aalam_security_back.Emergency.Placement.{
  is_bound, is_org_wide, is_org_owner, has_active_subscription, has_expired_subscription,
  find_user_org_id, place_at_venue, place_personal, place,
}

abbrev pub owns_any : ℕ → OrganizationMember → Bool
owns_any user_id m = (m.user_id == user_id) && is_owner m.role

-- A person is entitled to a venue: bound to it, a member or manager of its whole organization, or
-- the organization's owner.
abbrev pub is_entitled : ℕ → Venue → List OrganizationMember → Bool
is_entitled user_id v members =
    any (is_bound user_id v.id) members
    || (any (is_org_wide user_id v.organization_id) members
        || any (is_org_owner user_id v.organization_id) members)

abbrev pub venue_refusal : ℕ → Option Venue → List OrganizationMember → Option Exception
venue_refusal user_id none members = some (not_found ErrorCode.venue_not_found no_details)
venue_refusal user_id (some v) members =
    if is_entitled user_id v members
    then none
    else some (forbidden ErrorCode.venue_bind_required no_details)

-- Why an SOS is refused, if it is.
abbrev pub place_refusal : ℕ → Option ℕ → World → Option Exception
place_refusal user_id (some venue_id) w =
    venue_refusal user_id (find (λ (v : Venue). v.id == venue_id) w.venues) w.members
place_refusal user_id none w =
    let subscriber = find (user_by_id user_id) w.users in
    if has_active_subscription w.now subscriber || any (owns_any user_id) w.members
    then none
    else some (
        forbidden
          (if has_expired_subscription subscriber
            then ErrorCode.subscription_expired
            else ErrorCode.subscription_required)
          no_details)

ltb-count :
    (p : OrganizationMember → Bool) (t : List OrganizationMember) → ltb 0 (count p t) ≡ any p t
ltb-count p [] = refl
ltb-count p (r ∷ rs) = ground (arith, ltb-count p rs)

personal_computing :
    (s : Services) (user_id : ℕ) (w : World)
    → raised (place (computing s) user_id none w) ≡ place_refusal user_id none w
unfolding place place_personal find_user_org_id running
personal_computing s user_id w =
    rw (ltb-count (owns_any user_id) w.members)
      (elim (Bool-cases (has_active_subscription w.now (find (user_by_id user_id) w.users))) [
        | inl active ↦ rw active refl
        | inr lapsed ↦ elim (Bool-cases (any (owns_any user_id) w.members)) [
          | inl owner ↦ rw (lapsed, owner) refl
          | inr other ↦ rw (lapsed, other) refl
        ]
      ])

venue_computing :
    (s : Services) (user_id : ℕ) (v : Venue) (w : World)
    → raised (place_at_venue (computing s) user_id v w) ≡ venue_refusal user_id (some v) w.members
unfolding place_at_venue running
venue_computing s user_id v w = ground (
  arith,
  any-eq-is_some-find (is_bound user_id v.id) w.members,
  any-eq-is_some-find (is_org_wide user_id v.organization_id) w.members,
  any-eq-is_some-find (is_org_owner user_id v.organization_id) w.members,
)

at_venue_computing :
    (s : Services) (user_id venue_id : ℕ) (w : World)
    → raised (place (computing s) user_id (some venue_id) w)
      ≡ place_refusal user_id (some venue_id) w
unfolding place running
at_venue_computing s user_id venue_id w =
    elim (Option-cases (find (λ (v : Venue). v.id == venue_id) w.venues)) [
      | inl missing ↦ rw missing refl
      | inr (v, e) ↦ rw e (venue_computing s user_id v w)
    ]

pub either_computing :
    (s : Services) (user_id : ℕ) (venue_id : Option ℕ) (w : World)
    → raised (place (computing s) user_id venue_id w) ≡ place_refusal user_id venue_id w
either_computing s user_id none w = personal_computing s user_id w
either_computing s user_id (some v) w = at_venue_computing s user_id v w

-- An SOS at a venue is accepted exactly from those who are bound to the venue, belong to the whole of
-- its organization as member or manager, or own it; an SOS without a venue exactly from subscribers
-- whose subscription runs and from owners of some organization. Each refusal has its code: unknown
-- venue, binding required, subscription expired, subscription required.
pub place-raised :
    (s : Services) (d : Documented s) (user_id : ℕ) (venue_id : Option ℕ) (w : World)
    → raised (place s user_id venue_id w) ≡ place_refusal user_id venue_id w
place-raised s d = rw (services-eq d) (either_computing s)
