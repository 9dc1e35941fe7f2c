-- ===== src/Emergency/Placement.antt =====
-- modules/emergency/emergency.service.ts: where an SOS belongs, and who may raise it.
use aalam_security_back.Common.{
  ℕ, Bool, true, false, Option, none, some, if◌then◌else◌, ◌==◌, holds, is_some, ◌&&◌, not, ltb,
}
use aalam_security_back.Schema.{
  User, Venue, OrganizationMember, OrgMemberRole, member, manager, EmergencyType, is_owner,
}
use aalam_security_back.Errors.{ErrorCode, no_details, forbidden, not_found}
use aalam_security_back.Services.{Services}
use aalam_security_back.World.{M, ◌>>=◌, ◌>>◌, pure, throw, read, require, when}

pub record Place : Type 0 where
  pub organization_id : Option ℕ
  pub venue_id : Option ℕ
  pub emergency_type : EmergencyType

abbrev pub at_venue : ℕ → Option ℕ → Place
at_venue organization_id venue_id = record {
  organization_id = some organization_id;
  venue_id = venue_id;
  emergency_type = EmergencyType.venue;
}

-- `{ in: [MEMBER, MANAGER] }`
abbrev pub is_member_or_manager : OrgMemberRole → Bool
is_member_or_manager member = true
is_member_or_manager manager = true
is_member_or_manager _ = false

-- `organizationMember.findFirst({ where: { userId, venueId } })`
abbrev pub is_bound : ℕ → ℕ → OrganizationMember → Bool
is_bound user_id venue_id m = (m.user_id == user_id) && holds m.venue_id venue_id

abbrev pub is_org_wide : ℕ → ℕ → OrganizationMember → Bool
is_org_wide user_id organization_id m =
    (m.user_id == user_id)
    && ((m.organization_id == organization_id)
        && (not (is_some m.venue_id) && is_member_or_manager m.role))

abbrev pub is_org_owner : ℕ → ℕ → OrganizationMember → Bool
is_org_owner user_id organization_id m =
    (m.user_id == user_id) && ((m.organization_id == organization_id) && is_owner m.role)

-- `subscriptionExpiresAt === null || subscriptionExpiresAt > now`
abbrev pub is_running : ℕ → Option ℕ → Bool
is_running now none = true
is_running now (some at) = ltb now at

abbrev pub has_active_subscription : ℕ → Option User → Bool
has_active_subscription now none = false
has_active_subscription now (some u) =
    u.individual_subscription_active && is_running now u.subscription_expires_at

abbrev pub has_expired_subscription : Option User → Bool
has_expired_subscription none = false
has_expired_subscription (some u) =
    u.individual_subscription_active && is_some u.subscription_expires_at

module _ (s : Services) where
  unfoldable pub find_user_org_id : ℕ → M (Option ℕ)
  find_user_org_id user_id w =
      pure
        (elim (s.find_first (λ (m : OrganizationMember). m.user_id == user_id) w.members) [
          | none ↦ none
          | some m ↦ some m.organization_id
        ])
        w

  -- Bound to the venue; else a member or manager of its whole organization; else its owner.
  unfoldable pub place_at_venue : ℕ → Venue → M Place
  place_at_venue user_id venue w = elim (s.find_first (is_bound user_id venue.id) w.members) [
    | some m ↦ pure (at_venue m.organization_id m.venue_id) w
    | none ↦ elim (s.find_first (is_org_wide user_id venue.organization_id) w.members) [
      | some _ ↦ pure (at_venue venue.organization_id (some venue.id)) w
      | none ↦ elim (s.find_first (is_org_owner user_id venue.organization_id) w.members) [
        | some _ ↦ pure (at_venue venue.organization_id (some venue.id)) w
        | none ↦ throw (forbidden ErrorCode.venue_bind_required no_details) w
      ]
    ]
  ]

  unfoldable pub place_personal : ℕ → M Place
  unfolding find_user_org_id
  place_personal user_id = do
    subscriber ← read (λ w. s.find_first (λ (u : User). u.id == user_id) w.users)
    active ← read (λ w. has_active_subscription w.now subscriber)
    owned ← read (λ w.
        s.count_rows (λ (m : OrganizationMember). (m.user_id == user_id) && is_owner m.role)
          w.members)
    when (not active && not (ltb 0 owned)) (
        throw (
          forbidden
            (if has_expired_subscription subscriber
              then ErrorCode.subscription_expired
              else ErrorCode.subscription_required)
            no_details))
    organization_id ← find_user_org_id user_id
    pure (record {
      organization_id = organization_id;
      venue_id = none;
      emergency_type = EmergencyType.personal;
    })

  unfoldable pub place : ℕ → Option ℕ → M Place
  unfolding place_at_venue place_personal
  place user_id none = place_personal user_id
  place user_id (some venue_id) = do
    found ← read (λ w. s.find_first (λ (v : Venue). v.id == venue_id) w.venues)
    venue ← require found (not_found ErrorCode.venue_not_found no_details)
    place_at_venue user_id venue
