-- ===== src/System/Memberships.antt =====
-- The desk's moves under binding by an invite code and the creation of a venue.
use aalam_security_back.Common.{ℕ, Bool, List, Option, none, some}
use aalam_security_back.Schema.{Text, Organization, Venue}
use aalam_security_back.Services.{Services, computing}
use aalam_security_back.World.Keeps.{Keeps, bind, seq, atomic, rules}
use aalam_security_back.System.{Desk, Reached}
use aalam_security_back.System.Effects.{draws}
use aalam_security_back.System.Premises.{generated, inserts_venue}
use aalam_security_back.Venues.{
  Letters, join_as_member, bind_to_venue, bind_with, bind_by_invite_code,
}
use aalam_security_back.Venues.{can_manage_organization_venues}
use aalam_security_back.Venues.Creation.{CreateVenueDto, create_venue}

module _ (s : Services) (start : Desk) where
  joins :
      (user_id organization_id : ℕ) (venue_id : Option ℕ)
      → Keeps (Reached s.uuid start) (join_as_member (computing s) user_id organization_id venue_id)
  unfolding join_as_member
  joins user_id organization_id venue_id =
      atomic (seq (search rules) (bind (draws s start) (λ id. search rules)))

  binds_with :
      (user_id : ℕ) (org : Option Organization) (venue : Option Venue)
      → Keeps (Reached s.uuid start) (bind_with (computing s) user_id org venue)
  unfolding bind_with bind_to_venue
  binds_with user_id (some org) venue = seq (joins user_id org.id none) (search rules)
  binds_with user_id none (some v) =
      seq (joins user_id v.organization_id (some v.id)) (search rules)
  binds_with user_id none none = search rules

  pub binds :
      (l : Letters) (user_id : ℕ) (invite_code : Text)
      → Keeps (Reached s.uuid start) (bind_by_invite_code (computing s) l user_id invite_code)
  unfolding bind_by_invite_code
  binds l user_id invite_code = bind (search rules) (λ current.
      seq (search rules)
        (bind (search rules) (λ org. bind (search rules) (λ venue. binds_with user_id org venue))))

  pub creates_venue :
      (random_bytes : ℕ → List ℕ) (user_id organization_id : ℕ) (dto : CreateVenueDto)
      (is_admin : Bool)
      → Keeps
          (Reached s.uuid start)
          (create_venue (computing s) random_bytes user_id organization_id dto is_admin)
  unfolding create_venue can_manage_organization_venues
  creates_venue random_bytes user_id organization_id dto is_admin = bind (search rules) (λ can.
      seq (search rules) (
        bind (generated s start random_bytes)
          (λ code. inserts_venue s start organization_id dto code)))
