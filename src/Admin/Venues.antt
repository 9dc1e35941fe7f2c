-- ===== src/Admin/Venues.antt =====
-- modules/admin/admin.service.ts: the venues.
use aalam_security_back.Common.{ℕ, Option, none, some, List}
use aalam_security_back.Schema.{Text, Venue}
use aalam_security_back.Errors.{Exception, status_404, http_exception}
use aalam_security_back.Services.{Services}
use aalam_security_back.World.{M, ◌>>=◌, read, modify, require, ok, thrown}
use aalam_security_back.Venues.InviteCodes.{generate_unique_invite_code}
use aalam_security_back.Venues.Creation.{CreateVenueDto, insert_venue}
use aalam_security_back.Organizations.{organization_by_id}
use aalam_security_back.Organizations.Removal.{remove_venues}
use aalam_security_back.Admin.Operators.{or_keep}
use aalam_security_back.Admin.Members.{venue_by_id}

-- `PartialType(CreateVenueDto)`: an absent field is `none`, and all but the name may be set to null.
pub record UpdateVenueDto : Type 0 where
  pub name : Option Text
  pub address : Option (Option Text)
  pub apartment : Option (Option Text)
  pub floor : Option (Option Text)
  pub entrance : Option (Option Text)
  pub door_code : Option (Option Text)
  pub address_notes : Option (Option Text)
  pub latitude : Option (Option ℕ)
  pub longitude : Option (Option ℕ)

abbrev pub change_venue : UpdateVenueDto → Venue → Venue
change_venue dto v = record v {
  name = or_keep dto.name v.name;
  address = or_keep dto.address v.address;
  apartment = or_keep dto.apartment v.apartment;
  floor = or_keep dto.floor v.floor;
  entrance = or_keep dto.entrance v.entrance;
  door_code = or_keep dto.door_code v.door_code;
  address_notes = or_keep dto.address_notes v.address_notes;
  latitude = or_keep dto.latitude v.latitude;
  longitude = or_keep dto.longitude v.longitude;
}

module _ (s : Services) where
  -- `createVenue`
  unfoldable pub create_venue_as_admin : (ℕ → List ℕ) → ℕ → CreateVenueDto → M Venue
  create_venue_as_admin random_bytes organization_id dto = do
    found ← read (λ w. s.find_first (organization_by_id organization_id) w.organizations)
    org ← require found (http_exception status_404)
    invite_code ← generate_unique_invite_code s random_bytes
    insert_venue s organization_id dto invite_code

  unfoldable pub update_venue : ℕ → UpdateVenueDto → M Venue
  update_venue venue_id dto = do
    found ← read (λ w. s.find_first (venue_by_id venue_id) w.venues)
    venue ← require found (http_exception status_404)
    λ w. elim (s.update (venue_by_id venue_id) (change_venue dto) w.venues) [
      | none ↦ thrown Exception.row_not_found w
      | some (v, t) ↦ ok v (record w { venues = t })
    ]

  unfoldable pub delete_venue : ℕ → M (Unit {0})
  delete_venue venue_id = do
    found ← read (λ w. s.find_first (venue_by_id venue_id) w.venues)
    venue ← require found (http_exception status_404)
    modify (remove_venues (venue_by_id venue_id))
