-- ===== src/Venues/Creation.antt =====
-- modules/venue/venue.service.ts: the creation of a venue, and where its invite code leads.
use aalam_security_back.Common.{
  ℕ, zero, suc, ◌≡◌, ◌≢◌, refl, subst, ap, ◌∙◌, Bool, true, false, Option, none, some, List, [],
  ◌∷◌, ◌&&◌, ◌||◌, ◌==◌, not, arith, all, is_some, Bool-cases, inl, inr,
}
use aalam_security_back.Schema.{Text, Organization, Venue, text_eq}
use aalam_security_back.Errors.{Exception, status_403, http_exception}
use aalam_security_back.Services.{Services, Documented, computing, services-eq}
use aalam_security_back.Rows.{find}
use aalam_security_back.World.{
  World, Outcome, ok, thrown, M, ◌>>=◌, ◌>>◌, pure, throw, read, modify, when, draw_uuid, after,
  result, running,
}
use aalam_security_back.Venues.{
  Letters, manages, is_membership_of, can_manage_organization_venues, organization_has_code,
  venue_has_code, normal_code,
}
use aalam_security_back.Venues.InviteCodes.{
  code_of_bytes, generate_unique_invite_code, generate_invite_code, try_codes, attempts, is_free,
  is_venues_code, is_organizations_code,
}
use aalam_security_back.Venues.Joining.{organization_of, venue_of, destination}
use aalam_security_back.Venues.Readable.{
  LettersDocumented, is_readable, is_readable-code_of_bytes, normal_code_readable, text_eq_refl,
}

-- The validation of a request demands both coordinates; the branch of an application may lack them.
pub record CreateVenueDto : Type 0 where
  pub name : Text
  pub address : Option Text
  pub apartment : Option Text
  pub floor : Option Text
  pub entrance : Option Text
  pub door_code : Option Text
  pub address_notes : Option Text
  pub latitude : Option ℕ
  pub longitude : Option ℕ

abbrev pub new_venue : ℕ → ℕ → CreateVenueDto → Text → ℕ → Venue
new_venue id organization_id dto invite_code now = record {
  id = id;
  organization_id = organization_id;
  name = dto.name;
  address = dto.address;
  apartment = dto.apartment;
  floor = dto.floor;
  entrance = dto.entrance;
  door_code = dto.door_code;
  address_notes = dto.address_notes;
  latitude = dto.latitude;
  longitude = dto.longitude;
  invite_code = invite_code;
  created_at = now;
}

module _ (s : Services) where
  -- `venue.create`. The foreign key demands that the organization is there.
  unfoldable pub insert_venue : ℕ → CreateVenueDto → Text → M Venue
  insert_venue organization_id dto invite_code = do
    org ← read (λ w. s.find_first (λ (o : Organization). o.id == organization_id) w.organizations)
    when (not (is_some org)) (throw Exception.foreign_key_missing)
    now ← read (λ w. w.now)
    id ← draw_uuid s
    modify (λ w. record w { venues = new_venue id organization_id dto invite_code now ∷ w.venues })
    pure (new_venue id organization_id dto invite_code now)

  unfoldable pub create_venue : (ℕ → List ℕ) → ℕ → ℕ → CreateVenueDto → Bool → M Venue
  unfolding insert_venue
  create_venue random_bytes user_id organization_id dto is_admin = do
    can_manage ← can_manage_organization_venues s user_id organization_id
    when (not is_admin && not can_manage) (throw (http_exception status_403))
    invite_code ← generate_unique_invite_code s random_bytes
    insert_venue organization_id dto invite_code

abbrev pub has_readable_code : Organization → Bool
has_readable_code o = elim o.invite_code [ none ↦ true | some c ↦ is_readable c ]

none-ne-some : {v : Venue} → none ≢ some v
none-ne-some e = absurd (ground arith)

-- A code that has just been generated.
record FreshIn (venues : List Venue) (orgs : List Organization) (code : Text) (now : World)
    : Type 0 where
  readable : is_readable code ≡ true
  free : is_free venues orgs code ≡ true
  same_venues : now.venues ≡ venues
  same_organizations : now.organizations ≡ orgs

abbrev Fresh : List Venue → List Organization → Outcome Text → Type 0
Fresh venues orgs (ok code now) = FreshIn venues orgs code now
Fresh venues orgs (thrown e now) = Unit

fresh :
    (s : Services) (random_bytes : ℕ → List ℕ) (n : ℕ) (w : World)
    → Fresh w.venues w.organizations (try_codes (computing s) random_bytes n w)
unfolding try_codes generate_invite_code running
fresh s random_bytes zero w = tt
fresh s random_bytes (suc n) w =
    let code = code_of_bytes (random_bytes w.drawn) in
    elim (Bool-cases (
      is_some (find (is_venues_code code) w.venues)
      || is_some (find (is_organizations_code code) w.organizations))) [
        | inl taken ↦ rw taken (fresh s random_bytes n (record w { drawn = suc w.drawn }))
        | inr free ↦ rw free (record {
          readable = is_readable-code_of_bytes (random_bytes w.drawn);
          free = ap not free;
          same_venues = refl;
          same_organizations = refl;
        })
      ]

module _ (l : Letters) (d : LettersDocumented l) (code : Text)
    (readable : is_readable code ≡ true) where
  same_code :
      (c : Option Text)
      → elim c [ none ↦ true | some t ↦ is_readable t ] ≡ true
      → elim c [ none ↦ false | some t ↦ l.equals_insensitive t code ]
        ≡ elim c [ none ↦ false | some t ↦ text_eq t code ]
  same_code none h = refl
  same_code (some t) h = d.insensitive_lem t code h readable

  no_organization :
      (orgs : List Organization)
      → all has_readable_code orgs ≡ true
      → is_some (find (is_organizations_code code) orgs) ≡ false
      → find (organization_has_code l code) orgs ≡ none
  no_organization [] h free = refl
  no_organization (o ∷ os) h free =
      let same = same_code o.invite_code in ground (arith, same, no_organization os)

abbrev pub Opens : Letters → Venue → World → Type 0
Opens l v w =
    destination (organization_of l v.invite_code w) (venue_of l v.invite_code w)
    ≡ some (v.organization_id, some v.id)

abbrev inserting : Services → ℕ → CreateVenueDto → Outcome Text → Outcome Venue
inserting s organization_id dto o = elim o [
  | ok code w ↦ insert_venue s organization_id dto code w
  | thrown e w ↦ thrown e w
]

module _ (l : Letters) (d : LettersDocumented l) where
  opens :
      (v : Venue) (venues : List Venue) (orgs : List Organization)
      → is_readable v.invite_code ≡ true
      → all has_readable_code orgs ≡ true
      → is_free venues orgs v.invite_code ≡ true
      → destination
          (find (organization_has_code l (normal_code l v.invite_code)) orgs)
          (find (venue_has_code l (normal_code l v.invite_code)) (v ∷ venues))
        ≡ some (v.organization_id, some v.id)
  opens v venues orgs readable all_readable free =
      rw (normal_code_readable l d v.invite_code readable) (
        rw (no_organization l d v.invite_code readable orgs all_readable (ground arith)) (
          rw
            (d.insensitive_lem v.invite_code v.invite_code readable readable
              ∙ text_eq_refl v.invite_code)
            refl))

  inserted :
      (s : Services) (organization_id : ℕ) (dto : CreateVenueDto) (v : Venue) (venues : List Venue)
      (orgs : List Organization) (o : Outcome Text)
      → all has_readable_code orgs ≡ true
      → Fresh venues orgs o
      → result (inserting s organization_id dto o) ≡ some v
      → Opens l v (after (inserting s organization_id dto o))
  unfolding insert_venue running
  inserted s organization_id dto v venues orgs (thrown e w) all_readable f h = absurd (ground arith)
  inserted s organization_id dto v venues orgs (ok code w) all_readable f h =
      let made = new_venue (s.uuid w.drawn) organization_id dto code w.now in
      let org = s.find_first (λ (o : Organization). o.id == organization_id) w.organizations in
      elim (Bool-cases (not (is_some org))) [
        | inl missing ↦ absurd (none-ne-some (rw missing at h))
        | inr there ↦
            let same =
              ap (λ (x : Option Venue). elim x [ none ↦ made | some y ↦ y ]) (rw there at h) in
            rw there (
              subst (λ x. Opens l x (record w { drawn = suc w.drawn; venues = made ∷ w.venues }))
                same
                (opens made w.venues w.organizations f.readable
                  (rw f.same_organizations all_readable)
                  (rw (f.same_venues, f.same_organizations) f.free)))
      ]

  creates :
      (s : Services) (random_bytes : ℕ → List ℕ) (user_id organization_id : ℕ)
      (dto : CreateVenueDto) (is_admin : Bool) (v : Venue) (w : World)
      → all has_readable_code w.organizations ≡ true
      → result (create_venue (computing s) random_bytes user_id organization_id dto is_admin w)
        ≡ some v
      → Opens l v
          (after (create_venue (computing s) random_bytes user_id organization_id dto is_admin w))
  unfolding create_venue can_manage_organization_venues generate_unique_invite_code running
  creates s random_bytes user_id organization_id dto is_admin v w all_readable h =
      elim (Bool-cases (
        not is_admin
        && not (manages organization_id (find (is_membership_of user_id) w.members)))) [
          | inl refused ↦ absurd (none-ne-some (rw refused at h))
          | inr allowed ↦ rw allowed (
              inserted (computing s) organization_id dto v w.venues w.organizations
                (try_codes (computing s) random_bytes attempts w) all_readable
                (fresh s random_bytes attempts w) (rw allowed at h))
        ]

-- The invite code of a venue that has just been created leads to that venue and its organization,
-- when the organizations' codes consist of capitals and digits.
pub create_venue-destination :
    (s : Services) (d : Documented s) (l : Letters) (e : LettersDocumented l)
    (random_bytes : ℕ → List ℕ) (user_id organization_id : ℕ) (dto : CreateVenueDto)
    (is_admin : Bool) (v : Venue) (w : World)
    → all has_readable_code w.organizations ≡ true
    → result (create_venue s random_bytes user_id organization_id dto is_admin w) ≡ some v
    → Opens l v (after (create_venue s random_bytes user_id organization_id dto is_admin w))
create_venue-destination s d l e = rw (services-eq d) (creates l e s)
