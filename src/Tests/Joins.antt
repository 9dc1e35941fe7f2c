-- ===== src/Tests/Joins.antt =====
-- The theorems on invite codes at a small desk.
use aalam_security_back.Common.{◌≡◌, refl, ◌∙◌, none, some, [], ◌∷◌, ℕ, Option, true}
use aalam_security_back.Schema.{Text, Venue, text_eq}
use aalam_security_back.Rows.{find}
use aalam_security_back.World.{after, raised, result, running}
use aalam_security_back.Emergency.Placement.{place, at_venue}
use aalam_security_back.Venues.{bind_by_invite_code}
use aalam_security_back.Venues.Joining.{
  Arrives, destination, organization_of, venue_of, bind_refusal, bind_by_invite_code-raised,
  bind_by_invite_code-JoinedIn, bind-place,
}
use aalam_security_back.Venues.{can_manage_organization_venues}
use aalam_security_back.Venues.InviteCodes.{
  code_of_bytes, generate_unique_invite_code, generate_unique_invite_code-find, try_codes,
  generate_invite_code, attempts, is_free, candidates,
}
use aalam_security_back.Venues.Readable.{LettersDocumented}
use aalam_security_back.Venues.Creation.{
  new_venue, create_venue, insert_venue, create_venue-destination,
}
use aalam_security_back.Tests.Fixtures.{services, documented, called, night, capitals, bytes}

-- The code of the venue 5, with a space before and after it.
abbrev typed : Text
typed = 32 ∷ 65 ∷ 66 ∷ 32 ∷ []

abbrev lobby : Venue
lobby = new_venue 5 6 (called (3 ∷ [])) (65 ∷ 66 ∷ []) 0

bind_by_invite_code-raised_example :
    raised (bind_by_invite_code services capitals 4 (90 ∷ []) night)
    ≡ bind_refusal capitals 4 (90 ∷ []) night
bind_by_invite_code-raised_example =
    bind_by_invite_code-raised services documented capitals 4 (90 ∷ []) night

no_refusal : bind_refusal capitals 4 typed night ≡ none
unfolding text_eq
no_refusal = refl

binds : raised (bind_by_invite_code services capitals 4 typed night) ≡ none
binds = bind_by_invite_code-raised services documented capitals 4 typed night ∙ no_refusal

opens_lobby : venue_of capitals typed night ≡ some lobby
unfolding text_eq
opens_lobby = refl

bind_by_invite_code-JoinedIn_example :
    (at : ℕ × Option ℕ) × (destination
        (organization_of capitals typed night)
        (venue_of capitals typed night)
      ≡ some at)
    × Arrives 4 night (after (bind_by_invite_code services capitals 4 typed night)) at
bind_by_invite_code-JoinedIn_example =
    bind_by_invite_code-JoinedIn services documented capitals 4 typed night binds

bind-place_example :
    result (place services 4 (some 5) (after (bind_by_invite_code services capitals 4 typed night)))
    ≡ some (at_venue 6 (some 5))
bind-place_example =
    bind-place services documented capitals 4 typed lobby night refl opens_lobby refl binds

generate_unique_invite_code-find_example :
    result (generate_unique_invite_code services bytes night)
    ≡ find (is_free night.venues night.organizations) (candidates bytes attempts 10)
generate_unique_invite_code-find_example =
    generate_unique_invite_code-find services documented bytes night

abbrev annex : Venue
annex = new_venue 11 6 (called (4 ∷ [])) (code_of_bytes (bytes 10)) 1000

makes_annex : result (create_venue services bytes 4 6 (called (4 ∷ [])) true night) ≡ some annex
unfolding create_venue can_manage_organization_venues generate_unique_invite_code try_codes
    generate_invite_code insert_venue text_eq running
makes_annex = refl

capitals_documented : LettersDocumented capitals
capitals_documented = record { upper_lem = λ c h. refl; insensitive_lem = λ a b h k. refl }

create_venue-destination_example :
    destination
      (organization_of capitals annex.invite_code
        (after (create_venue services bytes 4 6 (called (4 ∷ [])) true night)))
      (venue_of capitals annex.invite_code
        (after (create_venue services bytes 4 6 (called (4 ∷ [])) true night)))
    ≡ some (6, some 11)
create_venue-destination_example =
    create_venue-destination services documented capitals capitals_documented bytes 4 6
      (called (4 ∷ [])) true annex night refl makes_annex
