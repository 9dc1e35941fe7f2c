-- ===== src/Roster/Histories.antt =====
-- The requests that write memberships, venues and organizations, one after another.
use aalam_security_back.Common.{ℕ, ◌≡◌, Bool, Option, List, [], ◌∷◌}
use aalam_security_back.Schema.{Text}
use aalam_security_back.Services.{Services, Documented, computing, services-eq}
use aalam_security_back.World.{World, M, ◌>>◌, skip, after}
use aalam_security_back.World.Keeps.{Keeps, seq, skips}
use aalam_security_back.World.Triples.{always}
use aalam_security_back.Venues.{Letters, bind_by_invite_code}
use aalam_security_back.Venues.Creation.{CreateVenueDto, create_venue}
use aalam_security_back.Organizations.{create_owned}
use aalam_security_back.Applications.{approve_organization_application}
use aalam_security_back.Users.{delete_account}
use aalam_security_back.Admin.Operators.{delete_operator}
use aalam_security_back.Admin.Organizations.{
  create_organization, update_organization, delete_organization,
}
use aalam_security_back.Admin.Members.{
  AddOrganizationMemberDto, UpdateOrganizationMemberDto, add_organization_member,
  update_organization_member, remove_organization_member,
}
use aalam_security_back.Admin.Venues.{
  UpdateVenueDto, create_venue_as_admin, update_venue, delete_venue,
}
use aalam_security_back.Roster.{Roster}
use aalam_security_back.Roster.Handlers
use aalam_security_back.Roster.Ownership
use aalam_security_back.Roster.Approvals
use aalam_security_back.Roster.Members
use aalam_security_back.Roster.Premises
use aalam_security_back.Roster.Departures

-- The random bytes come with the requests that draw them.
pub data Change : Type 0 where
  use_code : Letters → ℕ → Text → Change
  found_organization : Letters → (ℕ → List ℕ) → ℕ → Text → Change
  open_venue : (ℕ → List ℕ) → ℕ → ℕ → CreateVenueDto → Bool → Change
  admin_organization : Letters → (ℕ → List ℕ) → Text → Change
  edit_organization : (ℕ → List ℕ) → ℕ → Option Text → Change
  drop_organization : ℕ → Change
  approve : Letters → (ℕ → List ℕ) → ℕ → Option Text → Change
  add_member : ℕ → AddOrganizationMemberDto → Change
  edit_member : ℕ → UpdateOrganizationMemberDto → Change
  remove_member : ℕ → Change
  admin_venue : (ℕ → List ℕ) → ℕ → CreateVenueDto → Change
  edit_venue : ℕ → UpdateVenueDto → Change
  drop_venue : ℕ → Change
  delete_own drop_operator : ℕ → Change

abbrev void : {A : Type 0} → M A → M (Unit {0})
void m = m >> skip

unfoldable pub perform : Services → Change → M (Unit {0})
perform s (use_code l user_id code) = void (bind_by_invite_code s l user_id code)
perform s (found_organization l bytes user_id name) = void (create_owned s l bytes user_id name)
perform s (open_venue bytes user_id organization_id dto is_admin) =
    void (create_venue s bytes user_id organization_id dto is_admin)
perform s (admin_organization l bytes name) = void (create_organization s l bytes name)
perform s (edit_organization bytes id name) = void (update_organization s bytes id name)
perform s (drop_organization id) = delete_organization s id
perform s (approve l bytes id wanted) = void (approve_organization_application s l bytes id wanted)
perform s (add_member id dto) = void (add_organization_member s id dto)
perform s (edit_member id dto) = void (update_organization_member s id dto)
perform s (remove_member id) = remove_organization_member s id
perform s (admin_venue bytes id dto) = void (create_venue_as_admin s bytes id dto)
perform s (edit_venue id dto) = void (update_venue s id dto)
perform s (drop_venue id) = delete_venue s id
perform s (delete_own id) = delete_account s id
perform s (drop_operator id) = delete_operator s id

-- What each request leaves, whatever it returns or throws.
unfoldable pub changes : Services → List Change → World → World
changes s [] w = w
changes s (c ∷ cs) w = changes s cs (after (perform s c w))

module _ (s : Services) (injective : (a b : ℕ) → s.uuid a ≡ s.uuid b → a ≡ b) where
  performs : (c : Change) → Keeps (Roster s.uuid) (perform (computing s) c)
  unfolding perform
  performs (use_code l u c) = seq (always (Handlers.binds s injective l u c)) skips
  performs (found_organization l r u n) =
      seq (always (Ownership.creates_owned s injective l r u n)) skips
  performs (open_venue r u o d a) =
      seq (always (Handlers.creates_venue s injective r u o d a)) skips
  performs (admin_organization l r n) =
      seq (always (Ownership.creates_organization s injective l r n)) skips
  performs (edit_organization r i n) =
      seq (always (Premises.updates_organization s injective r i n)) skips
  performs (drop_organization i) = always (Premises.deletes_organization s injective i)
  performs (approve l r i n) = seq (always (Approvals.approves s injective l r i n)) skips
  performs (add_member i d) = seq (always (Members.adds_member s injective i d)) skips
  performs (edit_member i d) = seq (always (Members.updates_member s injective i d)) skips
  performs (remove_member i) = always (Members.removes_member s injective i)
  performs (admin_venue r i d) =
      seq (always (Premises.creates_venue_as_admin s injective r i d)) skips
  performs (edit_venue i d) = seq (always (Premises.updates_venue s injective i d)) skips
  performs (drop_venue i) = always (Premises.deletes_venue s injective i)
  performs (delete_own i) = Departures.deletes_account s i
  performs (drop_operator i) = Departures.deletes_operator s i

performs_documented :
    (s : Services) → Documented s → (c : Change) → Keeps (Roster s.uuid) (perform s c)
performs_documented s d = rw (services-eq d) (performs s d.uuid_injective)

-- Whatever is asked of memberships, venues and organizations, and whether it succeeds or fails, each
-- person has one membership at most and each organization one owner at most; every membership and
-- every venue has its organization, and a member's venue is one of the member's organization.
-- The roster is so before.
pub changes-Roster :
    (s : Services) (d : Documented s) (cs : List Change) (w : World)
    → Roster s.uuid w
    → Roster s.uuid (changes s cs w)
unfolding changes
changes-Roster s d [] w r = r
changes-Roster s d (c ∷ cs) w r =
    changes-Roster s d cs (after (perform s c w)) ((performs_documented s d c).run w r)
