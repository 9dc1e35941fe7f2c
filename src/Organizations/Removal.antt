-- ===== src/Organizations/Removal.antt =====
-- What the database removes and clears with a row of an organization or a venue: the foreign keys of
-- prisma/schema.prisma with onDelete Cascade and SetNull.
use aalam_security_back.Common.{ℕ, Bool, false, Option, none, some, List, ◌==◌, ◌&&◌, holds, any}
use aalam_security_back.Schema.{
  Organization, Venue, OrganizationMember, EmergencySession, OrganizationApplication,
}
use aalam_security_back.Rows.{set_all, drop_all}
use aalam_security_back.World.{World}

-- The column names one of the venues.
abbrev pub is_at_any : List Venue → (Venue → Bool) → Option ℕ → Bool
is_at_any venues removed none = false
is_at_any venues removed (some venue_id) = any (λ (v : Venue). removed v && v.id == venue_id) venues

abbrev pub leave_venue : OrganizationMember → OrganizationMember
leave_venue m = record m { venue_id = none }

abbrev pub forget_venue : EmergencySession → EmergencySession
forget_venue r = record r { venue_id = none }

abbrev pub forget_organization : EmergencySession → EmergencySession
forget_organization r = record r { organization_id = none }

-- Venues go; the members and the sessions there stay, with no venue.
unfoldable pub remove_venues : (Venue → Bool) → World → World
remove_venues removed w = record w {
  venues = drop_all removed w.venues;
  members =
      set_all (λ (m : OrganizationMember). is_at_any w.venues removed m.venue_id) leave_venue
        w.members;
  sessions =
      set_all (λ (r : EmergencySession). is_at_any w.venues removed r.venue_id) forget_venue
        w.sessions;
}

-- An organization goes with its members and venues; its sessions and its application stay.
unfoldable pub remove_organization : ℕ → World → World
unfolding remove_venues
remove_organization id w =
    let w' = remove_venues (λ (v : Venue). v.organization_id == id) w in
    record w' {
      organizations = drop_all (λ (o : Organization). o.id == id) w'.organizations;
      members = drop_all (λ (m : OrganizationMember). m.organization_id == id) w'.members;
      sessions =
          set_all (λ (r : EmergencySession). holds r.organization_id id) forget_organization
            w'.sessions;
      applications =
          set_all (λ (x : OrganizationApplication). holds x.approved_organization_id id)
            (λ x. record x { approved_organization_id = none }) w'.applications;
    }
