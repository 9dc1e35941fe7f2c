-- ===== src/Roster/Demotions.antt =====
-- The steps of the changes of members in modules/admin/admin.service.ts: the update of a row, the
-- demotion of an owner and the check of a venue.
use aalam_security_back.Common.{
  ℕ, ◌≡◌, refl, sym, subst, ap, true, Option, none, some, arith, is_some,
}
use aalam_security_back.Schema.{OrganizationMember}
use aalam_security_back.Services.{Services, computing}
use aalam_security_back.Rows.{find, count, set_first}
use aalam_security_back.Rows.Changes.{count-zero-of_not_found}
use aalam_security_back.World.{World, ok, running}
use aalam_security_back.World.Triples.{Triple, Post, next, having, given, conclude, refusing}
use aalam_security_back.Organizations.{is_owner_of}
use aalam_security_back.Admin.Members.{
  member_by_id, demote, update_member, assert_venue_belongs_to_org, demote_found,
  demote_current_owner,
}
use aalam_security_back.Roster.{Roster, is_venue_of}
use aalam_security_back.Roster.Roles.{found_by_id, owner_demoted, no_owner_left}

module _ (s : Services) where
  abbrev R : World → Type 0
  R = Roster s.uuid

  updated :
      (id : ℕ) (f : OrganizationMember → OrganizationMember) (m : OrganizationMember) (w : World)
      → find (member_by_id id) w.members ≡ some m
      → update_member (computing s) id f w
        ≡ ok (f m) (record w { members = set_first (member_by_id id) f w.members })
  unfolding update_member
  updated id f m w e = ground arith

  -- The update of a member who is there.
  pub updates :
      (P Q : World → Type 0) (id : ℕ) (f : OrganizationMember → OrganizationMember)
      (m : OrganizationMember)
      → ((w : World) → P w → find (member_by_id id) w.members ≡ some m)
      → ((w : World) → P w → Q (record w { members = set_first (member_by_id id) f w.members }))
      → Triple P (update_member (computing s) id f) (λ a. Q) R
  updates P Q id f m there h = record {
    run = λ w p. subst (Post (λ a. Q) R) (sym (updated id f m w (there w p))) (h w p);
  }

  -- The organization's owner steps down; `F` is what else is known.
  module _ (o : ℕ) (F : World → Type 0)
      (still : (w : World) (c : OrganizationMember)
        → R w
        → F w
        → find (is_owner_of o) w.members ≡ some c
        → F (record w { members = set_first (member_by_id c.id) demote w.members })) where
    demotes_found :
        (current : Option OrganizationMember)
        → Triple
            (λ w. (R w × F w) × (find (is_owner_of o) w.members ≡ current))
            (demote_found (computing s) current)
            (λ a w. R w × F w × (count (is_owner_of o) w.members ≡ 0))
            R
    unfolding demote_found
    demotes_found none =
        unfold running in
        record {
          run = λ w ((r, f), e).
              (r, f, count-zero-of_not_found (is_owner_of o) w.members (ap is_some e));
        }
    demotes_found (some c) =
        next (λ w. R w × F w × (count (is_owner_of o) w.members ≡ 0))
          (updates (λ w. (R w × F w) × (find (is_owner_of o) w.members ≡ some c)) _ c.id demote c
            (λ w ((r, f), e). found_by_id r o c e)
            (λ w ((r, f), e). (owner_demoted r o c e, still w c r f e, no_owner_left r o c e)))
          (unfold running in record { run = λ w p. p })

    pub demotes :
        Triple
          (λ w. R w × F w)
          (demote_current_owner (computing s) o)
          (λ a w. R w × F w × (count (is_owner_of o) w.members ≡ 0))
          R
    unfolding demote_current_owner
    demotes = having (λ current. demotes_found current)

  pub asserts_venue :
      (P : World → Type 0)
      → ((w : World) → P w → R w)
      → (venue_id : Option ℕ) (organization_id : ℕ)
      → Triple P
          (assert_venue_belongs_to_org (computing s) venue_id organization_id)
          (λ a w. P w × (is_venue_of w.venues organization_id venue_id ≡ true))
          R
  unfolding assert_venue_belongs_to_org
  asserts_venue P leaves none organization_id = unfold running in record { run = λ w p. (p, refl) }
  asserts_venue P leaves (some v) organization_id = having (λ found.
      given (λ w p. leaves w p.0) _ _
        (λ venue.
          conclude (λ a w p. (p.0.0.0, ground arith)) (refusing _ _ (λ w p. leaves w p.0.0))))
