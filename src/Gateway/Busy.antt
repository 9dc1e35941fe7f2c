-- ===== src/Gateway/Busy.antt =====
-- The rooms of busyOperatorRooms in modules/websocket/websocket.gateway.ts.
use aalam_security_back.Common.{
  ℕ, ◌≡◌, refl, ◌∙◌, Bool, true, false, ◌&&◌, ◌||◌, Option, none, some, List, [], ◌∷◌, arith, any,
  keep, Bool-cases, inl, inr,
}
use aalam_security_back.Schema.{EmergencySession}
use aalam_security_back.Presence.{is_open_assigned}
use aalam_security_back.Services.{Room, distinct, operator_room}
use aalam_security_back.Rows.{dedupe, drop_all}
use aalam_security_back.Gateway.{is_busy_row, same_assignee, assignee_rooms}

-- Whether the room of an operator, if there is one, is among some rooms.
abbrev pub has_room : (Room → Bool) → Option ℕ → Bool
has_room p none = false
has_room p (some id) = p (operator_room id)

-- An open call whose operator's room is among them.
abbrev pub is_busy_in : (Room → Bool) → EmergencySession → Bool
is_busy_in p r = is_open_assigned r.status && has_room p r.assigned_operator_id

module _ (p : Room → Bool) where
  leads : EmergencySession → Bool
  leads r = has_room p r.assigned_operator_id

  any-assignee_rooms : (t : List EmergencySession) → any p (assignee_rooms t) ≡ any leads t
  unfolding leads
  any-assignee_rooms [] = refl
  any-assignee_rooms (r ∷ rs) = ground (arith, any-assignee_rooms rs)

  same_assignee-leads : (x y : EmergencySession) → same_assignee x y ≡ true → leads x ≡ leads y
  unfolding leads
  same_assignee-leads x y h = ground arith

  -- A kind of row that is there once is there.
  any-drop_all :
      (x : EmergencySession) (t : List EmergencySession)
      → (leads x || any leads (drop_all (same_assignee x) t)) ≡ (leads x || any leads t)
  any-drop_all x [] = refl
  any-drop_all x (r ∷ rs) = elim (Bool-cases (same_assignee x r)) [
    | inl same ↦ ground (arith, any-drop_all x rs, same_assignee-leads x r same)
    | inr other ↦ ground (arith, any-drop_all x rs)
  ]

  any-dedupe : (t : List EmergencySession) → any leads (dedupe same_assignee t) ≡ any leads t
  any-dedupe [] = refl
  any-dedupe (r ∷ rs) = any-drop_all r (dedupe same_assignee rs) ∙ rw (any-dedupe rs) refl

  any-keep : (t : List EmergencySession) → any leads (keep is_busy_row t) ≡ any (is_busy_in p) t
  unfolding leads
  any-keep [] = refl
  any-keep (r ∷ rs) = ground (arith, any-keep rs)

  -- Of the rooms that the query gives, one is among some rooms exactly if an open call's operator's is.
  pub any-busy_rooms :
      (t : List EmergencySession)
      → any p (assignee_rooms (distinct is_busy_row same_assignee t)) ≡ any (is_busy_in p) t
  any-busy_rooms t =
      any-assignee_rooms (dedupe same_assignee (keep is_busy_row t))
      ∙ (any-dedupe (keep is_busy_row t) ∙ any-keep t)
