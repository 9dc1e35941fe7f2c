-- ===== src/Gateway.antt =====
-- modules/websocket/websocket.gateway.ts: who is told what. Connections are in Gateway/Connect.
pub mod Connect
pub mod Busy
pub mod Offers
pub mod Deliveries
use aalam_security_back.Common.{
  ℕ, Bool, true, false, Option, none, some, List, [], ◌∷◌, ◌++◌, if◌then◌else◌, ◌==◌, holds,
  is_some, any, ◌&&◌,
}
use aalam_security_back.Schema.{Text, EmergencySession, EmergencyLocation}
use aalam_security_back.Presence.{is_open_assigned}
use aalam_security_back.Rows.{drop_all}
use aalam_security_back.Services.{
  Services, Socket, Room, room_eq, admin_room, on_shift_room, operator_room, user_room,
}
use aalam_security_back.World.{
  World, Emission, Event, Payload, ShiftEndReason, M, ◌>>=◌, ◌>>◌, pure, read, modify, try_catch,
}

abbrev pub emit : List Room → List Room → Event → Payload → M (Unit {0})
emit rooms excluded event payload = modify (λ w. record w {
  emitted =
      record { rooms = rooms; excluded = excluded; event = event; payload = payload } ∷ w.emitted;
})

-- `rooms.add(room)`
abbrev add_room : Room → List Room → List Room
add_room r rooms = if any (room_eq r) rooms then rooms else rooms ++ r ∷ []

add_operators : List (Option ℕ) → List Room → List Room
add_operators [] rooms = rooms
add_operators (none ∷ ids) rooms = add_operators ids rooms
add_operators (some id ∷ ids) rooms = add_operators ids (add_room (operator_room id) rooms)

-- The rooms that may have the whole session.
unfoldable pub session_rooms : ℕ → List (Option ℕ) → List Room
unfolding add_operators
session_rooms user_id operator_ids =
    add_operators operator_ids (add_room (user_room user_id) (admin_room ∷ []))

-- A row that `busyOperatorRooms` selects, and `distinct: ['assignedOperatorId']`.
abbrev pub is_busy_row : EmergencySession → Bool
is_busy_row r = is_open_assigned r.status && is_some r.assigned_operator_id

abbrev pub same_assignee : EmergencySession → EmergencySession → Bool
same_assignee a b = elim a.assigned_operator_id [
  | none ↦ elim b.assigned_operator_id [ none ↦ true | some _ ↦ false ]
  | some id ↦ holds b.assigned_operator_id id
]

abbrev pub assignee_rooms : List EmergencySession → List Room
assignee_rooms [] = []
assignee_rooms (r ∷ rs) = elim r.assigned_operator_id [
  | none ↦ assignee_rooms rs
  | some id ↦ operator_room id ∷ assignee_rooms rs
]

-- The loop over the sockets that adds each user's id to a `Set`.
abbrev pub distinct_ids : List Socket → List ℕ
distinct_ids [] = []
distinct_ids (c ∷ cs) = c.user_id ∷ drop_all (λ id. c.user_id == id) (distinct_ids cs)

module _ (s : Services) where
  unfoldable pub busy_operator_rooms : M (List Room)
  busy_operator_rooms =
      read (λ w. assignee_rooms (s.find_distinct is_busy_row same_assignee w.sessions))

  unfoldable pub offer_to_free_operators : EmergencySession → Bool → M (Unit {0})
  unfolding busy_operator_rooms
  offer_to_free_operators session include_admins = do
    busy ← try_catch busy_operator_rooms (λ _. pure [])
    emit (if include_admins then admin_room ∷ on_shift_room ∷ [] else on_shift_room ∷ []) busy
        Event.emergency_new (Payload.session_card session)

  unfoldable pub emit_emergency_new : EmergencySession → M (Unit {0})
  unfolding offer_to_free_operators
  emit_emergency_new session = offer_to_free_operators session true

  unfoldable pub emit_pool_returned : EmergencySession → Bool → M (Unit {0})
  unfolding offer_to_free_operators
  emit_pool_returned session notify_admins = offer_to_free_operators session notify_admins

  -- Every socket of the operator enters or leaves the room of those on shift.
  unfoldable pub set_operator_shift_room : ℕ → Bool → M (Unit {0})
  set_operator_shift_room id on_shift = modify (λ w. record w {
    sockets =
        if on_shift
        then s.sockets_join (operator_room id) on_shift_room w.sockets
        else s.sockets_leave (operator_room id) on_shift_room w.sockets;
  })

  unfoldable pub disconnect_user : ℕ → M (Unit {0})
  disconnect_user id = modify (λ w. record w {
    sockets = s.disconnect_sockets (operator_room id ∷ user_room id ∷ []) w.sockets;
  })

  -- A `Set` of the ids of the sockets in the room.
  unfoldable pub get_connected_on_shift_operator_ids : M (List ℕ)
  get_connected_on_shift_operator_ids =
      read (λ w. distinct_ids (s.fetch_sockets on_shift_room w.sockets))

abbrev pub emit_shift_ended : ℕ → ShiftEndReason → M (Unit {0})
emit_shift_ended id reason =
    emit (operator_room id ∷ []) [] Event.operator_shift_ended (Payload.shift_reason reason)

-- Those on shift learn the identifier alone.
abbrev pub emit_pool_removed : ℕ → M (Unit {0})
emit_pool_removed id =
    emit (on_shift_room ∷ []) [] Event.emergency_pool_removed (Payload.session_id id)

abbrev pub emit_location_update : ℕ → EmergencySession → EmergencyLocation → M (Unit {0})
emit_location_update user_id session location =
    emit (session_rooms user_id (session.assigned_operator_id ∷ [])) []
      Event.emergency_location_update (Payload.session_location session location)

abbrev pub emit_emergency_assigned : ℕ → EmergencySession → M (Unit {0})
emit_emergency_assigned user_id session =
    emit (session_rooms user_id (session.assigned_operator_id ∷ [])) [] Event.emergency_assigned
      (Payload.session_card session)

abbrev pub emit_emergency_closed : ℕ → EmergencySession → Option ℕ → M (Unit {0})
emit_emergency_closed user_id session previous_operator_id =
    emit (session_rooms user_id (session.assigned_operator_id ∷ previous_operator_id ∷ [])) []
      Event.emergency_closed (Payload.session_card session)

abbrev pub emit_emergency_in_progress : ℕ → EmergencySession → M (Unit {0})
emit_emergency_in_progress user_id session =
    emit (session_rooms user_id (session.assigned_operator_id ∷ [])) [] Event.emergency_in_progress
      (Payload.session_card session)

abbrev pub emit_emergency_reassigned : EmergencySession → Option ℕ → M (Unit {0})
emit_emergency_reassigned session previous_operator_id =
    emit (session_rooms session.user_id (session.assigned_operator_id ∷ previous_operator_id ∷ []))
      [] Event.emergency_reassigned (Payload.session_card session)

abbrev pub emit_subscription_approved : ℕ → ℕ → Option ℕ → M (Unit {0})
emit_subscription_approved user_id request_id expires_at =
    emit (user_room user_id ∷ []) [] Event.subscription_approved
      (Payload.request_expires request_id expires_at)

abbrev pub emit_subscription_rejected : ℕ → ℕ → Option Text → M (Unit {0})
emit_subscription_rejected user_id request_id reason =
    emit (user_room user_id ∷ []) [] Event.subscription_rejected
      (Payload.request_reason request_id reason)
