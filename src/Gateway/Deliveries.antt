-- ===== src/Gateway/Deliveries.antt =====
-- Which client receives what the emissions of modules/websocket/websocket.gateway.ts carry.
use aalam_security_back.Common.{
  ℕ, ◌≡◌, refl, ◌∙◌, Bool, true, false, not, ◌&&◌, ◌||◌, Option, none, some, List, [], ◌∷◌, ◌++◌,
  arith, any, Bool-cases, inl, inr, if◌then◌else◌,
}
use aalam_security_back.Schema.{EmergencySession, EmergencyLocation}
use aalam_security_back.Presence.{is_open_assigned}
use aalam_security_back.Services.{
  Services, Documented, computing, services-eq, Room, room_eq, Socket, is_in, distinct, admin_room,
  operators, on_shift_room, operator_room, user_room,
}
use aalam_security_back.World.{World, Emission, Event, Payload, M, after, running}
use aalam_security_back.Gateway.{
  is_busy_row, same_assignee, assignee_rooms, busy_operator_rooms, offer_to_free_operators, emit,
  add_room, add_operators, session_rooms, emit_emergency_new, emit_pool_returned, emit_pool_removed,
  emit_location_update, emit_emergency_assigned, emit_emergency_closed, emit_emergency_in_progress,
  emit_emergency_reassigned,
}
use aalam_security_back.Gateway.Busy.{has_room, is_busy_in, any-busy_rooms}
use aalam_security_back.Gateway.Offers.{is_delivered}

-- What a client received, newest first.
abbrev pub received : Socket → List Emission → List (Event × Payload)
received c [] = []
received c (e ∷ es) =
    let rest = received c es in if is_delivered e c then (e.event, e.payload) ∷ rest else rest

-- What the gateway tells of a session: to the user named, of the session, with the operator before.
pub data News : Type 0 where
  located : ℕ → EmergencySession → EmergencyLocation → News
  assigned in_progress : ℕ → EmergencySession → News
  closed : ℕ → EmergencySession → Option ℕ → News
  reassigned : EmergencySession → Option ℕ → News
  raised : EmergencySession → News
  returned : EmergencySession → Bool → News
  removed : ℕ → News

abbrev pub tell : Services → News → M (Unit {0})
tell s (located user_id session location) = emit_location_update user_id session location
tell s (assigned user_id session) = emit_emergency_assigned user_id session
tell s (in_progress user_id session) = emit_emergency_in_progress user_id session
tell s (closed user_id session previous) = emit_emergency_closed user_id session previous
tell s (reassigned session previous) = emit_emergency_reassigned session previous
tell s (raised session) = emit_emergency_new s session
tell s (returned session notify_admins) = emit_pool_returned s session notify_admins
tell s (removed id) = emit_pool_removed id

-- What the news carries.
abbrev pub message : News → Event × Payload
message (located user_id session location) =
    (Event.emergency_location_update, Payload.session_location session location)
message (assigned user_id session) = (Event.emergency_assigned, Payload.session_card session)
message (in_progress user_id session) = (Event.emergency_in_progress, Payload.session_card session)
message (closed user_id session previous) = (Event.emergency_closed, Payload.session_card session)
message (reassigned session previous) = (Event.emergency_reassigned, Payload.session_card session)
message (raised session) = (Event.emergency_new, Payload.session_card session)
message (returned session notify_admins) = (Event.emergency_new, Payload.session_card session)
message (removed id) = (Event.emergency_pool_removed, Payload.session_id id)

-- A client of that operator, if there is one.
abbrev pub is_client_of : Socket → Option ℕ → Bool
is_client_of c none = false
is_client_of c (some id) = is_in (operator_room id) c

-- A client of the applicant, of an administrator or of one of the operators.
abbrev pub is_party : Socket → ℕ → List (Option ℕ) → Bool
is_party c user_id operator_ids =
    is_in admin_room c || (is_in (user_room user_id) c || any (is_client_of c) operator_ids)

-- A client of an operator who leads an open call.
abbrev pub is_engaged : Socket → List EmergencySession → Bool
is_engaged c sessions =
    any (λ r. is_open_assigned r.status && is_client_of c r.assigned_operator_id) sessions

-- Who is to receive the news.
abbrev pub is_recipient : Socket → News → World → Bool
is_recipient c (located user_id session location) w =
    is_party c user_id (session.assigned_operator_id ∷ [])
is_recipient c (assigned user_id session) w = is_party c user_id (session.assigned_operator_id ∷ [])
is_recipient c (in_progress user_id session) w =
    is_party c user_id (session.assigned_operator_id ∷ [])
is_recipient c (closed user_id session previous) w =
    is_party c user_id (session.assigned_operator_id ∷ previous ∷ [])
is_recipient c (reassigned session previous) w =
    is_party c session.user_id (session.assigned_operator_id ∷ previous ∷ [])
is_recipient c (raised session) w =
    (is_in admin_room c || is_in on_shift_room c) && not (is_engaged c w.sessions)
is_recipient c (returned session notify_admins) w =
    ((notify_admins && is_in admin_room c) || is_in on_shift_room c)
    && not (is_engaged c w.sessions)
is_recipient c (removed id) w = is_in on_shift_room c

any-append : (p : Room → Bool) (xs ys : List Room) → any p (xs ++ ys) ≡ (any p xs || any p ys)
any-append p [] ys = refl
any-append p (x ∷ xs) ys = ground (arith, any-append p xs ys)

room_eq-eq : (q r : Room) → room_eq q r ≡ true → q ≡ r
room_eq-eq admin_room admin_room h = refl
room_eq-eq operators operators h = refl
room_eq-eq on_shift_room on_shift_room h = refl
room_eq-eq (operator_room a) (operator_room b) h = ground arith
room_eq-eq (user_room a) (user_room b) h = ground arith
room_eq-eq _ _ h = absurd (ground arith)

already :
    (p : Room → Bool) (r : Room) (rooms : List Room)
    → any (room_eq r) rooms ≡ true
    → (any p rooms || p r) ≡ any p rooms
already p r [] h = absurd (ground arith)
already p r (x ∷ rooms) h = elim (Bool-cases (room_eq r x)) [
  | inl same ↦ rw (room_eq-eq r x same) (ground arith)
  | inr other ↦ ground (arith, already p r rooms)
]

any-add_room :
    (p : Room → Bool) (r : Room) (rooms : List Room)
    → any p (add_room r rooms) ≡ (any p rooms || p r)
any-add_room p r rooms = elim (Bool-cases (any (room_eq r) rooms)) [
  | inl there ↦ ground (arith, already p r rooms there)
  | inr missing ↦ ground (arith, any-append p rooms (r ∷ []))
]

any-add_operators :
    (c : Socket) (ids : List (Option ℕ)) (rooms : List Room)
    → any (λ r. is_in r c) (add_operators ids rooms)
      ≡ (any (λ r. is_in r c) rooms || any (is_client_of c) ids)
unfolding add_operators
any-add_operators c [] rooms = ground arith
any-add_operators c (none ∷ ids) rooms = any-add_operators c ids rooms
any-add_operators c (some id ∷ ids) rooms = ground (
  arith,
  any-add_operators c ids (add_room (operator_room id) rooms),
  any-add_room (λ r. is_in r c) (operator_room id) rooms,
)

session_rooms-is_party :
    (c : Socket) (user_id : ℕ) (ids : List (Option ℕ))
    → any (λ r. is_in r c) (session_rooms user_id ids) ≡ is_party c user_id ids
unfolding session_rooms
session_rooms-is_party c user_id ids = ground (
  arith,
  any-add_operators c ids (add_room (user_room user_id) (admin_room ∷ [])),
  any-add_room (λ r. is_in r c) (user_room user_id) (admin_room ∷ []),
)

same_row : (c : Socket) (o : Option ℕ) → has_room (λ r. is_in r c) o ≡ is_client_of c o
same_row c none = refl
same_row c (some id) = refl

same_rows :
    (c : Socket) (t : List EmergencySession) → any (is_busy_in (λ r. is_in r c)) t ≡ is_engaged c t
same_rows c [] = refl
same_rows c (r ∷ rs) = ground (arith, same_row c r.assigned_operator_id, same_rows c rs)

busy_rooms :
    (c : Socket) (t : List EmergencySession)
    → any (λ r. is_in r c) (assignee_rooms (distinct is_busy_row same_assignee t)) ≡ is_engaged c t
busy_rooms c t = any-busy_rooms (λ r. is_in r c) t ∙ same_rows c t

offered :
    (s : Services) (session : EmergencySession) (include_admins : Bool) (c : Socket) (w : World)
    → received c (after (offer_to_free_operators (computing s) session include_admins w)).emitted
      ≡ (if ((include_admins && is_in admin_room c) || is_in on_shift_room c)
            && not (is_engaged c w.sessions)
          then (Event.emergency_new, Payload.session_card session) ∷ received c w.emitted
          else received c w.emitted)
unfolding offer_to_free_operators busy_operator_rooms running
offered s session true c w = ground (arith, busy_rooms c w.sessions)
offered s session false c w = ground (arith, busy_rooms c w.sessions)

emitted_to :
    (user_id : ℕ) (ids : List (Option ℕ)) (event : Event) (payload : Payload) (c : Socket)
    (w : World)
    → received c (after (emit (session_rooms user_id ids) [] event payload w)).emitted ≡ (
        if is_party c user_id ids
        then (event, payload) ∷ received c w.emitted
        else received c w.emitted)
unfolding running
emitted_to user_id ids event payload c w = ground (arith, session_rooms-is_party c user_id ids)

told :
    (s : Services) (n : News) (c : Socket) (w : World)
    → received c (after (tell (computing s) n w)).emitted
      ≡ (if is_recipient c n w then message n ∷ received c w.emitted else received c w.emitted)
unfolding emit_emergency_new emit_pool_returned running
told s (located u session l) c w = emitted_to u _ _ _ c w
told s (assigned u session) c w = emitted_to u _ _ _ c w
told s (in_progress u session) c w = emitted_to u _ _ _ c w
told s (closed u session previous) c w = emitted_to u _ _ _ c w
told s (reassigned session previous) c w = emitted_to session.user_id _ _ _ c w
told s (raised session) c w = offered s session true c w
told s (returned session notify_admins) c w = offered s session notify_admins c w
told s (removed id) c w = ground arith

-- Who sees an applicant's data. A session that is located, assigned, in progress, closed or given to
-- another goes out once, to the clients of its applicant, of the administrators and of the operators
-- concerned, and to no other client. One that is raised or returned to the pool goes once to the
-- clients on shift, and to the administrators' unless an administrator returned it, but to none of
-- an operator who leads an open call. When it leaves the pool, those on shift get its identifier alone.
pub tell-is_recipient :
    (s : Services) (d : Documented s) (n : News) (c : Socket) (w : World)
    → received c (after (tell s n w)).emitted
      ≡ (if is_recipient c n w then message n ∷ received c w.emitted else received c w.emitted)
tell-is_recipient s d = rw (services-eq d) (told s)
