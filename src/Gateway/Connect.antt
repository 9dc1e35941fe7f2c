-- ===== src/Gateway/Connect.antt =====
-- modules/websocket/websocket.gateway.ts: the handshake, the token's timers and the snapshots that
-- a client receives when it connects.
use aalam_security_back.Common.{
  ℕ, ◌+◌, ◌-◌, ◌*◌, Bool, true, false, Option, none, some, List, [], ◌∷◌, ◌++◌, if◌then◌else◌, ◌==◌,
  holds, is_some, ◌&&◌, ◌||◌, leb, not, length,
}
use aalam_security_back.Schema.{User, Role, EmergencySession, is_new}
use aalam_security_back.Presence.{is_open_assigned}
use aalam_security_back.Services.{
  Services, Room, admin_room, operators, on_shift_room, operator_room, user_room,
}
use aalam_security_back.World.{M, ◌>>=◌, ◌>>◌, pure, read, modify, skip}

abbrev pub token_expiry_warning_ms : ℕ
token_expiry_warning_ms = 60000

-- Newest first.
abbrev pub newest_first : EmergencySession → EmergencySession → Bool
newest_first a b = leb b.created_at a.created_at

-- The timers of a socket whose token expires at `exp`; `none` if it has expired and the socket is
-- closed at once.
unfoldable pub schedule_token_expiry : ℕ → Option ℕ → Option (Option ℕ × Option ℕ)
schedule_token_expiry now none = some (none, none)
schedule_token_expiry now (some exp) =
    let ms_left = exp * 1000 - now in
    if leb (exp * 1000) now
    then none
    else some (some (now + (ms_left - token_expiry_warning_ms)), some (now + ms_left))

-- `operator?.onShift`
abbrev pub is_user_on_shift : Option User → Bool
is_user_on_shift none = false
is_user_on_shift (some u) = u.on_shift

-- `!user || user.deletedAt`
abbrev pub is_gone : Option User → Bool
is_gone none = true
is_gone (some u) = is_some u.deleted_at

module _ (s : Services) where
  unfoldable pub send_admin_bootstrap : ℕ → M (Unit {0})
  send_admin_bootstrap user_id = do
    sessions ← read (λ w.
        s.find_page (λ r. is_new r.status || is_open_assigned r.status) newest_first 0 100
          w.sessions)
    modify (λ w. record w {
      bootstraps =
          record { user_id = user_id; sessions = sessions; on_shift = none } ∷ w.bootstraps;
    })

  -- The rooms that the operator's socket joins besides, with the snapshot sent to it.
  unfoldable pub send_operator_bootstrap : ℕ → M (List Room)
  send_operator_bootstrap operator_id = do
    found ← read (λ w. s.find_first (λ (u : User). u.id == operator_id) w.users)
    let on_shift = is_user_on_shift found
    mine ← read (λ w.
        s.find_sorted (λ r. holds r.assigned_operator_id operator_id && is_open_assigned r.status)
          newest_first w.sessions)
    pool ← read (λ w.
        if on_shift && leb (length mine) 0
        then s.find_page (λ r. is_new r.status && not (is_some r.assigned_operator_id)) newest_first
            0 100 w.sessions
        else [])
    modify (λ w. record w {
      bootstraps =
          record { user_id = operator_id; sessions = mine ++ pool; on_shift = some on_shift }
          ∷ w.bootstraps;
    })
    pure (if on_shift then on_shift_room ∷ [] else [])

  -- The rooms of an accepted client, by the role that the database has.
  unfoldable pub join_rooms : ℕ → Role → M (List Room)
  unfolding send_admin_bootstrap send_operator_bootstrap
  join_rooms sub Role.admin = do send_admin_bootstrap sub; pure (admin_room ∷ [])
  join_rooms sub Role.operator = do
    shift ← send_operator_bootstrap sub
    pure (operators ∷ operator_room sub ∷ shift)
  join_rooms sub Role.user = pure (user_room sub ∷ [])

  unfoldable pub connect : ℕ → Role → Option (Option ℕ × Option ℕ) → M (Unit {0})
  unfolding join_rooms
  connect sub role none = skip
  connect sub role (some (warn_at, kill_at)) = do
    rooms ← join_rooms sub role
    modify (λ w. record w {
      sockets =
          record { user_id = sub; rooms = rooms; warn_at = warn_at; kill_at = kill_at } ∷ w.sockets;
    })

  -- A refused client is disconnected and leaves nothing behind.
  unfoldable pub handle_connection : Option ℕ → M (Unit {0})
  unfolding connect
  handle_connection none w = skip w
  handle_connection (some token) w = elim (s.verify_access w.now token) [
    | none ↦ skip w
    | some payload ↦ elim (s.find_first (λ (u : User). u.id == payload.sub) w.users) [
      | none ↦ skip w
      | some u ↦
          if is_some u.deleted_at
          then skip w
          else connect payload.sub u.role (schedule_token_expiry w.now payload.exp) w
    ]
  ]
