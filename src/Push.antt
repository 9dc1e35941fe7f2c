-- ===== src/Push.antt =====
-- modules/push/push.service.ts: messages in batches to Expo, and the tokens that its answer clears.
pub mod Batches
pub mod Frame
use aalam_security_back.Common.{
  ℕ, zero, suc, Bool, true, false, Option, none, some, List, [], ◌∷◌, if◌then◌else◌, ◌==◌, holds,
  is_some, any, ◌&&◌, not, take, drop, length, map,
}
use aalam_security_back.Schema.{User, is_operator}
use aalam_security_back.Presence.{is_open_assigned}
use aalam_security_back.Rows.{count}
use aalam_security_back.Services.{
  Services, Ticket, delivered, device_not_registered, other_error, ExpoReply, unavailable, tickets,
}
use aalam_security_back.World.{
  World, PushMessage, PushKind, M, ◌>>=◌, ◌>>◌, pure, skip, read, modify, update_users, ok,
}

abbrev pub expo_batch_size : ℕ
expo_batch_size = 100

-- The loop that pairs tickets with tokens by position.
abbrev pub stale_tokens : List ℕ → List Ticket → List ℕ
stale_tokens [] ts = []
stale_tokens (token ∷ tokens) [] = []
stale_tokens (token ∷ tokens) (device_not_registered ∷ ts) = token ∷ stale_tokens tokens ts
stale_tokens (token ∷ tokens) (delivered ∷ ts) = stale_tokens tokens ts
stale_tokens (token ∷ tokens) (other_error ∷ ts) = stale_tokens tokens ts

abbrev pub without_push_token : User → User
without_push_token u = record u { push_token = none }

-- `{ pushToken: { in: stale } }`
abbrev pub has_token_in : List ℕ → User → Bool
has_token_in stale u = elim u.push_token [ none ↦ false | some t ↦ any (λ x. x == t) stale ]

-- `tokens.map(token => ({ to: token, … }))`
abbrev pub messages_to : PushKind → List ℕ → List PushMessage
messages_to kind [] = []
messages_to kind (t ∷ ts) = record { to = t; kind = kind } ∷ messages_to kind ts

-- `operators.map(o => o.pushToken).filter(t => !!t)`
abbrev pub push_tokens : List User → List ℕ
push_tokens [] = []
push_tokens (u ∷ us) = elim u.push_token [ none ↦ push_tokens us | some t ↦ t ∷ push_tokens us ]

module _ (s : Services) where
  -- `pushToken: { in: stale }` becomes null, if there are stale tokens.
  unfoldable pub clear_tokens : List ℕ → M (Unit {0})
  clear_tokens [] = skip
  clear_tokens (t ∷ stale) = modify (λ w. record w {
    users = s.update_many (has_token_in (t ∷ stale)) without_push_token w.users;
  })

  unfoldable pub clear_dead_tokens : List ℕ → ExpoReply → M (Unit {0})
  clear_dead_tokens tokens unavailable = skip
  clear_dead_tokens tokens (tickets ts) = clear_tokens (stale_tokens tokens ts)

  -- A request that fails, times out or is answered with an error is logged, and clears nothing.
  unfoldable pub post_batch : List PushMessage → List ℕ → M (Unit {0})
  post_batch batch batch_tokens = do
    modify (λ w. record w { pushed = batch ∷ w.pushed })
    reply ← read (λ w. s.expo w.now batch_tokens)
    clear_dead_tokens batch_tokens reply

  -- The loop `i += EXPO_BATCH_SIZE`; a round takes at least one message, so as many rounds as
  -- there are messages are enough.
  unfoldable pub post_loop : ℕ → List PushMessage → List ℕ → M (Unit {0})
  post_loop fuel [] tokens = skip
  post_loop zero (m ∷ ms) tokens = skip
  post_loop (suc fuel) (m ∷ ms) tokens =
      post_batch (take expo_batch_size (m ∷ ms)) (take expo_batch_size tokens)
      >> post_loop fuel (drop expo_batch_size (m ∷ ms)) (drop expo_batch_size tokens)

  unfoldable pub post_to_expo : List PushMessage → List ℕ → M (Unit {0})
  unfolding post_loop
  post_to_expo messages tokens = post_loop (length messages) messages tokens

  -- Operators on shift with a token and with no open session.
  unfoldable pub send_sos_alert : ℕ → M (Unit {0})
  send_sos_alert session_id = do
    found ← read (λ w.
        s.find_many
          (λ u.
            is_operator u.role
            && u.on_shift
            && is_some u.push_token
            && not (
                any (λ r. holds r.assigned_operator_id u.id && is_open_assigned r.status)
                  w.sessions))
          w.users)
    let tokens = push_tokens found
    post_to_expo (messages_to (PushKind.push_emergency_new session_id) tokens) tokens

  unfoldable pub send_to : Option User → PushKind → M (Unit {0})
  send_to none kind = skip
  send_to (some u) kind = elim u.push_token [
    | none ↦ skip
    | some t ↦ post_to_expo (messages_to kind (t ∷ [])) (t ∷ [])
  ]

  unfoldable pub send_subscription_decision : ℕ → ℕ → M (Unit {0})
  unfolding send_to
  send_subscription_decision user_id request_id = do
    found ← read (λ w. s.find_first (λ (u : User). u.id == user_id) w.users)
    send_to found (PushKind.push_subscription_decision request_id)

  unfoldable pub send_assignment_to_operator : ℕ → ℕ → M (Unit {0})
  unfolding send_to
  send_assignment_to_operator session_id operator_id = do
    found ← read (λ w. s.find_first (λ u. (u.id == operator_id) && is_operator u.role) w.users)
    send_to found (PushKind.push_emergency_assigned session_id)
