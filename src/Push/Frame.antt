-- ===== src/Push/Frame.antt =====
-- What a push leaves alone: a property that does not read the device tokens and the log of pushes.
use aalam_security_back.Common.{ℕ, zero, suc, Bool, Option, none, some, List, [], ◌∷◌}
use aalam_security_back.Schema.{User}
use aalam_security_back.Services.{Services, computing, ExpoReply, unavailable, tickets}
use aalam_security_back.Rows.{set_all}
use aalam_security_back.World.{World, PushMessage, PushKind}
use aalam_security_back.World.Keeps.{Keeps, bind, seq, modifies, skips, rules}
use aalam_security_back.Push.{
  without_push_token, clear_tokens, clear_dead_tokens, post_batch, post_loop, post_to_expo, send_to,
  send_subscription_decision, send_sos_alert, send_assignment_to_operator,
}

module _ {κ} (s : Services) (P : World → Type κ)
    (cleared : (p : User → Bool) (w : World)
      → P w
      → P (record w { users = set_all p without_push_token w.users }))
    (logged : (b : List PushMessage) (w : World)
      → P w
      → P (record w { pushed = b ∷ w.pushed })) where
  clears_tokens : (stale : List ℕ) → Keeps P (clear_tokens (computing s) stale)
  unfolding clear_tokens
  clears_tokens [] = skips
  clears_tokens (t ∷ stale) = modifies _ (cleared _)

  clears :
      (tokens : List ℕ) (reply : ExpoReply) → Keeps P (clear_dead_tokens (computing s) tokens reply)
  unfolding clear_dead_tokens
  clears tokens unavailable = skips
  clears tokens (tickets ts) = clears_tokens _

  posts_batch :
      (batch : List PushMessage) (tokens : List ℕ) → Keeps P (post_batch (computing s) batch tokens)
  unfolding post_batch
  posts_batch batch tokens = seq (modifies _ (logged batch)) (search (rules, clears))

  posts_loop :
      (fuel : ℕ) (batch : List PushMessage) (tokens : List ℕ)
      → Keeps P (post_loop (computing s) fuel batch tokens)
  unfolding post_loop
  posts_loop fuel [] tokens = skips
  posts_loop zero (m ∷ ms) tokens = skips
  posts_loop (suc fuel) (m ∷ ms) tokens = seq (posts_batch _ _) (posts_loop fuel _ _)

  posts :
      (batch : List PushMessage) (tokens : List ℕ)
      → Keeps P (post_to_expo (computing s) batch tokens)
  unfolding post_to_expo
  posts batch tokens = posts_loop _ batch tokens

  sends_token :
      (token : Option ℕ) (kind : PushKind) (found : User)
      → Keeps P (send_to (computing s) (some (record found { push_token = token })) kind)
  unfolding send_to
  sends_token none kind found = skips
  sends_token (some t) kind found = posts _ _

  sends_to : (found : Option User) (kind : PushKind) → Keeps P (send_to (computing s) found kind)
  unfolding send_to
  sends_to none kind = skips
  sends_to (some u) kind = sends_token u.push_token kind u

  pub tells_decision :
      (user_id id : ℕ) → Keeps P (send_subscription_decision (computing s) user_id id)
  unfolding send_subscription_decision
  tells_decision user_id id = bind (search rules) (λ found. sends_to found _)

  pub alerts : (id : ℕ) → Keeps P (send_sos_alert (computing s) id)
  unfolding send_sos_alert
  alerts id = bind (search rules) (λ found. posts _ _)

  pub notifies :
      (session_id operator_id : ℕ)
      → Keeps P (send_assignment_to_operator (computing s) session_id operator_id)
  unfolding send_assignment_to_operator
  notifies session_id operator_id = bind (search rules) (λ found. sends_to found _)
