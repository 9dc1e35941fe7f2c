-- ===== src/System/Accounts.antt =====
-- The desk's moves under what people do with their accounts and under the decisions on subscriptions.
use aalam_security_back.Common.{ℕ, Bool, Option, none, some, arith}
use aalam_security_back.Schema.{Text, User, Role, SubscriptionRequest}
use aalam_security_back.Services.{Services, computing}
use aalam_security_back.World.{running}
use aalam_security_back.World.Keeps.{
  Keeps, bind, seq, atomic, guarded, gives, modifies, skips, caught_not_found, rules,
}
use aalam_security_back.System.{Desk, next, draw, Reached}
use aalam_security_back.System.Effects.{
  updates_user, updates_users, draws, then_staff, tells_decision,
}
use aalam_security_back.Cache.{
  set_phone_verification_token, get_phone_verification_user_id, delete_phone_verification_token,
}
use aalam_security_back.Tokens.{store, is_valid, remove, remove_all_for_user}
use aalam_security_back.Auth.{
  AuthServices, RegisterDto, TelegramDto, generate_tokens, hash_password, random_hex, mail_reset,
  register, login, refresh, logout, forgot_password, reset_password, start_telegram_verification,
  discard_token, confirm_telegram_verification,
}
use aalam_security_back.Users.{
  UpdateUserMeDto, find_me, update_me, activate_demo, register_push_token, unusable_password, wipe,
  erase_and_revoke, erase_user, delete_account,
}
use aalam_security_back.Subscriptions.{
  create_request, decide_request, refuse_decided, grant, decide_grant, announce_approval,
  approve_subscription_request, reject_subscription_request, get_subscription_request_by_id,
}

module _ (s : Services) (a : AuthServices) (start : Desk) where
  issues :
      (user_id : ℕ) (role : Role)
      → Keeps (Reached s.uuid start) (generate_tokens (computing s) a user_id role)
  unfolding generate_tokens store
  issues user_id role = search (rules, draws)

  hashes : (password : Text) → Keeps (Reached s.uuid start) (hash_password (computing s) a password)
  unfolding hash_password
  hashes password = record { run = λ w r. next r draw }

  draws_hex : Keeps (Reached s.uuid start) (random_hex (computing s) a)
  unfolding random_hex
  draws_hex = record { run = λ w r. next r draw }

  revokes : (user_id : ℕ) → Keeps (Reached s.uuid start) (remove_all_for_user (computing s) user_id)
  unfolding remove_all_for_user
  revokes user_id = search rules

  removes : (token : ℕ) → Keeps (Reached s.uuid start) (remove (computing s) token)
  unfolding remove
  removes token = search rules

  validates :
      (user_id token : ℕ) → Keeps (Reached s.uuid start) (is_valid (computing s) user_id token)
  unfolding is_valid
  validates user_id token = search rules

  pub registers : (dto : RegisterDto) → Keeps (Reached s.uuid start) (register (computing s) a dto)
  unfolding register
  registers dto = bind (search rules) (λ existing. seq (search rules) (
      bind (hashes dto.password) (λ h. bind (search rules) (λ now. bind (draws s start) (λ id.
        seq (modifies _ (λ w r. then_staff r _ (λ o busy on. ground arith)))
          (issues id Role.user))))))

  pub logs_in :
      (email password : Text) → Keeps (Reached s.uuid start) (login (computing s) a email password)
  unfolding login
  logs_in email password = search (rules, issues)

  pub refreshes : (token : ℕ) → Keeps (Reached s.uuid start) (refresh (computing s) a token)
  unfolding refresh
  refreshes token = search (rules, issues, removes, validates) depth 12

  pub logs_out :
      (user_id token : ℕ) → Keeps (Reached s.uuid start) (logout (computing s) a user_id token)
  unfolding logout
  logs_out user_id token =
      seq (removes token) (seq (updates_users s start _ _ (λ o u on hit. on)) skips)

  mails :
      (found : Option User) (email : Text)
      → Keeps (Reached s.uuid start) (mail_reset (computing s) a found email)
  unfolding mail_reset
  mails none email = skips
  mails (some u) email = search (rules, draws, draws_hex)

  pub forgets :
      (email : Text) → Keeps (Reached s.uuid start) (forgot_password (computing s) a email)
  unfolding forgot_password
  forgets email = search (rules, mails)

  pub resets :
      (token password : Text)
      → Keeps (Reached s.uuid start) (reset_password (computing s) a token password)
  unfolding reset_password
  resets token password = bind (search rules) (λ found. bind (search rules) (λ now.
      seq (search rules) (
        bind (search rules) (λ row. bind (hashes password) (λ h.
          seq (atomic (seq (updates_user s start _ _ (λ o u on hit. on)) (search rules)))
            (revokes row.user_id))))))

  pub starts_verification :
      (user_id : ℕ)
      → Keeps (Reached s.uuid start) (start_telegram_verification (computing s) a user_id)
  unfolding start_telegram_verification set_phone_verification_token
  starts_verification user_id = search (rules, draws_hex)

  forgets_token :
      (token : Text)
      → Keeps (Reached s.uuid start) (delete_phone_verification_token (computing s) token)
  unfolding delete_phone_verification_token
  forgets_token token = search rules

  discards :
      (token : Text) (found : Option User)
      → Keeps (Reached s.uuid start) (discard_token (computing s) a token found)
  unfolding discard_token
  discards token none = search (rules, forgets_token)
  discards token (some u) = skips

  pub confirms :
      (dto : TelegramDto)
      → Keeps (Reached s.uuid start) (confirm_telegram_verification (computing s) a dto)
  unfolding confirm_telegram_verification get_phone_verification_user_id
  confirms dto = bind (search rules) (λ held. bind (search rules) (λ id.
      bind (search rules) (λ found. seq (discards dto.token found) (
        bind (search rules) (λ u. seq (search rules) (
          bind (search rules) (λ linked. seq (search rules) (
            bind (search rules) (λ now.
              seq (updates_user s start _ _ (λ o u on hit. on)) (forgets_token dto.token))))))))))

  finds_me : (user_id : ℕ) → Keeps (Reached s.uuid start) (find_me (computing s) user_id)
  unfolding find_me
  finds_me user_id = search rules

  pub updates_me :
      (user_id : ℕ) (dto : UpdateUserMeDto)
      → Keeps (Reached s.uuid start) (update_me (computing s) user_id dto)
  unfolding update_me
  updates_me user_id dto =
      bind (search rules)
        (λ current. seq (updates_user s start _ _ (λ o u on hit. on)) (finds_me user_id))

  pub activates :
      (production : Bool) (user_id : ℕ)
      → Keeps (Reached s.uuid start) (activate_demo (computing s) production user_id)
  unfolding activate_demo
  activates production user_id =
      seq (search rules) (seq (updates_user s start _ _ (λ o u on hit. on)) (finds_me user_id))

  pub registers_token :
      (user_id token : ℕ)
      → Keeps (Reached s.uuid start) (register_push_token (computing s) user_id token)
  unfolding register_push_token
  registers_token user_id token = atomic (
      seq (updates_users s start _ _ (λ o u on hit. on))
        (updates_user s start _ _ (λ o u on hit. on)))

  wipes :
      (user_id : ℕ) (password : Text) (now : ℕ)
      → Keeps (Reached s.uuid start) (wipe (computing s) user_id password now)
  unfolding wipe
  wipes user_id password now = seq (search rules) (updates_user s start _ _ (λ o u on hit. on))

  draws_password : Keeps (Reached s.uuid start) (unusable_password (computing s))
  unfolding unusable_password
  draws_password = record { run = λ w r. next (next r draw) draw }

  pub deletes_account :
      (user_id : ℕ) → Keeps (Reached s.uuid start) (delete_account (computing s) user_id)
  unfolding delete_account erase_user erase_and_revoke
  deletes_account user_id = bind (search rules) (λ found. bind (search rules) (λ u. guarded _ (
      seq (search rules) (
        bind (search rules) (λ active. seq (search rules) (
          bind draws_password (λ password.
            bind (search rules)
              (λ now. seq (atomic (wipes u.id password now)) (revokes u.id)))))))))

  pub requests :
      (user_id : ℕ) (comment : Option Text)
      → Keeps (Reached s.uuid start) (create_request (computing s) user_id comment)
  unfolding create_request
  requests user_id comment = bind (search rules) (λ existing.
      seq (search rules) (bind (search rules) (λ now. bind (draws s start) (λ id. search rules))))

  decides :
      (id : ℕ) (f : SubscriptionRequest → SubscriptionRequest)
      → Keeps (Reached s.uuid start) (decide_request (computing s) id f)
  unfolding decide_request running
  decides id f = record { run = λ w r. ground arith }

  refuses : (id : ℕ) → Keeps (Reached s.uuid start) (refuse_decided (computing s) id)
  unfolding refuse_decided
  refuses id = search rules

  shows : (id : ℕ) → Keeps (Reached s.uuid start) (get_subscription_request_by_id (computing s) id)
  unfolding get_subscription_request_by_id
  shows id = search rules

  grants : (id admin_id e : ℕ) → Keeps (Reached s.uuid start) (grant (computing s) id admin_id e)
  unfolding grant
  grants id admin_id e = bind (search rules) (λ now.
      bind (decides id _) (λ r. seq (updates_user s start _ _ (λ o u on hit. on)) (gives r)))

  pub approves :
      (id admin_id : ℕ) (wanted : Option ℕ)
      → Keeps (Reached s.uuid start) (approve_subscription_request (computing s) id admin_id wanted)
  unfolding approve_subscription_request decide_grant announce_approval
  approves id admin_id wanted = bind (search rules) (λ now. seq (search rules) (
      bind (caught_not_found (atomic (grants id admin_id _)) (refuses id))
        (λ r. seq (search rules) (seq (tells_decision s start r.user_id r.id) (shows r.id)))))

  pub rejects :
      (id : ℕ) (reason : Option Text)
      → Keeps (Reached s.uuid start) (reject_subscription_request (computing s) id reason)
  unfolding reject_subscription_request
  rejects id reason =
      bind (caught_not_found (decides id _) (refuses id))
        (λ r. seq (search rules) (seq (tells_decision s start r.user_id r.id) (shows r.id)))
