-- ===== src/Auth.antt =====
-- modules/auth/auth.service.ts: registration, login, the rotation of refresh tokens, logout and the
-- reset of a password.
pub mod Rotation
pub mod Credentials
use aalam_security_back.Common.{
  ℕ, suc, ◌≡◌, ◌+◌, ◌*◌, ◌/◌, Bool, true, false, Option, none, some, List, [], ◌∷◌, if◌then◌else◌,
  ◌==◌, is_some, ◌&&◌, ◌||◌, not, ltb,
}
use aalam_security_back.Schema.{Text, User, Role, PasswordResetToken, text_eq}
use aalam_security_back.Errors.{
  ErrorCode, Exception, status_400, status_401, status_503, bad_request, app_exception,
  http_exception, no_details, conflict,
}
use aalam_security_back.Services.{Services, JwtPayload}
use aalam_security_back.World.{
  World, M, ◌>>=◌, ◌>>◌, pure, throw, read, modify, skip, when, require, transaction, update_user,
  update_users, draw_uuid, ok,
}
use aalam_security_back.Queries.{user_by_id}
use aalam_security_back.Cache.{
  set_phone_verification_token, get_phone_verification_user_id, delete_phone_verification_token,
}
use aalam_security_back.Tokens.{store, is_valid, remove, remove_all_for_user}

-- What the service calls besides: the JWT library at the two secrets, bcrypt's comparison, the mail
-- service and the configuration.
pub record AuthServices : Type 0 where
  -- of a user, a role and the instant of signing
  pub sign_access : ℕ → Role → ℕ → ℕ
  -- and with a `jti`
  pub sign_refresh : ℕ → Role → ℕ → ℕ → ℕ
  -- at an instant; `none` is the library's exception
  pub verify_refresh : ℕ → ℕ → Option JwtPayload
  pub bcrypt_compare : Text → Text → Bool
  -- of the placeholder, computed at the start
  pub dummy_hash : Text
  pub refresh_ttl_seconds : ℕ
  -- whether mail is enabled and `app.url` is set
  pub can_mail : Bool

-- What the code relies on: the `jti` keeps two refresh tokens apart.
pub record JtiDocumented (a : AuthServices) : Type 0 where
  pub jti_apart :
      (u u' : ℕ) (r r' : Role) (jti jti' at at' : ℕ)
      → a.sign_refresh u r jti at ≡ a.sign_refresh u' r' jti' at'
      → jti ≡ jti'

-- Whether a token that was signed at an instant, for a lifetime in seconds, has not expired at
-- another: `iat`, `exp` and the library's clock are whole seconds.
abbrev pub is_unexpired : ℕ → ℕ → ℕ → Bool
is_unexpired at ttl_seconds now = ltb (now / 1000) (at / 1000 + ttl_seconds)

-- And a token verifies, as its user's, while it has not expired.
pub record LifetimeDocumented (a : AuthServices) : Type 0 where
  pub verifies :
      (u : ℕ) (r : Role) (jti at ms : ℕ)
      → is_unexpired at a.refresh_ttl_seconds (at + ms) ≡ true
      → (p : JwtPayload) × (a.verify_refresh (at + ms) (a.sign_refresh u r jti at) ≡ some p)
        × (p.sub ≡ u)

pub record TokenPair : Type 0 where
  pub access_token : ℕ
  pub refresh_token : ℕ

pub record RegisterDto : Type 0 where
  pub email : Text
  pub password : Text
  pub phone : Option Text

abbrev pub reset_token_expiry_hours : ℕ
reset_token_expiry_hours = 1

-- The row of a registered user; the other columns have their defaults.
abbrev pub new_user : ℕ → RegisterDto → Text → ℕ → User
new_user id dto password now = record {
  id = id;
  email = dto.email;
  password = password;
  role = Role.user;
  push_token = none;
  display_name = none;
  phone = dto.phone;
  phone_verified_at = none;
  telegram_id = none;
  telegram_username = none;
  individual_subscription_active = false;
  subscription_expires_at = none;
  plan_id = none;
  on_shift = false;
  shift_started_at = none;
  deleted_at = none;
  created_at = now;
}

abbrev pub user_by_email : Text → User → Bool
user_by_email email u = text_eq u.email email

-- `user?.password ?? this.dummyHash`
abbrev pub hash_to_check : Text → Option User → Text
hash_to_check dummy none = dummy
hash_to_check dummy (some u) = u.password

-- `!user || user.deletedAt`
abbrev pub is_absent : Option User → Bool
is_absent none = true
is_absent (some u) = is_some u.deleted_at

abbrev pub unauthorized : Exception
unauthorized = http_exception status_401

abbrev pub invalid_credentials : Exception
invalid_credentials = app_exception ErrorCode.invalid_credentials status_401 no_details

-- `{ id: userId, pushToken: { not: null } }`
abbrev pub has_push_token : ℕ → User → Bool
has_push_token user_id u = (u.id == user_id) && is_some u.push_token

-- `!record || record.expiresAt < new Date()`
abbrev pub is_spent : ℕ → Option PasswordResetToken → Bool
is_spent now none = true
is_spent now (some r) = ltb r.expires_at now

abbrev pub phone_verify_ttl_seconds : ℕ
phone_verify_ttl_seconds = 600

pub record TelegramDto : Type 0 where
  pub token : Text
  pub phone : Text
  pub telegram_id : Text
  pub telegram_username : Option Text

-- `user.phone && user.phone !== dto.phone`; an empty text is false.
abbrev pub is_other_phone : Text → Option Text → Bool
is_other_phone phone none = false
is_other_phone phone (some []) = false
is_other_phone phone (some (c ∷ cs)) = not (text_eq (c ∷ cs) phone)

abbrev pub has_telegram : Text → User → Bool
has_telegram telegram_id u = elim u.telegram_id [ none ↦ false | some t ↦ text_eq t telegram_id ]

abbrev pub is_another : ℕ → Option User → Bool
is_another user_id none = false
is_another user_id (some u) = not (u.id == user_id)

abbrev pub verify_phone : ℕ → TelegramDto → User → User
verify_phone now dto u = record u {
  phone = some dto.phone;
  phone_verified_at = some now;
  telegram_id = some dto.telegram_id;
  telegram_username = dto.telegram_username;
}

module _ (s : Services) (a : AuthServices) where
  unfoldable pub generate_tokens : ℕ → Role → M TokenPair
  generate_tokens user_id role = do
    now ← read (λ w. w.now)
    jti ← draw_uuid s
    store s user_id (a.sign_refresh user_id role jti now) a.refresh_ttl_seconds
    pure (record {
      access_token = a.sign_access user_id role now;
      refresh_token = a.sign_refresh user_id role jti now;
    })

  unfoldable pub hash_password : Text → M Text
  hash_password password w = ok (s.bcrypt_hash w.drawn password) (record w { drawn = suc w.drawn })

  unfoldable pub register : RegisterDto → M TokenPair
  unfolding generate_tokens hash_password
  register dto = do
    existing ← read (λ w. s.find_first (user_by_email dto.email) w.users)
    when (is_some existing) (throw (conflict ErrorCode.email_already_registered no_details))
    hashed ← hash_password dto.password
    now ← read (λ w. w.now)
    id ← draw_uuid s
    modify (λ w. record w { users = new_user id dto hashed now ∷ w.users })
    generate_tokens id Role.user

  unfoldable pub login : Text → Text → M TokenPair
  unfolding generate_tokens
  login email password = do
    found ← read (λ w. s.find_first (user_by_email email) w.users)
    when (not (a.bcrypt_compare password (hash_to_check a.dummy_hash found)) || is_absent found)
        (throw invalid_credentials)
    u ← require found invalid_credentials
    generate_tokens u.id u.role

  unfoldable pub refresh : ℕ → M TokenPair
  unfolding generate_tokens
  refresh token = do
    verified ← read (λ w. a.verify_refresh w.now token)
    payload ← require verified unauthorized
    valid ← is_valid s payload.sub token
    when (not valid) (throw unauthorized)
    found ← read (λ w. s.find_first (user_by_id payload.sub) w.users)
    when (is_absent found) (throw unauthorized)
    u ← require found unauthorized
    remove s token
    generate_tokens u.id u.role

  unfoldable pub logout : ℕ → ℕ → M (Unit {0})
  logout user_id token = do
    remove s token
    update_users s (has_push_token user_id) (λ u. record u { push_token = none })
    skip

  unfoldable pub random_hex : M Text
  random_hex w = ok (s.random_hex w.drawn) (record w { drawn = suc w.drawn })

  -- The token, its row and the mail, for a user who is there.
  unfoldable pub mail_reset : Option User → Text → M (Unit {0})
  unfolding random_hex
  mail_reset none email = skip
  mail_reset (some u) email = when (not (is_some u.deleted_at)) (do
    token ← random_hex
    id ← draw_uuid s
    modify (λ w. record w {
      reset_tokens =
          record {
            id = id;
            user_id = u.id;
            token = token;
            expires_at = w.now + reset_token_expiry_hours * 60 * 60 * 1000;
          }
          ∷ w.reset_tokens;
      mailed = (email, token) ∷ w.mailed;
    }))

  -- An unknown or deleted address gets the same answer, and no mail.
  unfoldable pub forgot_password : Text → M (Unit {0})
  unfolding mail_reset
  forgot_password email = do
    when (not a.can_mail)
        (throw (app_exception ErrorCode.password_reset_unavailable status_503 no_details))
    found ← read (λ w. s.find_first (user_by_email email) w.users)
    mail_reset found email

  unfoldable pub reset_password : Text → Text → M (Unit {0})
  unfolding hash_password
  reset_password token password = do
    found ←
        read (λ w. s.find_first (λ (r : PasswordResetToken). text_eq r.token token) w.reset_tokens)
    now ← read (λ w. w.now)
    when (is_spent now found) (throw unauthorized)
    row ← require found unauthorized
    hashed ← hash_password password
    transaction (do
      update_user s (user_by_id row.user_id) (λ u. record u { password = hashed })
      modify (λ w. record w {
        reset_tokens = s.delete_many (λ (r : PasswordResetToken). r.id == row.id) w.reset_tokens;
      }))
    remove_all_for_user s row.user_id

  unfoldable pub start_telegram_verification : ℕ → M Text
  unfolding random_hex
  start_telegram_verification user_id = do
    token ← random_hex
    set_phone_verification_token s token user_id phone_verify_ttl_seconds
    pure token

  -- The token outlived the account.
  unfoldable pub discard_token : Text → Option User → M (Unit {0})
  discard_token token none = do
    delete_phone_verification_token s token
    throw (http_exception status_400)
  discard_token token (some u) = skip

  unfoldable pub confirm_telegram_verification : TelegramDto → M (Unit {0})
  unfolding discard_token
  confirm_telegram_verification dto = do
    held ← get_phone_verification_user_id s dto.token
    user_id ← require held (http_exception status_400)
    found ← read (λ w. s.find_first (user_by_id user_id) w.users)
    discard_token dto.token found
    u ← require found (http_exception status_400)
    when (is_other_phone dto.phone u.phone)
        (throw (bad_request ErrorCode.phone_mismatch no_details))
    linked ← read (λ w. s.find_first (has_telegram dto.telegram_id) w.users)
    when (is_another user_id linked)
        (throw (bad_request ErrorCode.telegram_already_linked no_details))
    now ← read (λ w. w.now)
    update_user s (user_by_id user_id) (verify_phone now dto)
    delete_phone_verification_token s dto.token
