-- ===== src/Users.antt =====
-- modules/users/users.service.ts: a person's own account.
pub mod Devices
use aalam_security_back.Common.{
  ℕ, suc, Bool, true, false, Option, none, some, List, [], ◌∷◌, ◌==◌, is_some, ◌&&◌, ◌||◌, not,
  holds,
}
use aalam_security_back.Schema.{
  Text, User, OrganizationMember, PasswordResetToken, SubscriptionRequest, EmergencyContact,
  OrganizationApplication, is_user, is_pending, is_closed, text_eq,
}
use aalam_security_back.Errors.{
  ErrorCode, status_404, http_exception, no_details, forbidden, conflict,
}
use aalam_security_back.Services.{Services}
use aalam_security_back.World.{
  World, M, ◌>>=◌, ◌>>◌, pure, throw, read, modify, skip, when, require, transaction, update_user,
  update_users, ok,
}
use aalam_security_back.Queries.{user_by_id}
use aalam_security_back.Emergency.{is_active_of}
use aalam_security_back.Tokens.{remove_all_for_user}
use aalam_security_back.Admin.Operators.{anonymized_email_for}

-- An absent display name is `none`; the phone is required.
pub record UpdateUserMeDto : Type 0 where
  pub display_name : Option Text
  pub phone : Text

abbrev pub or_keep_name : Option Text → Option Text → Option Text
or_keep_name none old = old
or_keep_name (some name) old = some name

abbrev pub is_same_phone : Text → Option Text → Bool
is_same_phone phone none = false
is_same_phone phone (some p) = text_eq p phone

-- Another number is an unverified one.
abbrev pub verified_at : Bool → Option ℕ → Option ℕ
verified_at true at = at
verified_at false at = none

abbrev pub has_other_phone : Text → Option User → Bool
has_other_phone phone none = false
has_other_phone phone (some u) = not (is_same_phone phone u.phone)

abbrev pub update_profile : UpdateUserMeDto → Bool → User → User
update_profile dto other u = record u {
  display_name = or_keep_name dto.display_name u.display_name;
  phone = some dto.phone;
  phone_verified_at = verified_at (not other) u.phone_verified_at;
}

-- `{ pushToken, NOT: { id: userId } }`
abbrev pub is_others_token : ℕ → ℕ → User → Bool
is_others_token user_id push_token u = holds u.push_token push_token && not (u.id == user_id)

abbrev pub erase_account : ℕ → Text → User → User
erase_account now password u = record u {
  email = anonymized_email_for u.id;
  password = password;
  display_name = none;
  phone = none;
  phone_verified_at = none;
  push_token = none;
  telegram_id = none;
  telegram_username = none;
  individual_subscription_active = false;
  subscription_expires_at = none;
  plan_id = none;
  deleted_at = some now;
}

module _ (s : Services) where
  unfoldable pub find_me : ℕ → M User
  find_me user_id = do
    found ← read (λ w. s.find_first (user_by_id user_id) w.users)
    require found (http_exception status_404)

  unfoldable pub update_me : ℕ → UpdateUserMeDto → M User
  unfolding find_me
  update_me user_id dto = do
    current ← read (λ w. s.find_first (user_by_id user_id) w.users)
    update_user s (user_by_id user_id) (update_profile dto (has_other_phone dto.phone current))
    find_me user_id

  -- The first argument says whether the environment is production.
  unfoldable pub activate_demo : Bool → ℕ → M User
  unfolding find_me
  activate_demo production user_id = do
    when production (throw (forbidden ErrorCode.demo_disabled no_details))
    update_user s (user_by_id user_id) (λ u. record u { individual_subscription_active = true })
    find_me user_id

  unfoldable pub register_push_token : ℕ → ℕ → M User
  register_push_token user_id push_token = transaction (do
    update_users s (is_others_token user_id push_token) (λ u. record u { push_token = none })
    update_user s (user_by_id user_id) (λ u. record u { push_token = some push_token }))

  unfoldable pub unusable_password : M Text
  unusable_password w =
      ok (s.bcrypt_hash (suc w.drawn) (s.random_hex w.drawn))
        (record w { drawn = suc (suc w.drawn) })

  -- The transaction of `deleteAccount`.
  unfoldable pub wipe : ℕ → Text → ℕ → M User
  wipe user_id password now = do
    modify (λ w. record w {
      members = s.delete_many (λ (m : OrganizationMember). m.user_id == user_id) w.members;
      contacts = s.delete_many (λ (c : EmergencyContact). c.user_id == user_id) w.contacts;
      reset_tokens =
          s.delete_many (λ (t : PasswordResetToken). t.user_id == user_id) w.reset_tokens;
      applications =
          s.delete_many
            (λ (x : OrganizationApplication). x.user_id == user_id && is_pending x.status)
            w.applications;
      requests =
          s.delete_many (λ (r : SubscriptionRequest). r.user_id == user_id && is_pending r.status)
            w.requests;
    })
    update_user s (user_by_id user_id) (erase_account now password)

  unfoldable pub erase_and_revoke : ℕ → M (Unit {0})
  unfolding unusable_password wipe
  erase_and_revoke user_id = do
    password ← unusable_password
    now ← read (λ w. w.now)
    transaction (wipe user_id password now)
    remove_all_for_user s user_id

  -- What `deleteAccount` does for a user who is not deleted yet.
  unfoldable pub erase_user : User → M (Unit {0})
  unfolding erase_and_revoke
  erase_user u = do
    when (not (is_user u.role)) (throw (forbidden ErrorCode.staff_cannot_self_delete no_details))
    active ← read (λ w. s.find_first (is_active_of u.id) w.sessions)
    when (is_some active) (throw (conflict ErrorCode.active_sos_blocks_delete no_details))
    erase_and_revoke u.id

  unfoldable pub delete_account : ℕ → M (Unit {0})
  unfolding erase_user
  delete_account user_id = do
    found ← read (λ w. s.find_first (user_by_id user_id) w.users)
    u ← require found (http_exception status_404)
    when (not (is_some u.deleted_at)) (erase_user u)
