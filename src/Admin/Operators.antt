-- ===== src/Admin/Operators.antt =====
-- modules/admin/admin.service.ts: the operators' accounts and shifts, and
-- common/constants/anonymize.ts.
use Prim.Native.String.{String}
use Prim.Native.Char.{code}
use aalam_security_back.Common.{
  ℕ, suc, ◌-◌, ◌*◌, Bool, true, false, Option, none, some, List, [], ◌∷◌, ◌++◌, if◌then◌else◌, ◌==◌,
  is_some, ◌&&◌, not, ltb,
}
use aalam_security_back.Schema.{
  Text, User, Role, OrganizationMember, PasswordResetToken, is_operator, text_eq,
}
use aalam_security_back.Presence.{
  online_threshold_ms, is_heartbeat_fresh, is_recent, parse_heartbeat,
}
use aalam_security_back.Presence.Decimal.{to_string}
use aalam_security_back.Errors.{
  ErrorCode, open_sessions, no_details, status_400, status_409, http_exception, not_found, conflict,
}
use aalam_security_back.Services.{Services}
use aalam_security_back.World.{
  World, ShiftEndReason, M, ◌>>=◌, ◌>>◌, pure, throw, read, modify, skip, when, require,
  transaction, update_user, draw_uuid, ok,
}
use aalam_security_back.Cache.{get_operator_heartbeat, get_operator_heartbeats, lookup_mark}
use aalam_security_back.Gateway.{emit_shift_ended, set_operator_shift_room, disconnect_user}
use aalam_security_back.Gateway.Connect.{is_user_on_shift}
use aalam_security_back.Queries.{user_by_id, is_open_of, lock_operator_row}
use aalam_security_back.Admin.Sessions.{is_live_operator}
use aalam_security_back.Tokens.{remove_all_for_user}

-- The code units of a literal.
abbrev pub codes : String → Text
codes String.[] = []
codes (String.◌∷◌ c s) = code c ∷ codes s

unfoldable pub anonymized_email_for : ℕ → Text
unfolding to_string
anonymized_email_for user_id = codes "deleted_" ++ (to_string user_id ++ codes "@deleted.local")

pub record OperatorView : Type 0 where
  pub operator : User
  pub is_online : Bool
  pub last_heartbeat_at : Option ℕ
  pub active_session_count : ℕ

pub record OperatorPage : Type 0 where
  pub rows : List OperatorView
  pub total : ℕ
  pub page : ℕ
  pub limit : ℕ

-- A field of the request that is absent is `none`; a field that may be set to null is a nested
-- `Option`.
pub record UpdateOperatorDto : Type 0 where
  pub email : Option Text
  pub display_name : Option (Option Text)
  pub phone : Option (Option Text)

abbrev pub or_keep {ℓ} : {A : Type ℓ} → Option A → A → A
or_keep none old = old
or_keep (some value) old = value

-- An empty text is false as a condition, like an absent one.
abbrev pub truthy : Option Text → Option Text
truthy none = none
truthy (some []) = none
truthy (some (c ∷ cs)) = some (c ∷ cs)

abbrev pub apply_update : UpdateOperatorDto → User → User
apply_update dto u = record u {
  email = or_keep (truthy dto.email) u.email;
  display_name = or_keep dto.display_name u.display_name;
  phone = or_keep dto.phone u.phone;
}

-- `{ email, NOT: { id } }`
abbrev pub takes_email : ℕ → Option Text → User → Bool
takes_email id none u = false
takes_email id (some email) u = text_eq u.email email && not (u.id == id)

-- `[{ onShift: 'desc' }, { email: 'asc' }]`, with the order of texts given.
abbrev pub on_shift_first : (Text → Text → Bool) → User → User → Bool
on_shift_first text_le a b = order a.on_shift b.on_shift
  where
    order : Bool → Bool → Bool
    order true false = true
    order false true = false
    order _ _ = text_le a.email b.email

abbrev pub anonymize : ℕ → Text → User → User
anonymize now password u = record u {
  email = anonymized_email_for u.id;
  password = password;
  display_name = none;
  phone = none;
  phone_verified_at = none;
  push_token = none;
  telegram_id = none;
  telegram_username = none;
  on_shift = false;
  shift_started_at = none;
  deleted_at = some now;
}

abbrev pub set_shift : ℕ → Bool → User → User
set_shift now on_shift u = record u {
  on_shift = on_shift;
  shift_started_at = if on_shift then some now else none;
}

-- The row of an operator created with an email and a hash; the other columns have their defaults.
abbrev pub new_operator : ℕ → Text → Text → ℕ → User
new_operator id email password now = record {
  id = id;
  email = email;
  password = password;
  role = Role.operator;
  push_token = none;
  display_name = none;
  phone = none;
  phone_verified_at = none;
  telegram_id = none;
  telegram_username = none;
  individual_subscription_active = false;
  subscription_expires_at = none;
  plan_id = none;
  on_shift = false;
  shift_started_at = none;
  deleted_at = none;
  created_at = now;
}

-- `mark ? new Date(mark) : null`
abbrev pub nonzero : Option ℕ → Option ℕ
nonzero none = none
nonzero (some ts) = if ts == 0 then none else some ts

-- `operators.map(op => op.id)`
abbrev pub ids_of : List User → List ℕ
ids_of [] = []
ids_of (u ∷ us) = u.id ∷ ids_of us

module _ (s : Services) where
  -- `bcrypt.hash`, with a salt of its own.
  unfoldable pub bcrypt_hash : Text → M Text
  bcrypt_hash password w = ok (s.bcrypt_hash w.drawn password) (record w { drawn = suc w.drawn })

  unfoldable pub random_hex : M Text
  random_hex w = ok (s.random_hex w.drawn) (record w { drawn = suc w.drawn })

  find_operator : ℕ → M (Option User)
  find_operator id = read (λ w. s.find_first (λ u. u.id == id && is_live_operator u) w.users)

  count_open_of : ℕ → M ℕ
  count_open_of id = read (λ w. s.count_rows (is_open_of id) w.sessions)

  view_of : World → Option ℕ → Bool → User → OperatorView
  view_of w mark online u = record {
    operator = u;
    is_online = online;
    last_heartbeat_at = nonzero mark;
    active_session_count = s.count_rows (is_open_of u.id) w.sessions;
  }

  is_online : ℕ → Option ℕ → Bool
  is_online now none = false
  is_online now (some ts) = is_recent now ts online_threshold_ms

  views : World → List (ℕ × ℕ) → List User → List OperatorView
  unfolding view_of is_online
  views w marks [] = []
  views w marks (u ∷ us) =
      view_of w (lookup_mark u.id marks) (is_online w.now (lookup_mark u.id marks)) u
      ∷ views w marks us

  unfoldable pub get_operators : (Text → Text → Bool) → ℕ → ℕ → M OperatorPage
  unfolding views
  get_operators text_le page limit = do
    found ← read (λ w.
        s.find_page is_live_operator (on_shift_first text_le) ((page - 1) * limit) limit w.users)
    total ← read (λ w. s.count_rows is_live_operator w.users)
    marks ← get_operator_heartbeats s (ids_of found)
    rows ← read (λ w. views w marks found)
    pure (record { rows = rows; total = total; page = page; limit = limit })

  unfoldable pub get_operator_by_id : ℕ → M OperatorView
  unfolding find_operator view_of
  get_operator_by_id operator_id = do
    found ← find_operator operator_id
    u ← require found (not_found ErrorCode.operator_not_found no_details)
    raw ← get_operator_heartbeat s operator_id
    read (λ w. view_of w (parse_heartbeat raw) (is_heartbeat_fresh w.now raw online_threshold_ms) u)

  assert_operator_exists : ℕ → M (Unit {0})
  unfolding find_operator
  assert_operator_exists operator_id = do
    found ← find_operator operator_id
    u ← require found (not_found ErrorCode.operator_not_found no_details)
    skip

  unfoldable pub update_operator : ℕ → UpdateOperatorDto → M User
  unfolding assert_operator_exists
  update_operator operator_id dto = do
    assert_operator_exists operator_id
    taken ← read (λ w. s.find_first (takes_email operator_id (truthy dto.email)) w.users)
    when (is_some taken) (throw (conflict ErrorCode.email_already_registered no_details))
    update_user s (user_by_id operator_id) (apply_update dto)

  unfoldable pub set_operator_password : ℕ → Text → M (Unit {0})
  unfolding assert_operator_exists bcrypt_hash
  set_operator_password operator_id password = do
    assert_operator_exists operator_id
    hashed ← bcrypt_hash password
    update_user s (user_by_id operator_id) (λ u. record u { password = hashed })
    remove_all_for_user s operator_id

  -- The transaction of `deleteOperator`; its result is `wasOnShift`.
  unfoldable pub erase_operator : ℕ → Text → M Bool
  unfolding count_open_of
  erase_operator operator_id unusable_password = do
    lock_operator_row operator_id
    count ← count_open_of operator_id
    when (ltb 0 count) (throw (conflict ErrorCode.shift_has_open_sessions (open_sessions count)))
    before ← read (λ w. s.find_first (user_by_id operator_id) w.users)
    modify (λ w. record w {
      members = s.delete_many (λ (m : OrganizationMember). m.user_id == operator_id) w.members;
      reset_tokens =
          s.delete_many (λ (t : PasswordResetToken). t.user_id == operator_id) w.reset_tokens;
    })
    now ← read (λ w. w.now)
    update_user s (user_by_id operator_id) (anonymize now unusable_password)
    pure (is_user_on_shift before)

  unfoldable pub delete_operator : ℕ → M (Unit {0})
  unfolding assert_operator_exists bcrypt_hash random_hex erase_operator
  delete_operator operator_id = do
    assert_operator_exists operator_id
    hex ← random_hex
    unusable_password ← bcrypt_hash hex
    was_on_shift ← transaction (erase_operator operator_id unusable_password)
    remove_all_for_user s operator_id
    when was_on_shift (do
      emit_shift_ended operator_id ShiftEndReason.by_admin
      set_operator_shift_room s operator_id false)
    disconnect_user s operator_id

  -- The transaction of `setOperatorShift`.
  unfoldable pub change_shift : ℕ → Bool → M User
  unfolding count_open_of
  change_shift operator_id on_shift = do
    lock_operator_row operator_id
    count ← count_open_of operator_id
    when (not on_shift && ltb 0 count) (throw (http_exception status_409))
    now ← read (λ w. w.now)
    update_user s (user_by_id operator_id) (set_shift now on_shift)

  unfoldable pub set_operator_shift : ℕ → Bool → M User
  unfolding change_shift
  set_operator_shift operator_id on_shift = do
    found ← read (λ w. s.find_first (user_by_id operator_id) w.users)
    operator ← require found (http_exception status_400)
    when (not (is_operator operator.role)) (throw (http_exception status_400))
    updated ← transaction (change_shift operator_id on_shift)
    when (not on_shift) (emit_shift_ended operator_id ShiftEndReason.by_admin)
    set_operator_shift_room s operator_id on_shift
    pure updated

  unfoldable pub create_operator : Text → Text → M User
  unfolding bcrypt_hash
  create_operator email password = do
    existing ← read (λ w. s.find_first (λ (u : User). text_eq u.email email) w.users)
    when (is_some existing) (throw (http_exception status_409))
    hashed ← bcrypt_hash password
    now ← read (λ w. w.now)
    id ← draw_uuid s
    modify (λ w. record w { users = new_operator id email hashed now ∷ w.users })
    pure (new_operator id email hashed now)
