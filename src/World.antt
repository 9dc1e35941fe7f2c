-- ===== src/World.antt =====
-- The state that the program's handlers read and write: the tables, the keys of Redis, the
-- connected sockets, and logs of what went out; and the monad of an asynchronous handler.
pub mod Keeps
pub mod Triples
pub mod Quiet
use aalam_security_back.Common.{
  ℕ, suc, Bool, true, false, Option, none, some, List, if◌then◌else◌, ◌==◌,
}
use aalam_security_back.Schema.{
  Text, User, EmergencySession, EmergencyLocation, OrganizationMember, Organization, Venue,
  RefreshToken, PasswordResetToken, SubscriptionRequest, EmergencyContact, OrganizationApplication,
}
use aalam_security_back.Rows.{Entry}
use aalam_security_back.Errors.{Exception, is_prisma_row_not_found}
use aalam_security_back.Services.{Services, Room, Socket}

pub data LockKey : Type 0 where
  sos_trigger : ℕ → LockKey
  stale_assignments expire_subscriptions : LockKey

abbrev pub lock_key_eq : LockKey → LockKey → Bool
lock_key_eq (sos_trigger a) (sos_trigger b) = a == b
lock_key_eq stale_assignments stale_assignments = true
lock_key_eq expire_subscriptions expire_subscriptions = true
lock_key_eq _ _ = false

-- The events of the gateway.
pub data Event : Type 0 where
  auth_expiring emergency_bootstrap emergency_new emergency_assigned emergency_closed : Event
  emergency_in_progress emergency_reassigned emergency_location_update : Event
  emergency_pool_removed operator_shift_ended : Event
  subscription_approved subscription_rejected : Event

pub data ShiftEndReason : Type 0 where
  inactivity by_admin : ShiftEndReason

-- A session goes out with the rows that `include` joins to it; those are not repeated here.
pub data Payload : Type 0 where
  session_card : EmergencySession → Payload
  session_location : EmergencySession → EmergencyLocation → Payload
  session_id : ℕ → Payload
  shift_reason : ShiftEndReason → Payload
  request_expires : ℕ → Option ℕ → Payload
  request_reason : ℕ → Option Text → Payload

-- `server.to(rooms).except(excluded).emit(event, payload)`
pub record Emission : Type 0 where
  pub rooms : List Room
  pub excluded : List Room
  pub event : Event
  pub payload : Payload

pub data PushKind : Type 0 where
  push_emergency_new push_emergency_assigned : ℕ → PushKind
  push_subscription_decision : ℕ → PushKind

pub record PushMessage : Type 0 where
  pub to : ℕ
  pub kind : PushKind

-- `client.emit('emergency:bootstrap', …)`; an administrator's snapshot has no `onShift`.
pub record Bootstrap : Type 0 where
  pub user_id : ℕ
  pub sessions : List EmergencySession
  pub on_shift : Option Bool

pub record World : Type 0 where
  -- `Date.now()`
  pub now : ℕ
  -- how many identifiers have been drawn
  pub drawn : ℕ
  pub redis_up : Bool
  pub users : List User
  pub sessions : List EmergencySession
  pub locations : List EmergencyLocation
  pub members : List OrganizationMember
  pub organizations : List Organization
  pub venues : List Venue
  pub refresh_tokens : List RefreshToken
  pub reset_tokens : List PasswordResetToken
  pub requests : List SubscriptionRequest
  pub contacts : List EmergencyContact
  pub applications : List OrganizationApplication
  -- operator:<id>:heartbeat
  pub heartbeats : List (Entry ℕ Text)
  -- phone-verify:<token>
  pub phone_tokens : List (Entry Text ℕ)
  -- sos:trigger:<id>, cron:stale-assignments, cron:expire-subscriptions
  pub locks : List (Entry LockKey ℕ)
  pub sockets : List Socket
  -- newest first
  pub emitted : List Emission
  pub bootstraps : List Bootstrap
  -- the batches posted to Expo, newest first
  pub pushed : List (List PushMessage)
  -- the mails with a link to reset a password: the address and the link's token, newest first
  pub mailed : List (Text × Text)

pub data Outcome {ℓ} (A : Type ℓ) : Type ℓ where
  ok : A → World → Outcome A
  thrown : Exception → World → Outcome A

abbrev pub after {ℓ} : {A : Type ℓ} → Outcome A → World
after (ok a w) = w
after (thrown e w) = w

abbrev pub result {ℓ} : {A : Type ℓ} → Outcome A → Option A
result (ok a w) = some a
result (thrown e w) = none

-- The exception, where there is one.
abbrev pub raised {ℓ} : {A : Type ℓ} → Outcome A → Option Exception
raised (ok a w) = none
raised (thrown e w) = some e

-- An asynchronous handler.
abbrev pub M : Type 0 → Type 0
M A = World → Outcome A

infixl 5 ◌>>=◌ ◌>>◌
unfoldable pub ◌>>=◌ : {A B : Type 0} → M A → (A → M B) → M B
◌>>=◌ m f w = elim (m w) [ ok a w' ↦ f a w' | thrown e w' ↦ thrown e w' ]

unfoldable pub ◌>>◌ : {A B : Type 0} → M A → M B → M B
unfolding ◌>>=◌
m >> k = m >>= λ _. k

unfoldable pub pure : {A : Type 0} → A → M A
pure a w = ok a w

unfoldable pub throw : {A : Type 0} → Exception → M A
throw e w = thrown e w

unfoldable pub skip : M (Unit {0})
skip w = ok tt w

unfoldable pub when : Bool → M (Unit {0}) → M (Unit {0})
unfolding skip
when true m = m
when false m = skip

-- What the handler reads of the state.
unfoldable pub read : {A : Type 0} → (World → A) → M A
read f w = ok (f w) w

unfoldable pub modify : (World → World) → M (Unit {0})
modify f w = ok tt (f w)

unfoldable pub try_catch : {A : Type 0} → M A → (Exception → M A) → M A
try_catch m handler w = elim (m w) [ ok a w' ↦ ok a w' | thrown e w' ↦ handler e w' ]

-- `catch (err) { if (!isPrismaRowNotFound(err)) throw err; … }`
unfoldable pub catch_not_found : {A : Type 0} → M A → M A → M A
unfolding try_catch
catch_not_found m handler =
    try_catch m (λ e w. if is_prisma_row_not_found e then handler w else thrown e w)

unfoldable pub finally : {A : Type 0} → M A → M (Unit {0}) → M A
unfolding ◌>>◌ pure throw
finally m last w = elim (m w) [ ok a w' ↦ (last >> pure a) w' | thrown e w' ↦ (last >> throw e) w' ]

-- `$transaction`: an exception rolls back what was written.
unfoldable pub transaction : {A : Type 0} → M A → M A
transaction m w = elim (m w) [ ok a w' ↦ ok a w' | thrown e _ ↦ thrown e w ]

-- The Boolean form of `!value`.
unfoldable pub require {ℓ} : {A : Type ℓ} → Option A → Exception → World → Outcome A
require none e w = thrown e w
require (some a) e w = ok a w

-- `emergencySession.update` and `user.update`, with the row that they return.
unfoldable pub update_session :
    Services
    → (EmergencySession → Bool)
    → (EmergencySession → EmergencySession)
    → M EmergencySession
update_session s p f w = elim (s.update p f w.sessions) [
  | none ↦ thrown Exception.row_not_found w
  | some (row, t) ↦ ok row (record w { sessions = t })
]

unfoldable pub update_user : Services → (User → Bool) → (User → User) → M User
update_user s p f w = elim (s.update p f w.users) [
  | none ↦ thrown Exception.row_not_found w
  | some (row, t) ↦ ok row (record w { users = t })
]

-- `user.updateMany`, with its count.
unfoldable pub update_users : Services → (User → Bool) → (User → User) → M ℕ
update_users s p f w = ok (s.count_rows p w.users) (record w { users = s.update_many p f w.users })

unfoldable pub draw_uuid : Services → M ℕ
draw_uuid s w = ok (s.uuid w.drawn) (record w { drawn = suc w.drawn })

-- A command to Redis fails while the connection is down.
unfoldable pub redis : {A : Type 0} → M A → M A
redis m w = if w.redis_up then m w else thrown Exception.redis_unavailable w

-- All of the above: a proof that runs a handler names this one.
unfoldable pub running : Unit {0}
unfolding ◌>>=◌ ◌>>◌ pure throw skip when read modify try_catch catch_not_found finally transaction
    require update_session update_user update_users draw_uuid redis
running = tt
