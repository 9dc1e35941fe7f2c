-- ===== src/Tests/Fixtures.antt =====
-- Services that compute and the states of a small desk: two operators on shift, a subscriber and an
-- open SOS of theirs.
use aalam_security_back.Common.{
  ℕ, ◌+◌, ◌*◌, refl, sym, ap, ◌∙◌, Bool, true, false, none, some, List, [], ◌∷◌,
}
use aalam_security_back.Schema.{
  Text, text_eq, SubscriptionRequest, pending, Role, User, EmergencySession, EmergencyStatus,
  EmergencyType,
}
use aalam_security_back.Services.{
  Services, Documented, reference, tickets, Socket, operator_room, on_shift_room, operators,
}
use aalam_security_back.Auth.{AuthServices, JtiDocumented, LifetimeDocumented}
use aalam_security_back.Venues.{Letters}
use aalam_security_back.Venues.Creation.{CreateVenueDto, new_venue}
use aalam_security_back.Tests.Pairing.{pair, split, split-pair}
use aalam_security_back.World.{World}

abbrev pub services : Services
services =
    reference (λ now tokens. tickets []) (λ now token. some (record { sub = token; exp = none }))
      (λ token. token) (λ salt password. password) (λ n. []) (λ n. n)

pub documented : Documented services
documented = record {
  find_first_lem = λ p t. refl;
  find_many_lem = λ p t. refl;
  find_page_lem = λ p before skip limit t. refl;
  find_sorted_lem = λ p before t. refl;
  count_lem = λ p t. refl;
  update_lem = λ p f t. refl;
  find_distinct_lem = λ p same t. refl;
  update_many_lem = λ p f t. refl;
  delete_many_lem = λ p t. refl;
  get_lem = λ at now es. refl;
  set_lem = λ at e es. refl;
  set_nx_lem = λ at now e es. refl;
  del_lem = λ at es. refl;
  join_lem = λ at r ss. refl;
  leave_lem = λ at r ss. refl;
  fetch_lem = λ at ss. refl;
  disconnect_lem = λ rooms ss. refl;
  sha256_injective = λ a b e. e;
  uuid_injective = λ m n e. e;
}

abbrev pub person : ℕ → Role → Bool → Bool → User
person id role on_shift subscribed = record {
  id = id;
  email = [];
  password = [];
  role = role;
  push_token = some (id * 100);
  display_name = none;
  phone = none;
  phone_verified_at = none;
  telegram_id = none;
  telegram_username = none;
  individual_subscription_active = subscribed;
  subscription_expires_at = none;
  plan_id = none;
  on_shift = on_shift;
  shift_started_at = none;
  deleted_at = none;
  created_at = 0;
}

abbrev pub staff : List User
staff =
    person 1 Role.operator true false
    ∷ person 2 Role.operator true false
    ∷ person 3 Role.user false true
    ∷ person 4 Role.user false false
    ∷ []

abbrev pub called : Text → CreateVenueDto
called name = record {
  name = name;
  address = none;
  apartment = none;
  floor = none;
  entrance = none;
  door_code = none;
  address_notes = none;
  latitude = some 42;
  longitude = some 74;
}

abbrev pub night : World
night = record {
  now = 1000;
  drawn = 10;
  redis_up = true;
  users = staff;
  sessions = [];
  locations = [];
  members = [];
  organizations = record { id = 6; name = 1 ∷ []; slug = 2 ∷ []; invite_code = none } ∷ [];
  venues = new_venue 5 6 (called (3 ∷ [])) (65 ∷ 66 ∷ []) 0 ∷ [];
  refresh_tokens = [];
  reset_tokens = [];
  requests = [];
  contacts = [];
  applications = [];
  heartbeats = [];
  phone_tokens = [];
  locks = [];
  sockets = [];
  emitted = [];
  bootstraps = [];
  pushed = [];
  mailed = [];
}

abbrev pub sos : EmergencySession
sos = record {
  id = 7;
  user_id = 3;
  organization_id = none;
  venue_id = none;
  status = EmergencyStatus.new;
  emergency_type = EmergencyType.personal;
  assigned_operator_id = none;
  created_at = 900;
  closed_at = none;
  resolution = none;
}

abbrev pub ended : EmergencySession
ended = record sos {
  id = 8;
  status = EmergencyStatus.closed;
  created_at = 950;
  closed_at = some 980;
}

abbrev pub alarm : World
alarm = record night { sessions = sos ∷ ended ∷ [] }

-- Operator 1 leads the call.
abbrev pub busy : World
busy = record night {
  sessions = record sos { status = EmergencyStatus.assigned; assigned_operator_id = some 1 } ∷ [];
}

abbrev pub client : Socket
client = record {
  user_id = 1;
  rooms = operators ∷ operator_room 1 ∷ on_shift_room ∷ [];
  warn_at = none;
  kill_at = none;
}

-- Tokens that carry their user and their `jti`, valid for a day.
abbrev pub auth : AuthServices
auth = record {
  sign_access = λ user_id role at. 0;
  sign_refresh = λ user_id role jti at. pair user_id jti;
  verify_refresh = λ now token. some (record { sub = (split token).0; exp = none });
  bcrypt_compare = λ password hash. text_eq password hash;
  dummy_hash = [];
  refresh_ttl_seconds = 86400;
  can_mail = true;
}

pub jti_documented : JtiDocumented auth
jti_documented = record {
  jti_apart = λ u u' r r' jti jti' at at' e.
      ap (λ (x : ℕ × ℕ). x.1) (sym (split-pair u jti) ∙ (ap split e ∙ split-pair u' jti'));
}

pub lifetime_documented : LifetimeDocumented auth
lifetime_documented = record {
  verifies = λ u r jti at ms soon. (
    record { sub = (split (pair u jti)).0; exp = none },
    refl,
    ap (λ (x : ℕ × ℕ). x.0) (split-pair u jti),
  );
}

-- The subscriber's refresh token, and a request that waits for a decision.
abbrev pub waiting : SubscriptionRequest
waiting = record {
  id = 20;
  user_id = 4;
  comment = none;
  status = pending;
  rejection_reason = none;
  approved_by = none;
  approved_at = none;
  expires_at = none;
  created_at = 0;
}

abbrev pub day : World
day = record night {
  requests = waiting ∷ [];
  refresh_tokens = record { user_id = 3; token_hash = pair 3 5; expires_at = 5000000 } ∷ [];
  reset_tokens = record { id = 30; user_id = 3; token = 7 ∷ []; expires_at = 5000000 } ∷ [];
}

abbrev pub capitals : Letters
capitals = record { to_lower_case = λ t. t; to_upper_case = λ t. t; equals_insensitive = text_eq }

-- The nth draw is six bytes from n on.
abbrev pub bytes : ℕ → List ℕ
bytes n = n ∷ (n + 1) ∷ (n + 2) ∷ (n + 3) ∷ (n + 4) ∷ (n + 5) ∷ []
