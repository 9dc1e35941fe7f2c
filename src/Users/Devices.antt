-- ===== src/Users/Devices.antt =====
-- One device, one owner of its push token, in modules/users/users.service.ts.
use aalam_security_back.Common.{ℕ, ◌≡◌, true, none, some, List, [], ◌∷◌, arith, holds, All}
use aalam_security_back.Schema.{User}
use aalam_security_back.Services.{Services, Documented, computing, services-eq}
use aalam_security_back.Rows.{set_all}
use aalam_security_back.Rows.Counts.{All-set_first}
use aalam_security_back.World.{World, after, raised, running}
use aalam_security_back.Queries.{user_by_id}
use aalam_security_back.Users.{is_others_token, register_push_token}

abbrev pub OwnedBy : ℕ → ℕ → User → Type 0
OwnedBy user_id push_token u = holds u.push_token push_token ≡ true → u.id ≡ user_id

abbrev without_token : User → User
without_token u = record u { push_token = none }

taken_back :
    (user_id push_token : ℕ) (t : List User)
    → All
        (OwnedBy user_id push_token)
        (set_all (is_others_token user_id push_token) without_token t)
taken_back user_id push_token [] = tt
taken_back user_id push_token (u ∷ us) = ((λ held. ground arith), taken_back user_id push_token us)

registered_computing :
    (s : Services) (user_id push_token : ℕ) (w : World)
    → raised (register_push_token (computing s) user_id push_token w) ≡ none
    → All
        (OwnedBy user_id push_token)
        (after (register_push_token (computing s) user_id push_token w)).users
unfolding register_push_token running
registered_computing s user_id push_token w done = ground (
  arith,
  All-set_first (user_by_id user_id) (user_by_id user_id)
      (λ u. record u { push_token = some push_token }) (OwnedBy user_id push_token)
      (λ u hit own held. ground arith)
      (set_all (is_others_token user_id push_token) without_token w.users)
      (taken_back user_id push_token w.users),
)

-- A device alerts one person: after a push token is registered, nobody but the user who registered it
-- has it, so an SOS never goes to the device's former owner.
pub register_push_token-OwnedBy :
    (s : Services) (d : Documented s) (user_id push_token : ℕ) (w : World)
    → raised (register_push_token s user_id push_token w) ≡ none
    → All (OwnedBy user_id push_token) (after (register_push_token s user_id push_token w)).users
register_push_token-OwnedBy s d = rw (services-eq d) (registered_computing s)
