-- ===== src/Tests/People.antt =====
-- The theorems on accounts, subscriptions and calls under way at small inputs.
use aalam_security_back.Common.{◌≡◌, refl, none, some, [], ◌∷◌, arith, All}
use aalam_security_back.Schema.{Role, text_eq}
use aalam_security_back.Errors.{status_409, http_exception}
use aalam_security_back.Rows.{find}
use aalam_security_back.World.{after, result, raised, running}
use aalam_security_back.Cache.Locks.{elapse}
use aalam_security_back.Tokens.{store, is_valid, accepts, remove, remove_all_for_user}
use aalam_security_back.Auth.{
  TokenPair, unauthorized, invalid_credentials, generate_tokens, hash_password, login, refresh,
  reset_password,
}
use aalam_security_back.Auth.Credentials.{login-raised, reset_password-once}
use aalam_security_back.Auth.Rotation.{refresh-replay, refresh-refresh}
use aalam_security_back.Subscriptions.{
  request_by_id, approve_subscription_request, reject_subscription_request, decide_grant, grant,
  decide_request, announce_approval, get_subscription_request_by_id, approve_until,
}
use aalam_security_back.Subscriptions.Decisions.{approve-reject, approve-place}
use aalam_security_back.Push.{
  send_subscription_decision, send_to, post_to_expo, post_loop, post_batch, clear_dead_tokens,
  clear_tokens,
}
use aalam_security_back.Emergency.Placement.{place}
use aalam_security_back.Users.{register_push_token}
use aalam_security_back.Users.Devices.{OwnedBy, register_push_token-OwnedBy}
use aalam_security_back.Dispatch.{start_progress}
use aalam_security_back.Dispatch.Progress.{start_progress-raised}
use aalam_security_back.Tests.Pairing.{pair}
use aalam_security_back.Tests.Fixtures.{
  services, documented, auth, jti_documented, lifetime_documented, night, busy, day, waiting,
}

login-raised_example : raised (login services auth [] (1 ∷ []) night) ≡ some invalid_credentials
unfolding text_eq
login-raised_example = login-raised services documented auth [] (1 ∷ []) night

reset_works : raised (reset_password services auth (7 ∷ []) (1 ∷ []) day) ≡ none
unfolding reset_password hash_password remove_all_for_user text_eq running
reset_works = refl

reset_password-once_example :
    raised (
      reset_password services auth
        (7 ∷ [])
        (2 ∷ [])
        (after (reset_password services auth (7 ∷ []) (1 ∷ []) day)))
    ≡ some unauthorized
unfolding text_eq
reset_password-once_example =
    reset_password-once services documented auth (7 ∷ []) (1 ∷ []) (2 ∷ []) day (omega arith)
      reset_works

abbrev fresh_pair : TokenPair
fresh_pair = record { access_token = 0; refresh_token = pair 3 10 }

refresh_works : result (refresh services auth (pair 3 5) day) ≡ some fresh_pair
unfolding refresh generate_tokens store remove is_valid accepts running
refresh_works = refl

refresh-replay_example :
    raised (refresh services auth (pair 3 5) (after (refresh services auth (pair 3 5) day)))
    ≡ some unauthorized
refresh-replay_example =
    refresh-replay services documented auth jti_documented (pair 3 5) day fresh_pair 3 Role.user 5 0
      refl (omega arith) refresh_works

refresh-refresh_example :
    raised (
      refresh services auth
        (pair 3 10)
        (elapse 1000 (after (refresh services auth (pair 3 5) day))))
    ≡ none
refresh-refresh_example =
    refresh-refresh services documented auth lifetime_documented (pair 3 5) day fresh_pair 1000 refl
      refresh_works

approval_works : raised (approve_subscription_request services 20 9 (some 90000) day) ≡ none
unfolding approve_subscription_request decide_grant grant decide_request announce_approval
    get_subscription_request_by_id send_subscription_decision send_to post_to_expo post_loop
    post_batch clear_dead_tokens clear_tokens running
approval_works = refl

approve-reject_example :
    raised (
      reject_subscription_request services 20 none
        (after (approve_subscription_request services 20 9 (some 90000) day)))
    ≡ some (http_exception status_409)
approve-reject_example =
    approve-reject services documented 20 9 90000 none day (omega arith) approval_works

approval_found :
    find
      (request_by_id 20)
      (after (approve_subscription_request services 20 9 (some 90000) day)).requests
    ≡ some (approve_until 9 1000 90000 waiting)
unfolding approve_subscription_request decide_grant grant decide_request announce_approval
    get_subscription_request_by_id send_subscription_decision send_to post_to_expo post_loop
    post_batch clear_dead_tokens clear_tokens running
approval_found = refl

approve-place_example :
    raised
      (place services 4 none (after (approve_subscription_request services 20 9 (some 90000) day)))
    ≡ none
approve-place_example =
    approve-place services documented 20 9 90000 (approve_until 9 1000 90000 waiting) day
      (omega arith) approval_works approval_found

registers : raised (register_push_token services 2 100 night) ≡ none
unfolding register_push_token running
registers = refl

register_push_token-OwnedBy_example :
    All (OwnedBy 2 100) (after (register_push_token services 2 100 night)).users
register_push_token-OwnedBy_example =
    register_push_token-OwnedBy services documented 2 100 night registers

start_progress-raised_example : raised (start_progress services 7 1 busy) ≡ none
start_progress-raised_example = start_progress-raised services documented 7 1 busy
