-- ===== src/Tests/Callers.antt =====
-- The theorems on guards and controllers at a small desk.
use aalam_security_back.Common.{◌≡◌, refl, true, false, none, some, [], ◌∷◌}
use aalam_security_back.Errors.{status_401, http_exception}
use aalam_security_back.World.{after, result, thrown, raised, running}
use aalam_security_back.Gateway.{set_operator_shift_room, disconnect_user}
use aalam_security_back.Tokens.{remove_all_for_user}
use aalam_security_back.Admin.Sessions.{is_live_operator}
use aalam_security_back.Admin.Operators.{bcrypt_hash, random_hex, erase_operator, delete_operator}
use aalam_security_back.Guards.{check_secret}
use aalam_security_back.Guards.Secrets.{secret_refusal, check_secret-raised}
use aalam_security_back.Controllers.Environment.{Environment}
use aalam_security_back.Controllers.Desk.{accept}
use aalam_security_back.Controllers.Requests.{dispatch, handle_request}
use aalam_security_back.Controllers.Refusals.{bearer, judged, handle_request-judged}
use aalam_security_back.Controllers.Farewells.{staff, delete, delete-handle_request}
use aalam_security_back.Tests.Fixtures.{services, documented, night, alarm, capitals, bytes, auth}

abbrev backend : Environment
backend = record {
  services = services;
  auth = auth;
  letters = capitals;
  random_bytes = bytes;
  collates = λ a b. true;
  production = false;
  bot_secret = some (115 ∷ 51 ∷ []);
}

-- A subscriber at the operators' door.
handle_request-judged_example :
    handle_request backend (some 3) (dispatch (accept 7)) alarm
    ≡ judged backend (bearer services (some 3) alarm) (dispatch (accept 7)) alarm
handle_request-judged_example =
    handle_request-judged backend documented (some 3) (dispatch (accept 7)) alarm

dismissed : result (delete services staff 2 night) ≡ some tt
unfolding delete_operator erase_operator bcrypt_hash random_hex remove_all_for_user
    set_operator_shift_room disconnect_user is_live_operator running
dismissed = refl

delete-handle_request_example :
    handle_request backend (some 2) (dispatch (accept 7)) (after (delete services staff 2 night))
    ≡ thrown (http_exception status_401) (after (delete services staff 2 night))
delete-handle_request_example =
    delete-handle_request backend documented staff 2 2 (record { sub = 2; exp = none })
      (dispatch (accept 7)) night dismissed refl refl

check_secret-raised_example :
    raised (check_secret (some (115 ∷ 51 ∷ [])) (some (115 ∷ 233 ∷ [])) night)
    ≡ secret_refusal (115 ∷ 51 ∷ []) (some (115 ∷ 233 ∷ []))
check_secret-raised_example = check_secret-raised 115 (51 ∷ []) (some (115 ∷ 233 ∷ [])) night refl
