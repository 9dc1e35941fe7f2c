-- ===== src/Tests/Settings.antt =====
-- The theorems on the configuration and on the answers to errors.
use aalam_security_back.Common.{◌*◌, ◌≡◌, refl, true, some, [], ◌∷◌, ◌++◌, any, all, not, or_else}
use aalam_security_back.Schema.{Text, text_eq}
use aalam_security_back.Presence.Decimal.{to_string}
use aalam_security_back.Admin.Operators.{codes}
use aalam_security_back.Configuration.{
  seconds_of, parse_duration_seconds, parse_allowed_origins, websocket_origin_check,
}
use aalam_security_back.Configuration.Durations.{parse_duration_seconds-to_string}
use aalam_security_back.Configuration.Origins.{joined, parse_allowed_origins-joined}
use aalam_security_back.Answers.{Field, opaque, is_reserved, status_message, catch, app_failure}
use aalam_security_back.Answers.Codes.{catch-app_failure}

parse_duration_seconds-to_string_example :
    parse_duration_seconds (to_string 7 ++ (b'd' ∷ [])) 0 ≡ 7 * seconds_of b'd'
parse_duration_seconds-to_string_example = parse_duration_seconds-to_string 7 b'd' 0 refl

abbrev site : Text
site = codes "https://a.kg"

abbrev office : Text
office = codes "https://b.kg"

parse_allowed_origins-joined_example :
    (parse_allowed_origins (some (joined site (office ∷ []))) ≡ site ∷ office ∷ [])
    × (websocket_origin_check (some (joined site (office ∷ []))) (some office)
        ≡ any (λ p. text_eq p office) (site ∷ office ∷ []))
parse_allowed_origins-joined_example =
    parse_allowed_origins-joined site (office ∷ []) office refl refl refl

abbrev open_calls : Field
open_calls = record { key = codes "openSessions"; value = opaque 2 }

free_details : all (λ f. not (is_reserved f)) (open_calls ∷ []) ≡ true
unfolding text_eq
free_details = refl

catch-app_failure_example :
    catch 1000
      (codes "/dispatch/shift/end")
      (app_failure (codes "SHIFT_HAS_OPEN_SESSIONS") 409 (codes "open") (open_calls ∷ []))
    ≡ record {
      status_code = 409;
      error = or_else (status_message 409) (codes "Error");
      code = some (codes "SHIFT_HAS_OPEN_SESSIONS");
      message = codes "open";
      errors = [];
      details = open_calls ∷ [];
      timestamp = 1000;
      path = codes "/dispatch/shift/end";
    }
unfolding text_eq
catch-app_failure_example =
    catch-app_failure 1000 (codes "/dispatch/shift/end") (codes "SHIFT_HAS_OPEN_SESSIONS") 409
      (codes "open") (open_calls ∷ []) refl free_details
