-- ===== src/Configuration/Durations.antt =====
-- parseDurationSeconds of config/configuration.ts: a lifetime as the environment states it.
use aalam_security_back.Common.{
  ℕ, ◌*◌, ◌≡◌, ◌≢◌, refl, true, false, some, [], ◌∷◌, ◌++◌, all, arith,
}
use aalam_security_back.Schema.{Text}
use aalam_security_back.Presence.Decimal.{
  is_digit, to_string, IsDigits, to_string-IsDigits, to_string-ne-nil, parse_int-to_string,
}
use aalam_security_back.Venues.Readable.{is_black, trim_black}
use aalam_security_back.Configuration.{
  is_filled, is_unit, seconds_of, digits_and_unit, match_duration, parse_duration_seconds,
}

black_digit : (c : ℕ) → is_digit c ≡ true → is_black c ≡ true
black_digit c h = ground arith

black_unit : (u : ℕ) → is_unit u ≡ true → is_black u ≡ true
black_unit u h = ground arith

written-is_black :
    (ds : Text) (u : ℕ) → IsDigits ds → is_unit u ≡ true → all is_black (ds ++ (u ∷ [])) ≡ true
written-is_black [] u h k = rw (black_unit u k) refl
written-is_black (d ∷ ds) u h k = rw (black_digit d h.0) (written-is_black ds u h.1 k)

unit_of_no_digit : (u : ℕ) → is_unit u ≡ true → is_digit u ≡ false
unit_of_no_digit u h = ground arith

written-digits_and_unit :
    (ds : Text) (u : ℕ)
    → IsDigits ds
    → is_unit u ≡ true
    → digits_and_unit (ds ++ (u ∷ [])) ≡ some (ds, u)
written-digits_and_unit [] u h k = rw (unit_of_no_digit u k) (rw k refl)
written-digits_and_unit (d ∷ ds) u h k = rw h.0 (rw (written-digits_and_unit ds u h.1 k) refl)

filled : (ds : Text) → ds ≢ [] → is_filled ds ≡ true
filled [] h = absurd (h refl)
filled (d ∷ ds) h = refl

written-match_duration :
    (ds : Text) (u : ℕ)
    → IsDigits ds
    → ds ≢ []
    → is_unit u ≡ true
    → match_duration (ds ++ (u ∷ [])) ≡ some (ds, u)
written-match_duration ds u h some_there k =
    rw (written-digits_and_unit ds u h k) (rw (filled ds some_there) refl)

-- A number followed by one of the units s, m, h and d is read as so many seconds, whatever the fallback.
pub parse_duration_seconds-to_string :
    (n unit fallback_seconds : ℕ)
    → is_unit unit ≡ true
    → parse_duration_seconds (to_string n ++ (unit ∷ [])) fallback_seconds ≡ n * seconds_of unit
unfolding parse_duration_seconds
parse_duration_seconds-to_string n unit fallback_seconds h =
    rw
      (trim_black (to_string n ++ (unit ∷ []))
        (written-is_black (to_string n) unit (to_string-IsDigits n) h))
      (rw (written-match_duration (to_string n) unit (to_string-IsDigits n) (to_string-ne-nil n) h)
        (rw (parse_int-to_string n) refl))
