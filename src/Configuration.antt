-- ===== src/Configuration.antt =====
-- config/configuration.ts: what the program takes from its environment, and the origins that
-- modules/websocket/websocket.gateway.ts admits. The rate of Sentry's samples, a fraction, is left out.
pub mod Durations
pub mod Origins
pub mod Process
use aalam_security_back.Common.{
  ℕ, ◌+◌, ◌*◌, Bool, true, false, Option, none, some, List, [], ◌∷◌, map, keep, any, or_else, ◌==◌,
  ◌||◌, ◌&&◌, if◌then◌else◌, is_some, not,
}
use aalam_security_back.Schema.{Text, text_eq}
use aalam_security_back.Presence.Decimal.{is_digit, parse_int}
use aalam_security_back.Venues.{trim}
use aalam_security_back.Admin.Operators.{truthy}

-- `raw.split(',')`
abbrev pub split_commas : Text → List Text
split_commas [] = [] ∷ []
split_commas (c ∷ cs) = let rest = split_commas cs in if c == b',' then [] ∷ rest else grow c rest
  where
    grow : ℕ → List Text → List Text
    grow c [] = (c ∷ []) ∷ []
    grow c (part ∷ parts) = (c ∷ part) ∷ parts

abbrev pub is_filled : Text → Bool
is_filled [] = false
is_filled (c ∷ cs) = true

-- `raw.split(',').map((s) => s.trim()).filter(Boolean)`
unfoldable pub origins_of : Text → List Text
origins_of raw = keep is_filled (map trim (split_commas raw))

unfoldable pub parse_allowed_origins : Option Text → List Text
unfolding origins_of
parse_allowed_origins none = []
parse_allowed_origins (some []) = []
parse_allowed_origins (some (c ∷ cs)) = origins_of (c ∷ cs)

-- `websocketOriginCheck`, on ALLOWED_ORIGINS and the handshake's Origin; false is its error.
unfoldable pub websocket_origin_check : Option Text → Option Text → Bool
unfolding origins_of
websocket_origin_check allowed none = true
websocket_origin_check allowed (some []) = true
websocket_origin_check allowed (some (c ∷ cs)) =
    any (λ o. text_eq o (c ∷ cs)) (origins_of (or_else allowed []))

abbrev pub is_unit : ℕ → Bool
is_unit c = (c == b's') || ((c == b'm') || ((c == b'h') || (c == b'd')))

-- The seconds of a unit.
abbrev pub seconds_of : ℕ → ℕ
seconds_of c = if c == b's' then 1 else if c == b'm' then 60 else if c == b'h' then 3600 else 86400

abbrev pub prepend : ℕ → Option (Text × ℕ) → Option (Text × ℕ)
prepend c none = none
prepend c (some (digits, unit)) = some (c ∷ digits, unit)

-- `(\d*)([smhd])$`
abbrev pub digits_and_unit : Text → Option (Text × ℕ)
digits_and_unit [] = none
digits_and_unit (c ∷ cs) =
    let rest = digits_and_unit cs in
    if is_digit c
    then prepend c rest
    else if is_unit c && not (is_filled cs)
    then some ([], c)
    else none

abbrev pub if_digits : Option (Text × ℕ) → Option (Text × ℕ)
if_digits none = none
if_digits (some (digits, unit)) = if is_filled digits then some (digits, unit) else none

-- `/^(\d+)([smhd])$/.exec(text)`
abbrev pub match_duration : Text → Option (Text × ℕ)
match_duration text = if_digits (digits_and_unit text)

abbrev pub seconds_in : ℕ → Option (Text × ℕ) → ℕ
seconds_in fallback none = fallback
seconds_in fallback (some (digits, unit)) = or_else (parse_int digits) 0 * seconds_of unit

unfoldable pub parse_duration_seconds : Text → ℕ → ℕ
parse_duration_seconds raw fallback_seconds =
    seconds_in fallback_seconds (match_duration (trim raw))
