-- ===== src/Answers.antt =====
-- common/filters/http-exception.filter.ts: what a client is answered when a handler throws, and the body
-- of common/errors/app.exception.ts.
pub mod Codes
use aalam_security_back.Common.{
  ℕ, Bool, true, false, Option, none, some, List, [], ◌∷◌, any, keep, or_else, not, leb, ◌==◌,
  if◌then◌else◌,
}
use aalam_security_back.Schema.{Text, text_eq}
use aalam_security_back.Admin.Operators.{codes, truthy}

-- A field of a response: a text, a list of texts, or another value.
pub data FieldValue : Type 0 where
  one_text : Text → FieldValue
  texts : List Text → FieldValue
  opaque : ℕ → FieldValue

pub record Field : Type 0 where
  pub key : Text
  pub value : FieldValue

-- An object as its entries; of two with one key the later counts.
pub data RawResponse : Type 0 where
  raw_text : Text → RawResponse
  raw_object : List Field → RawResponse

-- An HttpException with its status and response, or any other error.
pub data Failure : Type 0 where
  http_failure : ℕ → RawResponse → Failure
  unexpected : Failure

abbrev pub get_field : Text → List Field → Option FieldValue
get_field key [] = none
get_field key (f ∷ fs) =
    let rest = get_field key fs in
    elim rest [ some v ↦ some v | none ↦ if text_eq f.key key then some f.value else none ]

abbrev pub text_of : Option FieldValue → Option Text
text_of (some (one_text t)) = some t
text_of _ = none

-- HTTP_STATUS_MESSAGES
abbrev pub status_message : ℕ → Option Text
status_message status =
    if status == 400
    then some (codes "Bad Request")
    else if status == 401
    then some (codes "Unauthorized")
    else if status == 403
    then some (codes "Forbidden")
    else if status == 404
    then some (codes "Not Found")
    else if status == 409
    then some (codes "Conflict")
    else if status == 429
    then some (codes "Too Many Requests")
    else if status == 500
    then some (codes "Internal Server Error")
    else if status == 503
    then some (codes "Service Unavailable")
    else none

abbrev pub status_of : Failure → ℕ
status_of (http_failure status raw) = status
status_of unexpected = 500

abbrev pub raw_of : Failure → RawResponse
raw_of (http_failure status raw) = raw
raw_of unexpected = raw_text (codes "Internal server error")

abbrev pub code_of : RawResponse → Option Text
code_of (raw_text t) = none
code_of (raw_object fs) = text_of (get_field (codes "code") fs)

abbrev pub is_reserved : Field → Bool
is_reserved f =
    any (text_eq f.key) (codes "code" ∷ codes "message" ∷ codes "error" ∷ codes "statusCode" ∷ [])

abbrev pub details_of : RawResponse → List Field
details_of (raw_text t) = []
details_of (raw_object fs) = keep (λ f. not (is_reserved f)) fs

-- `timestamp` and `path` come last in the body, and take the place of a detail of that name.
abbrev pub is_overwritten : Field → Bool
is_overwritten f = any (text_eq f.key) (codes "timestamp" ∷ codes "path" ∷ [])

-- The details that are in the body.
abbrev pub shown : List Field → List Field
shown details = keep (λ f. not (is_overwritten f)) details

-- A detail named `errors` comes after the list of errors, and takes its place.
abbrev pub shown_errors : List Field → List Text → List Text
shown_errors details errors =
    if any (λ f. text_eq f.key (codes "errors")) details then [] else errors

abbrev pub error_label : RawResponse → ℕ → Text
error_label (raw_text t) status = or_else (status_message status) (codes "Error")
error_label (raw_object fs) status =
    or_else (text_of (get_field (codes "error") fs))
      (or_else (status_message status) (codes "Error"))

-- `normalizeResponse`, the message and the errors of a validation.
abbrev pub message_of : Option FieldValue → List Field → ℕ → Text × List Text
message_of (some (texts errors)) fs status =
    (if status == 400 then codes "Validation failed" else codes "Request failed", errors)
message_of (some (one_text message)) fs status = (message, [])
message_of _ fs status =
    (or_else (truthy (text_of (get_field (codes "error") fs))) (codes "An error occurred"), [])

abbrev pub normalize_response : RawResponse → ℕ → Text × List Text
normalize_response (raw_text t) status = (t, [])
normalize_response (raw_object fs) status = message_of (get_field (codes "message") fs) fs status

-- The body; the details are its last entries before the time and the path.
pub record Body : Type 0 where
  pub status_code : ℕ
  pub error : Text
  pub code : Option Text
  pub message : Text
  pub errors : List Text
  pub details : List Field
  pub timestamp : ℕ
  pub path : Text

-- `catch`, at an instant, for a request's path.
unfoldable pub catch : ℕ → Text → Failure → Body
catch now url failure =
    let status = status_of failure in
    let raw = raw_of failure in
    let normal = normalize_response raw status in
    record {
      status_code = status;
      error = error_label raw status;
      code = truthy (code_of raw);
      message = normal.0;
      errors = shown_errors (details_of raw) normal.1;
      details = shown (details_of raw);
      timestamp = now;
      path = url;
    }

-- Whether Sentry is told.
abbrev pub is_reported : Failure → Bool
is_reported failure = leb 500 (status_of failure)

-- `new AppException(code, status, debugMessage, details)`
abbrev pub app_failure : Text → ℕ → Text → List Field → Failure
app_failure code status debug_message details = http_failure status (
    raw_object (
      record { key = codes "code"; value = one_text code }
      ∷ record { key = codes "message"; value = one_text debug_message }
      ∷ details))
