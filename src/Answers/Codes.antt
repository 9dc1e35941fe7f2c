-- ===== src/Answers/Codes.antt =====
-- What common/filters/http-exception.filter.ts makes of an AppException.
use aalam_security_back.Common.{
  ℕ, ◌≡◌, refl, ap, ◌∙◌, Bool, true, none, some, List, [], ◌∷◌, all, keep, not, arith, or_else,
  if◌then◌else◌,
}
use aalam_security_back.Schema.{Text, text_eq}
use aalam_security_back.Admin.Operators.{codes, truthy}
use aalam_security_back.Answers.{
  Field, one_text, get_field, message_of, text_of, is_reserved, status_message, catch, app_failure,
  shown, shown_errors,
}

abbrev are_free : List Field → Bool
are_free fs = all (λ f. not (is_reserved f)) fs

get_field_free :
    (key : Text)
    → ((f : Field) → text_eq f.key key ≡ true → is_reserved f ≡ true)
    → (fs : List Field) → are_free fs ≡ true
    → get_field key fs ≡ none
get_field_free key within [] h = refl
get_field_free key within (f ∷ fs) h = ground (arith, within f, get_field_free key within fs)

keeps_free : (fs : List Field) → are_free fs ≡ true → keep (λ f. not (is_reserved f)) fs ≡ fs
keeps_free [] h = refl
keeps_free (f ∷ fs) h = ground (arith, keeps_free fs)

get_field_cons :
    (key : Text) (f : Field) (fs : List Field)
    → get_field key fs ≡ none
    → get_field key (f ∷ fs) ≡ (if text_eq f.key key then some f.value else none)
get_field_cons key f fs h = ground (arith, h)

none_shown : (details : List Field) → shown_errors details [] ≡ []
none_shown details = ground arith

module _ (code message : Text) (details : List Field) (free : are_free details ≡ true) where
  abbrev code_field : Field
  code_field = record { key = codes "code"; value = one_text code }

  abbrev message_field : Field
  message_field = record { key = codes "message"; value = one_text message }

  no_code : get_field (codes "code") details ≡ none
  no_code = get_field_free (codes "code") (λ f h. ground (arith, h)) details free

  no_message : get_field (codes "message") details ≡ none
  no_message = get_field_free (codes "message") (λ f h. ground (arith, h)) details free

  no_error : get_field (codes "error") details ≡ none
  no_error = get_field_free (codes "error") (λ f h. ground (arith, h)) details free

  found_message :
      get_field (codes "message") (code_field ∷ message_field ∷ details) ≡ some (one_text message)
  unfolding text_eq
  found_message = ground (arith, get_field_cons (codes "message") message_field details no_message)

  found_code :
      get_field (codes "code") (code_field ∷ message_field ∷ details) ≡ some (one_text code)
  unfolding text_eq
  found_code =
      get_field_cons (codes "code") code_field (message_field ∷ details)
        (get_field_cons (codes "code") message_field details no_code)

  found_no_error : get_field (codes "error") (code_field ∷ message_field ∷ details) ≡ none
  unfolding text_eq
  found_no_error =
      get_field_cons (codes "error") code_field (message_field ∷ details)
        (get_field_cons (codes "error") message_field details no_error)

-- An AppException reaches the client whole: with its status, its machine code, its message and its
-- details, and with no list of errors. The code is not empty, and no detail is named as one of the
-- fields that the filter reads; a detail named `timestamp` or `path` gives way to the body's own.
pub catch-app_failure :
    (now : ℕ) (url code : Text) (status : ℕ) (message : Text) (details : List Field)
    → truthy (some code) ≡ some code
    → all (λ f. not (is_reserved f)) details ≡ true
    → catch now url (app_failure code status message details) ≡ record {
      status_code = status;
      error = or_else (status_message status) (codes "Error");
      code = some code;
      message = message;
      errors = [];
      details = shown details;
      timestamp = now;
      path = url;
    }
unfolding catch text_eq
catch-app_failure now url code status message details filled free = λ i. record {
  status_code = status;
  error =
      or_else (text_of (found_no_error code message details free i))
        (or_else (status_message status) (codes "Error"));
  code = (ap (λ v. truthy (text_of v)) (found_code code message details free) ∙ filled) i;
  message =
      (message_of (found_message code message details free i)
        (code_field code message details free ∷ message_field code message details free ∷ details)
        status).0;
  errors =
      (ap
            (λ v.
              shown_errors (keep (λ f. not (is_reserved f)) details)
                (message_of v
                  (code_field code message details free
                    ∷ message_field code message details free
                    ∷ details)
                  status).1)
            (found_message code message details free)
          ∙ none_shown (keep (λ f. not (is_reserved f)) details))
        i;
  details = shown (keeps_free details free i);
  timestamp = now;
  path = url;
}
