-- ===== src/Guards/Secrets.antt =====
-- The headers that common/guards/shared-secret.guard.ts lets through.
use aalam_security_back.Common.{
  ℕ, ◌≤◌, ◌≡◌, refl, Bool, true, Option, none, some, [], ◌∷◌, ◌==◌, ◌&&◌, not, all, ltb, length,
  arith, if◌then◌else◌,
}
use aalam_security_back.Schema.{Text, text_eq}
use aalam_security_back.Errors.{Exception}
use aalam_security_back.World.{World, raised, running}
use aalam_security_back.Auth.{unauthorized}
use aalam_security_back.Guards.{utf8_length, check_secret}

abbrev pub is_ascii : Text → Bool
is_ascii t = all (λ c. ltb c 128) t

-- The answer to a header: text that is not ASCII and has the secret's length is told apart.
abbrev pub secret_refusal : Text → Option Text → Option Exception
secret_refusal secret none = some unauthorized
secret_refusal secret (some provided) =
    if text_eq provided secret
    then none
    else if (length provided == length secret) && not (is_ascii provided)
    then some Exception.range_error
    else some unauthorized

length-utf8_length : (t : Text) → length t ≤ utf8_length t
length-utf8_length [] = omega arith
length-utf8_length (c ∷ cs) = ground (arith, length-utf8_length cs)

utf8_length-ascii : (t : Text) → (utf8_length t == length t) ≡ is_ascii t
utf8_length-ascii [] = refl
utf8_length-ascii (c ∷ cs) = ground (arith, utf8_length-ascii cs, length-utf8_length cs)

length-text_eq : (a b : Text) → text_eq a b ≡ true → length a ≡ length b
unfolding text_eq
length-text_eq [] [] h = refl
length-text_eq [] (b ∷ bs) h = absurd (ground arith)
length-text_eq (a ∷ as') [] h = absurd (ground arith)
length-text_eq (a ∷ as') (b ∷ bs) h = ground (arith, length-text_eq as' bs)

is_ascii-text_eq : (a b : Text) → text_eq a b ≡ true → is_ascii a ≡ is_ascii b
unfolding text_eq
is_ascii-text_eq [] [] h = refl
is_ascii-text_eq [] (b ∷ bs) h = absurd (ground arith)
is_ascii-text_eq (a ∷ as') [] h = absurd (ground arith)
is_ascii-text_eq (a ∷ as') (b ∷ bs) h = ground (arith, is_ascii-text_eq as' bs)

-- A callback passes with the configured secret and with nothing else. Another header is refused with
-- 401, but one that is not ASCII and as long as the secret makes the guard fail with a RangeError. The
-- secret is not empty and is ASCII.
pub check_secret-raised :
    (c : ℕ) (cs : Text) (provided : Option Text) (w : World)
    → is_ascii (c ∷ cs) ≡ true
    → raised (check_secret (some (c ∷ cs)) provided w) ≡ secret_refusal (c ∷ cs) provided
unfolding check_secret running
check_secret-raised c cs none w ascii = refl
check_secret-raised c cs (some p) w ascii = ground (
  arith,
  length-text_eq p (c ∷ cs),
  is_ascii-text_eq p (c ∷ cs),
  utf8_length-ascii p,
  utf8_length-ascii (c ∷ cs),
)
