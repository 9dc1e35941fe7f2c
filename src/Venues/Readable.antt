-- ===== src/Venues/Readable.antt =====
-- Invite codes consist of capitals and digits: trimming and capitalizing leave them alone.
use aalam_security_back.Common.{
  ℕ, zero, suc, ◌%◌, ◌<◌, ◌≡◌, ◌≢◌, refl, ap, ◌∙◌, Bool, true, false, List, [], ◌∷◌, ◌++◌, not,
  ◌==◌, arith, length, any, all, Bool-cases, inl, inr,
}
use aalam_security_back.Schema.{Text, text_eq}
use aalam_security_back.Venues.{Letters, is_white_space, trim_start, reversed, trim, normal_code}
use aalam_security_back.Venues.InviteCodes.{alphabet, letter_at, code_of_bytes}

abbrev pub is_letter : ℕ → Bool
is_letter c = any (λ x. x == c) alphabet

abbrev pub is_readable : Text → Bool
is_readable code = all is_letter code

-- Capitals and digits are their own capitals, and the database tells them apart.
pub record LettersDocumented (l : Letters) : Type 0 where
  pub upper_lem : (code : Text) → is_readable code ≡ true → l.to_upper_case code ≡ code
  pub insensitive_lem :
      (a b : Text)
      → is_readable a ≡ true
      → is_readable b ≡ true
      → l.equals_insensitive a b ≡ text_eq a b

any-letter_at : (i : ℕ) (cs : Text) → i < length cs → any (λ x. x == letter_at i cs) cs ≡ true
any-letter_at i [] h = absurd (ground arith)
any-letter_at zero (c ∷ cs) h = ground arith
any-letter_at (suc i) (c ∷ cs) h = ground (arith, any-letter_at i cs)

is_letter-of_byte : (b : ℕ) → is_letter (letter_at (b % length alphabet) alphabet) ≡ true
is_letter-of_byte b = any-letter_at (b % length alphabet) alphabet (omega arith)

pub is_readable-code_of_bytes : (bytes : List ℕ) → is_readable (code_of_bytes bytes) ≡ true
is_readable-code_of_bytes [] = refl
is_readable-code_of_bytes (b ∷ bs) = rw (is_letter-of_byte b) (is_readable-code_of_bytes bs)

all_at_any :
    (p : ℕ → Bool) (c : ℕ) (cs : Text) → all p cs ≡ true → any (λ x. x == c) cs ≡ true → p c ≡ true
all_at_any p c [] h found = absurd (ground arith)
all_at_any p c (x ∷ xs) h found = ground (arith, all_at_any p c xs)

abbrev pub is_black : ℕ → Bool
is_black c = not (is_white_space c)

letters_black : all is_black alphabet ≡ true
letters_black = refl

all_within :
    (p : ℕ → Bool) (letters code : Text)
    → all p letters ≡ true
    → all (λ c. any (λ x. x == c) letters) code ≡ true
    → all p code ≡ true
all_within p letters [] h inside = refl
all_within p letters (c ∷ cs) h inside =
    ground (arith, all_at_any p c letters, all_within p letters cs)

readable_black : (code : Text) → is_readable code ≡ true → all is_black code ≡ true
readable_black code h = all_within is_black alphabet code letters_black h

not_both : false ≢ true
not_both e = absurd (ground arith)

trim_start_black : (t : Text) → all is_black t ≡ true → trim_start t ≡ t
trim_start_black [] h = refl
trim_start_black (c ∷ cs) h = elim (Bool-cases (is_white_space c)) [
  | inl white ↦ absurd (not_both (rw white at h))
  | inr black ↦ rw black refl
]

all_append_one :
    (p : ℕ → Bool) (xs : Text) (c : ℕ)
    → all p xs ≡ true
    → p c ≡ true
    → all p (xs ++ (c ∷ [])) ≡ true
all_append_one p [] c h hit = ground arith
all_append_one p (x ∷ xs) c h hit = ground (arith, all_append_one p xs c)

all-reversed : (p : ℕ → Bool) (t : Text) → all p t ≡ true → all p (reversed t) ≡ true
all-reversed p [] h = refl
all-reversed p (c ∷ cs) h =
    all_append_one p (reversed cs) c (all-reversed p cs (ground arith)) (ground arith)

reversed_append_one : (xs : Text) (c : ℕ) → reversed (xs ++ (c ∷ [])) ≡ c ∷ reversed xs
reversed_append_one [] c = refl
reversed_append_one (x ∷ xs) c = ap (λ t. t ++ (x ∷ [])) (reversed_append_one xs c)

reversed_twice : (t : Text) → reversed (reversed t) ≡ t
reversed_twice [] = refl
reversed_twice (c ∷ cs) = reversed_append_one (reversed cs) c ∙ ap (λ t. c ∷ t) (reversed_twice cs)

pub trim_black : (t : Text) → all is_black t ≡ true → trim t ≡ t
trim_black t h =
    rw (trim_start_black t h)
      (rw (trim_start_black (reversed t) (all-reversed is_black t h)) (reversed_twice t))

pub normal_code_readable :
    (l : Letters) (d : LettersDocumented l) (code : Text)
    → is_readable code ≡ true
    → normal_code l code ≡ code
normal_code_readable l d code h =
    ap l.to_upper_case (trim_black code (readable_black code h)) ∙ d.upper_lem code h

pub text_eq_refl : (t : Text) → text_eq t t ≡ true
unfolding text_eq
text_eq_refl [] = refl
text_eq_refl (c ∷ cs) = ground (arith, text_eq_refl cs)
