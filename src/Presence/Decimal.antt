-- ===== src/Presence/Decimal.antt =====
-- `n.toString()` and `parseInt(raw, 10)` on the marks that the program writes: no sign, no leading
-- white space, and numbers up to 2^53, which a double holds exactly.
use aalam_security_back.Common.{
  ℕ, zero, suc, ◌+◌, ◌-◌, ◌*◌, ◌/◌, ◌%◌, ◌<◌, ◌≡◌, ◌≢◌, refl, Bool, true, ◌&&◌, Option, none, some,
  [], ◌∷◌, ◌++◌, arith, ltb, leb, if◌then◌else◌, All, Bool-cases, inl, inr, ◌∙◌, ap,
}
use aalam_security_back.Schema.{Text}

abbrev pub is_digit : ℕ → Bool
is_digit c = leb b'0' c && leb c b'9'

digits : ℕ → ℕ → Text
digits zero n = []
digits (suc fuel) n =
    let longer = digits fuel (n / 10) ++ (n % 10 + b'0') ∷ [] in
    if ltb n 10 then (n + b'0') ∷ [] else longer

unfoldable pub to_string : ℕ → Text
unfolding digits
to_string n = digits (suc n) n

scan : Text → ℕ → ℕ
scan [] acc = acc
scan (c ∷ cs) acc = let rest = scan cs (acc * 10 + (c - b'0')) in if is_digit c then rest else acc

-- `none` is NaN
unfoldable pub parse_int : Text → Option ℕ
unfolding scan
parse_int [] = none
parse_int (c ∷ cs) = let n = scan (c ∷ cs) 0 in if is_digit c then some n else none

abbrev pub IsDigits : Text → Type 0
IsDigits = All (λ c. is_digit c ≡ true)

IsDigits-append : (xs ys : Text) → IsDigits xs → IsDigits ys → IsDigits (xs ++ ys)
IsDigits-append [] ys h k = k
IsDigits-append (x ∷ xs) ys h k = (h.0, IsDigits-append xs ys h.1 k)

digit_of_lt : (n : ℕ) → n < 10 → is_digit (n + b'0') ≡ true
digit_of_lt n h = ground arith

digits-IsDigits : (fuel n : ℕ) → IsDigits (digits fuel n)
unfolding digits
digits-IsDigits zero n = tt
digits-IsDigits (suc fuel) n = elim (Bool-cases (ltb n 10)) [
  | inl small ↦ rw (small, digits) (digit_of_lt n (ground arith), tt)
  | inr large ↦
      rw (large, digits)
        (IsDigits-append (digits fuel (n / 10)) _ (digits-IsDigits fuel (n / 10))
          (digit_of_lt (n % 10) (omega arith), tt))
]

scan-append :
    (xs : Text) (c acc : ℕ)
    → IsDigits xs
    → is_digit c ≡ true
    → scan (xs ++ c ∷ []) acc ≡ scan xs acc * 10 + (c - b'0')
unfolding scan
scan-append [] c acc h k = rw k
scan-append (x ∷ xs) c acc h k = rw h.0 (scan-append xs c _ h.1 k)

scan-digits : (fuel n : ℕ) → n < fuel → scan (digits fuel n) 0 ≡ n
unfolding digits
scan-digits zero n h = absurd (omega arith)
scan-digits (suc fuel) n h = elim (Bool-cases (ltb n 10)) [
  | inl small ↦ rw (small, digits) (unfold scan in rw (digit_of_lt n (ground arith)) (omega arith))
  | inr large ↦
      rw (large, digits)
        (scan-append (digits fuel (n / 10)) _ 0 (digits-IsDigits fuel (n / 10))
            (digit_of_lt (n % 10) (omega arith))
          ∙ rw (scan-digits fuel (n / 10) (ground arith)) (omega arith))
]

parse_int_of_digits : (t : Text) → IsDigits t → t ≢ [] → parse_int t ≡ some (scan t 0)
unfolding parse_int
parse_int_of_digits [] h k = absurd (k refl)
parse_int_of_digits (c ∷ cs) h k = rw h.0

append-ne-nil : (t : Text) (c : ℕ) → t ++ c ∷ [] ≢ []
append-ne-nil [] c = cc
append-ne-nil (x ∷ t) c = cc

digits-ne-nil : (fuel n : ℕ) → digits (suc fuel) n ≢ []
unfolding digits
digits-ne-nil fuel n = elim (Bool-cases (ltb n 10)) [
  | inl small ↦ rw (small, digits) (cc)
  | inr large ↦ rw (large, digits) (append-ne-nil (digits fuel (n / 10)) _)
]

pub to_string-IsDigits : (n : ℕ) → IsDigits (to_string n)
unfolding to_string
to_string-IsDigits n = digits-IsDigits (suc n) n

pub to_string-ne-nil : (n : ℕ) → to_string n ≢ []
unfolding to_string
to_string-ne-nil n = digits-ne-nil n n

-- What `toString` writes, `parseInt` reads back.
pub parse_int-to_string : (n : ℕ) → parse_int (to_string n) ≡ some n
unfolding to_string
parse_int-to_string n =
    parse_int_of_digits _ (digits-IsDigits (suc n) n) (digits-ne-nil n n)
    ∙ ap some (scan-digits (suc n) n (omega arith))
