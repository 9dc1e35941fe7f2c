-- ===== src/Organizations/Slugs.antt =====
-- slugify of organization.service.ts, which admin.service.ts repeats as organizationNameToSlug.
use aalam_security_back.Common.{
  ℕ, zero, suc, ◌+◌, ◌/◌, ◌%◌, ◌≡◌, refl, Bool, true, false, [], ◌∷◌, ◌++◌, ◌&&◌, ◌||◌, not, ◌<◌,
  all, ◌==◌, arith, ltb, leb, if◌then◌else◌, Bool-cases, inl, inr,
}
use aalam_security_back.Schema.{Text}
use aalam_security_back.Admin.Operators.{codes}

-- `[a-z0-9]`
abbrev pub is_slug_char : ℕ → Bool
is_slug_char c = (leb b'a' c && leb c b'z') || (leb b'0' c && leb c b'9')

-- `.replace(/[^a-z0-9]+/g, '-')`; the flag says that the run before has its dash already.
abbrev pub dash_runs : Bool → Text → Text
dash_runs dashed [] = []
dash_runs dashed (c ∷ cs) =
    let kept = c ∷ dash_runs false cs in
    let skipped = dash_runs true cs in
    if is_slug_char c then kept else (if dashed then skipped else b'-' ∷ skipped)

-- `.replace(/^-|-$/g, '')`
abbrev pub strip_first : Text → Text
strip_first [] = []
strip_first (c ∷ cs) = if c == b'-' then cs else c ∷ cs

abbrev pub strip_last : Text → Text
strip_last [] = []
strip_last (c ∷ []) = if c == b'-' then [] else c ∷ []
strip_last (c ∷ d ∷ cs) = c ∷ strip_last (d ∷ cs)

abbrev pub or_org : Text → Text
or_org [] = codes "org"
or_org (c ∷ cs) = c ∷ cs

unfoldable pub slugify : (Text → Text) → Text → Text
slugify to_lower_case name =
    or_org (strip_last (strip_first (dash_runs false (to_lower_case name))))

abbrev pub digit_36 : ℕ → ℕ
digit_36 d = if ltb d 10 then d + b'0' else d + 87

-- `n.toString(36)`
digits_36 : ℕ → ℕ → Text
digits_36 zero n = []
digits_36 (suc fuel) n =
    let longer = digits_36 fuel (n / 36) ++ (digit_36 (n % 36) ∷ []) in
    if ltb n 36 then digit_36 n ∷ [] else longer

unfoldable pub to_string_36 : ℕ → Text
unfolding digits_36
to_string_36 n = digits_36 (suc n) n

-- The base, where another organization has it already, with the instant behind it.
unfoldable pub unique_slug : Bool → Text → ℕ → Text
unfolding to_string_36
unique_slug taken slug now = if taken then slug ++ (b'-' ∷ to_string_36 now) else slug

-- `[a-z0-9]+(-[a-z0-9]+)*`; the flag says that a letter or a digit has to come next.
abbrev pub is_slug_from : Bool → Text → Bool
is_slug_from open_end [] = not open_end
is_slug_from open_end (c ∷ cs) =
    let more = is_slug_from false cs in
    let dashed = is_slug_from true cs in
    if is_slug_char c then more else ((c == b'-') && (not open_end && dashed))

abbrev pub is_slug : Text → Bool
is_slug t = is_slug_from true t

-- The same, and the text may end in a dash.
abbrev is_loose : Bool → Text → Bool
is_loose dashed [] = true
is_loose dashed (c ∷ cs) =
    let more = is_loose false cs in
    let after = is_loose true cs in
    if is_slug_char c then more else ((c == b'-') && (not dashed && after))

dash_runs-is_loose : (dashed : Bool) (t : Text) → is_loose dashed (dash_runs dashed t) ≡ true
dash_runs-is_loose dashed [] = refl
dash_runs-is_loose dashed (c ∷ cs) =
    ground (arith, dash_runs-is_loose false cs, dash_runs-is_loose true cs)

strip_first-is_loose : (t : Text) → is_loose false t ≡ true → is_loose true (strip_first t) ≡ true
strip_first-is_loose [] h = refl
strip_first-is_loose (c ∷ cs) h = ground arith

-- A text that does not end in a dash is kept; of another the dash goes.
strip_last-is_slug :
    (c : ℕ) (cs : Text)
    → (is_loose true (c ∷ cs) ≡ true → is_slug (strip_last (c ∷ cs)) ≡ true)
      × (is_loose false (c ∷ cs) ≡ true → is_slug_from false (strip_last (c ∷ cs)) ≡ true)
strip_last-is_slug c [] = ground arith
strip_last-is_slug c (d ∷ cs) = ground (arith, strip_last-is_slug d cs)

or_org-is_slug : (t : Text) → is_loose true t ≡ true → is_slug (or_org (strip_last t)) ≡ true
or_org-is_slug [] h = refl
or_org-is_slug (c ∷ []) h = ground arith
or_org-is_slug (c ∷ d ∷ cs) h = (strip_last-is_slug c (d ∷ cs)).0 h

slugified :
    (to_lower_case : Text → Text) (name : Text) → is_slug (slugify to_lower_case name) ≡ true
unfolding slugify
slugified to_lower_case name = or_org-is_slug (strip_first (dash_runs false (to_lower_case name))) (
    strip_first-is_loose (dash_runs false (to_lower_case name))
      (dash_runs-is_loose false (to_lower_case name)))

digit_36_slug : (d : ℕ) → d < 36 → is_slug_char (digit_36 d) ≡ true
digit_36_slug d h = ground arith

slug_char_end :
    (open_end : Bool) (t : Text) (c : ℕ)
    → all is_slug_char t ≡ true
    → is_slug_char c ≡ true
    → is_slug_from open_end (t ++ (c ∷ [])) ≡ true
slug_char_end open_end [] c h k = rw k
slug_char_end open_end (x ∷ xs) c h k = ground (arith, slug_char_end false xs c)

all-append :
    (p : ℕ → Bool) (xs ys : Text) → all p xs ≡ true → all p ys ≡ true → all p (xs ++ ys) ≡ true
all-append p [] ys h k = k
all-append p (x ∷ xs) ys h k = ground (arith, all-append p xs ys)

digits_36_slug : (fuel n : ℕ) → all is_slug_char (digits_36 fuel n) ≡ true
unfolding digits_36
digits_36_slug zero n = refl
digits_36_slug (suc fuel) n = elim (Bool-cases (ltb n 36)) [
  | inl small ↦ rw (small, digits_36) (rw (digit_36_slug n (ground arith)))
  | inr large ↦
      rw (large, digits_36)
        (all-append is_slug_char (digits_36 fuel (n / 36)) (digit_36 (n % 36) ∷ [])
          (digits_36_slug fuel (n / 36)) (rw (digit_36_slug (n % 36) (omega arith))))
]

to_string_36-is_slug : (n : ℕ) → is_slug (to_string_36 n) ≡ true
unfolding to_string_36 digits_36
to_string_36-is_slug n = elim (Bool-cases (ltb n 36)) [
  | inl small ↦ rw (small, to_string_36) (rw (digit_36_slug n (ground arith)))
  | inr large ↦
      rw (large, to_string_36)
        (slug_char_end true (digits_36 n (n / 36)) (digit_36 (n % 36)) (digits_36_slug n (n / 36))
          (digit_36_slug (n % 36) (omega arith)))
]

suffixed :
    (open_end : Bool) (t u : Text)
    → is_slug_from open_end t ≡ true
    → is_slug u ≡ true
    → is_slug_from open_end (t ++ (b'-' ∷ u)) ≡ true
suffixed open_end [] u h k = ground arith
suffixed open_end (c ∷ cs) u h k = ground (arith, suffixed false cs u, suffixed true cs u)

-- Whatever the name is and whether its slug is taken, the slug of an organization is not empty and
-- consists of words of lower-case letters and digits with single dashes between them.
pub unique_slug-is_slug :
    (to_lower_case : Text → Text) (name : Text) (taken : Bool) (now : ℕ)
    → is_slug (unique_slug taken (slugify to_lower_case name) now) ≡ true
unfolding unique_slug
unique_slug-is_slug to_lower_case name true now =
    suffixed true (slugify to_lower_case name) (to_string_36 now) (slugified to_lower_case name)
      (to_string_36-is_slug now)
unique_slug-is_slug to_lower_case name false now = slugified to_lower_case name
