-- ===== src/Queries/Pages.antt =====
-- The pages of the services' lists, put together.
use aalam_security_back.Common.{
  ℕ, zero, suc, ◌+◌, ◌-◌, ◌*◌, ◌≡◌, refl, sym, ap, ◌∙◌, Bool, Option, none, some, List, [], ◌∷◌,
  ◌++◌, arith, take, drop, keep,
}
use aalam_security_back.Schema.{EmergencySession}
use aalam_security_back.Services.{Services, Documented, computing, services-eq}
use aalam_security_back.Rows.{sort_by}
use aalam_security_back.World.{World, result, running}
use aalam_security_back.Queries.{Page, find_page}

-- What a client shows that asks for the pages from the first to the nth.
abbrev pub rows_of : Option Page → List EmergencySession
rows_of none = []
rows_of (some p) = p.rows

abbrev pub total_of : Option Page → Option ℕ
total_of none = none
total_of (some p) = some p.total

abbrev pub first_pages :
    Services
    → (EmergencySession → Bool)
    → (EmergencySession → EmergencySession → Bool)
    → ℕ
    → ℕ
    → World
    → List EmergencySession
first_pages s accepts before limit zero w = []
first_pages s accepts before limit (suc n) w =
    first_pages s accepts before limit n w
    ++ rows_of (result (find_page s accepts before (suc n) limit w))

nothing : (n : ℕ) → take {A = EmergencySession} n [] ≡ []
nothing zero = refl
nothing (suc n) = refl

less : (n : ℕ) → suc n - 1 ≡ n
less n = omega arith

more : (n limit : ℕ) → n * limit + limit ≡ suc n * limit
more n limit = grind arith

take_at : {m n : ℕ} (xs : List EmergencySession) → m ≡ n → take m xs ≡ take n xs
take_at xs e = ap (λ k. take k xs) e

take-add :
    (m n : ℕ) (xs : List EmergencySession) → take m xs ++ take n (drop m xs) ≡ take (m + n) xs
take-add zero n xs = take_at xs (omega arith)
take-add (suc m) n [] = nothing n ∙ sym (nothing (suc m + n))
take-add (suc m) n (x ∷ xs) =
    ap (λ t. x ∷ t) (take-add m n xs) ∙ take_at {m = suc (m + n)} (x ∷ xs) (omega arith)

pages_computing :
    (s : Services) (accepts : EmergencySession → Bool)
    (before : EmergencySession → EmergencySession → Bool) (limit n : ℕ) (w : World)
    → first_pages (computing s) accepts before limit n w
      ≡ take (n * limit) (sort_by before (keep accepts w.sessions))
unfolding find_page running
pages_computing s accepts before limit zero w = take_at {m = 0} _ (omega arith)
pages_computing s accepts before limit (suc n) w =
    let sorted = sort_by before (keep accepts w.sessions) in
    let skipped : (suc n - 1) * limit ≡ n * limit = rw (less n) refl in
    let both : n * limit + limit ≡ suc n * limit = more n limit in
    rw (pages_computing s accepts before limit n w, skipped)
      (take-add (n * limit) limit sorted ∙ take_at sorted both)

-- The pages of a list that a service sorts and cuts are the list: the first n pages of any size, one
-- after another, are its first n * limit rows, so no row is missed and none comes twice.
pub find_page-first_pages :
    (s : Services) (d : Documented s) (accepts : EmergencySession → Bool)
    (before : EmergencySession → EmergencySession → Bool) (limit n : ℕ) (w : World)
    → first_pages s accepts before limit n w
      ≡ take (n * limit) (sort_by before (keep accepts w.sessions))
find_page-first_pages s d = rw (services-eq d) (pages_computing s)
