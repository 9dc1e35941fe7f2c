-- ===== src/Venues/InviteCodes.antt =====
-- prisma/lib/invite-code.ts and modules/venue/utils/invite-code.ts: invite codes that no venue and no
-- organization has.
use aalam_security_back.Common.{
  ℕ, zero, suc, ◌%◌, ◌≡◌, refl, Bool, false, none, some, List, [], ◌∷◌, map, ◌||◌, not, length,
  is_some, if◌then◌else◌, Bool-cases, inl, inr,
}
use aalam_security_back.Schema.{Text, Organization, Venue, text_eq}
use aalam_security_back.Errors.{status_409, http_exception}
use aalam_security_back.Services.{Services, Documented, computing, services-eq}
use aalam_security_back.Rows.{find}
use aalam_security_back.World.{World, M, ◌>>=◌, pure, throw, read, ok, result, running}
use aalam_security_back.Admin.Operators.{codes}

abbrev pub alphabet : Text
alphabet = codes "ABCDEFGHJKLMNPQRSTUVWXYZ23456789"

-- `letters[i]`; the index is below the length.
abbrev pub letter_at : ℕ → Text → ℕ
letter_at i [] = 0
letter_at zero (c ∷ cs) = c
letter_at (suc i) (c ∷ cs) = letter_at i cs

-- `generateInviteCode`, on its random bytes.
abbrev pub code_of_bytes : List ℕ → Text
code_of_bytes bytes = map (λ b. letter_at (b % length alphabet) alphabet) bytes

abbrev pub is_venues_code : Text → Venue → Bool
is_venues_code code v = text_eq v.invite_code code

abbrev pub is_organizations_code : Text → Organization → Bool
is_organizations_code code o = elim o.invite_code [ none ↦ false | some c ↦ text_eq c code ]

abbrev pub attempts : ℕ
attempts = 20

-- `random_bytes n` is the nth array that `getRandomValues` fills.
module _ (s : Services) (random_bytes : ℕ → List ℕ) where
  unfoldable pub generate_invite_code : M Text
  generate_invite_code w =
      ok (code_of_bytes (random_bytes w.drawn)) (record w { drawn = suc w.drawn })

  -- The loop of `generateUniqueInviteCodeAcrossTables`, with the attempts that are left.
  unfoldable pub try_codes : ℕ → M Text
  unfolding generate_invite_code
  try_codes zero = throw (http_exception status_409)
  try_codes (suc n) =
      let rest = try_codes n in
      do
        code ← generate_invite_code
        venue ← read (λ w. s.find_first (is_venues_code code) w.venues)
        org ← read (λ w. s.find_first (is_organizations_code code) w.organizations)
        (if is_some venue || is_some org then rest else pure code)

  unfoldable pub generate_unique_invite_code : M Text
  unfolding try_codes
  generate_unique_invite_code = try_codes attempts

-- The codes of the next draws.
abbrev pub candidates : (ℕ → List ℕ) → ℕ → ℕ → List Text
candidates random_bytes zero drawn = []
candidates random_bytes (suc n) drawn =
    code_of_bytes (random_bytes drawn) ∷ candidates random_bytes n (suc drawn)

abbrev pub is_free : List Venue → List Organization → Text → Bool
is_free venues organizations code = not (
    is_some (find (is_venues_code code) venues)
    || is_some (find (is_organizations_code code) organizations))

module _ (s : Services) (random_bytes : ℕ → List ℕ) where
  tries :
      (n : ℕ) (w : World)
      → result (try_codes (computing s) random_bytes n w)
        ≡ find (is_free w.venues w.organizations) (candidates random_bytes n w.drawn)
  unfolding try_codes generate_invite_code running
  tries zero w = refl
  tries (suc n) w =
      elim (Bool-cases (
        is_some (find (is_venues_code (code_of_bytes (random_bytes w.drawn))) w.venues)
        || is_some (
            find (is_organizations_code (code_of_bytes (random_bytes w.drawn))) w.organizations))) [
              | inl taken ↦ rw taken (tries n (record w { drawn = suc w.drawn }))
              | inr free ↦ rw free refl
            ]

-- The generation of an invite code answers with the first of its twenty candidates that neither a
-- venue nor an organization has, and fails exactly when all of them are taken.
pub generate_unique_invite_code-find :
    (s : Services) (d : Documented s) (random_bytes : ℕ → List ℕ) (w : World)
    → result (generate_unique_invite_code s random_bytes w)
      ≡ find (is_free w.venues w.organizations) (candidates random_bytes attempts w.drawn)
unfolding generate_unique_invite_code
generate_unique_invite_code-find s d random_bytes w =
    rw (services-eq d) (tries s random_bytes attempts w)
