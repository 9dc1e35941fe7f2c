-- ===== src/Venues/Generation.antt =====
-- What the generation of an invite code, of prisma/lib/invite-code.ts, keeps.
use aalam_security_back.Common.{ℕ, zero, suc, List}
use aalam_security_back.Services.{Services}
use aalam_security_back.World.{World}
use aalam_security_back.World.Keeps.{Keeps, bind, either, gives, rules}
use aalam_security_back.Venues.InviteCodes.{
  generate_invite_code, try_codes, generate_unique_invite_code, attempts,
}

module _ {κ} {P : World → Type κ} (s : Services) (random_bytes : ℕ → List ℕ)
    (again : (w : World) → P w → P (record w { drawn = suc w.drawn })) where
  draws_code : Keeps P (generate_invite_code s random_bytes)
  unfolding generate_invite_code
  draws_code = record { run = again }

  tries_codes : (n : ℕ) → Keeps P (try_codes s random_bytes n)
  unfolding try_codes
  tries_codes zero = search rules
  tries_codes (suc n) =
      let rest = tries_codes n in
      bind draws_code (λ code.
        bind (search rules) (λ venue. bind (search rules) (λ org. either _ rest (gives code))))

  pub generates : Keeps P (generate_unique_invite_code s random_bytes)
  unfolding generate_unique_invite_code
  generates = tries_codes attempts
