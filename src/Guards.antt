-- ===== src/Guards.antt =====
-- common/guards and modules/auth/strategies/jwt.strategy.ts: who may call a route.
pub mod Secrets
use aalam_security_back.Common.{
  ℕ, ◌+◌, Bool, true, false, Option, none, some, List, [], ◌∷◌, ◌++◌, ◌==◌, ◌||◌, not, any, ltb,
  is_some, length, if◌then◌else◌,
}
use aalam_security_back.Schema.{Text, text_eq, Role, User}
use aalam_security_back.Errors.{Exception, status_401, status_403, http_exception}
use aalam_security_back.Services.{Services, JwtPayload}
use aalam_security_back.World.{World, M, ◌>>=◌, ◌>>◌, pure, throw, read, skip, when, require}
use aalam_security_back.Queries.{user_by_id}
use aalam_security_back.Auth.{unauthorized}

-- What `request.user` holds.
pub record Principal : Type 0 where
  pub id : ℕ
  pub email : Text
  pub role : Role

abbrev pub role_eq : Role → Role → Bool
role_eq Role.user Role.user = true
role_eq Role.operator Role.operator = true
role_eq Role.admin Role.admin = true
role_eq _ _ = false

abbrev pub principal_of : User → Principal
principal_of u = record { id = u.id; email = u.email; role = u.role }

-- `requiredRoles.includes(user.role)`
abbrev pub includes : List Role → Role → Bool
includes roles role = any (λ r. role_eq r role) roles

-- `RolesGuard.canActivate`, with the metadata of the handler, else of the class.
unfoldable pub can_activate : Option (List Role) → Principal → M (Unit {0})
can_activate none user = skip
can_activate (some []) user = skip
can_activate (some (role ∷ roles)) user =
    when (not (includes (role ∷ roles) user.role)) (throw (http_exception status_403))

-- A code unit of a text without surrogates, as `Buffer.from` encodes it; the bytes are given by their
-- number alone where it decides.
abbrev pub utf8_length : Text → ℕ
utf8_length [] = 0
utf8_length (c ∷ cs) = (if ltb c 128 then 1 else if ltb c 2048 then 2 else 3) + utf8_length cs

-- `SharedSecretGuard.canActivate` with the secret of the configuration and the header. Buffers of
-- unequal sizes make `timingSafeEqual` throw a RangeError.
unfoldable pub check_secret : Option Text → Option Text → M (Unit {0})
check_secret none provided = throw unauthorized
check_secret (some []) provided = throw unauthorized
check_secret (some (c ∷ cs)) none = throw unauthorized
check_secret (some (c ∷ cs)) (some provided) = do
  when (not (length provided == length (c ∷ cs))) (throw unauthorized)
  when (not (utf8_length provided == utf8_length (c ∷ cs))) (throw Exception.range_error)
  when (not (text_eq provided (c ∷ cs))) (throw unauthorized)

module _ (s : Services) where
  -- `JwtStrategy.validate`
  unfoldable pub validate : JwtPayload → M Principal
  validate payload = do
    found ← read (λ w. s.find_first (user_by_id payload.sub) w.users)
    user ← require found unauthorized
    when (is_some user.deleted_at) (throw unauthorized)
    pure (principal_of user)

  -- `JwtAuthGuard`: the bearer token of the request, verified by passport, then `validate`.
  unfoldable pub jwt_auth_guard : Option ℕ → M Principal
  unfolding validate
  jwt_auth_guard none = throw unauthorized
  jwt_auth_guard (some token) = do
    verified ← read (λ w. s.verify_access w.now token)
    payload ← require verified unauthorized
    validate payload
