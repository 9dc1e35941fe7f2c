-- ===== src/Controllers/Public.antt =====
-- modules/auth/auth.controller.ts. The throttling of its routes is the framework's.
use aalam_security_back.Common.{ℕ, Option}
use aalam_security_back.Schema.{Text}
use aalam_security_back.World.{M, ◌>>◌}
use aalam_security_back.Guards.{Principal, check_secret}
use aalam_security_back.Auth
use aalam_security_back.Auth.{TokenPair, RegisterDto, TelegramDto}
use aalam_security_back.Controllers.Environment.{Environment}

-- The routes without a session; the bot's carries the header X-Bot-Secret.
pub data PublicRoute : Type 0 where
  forgot : Text → PublicRoute
  set_forgotten sign_in : Text → Text → PublicRoute
  sign_up : RegisterDto → PublicRoute
  rotate : ℕ → PublicRoute
  confirm : Option Text → TelegramDto → PublicRoute

abbrev pub PublicAnswer : PublicRoute → Type 0
PublicAnswer (forgot email) = Unit
PublicAnswer (set_forgotten token password) = Unit
PublicAnswer (sign_in email password) = TokenPair
PublicAnswer (sign_up dto) = TokenPair
PublicAnswer (rotate token) = TokenPair
PublicAnswer (confirm header dto) = Unit

unfoldable pub public_controller : (e : Environment) → (r : PublicRoute) → M (PublicAnswer r)
public_controller e (forgot email) = Auth.forgot_password e.services e.auth email
public_controller e (set_forgotten token password) =
    Auth.reset_password e.services e.auth token password
public_controller e (sign_in email password) = Auth.login e.services e.auth email password
public_controller e (sign_up dto) = Auth.register e.services e.auth dto
public_controller e (rotate token) = Auth.refresh e.services e.auth token
public_controller e (confirm header dto) =
    check_secret e.bot_secret header >> Auth.confirm_telegram_verification e.services e.auth dto

-- The routes of the same controller for a signed-in person.
pub data SessionRoute : Type 0 where
  sign_out : ℕ → SessionRoute
  verify_telegram : SessionRoute

abbrev pub SessionAnswer : SessionRoute → Type 0
SessionAnswer (sign_out token) = Unit
SessionAnswer verify_telegram = Text

unfoldable pub session_controller :
    (e : Environment) → Principal → (r : SessionRoute) → M (SessionAnswer r)
session_controller e user (sign_out token) = Auth.logout e.services e.auth user.id token
session_controller e user verify_telegram =
    Auth.start_telegram_verification e.services e.auth user.id
