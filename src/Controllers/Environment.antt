-- ===== src/Controllers/Environment.antt =====
-- What the controllers' services are made with, and the pages of a query.
use aalam_security_back.Common.{ℕ, Bool, Option, List, or_else}
use aalam_security_back.Schema.{Text}
use aalam_security_back.Services.{Services}
use aalam_security_back.Auth.{AuthServices}
use aalam_security_back.Venues.{Letters}

-- The collation of the database, the random bytes after a number of draws, whether the environment is
-- production and the bot's secret complete the services.
pub record Environment : Type 1 where
  pub services : Services
  pub auth : AuthServices
  pub letters : Letters
  pub random_bytes : ℕ → List ℕ
  pub collates : Text → Text → Bool
  pub production : Bool
  pub bot_secret : Option Text

-- `PaginationQueryDto`
pub record PaginationQuery : Type 0 where
  pub page : Option ℕ
  pub limit : Option ℕ

-- `query.page ?? 1` and `query.limit ?? 20`
abbrev pub page_of : PaginationQuery → ℕ
page_of q = or_else q.page 1

abbrev pub limit_of : PaginationQuery → ℕ
limit_of q = or_else q.limit 20
