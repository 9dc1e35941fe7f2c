-- ===== src/Configuration/Process.antt =====
-- The environment's variables and the configuration object; and the token that opens /metrics, of
-- common/middleware/metrics-token.middleware.ts.
use aalam_security_back.Common.{
  ℕ, ◌*◌, Bool, true, false, Option, none, some, List, [], ◌∷◌, or_else, ◌||◌, ◌==◌,
}
use aalam_security_back.Schema.{Text, text_eq}
use aalam_security_back.Presence.Decimal.{parse_int}
use aalam_security_back.Admin.Operators.{codes, truthy}
use aalam_security_back.Configuration.{parse_allowed_origins, parse_duration_seconds}

pub record ProcessEnv : Type 0 where
  pub node_env : Option Text
  pub port : Option Text
  pub allowed_origins : Option Text
  pub log_level : Option Text
  pub sentry_dsn : Option Text
  pub metrics_token : Option Text
  pub app_url : Option Text
  pub database_url : Option Text
  pub redis_host : Option Text
  pub redis_port : Option Text
  pub redis_password : Option Text
  pub jwt_access_secret : Option Text
  pub jwt_refresh_secret : Option Text
  pub jwt_access_expires : Option Text
  pub jwt_refresh_expires : Option Text
  pub smtp_host : Option Text
  pub smtp_port : Option Text
  pub smtp_user : Option Text
  pub smtp_password : Option Text
  pub mail_from : Option Text
  pub telegram_bot_secret : Option Text
  pub telegram_bot_username : Option Text

pub record RedisConfiguration : Type 0 where
  pub host : Text
  pub port : Option ℕ
  pub password : Option Text

pub record JwtConfiguration : Type 0 where
  pub access_secret : Option Text
  pub refresh_secret : Option Text
  pub access_expires : Text
  pub refresh_expires : Text
  pub refresh_ttl_seconds : ℕ

pub record MailConfiguration : Type 0 where
  pub host : Option Text
  pub port : Option ℕ
  pub user : Option Text
  pub password : Option Text
  pub from : Option Text

pub record TelegramConfiguration : Type 0 where
  pub bot_secret : Option Text
  pub bot_username : Option Text

-- A port is `none` where parseInt gives NaN.
pub record Configuration : Type 0 where
  pub node_env : Text
  pub port : Option ℕ
  pub allowed_origins : List Text
  pub log_level : Text
  pub sentry_dsn : Option Text
  pub metrics_token : Option Text
  pub app_url : Option Text
  pub database_url : Option Text
  pub redis : RedisConfiguration
  pub jwt : JwtConfiguration
  pub mail : MailConfiguration
  pub telegram : TelegramConfiguration

-- `value || standard`
abbrev pub or_standard : Option Text → Text → Text
or_standard value standard = or_else (truthy value) standard

unfoldable pub configuration : ProcessEnv → Configuration
configuration env = record {
  node_env = or_standard env.node_env (codes "development");
  port = parse_int (or_standard env.port (codes "3000"));
  allowed_origins = parse_allowed_origins env.allowed_origins;
  log_level = or_standard env.log_level (codes "info");
  sentry_dsn = truthy env.sentry_dsn;
  metrics_token = truthy env.metrics_token;
  app_url = env.app_url;
  database_url = env.database_url;
  redis = record {
    host = or_standard env.redis_host (codes "localhost");
    port = parse_int (or_standard env.redis_port (codes "6379"));
    password = truthy env.redis_password;
  };
  jwt = record {
    access_secret = env.jwt_access_secret;
    refresh_secret = env.jwt_refresh_secret;
    access_expires = or_standard env.jwt_access_expires (codes "15m");
    refresh_expires = or_standard env.jwt_refresh_expires (codes "7d");
    refresh_ttl_seconds =
        parse_duration_seconds (or_standard env.jwt_refresh_expires (codes "7d")) (7 * 86400);
  };
  mail = record {
    host = truthy env.smtp_host;
    port = parse_int (or_standard env.smtp_port (codes "587"));
    user = truthy env.smtp_user;
    password = truthy env.smtp_password;
    from = truthy env.mail_from;
  };
  telegram = record {
    bot_secret = env.telegram_bot_secret;
    bot_username = env.telegram_bot_username;
  };
}

-- What comes after a prefix.
abbrev pub after_prefix : Text → Text → Option Text
after_prefix [] text = some text
after_prefix (p ∷ ps) [] = none
after_prefix (p ∷ ps) (c ∷ cs) =
    let rest = after_prefix ps cs in elim (p == c) [ true ↦ rest | false ↦ none ]

abbrev pub bearer_of : Option Text → Option Text
bearer_of none = none
bearer_of (some header) = after_prefix (codes "Bearer ") header

abbrev pub is_text : Option Text → Text → Bool
is_text none expected = false
is_text (some given) expected = text_eq given expected

-- Whether the request goes on to the metrics, else it is answered 401: the configured token, the
-- query's and the header Authorization.
unfoldable pub opens_metrics : Option Text → Option Text → Option Text → Bool
opens_metrics none token authorization = true
opens_metrics (some []) token authorization = true
opens_metrics (some (c ∷ cs)) token authorization =
    is_text token (c ∷ cs) || is_text (bearer_of authorization) (c ∷ cs)
