-- ===== src/Config.antt =====
-- config/env.validation.ts, config/configuration.ts, and how prisma/prisma.service.ts,
-- jobs/pgboss.service.ts and prisma7.config.ts choose their connection.
pub mod Start
use betti_coaching_calendar.Prelude.{
  ℕ, Bool, true, false, not, ◌&&◌, ◌||◌, ◌==◌, leb, any, String, str_eq, Option, none, some, List,
  [], ◌∷◌, get_or, or_else, length, if◌then◌else◌,
}
use betti_coaching_calendar.Http.{Error, failure, Result, ok, err}
use betti_coaching_calendar.Settings.Palette.{codes}
use betti_coaching_calendar.Common.Crypto.{key_length}
use betti_coaching_calendar.Notifications.Formats.{has_text}

-- `process.env`
pub record Environment : Type 0 where
  pub database_url : Option String
  pub database_pooler_url : Option String
  pub database_direct_url : Option String
  pub port : Option String
  pub business_timezone : Option String
  pub jwt_secret : Option String
  pub gmail_user : Option String
  pub gmail_app_password : Option String
  pub email_from : Option String
  pub resend_api_key : Option String
  pub google_client_id : Option String
  pub google_client_secret : Option String
  pub google_oauth_redirect_uri : Option String
  pub encryption_key : Option String
  pub node_env : Option String

-- class-validator, the conversion to a number, which is `none` where it gives no natural number, and
-- the bytes of a text in base64
pub record Validators (Byte : Type 0) : Type 0 where
  pub is_email : String → Bool
  pub is_url : String → Bool
  pub to_number : String → Option ℕ
  pub from_base64 : String → List Byte

-- a text that must be there and pass
abbrev pub is_text : (String → Bool) → Option String → Bool
is_text p none = false
is_text p (some text) = p text

abbrev pub is_string : Option String → Bool
is_string = is_text (λ _. true)

-- `@MinLength`
abbrev pub min_length : ℕ → String → Bool
min_length n text = leb n (length (codes text))

abbrev pub in_range : ℕ → ℕ → Option ℕ → Bool
in_range low high none = false
in_range low high (some n) = leb low n && leb n high

abbrev pub is_node_env : String → Bool
is_node_env name = any (str_eq name) ("development" ∷ "production" ∷ "test" ∷ [])

abbrev pub number_of : (String → Option ℕ) → Option String → Option ℕ
number_of f none = none
number_of f (some text) = f text

module _ {Byte : Type 0} (v : Validators Byte) where
  -- the decorators of `EnvironmentVariables`
  unfoldable pub is_valid : Environment → Bool
  unfolding any
  is_valid env =
      in_range 1 65535 (number_of v.to_number env.port)
      && is_string env.business_timezone
      && is_text (min_length 32) env.jwt_secret
      && is_text v.is_email env.gmail_user
      && is_text (min_length 16) env.gmail_app_password
      && is_string env.email_from
      && is_string env.google_client_id
      && is_string env.google_client_secret
      && is_text v.is_url env.google_oauth_redirect_uri
      && is_string env.encryption_key
      && is_node_env (get_or env.node_env "development")

  abbrev check_key : ℕ → Environment → Result Environment
  check_key bytes env =
      if bytes == key_length
      then ok env
      else err (failure "ENCRYPTION_KEY must decode from base64 to exactly 32 bytes")

  unfoldable pub validate_env : Environment → Result Environment
  unfolding is_valid
  validate_env env =
      if not (is_valid env)
      then err (failure "Invalid environment configuration")
      else if not (has_text env.database_pooler_url || has_text env.database_url)
      then err (failure "set DATABASE_POOLER_URL (production) or DATABASE_URL (local/test)")
      else if not (has_text env.database_direct_url || has_text env.database_url)
      then err (failure "set DATABASE_DIRECT_URL (production) or DATABASE_URL (local/test)")
      else check_key (length (v.from_base64 (get_or env.encryption_key ""))) env

-- `connectionString` of PrismaService and of PgBossService
unfoldable pub connection_string : Environment → Option String
connection_string env = or_else env.database_pooler_url env.database_url

-- `datasource.url` of the migrations
unfoldable pub migration_url : Environment → Option String
migration_url env = or_else env.database_direct_url env.database_url

pub record AppConfig : Type 0 where
  pub port : Option ℕ
  pub business_timezone : String
  pub jwt_secret : String
  pub email_from : String
  pub gmail_user : String
  pub gmail_app_password : String
  pub resend_api_key : Option String
  pub google_client_id : String
  pub google_client_secret : String
  pub google_redirect_uri : String
  pub encryption_key : String

-- with `parseInt`
unfoldable pub configuration : (String → Option ℕ) → Environment → AppConfig
configuration parse_int env = record {
  port = parse_int (get_or env.port "3000");
  business_timezone = get_or env.business_timezone "Europe/Budapest";
  jwt_secret = get_or env.jwt_secret "";
  email_from = get_or env.email_from "";
  gmail_user = get_or env.gmail_user "";
  gmail_app_password = get_or env.gmail_app_password "";
  resend_api_key = env.resend_api_key;
  google_client_id = get_or env.google_client_id "";
  google_client_secret = get_or env.google_client_secret "";
  google_redirect_uri = get_or env.google_oauth_redirect_uri "";
  encryption_key = get_or env.encryption_key "";
}
