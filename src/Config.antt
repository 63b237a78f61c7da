-- ===== src/Config.antt =====
-- internal/config/config.go. The environment, with what godotenv adds, gives a text for each
-- name, which is empty where the name is not set; `time.ParseDuration` is an argument. A duration
-- is in nanoseconds.
pub mod Required
use telebook_server.Prelude.{
  String, ◌≡◌, Bool, true, false, Option, none, some, ◌==◌, if◌then◌else◌, ◌⊎◌, inl, inr,
}
use telebook_server.Prelude.Int.{ℤ, pos}

pub record Config : Type 0 where
  pub http_addr : String
  pub database_url : String
  pub sync_secret : String
  pub jwt_secret : String
  pub jwt_ttl : ℤ
  pub refresh_ttl : ℤ
  pub redis_addr : String
  pub version : String
  pub minio_endpoint : String
  pub minio_access_key : String
  pub minio_secret_key : String
  pub minio_bucket : String
  pub minio_use_ssl : Bool
  pub minio_public_port : String
  pub minio_public_endpoint : String

pub data ConfigError : Type 0 where
  database_url_required sync_secret_required jwt_secret_required : ConfigError

-- 30 days.
abbrev pub default_ttl : ℤ
default_ttl = pos 2592000000000000

module _ (env : String → String) (parse_duration : String → Option ℤ) where
  unfoldable pub getenv : String → String → String
  getenv key fallback = if env key == "" then fallback else env key

  -- A text that is not a duration is passed over.
  unfoldable pub refresh_ttl_from : String → ℤ
  refresh_ttl_from text =
      if text == ""
      then default_ttl
      else elim (parse_duration text) [ none ↦ default_ttl | some d ↦ d ]

  -- The settings before the tests.
  unfoldable pub from_environment : Config
  unfolding getenv refresh_ttl_from
  from_environment = record {
    http_addr = getenv "HTTP_ADDR" ":8080";
    database_url = env "DATABASE_URL";
    sync_secret = env "SYNC_SECRET";
    jwt_secret = env "JWT_SECRET";
    jwt_ttl = default_ttl;
    refresh_ttl = refresh_ttl_from (env "JWT_REFRESH_TTL");
    redis_addr = env "REDIS_ADDR";
    version = "0.1.0";
    minio_endpoint = env "MINIO_ENDPOINT";
    minio_access_key = env "MINIO_ACCESS_KEY";
    minio_secret_key = env "MINIO_SECRET_KEY";
    minio_bucket = getenv "MINIO_BUCKET" "telebook";
    minio_use_ssl = env "MINIO_USE_SSL" == "true";
    minio_public_port = getenv "MINIO_PUBLIC_PORT" "9000";
    minio_public_endpoint = env "MINIO_PUBLIC_ENDPOINT";
  }

  unfoldable pub load : ConfigError ⊎ Config
  unfolding from_environment
  load =
      if env "DATABASE_URL" == ""
      then inl database_url_required
      else if env "SYNC_SECRET" == ""
      then inl sync_secret_required
      else if env "JWT_SECRET" == ""
      then inl jwt_secret_required
      else inr from_environment
