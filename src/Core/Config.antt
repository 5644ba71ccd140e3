-- ===== src/Core/Config.antt =====
-- app/core/config.py: the settings of the service with their defaults, and what is computed from
-- them. How they are read from the environment is pydantic's.
use ra_backend.Base.{
  ℕ, ◌*◌, String, Bool, true, false, List, [], ◌∷◌, map, ◌==◌, ◌≡◌, refl, non_empty, select,
  if◌then◌else◌,
}
use ra_backend.Base.Text.{is_comma, pieces, strip}

pub data Environment : Type 0 where
  development staging production : Environment

-- The values of the `Literal`
unfoldable pub environment_name : Environment → String
environment_name development = "development"
environment_name staging = "staging"
environment_name production = "production"

pub record Settings : Type 0 where
  pub environment : Environment
  pub debug : Bool
  pub project_name : String
  pub api_prefix : String
  pub log_level : String
  pub log_json : Bool
  pub cors_origins : String
  pub jwt_secret : String
  pub jwt_algorithm : String
  pub access_token_expire_minutes : ℕ
  pub refresh_token_expire_minutes : ℕ
  pub max_failed_logins : ℕ
  pub lockout_minutes : ℕ
  pub bootstrap_admin_email : String
  pub bootstrap_admin_password : String
  pub app_db_host : String
  pub app_db_port : ℕ
  pub app_db_name : String
  pub app_db_user : String
  pub app_db_password : String
  pub app_db_schema : String
  pub db_pool_size : ℕ
  pub db_max_overflow : ℕ
  pub db_echo : Bool
  pub redis_url : String
  pub celery_broker_url : String
  pub celery_result_backend : String
  pub clickhouse_enabled : Bool
  pub clickhouse_host : String
  pub clickhouse_port : ℕ
  pub clickhouse_user : String
  pub clickhouse_password : String
  pub clickhouse_database : String
  pub ra_pg_enabled : Bool
  pub ra_pg_host : String
  pub ra_pg_port : ℕ
  pub ra_pg_name : String
  pub ra_pg_user : String
  pub ra_pg_password : String
  pub airflow_enabled : Bool
  pub airflow_base_url : String
  pub airflow_username : String
  pub airflow_password : String
  pub reports_dir : String

-- The settings where the environment gives none.
abbrev pub default_settings : Settings
default_settings = record {
  environment = development;
  debug = false;
  project_name = "RADONAIX Revenue Assurance API";
  api_prefix = "/api";
  log_level = "INFO";
  log_json = true;
  cors_origins = "http://localhost:3000,http://localhost:5173,http://localhost:8080";
  jwt_secret = "change-me-in-production";
  jwt_algorithm = "HS256";
  access_token_expire_minutes = 60 * 12;
  refresh_token_expire_minutes = 60 * 24 * 14;
  max_failed_logins = 5;
  lockout_minutes = 15;
  bootstrap_admin_email = "admin@radonaix.io";
  bootstrap_admin_password = "ChangeMe!123";
  app_db_host = "localhost";
  app_db_port = 5432;
  app_db_name = "radonaix_app";
  app_db_user = "radonaix";
  app_db_password = "radonaix";
  app_db_schema = "administration";
  db_pool_size = 10;
  db_max_overflow = 20;
  db_echo = false;
  redis_url = "redis://localhost:6379/0";
  celery_broker_url = "redis://localhost:6379/1";
  celery_result_backend = "redis://localhost:6379/2";
  clickhouse_enabled = true;
  clickhouse_host = "localhost";
  clickhouse_port = 8123;
  clickhouse_user = "default";
  clickhouse_password = "";
  clickhouse_database = "rafms";
  ra_pg_enabled = true;
  ra_pg_host = "localhost";
  ra_pg_port = 5432;
  ra_pg_name = "rafms";
  ra_pg_user = "postgres";
  ra_pg_password = "postgres";
  airflow_enabled = false;
  airflow_base_url = "http://localhost:8081/api/v1";
  airflow_username = "airflow";
  airflow_password = "airflow";
  reports_dir = "/var/lib/radonaix/reports";
}

-- `Settings.cors_origin_list`
unfoldable pub cors_origin_list : String → List String
unfolding is_comma pieces strip
cors_origin_list cors_origins =
    let raw = strip cors_origins in
    if raw == "*" then "*" ∷ [] else select non_empty (map strip (pieces is_comma raw))

-- The arguments of `PostgresDsn.build`
pub record DsnParts : Type 0 where
  pub scheme : String
  pub username : String
  pub password : String
  pub host : String
  pub port : ℕ
  pub path : String

abbrev dsn_parts : String → Settings → DsnParts
dsn_parts scheme s = record {
  scheme = scheme;
  username = s.app_db_user;
  password = s.app_db_password;
  host = s.app_db_host;
  port = s.app_db_port;
  path = s.app_db_name;
}

-- The two addresses of the application's database, where `build` is `str(PostgresDsn.build(…))`.
unfoldable pub app_database_url : (DsnParts → String) → Settings → String
app_database_url build s = build (dsn_parts "postgresql+asyncpg" s)

unfoldable pub app_database_url_sync : (DsnParts → String) → Settings → String
app_database_url_sync build s = build (dsn_parts "postgresql+psycopg2" s)

unfoldable pub is_production : Settings → Bool
unfolding environment_name
is_production s = environment_name s.environment == "production"

test_default_origins :
    cors_origin_list default_settings.cors_origins
    ≡ "http://localhost:3000" ∷ "http://localhost:5173" ∷ "http://localhost:8080" ∷ []
unfolding cors_origin_list
test_default_origins = refl
