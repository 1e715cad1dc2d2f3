-- ===== src/Config.antt =====
-- internal/infrastructure/config/config.go. The environment is what os.Getenv gives for a name, ""
-- for one that is not set. The one setting that is a floating point number is left out.
pub mod Guards
pub mod Kept
use Prim.Native.Char.{Char, code}
use Prim.Native.String.{[], ◌∷◌}
use bff_api_go_collection_ac.Base.{
  ℕ, ◌-◌, ◌*◌, String, Bool, true, false, ◌&&◌, ◌||◌, ◌==◌, leb, if◌then◌else◌,
}
use bff_api_go_collection_ac.Base.Ints.{ℤ, pos, ltb_ℤ, wrap, ◌+ℤ◌, ◌*ℤ◌}
use bff_api_go_collection_ac.Base.Texts.{trim_space, to_lower}

abbrev pub Environment : Type 0
Environment = (name : String) → String

unfoldable pub get_env_or_default : Environment → (key default_value : String) → String
get_env_or_default env key default_value = if env key == "" then default_value else env key

-- The digits of a text as an int, with all else passed over.
abbrev digit_onto : ℤ → Char → ℤ
digit_onto n c =
    if leb b'0' (code c) && leb (code c) b'9'
    then wrap (wrap (n *ℤ pos 10) +ℤ pos (code c - b'0'))
    else n

unfoldable pub digits_onto : ℤ → String → ℤ
digits_onto n [] = n
digits_onto n (c ∷ s) = digits_onto (digit_onto n c) s

unfoldable pub get_env_int_or_default : Environment → (key : String) → (default_val : ℤ) → ℤ
get_env_int_or_default env key default_val =
    if env key == ""
    then default_val
    else if ltb_ℤ (pos 0) (digits_onto (pos 0) (env key))
    then digits_onto (pos 0) (env key)
    else default_val

abbrev pub is_true_word : String → Bool
is_true_word v = v == "1" || v == "true" || v == "yes" || v == "on"

unfoldable pub is_true_env : Environment → (key : String) → Bool
is_true_env env key =
    if env key == "" then false else is_true_word (to_lower (trim_space (env key)))

unfoldable pub is_true_env_default : Environment → (key : String) → (default_val : Bool) → Bool
is_true_env_default env key default_val = if env key == "" then default_val else is_true_env env key

pub record Config : Type 0 where
  pub port : String
  pub core_base_url : String
  pub crypto_bff_base_url : String
  pub crypto_enabled : Bool
  pub request_timeout_seconds : ℤ
  pub max_request_body_bytes : ℤ
  pub rate_limit_requests : ℤ
  pub rate_limit_window_sec : ℤ
  pub aws_region : String
  pub cognito_pool_id : String
  pub cognito_issuer : String
  pub cognito_audience : String
  pub cognito_jwks_url : String
  pub trusted_proxies : String
  pub rate_limit_skip_paths : String
  pub corss_origins : String
  pub session_backend : String
  pub log_level : String
  pub otel_service_name : String
  pub crypto_session_secret : String
  pub crypto_session_issuer : String
  pub crypto_session_ttl : ℤ
  pub internal_jwt_secret : String
  pub internal_jwt_issuer : String
  pub internal_jwt_core_audience : String
  pub internal_jwt_active_kid : String
  pub internal_jwt_crypto_audience : String
  pub crypto_version : String
  pub crypto_mode : String
  pub crypto_fail_closed : Bool
  pub crypto_max_payload_size : ℤ
  pub crypto_log_ciphertext : Bool
  pub crypto_log_plaintext : Bool
  pub crypto_required_endpoints : String
  pub crypto_keys : String
  pub crypto_active_kid : String
  pub crypto_session_mode : String
  pub crypto_session_backend : String
  pub crypto_session_namespace : String
  pub crypto_session_redis_rollback : Bool
  pub crypto_session_kek_active_kid : String
  pub crypto_session_kek_active_b64 : String
  pub crypto_session_kek_previous_kid : String
  pub crypto_session_kek_previous_b64 : String
  pub crypto_tenant_digest_key : String
  pub management_core_base_url : String
  pub identity_core_base_url : String
  pub notification_cursor_secret : String
  pub notification_stream_max_seconds : ℤ
  pub redis_url : String
  pub environment : String
  pub keycloak_url : String
  pub keycloak_public_url : String
  pub keycloak_realm : String
  pub keycloak_client_id : String
  pub keycloak_timeout_seconds : ℤ
  pub bff_oidc_redirect_uri : String
  pub bff_post_login_url : String
  pub bff_post_logout_url : String
  pub bff_cookie_secure : Bool
  pub bff_cookie_same_site : String

-- Load
unfoldable pub load : Environment → Config
load env = record {
  port = get_env_or_default env "PORT" "8000";
  core_base_url =
      get_env_or_default env "CORE_BASE_URL"
        (get_env_or_default env "API_BASE_URL" "http://localhost:9090");
  crypto_bff_base_url =
      get_env_or_default env "CRYPTO_BFF_BASE_URL"
        (get_env_or_default env "CRYPTO_BFF_URL" "http://localhost:8081");
  crypto_enabled = is_true_env env "CRYPTO_ENABLED";
  request_timeout_seconds = get_env_int_or_default env "REQUEST_TIMEOUT_SECONDS" (pos 30);
  max_request_body_bytes = get_env_int_or_default env "MAX_REQUEST_BODY_BYTES" (pos 65536);
  rate_limit_requests = get_env_int_or_default env "RATE_LIMIT_REQUESTS" (pos 60);
  rate_limit_window_sec = get_env_int_or_default env "RATE_LIMIT_WINDOW_SECONDS" (pos 60);
  aws_region = get_env_or_default env "AWS_REGION" "us-east-1";
  cognito_pool_id = get_env_or_default env "COGNITO_POOL_ID" "";
  cognito_issuer = get_env_or_default env "COGNITO_ISSUER" "";
  cognito_audience =
      get_env_or_default env "COGNITO_AUDIENCE" (get_env_or_default env "COGNITO_CLIENT_ID" "");
  cognito_jwks_url = get_env_or_default env "COGNITO_JWKS_URL" "";
  trusted_proxies = get_env_or_default env "TRUSTED_PROXIES" "127.0.0.1";
  rate_limit_skip_paths = get_env_or_default env "RATE_LIMIT_SKIP_PATHS" "/health";
  corss_origins = get_env_or_default env "BFF_CORS_ORIGINS" "http://localhost:5173";
  session_backend = get_env_or_default env "SESSION_BACKEND" "redis";
  log_level = get_env_or_default env "LOG_LEVEL" "info";
  otel_service_name =
      get_env_or_default env "OTEL_SERVICE_NAME" "bff-api-go-collection-activity-log";
  crypto_session_secret =
      get_env_or_default env "CRYPTO_SESSION_TOKEN_SECRET"
        (get_env_or_default env "INTERNAL_JWT_SECRET" "dev-internal-jwt-secret-32-bytes-min");
  crypto_session_issuer = get_env_or_default env "CRYPTO_SESSION_ISSUER" "hawthorne-bff";
  crypto_session_ttl = get_env_int_or_default env "CRYPTO_SESSION_TTL_SECONDS" (pos 900);
  internal_jwt_secret =
      get_env_or_default env "INTERNAL_JWT_SECRET"
        (get_env_or_default env "CORE_JWT_SECRET" "dev-internal-jwt-secret-32-bytes-min");
  internal_jwt_issuer = get_env_or_default env "INTERNAL_JWT_ISSUER" "python-templates-finch";
  internal_jwt_core_audience = get_env_or_default env "INTERNAL_JWT_CORE_AUDIENCE" "core-api";
  internal_jwt_active_kid = get_env_or_default env "INTERNAL_JWT_ACTIVE_KID" "";
  internal_jwt_crypto_audience =
      get_env_or_default env "INTERNAL_JWT_CRYPTO_AUDIENCE" "crypto-bff-decrypt";
  crypto_version = get_env_or_default env "CRYPTO_VERSION" "v1";
  crypto_mode = get_env_or_default env "CRYPTO_MODE" "field-values";
  crypto_fail_closed = is_true_env_default env "CRYPTO_FAIL_CLOSED" true;
  crypto_max_payload_size = get_env_int_or_default env "CRYPTO_MAX_PAYLOAD_SIZE" (pos (256 * 1024));
  crypto_log_ciphertext = is_true_env env "CRYPTO_LOG_CIPHERTEXT";
  crypto_log_plaintext = is_true_env env "CRYPTO_LOG_PLAINTEXT";
  crypto_required_endpoints = env "CRYPTO_REQUIRED_ENDPOINTS";
  crypto_keys = env "CRYPTO_KEYS";
  crypto_active_kid = env "CRYPTO_ACTIVE_KID";
  crypto_session_mode = env "CRYPTO_SESSION_MODE";
  crypto_session_backend = env "CRYPTO_SESSION_BACKEND";
  crypto_session_namespace = get_env_or_default env "CRYPTO_SESSION_NAMESPACE" "activity-log";
  crypto_session_redis_rollback = is_true_env env "CRYPTO_SESSION_REDIS_ROLLBACK";
  crypto_session_kek_active_kid = env "CRYPTO_SESSION_KEK_ACTIVE_KID";
  crypto_session_kek_active_b64 = env "CRYPTO_SESSION_KEK_ACTIVE_B64";
  crypto_session_kek_previous_kid = env "CRYPTO_SESSION_KEK_PREVIOUS_KID";
  crypto_session_kek_previous_b64 = env "CRYPTO_SESSION_KEK_PREVIOUS_B64";
  crypto_tenant_digest_key = env "CRYPTO_TENANT_DIGEST_KEY";
  management_core_base_url = env "MANAGEMENT_CORE_API_BASE_URL";
  identity_core_base_url = env "IDENTITY_CORE_API_BASE_URL";
  notification_cursor_secret =
      get_env_or_default env "NOTIFICATION_CURSOR_SECRET" "dev-notification-cursor-secret";
  notification_stream_max_seconds =
      get_env_int_or_default env "NOTIFICATION_STREAM_MAX_SECONDS" (pos 300);
  redis_url = get_env_or_default env "REDIS_URL" "";
  environment = get_env_or_default env "ENVIRONMENT" "development";
  keycloak_url = get_env_or_default env "KEYCLOAK_URL" "http://keycloak:8080";
  keycloak_public_url = get_env_or_default env "KEYCLOAK_PUBLIC_URL" "";
  keycloak_realm = get_env_or_default env "KEYCLOAK_REALM" "python-templates-finch";
  keycloak_client_id = get_env_or_default env "KEYCLOAK_CLIENT_ID" "webapp";
  keycloak_timeout_seconds = get_env_int_or_default env "KEYCLOAK_TIMEOUT_SECONDS" (pos 5);
  bff_oidc_redirect_uri =
      get_env_or_default env "BFF_OIDC_REDIRECT_URI" "http://localhost:8080/api/v1/auth/callback";
  bff_post_login_url = get_env_or_default env "BFF_POST_LOGIN_URL" "http://localhost:5173/";
  bff_post_logout_url = get_env_or_default env "BFF_POST_LOGOUT_URL" "http://localhost:5173/";
  bff_cookie_secure = is_true_env env "BFF_COOKIE_SECURE";
  bff_cookie_same_site = get_env_or_default env "BFF_COOKIE_SAMESITE" "lax";
}

-- http.SameSite
pub data SameSite : Type 0 where
  strict_mode : SameSite
  none_mode : SameSite
  lax_mode : SameSite

-- CookieSameSite
unfoldable pub cookie_same_site : Config → SameSite
cookie_same_site c =
    let v = to_lower (trim_space c.bff_cookie_same_site) in
    if v == "strict" then strict_mode else if v == "none" then none_mode else lax_mode
