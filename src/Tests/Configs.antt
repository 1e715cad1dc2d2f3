-- ===== src/Tests/Configs.antt =====
-- The settings at a concrete environment.
use bff_api_go_collection_ac.Base.{◌≡◌, refl, false, none, ◌==◌, ◌||◌, if◌then◌else◌}
use bff_api_go_collection_ac.Base.Texts.{
  trim_space, trim_left, trim_right, is_space, to_lower, lower_char,
}
use bff_api_go_collection_ac.FieldCrypto.Envelope.{has_prefix}
use bff_api_go_collection_ac.Config.{Environment, load, get_env_int_or_default, digits_onto}
use bff_api_go_collection_ac.Base.Ints.{pos, ◌*ℤ◌, ◌+ℤ◌, wrap}
use bff_api_go_collection_ac.Config.Guards.{
  is_development, is_insecure, is_no_https, enforce_production_secrets,
}
use bff_api_go_collection_ac.Config.Kept.{
  IsSecret, load-IsSecret, with_base_urls, enforce_production_secrets-with_base_urls,
}

abbrev production : Environment
production name =
    if name == "ENVIRONMENT"
    then "production"
    else if name == "API_BASE_URL" || name == "CRYPTO_BFF_URL"
    then " HTTPS://core.test"
    else "s3cr3t"

passed : enforce_production_secrets production ≡ none
unfolding enforce_production_secrets is_insecure is_no_https trim_space trim_left trim_right
    is_space to_lower lower_char has_prefix
passed = refl

not_development : is_development production ≡ false
unfolding trim_space trim_left trim_right is_space to_lower lower_char
not_development = refl

digits_of_port : get_env_int_or_default (λ name. "8o1") "PORT" (pos 7) ≡ pos 81
unfolding get_env_int_or_default digits_onto ◌*ℤ◌ ◌+ℤ◌ wrap
digits_of_port = refl

load-IsSecret_example :
    IsSecret "dev-internal-jwt-secret-32-bytes-min" (load production).internal_jwt_secret
    × IsSecret "dev-notification-cursor-secret" (load production).notification_cursor_secret
load-IsSecret_example = load-IsSecret production passed not_development

enforce_production_secrets-with_base_urls_example :
    (enforce_production_secrets (with_base_urls production "http://core" "http://crypto")
      ≡ enforce_production_secrets production)
    × ((load (with_base_urls production "http://core" "http://crypto")).core_base_url
        ≡ "http://core")
    × ((load (with_base_urls production "http://core" "http://crypto")).crypto_bff_base_url
        ≡ "http://crypto")
enforce_production_secrets-with_base_urls_example =
    enforce_production_secrets-with_base_urls production "http://core" "http://crypto" (λ e. cc)
      (λ e. cc)
