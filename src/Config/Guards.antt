-- ===== src/Config/Guards.antt =====
-- internal/infrastructure/config/guards.go. The code goes through its map of development values in
-- any order; here the order is that of the list, and only the names' order in the error hangs on it.
use bff_api_go_collection_ac.Base.{
  String, Bool, not, ◌||◌, ◌==◌, List, [], ◌∷◌, ◌++◌, Option, none, some, map, keep, if◌then◌else◌,
}
use bff_api_go_collection_ac.Base.Texts.{trim_space, to_lower}
use bff_api_go_collection_ac.FieldCrypto.Envelope.{has_prefix}
use bff_api_go_collection_ac.Config.{Environment}

-- A name, and its value in development.
abbrev pub dev_defaults : List (String × String)
dev_defaults =
    ("INTERNAL_JWT_SECRET", "dev-internal-jwt-secret-32-bytes-min")
    ∷ ("CORE_INTERNAL_TOKEN", "dev-internal-jwt-secret-32-bytes-min")
    ∷ ("NOTIFICATION_CURSOR_SECRET", "dev-notification-cursor-secret")
    ∷ ("VAULT_TOKEN", "root")
    ∷ []

abbrev pub production_mtls_identity : List String
production_mtls_identity =
    "MTLS_BUNDLE_JSON" ∷ "MTLS_EXPECTED_WORKLOAD_ID" ∷ "MTLS_EXPECTED_USAGE" ∷ []

abbrev pub production_https_urls : List String
production_https_urls = "API_BASE_URL" ∷ "CRYPTO_BFF_URL" ∷ []

abbrev pub name_of : String × String → String
name_of (name, value) = name

module _ (env : Environment) where
  abbrev pub is_blank : String → Bool
  is_blank name = trim_space (env name) == ""

  -- A secret that is missing, or that is the one of development.
  unfoldable pub is_insecure : String × String → Bool
  is_insecure (name, dev_value) =
      if is_blank name then not (dev_value == "") else env name == dev_value

  -- An address that is missing, or that is not one of https.
  unfoldable pub is_no_https : String → Bool
  is_no_https name =
      let value = to_lower (trim_space (env name)) in
      value == "" || not (has_prefix value "https://")

  -- strings.EqualFold with "development" is a comparison of the lower case.
  abbrev pub is_development : Bool
  is_development =
      to_lower (trim_space (env "ENVIRONMENT")) == "development" || env "ENVIRONMENT" == ""

  abbrev pub violations : List String
  violations =
      map name_of (keep is_insecure dev_defaults)
      ++ (keep is_blank production_mtls_identity ++ keep is_no_https production_https_urls)

  abbrev pub refusal_of : List String → Option (List String)
  refusal_of [] = none
  refusal_of (name ∷ names) = some (name ∷ names)

  -- EnforceProductionSecrets: the violations of an InsecureDefaultError, or none.
  unfoldable pub enforce_production_secrets : Option (List String)
  enforce_production_secrets = if is_development then none else refusal_of violations
